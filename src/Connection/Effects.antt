-- ===== src/Connection/Effects.antt =====
-- What the operations of a connection add to the trace: only what they do on the network.
use Prim.Native.String.{String}
use bloop_client_framework.Base.{
  Result-cases, ℕ, zero, suc, ◌-◌, ◌≤◌, ◌∷◌, Result, ok, err, length, drop, ◌≡◌, refl, arith, inl,
  inr, Option-cases,
}
use bloop_client_framework.Connection.{
  Connection, ConnectError, ConnectOptions, Io, ◌>>=◌, done, request_raw, write, read, exchange,
  ping, quit, negotiate_version, authenticate, open_stream, within_timeout, connect, connect_opened,
  connect_negotiated, authenticated_outcome, fresh, map_err, encode_failed, request_frame,
  handshake_result, authentication_result, io, look_up, open_socket, server_name, open_tls,
}
use bloop_client_framework.Outside.{
  ConnectionConfig, Event, looked_up, socket, opened, awaited, elapsed, published, responded,
  acknowledged, Trace, Env, Stream, timeout,
}
use bloop_client_framework.Protocol.{Protocol}
use bloop_client_framework.Request.{encode, decode_response}

-- `after` is `before` with events of a kind on top of it.
pub data Grows {P : Protocol} (Q : Event P → Type 0) (before : Trace P) : Trace P → Type 0 where
  same : Grows Q before before
  more : {e : Event P} {after : Trace P} → Q e → Grows Q before after → Grows Q before (e ∷ after)

-- An event on the network, where no frame longer than `limit` is awaited.
abbrev pub IsNetwork : {P : Protocol} → ℕ → Event P → Type 0
IsNetwork limit (awaited _ n) = n ≡ limit
IsNetwork limit (published _) = ⊥
IsNetwork limit (responded _ _) = ⊥
IsNetwork limit (acknowledged _) = ⊥
IsNetwork limit _ = Unit

module _ {P : Protocol} {Q : Event P → Type 0} where
  pub Grows-trans : {s t u : Trace P} → Grows Q s t → Grows Q t u → Grows Q s u
  Grows-trans g same = g
  Grows-trans g (more q h) = more q (Grows-trans g h)

  Grows-length : {s t : Trace P} → Grows Q s t → length s ≤ length t
  Grows-length same = omega arith
  Grows-length (more q g) = omega (arith, Grows-length g)

  Grows-drop :
      {s : Trace P} (n : ℕ) {t : Trace P}
      → Grows Q s t
      → n ≤ length t - length s
      → Grows Q s (drop n t)
  Grows-drop zero g h = g
  Grows-drop (suc n) same h = absurd (omega arith)
  Grows-drop (suc n) (more q g) h = Grows-drop n g (omega (arith, Grows-length g))

module _ {P : Protocol} {A B X : Type 0} {Q : Event P → Type 0} where
  Grows-case :
      (before after : Trace P) (r : Result A X) (f : A → Io P B X)
      → Grows Q before after
      → ((a : A) (t : Trace P) → Grows Q t (f a t).1)
      → Grows Q before
          (let s : Result B X × Trace P = elim r [ ok a ↦ f a after | err e ↦ (err e, after) ] in
            s).1
  Grows-case before after (ok a) f g h = Grows-trans g (h a after)
  Grows-case before after (err e) f g h = g

  Grows-bind :
      (m : Io P A X) (f : A → Io P B X) (trace : Trace P)
      → Grows Q trace (m trace).1
      → ((a : A) (t : Trace P) → Grows Q t (f a t).1)
      → Grows Q trace ((m >>= f) trace).1
  Grows-bind m f trace g h = Grows-case trace (m trace).1 (m trace).0 f g h

module _ (P : Protocol) (E : Env P) where
  pub timeout-Grows :
      {A : Type 0} {Q : Event P → Type 0} (duration : ℕ) (future : Trace P → A × Trace P)
      (trace : Trace P)
      → Q (elapsed duration)
      → Grows Q trace (future trace).1
      → Grows Q trace (timeout P E duration future trace).1
  unfolding timeout
  timeout-Grows duration future trace q g = elim (Option-cases (E.deadline trace duration)) [
    | inl in_time ↦ rw (in_time, timeout) g
    | inr (lost, late) ↦ rw (late, timeout) (more q (Grows-drop _ g (omega arith)))
  ]

  pub request_raw-Grows :
      (c : Connection P) (message : P.RawMessage) (trace : Trace P)
      → Grows (IsNetwork c.max_payload_len) trace (request_raw P E c message trace).1
  unfolding request_raw
  request_raw-Grows c message trace =
      Grows-bind (write P E c message) (λ _. read P E c) trace (more tt same)
        (λ _ t. more refl same)

  pub exchange-Grows :
      (c : Connection P) (message : P.RawMessage) (trace : Trace P)
      → Grows (IsNetwork c.max_payload_len) trace (exchange P E c message trace).1
  unfolding exchange
  exchange-Grows c message trace = request_raw-Grows c message trace

  pub quit-Grows :
      (c : Connection P) (trace : Trace P)
      → Grows (IsNetwork c.max_payload_len) trace (quit P E c trace)
  unfolding quit
  quit-Grows c trace = elim (Result-cases P.encode_quit) [
    | inl (message, e) ↦ rw (e, quit) (more tt same)
    | inr (e', e) ↦ rw (e, quit) same
  ]

  pub ping-Grows :
      (c : Connection P) (trace : Trace P)
      → Grows (IsNetwork c.max_payload_len) trace (ping P E c trace).1
  unfolding ping
  ping-Grows c trace =
      Grows-bind (done (map_err encode P.encode_ping))
        (λ message. exchange P E c message >>= λ raw. done (decode_response P P.decode_pong raw))
        trace same
        λ message t.
          Grows-bind (exchange P E c message) (λ raw. done (decode_response P P.decode_pong raw)) t
            (exchange-Grows c message t) λ raw u. same

  -- An encoded message, its exchange, and what is made of the answer.
  encoded_frame-Grows :
      {A : Type 0} (c : Connection P) (encoded : Result P.RawMessage P.EncodeError)
      (f : P.RawMessage → Result A (ConnectError P E)) (trace : Trace P)
      → Grows
          (IsNetwork c.max_payload_len)
          trace
          ((done (map_err encode_failed encoded) >>= λ message.
              request_frame P E c message >>= λ raw. done (f raw))
            trace).1
  encoded_frame-Grows c encoded f trace =
      Grows-bind (done (map_err encode_failed encoded))
        (λ message. request_frame P E c message >>= λ raw. done (f raw)) trace same
        λ message t.
          Grows-bind (request_frame P E c message) (λ raw. done (f raw)) t
            (request_raw-Grows c message t) λ raw u. same

  negotiate_version-Grows :
      (c : Connection P) (trace : Trace P)
      → Grows (IsNetwork c.max_payload_len) trace (negotiate_version P E c trace).1
  unfolding negotiate_version
  negotiate_version-Grows c trace =
      encoded_frame-Grows c (P.encode_client_handshake 3 3)
        (λ raw. handshake_result P E (decode_response P P.decode_server_handshake raw)) trace

  authenticate-Grows :
      (c : Connection P) (config : ConnectionConfig) (ip : P.IpAddr) (trace : Trace P)
      → Grows (IsNetwork c.max_payload_len) trace (authenticate P E c config ip trace).1
  unfolding authenticate
  authenticate-Grows c config ip trace =
      encoded_frame-Grows c (P.encode_authentication config.client_id config.client_secret ip)
        (λ raw. authentication_result P E (decode_response P P.decode_authentication_accepted raw))
        trace

  -- The events of the opening of a stream are a lookup, a socket and a session.
  pub open_stream-Grows :
      {Q : Event P → Type 0} (config : ConnectionConfig) (trace : Trace P)
      → Q (looked_up config.host config.port)
      → Q socket
      → ((s : Stream) → Q (opened s))
      → Grows Q trace (open_stream P E config trace).1
  unfolding open_stream
  open_stream-Grows config trace q r o =
      Grows-bind (look_up P E config) (λ a. open_socket P E a >>= λ s. with_socket s) trace
        (unfold look_up in more q same)
        λ a t.
          Grows-bind (open_socket P E a) with_socket t (unfold open_socket in more r same) λ s u.
            Grows-bind (done (map_err io (E.local_ip s))) (λ ip. with_ip s ip) u same
              λ ip v.
                Grows-bind (done (server_name P E config)) (λ domain. with_domain s ip domain) v
                  same
                  λ d w.
                    Grows-bind (open_tls P E d s) (λ stream. done (ok (stream, ip))) w
                      (unfold open_tls in more (o (length w)) same) λ stream x. same
    where
      with_domain : E.Tcp → P.IpAddr → String → Io P (Stream × P.IpAddr) (ConnectError P E)
      with_domain s ip domain = open_tls P E domain s >>= λ stream. done (ok (stream, ip))

      with_ip : E.Tcp → P.IpAddr → Io P (Stream × P.IpAddr) (ConnectError P E)
      with_ip s ip = done (server_name P E config) >>= λ domain. with_domain s ip domain

      with_socket : E.Tcp → Io P (Stream × P.IpAddr) (ConnectError P E)
      with_socket s = done (map_err io (E.local_ip s)) >>= λ ip. with_ip s ip

  pub within_timeout-Grows :
      {A : Type 0} {Q : Event P → Type 0} (duration : ℕ) (m : Io P A (ConnectError P E))
      (trace : Trace P)
      → Q (elapsed duration)
      → Grows Q trace (m trace).1
      → Grows Q trace (within_timeout P E duration m trace).1
  unfolding within_timeout
  within_timeout-Grows duration m trace q g = timeout-Grows duration m trace q g

  -- A connection attempt does nothing but network operations, and awaits no frame with a payload
  -- longer than 1024 bytes, whatever limit is configured and however the attempt ends.
  pub connect-Grows :
      (config : ConnectionConfig) (options : ConnectOptions) (trace : Trace P)
      → Grows (IsNetwork 1024) trace (connect P E config options trace).1
  unfolding connect connect_opened connect_negotiated
  connect-Grows config options trace =
      Grows-bind (within_timeout P E options.io_timeout (open_stream P E config))
        (λ s. connect_opened P E config options s.1 (fresh P s.0)) trace
        (within_timeout-Grows options.io_timeout (open_stream P E config) trace tt
          (open_stream-Grows config trace tt tt λ _. tt))
        λ s t.
          Grows-bind (negotiate_version P E (fresh P s.0))
            (λ n.
              connect_negotiated P E config options s.1 (record (fresh P s.0) { capabilities = n }))
            t (negotiate_version-Grows (fresh P s.0) t)
            λ n u.
              Grows-bind (authenticate P E (record (fresh P s.0) { capabilities = n }) config s.1)
                (λ a. done (
                  ok (
                    authenticated_outcome P E options (record (fresh P s.0) { capabilities = n })
                      a)))
                u (authenticate-Grows (record (fresh P s.0) { capabilities = n }) config s.1 u)
                λ a v. same
