-- ===== src/Connection/Order.antt =====
-- The order of a connection attempt, wherever it ends.
use bloop_client_framework.Base.{
  Bool, ◌∷◌, Result, ok, err, ◌≡◌, refl, subst, Option-cases, inl, inr,
}
use bloop_client_framework.Connection.{
  ConnectError, encode_failed, ConnectOptions, Connection, fresh, ◌>>=◌, done, map_err, write, read,
  request_raw, request_frame, negotiate_version, authenticate, within_timeout, open_stream,
  authenticated_outcome, connect_negotiated, connect_opened, connect,
}
use bloop_client_framework.Connection.Effects.{Grows, open_stream-Grows, within_timeout-Grows}
use bloop_client_framework.Connection.Binds.{bind-cases}
use bloop_client_framework.Connection.Exchanged.{Exchanged, frame-eq-ok}
use bloop_client_framework.Connection.Handshake.{handshake_result-eq-ok}
use bloop_client_framework.Outside.{
  Stream, ConnectionConfig, Event, looked_up, socket, opened, elapsed, wrote, awaited, Trace, Env,
}
use bloop_client_framework.Protocol.{Protocol}
use bloop_client_framework.Request.{decode_response}

-- An event of the opening of a stream, or its timeout.
abbrev pub IsDialling : {P : Protocol} → Event P → Type 0
IsDialling (looked_up _ _) = Unit
IsDialling socket = Unit
IsDialling (opened _) = Unit
IsDialling (elapsed _) = Unit
IsDialling _ = ⊥

module _ (P : Protocol) (E : Env P) where
  -- How far an exchange came: the message was not encoded, was handed over, or an answer was awaited.
  pub data Tried (c : Connection P) (encoded : Result P.RawMessage P.EncodeError) (before : Trace P)
      : Trace P → Type 0 where
    unsent : Tried c encoded before before
    sent : (m : P.RawMessage) → encoded ≡ ok m → Tried c encoded before (wrote c.stream m ∷ before)
    heard :
        (m : P.RawMessage)
        → encoded ≡ ok m
        → Tried c encoded before (awaited c.stream c.max_payload_len ∷ wrote c.stream m ∷ before)

  request_frame-Tried :
      (c : Connection P) (m : P.RawMessage) (before : Trace P)
      → Tried c (ok m) before (request_frame P E c m before).1
  unfolding request_raw write read
  request_frame-Tried c m before = elim (Option-cases (E.write_frame before c.stream m)) [
    | inr (x, failed) ↦ rw (failed, request_raw, write) (sent m refl)
    | inl delivered ↦ rw (delivered, request_raw, write, read) (heard m refl)
  ]

  frame-Tried :
      {A : Type 0} (c : Connection P) (encoded : Result P.RawMessage P.EncodeError)
      (f : P.RawMessage → Result A (ConnectError P E)) (before : Trace P)
      → Tried c encoded before
          ((done (map_err encode_failed encoded) >>= λ message.
              request_frame P E c message >>= λ raw. done (f raw))
            before).1
  frame-Tried c (err x) f before = unsent
  frame-Tried c (ok m) f before =
      bind-cases (request_frame P E c m) (λ raw. done (f raw)) before
        (λ x. Tried c (ok m) before x.1) (λ raw t e. at (ok raw) t e) λ x t e. at (err x) t e
    where
      at :
          (r : Result P.RawMessage (ConnectError P E)) (t : Trace P)
          → request_frame P E c m before ≡ (r, t)
          → Tried c (ok m) before t
      at r t e = subst (λ x. Tried c (ok m) before x.1) e (request_frame-Tried c m before)

module _ (P : Protocol) (E : Env P) (config : ConnectionConfig) (options : ConnectOptions)
    (before : Trace P) where
  -- A stream opened in time.
  pub record Opened : Type 0 where
    pub stream : Stream
    pub ip : P.IpAddr
    pub secured : Trace P
    pub opens :
        within_timeout P E options.io_timeout (open_stream P E config) before
        ≡ (ok (stream, ip), secured)
    pub dials : Grows IsDialling before secured

  -- The acceptance of version 3 on it.
  pub record Welcomed (o : Opened) : Type 0 where
    pub greeting : P.RawMessage
    pub welcome : P.RawMessage
    pub capabilities : P.Capabilities
    pub negotiated : Trace P
    pub greets : P.encode_client_handshake 3 3 ≡ ok greeting
    pub negotiates : Exchanged P E (fresh P o.stream) greeting welcome o.secured negotiated
    pub accepts : decode_response P P.decode_server_handshake welcome ≡ ok (3, capabilities)

  -- How far an attempt came: the opening of a stream, the handshake on it, or the authentication
  -- behind its acceptance.
  pub data Reached : Trace P → Type 0 where
    dialling : {after : Trace P} → Grows IsDialling before after → Reached after
    greeting :
        {after : Trace P} (o : Opened)
        → Tried P E (fresh P o.stream) (P.encode_client_handshake 3 3) o.secured after
        → Reached after
    identifying :
        {after : Trace P} (o : Opened) (w : Welcomed o)
        → Tried P E
            (record (fresh P o.stream) { capabilities = w.capabilities })
            (P.encode_authentication config.client_id config.client_secret o.ip)
            w.negotiated
            after
        → Reached after

  Opened-Reached :
      (o : Opened) → Reached (connect_opened P E config options o.ip (fresh P o.stream) o.secured).1
  unfolding connect_opened connect_negotiated negotiate_version authenticate
  Opened-Reached o =
      bind-cases (negotiate_version P E (fresh P o.stream))
        (λ n.
          connect_negotiated P E config options o.ip
            (record (fresh P o.stream) { capabilities = n }))
        o.secured (λ x. Reached x.1)
        (λ n negotiated e.
          let (greeting', welcome, greets, accepts, negotiates) =
            frame-eq-ok P E (fresh P o.stream) _ _ e in
          let w : Welcomed o = record {
            greeting = greeting';
            welcome = welcome;
            capabilities = n;
            negotiated = negotiated;
            greets = greets;
            negotiates = negotiates;
            accepts = handshake_result-eq-ok P E _ accepts;
          } in
          bind-cases (authenticate P E (record (fresh P o.stream) { capabilities = n }) config o.ip)
            (λ a. done (
              ok (
                authenticated_outcome P E options (record (fresh P o.stream) { capabilities = n })
                  a)))
            negotiated (λ x. Reached x.1) (λ b t k. identified w (ok b) t k)
            λ x t k. identified w (err x) t k)
        λ x t e. greeting o (
          subst (λ r. Tried P E (fresh P o.stream) (P.encode_client_handshake 3 3) o.secured r.1) e
            (frame-Tried P E (fresh P o.stream) _ _ o.secured))
    where
      identified :
          (w : Welcomed o) (r : Result Bool (ConnectError P E)) (t : Trace P)
          → authenticate P E
              (record (fresh P o.stream) { capabilities = w.capabilities })
              config
              o.ip
              w.negotiated
            ≡ (r, t)
          → Reached t
      identified w r t k = identifying o w (
          subst
            (λ r.
              Tried P E (record (fresh P o.stream) { capabilities = w.capabilities })
                (P.encode_authentication config.client_id config.client_secret o.ip) w.negotiated
                r.1)
            k
            (frame-Tried P E (record (fresh P o.stream) { capabilities = w.capabilities }) _ _
              w.negotiated))

  -- However an attempt ends, its trace shows how far it came, and in which order: the lookup, the
  -- socket and the session of a stream, or the timeout; with a stream that opened in time, at most
  -- the handshake and the wait for its answer; and only when that answer accepts version 3, at most
  -- the credentials, on that stream, and the wait for the verdict. Either wait is for at most 1024
  -- bytes of payload.
  pub connect-Reached : Reached (connect P E config options before).1
  unfolding connect
  connect-Reached =
      bind-cases (within_timeout P E options.io_timeout (open_stream P E config))
        (λ s. connect_opened P E config options s.1 (fresh P s.0)) before (λ x. Reached x.1)
        (λ s secured e. Opened-Reached (record {
          stream = s.0;
          ip = s.1;
          secured = secured;
          opens = e;
          dials =
              subst (λ x. Grows IsDialling before x.1) e
                (within_timeout-Grows P E options.io_timeout (open_stream P E config) before tt
                  (open_stream-Grows P E config before tt tt λ _. tt));
        }))
        λ x t e. dialling (
          subst (λ x. Grows IsDialling before x.1) e
            (within_timeout-Grows P E options.io_timeout (open_stream P E config) before tt
              (open_stream-Grows P E config before tt tt λ _. tt)))
