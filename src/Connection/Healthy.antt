-- ===== src/Connection/Healthy.antt =====
-- An environment in which all goes well, and what an attempt and a ping come to in it.
use Prim.Native.String.{String}
use bloop_client_framework.Base.{
  ℕ, true, List, ◌∷◌, none, some, Result, ok, length, ◌≡◌, refl, ◌∙◌, ap,
}
use bloop_client_framework.Connection.{
  ConnectError, io, Connection, ConnectOptions, connected, Io, ◌>>=◌, done, map_err, fresh,
  handshake_limit, request_raw, write, read, exchange, ping, connect, open_stream, within_timeout,
  look_up, first_address, open_socket, server_name, open_tls,
}
use bloop_client_framework.Connection.Binds.{ok-bind-eq}
use bloop_client_framework.Connection.Exchanged.{Exchanged}
use bloop_client_framework.Connection.Handshake.{connect-Handshaken}
use bloop_client_framework.Outside.{
  Stream, ConnectionConfig, wrote, awaited, Trace, Env, timeout, looked_up, socket, opened,
}
use bloop_client_framework.Protocol.{Protocol}
use bloop_client_framework.Request.{encode, decode_response}

module _ (P : Protocol) (E : Env P) where
  -- A message is encoded, and every stream answers to it with a frame that is accepted.
  abbrev pub IsAnswered :
      {M : Type 0}
      → Result P.RawMessage P.EncodeError
      → (P.RawMessage → Result M P.MessageSetError)
      → (M → Type 0)
      → Type 0
  IsAnswered encoded decode Q =
      (message : P.RawMessage) × (encoded ≡ ok message)
      × ((trace : Trace P) (s : Stream) (limit : ℕ)
          → (raw : P.RawMessage) × (E.read_frame (wrote s message ∷ trace) s limit ≡ ok raw)
            × ((m : _) × (decode_response P decode raw ≡ ok m) × Q m))

  -- An environment in which all goes well for this configuration: nothing times out or fails, and the
  -- server accepts the version, the credentials and every ping.
  pub record IsHealthy (config : ConnectionConfig) : Type 0 where
    pub in_time : (trace : Trace P) (duration : ℕ) → E.deadline trace duration ≡ none
    pub resolves :
        (trace : Trace P)
        → (a : E.Address) × (others : List E.Address) × (E.lookup_host trace config.host config.port
            ≡ ok (a ∷ others))
    pub dials : (trace : Trace P) (a : E.Address) → (tcp : E.Tcp) × (E.tcp_connect trace a ≡ ok tcp)
    pub located : (tcp : E.Tcp) → (ip : P.IpAddr) × (E.local_ip tcp ≡ ok ip)
    pub named : E.is_server_name config.host ≡ true
    pub secures : (trace : Trace P) (tcp : E.Tcp) → E.tls_connect trace config.host tcp ≡ none
    pub writes :
        (trace : Trace P) (s : Stream) (message : P.RawMessage)
        → E.write_frame trace s message ≡ none
    pub welcomes :
        IsAnswered (P.encode_client_handshake 3 3) P.decode_server_handshake (λ h. h.0 ≡ 3)
    pub admits :
        (ip : P.IpAddr)
        → IsAnswered
            (P.encode_authentication config.client_id config.client_secret ip)
            P.decode_authentication_accepted
            (λ _. Unit)
    pub pongs : IsAnswered P.encode_ping P.decode_pong (λ _. Unit)

  -- A future that is in time.
  pub timeout-in_time :
      {A : Type 0} (duration : ℕ) (m : Trace P → A × Trace P) (before : Trace P)
      → E.deadline before duration ≡ none
      → timeout P E duration m before ≡ (some (m before).0, (m before).1)
  unfolding timeout
  timeout-in_time duration m before e = rw (e, timeout) refl

  within_timeout-in_time :
      {A : Type 0} (duration : ℕ) (m : Io P A (ConnectError P E)) (before : Trace P)
      → E.deadline before duration ≡ none
      → within_timeout P E duration m before ≡ m before
  unfolding within_timeout
  within_timeout-in_time duration m before e =
      rw (timeout-in_time duration m before e, within_timeout) refl

  open_stream-opens :
      (config : ConnectionConfig) (before : Trace P)
      → IsHealthy config
      → (s : Stream) × (ip : P.IpAddr) × (after : Trace P) × (open_stream P E config before
          ≡ (ok (s, ip), after))
  unfolding open_stream look_up first_address open_socket server_name open_tls
  open_stream-opens config before h =
      let looked : Trace P = looked_up config.host config.port ∷ before in
      let dialling : Trace P = socket ∷ looked in
      let (a, others, resolved) = h.resolves before in
      let (tcp, dialled) = h.dials looked a in
      let (ip, located) = h.located tcp in
      (
        length dialling,
        ip,
        opened (length dialling) ∷ dialling,
        ok-bind-eq (look_up P E config) (λ x. open_socket P E x >>= with_socket) before a looked
            (rw resolved refl)
            (ok-bind-eq (open_socket P E a) with_socket looked tcp dialling (rw dialled refl) (
              ok-bind-eq (done (map_err io (E.local_ip tcp))) (with_ip tcp) dialling ip dialling
                (rw located refl)
                (ok-bind-eq (done (server_name P E config)) (with_domain tcp ip) dialling
                  config.host dialling (rw h.named refl)
                  (ok-bind-eq (open_tls P E config.host tcp) (λ stream. done (ok (stream, ip)))
                    dialling (length dialling) (opened (length dialling) ∷ dialling)
                    (rw (h.secures dialling tcp) refl) refl)))),
      )
    where
      with_domain : E.Tcp → P.IpAddr → String → Io P (Stream × P.IpAddr) (ConnectError P E)
      with_domain tcp ip domain = open_tls P E domain tcp >>= λ stream. done (ok (stream, ip))

      with_ip : E.Tcp → P.IpAddr → Io P (Stream × P.IpAddr) (ConnectError P E)
      with_ip tcp ip = done (server_name P E config) >>= λ domain. with_domain tcp ip domain

      with_socket : E.Tcp → Io P (Stream × P.IpAddr) (ConnectError P E)
      with_socket tcp = done (map_err io (E.local_ip tcp)) >>= λ ip. with_ip tcp ip

  exchanged :
      (config : ConnectionConfig) (c : Connection P) (message raw : P.RawMessage) (before : Trace P)
      → IsHealthy config
      → E.read_frame (wrote c.stream message ∷ before) c.stream c.max_payload_len ≡ ok raw
      → Exchanged P E c message raw before
          (awaited c.stream c.max_payload_len ∷ wrote c.stream message ∷ before)
  exchanged config c message raw before h e = record {
    sent = h.writes before c.stream message;
    answered = e;
    events = refl;
  }

  -- There, an attempt ends with a connection,
  pub connect-IsHealthy :
      (config : ConnectionConfig) (options : ConnectOptions) (before : Trace P)
      → IsHealthy config
      → (c : Connection P) × (after : Trace P) × (connect P E config options before
          ≡ (ok (connected c), after))
  connect-IsHealthy config options before h =
      let (s, ip, secured, opens) = open_stream-opens config before h in
      let (greeting, greets, welcomes) = h.welcomes in
      let (welcome, welcomed, (m, decodes, version)) = welcomes secured s handshake_limit in
      let c : Connection P = record (fresh P s) { capabilities = m.1 } in
      let negotiated : Trace P = awaited s handshake_limit ∷ wrote s greeting ∷ secured in
      let (credentials, identifies, admits) = h.admits ip in
      let (verdict, answered, (u, accepted, _)) = admits negotiated s handshake_limit in
      (
        record c { max_payload_len = options.max_payload_len },
        awaited s handshake_limit ∷ wrote s credentials ∷ negotiated,
        (connect-Handshaken P E config options _ before _).1 (record {
          stream = s;
          ip = ip;
          capabilities = m.1;
          greeting = greeting;
          welcome = welcome;
          credentials = credentials;
          verdict = verdict;
          secured = secured;
          negotiated = negotiated;
          opens =
              within_timeout-in_time options.io_timeout (open_stream P E config) before
                (h.in_time before options.io_timeout)
              ∙ opens;
          greets = greets;
          negotiates = exchanged config (fresh P s) greeting welcome secured h welcomed;
          accepts = decodes ∙ ap (λ n. ok (n, m.1)) version;
          identifies = identifies;
          authenticates = exchanged config c credentials verdict negotiated h answered;
          decides = (accepted, refl);
        }),
      )

  -- and a ping with a pong.
  pub ping-IsHealthy :
      (config : ConnectionConfig) (c : Connection P) (before : Trace P)
      → IsHealthy config
      → (after : Trace P) × (ping P E c before ≡ (ok tt, after))
  unfolding ping exchange request_raw write read
  ping-IsHealthy config c before h =
      let (message, encodes, pongs) = h.pongs in
      let (raw, answered, (u, decodes, _)) = pongs before c.stream c.max_payload_len in
      (
        awaited c.stream c.max_payload_len ∷ wrote c.stream message ∷ before,
        ok-bind-eq (done (map_err encode P.encode_ping))
            (λ m. exchange P E c m >>= λ r. done (decode_response P P.decode_pong r)) before message
            before (rw encodes refl)
            (ok-bind-eq (exchange P E c message) (λ r. done (decode_response P P.decode_pong r))
              before raw (awaited c.stream c.max_payload_len ∷ wrote c.stream message ∷ before)
              (rw (h.writes before c.stream message, answered) refl) (rw decodes refl)),
      )
