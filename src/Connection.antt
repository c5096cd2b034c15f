-- ===== src/Connection.antt =====
-- src/connection.rs: one connection and its establishment.
pub mod Session
pub mod Limits
pub mod Effects
pub mod Binds
pub mod Exchanged
pub mod Handshake
pub mod Healthy
pub mod Order
use Prim.Native.String.{String}
use bloop_client_framework.Base.{
  ℕ, Bool, true, false, not, List, [], ◌∷◌, Option, none, some, ◌==◌, if◌then◌else◌, length, Result,
  ok, err, Bytes,
}
use bloop_client_framework.Outside.{
  Stream, ConnectionConfig, Event, looked_up, socket, opened, wrote, awaited, Trace, Env, timeout,
}
use bloop_client_framework.Protocol.{Protocol}
use bloop_client_framework.Request.{RequestError, disconnected, error, encode, decode_response}

pub data ConnectError (P : Protocol) (E : Env P) : Type 0 where
  resolve : String → ConnectError P E
  invalid_dns_name : String → ConnectError P E
  io : E.IoError → ConnectError P E
  frame : P.FrameError → ConnectError P E
  encode_failed : P.EncodeError → ConnectError P E
  timed_out : ConnectError P E
  unsupported_version : ℕ → ConnectError P E
  unsupported_version_range : ConnectError P E
  unexpected : RequestError P → ConnectError P E

pub record ConnectOptions : Type 0 where
  pub io_timeout : ℕ
  pub max_payload_len : ℕ

pub record Connection (P : Protocol) : Type 0 where
  pub stream : Stream
  pub capabilities : P.Capabilities
  pub max_payload_len : ℕ

pub data ConnectOutcome (P : Protocol) : Type 0 where
  connected : Connection P → ConnectOutcome P
  invalid_credentials : ConnectOutcome P

abbrev pub handshake_limit : ℕ
handshake_limit = 1024

-- The connection of `connect` before its handshake.
abbrev pub fresh : (P : Protocol) → Stream → Connection P
fresh P s = record {
  stream = s;
  capabilities = P.no_capabilities;
  max_payload_len = handshake_limit;
}

-- A fallible computation on the trace, and the `?` operator.
abbrev pub Io : Protocol → Type 0 → Type 0 → Type 0
Io P A X = Trace P → Result A X × Trace P

module _ {P : Protocol} {A B X : Type 0} where
  infixl 5 ◌>>=◌
  abbrev pub ◌>>=◌ : Io P A X → (A → Io P B X) → Io P B X
  ◌>>=◌ m f trace = let (r, after) = m trace in elim r [ ok a ↦ f a after | err e ↦ (err e, after) ]

abbrev pub done : {P : Protocol} {A X : Type 0} → Result A X → Io P A X
done r trace = (r, trace)

abbrev pub map_err : {A X Y : Type 0} → (X → Y) → Result A X → Result A Y
map_err f (ok a) = ok a
map_err f (err e) = err (f e)

module _ (P : Protocol) (E : Env P) where
  open P use {
    RawMessage, FrameError, EncodeError, MessageSetError, Capabilities, no_capabilities, IpAddr,
    Uuid, encode_ping, encode_quit, encode_client_handshake, encode_authentication,
    encode_retrieve_audio, decode_pong, decode_server_handshake, decode_authentication_accepted,
    decode_audio_data, is_unsupported_version_range, is_invalid_credentials,
  }
  open E use {
    IoError, Tcp, lookup_host, tcp_connect, local_ip, is_server_name, tls_connect, write_frame,
    read_frame,
  }

  -- The frame functions of bloop_protocol on a stream of the connection.
  unfoldable pub write : Connection P → RawMessage → Io P (Unit {0}) FrameError
  write c message trace = (
    elim (write_frame trace c.stream message) [ none ↦ ok tt | some e ↦ err e ],
    wrote c.stream message ∷ trace,
  )

  unfoldable pub read : Connection P → Io P RawMessage FrameError
  read c trace =
      (read_frame trace c.stream c.max_payload_len, awaited c.stream c.max_payload_len ∷ trace)

  unfoldable pub request_raw : Connection P → RawMessage → Io P RawMessage FrameError
  unfolding write read
  request_raw c message = write c message >>= λ _. read c

  -- `request_raw(…).await.map_err(|_| RequestError::Disconnected)`
  unfoldable pub exchange : Connection P → RawMessage → Io P RawMessage (RequestError P)
  unfolding request_raw
  exchange c message trace =
      let (r, after) = request_raw c message trace in (map_err (λ _. disconnected) r, after)

  unfoldable pub ping : Connection P → Io P (Unit {0}) (RequestError P)
  unfolding exchange
  ping c = do
    message ← done (map_err encode encode_ping)
    raw ← exchange c message
    done (decode_response P decode_pong raw)

  unfoldable pub quit : Connection P → Trace P → Trace P
  unfolding write
  quit c trace = elim encode_quit [ ok message ↦ (write c message trace).1 | err _ ↦ trace ]

  -- The answers to the handshake and to the authentication.
  unfoldable pub handshake_result :
      Result (ℕ × Capabilities) (RequestError P) → Result Capabilities (ConnectError P E)
  handshake_result (ok (accepted_version, capabilities)) =
      if accepted_version == 3 then ok capabilities else err (unsupported_version accepted_version)
  handshake_result (err (error e)) =
      if is_unsupported_version_range e
      then err unsupported_version_range
      else err (unexpected (error e))
  handshake_result (err e) = err (unexpected e)

  authentication_result : Result (Unit {0}) (RequestError P) → Result Bool (ConnectError P E)
  authentication_result (ok _) = ok true
  authentication_result (err (error e)) =
      if is_invalid_credentials e then ok false else err (unexpected (error e))
  authentication_result (err e) = err (unexpected e)

  -- `request_raw(…).await?` in a function that returns a `ConnectError`
  abbrev pub request_frame : Connection P → RawMessage → Io P RawMessage (ConnectError P E)
  request_frame c message trace =
      let (r, after) = request_raw c message trace in (map_err frame r, after)

  unfoldable pub negotiate_version : Connection P → Io P Capabilities (ConnectError P E)
  unfolding request_raw handshake_result
  negotiate_version c = do
    message ← done (map_err encode_failed (encode_client_handshake 3 3))
    raw ← request_frame c message
    done (handshake_result (decode_response P decode_server_handshake raw))

  unfoldable pub authenticate :
      Connection P → ConnectionConfig → IpAddr → Io P Bool (ConnectError P E)
  unfolding request_raw authentication_result
  authenticate c config ip = do
    message ←
        done
          (map_err encode_failed (encode_authentication config.client_id config.client_secret ip))
    raw ← request_frame c message
    done (authentication_result (decode_response P decode_authentication_accepted raw))

  first_address :
      ConnectionConfig → Result (List E.Address) IoError → Result E.Address (ConnectError P E)
  first_address config (ok (address ∷ _)) = ok address
  first_address config (ok []) = err (resolve config.host)
  first_address config (err _) = err (resolve config.host)

  -- The steps of the block under the first timeout of `connect`.
  look_up : ConnectionConfig → Io P E.Address (ConnectError P E)
  unfolding first_address
  look_up config trace = (
    first_address config (lookup_host trace config.host config.port),
    looked_up config.host config.port ∷ trace,
  )

  open_socket : E.Address → Io P Tcp (ConnectError P E)
  open_socket address trace = (map_err io (tcp_connect trace address), socket ∷ trace)

  server_name : ConnectionConfig → Result String (ConnectError P E)
  server_name config =
      if is_server_name config.host then ok config.host else err (invalid_dns_name config.host)

  open_tls : String → Tcp → Io P Stream (ConnectError P E)
  open_tls domain tcp_stream trace = (
    elim (tls_connect trace domain tcp_stream) [ none ↦ ok (length trace) | some e ↦ err (io e) ],
    opened (length trace) ∷ trace,
  )

  -- That block: the stream and the local address.
  unfoldable pub open_stream : ConnectionConfig → Io P (Stream × IpAddr) (ConnectError P E)
  unfolding look_up open_socket server_name open_tls
  open_stream config = do
    address ← look_up config
    tcp_stream ← open_socket address
    ip ← done (map_err io (local_ip tcp_stream))
    domain ← done (server_name config)
    stream ← open_tls domain tcp_stream
    done (ok (stream, ip))

  -- `timeout(…).await.map_err(|_| ConnectError::Timeout)??`
  unfoldable pub within_timeout :
      {A : Type 0} → ℕ → Io P A (ConnectError P E) → Io P A (ConnectError P E)
  unfolding timeout
  within_timeout duration m trace =
      let (r, after) = timeout P E duration m trace in
      (elim r [ none ↦ err timed_out | some x ↦ x ], after)

  -- `connect` behind the open stream, behind the negotiation, and behind the authentication.
  unfoldable pub authenticated_outcome : ConnectOptions → Connection P → Bool → ConnectOutcome P
  authenticated_outcome options c true =
      connected (record c { max_payload_len = options.max_payload_len })
  authenticated_outcome options c false = invalid_credentials

  unfoldable pub connect_negotiated :
      ConnectionConfig
      → ConnectOptions
      → IpAddr
      → Connection P
      → Io P (ConnectOutcome P) (ConnectError P E)
  unfolding authenticated_outcome
  connect_negotiated config options ip c = do
    authenticated ← authenticate c config ip
    done (ok (authenticated_outcome options c authenticated))

  unfoldable pub connect_opened :
      ConnectionConfig
      → ConnectOptions
      → IpAddr
      → Connection P
      → Io P (ConnectOutcome P) (ConnectError P E)
  unfolding connect_negotiated
  connect_opened config options ip c = do
    capabilities ← negotiate_version c
    connect_negotiated config options ip (record c { capabilities = capabilities })

  unfoldable pub connect :
      ConnectionConfig → ConnectOptions → Io P (ConnectOutcome P) (ConnectError P E)
  unfolding connect_opened
  connect config options = do
    opened_stream ← within_timeout options.io_timeout (open_stream config)
    connect_opened config options opened_stream.1 (fresh P opened_stream.0)
