-- ===== src/Examples/Outside.antt =====
-- A small protocol, whose messages are opcodes, and a server that answers each with the next one.
use bloop_client_framework.Base.{
  ℕ, ◌+◌, Bool, true, false, not, [], ◌∷◌, Option, none, some, ◌==◌, ==_iff, if◌then◌else◌, Result,
  ok, err,
}
use bloop_client_framework.Outside.{ConnectionConfig, wrote, Trace, Env}
use bloop_client_framework.Protocol.{Protocol}
use bloop_client_framework.Tls.{Certificates, ServerCertVerifier, Rustls}

-- The value of a message with this opcode.
abbrev expect : {A : Type 0} → ℕ → A → ℕ → Result A Bool
expect opcode a raw = if raw == opcode then ok a else err true

abbrev pub opcodes : Protocol
opcodes = record {
  RawMessage = ℕ;
  message_type = λ raw. raw;
  EncodeError = ℕ;
  FrameError = ℕ;
  MessageSetError = Bool;
  is_unknown_opcode = λ e. e;
  ErrorResponse = ℕ;
  error_opcode = 0;
  decode_error = λ raw. ok raw;
  is_fatal = λ e. not (e == 1);
  is_unsupported_version_range = λ e. false;
  is_invalid_credentials = λ e. true;
  Capabilities = ℕ;
  no_capabilities = 0;
  capabilities_eq = λ a b. a == b;
  capabilities_eq_iff = ==_iff;
  IpAddr = ℕ;
  Uuid = ℕ;
  NfcUid = ℕ;
  DataHash = ℕ;
  AchievementRecord = ℕ;
  record_id = λ r. r;
  audio_hash = λ r. some r;
  encode_ping = ok 5;
  encode_quit = ok 7;
  encode_client_handshake = λ min_version max_version. ok 1;
  encode_authentication = λ id secret ip. ok 3;
  encode_bloop = λ uid. ok 9;
  encode_retrieve_audio = λ id. ok 11;
  encode_preload_check = λ hash. ok 13;
  decode_pong = expect 6 tt;
  decode_server_handshake = expect 2 (3, 1);
  decode_authentication_accepted = expect 4 tt;
  decode_bloop_accepted = expect 10 [];
  decode_audio_data = expect 12 [];
  preload_match_opcode = 14;
  decode_preload_match = expect 14 tt;
  decode_preload_mismatch = expect 15 (0, []);
}

abbrev answer : Trace opcodes → Result ℕ ℕ
answer (wrote _ message ∷ _) = ok (message + 1)
answer _ = err 0

abbrev pub server : Env opcodes
server = record {
  IoError = ℕ;
  Address = ℕ;
  Tcp = ℕ;
  lookup_host = λ trace host port. ok (port ∷ []);
  tcp_connect = λ trace address. ok address;
  local_ip = λ tcp. ok 127;
  is_server_name = λ host. true;
  tls_connect = λ trace domain tcp. none;
  write_frame = λ trace stream message. none;
  read_frame = λ trace stream limit. answer trace;
  deadline = λ trace duration. none;
}

abbrev pub local : ConnectionConfig
local = record { host = "localhost"; port = 443; client_id = "client"; client_secret = "secret" }

abbrev pub certificates : Certificates
certificates = record {
  Error = ℕ;
  CryptoProvider = ℕ;
  CertificateDer = ℕ;
  ServerName = ℕ;
  UnixTime = ℕ;
  Message = ℕ;
  DigitallySignedStruct = ℕ;
  SignatureScheme = ℕ;
  Algorithms = ℕ;
  signature_verification_algorithms = λ p. p;
  tls12_signature =
      λ message cert dss algorithms. if dss == message + cert then none else some algorithms;
  tls13_signature =
      λ message cert dss algorithms. if dss == message + cert then none else some algorithms;
  supported_schemes = λ algorithms. algorithms ∷ [];
}

-- A configuration is a builder and, if it is not the platform's, a verifier.
abbrev pub provider : Rustls
provider = record {
  certificates = certificates;
  VersionedBuilder = ℕ;
  ClientConfig = ℕ × Option (ServerCertVerifier certificates);
  get_default = none;
  aws_lc_rs = 0;
  with_safe_default_protocol_versions = λ p. ok p;
  with_platform_verifier = λ b. ok (b, none);
  with_custom_certificate_verifier = λ b v. (b, some v);
}
