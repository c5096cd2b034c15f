-- ===== src/Protocol.antt =====
-- What the code uses of the crate bloop_protocol: a parameter of the models. A message type of the
-- crate is named by its encoder or its decoder (`encode_message`, `decode_message::<M>`); of an enum
-- of the crate the models have the tests that the code makes.
use Prim.Native.String.{String}
use bloop_client_framework.Base.{ℕ, Bool, true, List, Option, Bytes, Result, ◌≡◌, ◌↔◌}

pub record Protocol : Type 1 where
  pub RawMessage : Type 0
  pub message_type : RawMessage → ℕ
  pub EncodeError : Type 0
  pub FrameError : Type 0
  pub MessageSetError : Type 0
  pub is_unknown_opcode : MessageSetError → Bool
  -- `ErrorResponse`
  pub ErrorResponse : Type 0
  pub error_opcode : ℕ
  pub decode_error : RawMessage → Result ErrorResponse MessageSetError
  pub is_fatal : ErrorResponse → Bool
  pub is_unsupported_version_range : ErrorResponse → Bool
  pub is_invalid_credentials : ErrorResponse → Bool
  -- `Capabilities`, with its `PartialEq`
  pub Capabilities : Type 0
  pub no_capabilities : Capabilities
  pub capabilities_eq : Capabilities → Capabilities → Bool
  pub capabilities_eq_iff : (a b : Capabilities) → (capabilities_eq a b ≡ true) ↔ (a ≡ b)
  pub IpAddr : Type 0
  pub Uuid : Type 0
  pub NfcUid : Type 0
  pub DataHash : Type 0
  pub AchievementRecord : Type 0
  pub record_id : AchievementRecord → Uuid
  pub audio_hash : AchievementRecord → Option DataHash
  -- `encode_message` at each message that the code sends
  pub encode_ping : Result RawMessage EncodeError
  pub encode_quit : Result RawMessage EncodeError
  pub encode_client_handshake : ℕ → ℕ → Result RawMessage EncodeError
  pub encode_authentication : String → String → IpAddr → Result RawMessage EncodeError
  pub encode_bloop : NfcUid → Result RawMessage EncodeError
  pub encode_retrieve_audio : Uuid → Result RawMessage EncodeError
  pub encode_preload_check : Option DataHash → Result RawMessage EncodeError
  -- `decode_message` at each message that the code expects
  pub decode_pong : RawMessage → Result (Unit {0}) MessageSetError
  pub decode_server_handshake : RawMessage → Result (ℕ × Capabilities) MessageSetError
  pub decode_authentication_accepted : RawMessage → Result (Unit {0}) MessageSetError
  pub decode_bloop_accepted : RawMessage → Result (List AchievementRecord) MessageSetError
  pub decode_audio_data : RawMessage → Result Bytes MessageSetError
  pub preload_match_opcode : ℕ
  pub decode_preload_match : RawMessage → Result (Unit {0}) MessageSetError
  pub decode_preload_mismatch :
      RawMessage → Result (DataHash × List AchievementRecord) MessageSetError
