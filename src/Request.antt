-- ===== src/Request.antt =====
-- src/request.rs: `RequestError` and `decode_response`.
use bloop_client_framework.Base.{◌==◌, if◌then◌else◌, Result, ok, err, ◌≡◌, ◌≢◌, ◌↔◌, arith}
use bloop_client_framework.Protocol.{Protocol}

pub data RequestError (P : Protocol) : Type 0 where
  disconnected : RequestError P
  shutdown : RequestError P
  error : P.ErrorResponse → RequestError P
  unexpected_response : P.RawMessage → RequestError P
  malformed : P.MessageSetError → RequestError P
  encode : P.EncodeError → RequestError P

module _ (P : Protocol) where
  open P use {
    RawMessage, message_type, MessageSetError, is_unknown_opcode, ErrorResponse, error_opcode,
    decode_error,
  }

  unfoldable pub decode_response {ℓ} :
      {M : Type ℓ}
      → (RawMessage → Result M MessageSetError)
      → RawMessage
      → Result M (RequestError P)
  decode_response decode raw =
      if message_type raw == error_opcode
      then elim (decode_error raw) [ ok e ↦ err (error e) | err e ↦ err (malformed e) ]
      else elim (decode raw) [
        | ok m ↦ ok m
        | err e ↦ if is_unknown_opcode e then err (unexpected_response raw) else err (malformed e)
      ]

  module _ {M : Type 0} (decode : RawMessage → Result M MessageSetError) (raw : RawMessage) where
    -- A response is a message exactly when its opcode is not that of an error and it decodes.
    pub decode_response-eq-ok :
        (m : M)
        → (decode_response decode raw ≡ ok m)
          ↔ ((message_type raw ≢ error_opcode) × (decode raw ≡ ok m))
    unfolding decode_response
    decode_response-eq-ok m = (λ h. ground arith, λ h. ground arith)

    -- A response is a protocol error exactly when it has the opcode of one and decodes as it.
    pub decode_response-eq-error :
        (e : ErrorResponse)
        → (decode_response decode raw ≡ err (error e))
          ↔ ((message_type raw ≡ error_opcode) × (decode_error raw ≡ ok e))
    unfolding decode_response
    decode_response-eq-error e = (λ h. ground arith, λ h. ground arith)
