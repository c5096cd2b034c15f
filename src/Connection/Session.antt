-- ===== src/Connection/Session.antt =====
-- src/connection.rs: `Session`, the connection lent to the on-connect hook.
use bloop_client_framework.Base.{Bytes, Result}
use bloop_client_framework.Connection.{Connection, Io, ◌>>=◌, done, map_err, exchange}
use bloop_client_framework.Outside.{Env}
use bloop_client_framework.Protocol.{Protocol}
use bloop_client_framework.Request.{RequestError, encode, decode_response}

module _ (P : Protocol) (E : Env P) where
  open P use {
    RawMessage, EncodeError, MessageSetError, Uuid, encode_retrieve_audio, decode_audio_data,
  }

  unfoldable pub custom :
      {M : Type 0}
      → Connection P
      → Result RawMessage EncodeError
      → (RawMessage → Result M MessageSetError)
      → Io P M (RequestError P)
  unfolding exchange
  custom c encoded decode = do
    message ← done (map_err encode encoded)
    raw ← exchange P E c message
    done (decode_response P decode raw)

  unfoldable pub request_raw : Connection P → RawMessage → Io P RawMessage (RequestError P)
  unfolding exchange
  request_raw c message = exchange P E c message

  unfoldable pub retrieve_audio : Connection P → Uuid → Io P Bytes (RequestError P)
  unfolding custom
  retrieve_audio c achievement_id =
      custom c (encode_retrieve_audio achievement_id) decode_audio_data
