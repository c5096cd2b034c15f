-- ===== src/Outside.antt =====
-- What stands outside the client's code: a trace of events, newest first, and an environment whose
-- every answer (name lookup, sockets, TLS, frames, deadlines) is a function of the trace so far, and
-- so arbitrary. The configuration and the status of src/client.rs stand here, since events name them.
use Prim.Native.String.{String}
use bloop_client_framework.Base.{
  ℕ, ◌-◌, min, Bool, List, ◌∷◌, Option, none, some, length, drop, Result,
}
use bloop_client_framework.Protocol.{Protocol}
use bloop_client_framework.Request.{RequestError}

-- A stream is named by the length of the trace at its opening.
abbrev pub Stream : Type 0
Stream = ℕ

-- `ConnectionConfig` of src/client.rs.
pub record ConnectionConfig : Type 0 where
  pub host : String
  pub port : ℕ
  pub client_id : String
  pub client_secret : String

pub data ConnectionStatus (P : Protocol) : Type 0 where
  unconfigured : ConnectionStatus P
  disconnected : ConnectionStatus P
  connected : P.Capabilities → ConnectionStatus P
  invalid_credentials : ConnectionStatus P
  shutdown : ConnectionStatus P

pub data Event (P : Protocol) : Type 0 where
  -- a name was looked up, a socket opened, a TLS session opened on it
  looked_up : String → ℕ → Event P
  socket : Event P
  opened : Stream → Event P
  -- a frame was handed to the stream, and a frame of at most this payload awaited from it
  wrote : Stream → P.RawMessage → Event P
  awaited : Stream → ℕ → Event P
  -- a deadline passed
  elapsed : ℕ → Event P
  -- the status watch changed; the sender of a request, or of a shutdown, got its answer
  published : ConnectionStatus P → Event P
  responded : ℕ → Result P.RawMessage (RequestError P) → Event P
  acknowledged : ℕ → Event P

abbrev pub Trace : Protocol → Type 0
Trace P = List (Event P)

-- The outside.
pub record Env (P : Protocol) : Type 1 where
  pub IoError : Type 0
  pub Address : Type 0
  pub Tcp : Type 0
  pub lookup_host : Trace P → String → ℕ → Result (List Address) IoError
  pub tcp_connect : Trace P → Address → Result Tcp IoError
  pub local_ip : Tcp → Result P.IpAddr IoError
  pub is_server_name : String → Bool
  pub tls_connect : Trace P → String → Tcp → Option IoError
  pub write_frame : Trace P → Stream → P.RawMessage → Option P.FrameError
  pub read_frame : Trace P → Stream → ℕ → Result P.RawMessage P.FrameError
  -- whether a deadline passes first, and then how many of the last events did not happen
  pub deadline : Trace P → ℕ → Option ℕ

module _ (P : Protocol) (E : Env P) where
  open E use {deadline}

  -- `tokio::time::timeout`: the future's value, or the trace of a cancelled one.
  unfoldable pub timeout {ℓ} :
      {A : Type ℓ} → ℕ → (Trace P → A × Trace P) → Trace P → Option A × Trace P
  timeout duration future trace =
      let (a, after) = future trace in
      elim (deadline trace duration) [
        | none ↦ (some a, after)
        | some lost ↦ (none, elapsed duration ∷ drop (min lost (length after - length trace)) after)
      ]
