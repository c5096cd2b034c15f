-- ===== src/Client/Watch/Moves.antt =====
-- The moves of the status watch.
use bloop_client_framework.Base.{ℕ, Option, ◌≡◌, ◌≢◌, ◌⊎◌}
use bloop_client_framework.Outside.{ConnectionConfig, ConnectionStatus}
use bloop_client_framework.Protocol.{Protocol}
use bloop_client_framework.Client.{
  Input, received, ticked, configure, request, shutdown_command, status_for,
}

-- A status from which the task tries to connect, and one in which an attempt ends.
abbrev pub IsOffline : {P : Protocol} → ConnectionStatus P → Type 0
IsOffline s = (s ≡ ConnectionStatus.disconnected) ⊎ (s ≡ ConnectionStatus.invalid_credentials)

abbrev pub IsAttempted : {P : Protocol} → ConnectionStatus P → Type 0
IsAttempted {P} s = IsOffline s ⊎ ((c : P.Capabilities) × (s ≡ ConnectionStatus.connected c))

-- The moves of the watch.
pub data WatchStep {P : Protocol} : Input P → ConnectionStatus P → ConnectionStatus P → Type 0 where
  -- a new configuration, but after a shutdown
  configured :
      (config : Option ConnectionConfig) {s t : ConnectionStatus P}
      → s ≢ ConnectionStatus.shutdown
      → t ≡ status_for config
      → WatchStep (received (configure config)) s t
  ignored :
      (config : Option ConnectionConfig) {s t : ConnectionStatus P}
      → s ≡ ConnectionStatus.shutdown
      → t ≡ s
      → WatchStep (received (configure config)) s t
  -- a request leaves the status, or finds the connection broken
  answered :
      (message : P.RawMessage) (response : ℕ) {s t : ConnectionStatus P}
      → t ≡ s
      → WatchStep (received (request message response)) s t
  broken :
      (message : P.RawMessage) (response : ℕ) (c : P.Capabilities) {s t : ConnectionStatus P}
      → s ≡ ConnectionStatus.connected c
      → t ≡ ConnectionStatus.disconnected
      → WatchStep (received (request message response)) s t
  stopped :
      (response : ℕ) {s t : ConnectionStatus P}
      → t ≡ ConnectionStatus.shutdown
      → WatchStep (received (shutdown_command response)) s t
  -- a tick leaves the status, finds the connection lost, or tries to connect
  idle : {s t : ConnectionStatus P} → t ≡ s → WatchStep ticked s t
  lost :
      (c : P.Capabilities) {s t : ConnectionStatus P}
      → s ≡ ConnectionStatus.connected c
      → t ≡ ConnectionStatus.disconnected
      → WatchStep ticked s t
  attempted : {s t : ConnectionStatus P} → IsOffline s → IsAttempted t → WatchStep ticked s t
