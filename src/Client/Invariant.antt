-- ===== src/Client/Invariant.antt =====
-- What holds of the connection task between two inputs.
pub mod Ticks
pub mod Commands
pub mod Runs
use bloop_client_framework.Base.{
  ℕ, Bool, true, false, not, ◌&&◌, List, [], ◌∷◌, Option, none, some, if◌then◌else◌, is_some,
  Result, ok, err, ◌≡◌, ◌≢◌, ◌↔◌, refl, sym, ◌∙◌, ap, arith, subst, Bool-cases, Option-cases, inl,
  inr, ◌⊎◌,
}
use bloop_client_framework.Connection.{
  Connection, ConnectOutcome, connected, invalid_credentials, ConnectError, Io, connect, quit,
}
use bloop_client_framework.Connection.Limits.{Ensures, HasLimit, connect-HasLimit}
use bloop_client_framework.Outside.{ConnectionConfig, ConnectionStatus, Trace, Env, timeout}
use bloop_client_framework.Protocol.{Protocol}
use bloop_client_framework.Request.{RequestError}
use bloop_client_framework.Client.{
  ClientTask, World, Command, Input, is_latch, status_for, set_status, drop_connection,
  take_and_quit, handle_configure, request_outcome, handle_request, handle_shutdown, handle_command,
  install, hook_outcome, run_on_connect, connect_outcome, connect_with, try_connect, ping_outcome,
  tick_on, handle_tick, Hook, request_on, is_fatal_error, send, received, ticked, configure,
  request, shutdown_command, handle, run_loop, run,
}
use bloop_client_framework.Client.Status.{set_status-task, drop_connection-task}

pub record Inv {P : Protocol} (t : ClientTask P) : Type 0 where
  -- after a shutdown there is no connection, and the watch says so
  pub closed : t.is_shutdown ≡ true → (t.connection ≡ none) × (t.status ≡ ConnectionStatus.shutdown)
  -- a connection is shown as connected, with its capabilities, and has the configured limit
  pub live :
      (c : Connection P)
      → t.connection ≡ some c
      → (t.status ≡ ConnectionStatus.connected c.capabilities)
        × (is_some t.config ≡ true)
        × (t.credentials_invalid ≡ false)
        × (c.max_payload_len ≡ t.options.max_payload_len)
  -- a client with no configuration has no credentials to reject
  pub unset : t.config ≡ none → t.credentials_invalid ≡ false
  -- and with no connection the watch shows whether there is a configuration, or a rejection
  pub idle :
      t.is_shutdown ≡ false
      → t.connection ≡ none
      → (t.status ≡ status_for t.config)
        ⊎ ((t.status ≡ ConnectionStatus.invalid_credentials) × (t.credentials_invalid ≡ true))
  -- a latch is shown
  pub latched :
      t.is_shutdown ≡ false
      → (t.credentials_invalid && is_latch t.invalid_credentials_policy) ≡ true
      → t.status ≡ ConnectionStatus.invalid_credentials

pub shows :
    {P : Protocol} (config : Option ConnectionConfig)
    → is_some config ≡ true
    → ConnectionStatus.disconnected ≡ status_for {P = P} config
shows none h = cc
shows (some config) h = refl

module _ {P : Protocol} where
  pub drop_connection-Inv :
      (w : World P) {c : Connection P}
      → w.task.connection ≡ some c
      → Inv w.task
      → Inv (drop_connection P w).task
  drop_connection-Inv w {c} e i =
      let (shown, configured, valid, limit) = i.live c e in
      rw (drop_connection-task P w) (record {
        closed = λ s. ground (arith, i.closed s);
        live = λ c' x. absurd cc;
        unset = i.unset;
        idle = λ _ _. inl (shows w.task.config configured);
        latched = λ _ l. absurd (ground arith);
      })
