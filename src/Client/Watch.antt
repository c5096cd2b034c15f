-- ===== src/Client/Watch.antt =====
-- What users see of the task: the status watch as a machine of its own, which the task refines.
pub mod Moves
use bloop_client_framework.Base.{
  ℕ, Bool, true, false, ◌&&◌, Option, none, some, Result, ok, err, if-cases, is_some, ◌≡◌, ◌≢◌, ◌⊎◌,
  inl, inr, refl, sym, ◌∙◌, ap,
}
use bloop_client_framework.Connection.{
  Connection, ConnectError, ConnectOutcome, connected, invalid_credentials, quit,
}
use bloop_client_framework.Outside.{ConnectionConfig, ConnectionStatus, Env}
use bloop_client_framework.Protocol.{Protocol}
use bloop_client_framework.Request.{RequestError}
use bloop_client_framework.Client.{
  World, Hook, Input, received, ticked, configure, request, shutdown_command, status_for, is_latch,
  set_status, drop_connection, install, handle_configure, request_outcome, request_on,
  handle_request, handle_shutdown, handle_command, hook_outcome, run_on_connect, connect_outcome,
  connect_with, try_connect, ping_outcome, tick_on, handle_tick, handle, is_fatal_error,
}
use bloop_client_framework.Client.Status.{set_status-task, drop_connection-task}
use bloop_client_framework.Client.Invariant.{Inv}
use bloop_client_framework.Client.Watch.Moves.{
  IsAttempted, IsOffline, WatchStep, configured, ignored, answered, broken, stopped, idle, lost,
  attempted,
}

module _ {P : Protocol} where
  set_status-status : (s : ConnectionStatus P) (w : World P) → (set_status P s w).task.status ≡ s
  set_status-status s w = ap (λ t. t.status) (set_status-task P s w)

  drop_connection-status :
      (w : World P) → (drop_connection P w).task.status ≡ ConnectionStatus.disconnected
  drop_connection-status w = ap (λ t. t.status) (drop_connection-task P w)

  failed : (w : World P) → IsAttempted (set_status P ConnectionStatus.disconnected w).task.status
  failed w = inl (inl (set_status-status ConnectionStatus.disconnected w))

  install-status : (c : Connection P) (w : World P) → IsAttempted (install P c w).task.status
  unfolding install
  install-status c w =
      inr (c.capabilities, set_status-status (ConnectionStatus.connected c.capabilities) _)

module _ (P : Protocol) (E : Env P) where
  -- The status behind a use of the connection: the same, or disconnected.
  abbrev Survives : ConnectionStatus P → World P → Type 0
  Survives s w = (w.task.status ≡ s) ⊎ (w.task.status ≡ ConnectionStatus.disconnected)

  request_outcome-status :
      (response : ℕ) (r : Option (Result P.RawMessage P.FrameError)) (w : World P)
      → Survives w.task.status (request_outcome P E response r w)
  unfolding request_outcome
  request_outcome-status response (some (ok raw)) w =
      if-cases (Survives w.task.status) (is_fatal_error P E raw) (drop_connection P w) w
        (λ _. inr (drop_connection-status w)) λ _. inl refl
  request_outcome-status response (some (err _)) w = inr (drop_connection-status w)
  request_outcome-status response none w = inr (drop_connection-status w)

  ping_outcome-status :
      (r : Option (Result (Unit {0}) (RequestError P))) (w : World P)
      → Survives w.task.status (ping_outcome P E r w)
  unfolding ping_outcome
  ping_outcome-status (some (ok _)) w = inl refl
  ping_outcome-status (some (err _)) w = inr (drop_connection-status w)
  ping_outcome-status none w = inr (drop_connection-status w)

  hook_outcome-status :
      (c : Connection P) (r : Option Bool) (w : World P)
      → IsAttempted (hook_outcome P E c r w).task.status
  unfolding hook_outcome
  hook_outcome-status c (some true) w = install-status c w
  hook_outcome-status c (some false) w = failed (record w { trace = quit P E c w.trace })
  hook_outcome-status c none w = failed w

  run_on_connect-status :
      (hook : Option (P.Capabilities → Hook P)) (c : Connection P) (w : World P)
      → IsAttempted (run_on_connect P E hook c w).task.status
  unfolding run_on_connect
  run_on_connect-status none c w = install-status c w
  run_on_connect-status (some hook) c w = hook_outcome-status c _ (record w { trace = _ })

  connect_outcome-status :
      (r : Option (Result (ConnectOutcome P) (ConnectError P E))) (w : World P)
      → IsAttempted (connect_outcome P E r w).task.status
  unfolding connect_outcome
  connect_outcome-status none w = failed w
  connect_outcome-status (some (err _)) w = failed w
  connect_outcome-status (some (ok invalid_credentials)) w = inl (
      inr (
        set_status-status ConnectionStatus.invalid_credentials
          (record w { task = record (w.task) { credentials_invalid = true } })))
  connect_outcome-status (some (ok (connected c))) w = run_on_connect-status w.task.on_connect c w

  connect_with-WatchStep :
      (config : Option ConnectionConfig) (w : World P)
      → (is_some config ≡ true → IsOffline w.task.status)
      → WatchStep ticked w.task.status (connect_with P E config w).task.status
  unfolding connect_with
  connect_with-WatchStep none w h = idle refl
  connect_with-WatchStep (some config) w h =
      attempted (h refl) (connect_outcome-status _ (record w { trace = _ }))

  -- With a configuration and no connection the status is offline.
  offline :
      (config : Option ConnectionConfig) (w : World P)
      → Inv w.task
      → w.task.is_shutdown ≡ false
      → w.task.connection ≡ none
      → w.task.config ≡ config
      → is_some config ≡ true
      → IsOffline w.task.status
  offline none w i up free e h = absurd cc
  offline (some config) w i up free e h = elim (i.idle up free) [
    | inl shown ↦ inl (shown ∙ ap status_for e)
    | inr (shown, _) ↦ inr shown
  ]

  tick_on-WatchStep :
      (connection : Option (Connection P)) (w : World P)
      → Inv w.task
      → w.task.is_shutdown ≡ false
      → w.task.connection ≡ connection
      → WatchStep ticked w.task.status (tick_on P E connection w).task.status
  unfolding tick_on try_connect
  tick_on-WatchStep none w i up e =
      if-cases (λ (v : World P). WatchStep ticked w.task.status v.task.status)
        (w.task.credentials_invalid && is_latch w.task.invalid_credentials_policy) w
        (connect_with P E w.task.config w) (λ _. idle refl)
        λ _. connect_with-WatchStep w.task.config w (offline w.task.config w i up e refl)
  tick_on-WatchStep (some c) w i up e = elim (ping_outcome-status _ (record w { trace = _ })) [
    | inl same ↦ idle same
    | inr dropped ↦ lost c.capabilities (i.live c e).0 dropped
  ]

  request_on-WatchStep :
      (message : P.RawMessage) (response : ℕ) (connection : Option (Connection P)) (w : World P)
      → Inv w.task
      → w.task.connection ≡ connection
      → WatchStep
          (received (request message response))
          w.task.status
          (request_on P E connection message response w).task.status
  unfolding request_on
  request_on-WatchStep message response none w i e = answered message response refl
  request_on-WatchStep message response (some c) w i e =
      elim (request_outcome-status response _ (record w { trace = _ })) [
        | inl same ↦ answered message response same
        | inr dropped ↦ broken message response c.capabilities (i.live c e).0 dropped
      ]

  status_for-ne-shutdown :
      (config : Option ConnectionConfig) → status_for {P = P} config ≢ ConnectionStatus.shutdown
  status_for-ne-shutdown none e = cc
  status_for-ne-shutdown (some config) e = cc

  running-ne-shutdown :
      (connection : Option (Connection P)) (w : World P)
      → Inv w.task
      → w.task.is_shutdown ≡ false
      → w.task.connection ≡ connection
      → w.task.status ≢ ConnectionStatus.shutdown
  running-ne-shutdown (some c) w i up e h = cc ((i.live c e).0, h)
  running-ne-shutdown none w i up e h = elim (i.idle up e) [
    | inl shown ↦ absurd (status_for-ne-shutdown w.task.config (sym shown ∙ h))
    | inr (shown, _) ↦ absurd (cc (shown, h))
  ]

  -- The task refines the watch: where its invariant holds, every command and every tick makes the
  -- watch do one of its moves for that input. So a rejection is seen only behind an attempt, a
  -- connection only from offline, and nothing but itself behind a shutdown.
  pub handle-WatchStep :
      (input : Input P) (w : World P)
      → Inv w.task
      → WatchStep input w.task.status (handle P E input w).task.status
  unfolding handle handle_command handle_configure handle_request handle_shutdown handle_tick
  handle-WatchStep (received (configure config)) w i =
      if-cases
        (λ (v : World P). WatchStep (received (configure config)) w.task.status v.task.status)
        w.task.is_shutdown w _ (λ down. ignored config (i.closed down).1 refl)
        λ up.
          configured config (running-ne-shutdown w.task.connection w i up refl)
            (set_status-status (status_for config) _)
  handle-WatchStep (received (request message response)) w i =
      if-cases
        (λ (v : World P).
          WatchStep (received (request message response)) w.task.status v.task.status)
        w.task.is_shutdown _ (request_on P E w.task.connection message response w)
        (λ _. answered message response refl)
        λ _. request_on-WatchStep message response w.task.connection w i refl
  handle-WatchStep (received (shutdown_command response)) w i =
      stopped response (set_status-status ConnectionStatus.shutdown _)
  handle-WatchStep ticked w i =
      if-cases (λ (v : World P). WatchStep ticked w.task.status v.task.status) w.task.is_shutdown w
        (tick_on P E w.task.connection w) (λ _. idle refl)
        λ up. tick_on-WatchStep w.task.connection w i up refl
