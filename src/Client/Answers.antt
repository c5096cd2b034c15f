-- ===== src/Client/Answers.antt =====
-- The answers that the task owes to the senders of requests and of shutdowns.
pub mod Senders
use bloop_client_framework.Base.{
  if-cases, ℕ, Bool, true, false, ◌&&◌, List, [], ◌∷◌, ◌++◌, append_assoc, Option, none, some,
  Result, ok, err, if◌then◌else◌, ◌≡◌, refl, ◌∙◌, ap, Bool-cases, inl, inr,
}
use bloop_client_framework.Connection.{
  Connection, ConnectError, ConnectOutcome, connected, invalid_credentials, request_raw, exchange,
  ping, quit, connect,
}
use bloop_client_framework.Connection.Session
use bloop_client_framework.Connection.Effects.{
  Grows, same, more, IsNetwork, Grows-trans, timeout-Grows, request_raw-Grows, exchange-Grows,
  quit-Grows, ping-Grows, connect-Grows,
}
use bloop_client_framework.Outside.{
  ConnectionConfig, ConnectionStatus, Event, looked_up, socket, opened, wrote, awaited, elapsed,
  published, responded, acknowledged, Trace, Env,
}
use bloop_client_framework.Protocol.{Protocol}
use bloop_client_framework.Request.{RequestError}
use bloop_client_framework.Client.{
  Hook, finish, Command, Input, World, received, ticked, configure, request, shutdown_command,
  set_status, drop_connection, install, quit_taken, take_and_quit, handle_configure,
  request_outcome, request_on, handle_request, handle_shutdown, handle_command, run_hook,
  hook_outcome, run_on_connect, connect_outcome, connect_with, try_connect, ping_outcome, tick_on,
  handle_tick, handle, run_loop, is_fatal_error, is_latch, status_eq, status_for,
}
use bloop_client_framework.Client.Answers.Senders.{
  Grows-answered, answer_of, answered, asked, asker, drop_connection-answered, install-answered,
  set_status-answered,
}

module _ (P : Protocol) (E : Env P) where
  pub quit_taken-answered :
      (connection : Option (Connection P)) (trace : Trace P)
      → answered (quit_taken P E connection trace) ≡ answered trace
  unfolding quit_taken
  quit_taken-answered none trace = refl
  quit_taken-answered (some c) trace = Grows-answered (quit-Grows P E c trace)

  pub run_hook-Grows :
      (c : Connection P) (hook : Hook P) (trace : Trace P)
      → Grows (IsNetwork c.max_payload_len) trace (run_hook P E c hook trace).1
  unfolding run_hook Session.request_raw
  run_hook-Grows c (finish success) trace = same
  run_hook-Grows c (request message then') trace =
      Grows-trans (exchange-Grows P E c message trace)
        (run_hook-Grows c (then' (exchange P E c message trace).0) (exchange P E c message trace).1)

  hook_outcome-answered :
      (c : Connection P) (r : Option Bool) (w : World P)
      → answered (hook_outcome P E c r w).trace ≡ answered w.trace
  unfolding hook_outcome
  hook_outcome-answered c (some true) w = install-answered c w
  hook_outcome-answered c (some false) w =
      set_status-answered ConnectionStatus.disconnected (record w { trace = quit P E c w.trace })
      ∙ Grows-answered (quit-Grows P E c w.trace)
  hook_outcome-answered c none w = set_status-answered ConnectionStatus.disconnected w

  run_on_connect-answered :
      (hook : Option (P.Capabilities → Hook P)) (c : Connection P) (w : World P)
      → answered (run_on_connect P E hook c w).trace ≡ answered w.trace
  unfolding run_on_connect
  run_on_connect-answered none c w = install-answered c w
  run_on_connect-answered (some hook) c w =
      hook_outcome-answered c _ (record w { trace = _ })
      ∙ Grows-answered (
          timeout-Grows P E w.task.request_timeout (run_hook P E c (hook c.capabilities)) w.trace tt
            (run_hook-Grows c (hook c.capabilities) w.trace))

  connect_outcome-answered :
      (r : Option (Result (ConnectOutcome P) (ConnectError P E))) (w : World P)
      → answered (connect_outcome P E r w).trace ≡ answered w.trace
  unfolding connect_outcome
  connect_outcome-answered none w = set_status-answered ConnectionStatus.disconnected w
  connect_outcome-answered (some (err _)) w = set_status-answered ConnectionStatus.disconnected w
  connect_outcome-answered (some (ok invalid_credentials)) w =
      set_status-answered ConnectionStatus.invalid_credentials
        (record w { task = record (w.task) { credentials_invalid = true } })
  connect_outcome-answered (some (ok (connected c))) w =
      run_on_connect-answered w.task.on_connect c w

  connect_with-answered :
      (config : Option ConnectionConfig) (w : World P)
      → answered (connect_with P E config w).trace ≡ answered w.trace
  unfolding connect_with
  connect_with-answered none w = refl
  connect_with-answered (some config) w =
      connect_outcome-answered _ (record w { trace = _ })
      ∙ Grows-answered (
          timeout-Grows P E w.task.request_timeout (connect P E config w.task.options) w.trace tt
            (connect-Grows P E config w.task.options w.trace))

  try_connect-answered : (w : World P) → answered (try_connect P E w).trace ≡ answered w.trace
  unfolding try_connect
  try_connect-answered w =
      elim (Bool-cases (w.task.credentials_invalid && is_latch w.task.invalid_credentials_policy)) [
        | inl held ↦ rw held refl
        | inr free ↦ rw free (connect_with-answered w.task.config w)
      ]

  ping_outcome-answered :
      (r : Option (Result (Unit {0}) (RequestError P))) (w : World P)
      → answered (ping_outcome P E r w).trace ≡ answered w.trace
  unfolding ping_outcome
  ping_outcome-answered (some (ok _)) w = refl
  ping_outcome-answered (some (err _)) w = drop_connection-answered w
  ping_outcome-answered none w = drop_connection-answered w

  tick_on-answered :
      (connection : Option (Connection P)) (w : World P)
      → answered (tick_on P E connection w).trace ≡ answered w.trace
  unfolding tick_on
  tick_on-answered none w = try_connect-answered w
  tick_on-answered (some c) w =
      ping_outcome-answered _ (record w { trace = _ })
      ∙ Grows-answered (
          timeout-Grows P E w.task.request_timeout (ping P E c) w.trace tt
            (ping-Grows P E c w.trace))

  request_outcome-answered :
      (response : ℕ) (r : Option (Result P.RawMessage P.FrameError)) (w : World P)
      → answered (request_outcome P E response r w).trace ≡ response ∷ answered w.trace
  unfolding request_outcome answered
  request_outcome-answered response (some (ok raw)) w = elim (Bool-cases (is_fatal_error P E raw)) [
    | inl e ↦ rw e (ap (λ l. response ∷ l) (drop_connection-answered w))
    | inr e ↦ rw e refl
  ]
  request_outcome-answered response (some (err _)) w =
      ap (λ l. response ∷ l) (drop_connection-answered w)
  request_outcome-answered response none w = ap (λ l. response ∷ l) (drop_connection-answered w)

  request_on-answered :
      (connection : Option (Connection P)) (message : P.RawMessage) (response : ℕ) (w : World P)
      → answered (request_on P E connection message response w).trace ≡ response ∷ answered w.trace
  unfolding request_on answered
  request_on-answered none message response w = refl
  request_on-answered (some c) message response w =
      request_outcome-answered response _ (record w { trace = _ })
      ∙ ap (λ l. response ∷ l)
          (Grows-answered (
            timeout-Grows P E w.task.request_timeout (request_raw P E c message) w.trace tt
              (request_raw-Grows P E c message w.trace)))

  handle_command-answered :
      (command : Command P) (w : World P)
      → answered (handle_command P E command w).trace ≡ asker (received command) ++ answered w.trace
  unfolding handle_command handle_configure handle_request handle_shutdown take_and_quit answered
  handle_command-answered (configure config) w =
      if-cases (λ (v : World P). answered v.trace ≡ answered w.trace) w.task.is_shutdown w _
        (λ _. refl)
        λ _.
          set_status-answered (status_for config) _ ∙ quit_taken-answered w.task.connection w.trace
  handle_command-answered (request message response) w =
      if-cases (λ (v : World P). answered v.trace ≡ response ∷ answered w.trace) w.task.is_shutdown
        _ (request_on P E w.task.connection message response w) (λ _. refl)
        λ _. request_on-answered w.task.connection message response w
  handle_command-answered (shutdown_command response) w =
      ap (λ l. response ∷ l)
        (set_status-answered ConnectionStatus.shutdown _
          ∙ quit_taken-answered w.task.connection w.trace)

  pub handle-answered :
      (input : Input P) (w : World P)
      → answered (handle P E input w).trace ≡ asker input ++ answered w.trace
  unfolding handle handle_tick
  handle-answered (received command) w = handle_command-answered command w
  handle-answered ticked w =
      if-cases (λ (v : World P). answered v.trace ≡ answered w.trace) w.task.is_shutdown w
        (tick_on P E w.task.connection w) (λ _. refl) λ _. tick_on-answered w.task.connection w

  -- In whatever environment and state, the senders of the requests and of the shutdowns that the task
  -- handles get exactly one answer each, in the order in which they asked, and nobody else gets any.
  pub run_loop-answered :
      (inputs : List (Input P)) (w : World P)
      → answered (run_loop P E inputs w).trace ≡ asked inputs ++ answered w.trace
  unfolding run_loop asked
  run_loop-answered [] w = refl
  run_loop-answered (input ∷ inputs) w =
      run_loop-answered inputs (handle P E input w)
      ∙ rw (handle-answered input w, append_assoc) refl
