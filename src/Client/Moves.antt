-- ===== src/Client/Moves.antt =====
-- What every handler of the task is made of: operations on the network, answers, changes of the status
-- and changes of other fields. What these keep, the handlers keep.
use bloop_client_framework.Base.{
  ◌==◌, ℕ, Bool, true, false, ◌&&◌, List, [], ◌∷◌, Option, none, some, if-cases, Result, ok, err,
  ◌≡◌, refl,
}
use bloop_client_framework.Connection.{
  Connection, ConnectError, ConnectOutcome, connected, invalid_credentials, request_raw, ping, quit,
  connect,
}
use bloop_client_framework.Connection.Effects.{
  Grows, IsNetwork, timeout-Grows, request_raw-Grows, quit-Grows, ping-Grows, connect-Grows,
}
use bloop_client_framework.Outside.{
  ConnectionConfig, ConnectionStatus, Event, responded, acknowledged, Trace, Env, timeout,
}
use bloop_client_framework.Protocol.{Protocol}
use bloop_client_framework.Request.{RequestError, disconnected, shutdown}
use bloop_client_framework.Client.{
  ClientTask, Hook, Command, Input, World, received, ticked, configure, request, shutdown_command,
  set_status, drop_connection, install, quit_taken, take_and_quit, handle_configure,
  request_outcome, request_on, handle_request, handle_shutdown, handle_command, run_hook,
  hook_outcome, run_on_connect, connect_outcome, connect_with, try_connect, ping_outcome, tick_on,
  handle_tick, handle, run_loop, run, is_fatal_error, is_latch, status_for,
}
use bloop_client_framework.Client.Answers.{run_hook-Grows}

-- An answer to a sender.
abbrev pub IsAnswer : {P : Protocol} → Event P → Type 0
IsAnswer (responded _ _) = Unit
IsAnswer (acknowledged _) = Unit
IsAnswer _ = ⊥

-- A property of the task and its trace that the operations keep.
pub record IsKept {P : Protocol} (Q : World P → Type 0) : Type 0 where
  pub by_network :
      (limit : ℕ) (w : World P) (after : Trace P)
      → Grows (IsNetwork limit) w.trace after
      → Q w
      → Q (record w { trace = after })
  pub by_answer :
      (e : Event P) (w : World P) → IsAnswer e → Q w → Q (record w { trace = e ∷ w.trace })
  pub by_status : (s : ConnectionStatus P) (w : World P) → Q w → Q (set_status P s w)
  pub by_field :
      (t : ClientTask P) (w : World P) → t.status ≡ w.task.status → Q w → Q (record w { task = t })

module _ (P : Protocol) (E : Env P) (Q : World P → Type 0) (k : IsKept Q) where
  drop_connection-IsKept : (w : World P) → Q w → Q (drop_connection P w)
  unfolding drop_connection
  drop_connection-IsKept w h =
      k.by_status ConnectionStatus.disconnected _
        (k.by_field (record (w.task) { connection = none }) w refl h)

  install-IsKept : (c : Connection P) (w : World P) → Q w → Q (install P c w)
  unfolding install
  install-IsKept c w h =
      k.by_field _
        (set_status P (ConnectionStatus.connected c.capabilities)
          (record w { task = record (w.task) { credentials_invalid = false } }))
        refl
        (k.by_status (ConnectionStatus.connected c.capabilities) _
          (k.by_field (record (w.task) { credentials_invalid = false }) w refl h))

  quit-IsKept : (c : Connection P) (w : World P) → Q w → Q (record w { trace = quit P E c w.trace })
  quit-IsKept c w h = k.by_network c.max_payload_len w _ (quit-Grows P E c w.trace) h

  take_and_quit-IsKept : (w : World P) → Q w → Q (take_and_quit P E w)
  unfolding take_and_quit
  take_and_quit-IsKept w h =
      k.by_field (record (w.task) { connection = none })
        (record w { trace = quit_taken P E w.task.connection w.trace }) refl
        (taken w.task.connection)
    where
      taken :
          (connection : Option (Connection P))
          → Q (record w { trace = quit_taken P E connection w.trace })
      taken none = unfold quit_taken in h
      taken (some c) = unfold quit_taken in quit-IsKept c w h

  hook_outcome-IsKept :
      (c : Connection P) (r : Option Bool) (w : World P) → Q w → Q (hook_outcome P E c r w)
  unfolding hook_outcome
  hook_outcome-IsKept c (some true) w h = install-IsKept c w h
  hook_outcome-IsKept c (some false) w h =
      k.by_status ConnectionStatus.disconnected _ (quit-IsKept c w h)
  hook_outcome-IsKept c none w h = k.by_status ConnectionStatus.disconnected w h

  -- A future under a timeout that only uses the network.
  awaited-IsKept :
      {A : Type 0} (limit : ℕ) (duration : ℕ) (future : Trace P → A × Trace P) (w : World P)
      → Grows (IsNetwork limit) w.trace (future w.trace).1
      → Q w
      → Q (record w { trace = (timeout P E duration future w.trace).1 })
  awaited-IsKept limit duration future w g h =
      k.by_network limit w _ (timeout-Grows P E duration future w.trace tt g) h

  run_on_connect-IsKept :
      (hook : Option (P.Capabilities → Hook P)) (c : Connection P) (w : World P)
      → Q w
      → Q (run_on_connect P E hook c w)
  unfolding run_on_connect
  run_on_connect-IsKept none c w h = install-IsKept c w h
  run_on_connect-IsKept (some hook) c w h =
      hook_outcome-IsKept c _ (record w { trace = _ })
        (awaited-IsKept c.max_payload_len w.task.request_timeout
          (run_hook P E c (hook c.capabilities)) w
          (run_hook-Grows P E c (hook c.capabilities) w.trace) h)

  connect_outcome-IsKept :
      (r : Option (Result (ConnectOutcome P) (ConnectError P E))) (w : World P)
      → Q w
      → Q (connect_outcome P E r w)
  unfolding connect_outcome
  connect_outcome-IsKept none w h = k.by_status ConnectionStatus.disconnected w h
  connect_outcome-IsKept (some (err _)) w h = k.by_status ConnectionStatus.disconnected w h
  connect_outcome-IsKept (some (ok invalid_credentials)) w h =
      k.by_status ConnectionStatus.invalid_credentials _
        (k.by_field (record (w.task) { credentials_invalid = true }) w refl h)
  connect_outcome-IsKept (some (ok (connected c))) w h =
      run_on_connect-IsKept w.task.on_connect c w h

  connect_with-IsKept :
      (config : Option ConnectionConfig) (w : World P) → Q w → Q (connect_with P E config w)
  unfolding connect_with
  connect_with-IsKept none w h = h
  connect_with-IsKept (some config) w h =
      connect_outcome-IsKept _ (record w { trace = _ })
        (awaited-IsKept 1024 w.task.request_timeout (connect P E config w.task.options) w
          (connect-Grows P E config w.task.options w.trace) h)

  ping_outcome-IsKept :
      (r : Option (Result (Unit {0}) (RequestError P))) (w : World P)
      → Q w
      → Q (ping_outcome P E r w)
  unfolding ping_outcome
  ping_outcome-IsKept (some (ok _)) w h = h
  ping_outcome-IsKept (some (err _)) w h = drop_connection-IsKept w h
  ping_outcome-IsKept none w h = drop_connection-IsKept w h

  tick_on-IsKept :
      (connection : Option (Connection P)) (w : World P) → Q w → Q (tick_on P E connection w)
  unfolding tick_on try_connect
  tick_on-IsKept none w h =
      if-cases Q (w.task.credentials_invalid && is_latch w.task.invalid_credentials_policy) w
        (connect_with P E w.task.config w) (λ _. h) λ _. connect_with-IsKept w.task.config w h
  tick_on-IsKept (some c) w h =
      ping_outcome-IsKept _ (record w { trace = _ })
        (awaited-IsKept c.max_payload_len w.task.request_timeout (ping P E c) w
          (ping-Grows P E c w.trace) h)

  request_outcome-IsKept :
      (response : ℕ) (r : Option (Result P.RawMessage P.FrameError)) (w : World P)
      → Q w
      → Q (request_outcome P E response r w)
  unfolding request_outcome
  request_outcome-IsKept response (some (ok raw)) w h = k.by_answer _ _ tt (
      if-cases Q (is_fatal_error P E raw) (drop_connection P w) w (λ _. drop_connection-IsKept w h)
        λ _. h)
  request_outcome-IsKept response (some (err _)) w h =
      k.by_answer _ _ tt (drop_connection-IsKept w h)
  request_outcome-IsKept response none w h = k.by_answer _ _ tt (drop_connection-IsKept w h)

  request_on-IsKept :
      (connection : Option (Connection P)) (message : P.RawMessage) (response : ℕ) (w : World P)
      → Q w
      → Q (request_on P E connection message response w)
  unfolding request_on
  request_on-IsKept none message response w h =
      k.by_answer (responded response (err disconnected)) w tt h
  request_on-IsKept (some c) message response w h =
      request_outcome-IsKept response _ (record w { trace = _ })
        (awaited-IsKept c.max_payload_len w.task.request_timeout (request_raw P E c message) w
          (request_raw-Grows P E c message w.trace) h)

  handle_command-IsKept :
      (command : Command P) (w : World P) → Q w → Q (handle_command P E command w)
  unfolding handle_command handle_configure handle_request handle_shutdown
  handle_command-IsKept (configure config) w h =
      let quitted : World P = take_and_quit P E w in
      let cleared : World P = record quitted {
        task = record (quitted.task) { credentials_invalid = false };
      } in
      let set : World P = set_status P (status_for config) cleared in
      if-cases Q w.task.is_shutdown w (record set { task = record (set.task) { config = config } })
        (λ _. h)
        λ _.
          k.by_field (record (set.task) { config = config }) set refl
            (k.by_status (status_for config) cleared (
              k.by_field (record (quitted.task) { credentials_invalid = false }) quitted refl
                (take_and_quit-IsKept w h)))
  handle_command-IsKept (request message response) w h =
      if-cases Q w.task.is_shutdown _ (request_on P E w.task.connection message response w)
        (λ _. k.by_answer (responded response (err shutdown)) w tt h)
        λ _. request_on-IsKept w.task.connection message response w h
  handle_command-IsKept (shutdown_command response) w h =
      let quitted : World P = take_and_quit P E w in
      k.by_answer (acknowledged response) _ tt (
        k.by_status ConnectionStatus.shutdown _ (
          k.by_field (record (quitted.task) { is_shutdown = true }) quitted refl
            (take_and_quit-IsKept w h)))

  -- What the operations keep, every input keeps,
  pub handle-IsKept : (input : Input P) (w : World P) → Q w → Q (handle P E input w)
  unfolding handle handle_tick
  handle-IsKept (received command) w h = handle_command-IsKept command w h
  handle-IsKept ticked w h =
      if-cases Q w.task.is_shutdown w (tick_on P E w.task.connection w) (λ _. h)
        λ _. tick_on-IsKept w.task.connection w h

  run_loop-IsKept : (inputs : List (Input P)) (w : World P) → Q w → Q (run_loop P E inputs w)
  unfolding run_loop
  run_loop-IsKept [] w h = h
  run_loop-IsKept (input ∷ inputs) w h =
      run_loop-IsKept inputs (handle P E input w) (handle-IsKept input w h)

  -- and every run, to its end.
  pub run-IsKept : (inputs : List (Input P)) (w : World P) → Q w → Q (run P E inputs w)
  unfolding run
  run-IsKept inputs w h =
      if-cases Q (w.task.ping_interval == 0) w _ (λ _. h)
        λ _.
          k.by_status ConnectionStatus.shutdown _
            (take_and_quit-IsKept _ (run_loop-IsKept inputs w h))
