-- ===== src/Client/Invariant/Ticks.antt =====
-- A tick of the connection task: a ping, or an attempt to connect.
use bloop_client_framework.Base.{
  if-cases, ℕ, Bool, true, false, ◌&&◌, Option, none, some, is_some, Result, ok, err, ◌≡◌, refl, ap,
  arith, Bool-cases, Option-cases, inl, inr,
}
use bloop_client_framework.Connection.{
  Connection, ConnectOutcome, connected, invalid_credentials, ConnectError, Io, connect, quit,
}
use bloop_client_framework.Connection.Limits.{Ensures, HasLimit, connect-HasLimit}
use bloop_client_framework.Outside.{ConnectionConfig, ConnectionStatus, Trace, Env, timeout}
use bloop_client_framework.Protocol.{Protocol}
use bloop_client_framework.Request.{RequestError}
use bloop_client_framework.Client.{
  ClientTask, World, is_latch, set_status, install, hook_outcome, run_on_connect, connect_outcome,
  connect_with, try_connect, ping_outcome, tick_on, handle_tick, Hook,
}
use bloop_client_framework.Client.Status.{set_status-task}
use bloop_client_framework.Client.Invariant.{Inv, shows, drop_connection-Inv}

-- A task that is up, has a configuration and no connection, and is not held back by the latch.
record IsConnecting {P : Protocol} (t : ClientTask P) : Type 0 where
  inv : Inv t
  running : t.is_shutdown ≡ false
  configured : is_some t.config ≡ true
  unconnected : t.connection ≡ none
  unlatched : (t.credentials_invalid && is_latch t.invalid_credentials_policy) ≡ false

module _ {P : Protocol} where
  failed-Inv :
      (w : World P) → IsConnecting w.task → Inv (set_status P ConnectionStatus.disconnected w).task
  failed-Inv w s = rw (set_status-task P ConnectionStatus.disconnected w) (record {
    closed = λ e. ground (arith, s.running);
    live = λ c e. absurd (cc (s.unconnected, e));
    unset = s.inv.unset;
    idle = λ _ _. inl (shows w.task.config s.configured);
    latched = λ _ l. absurd (ground (arith, s.unlatched));
  })

  install-Inv :
      (c : Connection P) (w : World P)
      → IsConnecting w.task
      → c.max_payload_len ≡ w.task.options.max_payload_len
      → Inv (install P c w).task
  unfolding install
  install-Inv c w s limit =
      rw
        (set_status-task P (ConnectionStatus.connected c.capabilities)
          (record w { task = record (w.task) { credentials_invalid = false } }))
        (record {
          closed = λ e. ground (arith, s.running);
          live = λ d e. ground arith;
          unset = λ _. refl;
          idle = λ _ e. absurd cc;
          latched = λ _ l. absurd cc;
        })

  rejected-Inv :
      (w : World P)
      → IsConnecting w.task
      → Inv
          (set_status P ConnectionStatus.invalid_credentials
            (record w { task = record (w.task) { credentials_invalid = true } })).task
  rejected-Inv w s =
      rw
        (set_status-task P ConnectionStatus.invalid_credentials
          (record w { task = record (w.task) { credentials_invalid = true } }))
        (record {
          closed = λ e. ground (arith, s.running);
          live = λ c e. absurd (cc (s.unconnected, e));
          unset = λ e. ground (arith, s.configured);
          idle = λ _ _. inr (refl, refl);
          latched = λ _ _. refl;
        })

module _ (P : Protocol) (E : Env P) where
  hook_outcome-Inv :
      (c : Connection P) (r : Option Bool) (w : World P)
      → IsConnecting w.task
      → c.max_payload_len ≡ w.task.options.max_payload_len
      → Inv (hook_outcome P E c r w).task
  unfolding hook_outcome
  hook_outcome-Inv c (some true) w s limit = install-Inv c w s limit
  hook_outcome-Inv c (some false) w s limit = failed-Inv (record w { trace = quit P E c w.trace }) s
  hook_outcome-Inv c none w s limit = failed-Inv w s

  -- The limit of a connection that was established in time.
  abbrev EndsWithin : ℕ → Option (Result (ConnectOutcome P) (ConnectError P E)) → Type 0
  EndsWithin limit none = Unit
  EndsWithin limit (some r) = Ensures (HasLimit limit) r

  run_on_connect-Inv :
      (hook : Option (P.Capabilities → Hook P)) (c : Connection P) (w : World P)
      → IsConnecting w.task
      → c.max_payload_len ≡ w.task.options.max_payload_len
      → Inv (run_on_connect P E hook c w).task
  unfolding run_on_connect
  run_on_connect-Inv none c w s h = install-Inv c w s h
  run_on_connect-Inv (some hook) c w s h = hook_outcome-Inv c _ (record w { trace = _ }) s h

  connect_outcome-Inv :
      (r : Option (Result (ConnectOutcome P) (ConnectError P E))) (w : World P)
      → IsConnecting w.task
      → EndsWithin w.task.options.max_payload_len r
      → Inv (connect_outcome P E r w).task
  unfolding connect_outcome
  connect_outcome-Inv none w s h = failed-Inv w s
  connect_outcome-Inv (some (err e)) w s h = failed-Inv w s
  connect_outcome-Inv (some (ok invalid_credentials)) w s h = rejected-Inv w s
  connect_outcome-Inv (some (ok (connected c))) w s h = run_on_connect-Inv w.task.on_connect c w s h

  timeout-EndsWithin :
      (limit duration : ℕ) (future : Io P (ConnectOutcome P) (ConnectError P E)) (trace : Trace P)
      → Ensures (HasLimit limit) (future trace).0
      → EndsWithin limit (timeout P E duration future trace).0
  unfolding timeout
  timeout-EndsWithin limit duration future trace h =
      elim (Option-cases (E.deadline trace duration)) [
        | inl in_time ↦ rw (in_time, EndsWithin) h
        | inr (lost, late) ↦ rw (late, EndsWithin) tt
      ]

  connect_with-Inv :
      (config : Option ConnectionConfig) (w : World P)
      → Inv w.task
      → w.task.is_shutdown ≡ false
      → w.task.connection ≡ none
      → (w.task.credentials_invalid && is_latch w.task.invalid_credentials_policy) ≡ false
      → w.task.config ≡ config
      → Inv (connect_with P E config w).task
  unfolding connect_with
  connect_with-Inv none w i up idle free e = i
  connect_with-Inv (some config) w i up idle free e =
      connect_outcome-Inv _ (record w { trace = _ })
        (record {
          inv = i;
          running = up;
          configured = ap is_some e;
          unconnected = idle;
          unlatched = free;
        })
        (timeout-EndsWithin w.task.options.max_payload_len w.task.request_timeout
          (connect P E config w.task.options) w.trace
          (connect-HasLimit P E config w.task.options w.trace))

  try_connect-Inv :
      (w : World P)
      → Inv w.task
      → w.task.is_shutdown ≡ false
      → w.task.connection ≡ none
      → Inv (try_connect P E w).task
  unfolding try_connect
  try_connect-Inv w i up idle =
      elim (Bool-cases (w.task.credentials_invalid && is_latch w.task.invalid_credentials_policy)) [
        | inl held ↦ rw held i
        | inr free ↦ rw free (connect_with-Inv w.task.config w i up idle free refl)
      ]

  ping_outcome-Inv :
      (r : Option (Result (Unit {0}) (RequestError P))) (w : World P) {c : Connection P}
      → w.task.connection ≡ some c
      → Inv w.task
      → Inv (ping_outcome P E r w).task
  unfolding ping_outcome
  ping_outcome-Inv (some (ok _)) w e i = i
  ping_outcome-Inv (some (err _)) w e i = drop_connection-Inv w e i
  ping_outcome-Inv none w e i = drop_connection-Inv w e i

  tick_on-Inv :
      (connection : Option (Connection P)) (w : World P)
      → Inv w.task
      → w.task.is_shutdown ≡ false
      → w.task.connection ≡ connection
      → Inv (tick_on P E connection w).task
  unfolding tick_on
  tick_on-Inv none w i up e = try_connect-Inv w i up e
  tick_on-Inv (some c) w i up e = ping_outcome-Inv _ (record w { trace = _ }) e i

  -- A tick keeps the invariant, whether it pings, connects, or does neither.
  pub handle_tick-Inv : (w : World P) → Inv w.task → Inv (handle_tick P E w).task
  unfolding handle_tick
  handle_tick-Inv w i =
      if-cases (λ (v : World P). Inv v.task) w.task.is_shutdown w (tick_on P E w.task.connection w)
        (λ _. i) λ up. tick_on-Inv w.task.connection w i up refl
