-- ===== src/Client/Recovery.antt =====
-- That the task gets a connection, and keeps it, when the network and the server do their part.
use bloop_client_framework.Base.{
  ℕ, zero, suc, true, false, ◌&&◌, List, [], ◌∷◌, Option, none, some, ok, if-cases, ◌≡◌, refl, sym,
  ◌∙◌, ap, subst,
}
use bloop_client_framework.Connection.{Connection, connected, ping, connect}
use bloop_client_framework.Connection.Healthy.{
  IsHealthy, timeout-in_time, connect-IsHealthy, ping-IsHealthy,
}
use bloop_client_framework.Outside.{ConnectionConfig, ConnectionStatus, Trace, Env}
use bloop_client_framework.Protocol.{Protocol}
use bloop_client_framework.Client.{
  ClientTask, Hook, World, Input, received, ticked, configure, is_latch, install, take_and_quit,
  handle_configure, handle_command, run_hook, hook_outcome, run_on_connect, connect_outcome,
  connect_with, try_connect, ping_outcome, tick_on, handle_tick, handle, run_loop,
}
use bloop_client_framework.Client.Status.{set_status-task}

-- This connection, which the watch shows, of a client that is up.
abbrev pub IsOn : {P : Protocol} → Connection P → ClientTask P → Type 0
IsOn c t =
    (t.is_shutdown ≡ false)
    × (t.connection ≡ some c)
    × (t.status ≡ ConnectionStatus.connected c.capabilities)

abbrev pub ticks : {P : Protocol} → ℕ → List (Input P)
ticks zero = []
ticks (suc n) = ticked ∷ ticks n

module _ (P : Protocol) (E : Env P) where
  -- The on-connect hook, if any, succeeds on every connection.
  abbrev pub Welcomes : Option (P.Capabilities → Hook P) → Type 0
  Welcomes none = Unit
  Welcomes (some hook) =
      (c : Connection P) (trace : Trace P) → (run_hook P E c (hook c.capabilities) trace).0 ≡ true

  install-IsOn :
      (c : Connection P) (w : World P) → w.task.is_shutdown ≡ false → IsOn c (install P c w).task
  unfolding install
  install-IsOn c w up =
      let e =
        set_status-task P (ConnectionStatus.connected c.capabilities)
          (record w { task = record (w.task) { credentials_invalid = false } }) in
      (ap (λ t. t.is_shutdown) e ∙ up, refl, ap (λ t. t.status) e)

  module _ (config : ConnectionConfig) (h : IsHealthy P E config) where
    run_on_connect-IsOn :
        (hook : Option (P.Capabilities → Hook P)) (c : Connection P) (w : World P)
        → w.task.is_shutdown ≡ false
        → Welcomes hook
        → IsOn c (run_on_connect P E hook c w).task
    unfolding run_on_connect hook_outcome
    run_on_connect-IsOn none c w up accepts = install-IsOn c w up
    run_on_connect-IsOn (some hook) c w up accepts =
        rw
          (
            timeout-in_time P E w.task.request_timeout (run_hook P E c (hook c.capabilities))
                w.trace (h.in_time _ _),
            accepts c w.trace,
          )
          (install-IsOn c (record w { trace = (run_hook P E c (hook c.capabilities) w.trace).1 })
            up)

    -- What an attempt with the configuration gets here is installed.
    abbrev pub Attempted : Connection P → World P → Type 0
    Attempted c w = (connect P E config w.task.options w.trace).0 ≡ ok (connected c)

    connect_with-IsOn :
        (w : World P)
        → w.task.is_shutdown ≡ false
        → Welcomes w.task.on_connect
        → (c : Connection P) × Attempted c w × IsOn c (connect_with P E (some config) w).task
    unfolding connect_with connect_outcome
    connect_with-IsOn w up accepts =
        let (c, after, e) = connect-IsHealthy P E config w.task.options w.trace h in
        (
          c,
          ap (λ r. r.0) e,
          rw
              (
                timeout-in_time P E w.task.request_timeout (connect P E config w.task.options)
                    w.trace (h.in_time _ _),
                e,
              )
              (run_on_connect-IsOn w.task.on_connect c (record w { trace = after }) up accepts),
        )

    -- A tick without a connection attempts to get one,
    tick-attempts :
        (w : World P)
        → w.task.is_shutdown ≡ false
        → w.task.connection ≡ none
        → w.task.config ≡ some config
        → (w.task.credentials_invalid && is_latch w.task.invalid_credentials_policy) ≡ false
        → handle P E ticked w ≡ connect_with P E (some config) w
    unfolding handle handle_tick tick_on try_connect
    tick-attempts w up idle configured free =
        rw (up, idle, tick_on, try_connect, free, configured) refl

    handle_tick-IsOn :
        (w : World P)
        → w.task.is_shutdown ≡ false
        → w.task.connection ≡ none
        → w.task.config ≡ some config
        → (w.task.credentials_invalid && is_latch w.task.invalid_credentials_policy) ≡ false
        → Welcomes w.task.on_connect
        → (c : Connection P) × Attempted c w × IsOn c (handle P E ticked w).task
    handle_tick-IsOn w up idle configured free accepts =
        let (c, attempted, on) = connect_with-IsOn w up accepts in
        (
          c,
          attempted,
          subst (λ (v : World P). IsOn c v.task) (sym (tick-attempts w up idle configured free)) on,
        )

    -- and one with a connection keeps it.
    pinged-IsOn :
        (c d : Connection P) (w : World P) → IsOn d w.task → IsOn d (tick_on P E (some c) w).task
    unfolding tick_on ping_outcome
    pinged-IsOn c d w live =
        let (after, e) = ping-IsHealthy P E config c w.trace h in
        rw (timeout-in_time P E w.task.request_timeout (ping P E c) w.trace (h.in_time _ _), e) live

    ticks-IsOn :
        (n : ℕ) (c : Connection P) (w : World P)
        → IsOn c w.task
        → IsOn c (run_loop P E (ticks n) w).task
    unfolding run_loop handle handle_tick
    ticks-IsOn zero c w live = live
    ticks-IsOn (suc n) c w (up, live, shown) = ticks-IsOn n c (handle P E ticked w) (
        if-cases (λ (v : World P). IsOn c v.task) w.task.is_shutdown w
          (tick_on P E w.task.connection w) (λ down. (up, live, shown))
          λ _.
            subst (λ o. IsOn c (tick_on P E o w).task) (sym live)
              (pinged-IsOn c c w (up, live, shown)))

    reconfigured : World P → ClientTask P
    reconfigured w = record (w.task) {
      connection = none;
      credentials_invalid = false;
      status = ConnectionStatus.disconnected;
      config = some config;
    }

    handle_configure-task :
        (w : World P)
        → w.task.is_shutdown ≡ false
        → (handle P E (received (configure (some config))) w).task ≡ reconfigured w
    unfolding handle handle_command handle_configure take_and_quit reconfigured
    handle_configure-task w up =
        if-cases (λ (v : World P). v.task ≡ reconfigured w) w.task.is_shutdown w _
          (λ down. absurd (cc (up, down)))
          λ _.
            ap (λ (t : ClientTask P). record t { config = some config })
              (set_status-task P ConnectionStatus.disconnected _)

    -- Where all goes well for a configuration, and the on-connect hook, if any, succeeds: a client that
    -- is up, whatever it was configured with, connected to, or rejected by, and whether it has rejected
    -- credentials latched, has after that configuration and a tick the connection that an attempt with
    -- this configuration gets there, shows it, and keeps it at any number of further ticks.
    pub configure-recovers :
        (n : ℕ) (w : World P)
        → w.task.is_shutdown ≡ false
        → Welcomes w.task.on_connect
        → let v : World P = handle P E (received (configure (some config))) w in
          (c : Connection P) × Attempted c v × IsOn c (run_loop P E (ticks (suc n)) v).task
    unfolding run_loop reconfigured
    configure-recovers n w up accepts =
        let (c, attempted, on) =
          handle_tick-IsOn v (ap (λ t. t.is_shutdown) e ∙ up) (ap (λ t. t.connection) e)
            (ap (λ t. t.config) e)
            (ap (λ t. t.credentials_invalid && is_latch t.invalid_credentials_policy) e)
            (subst Welcomes (sym (ap (λ t. t.on_connect) e)) accepts) in
        (c, attempted, ticks-IsOn n c (handle P E ticked v) on)
      where
        v : World P
        v = handle P E (received (configure (some config))) w

        e : v.task ≡ reconfigured w
        e = handle_configure-task w up
