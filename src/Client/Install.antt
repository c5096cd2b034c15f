-- ===== src/Client/Install.antt =====
-- Exactly when a tick gets the task a connection.
use bloop_client_framework.Base.{
  ℕ, Bool, true, false, ◌&&◌, Option, none, some, if-cases, Result, ok, err, ◌≡◌, ◌↔◌, refl, sym,
  ◌∙◌, ap, subst,
}
use bloop_client_framework.Connection.{
  Connection, ConnectError, ConnectOutcome, connected, invalid_credentials, connect, quit,
}
use bloop_client_framework.Outside.{ConnectionConfig, ConnectionStatus, Trace, Env, timeout}
use bloop_client_framework.Protocol.{Protocol}
use bloop_client_framework.Client.{
  Hook, World, ticked, is_latch, set_status, install, run_hook, hook_outcome, run_on_connect,
  connect_outcome, connect_with, try_connect, tick_on, handle_tick, handle,
}
use bloop_client_framework.Client.Status.{set_status-task}

module _ (P : Protocol) (E : Env P) where
  -- The hook, if there is one, succeeds in time on this connection.
  abbrev pub IsAccepted : Option (P.Capabilities → Hook P) → Connection P → ℕ → Trace P → Type 0
  IsAccepted none c duration trace = Unit
  IsAccepted (some hook) c duration trace =
      (timeout P E duration (run_hook P E c (hook c.capabilities)) trace).0 ≡ some true

  -- An attempt that got a connection in time, which the hook then accepted.
  pub record IsInstalled (config : ConnectionConfig) (w : World P) (c : Connection P) : Type 0 where
    pub connects :
        (timeout P E w.task.request_timeout (connect P E config w.task.options) w.trace).0
        ≡ some (ok (connected c))
    pub accepts :
        IsAccepted w.task.on_connect c w.task.request_timeout
          (timeout P E w.task.request_timeout (connect P E config w.task.options) w.trace).1

  abbrev Gets : World P → Connection P → Type 0
  Gets w c = w.task.connection ≡ some c

  -- A change of the status only.
  unset :
      {A : Type 0} (c : Connection P) (s : ConnectionStatus P) (w : World P)
      → w.task.connection ≡ none
      → (A → ⊥)
      → Gets (set_status P s w) c ↔ A
  unset c s w e never =
      let still : (set_status P s w).task.connection ≡ none =
        ap (λ t. t.connection) (set_status-task P s w) ∙ e in
      ((λ h. absurd (cc (still, h))), λ a. absurd (never a))

  hook_outcome-Gets :
      (d c : Connection P) (r : Option Bool) (w : World P)
      → w.task.connection ≡ none
      → Gets (hook_outcome P E d r w) c ↔ ((d ≡ c) × (r ≡ some true))
  unfolding hook_outcome install
  hook_outcome-Gets d c (some true) w e = ((λ h. (cc h, refl)), λ h. ap some h.0)
  hook_outcome-Gets d c (some false) w e =
      unset c ConnectionStatus.disconnected (record w { trace = quit P E d w.trace }) e
        λ h. cc (h.1)
  hook_outcome-Gets d c none w e = unset c ConnectionStatus.disconnected w e λ h. cc (h.1)

  run_on_connect-Gets :
      (hook : Option (P.Capabilities → Hook P)) (d c : Connection P) (w : World P)
      → w.task.connection ≡ none
      → Gets (run_on_connect P E hook d w) c
        ↔ ((d ≡ c) × IsAccepted hook d w.task.request_timeout w.trace)
  unfolding run_on_connect install
  run_on_connect-Gets none d c w e = ((λ h. (cc h, tt)), λ h. ap some h.0)
  run_on_connect-Gets (some hook) d c w e = hook_outcome-Gets d c _ (record w { trace = _ }) e

  connect_outcome-Gets :
      (r : Option (Result (ConnectOutcome P) (ConnectError P E))) (c : Connection P) (w : World P)
      → w.task.connection ≡ none
      → Gets (connect_outcome P E r w) c ↔ (
          (r ≡ some (ok (connected c)))
          × IsAccepted w.task.on_connect c w.task.request_timeout w.trace)
  unfolding connect_outcome
  connect_outcome-Gets none c w e = unset c ConnectionStatus.disconnected w e λ h. cc (h.0)
  connect_outcome-Gets (some (err x)) c w e =
      unset c ConnectionStatus.disconnected w e λ h. cc (h.0)
  connect_outcome-Gets (some (ok invalid_credentials)) c w e =
      unset c ConnectionStatus.invalid_credentials
        (record w { task = record (w.task) { credentials_invalid = true } }) e λ h. cc (h.0)
  connect_outcome-Gets (some (ok (connected d))) c w e =
      let (there, back) = run_on_connect-Gets w.task.on_connect d c w e in
      (
        (λ h.
            let (same, accepted) = there h in
            (
              ap (λ x. some (ok (connected x))) same,
              subst (λ x. IsAccepted w.task.on_connect x w.task.request_timeout w.trace) same
                  accepted,
            )),
        (λ h.
            let same : d ≡ c = cc (h.0) in
            back (
              same,
              subst (λ x. IsAccepted w.task.on_connect x w.task.request_timeout w.trace) (sym same)
                  h.1,
            )),
      )

  -- A tick of a client that is up, has a configuration and no connection, and no rejected credentials
  -- latched, gets a connection exactly when the attempt with this configuration ends with it in time,
  -- and the on-connect hook, if there is one, succeeds on it in time.
  pub tick-IsInstalled :
      (config : ConnectionConfig) (w : World P) (c : Connection P)
      → w.task.is_shutdown ≡ false
      → w.task.connection ≡ none
      → w.task.config ≡ some config
      → (w.task.credentials_invalid && is_latch w.task.invalid_credentials_policy) ≡ false
      → ((handle P E ticked w).task.connection ≡ some c) ↔ IsInstalled config w c
  unfolding handle handle_tick
  tick-IsInstalled config w c up idle configured free =
      if-cases (λ (v : World P). Gets v c ↔ IsInstalled config w c) w.task.is_shutdown w
        (tick_on P E w.task.connection w) (λ down. absurd (cc (up, down)))
        λ _. subst (λ o. Gets (tick_on P E o w) c ↔ IsInstalled config w c) (sym idle) unheld
    where
      attempted : Gets (connect_with P E (some config) w) c ↔ IsInstalled config w c
      attempted =
          let (there, back) =
            connect_outcome-Gets
              (timeout P E w.task.request_timeout (connect P E config w.task.options) w.trace).0 c
              (record w {
                trace =
                    (timeout P E w.task.request_timeout (connect P E config w.task.options)
                      w.trace).1;
              })
              idle in
          unfold connect_with in
          (
            (λ h. record { connects = (there h).0; accepts = (there h).1 }),
            λ x. back (x.connects, x.accepts),
          )

      unheld : Gets (tick_on P E none w) c ↔ IsInstalled config w c
      unheld =
          unfold tick_on try_connect in
          if-cases (λ (v : World P). Gets v c ↔ IsInstalled config w c)
            (w.task.credentials_invalid && is_latch w.task.invalid_credentials_policy) w
            (connect_with P E w.task.config w) (λ held. absurd (cc (held, free)))
            λ _.
              subst (λ o. Gets (connect_with P E o w) c ↔ IsInstalled config w c) (sym configured)
                attempted
