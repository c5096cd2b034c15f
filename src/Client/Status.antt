-- ===== src/Client/Status.antt =====
-- The status watch: what it shows, and when it notifies.
use bloop_client_framework.Base.{true, none, ◌≡◌, refl, ap, Bool-cases, inl, inr}
use bloop_client_framework.Outside.{ConnectionStatus}
use bloop_client_framework.Protocol.{Protocol}
use bloop_client_framework.Client.{World, status_eq, set_status, drop_connection}

module _ (P : Protocol) where
  pub status_eq-eq : (a b : ConnectionStatus P) → status_eq P a b ≡ true → a ≡ b
  unfolding status_eq
  status_eq-eq ConnectionStatus.unconfigured ConnectionStatus.unconfigured h = refl
  status_eq-eq ConnectionStatus.disconnected ConnectionStatus.disconnected h = refl
  status_eq-eq (ConnectionStatus.connected a) (ConnectionStatus.connected b) h =
      ap ConnectionStatus.connected ((P.capabilities_eq_iff a b).0 h)
  status_eq-eq ConnectionStatus.invalid_credentials ConnectionStatus.invalid_credentials h = refl
  status_eq-eq ConnectionStatus.shutdown ConnectionStatus.shutdown h = refl
  status_eq-eq _ _ h = cc

  -- Whatever the watch showed, the task afterwards shows the new status and is otherwise unchanged.
  pub set_status-task :
      (s : ConnectionStatus P) (w : World P)
      → (set_status P s w).task ≡ record (w.task) { status = s }
  unfolding set_status
  set_status-task s w = elim (Bool-cases (status_eq P w.task.status s)) [
    | inl same ↦
        rw same (ap (λ x. record (w.task) { status = x }) (status_eq-eq w.task.status s same))
    | inr new ↦ rw new
  ]

  pub drop_connection-task :
      (w : World P)
      → (drop_connection P w).task
        ≡ record (w.task) { connection = none; status = ConnectionStatus.disconnected }
  unfolding drop_connection
  drop_connection-task w =
      set_status-task ConnectionStatus.disconnected
        (record w { task = record (w.task) { connection = none } })
