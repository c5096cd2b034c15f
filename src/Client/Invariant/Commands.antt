-- ===== src/Client/Invariant/Commands.antt =====
-- The commands to the connection task.
use bloop_client_framework.Base.{if-cases, ℕ, Option, none, some, Result, ok, err, ◌≡◌, refl, inl}
use bloop_client_framework.Connection.{Connection}
use bloop_client_framework.Outside.{ConnectionConfig, ConnectionStatus, Env}
use bloop_client_framework.Protocol.{Protocol}
use bloop_client_framework.Client.{
  World, status_for, drop_connection, handle_configure, request_outcome, handle_request,
  handle_shutdown, request_on, is_fatal_error, send,
}
use bloop_client_framework.Client.Status.{set_status-task}
use bloop_client_framework.Client.Invariant.{Inv, drop_connection-Inv}

module _ (P : Protocol) (E : Env P) where
  request_outcome-Inv :
      (response : ℕ) (r : Option (Result P.RawMessage P.FrameError)) (w : World P)
      {c : Connection P}
      → w.task.connection ≡ some c
      → Inv w.task
      → Inv (request_outcome P E response r w).task
  unfolding request_outcome
  request_outcome-Inv response (some (ok raw)) w e i =
      if-cases (λ (v : World P). Inv v.task) (is_fatal_error P E raw) (drop_connection P w) w
        (λ _. drop_connection-Inv w e i) (λ _. i)
  request_outcome-Inv response (some (err _)) w e i = drop_connection-Inv w e i
  request_outcome-Inv response none w e i = drop_connection-Inv w e i

  request_on-Inv :
      (connection : Option (Connection P)) (message : P.RawMessage) (response : ℕ) (w : World P)
      → w.task.connection ≡ connection
      → Inv w.task
      → Inv (request_on P E connection message response w).task
  unfolding request_on
  request_on-Inv none message response w e i = i
  request_on-Inv (some c) message response w e i =
      request_outcome-Inv response _ (record w { trace = _ }) e i

  pub handle_request-Inv :
      (message : P.RawMessage) (response : ℕ) (w : World P)
      → Inv w.task
      → Inv (handle_request P E message response w).task
  unfolding handle_request
  handle_request-Inv message response w i =
      if-cases (λ (v : World P). Inv v.task) w.task.is_shutdown (send P _ w)
        (request_on P E w.task.connection message response w) (λ _. i)
        (λ _. request_on-Inv w.task.connection message response w refl i)

  pub handle_shutdown-Inv :
      (response : ℕ) (w : World P) → Inv w.task → Inv (handle_shutdown P E response w).task
  unfolding handle_shutdown
  handle_shutdown-Inv response w i = rw (set_status-task P ConnectionStatus.shutdown _) (record {
    closed = λ _. (refl, refl);
    live = λ c e. absurd cc;
    unset = i.unset;
    idle = λ e. absurd cc;
    latched = λ e. absurd cc;
  })

  pub handle_configure-Inv :
      (config : Option ConnectionConfig) (w : World P)
      → Inv w.task
      → Inv (handle_configure P E config w).task
  unfolding handle_configure
  handle_configure-Inv config w i =
      if-cases (λ (v : World P). Inv v.task) w.task.is_shutdown w _ (λ _. i)
        λ up. rw (set_status-task P (status_for config) _) (record {
          closed = λ e. absurd (cc (up, e));
          live = λ c e. absurd cc;
          unset = λ _. refl;
          idle = λ _ _. inl refl;
          latched = λ _ e. absurd cc;
        })
