-- ===== src/Client/Invariant/Runs.antt =====
-- The runs of the connection task.
use bloop_client_framework.Base.{List, [], ◌∷◌}
use bloop_client_framework.Outside.{Env}
use bloop_client_framework.Protocol.{Protocol}
use bloop_client_framework.Client.{
  World, Input, received, ticked, configure, request, shutdown_command, handle, run_loop,
}
use bloop_client_framework.Client.Invariant.{Inv}
use bloop_client_framework.Client.Invariant.Ticks.{handle_tick-Inv}
use bloop_client_framework.Client.Invariant.Commands.{
  handle_request-Inv, handle_shutdown-Inv, handle_configure-Inv,
}

module _ (P : Protocol) (E : Env P) where
  -- Every input keeps the invariant.
  pub handle-Inv : (input : Input P) (w : World P) → Inv w.task → Inv (handle P E input w).task
  unfolding handle
  handle-Inv (received (configure config)) w i = handle_configure-Inv P E config w i
  handle-Inv (received (request message response)) w i = handle_request-Inv P E message response w i
  handle-Inv (received (shutdown_command response)) w i = handle_shutdown-Inv P E response w i
  handle-Inv ticked w i = handle_tick-Inv P E w i

  pub run_loop-Inv :
      (inputs : List (Input P)) (w : World P) → Inv w.task → Inv (run_loop P E inputs w).task
  unfolding run_loop
  run_loop-Inv [] w i = i
  run_loop-Inv (input ∷ inputs) w i =
      run_loop-Inv inputs (handle P E input w) (handle-Inv input w i)
