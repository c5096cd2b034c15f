-- ===== src/Client/System/Recovery.antt =====
-- A configuration that a handle sends, through the channel to the task.
use bloop_client_framework.Base.{
  ℕ, zero, suc, true, false, List, [], ◌∷◌, some, ok, length, ◌≡◌, refl, sym, ◌∙◌, ap, subst,
}
use bloop_client_framework.Connection.{Connection, connected, connect}
use bloop_client_framework.Connection.Healthy.{IsHealthy}
use bloop_client_framework.Outside.{ConnectionConfig, Env}
use bloop_client_framework.Protocol.{Protocol}
use bloop_client_framework.Client.{Command, World, ticked, configure, handle, run_loop}
use bloop_client_framework.Client.Recovery.{IsOn, ticks, Welcomes, configure-recovers}
use bloop_client_framework.Client.Call.{receive_count, reached, carried_out, carried_out-world}
use bloop_client_framework.Client.System.{System, Turn, accepts, take_turn, take_turns}

-- Rounds of the loop in which its ticker is selected.
abbrev pub tick_turns : {P : Protocol} → ℕ → List (Turn P)
tick_turns zero = []
tick_turns (suc n) = Turn.ticks ∷ tick_turns n

module _ (P : Protocol) (E : Env P) where
  tick_turns-world :
      (n : ℕ) (s : System P)
      → (take_turns P E (tick_turns n) (record s { is_running = true })).world
        ≡ run_loop P E (ticks n) s.world
  unfolding take_turns take_turn run_loop
  tick_turns-world zero s = refl
  tick_turns-world (suc n) s = tick_turns-world n (record s { world = handle P E ticked s.world })

  running-world :
      (n : ℕ) (s : System P)
      → s.is_running ≡ true
      → (take_turns P E (tick_turns n) s).world ≡ run_loop P E (ticks n) s.world
  running-world n s up =
      subst
        (λ b.
          (take_turns P E (tick_turns n) (record s { is_running = b })).world
          ≡ run_loop P E (ticks n) s.world)
        (sym up) (tick_turns-world n s)

  -- Where all goes well for a configuration that a handle sends when there is room in the channel,
  -- and the on-connect hook, if any, succeeds. Whatever turns are taken until the task
  -- comes to the configuration, with its ticks, the sends of other handles and the end of handles among
  -- the receipts of the commands ahead, and whatever the client was configured with, connected to or
  -- rejected by: if it is up then, it has, one tick behind the receipt of the configuration, the
  -- connection that an attempt with this configuration gets there, shows it, and keeps that connection
  -- at any number of further ticks.
  pub carried_out-recovers :
      (config : ConnectionConfig) (n : ℕ) (ahead : List (Turn P)) (s : System P)
      → IsHealthy P E config
      → accepts s ≡ true
      → receive_count ahead ≡ length s.queue
      → let command : Command P = configure (some config) in
        let w : World P = (reached P E ahead command s).world in
        let z : System P = carried_out P E ahead command s in
        w.task.is_shutdown ≡ false
        → Welcomes P E w.task.on_connect
        → (c : Connection P) × ((connect P E config z.world.task.options z.world.trace).0
            ≡ ok (connected c))
          × IsOn c (take_turns P E (tick_turns (suc n)) z).world.task
  carried_out-recovers config n ahead s h room count up accepts' =
      let command : Command P = configure (some config) in
      let (e, _, running) = carried_out-world P E ahead command s room count in
      let (c, attempted, on) =
        configure-recovers P E config h n (reached P E ahead command s).world up accepts' in
      (
        c,
        subst (λ (w : World P). (connect P E config w.task.options w.trace).0 ≡ ok (connected c))
            (sym e) attempted,
        subst (λ (w : World P). IsOn c w.task)
            (sym (
              running-world (suc n) (carried_out P E ahead command s) running
              ∙ ap (run_loop P E (ticks (suc n))) e))
            on,
      )
