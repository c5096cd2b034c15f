-- ===== src/Client/System/Safety.antt =====
-- What holds of the task and its channel at any time.
use bloop_client_framework.Base.{
  ◌≤◌, Bool, not, ◌==◌, ==_iff, ◌≢◌, sym, ◌∙◌, true, false, List, [], ◌∷◌, none, ok, if-cases,
  length, length-append, ◌≡◌, refl, ap, arith, Bool-cases, inl, inr,
}
use bloop_client_framework.Outside.{ConnectionStatus, Env}
use bloop_client_framework.Protocol.{Protocol}
use bloop_client_framework.Tls.{Rustls}
use bloop_client_framework.Client.{
  Command, World, Input, received, ticked, take_and_quit, handle, run_loop,
}
use bloop_client_framework.Client.Status.{set_status-task}
use bloop_client_framework.Client.Invariant.{Inv}
use bloop_client_framework.Client.Invariant.Runs.{handle-Inv}
use bloop_client_framework.Client.Builder.{
  BloopClientBuilder, build, build-eq-ok, build-run_loop-Inv,
}
use bloop_client_framework.Client.System.{
  accepts-is_running, System, Turn, sends, hangs_up, receives, ticks, accepts, send_command, finish,
  receive_from, take_turn, take_turns, spawned_system, capacity,
}

pub record IsSound {P : Protocol} (s : System P) : Type 0 where
  -- the channel never holds more than its capacity
  pub bounded : length s.queue ≤ capacity
  -- the task's invariant holds as long as it runs
  pub running : s.is_running ≡ true → Inv s.world.task
  -- and when it has come to its end without a panic, it has no connection, and the watch says so; all
  -- handles are gone, and all commands done
  pub ended :
      s.is_running ≡ false
      → s.has_panicked ≡ false
      → (s.world.task.connection ≡ none)
        × (s.world.task.status ≡ ConnectionStatus.shutdown)
        × (s.has_handles ≡ false)
        × (s.queue ≡ [])

module _ (P : Protocol) (E : Env P) where
  pub send_command-IsSound :
      (command : Command P) (s : System P) → IsSound s → IsSound (send_command command s)
  unfolding send_command
  send_command-IsSound command s i = elim (Bool-cases (accepts s)) [
    | inl room ↦ rw room (record {
      bounded = ground (arith, length-append s.queue (command ∷ []));
      running = i.running;
      ended = λ e. absurd (cc (e, accepts-is_running s room));
    })
    | inr full ↦ rw full i
  ]

  finish-IsSound : (s : System P) → s.has_handles ≡ false → s.queue ≡ [] → IsSound (finish P E s)
  unfolding finish take_and_quit
  finish-IsSound s gone empty = record {
    bounded = rw empty (omega arith);
    running = λ e. absurd cc;
    ended = λ _ _. (
      ap (λ t. t.connection)
          (set_status-task P ConnectionStatus.shutdown (take_and_quit P E s.world)),
      ap (λ t. t.status) (set_status-task P ConnectionStatus.shutdown (take_and_quit P E s.world)),
      gone,
      empty,
    );
  }

  -- A round of a task that runs.
  handled-IsSound :
      (input : Input P) (queue : List (Command P)) (s : System P)
      → length queue ≤ capacity
      → s.is_running ≡ true
      → Inv s.world.task
      → IsSound (record s { world = handle P E input s.world; queue = queue })
  handled-IsSound input queue s small up i = record {
    bounded = small;
    running = λ _. handle-Inv P E input s.world i;
    ended = λ e _. absurd (cc (up, e));
  }

  receive_from-IsSound :
      (queue : List (Command P)) (s : System P)
      → s.queue ≡ queue
      → s.is_running ≡ true
      → IsSound s
      → IsSound (receive_from P E queue s)
  unfolding receive_from
  receive_from-IsSound [] s e up i =
      if-cases IsSound s.has_handles s (finish P E s) (λ _. i) λ gone. finish-IsSound s gone e
  receive_from-IsSound (command ∷ queue) s e up i =
      handled-IsSound (received command) queue s (omega (arith, i.bounded, ap length e)) up
        (i.running up)

  take_turn-IsSound : (turn : Turn P) (s : System P) → IsSound s → IsSound (take_turn P E turn s)
  unfolding take_turn
  take_turn-IsSound (sends command) s i = send_command-IsSound command s i
  take_turn-IsSound hangs_up s i = record {
    bounded = i.bounded;
    running = i.running;
    ended = λ e calm. let (idle, shown, _, empty) = i.ended e calm in (idle, shown, refl, empty);
  }
  take_turn-IsSound receives s i =
      if-cases IsSound s.is_running (receive_from P E s.queue s) s
        (λ up. receive_from-IsSound s.queue s refl up i) λ _. i
  take_turn-IsSound ticks s i =
      if-cases IsSound s.is_running (record s { world = handle P E ticked s.world }) s
        (λ up. handled-IsSound ticked s.queue s i.bounded up (i.running up)) λ _. i

  pub take_turns-IsSound :
      (turns : List (Turn P)) (s : System P) → IsSound s → IsSound (take_turns P E turns s)
  unfolding take_turns
  take_turns-IsSound [] s i = i
  take_turns-IsSound (turn ∷ turns) s i =
      take_turns-IsSound turns (take_turn P E turn s) (take_turn-IsSound turn s i)

  -- A task that does not run does nothing.
  take_turn-still :
      (turn : Turn P) (s : System P)
      → s.is_running ≡ false
      → ((take_turn P E turn s).world ≡ s.world) × ((take_turn P E turn s).is_running ≡ false)
  unfolding take_turn send_command
  take_turn-still (sends command) s down = elim (Bool-cases (accepts s)) [
    | inl room ↦ absurd (cc (accepts-is_running s room, down))
    | inr full ↦ rw full (refl, down)
  ]
  take_turn-still hangs_up s down = (refl, down)
  take_turn-still receives s down =
      if-cases (λ (t : System P). (t.world ≡ s.world) × (t.is_running ≡ false)) s.is_running
        (receive_from P E s.queue s) s (λ up. absurd (cc (up, down))) λ _. (refl, down)
  take_turn-still ticks s down =
      if-cases (λ (t : System P). (t.world ≡ s.world) × (t.is_running ≡ false)) s.is_running
        (record s { world = handle P E ticked s.world }) s (λ up. absurd (cc (up, down)))
        λ _. (refl, down)

  take_turns-still :
      (turns : List (Turn P)) (s : System P)
      → s.is_running ≡ false
      → ((take_turns P E turns s).world ≡ s.world) × ((take_turns P E turns s).is_running ≡ false)
  unfolding take_turns
  take_turns-still [] s down = (refl, down)
  take_turns-still (turn ∷ turns) s down =
      let (e, h) = take_turn-still turn s down in
      let (e', h') = take_turns-still turns (take_turn P E turn s) h in (e' ∙ e, h')

  -- The task panics at its start or not at all.
  receive_from-has_panicked :
      (queue : List (Command P)) (s : System P)
      → (receive_from P E queue s).has_panicked ≡ s.has_panicked
  unfolding receive_from finish
  receive_from-has_panicked [] s =
      if-cases (λ (t : System P). t.has_panicked ≡ s.has_panicked) s.has_handles s (finish P E s)
        (λ _. refl) λ _. refl
  receive_from-has_panicked (command ∷ queue) s = refl

  take_turns-has_panicked :
      (turns : List (Turn P)) (s : System P)
      → (take_turns P E turns s).has_panicked ≡ s.has_panicked
  unfolding take_turns take_turn send_command
  take_turns-has_panicked [] s = refl
  take_turns-has_panicked (sends command ∷ turns) s =
      take_turns-has_panicked turns (send_command command s)
      ∙ if-cases (λ (t : System P). t.has_panicked ≡ s.has_panicked) (accepts s) _ s (λ _. refl)
          λ _. refl
  take_turns-has_panicked (hangs_up ∷ turns) s = take_turns-has_panicked turns _
  take_turns-has_panicked (receives ∷ turns) s =
      take_turns-has_panicked turns _
      ∙ if-cases (λ (t : System P). t.has_panicked ≡ s.has_panicked) s.is_running
          (receive_from P E s.queue s) s (λ _. receive_from-has_panicked s.queue s) λ _. refl
  take_turns-has_panicked (ticks ∷ turns) s =
      take_turns-has_panicked turns _
      ∙ if-cases (λ (t : System P). t.has_panicked ≡ s.has_panicked) s.is_running _ s (λ _. refl)
          λ _. refl

  build-ping_interval :
      (R : Rustls) (b : BloopClientBuilder P) (w : World P)
      → build P R b ≡ ok w
      → b.ping_interval ≡ w.task.ping_interval
  build-ping_interval R b w e = ap (λ (v : World P). v.task.ping_interval) (build-eq-ok P R b w e)

  -- Whatever builder a client is built from, and whatever its handles do, in whatever order with its
  -- task and in whatever environment: the channel holds at most 16 commands, and the task's invariant
  -- holds as long as it runs. Where the ping interval is not zero, the task does not panic, and where
  -- it has ended it has no connection, the watch shows the shutdown, all handles are gone, and no
  -- command waits. Where it is zero, the task does not run, and stays, like the watch, as it was built.
  pub build-IsSound :
      (R : Rustls) (b : BloopClientBuilder P) (w : World P) (turns : List (Turn P))
      → build P R b ≡ ok w
      → let z : System P = take_turns P E turns (spawned_system w) in
        IsSound z
        × (b.ping_interval ≢ 0 → z.has_panicked ≡ false)
        × (b.ping_interval ≡ 0 → (z.world ≡ w) × (z.is_running ≡ false))
  build-IsSound R b w turns e = (
    take_turns-IsSound turns (spawned_system w) (record {
      bounded = omega arith;
      running = λ _. unfold run_loop in build-run_loop-Inv P R E b w [] e;
      ended = λ down calm. absurd (stopped _ down calm);
    }),
    (λ ticking.
        take_turns-has_panicked turns (spawned_system w)
        ∙ elim (Bool-cases (w.task.ping_interval == 0)) [
          | inl zero ↦ absurd (ticking (build-ping_interval R b w e ∙ (==_iff _ _).0 zero))
          | inr other ↦ other
        ]),
    (λ zero.
        take_turns-still turns (spawned_system w)
          (ap not ((==_iff _ _).1 (sym (build-ping_interval R b w e) ∙ zero)))),
  )
    where
      stopped : (b : Bool) → not b ≡ false → b ≡ false → ⊥
      stopped true h k = cc
      stopped false h k = cc
