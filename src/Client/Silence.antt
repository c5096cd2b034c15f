-- ===== src/Client/Silence.antt =====
-- When the task stays off the network: after a shutdown, and under a latched rejection.
use bloop_client_framework.Base.{
  ◌==◌, ℕ, Bool, true, false, ◌&&◌, List, [], ◌∷◌, Option, none, err, if◌then◌else◌, ◌≡◌, refl, ◌∙◌,
  ap, sym, subst, arith, ◌++◌, append_assoc, Option-cases, inl, inr,
}
use bloop_client_framework.Connection.{Connection}
use bloop_client_framework.Connection.Effects.{Grows, same, more, Grows-trans}
use bloop_client_framework.Outside.{ConnectionStatus, Event, responded, acknowledged, Trace, Env}
use bloop_client_framework.Protocol.{Protocol}
use bloop_client_framework.Request.{disconnected, shutdown}
use bloop_client_framework.Client.{
  Input, World, received, ticked, configure, request, shutdown_command, set_status, quit_taken,
  take_and_quit, handle_configure, request_on, handle_request, handle_shutdown, handle_command,
  try_connect, tick_on, handle_tick, handle, run_loop, run, is_latch, status_eq, send,
}
use bloop_client_framework.Client.Invariant.{Inv}
use bloop_client_framework.Client.Invariant.Runs.{handle-Inv}
use bloop_client_framework.Client.Status.{set_status-task}

-- The answer of a client that is not connected.
abbrev pub IsDisconnectedAnswer : {P : Protocol} → Event P → Type 0
IsDisconnectedAnswer (responded _ (err disconnected)) = Unit
IsDisconnectedAnswer _ = ⊥

-- Ticks and requests alone.
abbrev pub KeepsConfig : {P : Protocol} → List (Input P) → Type 0
KeepsConfig [] = Unit
KeepsConfig (ticked ∷ inputs) = KeepsConfig inputs
KeepsConfig (received (request _ _) ∷ inputs) = KeepsConfig inputs
KeepsConfig (_ ∷ inputs) = ⊥

-- What a test gives.
if-true : {A : Type 0} (b : Bool) (v w : A) → b ≡ true → (if b then v else w) ≡ v
if-true b v w h = rw h refl

if-false : {A : Type 0} (b : Bool) (v w : A) → b ≡ false → (if b then v else w) ≡ w
if-false b v w h = rw h refl

module _ {P : Protocol} where
  set_status-shown :
      (s : ConnectionStatus P) (w : World P)
      → s ≡ ConnectionStatus.shutdown
      → w.task.status ≡ ConnectionStatus.shutdown
      → (set_status P s w).trace ≡ w.trace
  unfolding set_status status_eq
  set_status-shown s w e h = rw (e, h) refl

module _ (P : Protocol) (E : Env P) where
  quit_taken-none :
      (connection : Option (Connection P)) (trace : Trace P)
      → connection ≡ none
      → quit_taken P E connection trace ≡ trace
  unfolding quit_taken
  quit_taken-none connection trace h = rw h refl

  handle_shutdown-closed :
      (response : ℕ) (w : World P)
      → w.task.connection ≡ none
      → w.task.status ≡ ConnectionStatus.shutdown
      → (handle_shutdown P E response w).trace ≡ acknowledged response ∷ w.trace
  unfolding handle_shutdown take_and_quit
  handle_shutdown-closed response w idle shown =
      ap (λ t. acknowledged response ∷ t)
        (set_status-shown ConnectionStatus.shutdown _ refl shown
          ∙ quit_taken-none w.task.connection w.trace idle)

  -- What a client that is shut down answers to an input.
  abbrev pub refusal : Input P → Trace P
  refusal (received (request message response)) = responded response (err shutdown) ∷ []
  refusal (received (shutdown_command response)) = acknowledged response ∷ []
  refusal _ = []

  abbrev pub refusals : List (Input P) → Trace P
  refusals [] = []
  refusals (input ∷ inputs) = refusals inputs ++ refusal input

  -- These answers alone since the trace `before`, of a client that is shut down.
  abbrev IsClosedAfter : Trace P → Trace P → World P → Type 0
  IsClosedAfter before answers w = (w.trace ≡ answers ++ before) × (w.task.is_shutdown ≡ true)

  if-IsClosedAfter :
      (before answers : Trace P) (b : Bool) (v w : World P)
      → b ≡ true
      → IsClosedAfter before answers v
      → IsClosedAfter before answers (if b then v else w)
  if-IsClosedAfter before answers true v w h c = c
  if-IsClosedAfter before answers false v w h c = absurd cc

  handle-closed :
      (input : Input P) (w : World P)
      → Inv w.task
      → w.task.is_shutdown ≡ true
      → IsClosedAfter w.trace (refusal input) (handle P E input w)
  unfolding handle handle_command handle_configure handle_request handle_tick
  handle-closed (received (configure config)) w i h =
      if-IsClosedAfter w.trace [] w.task.is_shutdown w _ h (refl, h)
  handle-closed (received (request message response)) w i h =
      if-IsClosedAfter w.trace (responded response (err shutdown) ∷ []) w.task.is_shutdown
        (send P (responded response (err shutdown)) w) _ h (refl, h)
  handle-closed (received (shutdown_command response)) w i h =
      let (idle, shown) = i.closed h in
      (
        handle_shutdown-closed response w idle shown,
        (unfold handle_shutdown in rw (set_status-task P ConnectionStatus.shutdown _) refl),
      )
  handle-closed ticked w i h = if-IsClosedAfter w.trace [] w.task.is_shutdown w _ h (refl, h)

  -- Once the client is shut down (in a state of which the invariant holds), whatever commands and
  -- ticks follow: it stays shut down, with no connection and the shutdown shown, every request is
  -- answered with the shutdown error, every shutdown is acknowledged, in the order in which they come,
  -- and nothing else happens: a configuration is dropped, and nothing is written, opened, awaited or
  -- published any more.
  pub run_loop-closed :
      (inputs : List (Input P)) (w : World P)
      → Inv w.task
      → w.task.is_shutdown ≡ true
      → let z : World P = run_loop P E inputs w in
        (z.trace ≡ refusals inputs ++ w.trace)
        × (z.task.is_shutdown ≡ true)
        × (z.task.connection ≡ none)
        × (z.task.status ≡ ConnectionStatus.shutdown)
  unfolding run_loop
  run_loop-closed [] w i h = (refl, h, (i.closed h).0, (i.closed h).1)
  run_loop-closed (input ∷ inputs) w i h =
      let (g, h') = handle-closed input w i h in
      let (e, down, idle, shown) =
        run_loop-closed inputs (handle P E input w) (handle-Inv P E input w i) h' in
      (
        e
            ∙ ap (λ t. refusals inputs ++ t) g
            ∙ sym (append_assoc (refusals inputs) (refusal input) w.trace),
        down,
        idle,
        shown,
      )

  -- When all handles are gone the task of a client with a ping interval ends with no connection, and the
  -- watch shows the shutdown.
  pub run-closed :
      (inputs : List (Input P)) (w : World P)
      → (w.task.ping_interval == 0) ≡ false
      → ((run P E inputs w).task.connection ≡ none)
        × ((run P E inputs w).task.status ≡ ConnectionStatus.shutdown)
  unfolding run take_and_quit
  run-closed inputs w ticking =
      rw (ticking, run) (rw (set_status-task P ConnectionStatus.shutdown _) (refl, refl))

  -- The task of a client that is up and whose rejected credentials are latched.
  abbrev pub IsLatched : World P → Type 0
  IsLatched w =
      (w.task.is_shutdown ≡ false)
      × ((w.task.credentials_invalid && is_latch w.task.invalid_credentials_policy) ≡ true)

  unconnected :
      (w : World P)
      → Inv w.task
      → (w.task.credentials_invalid && is_latch w.task.invalid_credentials_policy) ≡ true
      → w.task.connection ≡ none
  unconnected w i held = elim (Option-cases w.task.connection) [
    | inl idle ↦ idle
    | inr (c, e) ↦ let (_, _, valid, _) = i.live c e in absurd (ground arith)
  ]

  tick_on-none :
      (connection : Option (Connection P)) (w : World P)
      → connection ≡ none
      → tick_on P E connection w ≡ try_connect P E w
  unfolding tick_on
  tick_on-none connection w h = rw h refl

  request_on-none :
      (connection : Option (Connection P)) (message : P.RawMessage) (response : ℕ) (w : World P)
      → connection ≡ none
      → request_on P E connection message response w
        ≡ send P (responded response (err disconnected)) w
  unfolding request_on
  request_on-none connection message response w h = rw h refl

  handle_tick-latched : (w : World P) → Inv w.task → IsLatched w → handle_tick P E w ≡ w
  unfolding handle_tick try_connect
  handle_tick-latched w i (up, held) =
      if-false w.task.is_shutdown w _ up
      ∙ tick_on-none w.task.connection w (unconnected w i held)
      ∙ if-true (w.task.credentials_invalid && is_latch w.task.invalid_credentials_policy) w _ held

  handle_request-latched :
      (message : P.RawMessage) (response : ℕ) (w : World P)
      → Inv w.task
      → IsLatched w
      → handle_request P E message response w ≡ send P (responded response (err disconnected)) w
  unfolding handle_request
  handle_request-latched message response w i (up, held) =
      if-false w.task.is_shutdown _ _ up
      ∙ request_on-none w.task.connection message response w (unconnected w i held)

  -- The task of `before`, and since then nothing but refusals as disconnected.
  abbrev pub IsRefused : World P → World P → Type 0
  IsRefused before w = (w.task ≡ before.task) × Grows IsDisconnectedAnswer before.trace w.trace

  -- Once rejected credentials are latched (in a state of which the invariant holds, of a client that
  -- is up), ticks and requests, in whatever number and order, leave the task as it is, and only add
  -- to the trace that the requests are refused as disconnected: the credentials are not tried again.
  pub run_loop-latched :
      (inputs : List (Input P)) (w : World P)
      → KeepsConfig inputs
      → Inv w.task
      → IsLatched w
      → IsRefused w (run_loop P E inputs w)
  unfolding run_loop handle handle_command
  run_loop-latched [] w k i l = (refl, same)
  run_loop-latched (ticked ∷ inputs) w k i l =
      subst (λ v. IsRefused w (run_loop P E inputs v)) (sym (handle_tick-latched w i l))
        (run_loop-latched inputs w k i l)
  run_loop-latched (received (request message response) ∷ inputs) w k i l =
      let (e, g) =
        run_loop-latched inputs (send P (responded response (err disconnected)) w) k i l in
      subst (λ v. IsRefused w (run_loop P E inputs v))
        (sym (handle_request-latched message response w i l)) (e, Grows-trans (more tt same) g)
  run_loop-latched (received (configure config) ∷ inputs) w k i l = absurd k
  run_loop-latched (received (shutdown_command response) ∷ inputs) w k i l = absurd k
