-- ===== src/Client/System/Queue.antt =====
-- The commands in the channel: their answers, their order, and that none waits forever.
use bloop_client_framework.Base.{
  ℕ, false, List, [], ◌∷◌, ◌++◌, append-nil, append_assoc, if◌then◌else◌, if-cases, ◌≡◌, refl, sym,
  ◌∙◌, ap, Bool-cases, inl, inr,
}
use bloop_client_framework.Outside.{ConnectionStatus, Env}
use bloop_client_framework.Protocol.{Protocol}
use bloop_client_framework.Client.{Command, received, ticked, take_and_quit, handle}
use bloop_client_framework.Client.Answers.{handle-answered, quit_taken-answered}
use bloop_client_framework.Client.Answers.Senders.{answered, asker, set_status-answered}
use bloop_client_framework.Client.System.{
  System, Turn, sends, hangs_up, receives, ticks, accepts, send_command, finish, receive_from,
  take_turn, take_turns,
}

-- The senders of commands that wait, the last one first.
abbrev pub waiting : {P : Protocol} → List (Command P) → List ℕ
waiting [] = []
waiting (command ∷ queue) = waiting queue ++ asker (received command)

abbrev pub account : {P : Protocol} → System P → List ℕ
account s = waiting s.queue ++ answered s.world.trace

waiting-append :
    {P : Protocol} (queue : List (Command P)) (command : Command P)
    → waiting (queue ++ command ∷ []) ≡ asker (received command) ++ waiting queue
waiting-append [] command = sym (append-nil (asker (received command)))
waiting-append (c ∷ queue) command =
    ap (λ l. l ++ asker (received c)) (waiting-append queue command)
    ∙ append_assoc (asker (received command)) (waiting queue) (asker (received c))

module _ (P : Protocol) (E : Env P) where
  -- The senders of the commands that a schedule gets into the channel, the last one first.
  unfoldable pub accepted : List (Turn P) → System P → List ℕ
  accepted [] s = []
  accepted (turn ∷ turns) s =
      accepted turns (take_turn P E turn s)
      ++ (elim turn [ sends command ↦ if accepts s then asker (received command) else [] | _ ↦ [] ])

  finish-answered : (s : System P) → answered (finish P E s).world.trace ≡ answered s.world.trace
  unfolding finish take_and_quit
  finish-answered s =
      set_status-answered ConnectionStatus.shutdown (take_and_quit P E s.world)
      ∙ quit_taken-answered P E s.world.task.connection s.world.trace

  send_command-account :
      (command : Command P) (s : System P)
      → account (send_command command s)
        ≡ (if accepts s then asker (received command) else []) ++ account s
  unfolding send_command
  send_command-account command s = elim (Bool-cases (accepts s)) [
    | inl room ↦ rw room (
        ap (λ l. l ++ answered s.world.trace) (waiting-append s.queue command)
        ∙ append_assoc (asker (received command)) (waiting s.queue) (answered s.world.trace))
    | inr full ↦ rw full refl
  ]

  receive_from-account :
      (queue : List (Command P)) (s : System P)
      → s.queue ≡ queue
      → account (receive_from P E queue s) ≡ account s
  unfolding receive_from
  receive_from-account [] s e =
      if-cases (λ (t : System P). account t ≡ account s) s.has_handles s (finish P E s) (λ _. refl)
        λ _. ap (λ l. waiting s.queue ++ l) (finish-answered s)
  receive_from-account (command ∷ queue) s e =
      ap (λ l. waiting queue ++ l) (handle-answered P E (received command) s.world)
      ∙ sym (append_assoc (waiting queue) (asker (received command)) (answered s.world.trace))
      ∙ sym (ap (λ q. waiting q ++ answered s.world.trace) e)

  -- A turn that is not a send.
  unsent :
      (turns : List (Turn P)) (s t : System P)
      → account t ≡ account s
      → accepted turns t ++ account t ≡ (accepted turns t ++ []) ++ account s
  unsent turns s t e = rw (append-nil (accepted turns t)) (ap (λ l. accepted turns t ++ l) e)

  -- Whatever the handles do, in whatever order with the task and in whatever environment: those who
  -- wait in the channel or have got their answer are those who did before and those whose commands
  -- got into the channel, each once for each command, in the order of sending.
  pub take_turns-account :
      (turns : List (Turn P)) (s : System P)
      → account (take_turns P E turns s) ≡ accepted turns s ++ account s
  unfolding take_turns accepted take_turn
  take_turns-account [] s = refl
  take_turns-account (sends command ∷ turns) s =
      take_turns-account turns (send_command command s)
      ∙ ap (λ l. accepted turns (send_command command s) ++ l) (send_command-account command s)
      ∙ sym (append_assoc (accepted turns (send_command command s)) _ (account s))
  take_turns-account (hangs_up ∷ turns) s =
      take_turns-account turns _ ∙ unsent turns s (record s { has_handles = false }) refl
  take_turns-account (receives ∷ turns) s =
      take_turns-account turns _
      ∙ unsent turns s _ (
          if-cases (λ (t : System P). account t ≡ account s) s.is_running
            (receive_from P E s.queue s) s (λ _. receive_from-account s.queue s refl) λ _. refl)
  take_turns-account (ticks ∷ turns) s =
      take_turns-account turns _
      ∙ unsent turns s _ (
          if-cases (λ (t : System P). account t ≡ account s) s.is_running
            (record s { world = handle P E ticked s.world }) s
            (λ _. ap (λ l. waiting s.queue ++ l) (handle-answered P E ticked s.world)) λ _. refl)
