-- ===== src/Client/System/Draining.antt =====
-- No command waits forever: the task gets through its channel.
use bloop_client_framework.Base.{
  ℕ, zero, suc, true, List, [], ◌∷◌, ◌++◌, append-nil, if-cases, length, ◌≡◌, refl, sym, ◌∙◌, ap,
  arith,
}
use bloop_client_framework.Outside.{Env}
use bloop_client_framework.Protocol.{Protocol}
use bloop_client_framework.Client.{Command}
use bloop_client_framework.Client.Answers.Senders.{answered}
use bloop_client_framework.Client.System.{
  System, Turn, receives, receive_from, take_turn, take_turns,
}
use bloop_client_framework.Client.System.Queue.{waiting, account, accepted, take_turns-account}

abbrev pub receive_all : {P : Protocol} → ℕ → List (Turn P)
receive_all zero = []
receive_all (suc n) = receives ∷ receive_all n

module _ (P : Protocol) (E : Env P) where
  accepted-receive_all : (n : ℕ) (s : System P) → accepted P E (receive_all n) s ≡ []
  unfolding accepted
  accepted-receive_all zero s = refl
  accepted-receive_all (suc n) s = append-nil _ ∙ accepted-receive_all n (take_turn P E receives s)

  receive_from-length :
      (n : ℕ) (queue : List (Command P)) (s : System P)
      → s.queue ≡ queue
      → length queue ≡ suc n
      → s.is_running ≡ true
      → (length (receive_from P E queue s).queue ≡ n)
        × ((receive_from P E queue s).is_running ≡ true)
  unfolding receive_from
  receive_from-length n [] s e h up = absurd (omega arith)
  receive_from-length n (command ∷ queue) s e h up = (omega arith, up)

  empty_of_length : (queue : List (Command P)) → length queue ≡ 0 → queue ≡ []
  empty_of_length [] h = refl
  empty_of_length (c ∷ queue) h = absurd (omega arith)

  drained :
      (n : ℕ) (s : System P)
      → length s.queue ≡ n
      → s.is_running ≡ true
      → (take_turns P E (receive_all n) s).queue ≡ []
  unfolding take_turns take_turn
  drained zero s e up = empty_of_length s.queue e
  drained (suc n) s e up =
      if-cases (λ (t : System P). (take_turns P E (receive_all n) t).queue ≡ []) s.is_running
        (receive_from P E s.queue s) s
        (λ _.
          let (shorter, up') = receive_from-length n s.queue s refl e up in
          drained n (receive_from P E s.queue s) shorter up')
        λ down. absurd (cc (up, down))

  -- In whatever environment: a task that runs answers, by receiving as often as there are commands in
  -- its channel, all the senders who wait there, in the order of sending, and nobody else.
  pub receive_all-answered :
      (s : System P)
      → s.is_running ≡ true
      → answered (take_turns P E (receive_all (length s.queue)) s).world.trace
        ≡ waiting s.queue ++ answered s.world.trace
  receive_all-answered s up =
      sym (ap (λ q. waiting q ++ answered end.world.trace) (drained (length s.queue) s refl up))
      ∙ take_turns-account P E (receive_all (length s.queue)) s
      ∙ ap (λ l. l ++ account s) (accepted-receive_all (length s.queue) s)
    where
      end : System P
      end = take_turns P E (receive_all (length s.queue)) s
