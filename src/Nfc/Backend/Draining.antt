-- ===== src/Nfc/Backend/Draining.antt =====
-- The loop of `serve` gets through its requests when their callers do not wait for a card.
use bloop_client_framework.Base.{
  ℕ, zero, suc, ◌+◌, ◌-◌, ◌*◌, ◌≤◌, Bool, true, false, List, [], ◌∷◌, length, Bytes, All, Outcome,
  returned, raised, panicked, Result, ◌≡◌, ◌≢◌, refl, sym, subst, arith, if-cases, inl, inr, ◌⊎◌,
}
use bloop_client_framework.Nfc.Mfrc522.{Chip, ReadError}
use bloop_client_framework.Nfc.Mfrc522.Safety.{read_ndef_text-ne-panicked}
use bloop_client_framework.Nfc.Backend.{
  NfcReaderRequest, wait_for_card, wait_for_removal, read_ndef, Place, receiving, for_card,
  for_removal, ended, died, Backend, Turn, round, is_gone, finish_read, begin, receive, abandon,
  serve_round, take_turn, serve,
}
use bloop_client_framework.Nfc.Backend.Order.{current, IsWide}

-- The caller of a request that waits has given up; a reading needs no caller.
abbrev pub HasGivenUp : (ℕ → Bool) → NfcReaderRequest → Type 0
HasGivenUp closed (wait_for_card s) = closed s ≡ true
HasGivenUp closed (wait_for_removal s) = closed s ≡ true
HasGivenUp closed (read_ndef s) = Unit

abbrev pub rounds : ℕ → List Turn
rounds zero = []
rounds (suc n) = round ∷ rounds n

-- A thread that serves, or has no more to serve, and of which nobody awaits a card. It has at most so
-- many rounds left: two for a request that waits in the channel, and one for a polling loop.
abbrev pub Finishes : ℕ → Place → (ℕ → Bool) → List NfcReaderRequest → Type 0
Finishes left place closed queue =
    ((is_gone place ≡ false) ⊎ (queue ≡ []))
    × All (λ s. closed s ≡ true) (current place)
    × All (HasGivenUp closed) queue
    × (2 * length queue + length (current place) ≤ left)

module _ (C : Chip) {U Text : Type 0} (from_utf8 : Bytes → Result Text U) (empty : Text) where
  abbrev pub IsUnattended : ℕ → Backend C U Text → Type 0
  IsUnattended left b = Finishes left b.place b.closed b.queue

  finish_read-IsUnattended :
      (s left : ℕ) (o : Outcome Text (ReadError U)) (b : Backend C U Text)
      → o ≢ panicked
      → IsUnattended left b
      → IsUnattended left (finish_read C from_utf8 empty s o b)
  unfolding finish_read
  finish_read-IsUnattended s left (returned t) b calm h = h
  finish_read-IsUnattended s left (raised x) b calm h = h
  finish_read-IsUnattended s left panicked b calm h = absurd (calm refl)

  begin-IsUnattended :
      (request : NfcReaderRequest) (left : ℕ) (b : Backend C U Text)
      → IsWide C
      → b.place ≡ receiving
      → HasGivenUp b.closed request
      → All (HasGivenUp b.closed) b.queue
      → 2 * length b.queue + 1 ≤ left
      → IsUnattended left (begin C from_utf8 empty request b)
  unfolding begin
  begin-IsUnattended (wait_for_card s) left b wide at up queued h = (inl refl, (up, tt), queued, h)
  begin-IsUnattended (wait_for_removal s) left b wide at up queued h =
      (inl refl, (up, tt), queued, h)
  begin-IsUnattended (read_ndef s) left b wide at up queued h =
      finish_read-IsUnattended s left _ (record b { chip = C.after_reads b.chip })
        (read_ndef_text-ne-panicked from_utf8 empty (C.mf_read b.chip) (wide b.chip))
        (subst (λ c. Finishes left c b.closed b.queue) (sym at) (inl refl, tt, queued, omega arith))

  receive-IsUnattended :
      (queue : List NfcReaderRequest) (left : ℕ) (b : Backend C U Text)
      → IsWide C
      → b.place ≡ receiving
      → b.queue ≡ queue
      → All (HasGivenUp b.closed) queue
      → 2 * length queue ≤ left
      → IsUnattended (left - 1) (receive C from_utf8 empty queue b)
  unfolding receive
  receive-IsUnattended [] left b wide at e up h =
      if-cases (IsUnattended (left - 1)) b.has_handles b (record b { place = ended })
        (λ _. rw (at, e) (inl refl, tt, tt, omega arith))
        λ _. (inr e, tt, subst (All (HasGivenUp b.closed)) (sym e) tt, rw e (omega arith))
  receive-IsUnattended (request ∷ requests) left b wide at e (up, queued) h =
      begin-IsUnattended request (left - 1) (record b { queue = requests }) wide at up queued
        (omega arith)

  serve_round-IsUnattended :
      (c : Place) (left : ℕ) (b : Backend C U Text)
      → IsWide C
      → b.place ≡ c
      → Finishes left c b.closed b.queue
      → IsUnattended (left - 1) (serve_round C from_utf8 empty c b)
  unfolding serve_round abandon
  serve_round-IsUnattended receiving left b wide at (_, _, queued, h) =
      receive-IsUnattended b.queue left b wide at refl queued (omega arith)
  serve_round-IsUnattended (for_card s) left b wide at (_, (up, _), queued, h) =
      rw up (inl refl, tt, queued, omega arith)
  serve_round-IsUnattended (for_removal s) left b wide at (_, (up, _), queued, h) =
      rw up (inl refl, tt, queued, omega arith)
  serve_round-IsUnattended ended left b wide at (inr e, _, queued, h) =
      subst (λ c. Finishes (left - 1) c b.closed b.queue) (sym at)
        (inr e, tt, queued, rw e (omega arith))
  serve_round-IsUnattended ended left b wide at (inl e, _, queued, h) = absurd cc
  serve_round-IsUnattended died left b wide at (inr e, _, queued, h) =
      subst (λ c. Finishes (left - 1) c b.closed b.queue) (sym at)
        (inr e, tt, queued, rw e (omega arith))
  serve_round-IsUnattended died left b wide at (inl e, _, queued, h) = absurd cc

  serve-rounds-IsUnattended :
      (left : ℕ) (b : Backend C U Text)
      → IsWide C
      → IsUnattended left b
      → IsUnattended 0 (serve C from_utf8 empty (rounds left) b)
  unfolding serve take_turn
  serve-rounds-IsUnattended zero b wide h = h
  serve-rounds-IsUnattended (suc left) b wide h =
      serve-rounds-IsUnattended left (serve_round C from_utf8 empty b.place b) wide (
        subst (λ n. IsUnattended n (serve_round C from_utf8 empty b.place b)) (one_less left)
          (serve_round-IsUnattended b.place (suc left) b wide refl h))
    where
      one_less : (n : ℕ) → suc n - 1 ≡ n
      one_less n = omega arith

  none_left :
      (place : Place) (closed : ℕ → Bool) (queue : List NfcReaderRequest)
      → Finishes 0 place closed queue
      → (current place ≡ []) × (queue ≡ [])
  none_left place closed (r ∷ queue) (_, _, _, h) = absurd (omega arith)
  none_left receiving closed [] h = (refl, refl)
  none_left (for_card s) closed [] (_, _, _, h) = absurd (omega arith)
  none_left (for_removal s) closed [] (_, _, _, h) = absurd (omega arith)
  none_left ended closed [] h = (refl, refl)
  none_left died closed [] h = (refl, refl)

  -- Where every block that can be read has at least three bytes, the thread serves, and the callers of
  -- all the requests that wait for a card or its removal have given up: after two rounds for each
  -- request in the channel, and one for a polling loop, all requests are served.
  pub serve-rounds :
      (b : Backend C U Text)
      → IsWide C
      → is_gone b.place ≡ false
      → All (λ s. b.closed s ≡ true) (current b.place)
      → All (HasGivenUp b.closed) b.queue
      → let z : Backend C U Text =
          serve C from_utf8 empty (rounds (2 * length b.queue + length (current b.place))) b in
        (current z.place ≡ []) × (z.queue ≡ [])
  serve-rounds b wide alive polled queued = none_left _ _ _ (
      serve-rounds-IsUnattended (2 * length b.queue + length (current b.place)) b wide
        (inl alive, polled, queued, omega arith))
