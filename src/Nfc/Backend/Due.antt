-- ===== src/Nfc/Backend/Due.antt =====
-- Which requests the loop of `serve` abandons.
use bloop_client_framework.Base.{
  All, ◌==◌, if-cases, ℕ, Bool, true, false, List, [], ◌∷◌, ◌++◌, Option, none, some, if◌then◌else◌,
  Bytes, Outcome, returned, raised, panicked, Result, ◌≡◌, refl,
}
use bloop_client_framework.Nfc.Mfrc522.{
  Chip, ReadError, select_target, check_for_release, read_ndef_text,
}
use bloop_client_framework.Nfc.Backend.{
  NfcReaderRequest, wait_for_card, wait_for_removal, read_ndef, Settled, card, removal, text_read,
  abandoned, Place, receiving, for_card, for_removal, ended, died, Backend, Turn, sends, gives_up,
  hangs_up, round, accepts, send, finish_read, begin, receive, poll_card, poll_removal, abandon,
  serve_round, take_turn, serve,
}

-- An abandoned request is one of a caller who has given it up.
abbrev pub IsDue : {C : Chip} {U Text : Type 0} → (ℕ → Bool) → Settled C U Text → Type 0
IsDue closed (abandoned s) = closed s ≡ true
IsDue closed _ = Unit

module _ (C : Chip) {U Text : Type 0} (from_utf8 : Bytes → Result Text U) (empty : Text) where
  -- The log names as abandoned only callers who had given up.
  log-IsDue :
      (closed : ℕ → Bool) (log : List (Settled C U Text)) (e : Settled C U Text)
      → All (IsDue closed) log
      → IsDue closed e
      → All (IsDue closed) (log ++ e ∷ [])
  log-IsDue closed [] e h k = (k, tt)
  log-IsDue closed (x ∷ log) e (h, hs) k = (h, log-IsDue closed log e hs k)

  abbrev HasDue : Backend C U Text → Type 0
  HasDue b = All (IsDue b.closed) b.log

  finish_read-HasDue :
      (s : ℕ) (o : Outcome Text (ReadError U)) (b : Backend C U Text)
      → HasDue b
      → HasDue (finish_read C from_utf8 empty s o b)
  unfolding finish_read
  finish_read-HasDue s (returned t) b h = log-IsDue b.closed b.log _ h tt
  finish_read-HasDue s (raised e) b h = log-IsDue b.closed b.log _ h tt
  finish_read-HasDue s panicked b h = h

  receive-HasDue :
      (queue : List NfcReaderRequest) (b : Backend C U Text)
      → HasDue b
      → HasDue (receive C from_utf8 empty queue b)
  unfolding receive begin
  receive-HasDue [] b h =
      if-cases HasDue b.has_handles b (record b { place = ended }) (λ _. h) λ _. h
  receive-HasDue (wait_for_card s ∷ requests) b h = h
  receive-HasDue (wait_for_removal s ∷ requests) b h = h
  receive-HasDue (read_ndef s ∷ requests) b h =
      finish_read-HasDue s (read_ndef_text from_utf8 empty (C.mf_read b.chip))
        (record b { queue = requests; chip = C.after_reads b.chip }) h

  poll_card-HasDue :
      (s : ℕ) (target : Outcome (Option C.NfcUid) ⊥) (b : Backend C U Text)
      → HasDue b
      → HasDue (poll_card C from_utf8 empty s target b)
  unfolding poll_card
  poll_card-HasDue s (returned (some uid)) b h = log-IsDue b.closed b.log _ h tt
  poll_card-HasDue s (returned none) b h = h
  poll_card-HasDue s (raised e) b h = h
  poll_card-HasDue s panicked b h = h

  poll_removal-HasDue :
      (s : ℕ) (released : Bool) (b : Backend C U Text)
      → HasDue b
      → HasDue (poll_removal C from_utf8 empty s released b)
  unfolding poll_removal
  poll_removal-HasDue s true b h = log-IsDue b.closed b.log _ h tt
  poll_removal-HasDue s false b h = h

  serve_round-HasDue :
      (c : Place) (b : Backend C U Text) → HasDue b → HasDue (serve_round C from_utf8 empty c b)
  unfolding serve_round abandon
  serve_round-HasDue receiving b h = receive-HasDue b.queue b h
  serve_round-HasDue (for_card s) b h =
      if-cases HasDue (b.closed s) (abandon C from_utf8 empty s b)
        (poll_card C from_utf8 empty s (select_target C b.chip).0
          (record b { chip = (select_target C b.chip).1 }))
        (λ gone. log-IsDue b.closed b.log (abandoned s) h gone)
        λ _. poll_card-HasDue s _ (record b { chip = (select_target C b.chip).1 }) h
  serve_round-HasDue (for_removal s) b h =
      if-cases HasDue (b.closed s) (abandon C from_utf8 empty s b)
        (poll_removal C from_utf8 empty s (check_for_release C b.chip).0
          (record b { chip = (check_for_release C b.chip).1 }))
        (λ gone. log-IsDue b.closed b.log (abandoned s) h gone)
        λ _. poll_removal-HasDue s _ (record b { chip = (check_for_release C b.chip).1 }) h
  serve_round-HasDue ended b h = h
  serve_round-HasDue died b h = h

  -- A caller who has given up stays so.
  gives_up-HasDue :
      (s : ℕ) (closed : ℕ → Bool) (log : List (Settled C U Text))
      → All (IsDue closed) log
      → All (IsDue λ t. if t == s then true else closed t) log
  gives_up-HasDue s closed [] h = tt
  gives_up-HasDue s closed (card t uid ∷ log) (_, hs) = (tt, gives_up-HasDue s closed log hs)
  gives_up-HasDue s closed (removal t ∷ log) (_, hs) = (tt, gives_up-HasDue s closed log hs)
  gives_up-HasDue s closed (text_read t r ∷ log) (_, hs) = (tt, gives_up-HasDue s closed log hs)
  gives_up-HasDue s closed (abandoned t ∷ log) (h, hs) = (
    if-cases (λ b. b ≡ true) (t == s) true (closed t) (λ _. refl) λ _. h,
    gives_up-HasDue s closed log hs,
  )

  pub HasDue-serve :
      (turns : List Turn) (b : Backend C U Text)
      → HasDue b
      → HasDue (serve C from_utf8 empty turns b)
  unfolding serve take_turn send
  HasDue-serve [] b h = h
  HasDue-serve (sends request ∷ turns) b h = HasDue-serve turns (send C from_utf8 empty request b) (
      if-cases HasDue (accepts C from_utf8 empty b) (record b { queue = b.queue ++ request ∷ [] }) b
        (λ _. h) λ _. h)
  HasDue-serve (gives_up s ∷ turns) b h = HasDue-serve turns _ (gives_up-HasDue s b.closed b.log h)
  HasDue-serve (hangs_up ∷ turns) b h = HasDue-serve turns _ h
  HasDue-serve (round ∷ turns) b h =
      HasDue-serve turns (serve_round C from_utf8 empty b.place b) (serve_round-HasDue b.place b h)
