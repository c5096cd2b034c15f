-- ===== src/Nfc/Reader/Waiting.antt =====
-- A call that waits for a card, through the channel and the polling loop of the backend.
use bloop_client_framework.Base.{
  ℕ, zero, suc, ◌≤◌, arith, false, List, [], ◌∷◌, ◌++◌, none, some, ◌==◌, ==_refl, Bytes, returned,
  Result, ok, ◌≡◌, refl, ◌∙◌, ap, All,
}
use bloop_client_framework.Nfc.Mfrc522.{Chip, select_target}
use bloop_client_framework.Nfc.Backend.{
  NfcReaderRequest, Settled, card, settled_sender, Backend, for_card, is_gone, sends, round, send,
  serve, take_turn, serve_round, receive, begin, poll_card,
}
use bloop_client_framework.Nfc.Backend.Draining.{rounds}
use bloop_client_framework.Nfc.Reader.{find_settled, wait_for_card, response_outcome}
use bloop_client_framework.Nfc.Reader.Reading.{waiting, find_settled-append}

-- The polls of the chip up to the first that finds a card, with their number before it.
pub data Appears (C : Chip) : ℕ → C.Registers → C.NfcUid → Type 0 where
  now :
      {chip after : C.Registers} {uid : C.NfcUid}
      → select_target C chip ≡ (returned (some uid), after)
      → Appears C zero chip uid
  later :
      {n : ℕ} {chip after : C.Registers} {uid : C.NfcUid}
      → select_target C chip ≡ (returned none, after)
      → Appears C n after uid
      → Appears C (suc n) chip uid

module _ (C : Chip) {U Text : Type 0} (from_utf8 : Bytes → Result Text U) (empty : Text) where
  -- The backend in the polling loop of a caller.
  abbrev polling : ℕ → C.Registers → List (Settled C U Text) → Backend C U Text
  polling s chip log = record (waiting C from_utf8 empty chip log) { place = for_card s }

  abbrev Fresh : ℕ → List (Settled C U Text) → Type 0
  Fresh s log = All (λ e. (settled_sender e == s) ≡ false) log

  find_settled-none :
      (s : ℕ) (log : List (Settled C U Text)) → Fresh s log → find_settled s log ≡ none
  find_settled-none s [] h = refl
  find_settled-none s (e ∷ log) (h, hs) = rw h (find_settled-none s log hs)

  -- A poll that finds nothing, and one that finds a card.
  polls_on :
      (s : ℕ) (chip after : C.Registers) (log : List (Settled C U Text))
      → select_target C chip ≡ (returned none, after)
      → take_turn C from_utf8 empty round (polling s chip log) ≡ polling s after log
  unfolding take_turn serve_round poll_card
  polls_on s chip after log e = rw (e, take_turn, serve_round) refl

  finds :
      (s : ℕ) (chip after : C.Registers) (log : List (Settled C U Text)) (uid : C.NfcUid)
      → select_target C chip ≡ (returned (some uid), after)
      → take_turn C from_utf8 empty round (polling s chip log)
        ≡ waiting C from_utf8 empty after (log ++ card s uid ∷ [])
  unfolding take_turn serve_round poll_card
  finds s chip after log uid e = rw (e, take_turn, serve_round) refl

  rounds-card :
      (s n : ℕ) (chip : C.Registers) (log : List (Settled C U Text)) (uid : C.NfcUid)
      → Appears C n chip uid
      → (after : C.Registers) × (serve C from_utf8 empty (rounds (suc n)) (polling s chip log)
          ≡ waiting C from_utf8 empty after (log ++ card s uid ∷ []))
  unfolding serve
  rounds-card s zero chip log uid (now {after = after} e) = (after, finds s chip after log uid e)
  rounds-card s (suc n) chip log uid (later {after = after} e a) =
      let (last, h) = rounds-card s n after log uid a in
      (last, ap (serve C from_utf8 empty (rounds (suc n))) (polls_on s chip after log e) ∙ h)

  rounds-polling :
      (s n m : ℕ) (chip : C.Registers) (log : List (Settled C U Text)) (uid : C.NfcUid)
      → Appears C n chip uid
      → m ≤ n
      → (after : C.Registers) × (serve C from_utf8 empty (rounds m) (polling s chip log)
          ≡ polling s after log)
  unfolding serve
  rounds-polling s n zero chip log uid a h = (chip, refl)
  rounds-polling s zero (suc m) chip log uid a h = absurd (omega arith)
  rounds-polling s (suc n) (suc m) chip log uid (later {after = after} e a) h =
      let (last, k) = rounds-polling s n m after log uid a (omega arith) in
      (last, ap (serve C from_utf8 empty (rounds m)) (polls_on s chip after log e) ∙ k)

  -- The call waits while the log has no answer to it.
  waits :
      (s : ℕ) (chip : C.Registers) (log : List (Settled C U Text)) (b : Backend C U Text)
      → Fresh s log
      → b.log ≡ log
      → is_gone b.place ≡ false
      → wait_for_card s (waiting C from_utf8 empty chip log) b ≡ none
  unfolding wait_for_card response_outcome
  waits s chip log b fresh e h = rw (ap (find_settled s) e ∙ find_settled-none s log fresh, h) refl

  answers :
      (s : ℕ) (chip after : C.Registers) (log : List (Settled C U Text)) (uid : C.NfcUid)
      → Fresh s log
      → wait_for_card s
          (waiting C from_utf8 empty chip log)
          (waiting C from_utf8 empty after (log ++ card s uid ∷ []))
        ≡ some (ok uid)
  unfolding wait_for_card response_outcome
  answers s chip after log uid fresh =
      rw (find_settled-append C from_utf8 empty s log (card s uid) fresh (==_refl s)) refl

  -- A call that waits for a card, through a backend that waits for a request, with a new sender, where
  -- the first card appears behind n polls that find none: it waits through the receiving and these
  -- polls, and with the next one has got the UID of the card.
  pub wait_for_card-serve :
      (s n : ℕ) (chip : C.Registers) (log : List (Settled C U Text)) (uid : C.NfcUid)
      → All (λ e. (settled_sender e == s) ≡ false) log
      → Appears C n chip uid
      → ((m : ℕ)
          → m ≤ suc n
          → wait_for_card s (waiting C from_utf8 empty chip log) (
              serve C from_utf8 empty
                (sends (NfcReaderRequest.wait_for_card s) ∷ rounds m)
                (waiting C from_utf8 empty chip log))
            ≡ none)
        × (wait_for_card s (waiting C from_utf8 empty chip log) (
              serve C from_utf8 empty
                (sends (NfcReaderRequest.wait_for_card s) ∷ rounds (suc (suc n)))
                (waiting C from_utf8 empty chip log))
            ≡ some (ok uid))
  unfolding serve take_turn send serve_round receive begin wait_for_card response_outcome
  wait_for_card-serve s n chip log uid fresh a = (early, done)
    where
      behind : ℕ → Backend C U Text
      behind m =
          serve C from_utf8 empty (sends (NfcReaderRequest.wait_for_card s) ∷ rounds m)
            (waiting C from_utf8 empty chip log)

      early :
          (m : ℕ)
          → m ≤ suc n
          → wait_for_card s (waiting C from_utf8 empty chip log) (behind m) ≡ none
      early zero h = waits s chip log (behind zero) fresh refl refl
      early (suc m) h =
          let (after, e) = rounds-polling s n m chip log uid a (omega arith) in
          waits s chip log (behind (suc m)) fresh (ap (λ b. b.log) e) (ap (λ b. is_gone b.place) e)

      done :
          wait_for_card s (waiting C from_utf8 empty chip log) (behind (suc (suc n)))
          ≡ some (ok uid)
      done =
          let (after, e) = rounds-card s n chip log uid a in
          ap (wait_for_card s (waiting C from_utf8 empty chip log)) e
          ∙ answers s chip after log uid fresh
