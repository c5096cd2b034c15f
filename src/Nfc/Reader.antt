-- ===== src/Nfc/Reader.antt =====
-- src/nfc/mod.rs: `NfcReader`, the handle of a reader's backend. A call is seen from the backend at
-- its sending, which waits for room in the channel, and at a later time, when it may have an answer.
pub mod Reading
pub mod Waiting
use bloop_client_framework.Base.{
  ℕ, Bool, true, false, List, [], ◌∷◌, Option, none, some, ◌==◌, if◌then◌else◌, Bytes, Result, ok,
  err,
}
use bloop_client_framework.Nfc.Mfrc522.{Chip, ReadError}
use bloop_client_framework.Nfc.Backend.{
  Settled, settled_sender, card, removal, text_read, abandoned, Backend, is_gone,
}

pub data NfcReaderError (U : Type 0) : Type 0 where
  disconnected : NfcReaderError U
  read : ReadError U → NfcReaderError U

-- The answer that reached the receiver; the sender of an abandoned request is dropped.
abbrev pub find_settled :
    {C : Chip} {U Text : Type 0} → ℕ → List (Settled C U Text) → Option (Settled C U Text)
find_settled s [] = none
find_settled s (e ∷ log) = if settled_sender e == s then some e else find_settled s log

-- `roundtrip(…).await?.map_err(NfcReaderError::Read)`
abbrev pub flatten :
    {U Text : Type 0}
    → Option (Result (Result Text (ReadError U)) (NfcReaderError U))
    → Option (Result Text (NfcReaderError U))
flatten none = none
flatten (some (err e)) = some (err e)
flatten (some (ok (ok t))) = some (ok t)
flatten (some (ok (err e))) = some (err (read e))

module _ {C : Chip} {U Text : Type 0} where
  abbrev pub card_answer : Settled C U Text → Option C.NfcUid
  card_answer (card _ uid) = some uid
  card_answer _ = none

  abbrev pub removal_answer : Settled C U Text → Option (Unit {0})
  removal_answer (removal _) = some tt
  removal_answer _ = none

  abbrev pub text_answer : Settled C U Text → Option (Result Text (ReadError U))
  text_answer (text_read _ r) = some r
  text_answer _ = none

  -- What `response_rx.await` gives, if it does not wait: a thread that is gone has dropped its sender.
  unfoldable pub response_outcome :
      {A : Type 0}
      → Bool
      → (Settled C U Text → Option A)
      → Option (Settled C U Text)
      → Option (Result A (NfcReaderError U))
  response_outcome gone answer none = if gone then some (err disconnected) else none
  response_outcome gone answer (some e) = elim (answer e) [
    | none ↦ some (err disconnected)
    | some a ↦ some (ok a)
  ]

  -- From the backend at the sending, and at a later time, what the call has returned by then, if it has.
  unfoldable pub roundtrip :
      {A : Type 0}
      → (Settled C U Text → Option A)
      → ℕ
      → Backend C U Text
      → Backend C U Text
      → Option (Result A (NfcReaderError U))
  unfolding response_outcome
  roundtrip answer s b later =
      if is_gone b.place
      then some (err disconnected)
      else response_outcome (is_gone later.place) answer (find_settled s later.log)

  unfoldable pub wait_for_card :
      ℕ → Backend C U Text → Backend C U Text → Option (Result C.NfcUid (NfcReaderError U))
  unfolding roundtrip
  wait_for_card s b later = roundtrip card_answer s b later

  unfoldable pub wait_for_removal :
      ℕ → Backend C U Text → Backend C U Text → Option (Result (Unit {0}) (NfcReaderError U))
  unfolding roundtrip
  wait_for_removal s b later = roundtrip removal_answer s b later

  unfoldable pub read_ndef_text :
      ℕ → Backend C U Text → Backend C U Text → Option (Result Text (NfcReaderError U))
  unfolding roundtrip
  read_ndef_text s b later = flatten (roundtrip text_answer s b later)
