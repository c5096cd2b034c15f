-- ===== src/Nfc/Reader/Reading.antt =====
-- A call of the handle, through the channel and the backend to the tag and back.
use bloop_client_framework.Base.{
  ℕ, ◌%◌, Bool, true, false, List, [], ◌∷◌, ◌++◌, Option, some, ◌==◌, ==_refl, Bytes, length,
  is_some, Result, ok, err, ◌≡◌, refl, All,
}
use bloop_client_framework.Nfc.Mfrc522.{Chip, ReadError, ndef, map_text}
use bloop_client_framework.Nfc.Mfrc522.Tag.{HoldsMessage, read_ndef_text-text_record}
use bloop_client_framework.Nfc.Record.Layout.{text_record_bytes, IsFlags}
use bloop_client_framework.Nfc.Record.Text.{decoded}
use bloop_client_framework.Nfc.Record.{NdefError}
use bloop_client_framework.Nfc.Backend.{
  read_ndef, Settled, text_read, settled_sender, Backend, receiving, sends, round, send, serve,
  take_turn, serve_round, receive, begin, finish_read,
}
use bloop_client_framework.Nfc.Reader.{
  NfcReaderError, read, find_settled, read_ndef_text, response_outcome,
}

module _ (C : Chip) {U Text : Type 0} (from_utf8 : Bytes → Result Text U) (empty : Text) where
  -- A backend that waits for a request.
  abbrev pub waiting : C.Registers → List (Settled C U Text) → Backend C U Text
  waiting chip log = record {
    queue = [];
    has_handles = true;
    closed = λ _. false;
    chip = chip;
    place = receiving;
    log = log;
  }

  pub find_settled-append :
      (s : ℕ) (log : List (Settled C U Text)) (e : Settled C U Text)
      → All (λ e'. (settled_sender e' == s) ≡ false) log
      → (settled_sender e == s) ≡ true
      → find_settled s (log ++ e ∷ []) ≡ some e
  find_settled-append s [] e h k = rw k refl
  find_settled-append s (x ∷ log) e (h, hs) k = rw h (find_settled-append s log e hs k)

  abbrev pub outcome_of : Result Text (NdefError U) → Result Text (NfcReaderError U)
  outcome_of (ok t) = ok t
  outcome_of (err e) = err (read (ndef e))

  answer_lem :
      (s : ℕ) (r : Result Text (ReadError U)) (chip : C.Registers) (log : List (Settled C U Text))
      (later : Backend C U Text)
      → find_settled s later.log ≡ some (text_read s r)
      → read_ndef_text s (waiting chip log) later
        ≡ some (elim r [ ok t ↦ ok t | err e ↦ err (read e) ])
  unfolding read_ndef_text response_outcome
  answer_lem s (ok t) chip log later e = rw (e, read_ndef_text) refl
  answer_lem s (err x) chip log later e = rw (e, read_ndef_text) refl

  finish_read-answer :
      (s : ℕ) (d : Result Text (NdefError U)) (chip after : C.Registers)
      (log : List (Settled C U Text))
      → All (λ e. (settled_sender e == s) ≡ false) log
      → read_ndef_text s
          (waiting chip log)
          (finish_read C from_utf8 empty s (map_text d) (waiting after log))
        ≡ some (outcome_of d)
  unfolding finish_read
  finish_read-answer s (ok t) chip after log fresh =
      answer_lem s (ok t) chip log _
        (find_settled-append s log (text_read s (ok t)) fresh (==_refl s))
  finish_read-answer s (err x) chip after log fresh =
      answer_lem s (err (ndef x)) chip log _
        (find_settled-append s log (text_read s (err (ndef x))) fresh (==_refl s))

  -- A call that reads a tag with a text record, of which the tag is as for the reader, through a
  -- backend that waits for a request, with a new sender: behind one round of the backend's thread the
  -- caller has got the decoded text behind the language code, or the decoder's error.
  pub read_ndef_text-serve :
      {chip : C.Registers} (s : ℕ) (log : List (Settled C U Text)) (flags : ℕ) (short : Bool)
      (id : Option Bytes) (status : ℕ) (code body tail : Bytes)
      → All (λ e. (settled_sender e == s) ≡ false) log
      → IsFlags flags short (is_some id)
      → length code ≡ status % 64
      → HoldsMessage
          (C.mf_read chip)
          (text_record_bytes flags short id (status ∷ (code ++ body)) tail)
      → read_ndef_text s
          (waiting chip log)
          (serve C from_utf8 empty (sends (read_ndef s) ∷ round ∷ []) (waiting chip log))
        ≡ some (outcome_of (decoded from_utf8 empty body))
  unfolding serve take_turn send serve_round receive begin
  read_ndef_text-serve {chip} s log flags short id status code body tail fresh f e t =
      rw (read_ndef_text-text_record from_utf8 empty flags short id status code body tail f e t)
        (finish_read-answer s (decoded from_utf8 empty body) chip (C.after_reads chip) log fresh)
