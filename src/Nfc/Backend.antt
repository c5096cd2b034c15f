-- ===== src/Nfc/Backend.antt =====
-- src/nfc/mod.rs and src/nfc/mfrc522.rs: the requests to a reader's backend, their channel, and the
-- loop of `serve`, one round at a time, interleaved with what its callers do. The sender of a
-- response is a number.
pub mod Due
pub mod Order
pub mod Draining
use bloop_client_framework.Base.{
  ℕ, Bool, true, false, not, List, [], ◌∷◌, ◌++◌, Option, none, some, ◌==◌, ltb, if◌then◌else◌,
  length, Bytes, Outcome, returned, raised, panicked, Result, ok, err,
}
use bloop_client_framework.Nfc.Mfrc522.{
  Chip, ReadError, select_target, check_for_release, read_ndef_text,
}

pub data NfcReaderRequest : Type 0 where
  wait_for_card wait_for_removal read_ndef : ℕ → NfcReaderRequest

abbrev pub sender : NfcReaderRequest → ℕ
sender (wait_for_card s) = s
sender (wait_for_removal s) = s
sender (read_ndef s) = s

-- What became of a request: its answer, or that it was abandoned.
pub data Settled (C : Chip) (U Text : Type 0) : Type 0 where
  card : ℕ → C.NfcUid → Settled C U Text
  removal : ℕ → Settled C U Text
  text_read : ℕ → Result Text (ReadError U) → Settled C U Text
  abandoned : ℕ → Settled C U Text

abbrev pub settled_sender : {C : Chip} {U Text : Type 0} → Settled C U Text → ℕ
settled_sender (card s _) = s
settled_sender (removal s) = s
settled_sender (text_read s _) = s
settled_sender (abandoned s) = s

-- Where the thread of `serve` stands: at the receive, in one of the two polling loops, behind the
-- loop, or dead by a panic.
pub data Place : Type 0 where
  receiving : Place
  for_card for_removal : ℕ → Place
  ended died : Place

pub record Backend (C : Chip) (U Text : Type 0) : Type 0 where
  pub queue : List NfcReaderRequest
  pub has_handles : Bool
  pub closed : ℕ → Bool  -- `is_closed` of a response
  pub chip : C.Registers
  pub place : Place
  pub log : List (Settled C U Text)  -- the oldest first

-- What happens next: a caller sends, or drops the receiver of its response, the last handle goes, or
-- the thread makes a round.
pub data Turn : Type 0 where
  sends : NfcReaderRequest → Turn
  gives_up : ℕ → Turn
  hangs_up : Turn
  round : Turn

-- `mpsc::channel(4)`
abbrev pub capacity : ℕ
capacity = 4

abbrev pub is_gone : Place → Bool
is_gone ended = true
is_gone died = true
is_gone _ = false

module _ (C : Chip) {U Text : Type 0} (from_utf8 : Bytes → Result Text U) (empty : Text) where
  abbrev pub channel : C.Registers → Backend C U Text
  channel chip = record {
    queue = [];
    has_handles = true;
    closed = λ _. false;
    chip = chip;
    place = receiving;
    log = [];
  }

  -- A send goes through where the thread lives, a handle does, and the channel has room.
  abbrev pub accepts : Backend C U Text → Bool
  accepts b =
      if is_gone b.place
      then false
      else (if b.has_handles then ltb (length b.queue) capacity else false)

  unfoldable pub send : NfcReaderRequest → Backend C U Text → Backend C U Text
  send request b = if accepts b then record b { queue = b.queue ++ request ∷ [] } else b

  -- Behind the reading of a tag. The warning about a failed one is not modelled.
  unfoldable pub finish_read : ℕ → Outcome Text (ReadError U) → Backend C U Text → Backend C U Text
  finish_read s (returned t) b = record b { log = b.log ++ text_read s (ok t) ∷ [] }
  finish_read s (raised e) b = record b { log = b.log ++ text_read s (err e) ∷ [] }
  finish_read s panicked b = record b { place = died }

  -- The arms of `serve` up to the head of a polling loop, and all of that of the reading.
  unfoldable pub begin : NfcReaderRequest → Backend C U Text → Backend C U Text
  unfolding finish_read
  begin (wait_for_card s) b = record b { place = for_card s }
  begin (wait_for_removal s) b = record b { place = for_removal s }
  begin (read_ndef s) b =
      finish_read s (read_ndef_text from_utf8 empty (C.mf_read b.chip))
        (record b { chip = C.after_reads b.chip })

  -- `backend.blocking_recv()`: it waits while there is nothing to receive.
  unfoldable pub receive : List NfcReaderRequest → Backend C U Text → Backend C U Text
  unfolding begin
  receive [] b = if b.has_handles then b else record b { place = ended }
  receive (request ∷ requests) b = begin request (record b { queue = requests })

  -- A poll for a card, and for its removal, behind the test of the response.
  unfoldable pub poll_card : ℕ → Outcome (Option C.NfcUid) ⊥ → Backend C U Text → Backend C U Text
  poll_card s (returned (some uid)) b = record b {
    place = receiving;
    log = b.log ++ card s uid ∷ [];
  }
  poll_card s (returned none) b = b
  poll_card s _ b = record b { place = died }

  unfoldable pub poll_removal : ℕ → Bool → Backend C U Text → Backend C U Text
  poll_removal s true b = record b { place = receiving; log = b.log ++ removal s ∷ [] }
  poll_removal s false b = b

  -- `continue 'main_loop`
  unfoldable pub abandon : ℕ → Backend C U Text → Backend C U Text
  abandon s b = record b { place = receiving; log = b.log ++ abandoned s ∷ [] }

  unfoldable pub serve_round : Place → Backend C U Text → Backend C U Text
  unfolding receive poll_card poll_removal abandon
  serve_round receiving b = receive b.queue b
  serve_round (for_card s) b =
      let (target, after) = select_target C b.chip in
      if b.closed s then abandon s b else poll_card s target (record b { chip = after })
  serve_round (for_removal s) b =
      let (released, after) = check_for_release C b.chip in
      if b.closed s then abandon s b else poll_removal s released (record b { chip = after })
  serve_round ended b = b
  serve_round died b = b

  unfoldable pub take_turn : Turn → Backend C U Text → Backend C U Text
  unfolding send serve_round
  take_turn (sends request) b = send request b
  take_turn (gives_up s) b = record b { closed = λ t. if t == s then true else b.closed t }
  take_turn hangs_up b = record b { has_handles = false }
  take_turn round b = serve_round b.place b

  unfoldable pub serve : List Turn → Backend C U Text → Backend C U Text
  serve [] b = b
  serve (turn ∷ turns) b = serve turns (take_turn turn b)
