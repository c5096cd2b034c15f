-- ===== src/Examples/Reader.antt =====
-- A reader's chip, its backend, and the start of both.
use bloop_client_framework.Base.{
  All, ℕ, ◌+◌, ◌≤◌, Bool, true, false, List, [], ◌∷◌, ◌++◌, none, some, Bytes, ok, err, ltb,
  if◌then◌else◌, ◌≡◌, refl, arith,
}
use bloop_client_framework.Nfc.Mfrc522.{Chip, select_target}
use bloop_client_framework.Nfc.Backend.{
  NfcReaderRequest, wait_for_removal, read_ndef, Backend, for_card, Turn, sends, gives_up, round,
  channel, serve,
}
use bloop_client_framework.Nfc.Backend.Order.{current, account, IsWide, accepted, serve-account}
use bloop_client_framework.Nfc.Backend.Due.{IsDue}
use bloop_client_framework.Nfc.Backend.Draining.{rounds, serve-rounds}
use bloop_client_framework.Nfc.Reader.{read_ndef_text, wait_for_card}
use bloop_client_framework.Nfc.Reader.Waiting.{Appears, now, later, wait_for_card-serve}
use bloop_client_framework.Nfc.Reader.Reading.{waiting, outcome_of, read_ndef_text-serve}
use bloop_client_framework.Nfc.Record.Text.{decoded}
use bloop_client_framework.Nfc.Startup.{
  default_config, Hardware, init, sequence, Follows, init-Follows,
}
use bloop_client_framework.Examples.Nfc.{
  ascii, english, body, tag, tag-HoldsMessage, short_text-IsFlags,
}

-- Its registers count the polls; a card is there from the third on.
abbrev reader_chip : Chip
reader_chip = record {
  Registers = ℕ;
  Atqa = ℕ;
  Uid = ℕ;
  Error = Bool;
  NfcUid = ℕ;
  reqa = λ n. ((if ltb n 2 then err false else ok n), n + 1);
  wupa = λ n. ((if ltb n 2 then err false else ok n), n + 1);
  select = λ a n. (ok 77, n);
  is_collision = λ e. e;
  try_from = λ uid. some uid;
  standard_length = λ uid. refl;
  mf_read = λ n block. tag block;
  after_reads = λ n. n;
}

reader_chip-IsWide : IsWide reader_chip
reader_chip-IsWide chip block bytes e = ground arith

abbrev idle : Backend reader_chip ℕ Bytes
idle = channel reader_chip ascii [] 0

-- A caller waits for a card, another reads it, and a third gives up in between.
abbrev schedule : List Turn
schedule =
    sends (NfcReaderRequest.wait_for_card 1)
    ∷ sends (wait_for_removal 2)
    ∷ round
    ∷ round
    ∷ gives_up 2
    ∷ sends (read_ndef 3)
    ∷ round
    ∷ round
    ∷ round
    ∷ []

serve-account_example :
    (account (serve reader_chip ascii [] schedule idle)
      ≡ account idle ++ accepted reader_chip ascii [] schedule idle)
    × All
        (IsDue (serve reader_chip ascii [] schedule idle).closed)
        (serve reader_chip ascii [] schedule idle).log
serve-account_example = serve-account reader_chip ascii [] schedule idle reader_chip-IsWide tt

-- A backend that polls for a caller who gave up, with two more requests.
abbrev polling : Backend reader_chip ℕ Bytes
polling = record (idle) {
  place = for_card 1;
  closed = λ s. ltb s 3;
  queue = wait_for_removal 2 ∷ read_ndef 3 ∷ [];
}

serve-rounds_example :
    (current (serve reader_chip ascii [] (rounds 5) polling).place ≡ [])
    × ((serve reader_chip ascii [] (rounds 5) polling).queue ≡ [])
serve-rounds_example =
    serve-rounds reader_chip ascii [] polling reader_chip-IsWide refl (refl, tt) (refl, (tt, tt))

read_ndef_text-serve_example :
    read_ndef_text 3 (waiting reader_chip ascii [] 0 []) (
      serve reader_chip ascii []
        (sends (read_ndef 3) ∷ round ∷ [])
        (waiting reader_chip ascii [] 0 []))
    ≡ some (outcome_of reader_chip ascii [] (decoded ascii [] body))
read_ndef_text-serve_example =
    read_ndef_text-serve reader_chip ascii [] {chip = 0} 3 [] 209 true none 2 english body [] tt
      short_text-IsFlags refl tag-HoldsMessage

-- The third poll finds the card.
third-Appears : Appears reader_chip 2 0 77
unfolding select_target
third-Appears = later refl (later refl (now refl))

wait_for_card-serve_example :
    ((m : ℕ)
      → m ≤ 3
      → wait_for_card 3 (waiting reader_chip ascii [] 0 []) (
          serve reader_chip ascii []
            (sends (NfcReaderRequest.wait_for_card 3) ∷ rounds m)
            (waiting reader_chip ascii [] 0 []))
        ≡ none)
    × (wait_for_card 3 (waiting reader_chip ascii [] 0 []) (
          serve reader_chip ascii []
            (sends (NfcReaderRequest.wait_for_card 3) ∷ rounds 4)
            (waiting reader_chip ascii [] 0 []))
        ≡ some (ok 77))
wait_for_card-serve_example = wait_for_card-serve reader_chip ascii [] 3 2 0 [] 77 tt third-Appears

-- Hardware on which the chip does not answer.
abbrev bench : Hardware
bench = record {
  IoError = ℕ;
  GpioError = ℕ;
  ChipError = ℕ;
  Chip = ℕ;
  open_spi = λ path. none;
  configure_spi = none;
  request_line = λ path line. none;
  activate_line = none;
  init_chip = err 3;
  spawn_thread = none;
  lives = true;
}

init-Follows_example : Follows bench (sequence bench default_config) (init bench default_config)
init-Follows_example = init-Follows bench default_config
