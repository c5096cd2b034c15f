-- ===== src/Nfc/Mfrc522.antt =====
-- src/nfc/mfrc522.rs: the adapter's `select_target`, `check_for_release` and `read_ndef_text`. The
-- chip (the crate mfrc522) is a parameter; the error strings are constructors.
pub mod Quads
pub mod Tag
pub mod Safety
use bloop_client_framework.Base.{
  ℕ, zero, suc, ◌+◌, ◌*◌, ◌/◌, ◌<◌, min, Bool, true, false, not, ◌&&◌, List, [], ◌∷◌, Option, none,
  some, ◌==◌, ltb, if◌then◌else◌, Bytes, Outcome, returned, raised, panicked, Result, ok, err,
  is_some, ◌≡◌,
}
use bloop_client_framework.Nfc.Message.{NdefMessageParser, new, is_done, has_started, add_data}
use bloop_client_framework.Nfc.Record.{
  NdefError, ◌>>=◌, ◌>>◌, return_err_if, index_at, parse_ndef_text_record, text,
}

pub data ReadError (U : Type 0) : Type 0 where
  capability_container_failed : ReadError U
  block_failed : ℕ → ReadError U
  no_message_in_first_sector : ReadError U
  message_incomplete : ReadError U
  ndef : NdefError U → ReadError U

-- A product in `u8`, which panics on overflow in a build that checks it.
abbrev pub mul_u8 {ι} : {E : Type ι} → ℕ → ℕ → Outcome ℕ E
mul_u8 a b = if ltb (a * b) 256 then returned (a * b) else panicked

abbrev pub ok_or {ι κ} : {A : Type ι} {E : Type κ} → Option A → E → Outcome A E
ok_or none e = raised e
ok_or (some a) e = returned a

-- `map_err(…)` on the errors of the record.
abbrev pub map_ndef {ℓ} :
    {A : Type ℓ} {U : Type 0} → Outcome A (NdefError U) → Outcome A (ReadError U)
map_ndef (returned a) = returned a
map_ndef (raised e) = raised (ndef e)
map_ndef panicked = panicked

abbrev pub map_text {ℓ} :
    {A : Type ℓ} {U : Type 0} → Result A (NdefError U) → Outcome A (ReadError U)
map_text (ok a) = returned a
map_text (err e) = raised (ndef e)

-- The number of 16-byte steps through the tag, from the size byte of the capability container.
unfoldable pub total_quads : ℕ → ℕ
total_quads size = min (size * 8 / 4 / 4) 63

module _ {U : Type 0} (mf_read : ℕ → Option Bytes) where
  -- The loop over `1..total_quads + 1`, with the rounds left and the number of the quad.
  unfoldable pub read_quads : ℕ → ℕ → NdefMessageParser → Outcome NdefMessageParser (ReadError U)
  read_quads zero quad parser = returned parser
  read_quads (suc rounds) quad parser = do
    block ← mul_u8 4 quad
    quad_data ← ok_or (mf_read block) (block_failed block)
    let parser' = add_data parser quad_data
    let rest = read_quads rounds (quad + 1) parser'
    if is_done parser'
        then returned parser'
        else if quad == 2 && not (has_started parser')
        then raised no_message_in_first_sector
        else rest

module _ {U Text : Type 0} (from_utf8 : Bytes → Result Text U) (empty : Text) where
  unfoldable pub read_ndef_text : (ℕ → Option Bytes) → Outcome Text (ReadError U)
  read_ndef_text mf_read = do
    capabilities ← ok_or (mf_read 3) capability_container_failed
    size ← index_at capabilities 2
    parser ← read_quads mf_read (total_quads size) 1 new
    return_err_if (not (is_done parser)) message_incomplete
    record' ← map_ndef (parse_ndef_text_record parser.bytes)
    map_text (text from_utf8 empty record')

-- The chip's commands, each of which may change its state, and the conversion of its UIDs, which
-- accepts those of a standard length, as all UIDs of the chip are.
pub record Chip : Type 1 where
  pub Registers : Type 0
  pub Atqa : Type 0
  pub Uid : Type 0
  pub Error : Type 0
  pub NfcUid : Type 0
  pub reqa : Registers → Result Atqa Error × Registers
  pub wupa : Registers → Result Atqa Error × Registers
  pub select : Atqa → Registers → Result Uid Error × Registers
  pub is_collision : Error → Bool
  pub try_from : Uid → Option NfcUid
  pub standard_length : (uid : Uid) → is_some (try_from uid) ≡ true
  -- what a read of a block gives, and the state behind all reads of a tag
  pub mf_read : Registers → ℕ → Option Bytes
  pub after_reads : Registers → Registers

module _ (C : Chip) where
  open C use {Registers, Uid, NfcUid, reqa, wupa, select, is_collision, try_from}

  -- `expect` panics.
  unfoldable pub nfc_uid_from_mfrc522 : Uid → Outcome NfcUid ⊥
  nfc_uid_from_mfrc522 uid = elim (try_from uid) [ some u ↦ returned u | none ↦ panicked ]

  -- Behind a selected target.
  unfoldable pub selected : Result Uid C.Error → Outcome (Option NfcUid) ⊥
  unfolding nfc_uid_from_mfrc522
  selected (err _) = returned none
  selected (ok uid) = nfc_uid_from_mfrc522 uid >>= λ u. returned (some u)

  unfoldable pub select_target : Registers → Outcome (Option NfcUid) ⊥ × Registers
  unfolding selected
  select_target chip =
      let (atqa, chip₁) = reqa chip in
      elim atqa [
        | err _ ↦ (returned none, chip₁)
        | ok a ↦ let (uid, chip₂) = select a chip₁ in (selected uid, chip₂)
      ]

  unfoldable pub check_for_release : Registers → Bool × Registers
  check_for_release chip =
      let (first, chip₁) = wupa chip in
      elim first [
        | ok _ ↦ (false, chip₁)
        | err _ ↦
            let (second, chip₂) = wupa chip₁ in
            (elim second [ ok _ ↦ false | err e ↦ not (is_collision e) ], chip₂)
      ]
