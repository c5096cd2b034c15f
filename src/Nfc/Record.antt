-- ===== src/Nfc/Record.antt =====
-- src/nfc/ndef.rs: `parse_ndef_text_record` and `NdefTextRecord`. The messages of `Truncated` are
-- the constructors of `Part`; `String::from_utf8` and its error are parameters.
pub mod Grammar
pub mod Layout
pub mod Calm
pub mod Sound
pub mod Text
use Prim.Native.Nat.{bit_and}
use bloop_client_framework.Base.{
  ℕ, ◌+◌, ◌-◌, ◌*◌, Bool, true, false, not, ◌&&◌, List, [], ◌∷◌, Option, none, some, ◌==◌, ltb, leb,
  if◌then◌else◌, Bytes, length, get_elem?, take, drop, Outcome, returned, raised, panicked, Result,
  ok, err,
}

pub data Part : Type 0 where
  flags_part type_length_part payload_length_part id_length_part : Part
  type_part id_part payload_part text_payload_part : Part

pub data NdefError (Utf8Error : Type 0) : Type 0 where
  truncated : Part → NdefError Utf8Error
  chunked not_well_known not_text_record : NdefError Utf8Error
  invalid_utf8 : Utf8Error → NdefError Utf8Error

pub record NdefTextRecord : Type 0 where
  pub value : Bytes

module _ {ℓ κ ι} {A : Type ℓ} {B : Type κ} {E : Type ι} where
  infixl 5 ◌>>=◌
  abbrev pub ◌>>=◌ : Outcome A E → (A → Outcome B E) → Outcome B E
  returned a >>= f = f a
  raised e >>= f = raised e
  panicked >>= f = panicked

module _ {ℓ ι} {B : Type ℓ} {E : Type ι} where
  infixl 5 ◌>>◌
  abbrev pub ◌>>◌ : Outcome (Unit {0}) E → Outcome B E → Outcome B E
  m >> k = m >>= λ _. k

-- `if test { return Err(e) }`
abbrev pub return_err_if {ι} : {E : Type ι} → Bool → E → Outcome (Unit {0}) E
return_err_if true e = raised e
return_err_if false e = returned tt

-- `data[i]` and `data[i..j]`, which panic out of range.
abbrev pub index_at {ι} : {E : Type ι} → Bytes → ℕ → Outcome ℕ E
index_at bytes i = elim (get_elem? bytes i) [ some b ↦ returned b | none ↦ panicked ]

abbrev pub slice {ι} : {E : Type ι} → Bytes → ℕ → ℕ → Outcome Bytes E
slice bytes i j =
    if leb i j && leb j (length bytes) then returned (take (j - i) (drop i bytes)) else panicked

-- `u32::from_be_bytes` on the four bytes of a slice.
abbrev pub from_be_bytes : Bytes → ℕ
from_be_bytes (a ∷ b ∷ c ∷ d ∷ _) = ((a * 256 + b) * 256 + c) * 256 + d
from_be_bytes _ = 0

-- `is_set flags mask` is `(flags & mask) != 0`.
abbrev pub is_set : ℕ → ℕ → Bool
is_set flags mask = not (bit_and flags mask == 0)

abbrev pub equal_bytes : Bytes → Bytes → Bool
equal_bytes [] [] = true
equal_bytes (x ∷ xs) (y ∷ ys) = x == y && equal_bytes xs ys
equal_bytes _ _ = false

module _ {U : Type 0} where
  -- Each part of the record returns what it read and the index behind it.
  unfoldable pub read_payload_length : Bytes → Bool → ℕ → Outcome (ℕ × ℕ) (NdefError U)
  read_payload_length bytes true index = do
    return_err_if (leb (length bytes) index) (truncated payload_length_part)
    len ← index_at bytes index
    returned (len, index + 1)
  read_payload_length bytes false index = do
    return_err_if (leb (length bytes) (index + 3)) (truncated payload_length_part)
    field ← slice bytes index (index + 4)
    returned (from_be_bytes field, index + 4)

  unfoldable pub read_id_length : Bytes → Bool → ℕ → Outcome (ℕ × ℕ) (NdefError U)
  read_id_length bytes true index = do
    return_err_if (leb (length bytes) index) (truncated id_length_part)
    len ← index_at bytes index
    returned (len, index + 1)
  read_id_length bytes false index = returned (0, index)

  unfoldable pub read_type : Bytes → ℕ → ℕ → Outcome (Bytes × ℕ) (NdefError U)
  read_type bytes type_length index =
      if ltb 0 type_length
      then (do
        return_err_if (ltb (length bytes) (index + type_length)) (truncated type_part)
        field ← slice bytes index (index + type_length)
        returned (field, index + type_length))
      else returned ([], index)

  unfoldable pub skip_id : Bytes → ℕ → ℕ → Outcome ℕ (NdefError U)
  skip_id bytes id_length index =
      if ltb 0 id_length
      then (do
        return_err_if (ltb (length bytes) (index + id_length)) (truncated id_part)
        returned (index + id_length))
      else returned index

  unfoldable pub read_payload : Bytes → ℕ → ℕ → Outcome Bytes (NdefError U)
  read_payload bytes payload_length index =
      if ltb 0 payload_length
      then (do
        return_err_if (ltb (length bytes - index) payload_length) (truncated payload_part)
        slice bytes index (index + payload_length))
      else returned []

  unfoldable pub parse_ndef_text_record : Bytes → Outcome NdefTextRecord (NdefError U)
  parse_ndef_text_record bytes = do
    return_err_if (leb (length bytes) 0) (truncated flags_part)
    flags ← index_at bytes 0
    return_err_if (is_set flags 0x20) chunked
    return_err_if (leb (length bytes) 1) (truncated type_length_part)
    type_length ← index_at bytes 1
    (payload_length, after_payload_length) ← read_payload_length bytes (is_set flags 0x10) 2
    (id_length, after_id_length) ← read_id_length bytes (is_set flags 0x08) after_payload_length
    (payload_type, after_type) ← read_type bytes type_length after_id_length
    after_id ← skip_id bytes id_length after_type
    payload_value ← read_payload bytes payload_length after_id
    return_err_if (not (bit_and flags 0x07 == 1)) not_well_known
    return_err_if (not (equal_bytes payload_type (0x54 ∷ []))) not_text_record
    returned (record { value = payload_value })

-- `data.get(start..)`
abbrev pub get_from : Bytes → ℕ → Option Bytes
get_from bytes start = if leb start (length bytes) then some (drop start bytes) else none

module _ {U Text : Type 0} (from_utf8 : Bytes → Result Text U) (empty : Text) where
  text_of : Bytes → Result Text (NdefError U)
  text_of [] = ok empty
  text_of (status ∷ rest) = elim (get_from (status ∷ rest) (bit_and status 0x3f + 1)) [
    | none ↦ err (truncated text_payload_part)
    | some bytes ↦ elim (from_utf8 bytes) [ ok t ↦ ok t | err e ↦ err (invalid_utf8 e) ]
  ]

  unfoldable pub text : NdefTextRecord → Result Text (NdefError U)
  unfolding text_of
  text r = text_of r.value
