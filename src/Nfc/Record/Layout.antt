-- ===== src/Nfc/Record/Layout.antt =====
-- The bytes of a text record, described by what writes them, and both directions between them and
-- what the parser returns.
use Prim.Native.Nat.{bit_and}
use bloop_client_framework.Base.{
  ℕ, ◌/◌, ◌%◌, Bool, true, false, [], ◌∷◌, ◌++◌, Option, none, some, ltb, Bytes, length, returned,
  ◌≡◌, refl, ◌∙◌, ap, arith, length-append, take-length_append, drop-length_append, is_some,
}
use bloop_client_framework.Base.Bits.{mask_7, mask_8, mask_16, mask_32}
use bloop_client_framework.Nfc.Record.{
  Part, payload_length_part, type_part, id_part, payload_part, is_set, parse_ndef_text_record,
}
use bloop_client_framework.Nfc.Record.Grammar.{
  take_byte, take_bytes, take_payload_length, take_id_length, grammar, parse-grammar,
}

abbrev pub size_field : Bool → ℕ → Bytes
size_field true n = n ∷ []
size_field false n = n / 16777216 ∷ n / 65536 % 256 ∷ n / 256 % 256 ∷ n % 256 ∷ []

abbrev pub id_size_field : Option Bytes → Bytes
id_size_field none = []
id_size_field (some id) = length id ∷ []

abbrev pub id_field : Option Bytes → Bytes
id_field none = []
id_field (some id) = id

abbrev pub text_record_bytes : ℕ → Bool → Option Bytes → Bytes → Bytes → Bytes
text_record_bytes flags short id payload rest =
    flags
    ∷ 1
    ∷ (size_field short (length payload)
        ++ (id_size_field id ++ (0x54 ∷ (id_field id ++ (payload ++ rest)))))

abbrev pub bit : Bool → ℕ
bit true = 1
bit false = 0

-- A flags byte: not chunked, the bits for a short record and for an ID, a well-known type.
pub record IsFlags (flags : ℕ) (short has_id : Bool) : Type 0 where
  pub whole : flags / 32 % 2 ≡ 0
  pub short_bit : flags / 16 % 2 ≡ bit short
  pub id_bit : flags / 8 % 2 ≡ bit has_id
  pub well_known : flags % 8 ≡ 1

-- A text record with this payload stands in front of the bytes.
pub record IsTextRecord (bytes payload : Bytes) : Type 0 where
  pub flags : ℕ
  pub short : Bool
  pub id : Option Bytes
  pub rest : Bytes
  pub flags_lem : IsFlags flags short (is_some id)
  pub layout : bytes ≡ text_record_bytes flags short id payload rest

is_set_bit :
    (flags : ℕ) {short has_id : Bool}
    → IsFlags flags short has_id
    → (is_set flags 0x20 ≡ false)
      × (is_set flags 0x10 ≡ short)
      × (is_set flags 0x08 ≡ has_id)
      × (bit_and flags 0x07 ≡ 1)
is_set_bit flags {short} {has_id} f = (
  ground (arith, mask_32 flags, f.whole),
  shorts short f.short_bit,
  ids has_id f.id_bit,
  mask_7 flags ∙ f.well_known,
)
  where
    shorts : (b : Bool) → flags / 16 % 2 ≡ bit b → is_set flags 0x10 ≡ b
    shorts true e = ground (arith, mask_16 flags)
    shorts false e = ground (arith, mask_16 flags)

    ids : (b : Bool) → flags / 8 % 2 ≡ bit b → is_set flags 0x08 ≡ b
    ids true e = ground (arith, mask_8 flags)
    ids false e = ground (arith, mask_8 flags)

module _ {U : Type 0} where
  take_bytes-append :
      (part : Part) (xs ys : Bytes)
      → take_bytes {U = U} part (length xs) (xs ++ ys) ≡ returned (xs, ys)
  unfolding take_bytes
  take_bytes-append part xs ys = rw (enough, take-length_append, drop-length_append) refl
    where
      enough : ltb (length (xs ++ ys)) (length xs) ≡ false
      enough = ground (arith, length-append xs ys)

  take_payload_length-size_field :
      (short : Bool) (n : ℕ) (rest : Bytes)
      → take_payload_length {U = U} short (size_field short n ++ rest) ≡ returned (n, rest)
  unfolding take_payload_length
  take_payload_length-size_field true n rest = refl
  take_payload_length-size_field false n rest =
      rw (take_bytes-append payload_length_part (size_field false n) rest)
        (ap (λ v. returned (v, rest)) (omega arith))

  take_id_length-field :
      (id : Option Bytes) (rest : Bytes)
      → take_id_length {U = U} (is_some id) (id_size_field id ++ rest)
        ≡ returned (length (id_field id), rest)
  unfolding take_id_length
  take_id_length-field none rest = refl
  take_id_length-field (some id) rest = refl

  -- Every text record is accepted, in either form of the payload length, with an ID or without,
  -- whatever stands behind it, and its payload is returned.
  pub parse-text_record_bytes :
      (flags : ℕ) (short : Bool) (id : Option Bytes) (payload rest : Bytes)
      → IsFlags flags short (is_some id)
      → parse_ndef_text_record {U = U} (text_record_bytes flags short id payload rest)
        ≡ returned (record { value = payload })
  unfolding grammar take_byte
  parse-text_record_bytes flags short id payload rest f =
      let (whole, s, i, w) = is_set_bit flags f in
      parse-grammar (text_record_bytes flags short id payload rest)
      ∙ rw (whole, s)
          (rw
            (take_payload_length-size_field short (length payload)
              (id_size_field id ++ (0x54 ∷ (id_field id ++ (payload ++ rest)))))
            (rw i (
              rw (take_id_length-field id (0x54 ∷ (id_field id ++ (payload ++ rest)))) (
                rw (take_bytes-append type_part (0x54 ∷ []) (id_field id ++ (payload ++ rest))) (
                  rw (take_bytes-append id_part (id_field id) (payload ++ rest))
                    (rw (take_bytes-append payload_part payload rest, w)))))))
