-- ===== src/Nfc/Record/Sound.antt =====
-- From what `parse_ndef_text_record` returns back to the bytes that it read.
pub mod Cuts
use Prim.Native.Nat.{bit_and}
use bloop_client_framework.Base.{
  ℕ, ◌/◌, ◌%◌, ◌<◌, Bool, true, false, not, [], ◌∷◌, ◌++◌, Option, none, some, ◌==◌, Bytes, length,
  Outcome, returned, raised, panicked, ◌≡◌, refl, sym, ◌∙◌, ap, ap₂, arith, subst, length-take,
  take-append-drop, All, is_some,
}
use bloop_client_framework.Base.Bits.{mask_7, mask_8, mask_16, mask_32}
use bloop_client_framework.Nfc.Record.{
  Part, NdefError, NdefTextRecord, flags_part, type_length_part, payload_length_part,
  id_length_part, type_part, id_part, payload_part, chunked, not_well_known, not_text_record, ◌>>=◌,
  ◌>>◌, return_err_if, from_be_bytes, is_set, equal_bytes, parse_ndef_text_record,
}
use bloop_client_framework.Nfc.Record.Grammar.{
  take_byte, take_bytes, take_payload_length, take_id_length, grammar, parse-grammar,
}
use bloop_client_framework.Nfc.Record.Layout.{
  size_field, id_size_field, id_field, bit, IsFlags, IsTextRecord,
}
use bloop_client_framework.Nfc.Record.Sound.Cuts.{
  >>=-eq-returned, IdCut, IdCut-fields, equal_bytes-eq, id_of, return_err_if-eq-returned,
  returned_by, take_byte-eq, take_bytes-eq, take_id_length-eq, take_payload_length-eq,
}

-- The parts that the grammar takes, one after the other.
record Parts (bytes payload : Bytes) : Type 0 where
  flags : ℕ
  payload_length : ℕ
  id_length : ℕ
  r₂ : Bytes
  r₃ : Bytes
  r₄ : Bytes
  id : Bytes
  rest : Bytes
  whole : is_set flags 0x20 ≡ false
  well_known : bit_and flags 0x07 ≡ 1
  front : bytes ≡ flags ∷ 1 ∷ r₂
  size : r₂ ≡ size_field (is_set flags 0x10) payload_length ++ r₃
  id_size : IdCut (is_set flags 0x08) r₃ id_length r₄
  back : r₄ ≡ 0x54 ∷ (id ++ (payload ++ rest))
  id_width : length id ≡ id_length
  payload_width : length payload ≡ payload_length

IsFlags-masks :
    (flags : ℕ) {short has_id : Bool}
    → is_set flags 0x20 ≡ false
    → bit_and flags 0x07 ≡ 1
    → is_set flags 0x10 ≡ short
    → is_set flags 0x08 ≡ has_id
    → IsFlags flags short has_id
IsFlags-masks flags {short} {has_id} whole known s i = record {
  whole = ground (arith, mask_32 flags);
  short_bit = shorts short s;
  id_bit = ids has_id i;
  well_known = sym (mask_7 flags) ∙ known;
}
  where
    shorts : (b : Bool) → is_set flags 0x10 ≡ b → flags / 16 % 2 ≡ bit b
    shorts true e = ground (arith, mask_16 flags)
    shorts false e = ground (arith, mask_16 flags)

    ids : (b : Bool) → is_set flags 0x08 ≡ b → flags / 8 % 2 ≡ bit b
    ids true e = ground (arith, mask_8 flags)
    ids false e = ground (arith, mask_8 flags)

Parts-IsTextRecord : {bytes payload : Bytes} → Parts bytes payload → IsTextRecord bytes payload
Parts-IsTextRecord {bytes} {payload} p =
    let (size_lem, id_lem, has_lem) =
      IdCut-fields (is_set p.flags 0x08) p.r₄ p.id p.id_size p.id_width in
    record {
      flags = p.flags;
      short = is_set p.flags 0x10;
      id = id_of (is_set p.flags 0x08) p.id;
      rest = p.rest;
      flags_lem = IsFlags-masks p.flags p.whole p.well_known refl (sym has_lem);
      layout = rw p.payload_width (
          p.front
          ∙ ap (λ t. p.flags ∷ 1 ∷ t)
              (p.size
                ∙ ap (λ t. size_field (is_set p.flags 0x10) p.payload_length ++ t)
                    (size_lem
                      ∙ ap (λ t. id_size_field (id_of (is_set p.flags 0x08) p.id) ++ t)
                          (p.back ∙ ap (λ i. 0x54 ∷ (i ++ (payload ++ p.rest))) id_lem))));
    }

module _ {U : Type 0} where
  checks-eq :
      (flags : ℕ) (type payload : Bytes) {r : NdefTextRecord}
      → (return_err_if {E = NdefError U} (not (bit_and flags 0x07 == 1)) not_well_known
          >> (return_err_if (not (equal_bytes type (0x54 ∷ []))) not_text_record
              >> returned (record { value = payload })))
        ≡ returned r
      → (bit_and flags 0x07 ≡ 1) × (type ≡ 0x54 ∷ []) × (payload ≡ r.value)
  checks-eq flags type payload e = ground (arith, equal_bytes-eq type (0x54 ∷ []))

  cut_once :
      (t : Bytes × Bytes) (l : ℕ) (bytes : Bytes)
      → take_bytes {U = U} type_part l bytes ≡ returned t
      → t.0 ≡ 0x54 ∷ []
      → (l ≡ 1) × (bytes ≡ 0x54 ∷ t.1)
  cut_once (type, rest) l bytes e is_text =
      let (cut, width) = take_bytes-eq type_part l bytes e in
      (sym width ∙ ap length is_text, cut ∙ ap (λ x. x ++ rest) is_text)

  grammar-Parts :
      (bytes : Bytes) {r : NdefTextRecord}
      → All (λ b. b < 256) bytes
      → grammar {U = U} bytes ≡ returned r
      → Parts bytes r.value
  unfolding grammar
  grammar-Parts bytes {r} h e = returned_by (take_byte flags_part bytes) _ e λ f s₁ e₁.
      returned_by (return_err_if (is_set f.0 0x20) chunked) _ e₁ λ _ s₂ e₂.
        returned_by (take_byte type_length_part f.1) _ e₂ λ l s₃ e₃.
          returned_by (take_payload_length (is_set f.0 0x10) l.1) _ e₃ λ p s₄ e₄.
            returned_by (take_id_length (is_set f.0 0x08) p.1) _ e₄ λ i s₅ e₅.
              returned_by (take_bytes type_part l.0 i.1) _ e₅ λ t s₆ e₆.
                returned_by (take_bytes id_part i.0 t.1) _ e₆ λ d s₇ e₇.
                  returned_by (take_bytes payload_part p.0 d.1) _ e₇ λ v s₈ e₈.
                    let (known, is_text, same) = checks-eq f.0 t.0 v.0 e₈ in
                    let front = take_byte-eq flags_part bytes s₁ in
                    let size_front = take_byte-eq type_length_part f.1 s₃ in
                    let (one, type_cut) = cut_once t l.0 i.1 s₆ is_text in
                    let (id_cut, id_width) = take_bytes-eq id_part i.0 t.1 s₇ in
                    let (payload_cut, payload_width) = take_bytes-eq payload_part p.0 d.1 s₈ in
                    let small = subst (All (λ b. b < 256)) (front ∙ ap (◌∷◌ f.0) size_front) h in
                    subst (Parts bytes) same (record {
                      flags = f.0;
                      payload_length = p.0;
                      id_length = i.0;
                      r₂ = l.1;
                      r₃ = p.1;
                      r₄ = i.1;
                      id = d.0;
                      rest = v.1;
                      whole = return_err_if-eq-returned _ chunked s₂;
                      well_known = known;
                      front = front ∙ ap (◌∷◌ f.0) (size_front ∙ ap (λ n. n ∷ l.1) one);
                      size = take_payload_length-eq _ l.1 small.1.1 s₄;
                      id_size = take_id_length-eq _ p.1 s₅;
                      back =
                          type_cut ∙ ap (λ x. 0x54 ∷ x) (id_cut ∙ ap (λ x. d.0 ++ x) payload_cut);
                      id_width = id_width;
                      payload_width = payload_width;
                    })

  -- Whatever the parser returns is the payload of a text record that stands in front of the bytes.
  pub parse-IsTextRecord :
      (bytes : Bytes) {r : NdefTextRecord}
      → All (λ b. b < 256) bytes
      → parse_ndef_text_record {U = U} bytes ≡ returned r
      → IsTextRecord bytes r.value
  parse-IsTextRecord bytes h e =
      Parts-IsTextRecord (grammar-Parts bytes h (sym (parse-grammar bytes) ∙ e))
