-- ===== src/Nfc/Record/Calm.antt =====
-- `parse_ndef_text_record` does not panic: its indices and slices stay in range.
use Prim.Native.Nat.{bit_and}
use bloop_client_framework.Base.{
  ℕ, Bool, true, false, not, [], ◌∷◌, ◌==◌, ltb, Bytes, length, Outcome, returned, raised, panicked,
  ◌≢◌, sym, ◌∙◌, Bool-cases, inl, inr,
}
use bloop_client_framework.Nfc.Record.{
  Part, flags_part, type_length_part, payload_length_part, id_length_part, type_part, id_part,
  payload_part, chunked, ◌>>=◌, return_err_if, is_set, equal_bytes, parse_ndef_text_record,
}
use bloop_client_framework.Nfc.Record.Grammar.{
  take_byte, take_bytes, take_payload_length, take_id_length, grammar, parse-grammar,
}

abbrev pub IsCalm {ℓ} : {A E : Type ℓ} → Outcome A E → Type 0
IsCalm panicked = ⊥
IsCalm _ = Unit

pub IsCalm-bind :
    {A B E : Type 0} (m : Outcome A E) (f : A → Outcome B E)
    → IsCalm m
    → ((a : A) → IsCalm (f a))
    → IsCalm (m >>= f)
IsCalm-bind (returned a) f h k = k a
IsCalm-bind (raised e) f h k = tt
IsCalm-bind panicked f h k = h

pub return_err_if-IsCalm : {E : Type 0} (b : Bool) (e : E) → IsCalm (return_err_if b e)
return_err_if-IsCalm true e = tt
return_err_if-IsCalm false e = tt

module _ (U : Type 0) where
  take_byte-IsCalm : (part : Part) (t : Bytes) → IsCalm (take_byte {U = U} part t)
  unfolding take_byte
  take_byte-IsCalm part [] = tt
  take_byte-IsCalm part (b ∷ t) = tt

  take_bytes-IsCalm : (part : Part) (n : ℕ) (t : Bytes) → IsCalm (take_bytes {U = U} part n t)
  unfolding take_bytes
  take_bytes-IsCalm part n t = elim (Bool-cases (ltb (length t) n)) [
    | inl short ↦ rw short tt
    | inr long ↦ rw long tt
  ]

  take_payload_length-IsCalm :
      (short : Bool) (t : Bytes) → IsCalm (take_payload_length {U = U} short t)
  unfolding take_payload_length
  take_payload_length-IsCalm true t = take_byte-IsCalm payload_length_part t
  take_payload_length-IsCalm false t =
      IsCalm-bind (take_bytes payload_length_part 4 t) _ (take_bytes-IsCalm payload_length_part 4 t)
        (λ _. tt)

  take_id_length-IsCalm : (has_id : Bool) (t : Bytes) → IsCalm (take_id_length {U = U} has_id t)
  unfolding take_id_length
  take_id_length-IsCalm true t = take_byte-IsCalm id_length_part t
  take_id_length-IsCalm false t = tt

  grammar-IsCalm : (bytes : Bytes) → IsCalm (grammar {U = U} bytes)
  unfolding grammar
  grammar-IsCalm bytes = IsCalm-bind _ _ (take_byte-IsCalm flags_part bytes) λ f.
      IsCalm-bind _ _ (return_err_if-IsCalm (is_set f.0 0x20) chunked) λ _.
        IsCalm-bind _ _ (take_byte-IsCalm type_length_part f.1) λ tl.
          IsCalm-bind _ _ (take_payload_length-IsCalm (is_set f.0 0x10) tl.1) λ pl.
            IsCalm-bind _ _ (take_id_length-IsCalm (is_set f.0 0x08) pl.1) λ il.
              IsCalm-bind _ _ (take_bytes-IsCalm type_part tl.0 il.1) λ ty.
                IsCalm-bind _ _ (take_bytes-IsCalm id_part il.0 ty.1) λ id.
                  IsCalm-bind _ _ (take_bytes-IsCalm payload_part pl.0 id.1) λ v.
                    IsCalm-bind _ _ (return_err_if-IsCalm (not (bit_and f.0 0x07 == 1)) _) λ _.
                      IsCalm-bind _ _ (return_err_if-IsCalm (not (equal_bytes ty.0 (0x54 ∷ []))) _)
                        λ _. tt

  -- No input makes the parser index or slice out of range.
  pub parse-ne-panicked : (bytes : Bytes) → parse_ndef_text_record {U = U} bytes ≢ panicked
  parse-ne-panicked bytes e = rw (sym (parse-grammar bytes) ∙ e) at (grammar-IsCalm bytes)
