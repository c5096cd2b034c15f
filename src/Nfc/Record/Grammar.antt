-- ===== src/Nfc/Record/Grammar.antt =====
-- A record parser that takes the parts off the front of the bytes, with no index and no slice,
-- and the proof that the indexing parser of the source is equal to it.
use Prim.Native.Nat.{bit_and}
use bloop_client_framework.Base.{
  ℕ, zero, suc, ◌+◌, ◌-◌, ◌<◌, Bool, true, false, not, ◌&&◌, [], ◌∷◌, ◌==◌, ltb, leb, if◌then◌else◌,
  Bytes, length, take, drop, Outcome, returned, raised, panicked, ◌≡◌, refl, ◌∙◌, ap, arith,
  Bool-cases, inl, inr, length-drop, drop-drop, drop-cases, le→leb, lt→leb,
}
use bloop_client_framework.Nfc.Record.{
  Part, NdefError, NdefTextRecord, flags_part, type_length_part, payload_length_part,
  id_length_part, type_part, id_part, payload_part, truncated, chunked, not_well_known,
  not_text_record, ◌>>=◌, ◌>>◌, return_err_if, index_at, slice, from_be_bytes, is_set, equal_bytes,
  read_payload_length, read_id_length, read_type, skip_id, read_payload, parse_ndef_text_record,
}

fits_behind : (len i n : ℕ) → 0 < n → ltb (len - i) n ≡ ltb len (i + n)
fits_behind len i n pos = ground arith

slice_in_range :
    {E : Type 0} (bytes : Bytes) (i n : ℕ)
    → ltb (length bytes) (i + n) ≡ false
    → slice {E = E} bytes i (i + n) ≡ returned (take n (drop i bytes))
slice_in_range bytes i n h = rw (inside (length bytes), width) refl
  where
    inside : (len : ℕ) → (leb i (i + n) && leb (i + n) (length bytes)) ≡ true
    inside len = ground arith

    width : i + n - i ≡ n
    width = omega arith

positive : (n : ℕ) → ltb 0 (suc n) ≡ true
positive n = ground arith

bind_assoc :
    {A B C E : Type 0} (m : Outcome A E) (f : A → Outcome B E) (g : B → Outcome C E)
    → (m >>= f >>= g) ≡ (m >>= λ a. f a >>= g)
bind_assoc (returned a) f g = refl
bind_assoc (raised e) f g = refl
bind_assoc panicked f g = refl

module _ {U : Type 0} where
  unfoldable pub take_byte : Part → Bytes → Outcome (ℕ × Bytes) (NdefError U)
  take_byte part [] = raised (truncated part)
  take_byte part (b ∷ rest) = returned (b, rest)

  unfoldable pub take_bytes : Part → ℕ → Bytes → Outcome (Bytes × Bytes) (NdefError U)
  take_bytes part n bytes =
      if ltb (length bytes) n
      then raised (truncated part)
      else returned (take n bytes, drop n bytes)

  unfoldable pub take_payload_length : Bool → Bytes → Outcome (ℕ × Bytes) (NdefError U)
  unfolding take_byte take_bytes
  take_payload_length true bytes = take_byte payload_length_part bytes
  take_payload_length false bytes = do
    (field, rest) ← take_bytes payload_length_part 4 bytes
    returned (from_be_bytes field, rest)

  unfoldable pub take_id_length : Bool → Bytes → Outcome (ℕ × Bytes) (NdefError U)
  unfolding take_byte
  take_id_length true bytes = take_byte id_length_part bytes
  take_id_length false bytes = returned (0, bytes)

  unfoldable pub grammar : Bytes → Outcome NdefTextRecord (NdefError U)
  grammar bytes = do
    (flags, r₁) ← take_byte flags_part bytes
    return_err_if (is_set flags 0x20) chunked
    (type_length, r₂) ← take_byte type_length_part r₁
    (payload_length, r₃) ← take_payload_length (is_set flags 0x10) r₂
    (id_length, r₄) ← take_id_length (is_set flags 0x08) r₃
    (payload_type, r₅) ← take_bytes type_part type_length r₄
    (id, r₆) ← take_bytes id_part id_length r₅
    (payload_value, r₇) ← take_bytes payload_part payload_length r₆
    return_err_if (not (bit_and flags 0x07 == 1)) not_well_known
    return_err_if (not (equal_bytes payload_type (0x54 ∷ []))) not_text_record
    returned (record { value = payload_value })

  take_none : (part : Part) (t : Bytes) → take_bytes part 0 t ≡ returned ([], t)
  unfolding take_bytes
  take_none part t = rw (never (length t))
    where
      never : (len : ℕ) → ltb len 0 ≡ false
      never len = ground arith

  -- The steps on the index agree with those on what is left behind it.
  module _ {B : Type 0} (bytes : Bytes) where
    at_byte :
        (part : Part) (i : ℕ) (k : ℕ → Outcome B (NdefError U))
        (k' : ℕ → Bytes → Outcome B (NdefError U))
        → ((b : ℕ) → k b ≡ k' b (drop (i + 1) bytes))
        → (return_err_if (leb (length bytes) i) (truncated part) >> (index_at bytes i >>= k))
          ≡ (take_byte part (drop i bytes) >>= λ r. k' r.0 r.1)
    unfolding take_byte
    at_byte part i k k' h = elim (drop-cases i bytes) [
      | inl (short, e) ↦ rw (le→leb (length bytes) i short, e)
      | inr (b, long, e, d) ↦ rw (lt→leb i (length bytes) long, d) (rw (e, index_at) (h b))
    ]

    at_bytes :
        (part : Part) (i n : ℕ) (k : Bytes → Outcome B (NdefError U))
        (k' : Bytes → Bytes → Outcome B (NdefError U))
        → ((field : Bytes) → k field ≡ k' field (drop (i + n) bytes))
        → 0 < n
        → (return_err_if (ltb (length bytes) (i + n)) (truncated part)
            >> (slice bytes i (i + n) >>= k))
          ≡ (take_bytes part n (drop i bytes) >>= λ r. k' r.0 r.1)
    unfolding take_bytes
    at_bytes part i n k k' h pos = elim (Bool-cases (ltb (length bytes) (i + n))) [
      | inl short ↦ rw (short, length-drop i bytes, fits_behind (length bytes) i n pos, short)
      | inr long ↦
          rw
            (
              long,
              slice_in_range bytes i n long,
              length-drop i bytes,
              fits_behind (length bytes) i n pos,
              long,
            )
            (h (take n (drop i bytes)) ∙ ap (k' (take n (drop i bytes))) (drop-drop i n bytes))
    ]

    module _ (k : ℕ × ℕ → Outcome B (NdefError U)) (k' : ℕ × Bytes → Outcome B (NdefError U))
        (agree : (v j : ℕ) → k (v, j) ≡ k' (v, drop j bytes)) where
      payload_length_stage :
          (short : Bool) (i : ℕ)
          → (read_payload_length bytes short i >>= k)
            ≡ (take_payload_length short (drop i bytes) >>= k')
      unfolding read_payload_length take_payload_length
      payload_length_stage true i = simp bind_assoc (
          at_byte payload_length_part i (λ b. k (b, i + 1)) (λ b t. k' (b, t))
            (λ b. agree b (i + 1)))
      payload_length_stage false i =
          simp (bind_assoc, three (length bytes))
            (at_bytes payload_length_part i 4 (λ f. k (from_be_bytes f, i + 4))
              (λ f t. k' (from_be_bytes f, t)) (λ f. agree (from_be_bytes f) (i + 4)) (omega arith))
        where
          three : (len : ℕ) → leb len (i + 3) ≡ ltb len (i + 4)
          three len = ground arith

      id_length_stage :
          (has_id : Bool) (i : ℕ)
          → (read_id_length bytes has_id i >>= k) ≡ (take_id_length has_id (drop i bytes) >>= k')
      unfolding read_id_length take_id_length
      id_length_stage true i =
          simp bind_assoc
            (at_byte id_length_part i (λ b. k (b, i + 1)) (λ b t. k' (b, t)) (λ b. agree b (i + 1)))
      id_length_stage false i = agree 0 i

    type_stage :
        (k : Bytes × ℕ → Outcome B (NdefError U)) (k' : Bytes × Bytes → Outcome B (NdefError U))
        (agree : (v : Bytes) (j : ℕ) → k (v, j) ≡ k' (v, drop j bytes)) (n i : ℕ)
        → (read_type bytes n i >>= k) ≡ (take_bytes type_part n (drop i bytes) >>= k')
    unfolding read_type
    type_stage k k' agree zero i = rw (take_none type_part (drop i bytes)) (agree [] i)
    type_stage k k' agree (suc n) i = rw (positive n) (
        simp bind_assoc (
          at_bytes type_part i (suc n) (λ f. k (f, i + suc n)) (λ f t. k' (f, t))
            (λ f. agree f (i + suc n)) (omega arith)))

    id_stage :
        (k : ℕ → Outcome B (NdefError U)) (k' : Bytes → Outcome B (NdefError U))
        (agree : (j : ℕ) → k j ≡ k' (drop j bytes)) (n i : ℕ)
        → (skip_id bytes n i >>= k) ≡ (take_bytes id_part n (drop i bytes) >>= λ r. k' r.1)
    unfolding skip_id
    id_stage k k' agree zero i = rw (take_none id_part (drop i bytes)) (agree i)
    id_stage k k' agree (suc n) i = elim (Bool-cases (ltb (length bytes) (i + suc n))) [
      | inl short ↦
          rw (positive n, short)
            (unfold take_bytes in
              rw (length-drop i bytes, fits_behind (length bytes) i (suc n) (omega arith), short))
      | inr long ↦
          rw (positive n, long)
            (unfold take_bytes in
              rw (length-drop i bytes, fits_behind (length bytes) i (suc n) (omega arith), long)
                (agree (i + suc n) ∙ ap k' (drop-drop i (suc n) bytes)))
    ]

    payload_stage :
        (k : Bytes → Outcome B (NdefError U)) (n i : ℕ)
        → (read_payload bytes n i >>= k) ≡ (take_bytes payload_part n (drop i bytes) >>= λ r. k r.0)
    unfolding read_payload
    payload_stage k zero i = rw (take_none payload_part (drop i bytes))
    payload_stage k (suc n) i = rw (positive n) (
        simp bind_assoc (
          rw (fits_behind (length bytes) i (suc n) (omega arith))
            (at_bytes payload_part i (suc n) k (λ f t. k f) (λ f. refl) (omega arith))))

module _ {U : Type 0} where
  -- The parser of the source and the grammar return, or raise, the same on all bytes.
  pub parse-grammar : (bytes : Bytes) → parse_ndef_text_record {U = U} bytes ≡ grammar bytes
  unfolding parse_ndef_text_record grammar
  parse-grammar bytes = at_byte bytes flags_part 0 _ _ λ flags. behind_flags flags (
      at_byte bytes type_length_part 1 _ _ λ type_length.
        payload_length_stage bytes _ _
          (λ payload_length i.
            id_length_stage bytes _ _
              (λ id_length j.
                type_stage bytes _ _
                  (λ payload_type l.
                    id_stage bytes _ _ (λ m. payload_stage bytes _ payload_length m) id_length l)
                  type_length j)
              (is_set flags 0x08) i)
          (is_set flags 0x10) 2)
    where
      behind_flags :
          (flags : ℕ) {m n : Outcome NdefTextRecord (NdefError U)}
          → m ≡ n
          → (return_err_if (is_set flags 0x20) chunked >> m)
            ≡ (return_err_if (is_set flags 0x20) chunked >> n)
      behind_flags flags e = rw e
