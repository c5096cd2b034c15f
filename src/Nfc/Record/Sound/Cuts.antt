-- ===== src/Nfc/Record/Sound/Cuts.antt =====
-- What the stages of the grammar cut off the bytes.
use bloop_client_framework.Base.{
  ℕ, ◌<◌, Bool, true, false, [], ◌∷◌, ◌++◌, Option, none, some, Bytes, length, Outcome, returned,
  raised, panicked, ◌≡◌, refl, ap, ap₂, arith, subst, length-take, take-append-drop, All, is_some,
}
use bloop_client_framework.Nfc.Record.{
  Part, NdefError, payload_length_part, id_length_part, ◌>>=◌, return_err_if, from_be_bytes,
  equal_bytes,
}
use bloop_client_framework.Nfc.Record.Grammar.{
  take_byte, take_bytes, take_payload_length, take_id_length,
}
use bloop_client_framework.Nfc.Record.Layout.{size_field, id_size_field, id_field}

pub >>=-eq-returned :
    {A B E : Type 0} (m : Outcome A E) (f : A → Outcome B E) {b : B}
    → (m >>= f) ≡ returned b
    → (a : A) × (m ≡ returned a) × (f a ≡ returned b)
>>=-eq-returned (returned a) f h = (a, refl, h)
>>=-eq-returned (raised e) f h = cc
>>=-eq-returned panicked f h = cc

-- The same, handing the parts on.
pub returned_by :
    {A B E P : Type 0} (m : Outcome A E) (f : A → Outcome B E) {b : B}
    → (m >>= f) ≡ returned b
    → ((a : A) → m ≡ returned a → f a ≡ returned b → P)
    → P
returned_by (returned a) f h k = k a refl h
returned_by (raised e) f h k = absurd cc
returned_by panicked f h k = absurd cc

pub return_err_if-eq-returned :
    {E : Type 0} (b : Bool) (e : E) {u : Unit {0}} → return_err_if b e ≡ returned u → b ≡ false
return_err_if-eq-returned true e h = cc
return_err_if-eq-returned false e h = refl

pub equal_bytes-eq : (xs ys : Bytes) → equal_bytes xs ys ≡ true → xs ≡ ys
equal_bytes-eq [] [] h = refl
equal_bytes-eq [] (y ∷ ys) h = cc
equal_bytes-eq (x ∷ xs) [] h = cc
equal_bytes-eq (x ∷ xs) (y ∷ ys) h = ground (arith, equal_bytes-eq xs ys)

-- The four bytes of a long payload length are those of the number that they stand for.
be_bytes-eq :
    (field : Bytes)
    → length field ≡ 4
    → All (λ b. b < 256) field
    → field ≡ size_field false (from_be_bytes field)
be_bytes-eq [] e h = absurd (omega arith)
be_bytes-eq (a ∷ []) e h = absurd (omega arith)
be_bytes-eq (a ∷ b ∷ []) e h = absurd (omega arith)
be_bytes-eq (a ∷ b ∷ c ∷ []) e h = absurd (omega arith)
be_bytes-eq (a ∷ b ∷ c ∷ d ∷ []) e h =
    ap₂ (λ x y. x ∷ y) (omega arith)
      (ap₂ (λ x y. x ∷ y) (omega arith)
        (ap₂ (λ x y. x ∷ y) (omega arith) (ap (λ x. x ∷ []) (omega arith))))
be_bytes-eq (a ∷ b ∷ c ∷ d ∷ x ∷ field) e h = absurd (omega arith)

All-append_left : (xs ys : Bytes) → All (λ b. b < 256) (xs ++ ys) → All (λ b. b < 256) xs
All-append_left [] ys h = tt
All-append_left (x ∷ xs) ys h = (h.0, All-append_left xs ys h.1)

module _ {U : Type 0} where
  pub take_byte-eq :
      (part : Part) (t : Bytes) {r : ℕ × Bytes}
      → take_byte {U = U} part t ≡ returned r
      → t ≡ r.0 ∷ r.1
  unfolding take_byte
  take_byte-eq part [] e = cc
  take_byte-eq part (b ∷ t) e = ground arith

  pub take_bytes-eq :
      (part : Part) (n : ℕ) (t : Bytes) {r : Bytes × Bytes}
      → take_bytes {U = U} part n t ≡ returned r
      → (t ≡ r.0 ++ r.1) × (length r.0 ≡ n)
  unfolding take_bytes
  take_bytes-eq part n t e = ground (arith, length-take n t, take-append-drop n t)

  pub take_payload_length-eq :
      (short : Bool) (t : Bytes) {r : ℕ × Bytes}
      → All (λ b. b < 256) t
      → take_payload_length {U = U} short t ≡ returned r
      → t ≡ size_field short r.0 ++ r.1
  unfolding take_payload_length
  take_payload_length-eq true t h e = take_byte-eq payload_length_part t e
  take_payload_length-eq false t {r} h e =
      long (>>=-eq-returned (take_bytes payload_length_part 4 t) _ e)
    where
      long :
          (q : Bytes × Bytes) × (take_bytes {U = U} payload_length_part 4 t ≡ returned q)
            × (◌≡◌ {A = Outcome (ℕ × Bytes) (NdefError U)}
                (returned (from_be_bytes q.0, q.1))
                (returned r))
          → t ≡ size_field false r.0 ++ r.1
      long ((field, rest), s, e') =
          let (cut, four) = take_bytes-eq payload_length_part 4 t s in
          let small = All-append_left field rest (subst (All (λ b. b < 256)) cut h) in
          cc (cut, ap (λ f. f ++ rest) (be_bytes-eq field four small))

-- What an ID length leaves: the byte is there, or no byte is read and the length is 0.
abbrev pub IdCut : Bool → Bytes → ℕ → Bytes → Type 0
IdCut true t n rest = t ≡ n ∷ rest
IdCut false t n rest = (t ≡ rest) × (n ≡ 0)

abbrev pub id_of : Bool → Bytes → Option Bytes
id_of true id = some id
id_of false id = none

pub IdCut-fields :
    (has_id : Bool) {t : Bytes} {n : ℕ} (rest id : Bytes)
    → IdCut has_id t n rest
    → length id ≡ n
    → (t ≡ id_size_field (id_of has_id id) ++ rest)
      × (id ≡ id_field (id_of has_id id))
      × (is_some (id_of has_id id) ≡ has_id)
IdCut-fields true rest id cut e = (rw e cut, refl, refl)
IdCut-fields false rest [] cut e = (cut.0, refl, refl)
IdCut-fields false rest (x ∷ id) cut e = absurd (omega arith)

module _ {U : Type 0} where
  pub take_id_length-eq :
      (has_id : Bool) (t : Bytes) {r : ℕ × Bytes}
      → take_id_length {U = U} has_id t ≡ returned r
      → IdCut has_id t r.0 r.1
  unfolding take_id_length
  take_id_length-eq true t e = take_byte-eq {U = U} id_length_part t e
  take_id_length-eq false t e = ground arith
