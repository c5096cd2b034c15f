-- ===== src/Nfc/Message/Feed.antt =====
-- The parser fed chunk by chunk, as its documentation asks: until `is_done`.
use bloop_client_framework.Base.{
  ℕ, ◌+◌, ◌/◌, ◌%◌, ◌<◌, true, false, List, [], ◌∷◌, ◌++◌, ltb, if◌then◌else◌, Bytes, length,
  length-append, append_assoc, All, ◌≡◌, ◌≢◌, refl, sym, ◌∙◌, ap, arith, Bool-cases, ◌⊎◌, inl, inr,
  flatten,
}
use bloop_client_framework.Base.Bits.{bit_or-byte}
use bloop_client_framework.Nfc.Message.{
  NdefMessageParser, next, stop, new, is_done, in_state, step, add_data,
}
use bloop_client_framework.Nfc.Message.Tlv.{
  length_field, message_tlv, reading, step-last, step-more, add_data-message_tlv,
}

unfoldable pub feed : NdefMessageParser → List Bytes → NdefMessageParser
feed p [] = p
feed p (c ∷ cs) = let q = add_data p c in let rest = feed q cs in if is_done q then q else rest

-- On these bytes `is_done` becomes true where the loop returns, and nowhere before.
data Quiet : NdefMessageParser → Bytes → Type 0 where
  ends : {p : NdefMessageParser} → Quiet p []
  stops :
      {p q : NdefMessageParser} {b : ℕ} {bs : Bytes}
      → step p b ≡ stop q
      → is_done q ≡ true
      → Quiet p (b ∷ bs)
  goes :
      {p q : NdefMessageParser} {b : ℕ} {bs : Bytes}
      → step p b ≡ next q
      → is_done q ≡ false
      → Quiet q bs
      → Quiet p (b ∷ bs)

-- What a chunk `xs` leaves to be done of `xs ++ ys`.
record IsSplit (p : NdefMessageParser) (xs ys : Bytes) : Type 0 where
  open_before : is_done (add_data p xs) ≡ false
  same : add_data p (xs ++ ys) ≡ add_data (add_data p xs) ys
  quiet : Quiet (add_data p xs) ys

record IsClosed (p : NdefMessageParser) (xs ys : Bytes) : Type 0 where
  closed : is_done (add_data p xs) ≡ true
  same : add_data p (xs ++ ys) ≡ add_data p xs

add_data-next :
    (p : NdefMessageParser) {q : NdefMessageParser} (b : ℕ) (bs : Bytes)
    → step p b ≡ next q
    → add_data p (b ∷ bs) ≡ add_data q bs
unfolding add_data
add_data-next p b bs e = rw (e, add_data)

add_data-stop :
    (p : NdefMessageParser) {q : NdefMessageParser} (b : ℕ) (bs : Bytes)
    → step p b ≡ stop q
    → add_data p (b ∷ bs) ≡ q
unfolding add_data
add_data-stop p b bs e = rw (e, add_data)

split :
    (p : NdefMessageParser) (xs ys : Bytes)
    → is_done p ≡ false
    → Quiet p (xs ++ ys)
    → IsClosed p xs ys ⊎ IsSplit p xs ys
split p [] ys o h = inr (unfold add_data in record { open_before = o; same = refl; quiet = h })
split p (x ∷ xs) ys o (stops e d) = inl (record {
  closed = rw (add_data-stop p x xs e) d;
  same = add_data-stop p x (xs ++ ys) e ∙ sym (add_data-stop p x xs e);
})
split p (x ∷ xs) ys o (goes {q = q} e d h) = elim (split q xs ys d h) [
  | inl c ↦ inl (record {
    closed = rw (add_data-next p x xs e) c.closed;
    same = rw (add_data-next p x xs e, add_data-next p x (xs ++ ys) e) c.same;
  })
  | inr s ↦ inr (record {
    open_before = rw (add_data-next p x xs e) s.open_before;
    same = rw (add_data-next p x xs e, add_data-next p x (xs ++ ys) e) s.same;
    quiet = rw (add_data-next p x xs e) s.quiet;
  })
]

feed-Quiet :
    (p : NdefMessageParser) (cs : List Bytes)
    → is_done p ≡ false
    → Quiet p (flatten cs)
    → feed p cs ≡ add_data p (flatten cs)
unfolding feed
feed-Quiet p [] o h = unfold add_data in refl
feed-Quiet p (c ∷ cs) o h = elim (split p c (flatten cs) o h) [
  | inl d ↦ rw d.closed (sym d.same)
  | inr s ↦ rw s.open_before (feed-Quiet (add_data p c) cs s.open_before s.quiet ∙ sym s.same)
]

Quiet-value :
    (n : ℕ) (got msg rest : Bytes)
    → n < 65536
    → length got + length msg ≡ n
    → 0 < length msg
    → Quiet (reading n got) (msg ++ rest)
unfolding is_done
Quiet-value n got [] rest h e pos = absurd (omega arith)
Quiet-value n got (b ∷ []) rest h e pos =
    stops (step-last n got b h (omega arith)) (ground (arith, length-append got (b ∷ [])))
Quiet-value n got (b ∷ c ∷ msg) rest h e pos =
    goes (step-more n got b h (omega arith)) (ground (arith, length-append got (b ∷ []))) (
      Quiet-value n (got ++ b ∷ []) (c ∷ msg) rest h (omega (arith, length-append got (b ∷ [])))
        (omega arith))

Quiet-length_field :
    (n : ℕ) (rest : Bytes)
    → 0 < n
    → n ≢ 255
    → n < 65536
    → Quiet (reading n []) rest
    → Quiet new (3 ∷ (length_field n ++ rest))
unfolding new in_state is_done
Quiet-length_field n rest pos ne h q = elim (Bool-cases (ltb n 255)) [
  | inl short ↦ goes refl refl (rw short (goes (ground arith) (ground arith) q))
  | inr long ↦ goes refl refl (
      rw long (
        goes refl refl (
          goes refl (ground arith)
            (goes (ground (arith, bit_or-byte (n / 256) (n % 256))) (ground arith) q))))
]

Quiet-skip : (pre rest : Bytes) → All (λ b. b ≢ 3) pre → Quiet new rest → Quiet new (pre ++ rest)
unfolding new in_state is_done
Quiet-skip [] rest h q = q
Quiet-skip (b ∷ pre) rest h q = goes {q = new} (ground arith) refl (Quiet-skip pre rest h.1 q)

Quiet-message_tlv :
    (pre msg rest : Bytes)
    → All (λ b. b ≢ 3) pre
    → 0 < length msg
    → length msg ≢ 255
    → length msg < 65536
    → Quiet new (pre ++ (message_tlv msg ++ rest))
Quiet-message_tlv pre msg rest skip pos ne h = Quiet-skip pre _ skip (
    rw (append_assoc (length_field (length msg)) msg rest) (
      Quiet-length_field (length msg) _ pos ne h
        (Quiet-value (length msg) [] msg rest h (omega arith) pos)))

-- However the stream is cut into chunks, feeding them until `is_done` gives the message, complete,
-- where the bytes in front of its TLV have no 3 and it has 1 to 65535 bytes, but not 255.
pub feed-message_tlv :
    (cs : List Bytes) (pre msg rest : Bytes)
    → flatten cs ≡ pre ++ (message_tlv msg ++ rest)
    → All (λ b. b ≢ 3) pre
    → 0 < length msg
    → length msg ≢ 255
    → length msg < 65536
    → (feed new cs ≡ reading (length msg) msg) × (is_done (feed new cs) ≡ true)
feed-message_tlv cs pre msg rest e skip pos ne h = (rw fed whole.0, rw fed whole.1)
  where
    whole :
        (add_data new (pre ++ (message_tlv msg ++ rest)) ≡ reading (length msg) msg)
        × (is_done (add_data new (pre ++ (message_tlv msg ++ rest))) ≡ true)
    whole = add_data-message_tlv pre msg rest skip pos h

    fed : feed new cs ≡ add_data new (pre ++ (message_tlv msg ++ rest))
    fed =
        feed-Quiet new cs (unfold new is_done in refl)
          (rw e (Quiet-message_tlv pre msg rest skip pos ne h))
        ∙ ap (add_data new) e
