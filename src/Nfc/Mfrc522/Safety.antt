-- ===== src/Nfc/Mfrc522/Safety.antt =====
-- `read_ndef_text` on any tag at all: no overflow of a block address, no index out of range.
use bloop_client_framework.Base.{
  ℕ, zero, suc, ◌+◌, ◌*◌, ◌<◌, ◌≤◌, Bool, true, false, not, ◌&&◌, [], ◌∷◌, Option, none, some, ◌==◌,
  if◌then◌else◌, Bytes, length, Outcome, returned, raised, panicked, Result, ok, err, ◌≡◌, ◌≢◌,
  refl, arith, ◌⊎◌, Option-cases, inl, inr,
}
use bloop_client_framework.Nfc.Message.{NdefMessageParser, new, is_done, has_started, add_data}
use bloop_client_framework.Nfc.Record.{
  NdefError, index_at, return_err_if, parse_ndef_text_record, text,
}
use bloop_client_framework.Nfc.Record.Calm.{
  IsCalm, IsCalm-bind, return_err_if-IsCalm, parse-ne-panicked,
}
use bloop_client_framework.Nfc.Mfrc522.{
  ok_or, map_ndef, map_text, total_quads, read_quads, read_ndef_text, message_incomplete,
}
use bloop_client_framework.Nfc.Mfrc522.Quads.{quad_in_u8, total_quads-le}

ok_or-IsCalm : {A E : Type 0} (o : Option A) (e : E) → IsCalm (ok_or o e)
ok_or-IsCalm none e = tt
ok_or-IsCalm (some a) e = tt

map_text-IsCalm : {A U : Type 0} (r : Result A (NdefError U)) → IsCalm (map_text r)
map_text-IsCalm (ok a) = tt
map_text-IsCalm (err e) = tt

map_ndef-IsCalm : {A U : Type 0} (m : Outcome A (NdefError U)) → m ≢ panicked → IsCalm (map_ndef m)
map_ndef-IsCalm (returned a) h = tt
map_ndef-IsCalm (raised e) h = tt
map_ndef-IsCalm panicked h = h refl

if-IsCalm :
    {A E : Type 0} (b : Bool) (m n : Outcome A E)
    → IsCalm m
    → IsCalm n
    → IsCalm (if b then m else n)
if-IsCalm true m n h k = h
if-IsCalm false m n h k = k

index_at-IsCalm :
    (E : Type 0) (bytes : Bytes) (i : ℕ) → i < length bytes → IsCalm (index_at {E = E} bytes i)
index_at-IsCalm E [] i h = absurd (omega arith)
index_at-IsCalm E (b ∷ bytes) zero h = tt
index_at-IsCalm E (b ∷ bytes) (suc i) h = index_at-IsCalm E bytes i (omega arith)

module _ (U : Type 0) (mf_read : ℕ → Option Bytes) where
  read_quads-IsCalm :
      (n quad : ℕ) (p : NdefMessageParser)
      → quad + n ≤ 64
      → IsCalm (read_quads {U = U} mf_read n quad p)
  unfolding read_quads
  read_quads-IsCalm zero quad p h = tt
  read_quads-IsCalm (suc n) quad p h = rw (quad_in_u8 quad (omega arith)) (
      IsCalm-bind (ok_or (mf_read (4 * quad)) _) _ (ok_or-IsCalm (mf_read (4 * quad)) _) λ c.
        if-IsCalm (is_done (add_data p c)) _ _ tt (
          if-IsCalm (quad == 2 && not (has_started (add_data p c))) _ _ tt
            (read_quads-IsCalm n (quad + 1) (add_data p c) (omega arith))))

module _ {U Text : Type 0} (from_utf8 : Bytes → Result Text U) (empty : Text) where
  -- A size byte of any value leaves the block addresses in a byte, and no content of the blocks
  -- makes the reader or the parsers panic, as long as block reads have at least three bytes.
  pub read_ndef_text-ne-panicked :
      (mf_read : ℕ → Option Bytes)
      → ((block : ℕ) (bytes : Bytes) → mf_read block ≡ some bytes → 2 < length bytes)
      → read_ndef_text from_utf8 empty mf_read ≢ panicked
  unfolding read_ndef_text
  read_ndef_text-ne-panicked mf_read wide e = rw e at (calm (Option-cases (mf_read 3)))
    where
      calm :
          (mf_read 3 ≡ none) ⊎ ((a : Bytes) × (mf_read 3 ≡ some a))
          → IsCalm (read_ndef_text from_utf8 empty mf_read)
      calm (inl no_container) = rw no_container tt
      calm (inr (bytes, container)) = rw container (
          IsCalm-bind (index_at bytes 2) _ (index_at-IsCalm _ bytes 2 (wide 3 bytes container))
            λ size.
              IsCalm-bind (read_quads mf_read (total_quads size) 1 new) _
                (read_quads-IsCalm U mf_read (total_quads size) 1 new
                  (omega (arith, total_quads-le size)))
                λ p.
                  IsCalm-bind (return_err_if (not (is_done p)) message_incomplete) _
                    (return_err_if-IsCalm (not (is_done p)) message_incomplete)
                    λ _.
                      IsCalm-bind (map_ndef (parse_ndef_text_record p.bytes)) _
                        (map_ndef-IsCalm (parse_ndef_text_record p.bytes)
                          (parse-ne-panicked U p.bytes))
                        λ r. map_text-IsCalm (text from_utf8 empty r))
