-- ===== src/Nfc/Mfrc522/Quads.antt =====
-- The loop over the quads of a tag feeds the parser with their blocks, until it is done.
use bloop_client_framework.Base.{
  ℕ, suc, ◌+◌, ◌*◌, ◌<◌, ◌≤◌, Bool, true, false, not, ◌&&◌, ◌||◌, List, [], ◌∷◌, Option, some, ◌==◌,
  ltb, Bytes, length, returned, ◌≡◌, refl, ◌∙◌, arith, Bool-cases, inl, inr,
}
use bloop_client_framework.Nfc.Message.{NdefMessageParser, new, is_done, has_started, add_data}
use bloop_client_framework.Nfc.Message.Feed.{feed}
use bloop_client_framework.Nfc.Message.Started.{holds_tag, has_started-add_data}
use bloop_client_framework.Nfc.Mfrc522.{total_quads, read_quads}

-- The blocks of the quads from `quad` on are readable, and hold these chunks.
abbrev pub Holds : (ℕ → Option Bytes) → ℕ → List Bytes → Type 0
Holds mf_read quad [] = Unit
Holds mf_read quad (c ∷ cs) = (mf_read (4 * quad) ≡ some c) × Holds mf_read (quad + 1) cs

-- In the first two quads the start of a message is seen, or the message ends.
abbrev Passes : ℕ → NdefMessageParser → List Bytes → Type 0
Passes quad p [] = Unit
Passes quad p (c ∷ cs) =
    (quad ≡ 2 → (is_done (add_data p c) || has_started (add_data p c)) ≡ true)
    × Passes (quad + 1) (add_data p c) cs

-- One of the first two chunks, where there are two, has the tag byte 3.
abbrev pub StartsEarly : List Bytes → Type 0
StartsEarly (c₁ ∷ c₂ ∷ _) = (holds_tag c₁ || holds_tag c₂) ≡ true
StartsEarly _ = Unit

Passes-later : (quad : ℕ) (p : NdefMessageParser) (cs : List Bytes) → 2 < quad → Passes quad p cs
Passes-later quad p [] h = tt
Passes-later quad p (c ∷ cs) h =
    (λ e. absurd (omega arith), Passes-later (quad + 1) (add_data p c) cs (omega arith))

or_true : (x y : Bool) → y ≡ true → (x || y) ≡ true
or_true true y e = refl
or_true false y e = e

Passes-StartsEarly : (cs : List Bytes) → StartsEarly cs → Passes 1 new cs
unfolding new
Passes-StartsEarly [] h = tt
Passes-StartsEarly (c₁ ∷ []) h = (λ e. absurd (omega arith), tt)
Passes-StartsEarly (c₁ ∷ c₂ ∷ cs) h =
    (λ e. absurd (omega arith), (λ _. started, Passes-later 3 _ cs (omega arith)))
  where
    tag : has_started (add_data (add_data new c₁) c₂) ≡ true
    tag =
        rw (has_started-add_data (add_data new c₁) c₂, has_started-add_data new c₁)
          (unfold has_started in h)

    started :
        (is_done (add_data (add_data new c₁) c₂) || has_started (add_data (add_data new c₁) c₂))
        ≡ true
    started = or_true _ _ tag

pub total_quads-le : (size : ℕ) → total_quads size ≤ 63
unfolding total_quads
total_quads-le size = omega arith

pub quad_in_u8 : (quad : ℕ) → quad < 64 → ltb (4 * quad) 256 ≡ true
quad_in_u8 quad h = ground arith

module _ {U : Type 0} (mf_read : ℕ → Option Bytes) where
  read_quads-done :
      (n quad : ℕ) (p : NdefMessageParser) (c : Bytes)
      → quad < 64
      → mf_read (4 * quad) ≡ some c
      → is_done (add_data p c) ≡ true
      → read_quads {U = U} mf_read (suc n) quad p ≡ returned (add_data p c)
  unfolding read_quads
  read_quads-done n quad p c h r d = rw (quad_in_u8 quad h, r) (rw d)

  read_quads-next :
      (n quad : ℕ) (p : NdefMessageParser) (c : Bytes)
      → quad < 64
      → mf_read (4 * quad) ≡ some c
      → is_done (add_data p c) ≡ false
      → (quad == 2 && not (has_started (add_data p c))) ≡ false
      → read_quads {U = U} mf_read (suc n) quad p ≡ read_quads mf_read n (quad + 1) (add_data p c)
  unfolding read_quads
  read_quads-next n quad p c h r d s = rw (quad_in_u8 quad h, r) (rw (d, s))

  read_quads-Passes :
      (cs : List Bytes) (quad : ℕ) (p : NdefMessageParser)
      → quad + length cs ≤ 64
      → Holds mf_read quad cs
      → Passes quad p cs
      → read_quads {U = U} mf_read (length cs) quad p ≡ returned (feed p cs)
  unfolding feed
  read_quads-Passes [] quad p h reads passes = unfold read_quads in refl
  read_quads-Passes (c ∷ cs) quad p h reads passes = elim (Bool-cases (is_done (add_data p c))) [
    | inl done ↦ read_quads-done (length cs) quad p c (omega arith) reads.0 done ∙ rw done
    | inr more ↦
        read_quads-next (length cs) quad p c (omega arith) reads.0 more (ground (arith, passes.0))
        ∙ read_quads-Passes cs (quad + 1) (add_data p c) (omega arith) reads.1 passes.1
        ∙ rw more
  ]

  pub read_quads-feed :
      (cs : List Bytes)
      → length cs ≤ 63
      → Holds mf_read 1 cs
      → StartsEarly cs
      → read_quads {U = U} mf_read (length cs) 1 new ≡ returned (feed new cs)
  read_quads-feed cs h reads early =
      read_quads-Passes cs 1 new (omega arith) reads (Passes-StartsEarly cs early)
