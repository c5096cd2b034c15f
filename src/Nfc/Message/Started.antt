-- ===== src/Nfc/Message/Started.antt =====
-- When the parser has seen the start of a message.
use bloop_client_framework.Base.{
  ℕ, Bool, true, false, ◌||◌, [], ◌∷◌, ◌==◌, Bytes, ◌≡◌, refl, ◌∙◌, arith,
}
use bloop_client_framework.Nfc.Message.{
  NdefMessageParser, Flow, next, stop, has_started, in_state, step, add_data,
}

abbrev pub holds_tag : Bytes → Bool
holds_tag [] = false
holds_tag (b ∷ bs) = b == 3 || holds_tag bs

abbrev HasStarted : NdefMessageParser → ℕ → Flow → Type 0
HasStarted p b (next q) = has_started q ≡ (has_started p || b == 3)
HasStarted p b (stop q) = (has_started q ≡ true) × (has_started p ≡ true)

step-HasStarted : (p : NdefMessageParser) (b : ℕ) → HasStarted p b (step p b)
unfolding in_state has_started
step-HasStarted p b = ground arith

after :
    (p : NdefMessageParser) (b : ℕ) (bs : Bytes) (f : Flow)
    → HasStarted p b f
    → ((q : NdefMessageParser) → has_started (add_data q bs) ≡ (has_started q || holds_tag bs))
    → has_started (elim f [ next q ↦ add_data q bs | stop q ↦ q ])
      ≡ (has_started p || (b == 3 || holds_tag bs))
after p b bs (next q) h ih = ih q ∙ rw h (or_assoc (has_started p) (b == 3) (holds_tag bs))
  where
    or_assoc : (x y z : Bool) → (x || y || z) ≡ (x || (y || z))
    or_assoc true y z = refl
    or_assoc false y z = refl
after p b bs (stop q) h ih = rw (h.0, h.1)

-- Exactly a byte 3 takes the parser out of its first state, and nothing takes it back.
pub has_started-add_data :
    (p : NdefMessageParser) (bs : Bytes)
    → has_started (add_data p bs) ≡ (has_started p || holds_tag bs)
unfolding add_data
has_started-add_data p [] = or_false (has_started p)
  where
    or_false : (x : Bool) → x ≡ (x || false)
    or_false true = refl
    or_false false = refl
has_started-add_data p (b ∷ bs) =
    after p b bs (step p b) (step-HasStarted p b) (λ q. has_started-add_data q bs)
