-- ===== src/Nfc/Record/Text.antt =====
-- `NdefTextRecord::text`: the text behind the language code.
use bloop_client_framework.Base.{
  ℕ, suc, ◌+◌, ◌%◌, ◌<◌, true, false, ◌∷◌, ◌++◌, leb, Bytes, length, drop, Result, ok, err, ◌≡◌,
  refl, sym, ◌∙◌, arith, length-append, drop-length_append,
}
use bloop_client_framework.Base.Bits.{mask_63}
use bloop_client_framework.Nfc.Record.{
  NdefError, truncated, invalid_utf8, text_payload_part, text, text_of,
}

module _ {U Text : Type 0} (from_utf8 : Bytes → Result Text U) (empty : Text) where
  abbrev pub decoded : Bytes → Result Text (NdefError U)
  decoded bytes = elim (from_utf8 bytes) [ ok t ↦ ok t | err e ↦ err (invalid_utf8 e) ]

  -- A language code as long as the low six bits of the status byte say is stripped, and the rest is
  -- decoded, whatever the other bits are.
  pub text-language_code :
      (status : ℕ) (code body : Bytes)
      → length code ≡ status % 64
      → text from_utf8 empty (record { value = status ∷ (code ++ body) }) ≡ decoded body
  unfolding text
  text-language_code status code body e =
      rw (mask_63 status ∙ sym e, text_of) (rw (inside, behind) refl)
    where
      inside : leb (length code + 1) (length (status ∷ (code ++ body))) ≡ true
      inside = ground (arith, length-append code body)

      behind : drop (length code + 1) (status ∷ (code ++ body)) ≡ body
      behind = rw (one_more (length code)) (drop-length_append code body)
        where
          one_more : (n : ℕ) → n + 1 ≡ suc n
          one_more n = omega arith

  -- A language code that would reach behind the payload is an error, and no panic.
  pub text-hostile_code :
      (status : ℕ) (body : Bytes)
      → length body < status % 64
      → text from_utf8 empty (record { value = status ∷ body }) ≡ err (truncated text_payload_part)
  unfolding text
  text-hostile_code status body h = rw (mask_63 status, text_of) (rw outside refl)
    where
      outside : leb (status % 64 + 1) (length (status ∷ body)) ≡ false
      outside = ground arith
