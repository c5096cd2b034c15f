-- ===== src/Nfc/Message/Tlv.antt =====
-- The message TLV of a stream, described by what writes it, and its reading in one call.
use bloop_client_framework.Base.{
  ℕ, ◌+◌, ◌/◌, ◌%◌, ◌<◌, true, [], ◌∷◌, ◌++◌, ltb, if◌then◌else◌, Bytes, length, length-append,
  append_assoc, All, ◌≡◌, ◌≢◌, refl, ◌∙◌, arith,
}
use bloop_client_framework.Base.Bits.{bit_or-byte}
use bloop_client_framework.Nfc.Message.{
  value, NdefMessageParser, next, stop, new, is_done, in_state, step, add_data,
}

-- The length field of a TLV: one byte below 255, else the mark 255 and two bytes.
abbrev pub length_field : ℕ → Bytes
length_field n = if ltb n 255 then n ∷ [] else 255 ∷ (n / 256) ∷ (n % 256) ∷ []

abbrev pub message_tlv : Bytes → Bytes
message_tlv msg = 3 ∷ (length_field (length msg) ++ msg)

-- The parser in the state `value` with `n` bytes announced.
abbrev pub reading : ℕ → Bytes → NdefMessageParser
reading n got = record { state = value; len = n; bytes = got }

pub add_data-skip :
    (pre rest : Bytes) → All (λ b. b ≢ 3) pre → add_data new (pre ++ rest) ≡ add_data new rest
unfolding add_data in_state new
add_data-skip [] rest h = refl
add_data-skip (b ∷ pre) rest h = ground (arith, add_data-skip pre rest h.1)

add_data-length_field :
    (n : ℕ) (rest : Bytes)
    → n < 65536
    → add_data new (3 ∷ (length_field n ++ rest)) ≡ add_data (reading n []) rest
unfolding add_data in_state new
add_data-length_field n rest h = ground (arith, bit_or-byte (n / 256) (n % 256))

-- One byte of the value: the last one stops the loop, any other is kept.
pub step-last :
    (n : ℕ) (got : Bytes) (b : ℕ)
    → n < 65536
    → length got + 1 ≡ n
    → step (reading n got) b ≡ stop (reading n (got ++ b ∷ []))
unfolding in_state
step-last n got b h e = ground (arith, length-append got (b ∷ []))

pub step-more :
    (n : ℕ) (got : Bytes) (b : ℕ)
    → n < 65536
    → length got + 1 < n
    → step (reading n got) b ≡ next (reading n (got ++ b ∷ []))
unfolding in_state
step-more n got b h e = ground (arith, length-append got (b ∷ []))

add_data-value :
    (n : ℕ) (got msg rest : Bytes)
    → n < 65536
    → length got + length msg ≡ n
    → 0 < length msg
    → add_data (reading n got) (msg ++ rest) ≡ reading n (got ++ msg)
unfolding add_data
add_data-value n got [] rest h e pos = absurd (omega arith)
add_data-value n got (b ∷ []) rest h e pos = rw (step-last n got b h (omega arith), add_data)
add_data-value n got (b ∷ c ∷ msg) rest h e pos =
    rw (step-more n got b h (omega arith), add_data)
      (add_data-value n (got ++ b ∷ []) (c ∷ msg) rest h (omega (arith, length-append got (b ∷ [])))
          (omega arith)
        ∙ rw append_assoc)

-- Behind any bytes but 3 the parser finds the TLV of a message of 1 to 65535 bytes, in the short or
-- the long form of the length, and holds the message when it is done, whatever stands behind it.
pub add_data-message_tlv :
    (pre msg rest : Bytes)
    → All (λ b. b ≢ 3) pre
    → 0 < length msg
    → length msg < 65536
    → (add_data new (pre ++ (message_tlv msg ++ rest)) ≡ reading (length msg) msg)
      × (is_done (add_data new (pre ++ (message_tlv msg ++ rest))) ≡ true)
unfolding is_done
add_data-message_tlv pre msg rest skip pos short = (whole, rw whole (ground arith))
  where
    whole : add_data new (pre ++ (message_tlv msg ++ rest)) ≡ reading (length msg) msg
    whole =
        add_data-skip pre (message_tlv msg ++ rest) skip
        ∙ rw (append_assoc (length_field (length msg)) msg rest) (
            add_data-length_field (length msg) (msg ++ rest) short
            ∙ add_data-value (length msg) [] msg rest short (omega arith) pos)
