-- ===== src/Nfc/Message/Limits.antt =====
-- Streams on which the parser does not do what its documentation says.
use bloop_client_framework.Base.{
  ℕ, ◌+◌, ◌<◌, true, false, List, [], ◌∷◌, ◌++◌, Bytes, length, length-append, append_assoc,
  append-nil, All, ◌≡◌, ◌≢◌, refl, ◌∙◌, arith,
}
use bloop_client_framework.Nfc.Message.{next, new, is_done, in_state, step, add_data}
use bloop_client_framework.Nfc.Message.Tlv.{reading, add_data-skip}
use bloop_client_framework.Nfc.Message.Feed.{feed}

-- Where a chunk ends behind the first of the two length bytes, and that byte is 0 (so in the TLV
-- of a message of 255 bytes), feeding until `is_done` stops there, with no byte of the message.
pub feed_premature :
    (pre : Bytes) (cs : List Bytes)
    → All (λ b. b ≢ 3) pre
    → (is_done (feed new ((pre ++ 3 ∷ 255 ∷ 0 ∷ []) ∷ cs)) ≡ true)
      × ((feed new ((pre ++ 3 ∷ 255 ∷ 0 ∷ []) ∷ cs)).bytes ≡ [])
unfolding feed add_data in_state new is_done
feed_premature pre cs skip = rw (add_data-skip pre (3 ∷ 255 ∷ 0 ∷ []) skip) (refl, refl)

step-overrun :
    (got : Bytes) (b : ℕ)
    → length got < 4294967295
    → step (reading 0 got) b ≡ next (reading 0 (got ++ b ∷ []))
unfolding in_state
step-overrun got b h = ground (arith, length-append got (b ∷ []))

add_data-overrun :
    (got rest : Bytes)
    → length got + length rest < 4294967296
    → add_data (reading 0 got) rest ≡ reading 0 (got ++ rest)
unfolding add_data
add_data-overrun got [] h = rw append-nil
add_data-overrun got (b ∷ rest) h =
    rw (step-overrun got b (omega arith), add_data)
      (add_data-overrun (got ++ b ∷ []) rest (omega (arith, length-append got (b ∷ [])))
        ∙ rw append_assoc)

-- An empty message is never reported as done once a byte follows its TLV in the same chunk.
pub add_data-empty_message :
    (pre : Bytes) (b : ℕ) (rest : Bytes)
    → All (λ b. b ≢ 3) pre
    → length rest < 4294967295
    → is_done (add_data new (pre ++ 3 ∷ 0 ∷ b ∷ rest)) ≡ false
unfolding add_data in_state new is_done
add_data-empty_message pre b rest skip h =
    rw (add_data-skip pre (3 ∷ 0 ∷ b ∷ rest) skip)
      (rw (add_data-overrun (b ∷ []) rest (omega arith)) (ground arith))

-- In front of the message, the length byte 3 of another TLV is taken for the message's tag, and
-- the byte behind it for the message's length.
pub add_data-other_tlv :
    (t v : ℕ) (rest : Bytes)
    → t ≢ 3
    → v ≢ 255
    → add_data new (t ∷ 3 ∷ v ∷ rest) ≡ add_data (reading v []) rest
unfolding add_data in_state new
add_data-other_tlv t v rest ne short = ground arith
