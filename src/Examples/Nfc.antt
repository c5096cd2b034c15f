-- ===== src/Examples/Nfc.antt =====
-- A tag, and the parsers of src/nfc on it and on other bytes.
use bloop_client_framework.Base.{
  ℕ, true, false, [], ◌∷◌, Option, none, some, ◌==◌, if◌then◌else◌, Bytes, length, returned,
  panicked, Result, ok, err, ◌≡◌, ◌≢◌, refl, arith,
}
use bloop_client_framework.Nfc.Message.{new, is_done, add_data}
use bloop_client_framework.Nfc.Message.Tlv.{reading}
use bloop_client_framework.Nfc.Message.Feed.{feed, feed-message_tlv}
use bloop_client_framework.Nfc.Message.Limits.{
  feed_premature, add_data-empty_message, add_data-other_tlv,
}
use bloop_client_framework.Nfc.Record.{parse_ndef_text_record}
use bloop_client_framework.Nfc.Record.Grammar.{grammar, parse-grammar}
use bloop_client_framework.Nfc.Record.Layout.{
  text_record_bytes, IsFlags, IsTextRecord, parse-text_record_bytes,
}
use bloop_client_framework.Nfc.Record.Sound.{parse-IsTextRecord}
use bloop_client_framework.Nfc.Record.Text.{decoded}
use bloop_client_framework.Nfc.Mfrc522.{map_text, total_quads, read_ndef_text}
use bloop_client_framework.Nfc.Mfrc522.Tag.{HoldsMessage, read_ndef_text-text_record}
use bloop_client_framework.Nfc.Mfrc522.Safety.{read_ndef_text-ne-panicked}

-- A decoder that refuses bytes from 128 on at the front, and keeps all else as it is.
abbrev pub ascii : Bytes → Result Bytes ℕ
ascii [] = ok []
ascii (b ∷ bytes) = if b == 128 then err 0 else ok (b ∷ bytes)

-- The text "bloop-0042" in English.
abbrev pub english : Bytes
english = 101 ∷ 110 ∷ []

abbrev pub body : Bytes
body = 98 ∷ 108 ∷ 111 ∷ 111 ∷ 112 ∷ 45 ∷ 48 ∷ 48 ∷ 52 ∷ 50 ∷ []

abbrev payload : Bytes
payload = 2 ∷ 101 ∷ 110 ∷ body

abbrev pub text_record : Bytes
text_record = text_record_bytes 209 true none payload []

abbrev first_quad : Bytes
first_quad = 0 ∷ 3 ∷ 17 ∷ 209 ∷ 1 ∷ 13 ∷ 84 ∷ 2 ∷ 101 ∷ 110 ∷ 98 ∷ 108 ∷ 111 ∷ 111 ∷ 112 ∷ 45 ∷ []

abbrev padding : Bytes
padding = 254 ∷ 0 ∷ 0 ∷ 0 ∷ 0 ∷ 0 ∷ 0 ∷ 0 ∷ 0 ∷ 0 ∷ 0 ∷ 0 ∷ []

abbrev second_quad : Bytes
second_quad = 48 ∷ 48 ∷ 52 ∷ 50 ∷ padding

-- A tag with 32 bytes of data.
abbrev pub tag : ℕ → Option Bytes
tag block =
    if block == 3
    then some (225 ∷ 16 ∷ 4 ∷ 0 ∷ [])
    else if block == 4
    then some first_quad
    else if block == 8
    then some second_quad
    else none

-- A tag of which every block reads the same four bytes, with the greatest size.
abbrev full_tag : ℕ → Option Bytes
full_tag block = some (0 ∷ 3 ∷ 255 ∷ 255 ∷ [])

pub tag-HoldsMessage : HoldsMessage tag text_record
unfolding total_quads
tag-HoldsMessage = record {
  capabilities = 225 ∷ 16 ∷ 4 ∷ 0 ∷ [];
  size = 4;
  container = refl;
  size_byte = refl;
  chunks = first_quad ∷ second_quad ∷ [];
  count = refl;
  blocks = (refl, (refl, tt));
  early = refl;
  pre = 0 ∷ [];
  rest = padding;
  no_tag = (omega arith, tt);
  layout = refl;
  not_empty = omega arith;
  not_255 = omega arith;
  in_field = omega arith;
}

pub short_text-IsFlags : IsFlags 209 true false
short_text-IsFlags = record { whole = refl; short_bit = refl; id_bit = refl; well_known = refl }

read_ndef_text-text_record_example : read_ndef_text ascii [] tag ≡ map_text (decoded ascii [] body)
read_ndef_text-text_record_example =
    read_ndef_text-text_record ascii [] 209 true none 2 english body [] short_text-IsFlags refl
      tag-HoldsMessage

read_ndef_text-ne-panicked_example : read_ndef_text ascii [] full_tag ≢ panicked
read_ndef_text-ne-panicked_example =
    read_ndef_text-ne-panicked ascii [] full_tag λ block bytes e. ground arith

parse-grammar_example : parse_ndef_text_record {U = ℕ} text_record ≡ grammar text_record
parse-grammar_example = parse-grammar text_record

parse-text_record_bytes_example :
    parse_ndef_text_record {U = ℕ} (text_record_bytes 209 true none payload padding)
    ≡ returned (record { value = payload })
parse-text_record_bytes_example =
    parse-text_record_bytes 209 true none payload padding short_text-IsFlags

parse-IsTextRecord_example : IsTextRecord text_record payload
parse-IsTextRecord_example =
    parse-IsTextRecord {U = ℕ} text_record (ground arith)
      (parse-text_record_bytes 209 true none payload [] short_text-IsFlags)

feed-message_tlv_example :
    (feed new (first_quad ∷ second_quad ∷ []) ≡ reading (length text_record) text_record)
    × (is_done (feed new (first_quad ∷ second_quad ∷ [])) ≡ true)
feed-message_tlv_example =
    feed-message_tlv (first_quad ∷ second_quad ∷ []) (0 ∷ []) text_record padding refl
      (omega arith, tt) (omega arith) (omega arith) (omega arith)

feed_premature_example :
    (is_done (feed new ((0 ∷ 3 ∷ 255 ∷ 0 ∷ []) ∷ first_quad ∷ [])) ≡ true)
    × ((feed new ((0 ∷ 3 ∷ 255 ∷ 0 ∷ []) ∷ first_quad ∷ [])).bytes ≡ [])
feed_premature_example = feed_premature (0 ∷ []) (first_quad ∷ []) (omega arith, tt)

add_data-empty_message_example : is_done (add_data new (0 ∷ 3 ∷ 0 ∷ 254 ∷ 0 ∷ [])) ≡ false
add_data-empty_message_example =
    add_data-empty_message (0 ∷ []) 254 (0 ∷ []) (omega arith, tt) (omega arith)

-- A lock control TLV in front of the message.
add_data-other_tlv_example :
    add_data new (1 ∷ 3 ∷ 160 ∷ 16 ∷ 68 ∷ first_quad)
    ≡ add_data (reading 160 []) (16 ∷ 68 ∷ first_quad)
add_data-other_tlv_example =
    add_data-other_tlv 1 160 (16 ∷ 68 ∷ first_quad) (omega arith) (omega arith)
