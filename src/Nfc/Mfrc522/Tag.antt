-- ===== src/Nfc/Mfrc522/Tag.antt =====
-- From the memory of a tag to its text.
use bloop_client_framework.Base.{
  ℕ, ◌%◌, ◌<◌, Bool, true, List, ◌∷◌, ◌++◌, Option, some, Bytes, length, get_elem?, flatten, All,
  is_some, returned, Result, ◌≡◌, ◌≢◌, ◌∙◌, ap, arith,
}
use bloop_client_framework.Nfc.Message.{new, is_done}
use bloop_client_framework.Nfc.Message.Tlv.{message_tlv, reading}
use bloop_client_framework.Nfc.Message.Feed.{feed, feed-message_tlv}
use bloop_client_framework.Nfc.Record.{◌>>=◌, index_at, parse_ndef_text_record, text}
use bloop_client_framework.Nfc.Record.Layout.{text_record_bytes, IsFlags, parse-text_record_bytes}
use bloop_client_framework.Nfc.Record.Text.{decoded, text-language_code}
use bloop_client_framework.Nfc.Mfrc522.{map_ndef, map_text, total_quads, read_quads, read_ndef_text}
use bloop_client_framework.Nfc.Mfrc522.Quads.{Holds, StartsEarly, total_quads-le, read_quads-feed}

-- A tag of type 2: the capability container in block 3, and from block 4 on chunks that hold, behind
-- any bytes but 3, the message TLV with these bytes.
pub record HoldsMessage (mf_read : ℕ → Option Bytes) (msg : Bytes) : Type 0 where
  pub capabilities : Bytes
  pub size : ℕ
  pub container : mf_read 3 ≡ some capabilities
  pub size_byte : get_elem? capabilities 2 ≡ some size
  pub chunks : List Bytes
  pub count : length chunks ≡ total_quads size
  pub blocks : Holds mf_read 1 chunks
  pub early : StartsEarly chunks
  pub pre : Bytes
  pub rest : Bytes
  pub no_tag : All (λ b. b ≢ 3) pre
  pub layout : flatten chunks ≡ pre ++ (message_tlv msg ++ rest)
  pub not_empty : 0 < length msg
  pub not_255 : length msg ≢ 255
  pub in_field : length msg < 65536

module _ {U Text : Type 0} (from_utf8 : Bytes → Result Text U) (empty : Text) where
  -- The bytes that reach the record parser are those of the message.
  read_ndef_text-message :
      {mf_read : ℕ → Option Bytes} {msg : Bytes}
      → HoldsMessage mf_read msg
      → read_ndef_text from_utf8 empty mf_read
        ≡ (map_ndef (parse_ndef_text_record msg) >>= λ r. map_text (text from_utf8 empty r))
  unfolding read_ndef_text
  read_ndef_text-message {mf_read} {msg} t =
      rw t.container (rw (t.size_byte, index_at) (rw (← t.count) (rw (loop, fed.0) (rw fed_done))))
    where
      fed : (feed new t.chunks ≡ reading (length msg) msg) × (is_done (feed new t.chunks) ≡ true)
      fed =
          feed-message_tlv t.chunks t.pre msg t.rest t.layout t.no_tag t.not_empty t.not_255
            t.in_field

      fed_done : is_done (reading (length msg) msg) ≡ true
      fed_done = rw fed.0 at fed.1

      loop : read_quads {U = U} mf_read (length t.chunks) 1 new ≡ returned (feed new t.chunks)
      loop =
          read_quads-feed mf_read t.chunks (omega (arith, t.count, total_quads-le t.size)) t.blocks
            t.early

  -- A tag that holds a text record with a language code yields the decoded text behind the code,
  -- whatever the length form, the ID, the padding in front and the bytes behind are; all its quads are
  -- readable, a tag byte stands in the first two, and the record is not of 255 bytes.
  pub read_ndef_text-text_record :
      {mf_read : ℕ → Option Bytes} (flags : ℕ) (short : Bool) (id : Option Bytes) (status : ℕ)
      (code body tail : Bytes)
      → IsFlags flags short (is_some id)
      → length code ≡ status % 64
      → HoldsMessage mf_read (text_record_bytes flags short id (status ∷ (code ++ body)) tail)
      → read_ndef_text from_utf8 empty mf_read ≡ map_text (decoded from_utf8 empty body)
  read_ndef_text-text_record flags short id status code body tail f e t =
      read_ndef_text-message t
      ∙ rw (parse-text_record_bytes {U = U} flags short id (status ∷ (code ++ body)) tail f)
          (ap map_text (text-language_code from_utf8 empty status code body e))
