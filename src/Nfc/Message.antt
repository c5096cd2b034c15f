-- ===== src/Nfc/Message.antt =====
-- src/nfc/ndef.rs: `NdefMessageParser`, the incremental parser of a tag's TLV stream. An `i32` is
-- its bit pattern, a number below 2 ^ 32; a `Vec<u8>` is the list of its bytes.
pub mod Tlv
pub mod Feed
pub mod Started
pub mod Limits
use Prim.Native.Nat.{bit_or}
use bloop_client_framework.Base.{
  ℕ, ◌+◌, ◌-◌, ◌*◌, ◌%◌, ◌^◌, Bool, true, false, not, List, [], ◌∷◌, ◌++◌, ◌==◌, if◌then◌else◌,
  Bytes, length,
}

pub data State : Type 0 where
  init length_state value : State

pub record NdefMessageParser : Type 0 where
  pub state : State
  pub len : ℕ  -- the field `length`, an i32
  pub bytes : Bytes  -- the field `data`

abbrev i32_mod : ℕ
i32_mod = 4294967296

-- The bit pattern of -n, for 0 < n.
abbrev pub i32_neg : ℕ → ℕ
i32_neg n = i32_mod - n

abbrev pub as_i32 : ℕ → ℕ
as_i32 n = n % i32_mod

unfoldable pub shl_i32 : ℕ → ℕ
shl_i32 n = as_i32 (256 * n)

unfoldable pub new : NdefMessageParser
new = record { state = init; len = i32_neg 1; bytes = [] }

unfoldable pub is_done : NdefMessageParser → Bool
is_done p = as_i32 (length p.bytes) == p.len

unfoldable pub has_started : NdefMessageParser → Bool
has_started p = elim p.state [ init ↦ false | _ ↦ true ]

-- What one round of the loop in `add_data` does next: `continue` or `return`.
pub data Flow : Type 0 where
  next : NdefMessageParser → Flow
  stop : NdefMessageParser → Flow

init_byte : NdefMessageParser → ℕ → Flow
init_byte p byte =
    if byte == 0x00
    then next p
    else if byte == 0x03
    then next (record p { state = length_state })
    else next p

length_byte : NdefMessageParser → ℕ → Flow
unfolding shl_i32
length_byte p byte =
    if p.len == i32_neg 1
    then if byte == 0xff
      then next (record p { len = i32_neg 2 })
      else next (record p { len = byte; state = value })
    else if p.len == i32_neg 2
    then next (record p { len = byte })
    else next (record p { len = bit_or (shl_i32 p.len) byte; state = value })

value_byte : NdefMessageParser → ℕ → Flow
value_byte p byte =
    let q = record p { bytes = p.bytes ++ byte ∷ [] } in
    if as_i32 (length q.bytes) == q.len then stop q else next q

unfoldable pub in_state : State → NdefMessageParser → ℕ → Flow
unfolding init_byte length_byte value_byte
in_state init p byte = init_byte p byte
in_state length_state p byte = length_byte p byte
in_state value p byte = value_byte p byte

abbrev pub step : NdefMessageParser → ℕ → Flow
step p = in_state p.state p

unfoldable pub add_data : NdefMessageParser → Bytes → NdefMessageParser
add_data p [] = p
add_data p (byte ∷ bytes) = elim (step p byte) [ next q ↦ add_data q bytes | stop q ↦ q ]
