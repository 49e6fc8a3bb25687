-- ===== src/Wire.antt =====
-- Frames of the debug protocol: the byte codecs of tools/viewer/web/app.js. A byte is a number;
-- an entry past the end of an array reads as `undefined`, which the bit operations take for 0.
pub mod Fields
pub mod Offsets
pub mod Xor
use open_fpgastudio.Base.{
  ℕ, ◌+◌, ◌*◌, ◌%◌, ◌^◌, ◌<◌, bit_or, bit_xor, List, [], ◌∷◌, ◌++◌, length, get_or, shl, shr,
  to_u32, All,
}

abbrev pub sof : ℕ
sof = 0xA5

abbrev pub version : ℕ
version = 1

abbrev pub max_payload : ℕ
max_payload = 32

abbrev pub IsByte : ℕ → Type 0
IsByte b = b < 256

abbrev pub byte_at : List ℕ → ℕ → ℕ
byte_at payload offset = get_or payload offset 0

-- `bytes.reduce((acc, value) => acc ^ value, acc)`
unfoldable pub xor_all : ℕ → List ℕ → ℕ
xor_all acc [] = acc
xor_all acc (b ∷ bs) = xor_all (bit_xor acc b) bs

unfoldable pub checksum : List ℕ → ℕ
unfolding xor_all
checksum bytes = xor_all 0 bytes % 2 ^ 8

unfoldable pub u16 : List ℕ → ℕ → ℕ
u16 payload offset = bit_or (byte_at payload offset) (shl (byte_at payload (offset + 1)) 8)

unfoldable pub u32 : List ℕ → ℕ → ℕ
u32 payload offset = to_u32 (
    bit_or
      (bit_or (bit_or (byte_at payload offset) (shl (byte_at payload (offset + 1)) 8))
        (shl (byte_at payload (offset + 2)) 16))
      (shl (byte_at payload (offset + 3)) 24))

unfoldable pub push_u16 : List ℕ → ℕ → List ℕ
push_u16 target value = target ++ to_u32 value % 2 ^ 8 ∷ shr value 8 % 2 ^ 8 ∷ []

unfoldable pub push_u32 : List ℕ → ℕ → List ℕ
push_u32 target value =
    target
    ++ to_u32 value % 2 ^ 8 ∷ shr value 8 % 2 ^ 8 ∷ shr value 16 % 2 ^ 8 ∷ shr value 24 % 2 ^ 8 ∷ []

-- `frame`
unfoldable pub frame : ℕ → List ℕ → List ℕ
unfolding checksum
frame type payload =
    let header_and_payload = version ∷ type ∷ length payload ∷ payload in
    sof ∷ header_and_payload ++ checksum header_and_payload ∷ []
