-- ===== src/Common/Base64.antt =====
-- common/Base64.hpp. A byte is a number below 256.
pub mod RoundTrip
use neuro_mesh.Prelude.{
  ℕ, zero, suc, ◌+◌, ◌-◌, ◌*◌, ◌/◌, ◌%◌, ◌^◌, Bool, true, false, ◌&&◌, ◌||◌, not, Option, none,
  some, List, [], ◌∷◌, ◌++◌, Text, is_empty, if◌then◌else◌, ltb, leb, ◌==◌, length,
}

-- `chars[n]`
unfoldable pub char_of : ℕ → ℕ
char_of n =
    if ltb n 26
    then b'A' + n
    else if ltb n 52
    then b'a' + (n - 26)
    else if ltb n 62
    then b'0' + (n - 52)
    else if n == 62
    then b'+'
    else b'/'

-- The loop over three bytes, and what follows it for the one or two that are left. The bytes are
-- put together with `/ 4` for `>> 2`, `% 4 * 16` for `(b & 0x03) << 4` and so on.
unfoldable pub base64_encode : Text → Text
unfolding char_of
base64_encode [] = []
base64_encode (a ∷ []) = char_of (a / 4) ∷ char_of (a % 4 * 16) ∷ b'=' ∷ b'=' ∷ []
base64_encode (a ∷ b ∷ []) =
    char_of (a / 4) ∷ char_of (a % 4 * 16 + b / 16) ∷ char_of (b % 16 * 4) ∷ b'=' ∷ []
base64_encode (a ∷ b ∷ c ∷ data_left) =
    char_of (a / 4)
    ∷ char_of (a % 4 * 16 + b / 16)
    ∷ char_of (b % 16 * 4 + c / 64)
    ∷ char_of (c % 64)
    ∷ base64_encode data_left

-- `NONE`, the value on success, is the case `bytes` of `Decoded` below.
pub data Base64Error : Type 0 where
  invalid_char : Base64Error
  invalid_length : Base64Error

-- `lookup[c]`, `none` for -1 and for a byte of 128 and more.
unfoldable pub lookup_char : ℕ → Option ℕ
lookup_char c =
    if leb b'A' c && leb c b'Z'
    then some (c - b'A')
    else if leb b'a' c && leb c b'z'
    then some (c - b'a' + 26)
    else if leb b'0' c && leb c b'9'
    then some (c - b'0' + 52)
    else if c == b'+'
    then some 62
    else if c == b'/'
    then some 63
    else none

pub data Decoded : Type 0 where
  bytes : Text → Decoded
  error : Base64Error → Decoded

unfoldable pub prepend : Option ℕ → Decoded → Decoded
prepend none d = d
prepend (some byte) (Decoded.bytes out) = Decoded.bytes (byte ∷ out)
prepend (some byte) (Decoded.error e) = Decoded.error e

-- The loop of `base64_decode`: `val`, an `int` whose low 32 bits are kept, and the number of its
-- bits that are not yet written, `valb + 8`.
unfoldable pub decode_chars : ℕ → ℕ → Text → Decoded
unfolding lookup_char prepend
decode_chars val bits [] = Decoded.bytes []
decode_chars val bits (c ∷ data_left) = elim (lookup_char c) [
  | none ↦ if c == b'=' then Decoded.bytes [] else Decoded.error Base64Error.invalid_char
  | some six ↦
      let next = (val * 64 + six) % 2 ^ 32 in
      let more = decode_chars next (bits + 6) data_left in
      let written = decode_chars next (bits - 2) data_left in
      if leb 2 bits then prepend (some (next / 2 ^ (bits - 2) % 256)) written else more
]

unfoldable pub base64_decode : Text → Decoded
unfolding decode_chars
base64_decode text =
    if is_empty text
    then Decoded.bytes []
    else if not (length text % 4 == 0)
    then Decoded.error Base64Error.invalid_length
    else decode_chars 0 0 text

unfoldable pub base64_decode_legacy : Text → Text
unfolding base64_decode
base64_decode_legacy text = elim (base64_decode text) [
  | Decoded.bytes out ↦ out
  | Decoded.error e ↦ []
]
