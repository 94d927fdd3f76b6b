-- ===== src/Common/Base64/RoundTrip.antt =====
-- Encoding and then decoding, with the functions of common/Base64.hpp.
use neuro_mesh.Prelude.{
  ℕ, ◌+◌, ◌-◌, ◌*◌, ◌/◌, ◌%◌, ◌^◌, ◌≤◌, ◌<◌, ◌≡◌, refl, ◌∙◌, ap, true, some, [], ◌∷◌, Text, leb,
  ◌==◌, length, All, arith,
}
use neuro_mesh.Common.Base64.{
  char_of, base64_encode, lookup_char, prepend, decode_chars, base64_decode, Decoded,
}

abbrev pub IsByte : ℕ → Type 0
IsByte b = b < 256

lookup-char_of : (n : ℕ) → n < 64 → lookup_char (char_of n) ≡ some n
unfolding lookup_char char_of
lookup-char_of n h = ground arith

decode-more :
    (val s : ℕ) (rest : Text)
    → s < 64
    → decode_chars val 0 (char_of s ∷ rest) ≡ decode_chars ((val * 64 + s) % 2 ^ 32) 6 rest
unfolding decode_chars
decode-more val s rest h = rw (decode_chars, lookup-char_of s h) refl

decode-byte :
    (val bits s b : ℕ) (rest : Text)
    → s < 64
    → 2 ≤ bits
    → (val * 64 + s) % 2 ^ 32 / 2 ^ (bits - 2) % 256 ≡ b
    → decode_chars val bits (char_of s ∷ rest)
      ≡ prepend (some b) (decode_chars ((val * 64 + s) % 2 ^ 32) (bits - 2) rest)
unfolding decode_chars
decode-byte val bits s b rest h k e =
    let writes : leb 2 bits ≡ true = ground arith in
    rw (decode_chars, lookup-char_of s h, writes, e) refl

-- One group of four characters gives its three bytes back, whatever is left of the groups before.
decode-group :
    (val a b c : ℕ) (rest : Text)
    → a < 256
    → b < 256
    → c < 256
    → (next : ℕ) × (decode_chars val 0 (
          char_of (a / 4)
          ∷ char_of (a % 4 * 16 + b / 16)
          ∷ char_of (b % 16 * 4 + c / 64)
          ∷ char_of (c % 64)
          ∷ rest)
        ≡ prepend (some a) (prepend (some b) (prepend (some c) (decode_chars next 0 rest))))
decode-group val a b c rest h_a h_b h_c =
    let v_1 = (val * 64 + a / 4) % 2 ^ 32 in
    let v_2 = (v_1 * 64 + (a % 4 * 16 + b / 16)) % 2 ^ 32 in
    let v_3 = (v_2 * 64 + (b % 16 * 4 + c / 64)) % 2 ^ 32 in
    let v_4 = (v_3 * 64 + c % 64) % 2 ^ 32 in
    let first : v_2 / 2 ^ 4 % 256 ≡ a = omega arith in
    let second : v_3 / 2 ^ 2 % 256 ≡ b = omega arith in
    let third : v_4 / 2 ^ 0 % 256 ≡ c = omega arith in
    (
      v_4,
      decode-more val _ _ (omega arith)
          ∙ decode-byte v_1 6 _ a _ (omega arith) (omega arith) first
          ∙ ap (prepend (some a)) (
              decode-byte v_2 4 _ b _ (omega arith) (omega arith) second
              ∙ ap (prepend (some b))
                  (decode-byte v_3 2 _ c rest (omega arith) (omega arith) third)),
    )

decode-encode :
    (val : ℕ) (text : Text)
    → All IsByte text
    → decode_chars val 0 (base64_encode text) ≡ Decoded.bytes text
unfolding base64_encode prepend decode_chars lookup_char
decode-encode val [] h = refl
decode-encode val (a ∷ []) (h_a, _) =
    let v_1 = (val * 64 + a / 4) % 2 ^ 32 in
    let first : (v_1 * 64 + a % 4 * 16) % 2 ^ 32 / 2 ^ 4 % 256 ≡ a = omega arith in
    decode-more val (a / 4) (char_of (a % 4 * 16) ∷ b'=' ∷ b'=' ∷ []) (omega arith)
    ∙ decode-byte v_1 6 (a % 4 * 16) a (b'=' ∷ b'=' ∷ []) (omega arith) (omega arith) first
decode-encode val (a ∷ b ∷ []) (h_a, (h_b, _)) =
    let v_1 = (val * 64 + a / 4) % 2 ^ 32 in
    let v_2 = (v_1 * 64 + (a % 4 * 16 + b / 16)) % 2 ^ 32 in
    let first : v_2 / 2 ^ 4 % 256 ≡ a = omega arith in
    let second : (v_2 * 64 + b % 16 * 4) % 2 ^ 32 / 2 ^ 2 % 256 ≡ b = omega arith in
    let last : Text = char_of (b % 16 * 4) ∷ b'=' ∷ [] in
    decode-more val (a / 4) (char_of (a % 4 * 16 + b / 16) ∷ last) (omega arith)
    ∙ decode-byte v_1 6 (a % 4 * 16 + b / 16) a last (omega arith) (omega arith) first
    ∙ ap (prepend (some a))
        (decode-byte v_2 4 (b % 16 * 4) b (b'=' ∷ []) (omega arith) (omega arith) second)
decode-encode val (a ∷ b ∷ c ∷ text) (h_a, (h_b, (h_c, h))) =
    let (next, group) = decode-group val a b c (base64_encode text) h_a h_b h_c in
    group
    ∙ ap (λ d. prepend (some a) (prepend (some b) (prepend (some c) d))) (decode-encode next text h)

-- An encoded text has four characters for three bytes, rounded up.
pub length-base64_encode : (text : Text) → length (base64_encode text) ≡ (length text + 2) / 3 * 4
unfolding base64_encode
length-base64_encode [] = omega arith
length-base64_encode (a ∷ []) = omega arith
length-base64_encode (a ∷ b ∷ []) = omega arith
length-base64_encode (a ∷ b ∷ c ∷ text) = omega (arith, length-base64_encode text)

decode-whole :
    (text : Text) → (length text % 4 == 0) ≡ true → base64_decode text ≡ decode_chars 0 0 text
unfolding base64_decode decode_chars
decode-whole [] h = refl
decode-whole (c ∷ text) h = rw h refl

-- Decoding an encoded text of bytes gives the text back, without an error.
pub base64_decode-base64_encode :
    (text : Text) → All IsByte text → base64_decode (base64_encode text) ≡ Decoded.bytes text
base64_decode-base64_encode text h =
    decode-whole (base64_encode text) (ground (arith, length-base64_encode text))
    ∙ decode-encode 0 text h
