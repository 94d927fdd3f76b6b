-- ===== src/Crypto/Core/Hex.antt =====
-- The hexadecimal digests of crypto/CryptoCore.cpp.
use neuro_mesh.Prelude.{
  ℕ, ◌/◌, ◌%◌, ◌<◌, ◌≡◌, refl, inl, inr, true, not, ◌&&◌, ◌||◌, some, List, [], ◌∷◌, Text, leb, All,
  arith, Bool-cases, Option-cases,
}
use neuro_mesh.Crypto.Core.{OpenSsl, hex_digit, to_hex, sha256_hex}

-- A decimal digit or a letter from `a` to `f`.
abbrev pub IsHexDigit : ℕ → Type 0
IsHexDigit c = ((leb b'0' c && leb c b'9') || (leb b'a' c && leb c b'f')) ≡ true

abbrev pub IsByte : ℕ → Type 0
IsByte b = b < 256

hex_digit-IsHexDigit : (n : ℕ) → n < 16 → IsHexDigit (hex_digit n)
unfolding hex_digit
hex_digit-IsHexDigit n h = ground arith

to_hex-IsHexDigit : (bs : List ℕ) → All IsByte bs → All IsHexDigit (to_hex bs)
unfolding to_hex
to_hex-IsHexDigit [] h = tt
to_hex-IsHexDigit (b ∷ bs) h = (
  hex_digit-IsHexDigit (b / 16) (omega arith),
  (hex_digit-IsHexDigit (b % 16) (omega arith), to_hex-IsHexDigit bs h.1),
)

hex_digit_injective : (a b : ℕ) → a < 16 → b < 16 → hex_digit a ≡ hex_digit b → a ≡ b
unfolding hex_digit
hex_digit_injective a b h k e = ground arith

-- Two byte strings with one print are one.
pub to_hex_injective : (s t : List ℕ) → All IsByte s → All IsByte t → to_hex s ≡ to_hex t → s ≡ t
unfolding to_hex
to_hex_injective [] [] h k e = refl
to_hex_injective [] (b ∷ t) h k e = absurd (ground arith)
to_hex_injective (a ∷ s) [] h k e = absurd (ground arith)
to_hex_injective (a ∷ s) (b ∷ t) h k e =
    let high : hex_digit (a / 16) ≡ hex_digit (b / 16) = ground arith in
    let low : hex_digit (a % 16) ≡ hex_digit (b % 16) = ground arith in
    let rest : to_hex s ≡ to_hex t = ground arith in
    let high_digit = hex_digit_injective (a / 16) (b / 16) (omega arith) (omega arith) high in
    let low_digit = hex_digit_injective (a % 16) (b % 16) (omega arith) (omega arith) low in
    let same : a ≡ b = omega arith in rw (same, to_hex_injective s t h.1 k.1 rest) refl

-- If OpenSSL's digest consists of bytes, its print has hexadecimal digits only, also when OpenSSL
-- fails.
pub sha256_hex-IsHexDigit :
    (o : OpenSsl) (text : Text)
    → ((hash : List ℕ) → o.sha256 text ≡ some hash → All IsByte hash)
    → All IsHexDigit (sha256_hex o text)
unfolding sha256_hex
sha256_hex-IsHexDigit o text h = elim (Bool-cases (not o.md_ctx_new)) [
  | inl failed ↦ rw failed tt
  | inr made ↦ elim (Option-cases (o.sha256 text)) [
    | inl none_given ↦ rw (made, none_given) tt
    | inr (hash, e) ↦ rw (made, e) (to_hex-IsHexDigit hash (h hash e))
  ]
]

-- If OpenSSL gives a digest for each of two texts and the prints are equal, so are the digests.
pub sha256_hex_injective :
    (o : OpenSsl) (s t : Text) (hash_s hash_t : List ℕ)
    → o.md_ctx_new ≡ true
    → o.sha256 s ≡ some hash_s
    → o.sha256 t ≡ some hash_t
    → All IsByte hash_s
    → All IsByte hash_t
    → sha256_hex o s ≡ sha256_hex o t
    → hash_s ≡ hash_t
unfolding sha256_hex
sha256_hex_injective o s t hash_s hash_t m e f h k same =
    to_hex_injective hash_s hash_t h k (rw (m, e, f) at same)
