-- ===== src/Prelude/Decimal.antt =====
-- `std::to_string` of an unsigned number, and of an `int`.
use Prim.Native.Nat.{ℕ, zero, suc, ◌+◌, ◌-◌, ◌*◌, ◌/◌, ◌%◌, ◌≤◌}
use mathlib.Core.Bool.{Bool, true, false, ◌&&◌}
use mathlib.Core.Logic.{inl, inr}
use native.Mathlib.Omega.{arith}
use mathlib.Core.Path.{◌≡◌, refl}
use mathlib.Core.List.{[], ◌∷◌}
use neuro_mesh.Prelude.Int.{ℤ, pos, negsuc}
use neuro_mesh.Prelude.Keys.{Text, codes}
use neuro_mesh.Prelude.Lists.{any_of}
use neuro_mesh.Prelude.Tests.{ltb, leb, ◌==◌, Bool-cases, if◌then◌else◌}

-- The digits of `n` before `rest`; the fuel bounds their number.
unfoldable pub digits : ℕ → ℕ → Text → Text
digits zero n rest = rest
digits (suc f) n rest =
    let more = digits f (n / 10) ((b'0' + n % 10) ∷ rest) in
    if ltb n 10 then (b'0' + n) ∷ rest else more

unfoldable pub to_text : ℕ → Text
unfolding digits
to_text n = digits (suc n) n []

unfoldable pub int_to_text : ℤ → Text
unfolding to_text
int_to_text (pos n) = to_text n
int_to_text (negsuc n) = b'-' ∷ to_text (suc n)

to_text_runs : to_text 18446744073709551615 ≡ codes "18446744073709551615"
unfolding to_text
to_text_runs = refl

abbrev pub is_digit : ℕ → Bool
is_digit c = leb b'0' c && leb c b'9'

-- Reads digits up to the first byte that is none, from the value so far.
unfoldable pub read_digits : ℕ → Text → ℕ × Text
read_digits value [] = (value, [])
read_digits value (c ∷ s) =
    let more = read_digits (value * 10 + (c - b'0')) s in
    if is_digit c then more else (value, c ∷ s)

read_digits-digits :
    (f n : ℕ) (rest : Text) → n ≤ f → read_digits 0 (digits (suc f) n rest) ≡ read_digits n rest
unfolding read_digits digits
read_digits-digits zero n rest h = ground arith
read_digits-digits (suc f) n rest h =
    ground (arith, read_digits-digits f (n / 10) ((b'0' + n % 10) ∷ rest))

pub read_digits-to_text : (n : ℕ) → read_digits 0 (to_text n) ≡ (n, [])
unfolding to_text read_digits
read_digits-to_text n = read_digits-digits n n [] (omega arith)

digits-head :
    (f n : ℕ) (rest : Text)
    → n ≤ f
    → (c : ℕ) × (s : Text) × (digits (suc f) n rest ≡ c ∷ s) × (is_digit c ≡ true)
unfolding digits
digits-head zero n rest h = (b'0' + n, rest, ground arith, ground arith)
digits-head (suc f) n rest h = elim (Bool-cases (ltb n 10)) [
  | inl small ↦ (b'0' + n, rest, rw small, ground arith)
  | inr large ↦
      let (c, s, e, d) = digits-head f (n / 10) ((b'0' + n % 10) ∷ rest) (ground arith) in
      (c, s, rw large e, d)
]

-- A decimal print begins with a digit.
pub to_text-head : (n : ℕ) → (c : ℕ) × (s : Text) × (to_text n ≡ c ∷ s) × (is_digit c ≡ true)
unfolding to_text
to_text-head n = digits-head n n [] (omega arith)

has_byte-digits :
    (f n b : ℕ) (rest : Text)
    → is_digit b ≡ false
    → any_of (λ c. c == b) (digits f n rest) ≡ any_of (λ c. c == b) rest
unfolding digits
has_byte-digits zero n b rest h = refl
has_byte-digits (suc f) n b rest h =
    ground (arith, has_byte-digits f (n / 10) b ((b'0' + n % 10) ∷ rest) h)

-- A decimal print has digits only.
pub has_byte-to_text : (n b : ℕ) → is_digit b ≡ false → any_of (λ c. c == b) (to_text n) ≡ false
unfolding to_text
has_byte-to_text n b h = has_byte-digits (suc n) n b [] h
