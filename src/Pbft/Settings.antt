-- ===== src/Pbft/Settings.antt =====
-- The settings that the constructor in consensus/PBFT.hpp reads from the environment.
use neuro_mesh.Prelude.{
  ℕ, ◌-◌, ◌%◌, ◌^◌, ◌≤◌, ◌<◌, ◌≡◌, refl, true, ◌&&◌, Option, none, some, [], ◌∷◌, Text, is_empty,
  if◌then◌else◌, ltb, ◌==◌, min, arith, ap,
}
use neuro_mesh.Prelude.Decimal.{read_digits, is_digit, to_text, read_digits-to_text, to_text-head}
use neuro_mesh.Prelude.Int.{ℤ, pos, negsuc}
use neuro_mesh.Prelude.Search.{skip_spaces}
use neuro_mesh.Pbft.Types.{u64_mod}

abbrev pub default_rate_window_sec : ℕ
default_rate_window_sec = 10

abbrev pub default_rate_max : ℕ
default_rate_max = 5

abbrev long_max : ℕ
long_max = 2 ^ 63 - 1

-- `std::strtol` behind its sign: the value if there is a digit, up to the greatest `long`, and it
-- ends the text and is positive.
unfoldable pub whole_number : Text → Option ℕ
unfolding read_digits
whole_number [] = none
whole_number (c ∷ s) =
    let (value, rest) = read_digits 0 (c ∷ s) in
    if is_digit c && is_empty rest && ltb 0 value then some (min value long_max) else none

-- A number with a minus sign is not positive.
unfoldable pub after_sign : Text → Option ℕ
unfolding whole_number
after_sign [] = none
after_sign (c ∷ s) =
    if c == b'-' then none else if c == b'+' then whole_number s else whole_number (c ∷ s)

-- `static_cast<int>` of a positive `long`.
unfoldable pub to_int : ℕ → ℤ
to_int n = let low = n % 2 ^ 32 in if ltb low (2 ^ 31) then pos low else negsuc (2 ^ 32 - 1 - low)

-- The two lambdas of the constructor.
unfoldable pub int_setting : ℕ → Option Text → ℤ
unfolding after_sign skip_spaces
int_setting default none = pos default
int_setting default (some text) = elim (after_sign (skip_spaces text)) [
  | none ↦ pos default
  | some value ↦ to_int value
]

-- What `count >= m_rate_window_sec` makes of the window: under a negative one no reading is kept.
abbrev pub as_window : ℤ → ℕ
as_window (pos n) = n
as_window (negsuc n) = 0

-- `static_cast<size_t>(m_rate_max)`
abbrev pub as_size : ℤ → ℕ
as_size (pos n) = n
as_size (negsuc n) = u64_mod - 1 - n

skip_spaces-digit : (c : ℕ) (s : Text) → is_digit c ≡ true → skip_spaces (c ∷ s) ≡ c ∷ s
unfolding skip_spaces
skip_spaces-digit c s d = ground arith

whole_number-digits :
    (c n : ℕ) (s : Text)
    → is_digit c ≡ true
    → 0 < n
    → n ≤ long_max
    → read_digits 0 (c ∷ s) ≡ (n, [])
    → after_sign (c ∷ s) ≡ some n
unfolding after_sign whole_number
whole_number-digits c n s d h k e =
    let value : (read_digits 0 (c ∷ s)).0 ≡ n = ap (λ r. r.0) e in
    let rest : (read_digits 0 (c ∷ s)).1 ≡ [] = ap (λ r. r.1) e in ground arith

parse-to_text : (n : ℕ) → 0 < n → n ≤ long_max → after_sign (skip_spaces (to_text n)) ≡ some n
parse-to_text n h k =
    let (c, s, e, d) = to_text-head n in
    rw (e, skip_spaces-digit c s d)
      (whole_number-digits c n s d h k (rw e at (read_digits-to_text n)))

pub int_setting-to_int :
    (default n : ℕ) → 0 < n → n ≤ long_max → int_setting default (some (to_text n)) ≡ to_int n
unfolding int_setting
int_setting-to_int default n h k = rw (int_setting, parse-to_text n h k) refl

-- A positive decimal that an `int` can hold is the setting.
pub int_setting-to_text :
    (default n : ℕ) → 0 < n → n < 2 ^ 31 → int_setting default (some (to_text n)) ≡ pos n
unfolding to_int
int_setting-to_text default n h k = rw (int_setting-to_int default n h (omega arith)) (ground arith)
