-- ===== src/Prelude/Numbers.antt =====
-- `std::stoi`, `std::stoll` and `std::stoull`: the value and what follows it in the text, or nothing
-- where they throw.
use Prim.Native.Nat.{ℕ, zero, suc, ◌-◌, ◌^◌, ◌<◌}
use mathlib.Core.Path.{◌≡◌, refl, subst}
use mathlib.Core.Bool.{true}
use mathlib.Core.Option.{Option, none, some}
use mathlib.Core.List.{[], ◌∷◌}
use native.Mathlib.Omega.{arith}
use neuro_mesh.Prelude.Decimal.{read_digits, is_digit, to_text, read_digits-to_text, to_text-head}
use neuro_mesh.Prelude.Int.{ℤ, pos, negsuc}
use neuro_mesh.Prelude.Keys.{Text, codes}
use neuro_mesh.Prelude.Search.{skip_spaces}
use neuro_mesh.Prelude.Tests.{leb, ◌==◌, if◌then◌else◌}

-- The number at the start of a text, which must have a digit, up to a limit.
unfoldable pub read_limited : ℕ → Text → Option (ℕ × Text)
unfolding read_digits
read_limited limit [] = none
read_limited limit (c ∷ s) =
    let (value, rest) = read_digits 0 (c ∷ s) in
    if is_digit c then (if leb value limit then some (value, rest) else none) else none

-- Minus a number.
abbrev pub negated : ℕ → ℤ
negated zero = pos 0
negated (suc n) = negsuc n

abbrev as_positive : Option (ℕ × Text) → Option (ℤ × Text)
as_positive none = none
as_positive (some (value, rest)) = some (pos value, rest)

abbrev as_negative : Option (ℕ × Text) → Option (ℤ × Text)
as_negative none = none
as_negative (some (value, rest)) = some (negated value, rest)

-- A signed number below 2^bits on the positive side.
unfoldable pub read_signed : ℕ → Text → Option (ℤ × Text)
unfolding read_limited
read_signed bits [] = none
read_signed bits (c ∷ s) =
    if c == b'-'
    then as_negative (read_limited (2 ^ bits) s)
    else as_positive (read_limited (2 ^ bits - 1) (if c == b'+' then s else c ∷ s))

unfoldable pub stoi : Text → Option (ℤ × Text)
unfolding skip_spaces read_signed
stoi s = read_signed 31 (skip_spaces s)

unfoldable pub stoll : Text → Option (ℤ × Text)
unfolding skip_spaces read_signed
stoll s = read_signed 63 (skip_spaces s)

-- `std::stoull` takes a minus sign, and negates modulo 2^64.
abbrev wrapped : Option (ℕ × Text) → Option (ℕ × Text)
wrapped none = none
wrapped (some (value, rest)) = some (if value == 0 then 0 else 2 ^ 64 - value, rest)

unfoldable pub read_unsigned : Text → Option (ℕ × Text)
unfolding read_limited
read_unsigned [] = none
read_unsigned (c ∷ s) =
    if c == b'-'
    then wrapped (read_limited (2 ^ 64 - 1) s)
    else read_limited (2 ^ 64 - 1) (if c == b'+' then s else c ∷ s)

unfoldable pub stoull : Text → Option (ℕ × Text)
unfolding skip_spaces read_unsigned
stoull s = read_unsigned (skip_spaces s)

stoi_runs : stoi (codes " -2147483648x") ≡ some (negsuc 2147483647, codes "x")
unfolding stoi skip_spaces read_signed read_limited read_digits
stoi_runs = refl

read_limited-to_text :
    (limit n : ℕ) → leb n limit ≡ true → read_limited limit (to_text n) ≡ some (n, [])
unfolding read_limited
read_limited-to_text limit n small =
    let (c, s, e, d) = to_text-head n in
    let read : read_digits 0 (c ∷ s) ≡ (n, []) =
      subst (λ (t : Text). read_digits 0 t ≡ (n, [])) e (read_digits-to_text n) in
    rw (e, read, d, small) refl

pub stoull-to_text : (n : ℕ) → n < 2 ^ 64 → stoull (to_text n) ≡ some (n, [])
unfolding stoull skip_spaces read_unsigned
stoull-to_text n h =
    let (c, s, e, d) = to_text-head n in
    let read : read_limited (2 ^ 64 - 1) (c ∷ s) ≡ some (n, []) =
      subst (λ (t : Text). read_limited (2 ^ 64 - 1) t ≡ some (n, [])) e
        (read_limited-to_text (2 ^ 64 - 1) n (ground arith)) in
    rw e (ground (arith, read))

pub stoi-to_text : (n : ℕ) → n < 2 ^ 31 → stoi (to_text n) ≡ some (pos n, [])
unfolding stoi skip_spaces read_signed
stoi-to_text n h =
    let (c, s, e, d) = to_text-head n in
    let read : read_limited (2 ^ 31 - 1) (c ∷ s) ≡ some (n, []) =
      subst (λ (t : Text). read_limited (2 ^ 31 - 1) t ≡ some (n, [])) e
        (read_limited-to_text (2 ^ 31 - 1) n (ground arith)) in
    rw e (ground (arith, read))
