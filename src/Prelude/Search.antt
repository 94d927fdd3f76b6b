-- ===== src/Prelude/Search.antt =====
-- Search in texts, and `std::getline` with a delimiter.
use Prim.Native.Nat.{ℕ}
use mathlib.Core.Path.{◌≡◌, refl}
use mathlib.Core.Logic.{◌≢◌}
use mathlib.Core.Bool.{Bool, true, false, ◌&&◌, ◌||◌}
use mathlib.Core.Option.{Option, none, some}
use mathlib.Core.List.{List, [], ◌∷◌, ◌++◌}
use native.Mathlib.Omega.{arith}
use neuro_mesh.Prelude.Keys.{Text}
use neuro_mesh.Prelude.Lists.{any_of}
use neuro_mesh.Prelude.Tests.{leb, ◌==◌, if◌then◌else◌}

-- `isspace` in the C locale
abbrev pub is_space : ℕ → Bool
is_space c = c == 32 || (leb 9 c && leb c 13)

unfoldable pub skip_spaces : Text → Text
skip_spaces [] = []
skip_spaces (c ∷ s) = if is_space c then skip_spaces s else c ∷ s

-- `s` without the prefix, if it has it.
unfoldable pub strip_prefix : Text → Text → Option Text
strip_prefix [] s = some s
strip_prefix (p ∷ ps) [] = none
strip_prefix (p ∷ ps) (c ∷ s) = if p == c then strip_prefix ps s else none

unfoldable pub starts_with : Text → Text → Bool
starts_with [] s = true
starts_with (p ∷ ps) [] = false
starts_with (p ∷ ps) (c ∷ s) = p == c && starts_with ps s

-- `s.find(pattern) != npos`
unfoldable pub contains_text : Text → Text → Bool
unfolding starts_with
contains_text pattern [] = starts_with pattern []
contains_text pattern (c ∷ s) = starts_with pattern (c ∷ s) || contains_text pattern s

abbrev pub has_byte : ℕ → Text → Bool
has_byte b = any_of (λ c. c == b)

-- A byte in front of the first token.
unfoldable pub lengthen : ℕ → List Text → List Text
lengthen c [] = (c ∷ []) ∷ []
lengthen c (token ∷ tokens) = (c ∷ token) ∷ tokens

-- The tokens that `getline` reads up to the end: no empty one stands after a last delimiter.
unfoldable pub split_string : ℕ → Text → List Text
unfolding lengthen
split_string delimiter [] = []
split_string delimiter (c ∷ s) =
    let tokens = split_string delimiter s in
    if c == delimiter then [] ∷ tokens else lengthen c tokens

pub split_string-token :
    (delimiter : ℕ) (token rest : Text)
    → has_byte delimiter token ≡ false
    → split_string delimiter (token ++ (delimiter ∷ rest)) ≡ token ∷ split_string delimiter rest
unfolding split_string lengthen
split_string-token delimiter [] rest h = ground arith
split_string-token delimiter (c ∷ token) rest h =
    ground (arith, split_string-token delimiter token rest (ground arith))

pub split_string-last :
    (delimiter : ℕ) (token : Text)
    → has_byte delimiter token ≡ false
    → token ≢ []
    → split_string delimiter token ≡ token ∷ []
unfolding split_string lengthen
split_string-last delimiter [] h d = absurd (d refl)
split_string-last delimiter (c ∷ []) h d = ground arith
split_string-last delimiter (c ∷ b ∷ token) h d =
    ground
      (arith, split_string-last delimiter (b ∷ token) (ground arith) (λ e. absurd (ground arith)))

pub starts_with-append : (pattern rest : Text) → starts_with pattern (pattern ++ rest) ≡ true
unfolding starts_with
starts_with-append [] rest = refl
starts_with-append (p ∷ ps) rest = ground (arith, starts_with-append ps rest)

pub contains_text-append :
    (before pattern rest : Text) → contains_text pattern (before ++ (pattern ++ rest)) ≡ true
unfolding contains_text
contains_text-append [] [] [] = ground (arith, starts_with-append [] [])
contains_text-append [] [] (c ∷ rest) = ground (arith, starts_with-append [] (c ∷ rest))
contains_text-append [] (p ∷ ps) rest = ground (arith, starts_with-append (p ∷ ps) rest)
contains_text-append (b ∷ before) pattern rest =
    ground (arith, contains_text-append before pattern rest)

pub has_byte-append : (b : ℕ) (s t : Text) → has_byte b (s ++ t) ≡ (has_byte b s || has_byte b t)
has_byte-append b [] t = refl
has_byte-append b (c ∷ s) t = ground (arith, has_byte-append b s t)
