-- ===== src/Prelude/Sets.antt =====
-- Sets of keys as lists without repetition: counting, and how far two sets must overlap.
use Prim.Native.Nat.{suc, ◌+◌, ◌≤◌}
use mathlib.Core.Path.{◌≡◌, refl}
use mathlib.Core.Bool.{Bool, true, false, not, ◌&&◌, ◌||◌}
use mathlib.Core.List.{List, [], ◌∷◌}
use native.Mathlib.Omega.{arith}
use neuro_mesh.Prelude.Dict.{contains, remove, Distinct, contains-remove}
use neuro_mesh.Prelude.Keys.{Key}
use neuro_mesh.Prelude.Lists.{length, keep_if, length-keep_if-le}

module _ {K : Type 0} ⦃e : Key K⦄ where
  abbrev pub Subset : List K → List K → Type 0
  Subset xs ys = (x : K) → contains x xs ≡ true → contains x ys ≡ true

  pub contains-keep_if :
      (p : K → Bool) (x : K) (xs : List K) → contains x (keep_if p xs) ≡ (p x && contains x xs)
  unfolding contains
  contains-keep_if p x [] = ground arith
  contains-keep_if p x (y ∷ xs) = ground (arith, e.eqb_iff x y, contains-keep_if p x xs)

  pub keep_if-Distinct : (p : K → Bool) (xs : List K) → Distinct xs → Distinct (keep_if p xs)
  keep_if-Distinct p [] d = tt
  keep_if-Distinct p (x ∷ xs) d = ground (arith, keep_if-Distinct p xs d.1, contains-keep_if p x xs)

  length-remove :
      (x : K) (ys : List K) → contains x ys ≡ true → suc (length (remove x ys)) ≤ length ys
  unfolding contains remove
  length-remove x [] h = absurd (ground arith)
  length-remove x (y ∷ ys) h =
      ground (arith, length-remove x ys, length-keep_if-le (λ z. not (e.eqb x z)) ys)

  contains-cons : (z x : K) (xs : List K) → contains z (x ∷ xs) ≡ (e.eqb z x || contains z xs)
  unfolding contains
  contains-cons z x xs = refl

  tail-Subset :
      (x : K) (xs ys : List K)
      → contains x xs ≡ false
      → Subset (x ∷ xs) ys
      → Subset xs (remove x ys)
  tail-Subset x xs ys fresh s z h =
      ground (arith, contains-remove z x ys, contains-cons z x xs, e.eqb_iff z x, s z)

  pub length-le-Subset : (xs ys : List K) → Distinct xs → Subset xs ys → length xs ≤ length ys
  length-le-Subset [] ys d s = omega arith
  length-le-Subset (x ∷ xs) ys d s =
      let here : contains x (x ∷ xs) ≡ true = ground (arith, contains-cons x x xs, e.eqb_iff x x) in
      omega (
        arith,
        length-remove x ys (s x here),
        length-le-Subset xs (remove x ys) d.1 (tail-Subset x xs ys d.0 s),
      )

  -- The elements of `all` in `xs`, in `ys` and in both.
  inclusion_exclusion :
      (p q : K → Bool) (all : List K)
      → length (keep_if p all) + length (keep_if q all)
        ≤ length all + length (keep_if (λ x. p x && q x) all)
  inclusion_exclusion p q [] = omega arith
  inclusion_exclusion p q (x ∷ all) = ground (arith, inclusion_exclusion p q all)

  keep_if-Subset : (xs all : List K) → Subset xs all → Subset xs (keep_if (λ x. contains x xs) all)
  keep_if-Subset xs all s x h = rw (contains-keep_if (λ z. contains z xs) x all) (rw h (s x h))

  both-Subset :
      (xs ys all : List K)
      → Subset (keep_if (λ x. contains x xs && contains x ys) all) (keep_if (λ x. contains x ys) xs)
  both-Subset xs ys all x h = ground (
    arith,
    contains-keep_if (λ z. contains z xs && contains z ys) x all,
    contains-keep_if (λ z. contains z ys) x xs,
  )

  -- Two sets within a third have in common at least what they have too many.
  pub overlap-ge :
      (xs ys all : List K)
      → Distinct xs
      → Distinct ys
      → Distinct all
      → Subset xs all
      → Subset ys all
      → length xs + length ys ≤ length all + length (keep_if (λ x. contains x ys) xs)
  overlap-ge xs ys all dx dy da sx sy = omega (
    arith,
    inclusion_exclusion (λ x. contains x xs) (λ x. contains x ys) all,
    length-le-Subset xs (keep_if (λ x. contains x xs) all) dx (keep_if-Subset xs all sx),
    length-le-Subset ys (keep_if (λ x. contains x ys) all) dy (keep_if-Subset ys all sy),
    length-le-Subset (keep_if (λ x. contains x xs && contains x ys) all)
        (keep_if (λ x. contains x ys) xs) (keep_if-Distinct _ all da) (both-Subset xs ys all),
  )
