-- ===== src/ProofChain/Complete.antt =====
-- The paths of `compute_sibling_path` in crypto/ProofChain.hpp, in trees with full pairs.
use neuro_mesh.Prelude.{
  ℕ, zero, suc, ◌+◌, ◌*◌, ◌/◌, ◌^◌, ◌≤◌, ◌<◌, ◌≡◌, refl, true, some, List, [], ◌∷◌, ◌++◌, Text, ltb,
  length, get_elem?, get_elem?-lt, arith,
}
use neuro_mesh.ProofChain.Merkle.{
  first_of, climb_one, climb, next_layer, reduce, root_of, scan, walk, sibling_path,
  length-next_layer,
}

-- The sibling of the node at an index, with the side it stands on.
sibling : ℕ → List Text → List Text
sibling zero (a ∷ b ∷ l) = (b'R' ∷ b) ∷ []
sibling (suc zero) (a ∷ b ∷ l) = (b'L' ∷ a) ∷ []
sibling (suc (suc r)) (a ∷ b ∷ l) = sibling r l
sibling r l = []

module _ (h : Text → Text) where
  -- Once the index is behind the position, the scan leaves it.
  scan-behind : (i idx : ℕ) (l : List Text) → idx < i → scan h i idx l ≡ ([], idx)
  unfolding scan
  scan-behind i idx [] k = refl
  scan-behind i idx (a ∷ []) k = ground arith
  scan-behind i idx (a ∷ b ∷ l) k = ground (arith, scan-behind (i + 2) idx l)

  scan-sibling :
      (j m r : ℕ) (l : List Text)
      → length l ≡ 2 * m
      → r < 2 * m
      → scan h (2 * j) (2 * j + r) l ≡ (sibling r l, j + r / 2)
  unfolding scan sibling
  scan-sibling j zero r l e k = absurd (omega arith)
  scan-sibling j (suc m) r [] e k = absurd (omega arith)
  scan-sibling j (suc m) r (a ∷ []) e k = absurd (omega arith)
  scan-sibling j (suc m) zero (a ∷ b ∷ l) e k = ground (arith, scan-behind (2 * j + 2) j l)
  scan-sibling j (suc m) (suc zero) (a ∷ b ∷ l) e k = ground (arith, scan-behind (2 * j + 2) j l)
  scan-sibling j (suc m) (suc (suc r)) (a ∷ b ∷ l) e k = ground (arith, scan-sibling (suc j) m r l)

  scan-first :
      (m r : ℕ) (l : List Text) → length l ≡ 2 * m → r < 2 * m → scan h 0 r l ≡ (sibling r l, r / 2)
  scan-first m r l e k =
      let none_before : 0 + r ≡ r = omega arith in
      let none_above : 0 + r / 2 ≡ r / 2 = omega arith in
      rw (none_before, none_above) at (scan-sibling 0 m r l e k)

  climb-sibling :
      (m r : ℕ) (x : Text) (l : List Text)
      → length l ≡ 2 * m
      → get_elem? l r ≡ some x
      → get_elem? (next_layer h l) (r / 2) ≡ some (climb h x (sibling r l))
  unfolding next_layer climb climb_one sibling
  climb-sibling m r x [] e k = absurd (ground arith)
  climb-sibling m r x (a ∷ []) e k = absurd (omega arith)
  climb-sibling m zero x (a ∷ b ∷ l) e k = ground arith
  climb-sibling m (suc zero) x (a ∷ b ∷ l) e k = ground arith
  climb-sibling zero (suc (suc r)) x (a ∷ b ∷ l) e k = absurd (omega arith)
  climb-sibling (suc m) (suc (suc r)) x (a ∷ b ∷ l) e k =
      let half : suc (suc r) / 2 ≡ suc (r / 2) = omega arith in
      rw half (climb-sibling m r x l (omega arith) k)

  climb-append : (x : Text) (s t : List Text) → climb h x (s ++ t) ≡ climb h (climb h x s) t
  unfolding climb
  climb-append x [] t = refl
  climb-append x (a ∷ s) t = climb-append (climb_one h x a) s t

  pow-ge-one : (k : ℕ) → 1 ≤ 2 ^ k
  pow-ge-one zero = omega arith
  pow-ge-one (suc k) = omega (arith, pow-ge-one k)

  suc-le-pow : (k : ℕ) → k + 1 ≤ 2 ^ k
  suc-le-pow zero = omega arith
  suc-le-pow (suc k) = omega (arith, suc-le-pow k)

  climb-walk :
      (f k r : ℕ) (x : Text) (l : List Text)
      → length l ≡ 2 ^ k
      → get_elem? l r ≡ some x
      → k ≤ f
      → climb h x (walk h f r l) ≡ first_of (reduce h f l)
  unfolding walk reduce climb first_of
  climb-walk f k r x [] e g b = absurd (ground arith)
  climb-walk zero k zero x (a ∷ l) e g b = ground arith
  climb-walk zero k (suc r) x (a ∷ l) e g b =
      absurd (ground (arith, get_elem?-lt l r x, suc-le-pow k))
  climb-walk (suc f) zero zero x (a ∷ l) e g b = ground arith
  climb-walk (suc f) zero (suc r) x (a ∷ l) e g b = absurd (ground (arith, get_elem?-lt l r x))
  climb-walk (suc f) (suc k) r x (a ∷ l) e g b =
      let pairs : length (a ∷ l) ≡ 2 * 2 ^ k = omega arith in
      let inside : r < 2 * 2 ^ k = omega (arith, get_elem?-lt (a ∷ l) r x g) in
      let many : ltb 1 (length (a ∷ l)) ≡ true = ground (arith, pow-ge-one k) in
      let half : length (next_layer h (a ∷ l)) ≡ 2 ^ k =
        omega (arith, length-next_layer h (a ∷ l)) in
      let found : scan h 0 r (a ∷ l) ≡ (sibling r (a ∷ l), r / 2) =
        scan-first (2 ^ k) r (a ∷ l) pairs inside in
      rw (many, found, climb-append x (sibling r (a ∷ l)) (walk h f (r / 2) (next_layer h (a ∷ l))))
        (climb-walk f k (r / 2) _ (next_layer h (a ∷ l)) half
          (climb-sibling (2 ^ k) r x (a ∷ l) pairs g) (omega arith))

  -- Among 2^k leaves the path of every leaf leads from that leaf to the root.
  pub climb-sibling_path :
      (k r : ℕ) (x : Text) (l : List Text)
      → length l ≡ 2 ^ k
      → get_elem? l r ≡ some x
      → climb h x (sibling_path h r l) ≡ root_of h l
  unfolding sibling_path root_of
  climb-sibling_path k r x l e g = climb-walk (length l) k r x l e g (omega (arith, suc-le-pow k))
