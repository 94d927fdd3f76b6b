-- ===== src/ProofChain/Merkle.antt =====
-- The Merkle tree of crypto/ProofChain.hpp, over any hash of texts: `rebuild_merkle`,
-- `compute_sibling_path` and `verify_proof`.
use neuro_mesh.Prelude.{
  ℕ, zero, suc, ◌+◌, ◌/◌, ◌≤◌, ◌≡◌, refl, Bool, ◌&&◌, List, [], ◌∷◌, ◌++◌, Text, text_eq,
  if◌then◌else◌, ltb, leb, ◌==◌, length, arith,
}

-- `layer[0]`, if there is one.
unfoldable pub first_of : List Text → Text
first_of [] = []
first_of (a ∷ l) = a

-- `i <= idx && idx < i + 2`, for the pair of nodes at `i`.
abbrev pub in_pair : ℕ → ℕ → Bool
in_pair i idx = leb i idx && ltb idx (i + 2)

-- What one node of a proof makes of the hash so far.
unfoldable pub climb_one : (Text → Text) → Text → Text → Text
climb_one h cur [] = h cur
climb_one h cur (c ∷ s) =
    if c == b'L' then h (s ++ cur) else if c == b'R' then h (cur ++ s) else h (cur ++ c ∷ s)

-- The loop of `verify_proof`.
unfoldable pub climb : (Text → Text) → Text → List Text → Text
unfolding climb_one
climb h cur [] = cur
climb h cur (s ∷ siblings) = climb h (climb_one h cur s) siblings

unfoldable pub verify_path : (Text → Text) → Text → Text → List Text → Bool
unfolding climb
verify_path h root leaf siblings = text_eq (climb h leaf siblings) root

module _ (h : Text → Text) where
  unfoldable pub next_layer : List Text → List Text
  next_layer [] = []
  next_layer (a ∷ []) = h a ∷ []
  next_layer (a ∷ b ∷ l) = h (a ++ b) ∷ next_layer l

  -- The `while` loop of `rebuild_merkle`; the fuel bounds the number of layers.
  unfoldable pub reduce : ℕ → List Text → List Text
  unfolding next_layer
  reduce zero layer = layer
  reduce (suc f) layer =
      let rest = reduce f (next_layer layer) in if ltb 1 (length layer) then rest else layer

  unfoldable pub root_of : List Text → Text
  unfolding reduce first_of
  root_of layer = first_of (reduce (length layer) layer)

  -- The inner loop of `compute_sibling_path` from position `i` on: the siblings it pushes, and the
  -- index it leaves.
  unfoldable pub scan : ℕ → ℕ → List Text → List Text × ℕ
  scan i idx [] = ([], idx)
  scan i idx (a ∷ []) = ([], if in_pair i idx then i / 2 else idx)
  scan i idx (a ∷ b ∷ l) =
      let pushed : List Text =
        if i == idx then (b'R' ∷ b) ∷ [] else if i + 1 == idx then (b'L' ∷ a) ∷ [] else [] in
      let (siblings, last) = scan (i + 2) (if in_pair i idx then i / 2 else idx) l in
      (pushed ++ siblings, last)

  -- Its outer loop, on fuel as above.
  unfoldable pub walk : ℕ → ℕ → List Text → List Text
  unfolding scan next_layer
  walk zero idx layer = []
  walk (suc f) idx layer =
      let (siblings, next_idx) = scan 0 idx layer in
      let rest = walk f next_idx (next_layer layer) in
      if ltb 1 (length layer) then siblings ++ rest else []

  unfoldable pub sibling_path : ℕ → List Text → List Text
  unfolding walk
  sibling_path leaf_idx layer = walk (length layer) leaf_idx layer

  pub length-next_layer : (l : List Text) → length (next_layer l) ≡ (length l + 1) / 2
  unfolding next_layer
  length-next_layer [] = omega arith
  length-next_layer (a ∷ []) = omega arith
  length-next_layer (a ∷ b ∷ l) = omega (arith, length-next_layer l)

  reduce-ends : (f : ℕ) (l : List Text) → length l ≤ f → length (reduce f l) ≤ 1
  unfolding reduce
  reduce-ends zero l k = omega arith
  reduce-ends (suc f) l k = ground (arith, length-next_layer l, reduce-ends f (next_layer l))

  -- A layer for each leaf is fuel enough: the loop of `rebuild_merkle` ends with one node or none.
  pub reduce-length : (l : List Text) → length (reduce (length l) l) ≤ 1
  reduce-length l = reduce-ends (length l) l (omega arith)

  -- More fuel changes nothing.
  pub reduce-more :
      (f g : ℕ) (l : List Text) → length l ≤ f → length l ≤ g → reduce f l ≡ reduce g l
  unfolding reduce
  reduce-more zero zero l j k = refl
  reduce-more zero (suc g) l j k = ground arith
  reduce-more (suc f) zero l j k = ground arith
  reduce-more (suc f) (suc g) l j k =
      ground (arith, length-next_layer l, reduce-more f g (next_layer l))
