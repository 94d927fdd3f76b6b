-- ===== src/Prelude/Sorted.antt =====
-- Association lists over texts in the order of their keys, and how long they get.
use Prim.Native.Nat.{suc, ◌+◌, ◌≤◌}
use mathlib.Core.Bool.{Bool, true, false}
use mathlib.Core.List.{[], ◌∷◌}
use mathlib.Core.Logic.{inl, inr}
use mathlib.Core.Option.{none, some}
use mathlib.Core.Path.{◌≡◌, refl, ap}
use native.Mathlib.Omega.{arith}
use neuro_mesh.Prelude.Dict.{Dict, lookup, insert, erase}
use neuro_mesh.Prelude.Keys.{Text, text_key, text_eq, text_lt, text_eq_iff}
use neuro_mesh.Prelude.Lists.{length, All, keep_if}
use neuro_mesh.Prelude.Tests.{if_intro, Bool-cases}

text_lt_irrefl : (s : Text) → text_lt s s ≡ false
unfolding text_lt
text_lt_irrefl [] = refl
text_lt_irrefl (x ∷ s) = ground (arith, text_lt_irrefl s)

text_lt_trans : (s t u : Text) → text_lt s t ≡ true → text_lt t u ≡ true → text_lt s u ≡ true
unfolding text_lt
text_lt_trans [] [] u h k = absurd (ground arith)
text_lt_trans [] (y ∷ t) [] h k = absurd (ground arith)
text_lt_trans [] (y ∷ t) (z ∷ u) h k = refl
text_lt_trans (x ∷ s) [] u h k = absurd (ground arith)
text_lt_trans (x ∷ s) (y ∷ t) [] h k = absurd (ground arith)
text_lt_trans (x ∷ s) (y ∷ t) (z ∷ u) h k = ground (arith, text_lt_trans s t u)

text_lt_total : (s t : Text) → text_eq s t ≡ false → text_lt s t ≡ false → text_lt t s ≡ true
unfolding text_lt text_eq
text_lt_total [] [] h k = absurd (ground arith)
text_lt_total [] (y ∷ t) h k = absurd (ground arith)
text_lt_total (x ∷ s) [] h k = refl
text_lt_total (x ∷ s) (y ∷ t) h k = ground (arith, text_lt_total s t)

module _ {V : Type 0} where
  -- The key comes before all of the list.
  abbrev pub Below : Text → Dict Text V → Type 0
  Below k m = All (λ (entry : Text × V). text_lt k entry.0 ≡ true) m

  abbrev pub IsSorted : Dict Text V → Type 0
  IsSorted [] = Unit
  IsSorted (entry ∷ m) = Below entry.0 m × IsSorted m

  Below-trans : (j k : Text) (m : Dict Text V) → text_lt j k ≡ true → Below k m → Below j m
  Below-trans j k [] h b = tt
  Below-trans j k (entry ∷ m) h b = (text_lt_trans j k entry.0 h b.0, Below-trans j k m h b.1)

  insert-Below :
      (j k : Text) (v : V) (m : Dict Text V)
      → text_lt j k ≡ true
      → Below j m
      → Below j (insert k v m)
  unfolding insert
  insert-Below j k v [] h b = (h, tt)
  insert-Below j k v ((i, w) ∷ m) h b = ground (arith, insert-Below j k v m h b.1)

  pub insert-IsSorted : (k : Text) (v : V) (m : Dict Text V) → IsSorted m → IsSorted (insert k v m)
  unfolding insert
  insert-IsSorted k v [] s = (tt, tt)
  insert-IsSorted k v ((i, w) ∷ m) s = elim (Bool-cases (text_eq k i)) [
    | inl same ↦ let eq : k ≡ i = (text_eq_iff k i).0 same in rw same (rw eq s.0, s.1)
    | inr other ↦ elim (Bool-cases (text_lt k i)) [
      | inl first ↦ rw (other, first) ((first, Below-trans k i m first s.0), s)
      | inr later ↦
          rw (other, later)
            (insert-Below i k v m (text_lt_total k i other later) s.0, insert-IsSorted k v m s.1)
    ]
  ]

  lookup-Below : (k : Text) (m : Dict Text V) → Below k m → lookup k m ≡ none
  unfolding lookup
  lookup-Below k [] b = refl
  lookup-Below k ((i, w) ∷ m) b = elim (Bool-cases (text_eq k i)) [
    | inl same ↦
        let eq : k ≡ i = (text_eq_iff k i).0 same in
        let back : text_lt i i ≡ true = rw eq at b.0 in absurd (ground (arith, text_lt_irrefl i))
    | inr other ↦ rw other (lookup-Below k m b.1)
  ]

  pub length-insert-le : (k : Text) (v : V) (m : Dict Text V) → length (insert k v m) ≤ length m + 1
  unfolding insert
  length-insert-le k v [] = omega arith
  length-insert-le k v ((i, w) ∷ m) = ground (arith, length-insert-le k v m)

  pub length-insert-known :
      (k : Text) (v w : V) (m : Dict Text V)
      → IsSorted m
      → lookup k m ≡ some w
      → length (insert k v m) ≡ length m
  unfolding insert lookup
  length-insert-known k v w [] s h = absurd (ground arith)
  length-insert-known k v w ((i, u) ∷ m) s h = elim (Bool-cases (text_eq k i)) [
    | inl same ↦ rw same refl
    | inr other ↦ elim (Bool-cases (text_lt k i)) [
      | inl first ↦
          let gone : lookup k m ≡ none = lookup-Below k m (Below-trans k i m first s.0) in
          absurd (ground arith)
      | inr later ↦ rw (other, later) (ap suc (length-insert-known k v w m s.1 (rw other at h)))
    ]
  ]

  keep_if-Below :
      (p : Text × V → Bool) (k : Text) (m : Dict Text V) → Below k m → Below k (keep_if p m)
  keep_if-Below p k [] b = tt
  keep_if-Below p k (entry ∷ m) b = ground (arith, keep_if-Below p k m b.1)

  pub keep_if-IsSorted :
      (p : Text × V → Bool) (m : Dict Text V) → IsSorted m → IsSorted (keep_if p m)
  keep_if-IsSorted p [] s = tt
  keep_if-IsSorted p (entry ∷ m) s =
      if_intro IsSorted (p entry) (keep_if-Below p entry.0 m s.0, keep_if-IsSorted p m s.1)
        (keep_if-IsSorted p m s.1)

  erase-Below : (j k : Text) (m : Dict Text V) → Below j m → Below j (erase k m)
  unfolding erase
  erase-Below j k [] b = tt
  erase-Below j k ((i, w) ∷ m) b = ground (arith, erase-Below j k m b.1)

  pub erase-IsSorted : (k : Text) (m : Dict Text V) → IsSorted m → IsSorted (erase k m)
  unfolding erase
  erase-IsSorted k [] s = tt
  erase-IsSorted k ((i, w) ∷ m) s =
      if_intro IsSorted (text_eq k i) (erase-IsSorted k m s.1)
        (erase-Below i k m s.0, erase-IsSorted k m s.1)

  pub length-erase-le : (k : Text) (m : Dict Text V) → length (erase k m) ≤ length m
  unfolding erase
  length-erase-le k [] = omega arith
  length-erase-le k ((i, w) ∷ m) = ground (arith, length-erase-le k m)

  -- Erasing a key that is there makes the list shorter.
  pub length-erase-known :
      (k : Text) (v : V) (m : Dict Text V) → lookup k m ≡ some v → length (erase k m) + 1 ≤ length m
  unfolding erase lookup
  length-erase-known k v [] h = absurd (ground arith)
  length-erase-known k v ((i, w) ∷ m) h = elim (Bool-cases (text_eq k i)) [
    | inl same ↦ rw same (omega (arith, length-erase-le k m))
    | inr other ↦ rw other (omega (arith, length-erase-known k v m (rw other at h)))
  ]
