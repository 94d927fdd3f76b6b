-- ===== src/Prelude/Dict.antt =====
-- `std::map`, and `std::unordered_map` where its order is not observed, as an association list that
-- an insertion keeps in the order of the keys; sets of keys as lists without repetition.
use mathlib.Core.Path.{◌≡◌, refl, sym}
use mathlib.Core.Logic.{inl, inr}
use mathlib.Core.Bool.{Bool, true, false, not, ◌||◌}
use mathlib.Core.Option.{Option, none, some}
use mathlib.Core.List.{List, [], ◌∷◌}
use native.Mathlib.Omega.{arith}
use neuro_mesh.Prelude.Tests.{if◌then◌else◌, Bool-cases}
use neuro_mesh.Prelude.Lists.{keep_if, All}
use neuro_mesh.Prelude.Keys.{Key, text_key, nat_key}

abbrev pub Dict : Type 0 → Type 0 → Type 0
Dict K V = List (K × V)

module _ {K V : Type 0} ⦃e : Key K⦄ where
  -- `m.find(k)`
  unfoldable pub lookup : K → Dict K V → Option V
  lookup k [] = none
  lookup k ((j, v) ∷ m) = if e.eqb k j then some v else lookup k m

  -- `m.count(k) > 0`
  unfoldable pub has_key : K → Dict K V → Bool
  unfolding lookup
  has_key k m = elim (lookup k m) [ none ↦ false | some _ ↦ true ]

  -- `m[k]`, read as the default value of a new entry where there is none
  unfoldable pub lookup_or : K → V → Dict K V → V
  unfolding lookup
  lookup_or k d m = elim (lookup k m) [ none ↦ d | some v ↦ v ]

  -- `m[k] = v`
  unfoldable pub insert : K → V → Dict K V → Dict K V
  insert k v [] = (k, v) ∷ []
  insert k v ((j, w) ∷ m) =
      if e.eqb k j
      then (k, v) ∷ m
      else if e.before k j
      then (k, v) ∷ (j, w) ∷ m
      else (j, w) ∷ insert k v m

  -- `m.erase(k)`
  unfoldable pub erase : K → Dict K V → Dict K V
  erase k [] = []
  erase k ((j, w) ∷ m) = if e.eqb k j then erase k m else (j, w) ∷ erase k m

  pub lookup-insert :
      (j k : K) (v : V) (m : Dict K V)
      → lookup j (insert k v m) ≡ (if e.eqb j k then some v else lookup j m)
  unfolding lookup insert
  lookup-insert j k v [] = refl
  lookup-insert j k v ((i, w) ∷ m) =
      ground (arith, e.eqb_iff j k, e.eqb_iff k i, e.eqb_iff j i, lookup-insert j k v m)

  pub lookup-erase :
      (j k : K) (m : Dict K V) → lookup j (erase k m) ≡ (if e.eqb j k then none else lookup j m)
  unfolding lookup erase
  lookup-erase j k [] = ground arith
  lookup-erase j k ((i, w) ∷ m) =
      ground (arith, e.eqb_iff j k, e.eqb_iff k i, e.eqb_iff j i, lookup-erase j k m)

  -- A property of every entry survives an insertion and an erasure.
  abbrev pub AllValues : (K → V → Type 0) → Dict K V → Type 0
  AllValues P m = All (λ (entry : K × V). P entry.0 entry.1) m

  pub insert-AllValues :
      (P : K → V → Type 0) (k : K) (v : V) (m : Dict K V)
      → P k v
      → AllValues P m
      → AllValues P (insert k v m)
  unfolding insert
  insert-AllValues P k v [] h a = (h, tt)
  insert-AllValues P k v ((i, w) ∷ m) h a = ground (arith, insert-AllValues P k v m h a.1)

  pub erase-AllValues :
      (P : K → V → Type 0) (k : K) (m : Dict K V) → AllValues P m → AllValues P (erase k m)
  unfolding erase
  erase-AllValues P k [] a = tt
  erase-AllValues P k ((i, w) ∷ m) a = ground (arith, erase-AllValues P k m a.1)

  pub lookup-AllValues :
      (P : K → V → Type 0) (k : K) (v : V) (m : Dict K V)
      → AllValues P m
      → lookup k m ≡ some v
      → P k v
  unfolding lookup
  lookup-AllValues P k v [] a h = absurd (ground arith)
  lookup-AllValues P k v ((i, w) ∷ m) a h = elim (Bool-cases (e.eqb k i)) [
    | inl same ↦
        let key : i ≡ k = sym ((e.eqb_iff k i).0 same) in
        let value : w ≡ v = ground arith in rw (key, value) at a.0
    | inr other ↦ lookup-AllValues P k v m a.1 (ground arith)
  ]

module _ {K : Type 0} ⦃e : Key K⦄ where
  -- `s.count(k) > 0`
  unfoldable pub contains : K → List K → Bool
  contains k [] = false
  contains k (x ∷ xs) = e.eqb k x || contains k xs

  -- `s.insert(k)`
  unfoldable pub add : K → List K → List K
  unfolding contains
  add k s = if contains k s then s else k ∷ s

  -- `s.erase(k)`
  unfoldable pub remove : K → List K → List K
  remove k s = keep_if (λ x. not (e.eqb k x)) s

  abbrev pub Distinct : List K → Type 0
  Distinct [] = Unit
  Distinct (x ∷ xs) = (contains x xs ≡ false) × Distinct xs

  pub contains-add : (j k : K) (s : List K) → contains j (add k s) ≡ (e.eqb j k || contains j s)
  unfolding contains add
  contains-add j k s = ground (arith, e.eqb_iff j k, e.eqb_iff k k)

  pub contains-remove :
      (j k : K) (s : List K) → contains j (remove k s) ≡ (if e.eqb j k then false else contains j s)
  unfolding contains remove
  contains-remove j k [] = ground arith
  contains-remove j k (x ∷ s) =
      ground (arith, e.eqb_iff j k, e.eqb_iff k x, e.eqb_iff j x, contains-remove j k s)

  pub add-Distinct : (k : K) (s : List K) → Distinct s → Distinct (add k s)
  unfolding add
  add-Distinct k s d = ground arith

  pub remove-Distinct : (k : K) (s : List K) → Distinct s → Distinct (remove k s)
  unfolding remove
  remove-Distinct k [] d = tt
  remove-Distinct k (x ∷ s) d = ground (arith, remove-Distinct k s d.1, contains-remove x k s)
