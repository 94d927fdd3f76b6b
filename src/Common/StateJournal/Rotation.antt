-- ===== src/Common/StateJournal/Rotation.antt =====
-- The rotation of the file in common/StateJournal.hpp.
use neuro_mesh.Prelude.{
  ℕ, zero, suc, ◌<◌, ◌≡◌, refl, true, Option, none, some, List, [], ◌∷◌, Text, lt→ltb, ◌==◌, length,
  take, ◌⊎◌, inl, inr, arith, ap, Bool-cases,
}
use neuro_mesh.Common.StateJournal.{
  StateJournal, FileCalls, copy_backup, rotate, rotation_size, up_to,
}

take-short : {A : Type 0} (n : ℕ) (s : List A) → length (take n s) ≡ length s → take n s ≡ s
take-short zero [] e = refl
take-short zero (c ∷ s) e = absurd (ground arith)
take-short (suc n) [] e = refl
take-short (suc n) (c ∷ s) e = ap (λ t. c ∷ t) (take-short n s (ground arith))

up_to-whole : (n : Option ℕ) (s : Text) → length (up_to n s) ≡ length s → up_to n s ≡ s
up_to-whole none s e = refl
up_to-whole (some n) s e = take-short n s e

-- While no read fails the rotation loses nothing, whatever else fails: the file is as it was, or it
-- is empty and the backup has all of it.
pub rotate-keeps :
    (calls : FileCalls) (j : StateJournal)
    → calls.read_fails_after ≡ none
    → ((rotate calls j).content ≡ j.content)
      ⊎ (((rotate calls j).content ≡ []) × ((rotate calls j).backup ≡ j.content))
unfolding rotate copy_backup
rotate-keeps calls j e =
    let read_all : up_to calls.read_fails_after j.content ≡ j.content = rw e refl in
    let put = up_to calls.backup_short_after j.content in
    elim (Bool-cases (length put == length j.content)) [
      | inl whole ↦
          let same : put ≡ j.content =
            up_to-whole calls.backup_short_after j.content (ground arith) in
          rw (read_all, same) (ground arith)
      | inr short ↦ rw (read_all, short) (ground arith)
    ]

-- If the file is larger than the limit and every call of the rotation succeeds but a read, which
-- fails after n bytes, then the rotation empties the file although the backup has its first n
-- bytes only.
pub rotate-read_fails :
    (calls : FileCalls) (n : ℕ) (j : StateJournal)
    → rotation_size < length j.content
    → calls.locks ≡ true
    → calls.stats ≡ true
    → calls.backup_opens ≡ true
    → calls.seeks ≡ true
    → calls.truncates ≡ true
    → calls.read_fails_after ≡ some n
    → calls.backup_short_after ≡ none
    → ((rotate calls j).content ≡ []) × ((rotate calls j).backup ≡ take n j.content)
unfolding rotate copy_backup
rotate-read_fails calls n j big l s b k t r w =
    rw (l, s, b, k, t, r, w, lt→ltb rotation_size (length j.content) big) (ground arith)
