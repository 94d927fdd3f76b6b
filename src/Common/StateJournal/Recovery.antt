-- ===== src/Common/StateJournal/Recovery.antt =====
-- Histories of appends to the file of common/StateJournal.hpp, and the counter that the constructor
-- finds in it.
use neuro_mesh.Prelude.{
  ℕ, suc, ◌+◌, ◌%◌, ◌^◌, ◌≤◌, ◌<◌, ◌≡◌, refl, sym, ap, ◌∙◌, true, false, not, ◌&&◌, some, List, [],
  ◌∷◌, ◌++◌, Text, is_empty, if◌then◌else◌, length, take, max, All, arith, inl, inr, ◌⊎◌,
}
use mathlib.Core.List.{append_assoc}
use neuro_mesh.Common.StateJournal.Lines.{IsLine, journal_line-IsLine, extract_seq-journal_line}
use neuro_mesh.Common.StateJournal.{
  u64_max, extract_seq, split_lines, greatest_seq, recover, journal_line, StateJournal, FileCalls,
  rotate, write_line, append, open_journal,
}

-- Lines with a newline after each.
unlines : List Text → Text
unlines [] = []
unlines (line ∷ lines) = line ++ b'\n' ∷ unlines lines

split-line :
    (line rest : Text)
    → IsLine line
    → split_lines (line ++ b'\n' ∷ rest) ≡ (line, (split_lines rest).0 ∷ (split_lines rest).1)
unfolding split_lines
split-line [] rest h = refl
split-line (c ∷ line) rest h = rw (h.0, split-line line rest h.1) refl

recover-unlines :
    (lines : List Text) → All IsLine lines → recover (unlines lines) ≡ greatest_seq lines
unfolding recover greatest_seq unlines split_lines
recover-unlines [] h = ground arith
recover-unlines (line ∷ lines) h =
    rw (split-line line (unlines lines) h.0)
      (ap (max (if is_empty line then 0 else extract_seq line)) (recover-unlines lines h.1))

unlines-append :
    (lines : List Text) (line : Text)
    → unlines lines ++ (line ++ b'\n' ∷ []) ≡ unlines (lines ++ line ∷ [])
unfolding unlines
unlines-append [] line = refl
unlines-append (l ∷ lines) line =
    append_assoc l (b'\n' ∷ unlines lines) _
    ∙ ap (λ rest. l ++ b'\n' ∷ rest) (unlines-append lines line)

greatest-append :
    (lines : List Text) (line : Text)
    → greatest_seq (lines ++ line ∷ [])
      ≡ max (greatest_seq lines) (if is_empty line then 0 else extract_seq line)
unfolding greatest_seq
greatest-append [] line = ground arith
greatest-append (l ∷ lines) line = ground (arith, greatest-append lines line)

All-append :
    (lines : List Text) (line : Text)
    → All IsLine lines
    → IsLine line
    → All IsLine (lines ++ line ∷ [])
All-append [] line h k = (k, tt)
All-append (l ∷ lines) line h k = (h.0, All-append lines line h.1 k)

take-whole : {A : Type 0} (s : List A) → take (length s) s ≡ s
take-whole [] = refl
take-whole (c ∷ s) = ap (λ t. c ∷ t) (take-whole s)

-- The file is whole lines, with the journal's counter as a bound on their numbers.
record IsRecorded (bound : ℕ) (content : Text) : Type 0 where
  lines : List Text
  whole : All IsLine lines
  same : content ≡ unlines lines
  below : greatest_seq lines ≤ bound

extract-nonempty :
    (line : Text) → (if is_empty line then 0 else extract_seq line) ≡ extract_seq line
unfolding extract_seq
extract-nonempty [] = refl
extract-nonempty (c ∷ line) = refl

IsRecorded-line :
    (bound seq : ℕ) (content line : Text)
    → IsRecorded bound content
    → IsLine line
    → extract_seq line ≡ seq
    → bound ≤ seq
    → 1 ≤ seq
    → IsRecorded seq (content ++ (line ++ b'\n' ∷ []))
      × (recover (content ++ (line ++ b'\n' ∷ [])) ≡ seq)
IsRecorded-line bound seq content line r k e b p =
    let grown : content ++ (line ++ b'\n' ∷ []) ≡ unlines (r.lines ++ line ∷ []) =
      ap (λ s. s ++ (line ++ b'\n' ∷ [])) r.same ∙ unlines-append r.lines line in
    let all = All-append r.lines line r.whole k in
    let greatest : greatest_seq (r.lines ++ line ∷ []) ≡ seq =
      ground (arith, greatest-append r.lines line, extract-nonempty line, r.below) in
    (
      record { lines = r.lines ++ line ∷ []; whole = all; same = grown; below = omega arith },
      ap recover grown ∙ recover-unlines (r.lines ++ line ∷ []) all ∙ greatest,
    )

rotate-content :
    (calls : FileCalls) (j : StateJournal)
    → ((rotate calls j).content ≡ []) ⊎ ((rotate calls j).content ≡ j.content)
unfolding rotate
rotate-content calls j = ground arith

rotate-seq : (calls : FileCalls) (j : StateJournal) → (rotate calls j).seq ≡ j.seq
unfolding rotate
rotate-seq calls j = ground arith

empty-IsRecorded : (bound : ℕ) → IsRecorded bound []
unfolding unlines greatest_seq
empty-IsRecorded bound = record { lines = []; whole = tt; same = refl; below = omega arith }

rotate-IsRecorded :
    (calls : FileCalls) (bound : ℕ) (j : StateJournal)
    → IsRecorded bound j.content
    → IsRecorded bound (rotate calls j).content
rotate-IsRecorded calls bound j r = elim (rotate-content calls j) [
  | inl emptied ↦ rw emptied (empty-IsRecorded bound)
  | inr kept ↦ rw kept r
]

write-whole :
    (calls : FileCalls) (line : Text) (j : StateJournal)
    → calls.written line ≡ some (length line)
    → write_line calls line j
      ≡ record j { content = j.content ++ line; write_failure_logged = false }
unfolding write_line
write-whole calls line j e = rw (write_line, e, take-whole line) refl

-- An append whose system calls all succeed in full.
pub record Entry : Type 0 where
  pub calls : FileCalls
  pub now_ms : ℕ
  pub stage : Text
  pub target_id : Text
  pub evidence_json : Text

pub record IsWhole (e : Entry) : Type 0 where
  pub stage_line : IsLine e.stage
  pub target_line : IsLine e.target_id
  pub opens : e.calls.opens ≡ true
  pub writes : (line : Text) → e.calls.written line ≡ some (length line)

module _ (sha256_hex : Text → Text) (hash-line : (text : Text) → IsLine (sha256_hex text)) where
  unfoldable pub append_all : List Entry → StateJournal → StateJournal
  unfolding append
  append_all [] j = j
  append_all (e ∷ entries) j =
      append_all entries
        (append sha256_hex e.calls e.now_ms e.stage e.target_id e.evidence_json j).0

  append-whole :
      (e : Entry) (j : StateJournal)
      → IsWhole e
      → let seq = suc j.seq % 2 ^ 64 in
        let hash = sha256_hex e.evidence_json in
        let line =
          journal_line seq e.now_ms e.stage e.target_id e.evidence_json hash ++ b'\n' ∷ [] in
        let rotated = rotate e.calls (record j { seq = seq; is_open = true }) in
        (append sha256_hex e.calls e.now_ms e.stage e.target_id e.evidence_json j).0
        ≡ record rotated { content = rotated.content ++ line; write_failure_logged = false }
  unfolding append
  append-whole e j w =
      let open_file : (not j.is_open && not e.calls.opens) ≡ false = rw w.opens (ground arith) in
      let seq : ℕ = suc j.seq % 2 ^ 64 in
      let hash : Text = sha256_hex e.evidence_json in
      let line : Text =
        journal_line seq e.now_ms e.stage e.target_id e.evidence_json hash ++ b'\n' ∷ [] in
      let rotated : StateJournal = rotate e.calls (record j { seq = seq; is_open = true }) in
      rw open_file (write-whole e.calls line rotated (w.writes line))

  -- What an append leaves: the counter went up by one, and a restart finds it in the file.
  abbrev IsAppended : ℕ → StateJournal → Type 0
  IsAppended seq k = (k.seq ≡ seq) × IsRecorded seq k.content × (recover k.content ≡ seq)

  append-IsRecorded :
      (e : Entry) (j : StateJournal)
      → IsWhole e
      → j.seq < u64_max
      → IsRecorded j.seq j.content
      → IsAppended
          (suc j.seq)
          (append sha256_hex e.calls e.now_ms e.stage e.target_id e.evidence_json j).0
  append-IsRecorded e j w b r =
      let seq : ℕ = suc j.seq % 2 ^ 64 in
      let next : seq ≡ suc j.seq = omega arith in
      let hash : Text = sha256_hex e.evidence_json in
      let line : Text = journal_line seq e.now_ms e.stage e.target_id e.evidence_json hash in
      let ready : StateJournal = record j { seq = seq; is_open = true } in
      let one_line : IsLine line =
        journal_line-IsLine seq e.now_ms e.stage e.target_id e.evidence_json hash w.stage_line
          w.target_line (hash-line e.evidence_json) in
      let read : extract_seq line ≡ suc j.seq =
        extract_seq-journal_line seq e.now_ms e.stage e.target_id e.evidence_json hash (omega arith)
        ∙ next in
      let (recorded, found) =
        IsRecorded-line j.seq (suc j.seq) (rotate e.calls ready).content line
          (rotate-IsRecorded e.calls j.seq ready r) one_line read (omega arith) (omega arith) in
      rw (append-whole e j w) (rotate-seq e.calls ready ∙ next, recorded, found)

  append_all-IsRecorded :
      (entries : List Entry) (j : StateJournal)
      → All IsWhole entries
      → j.seq + length entries ≤ u64_max
      → IsRecorded j.seq j.content
      → recover j.content ≡ j.seq
      → let k = append_all entries j in
        (recover k.content ≡ k.seq) × (k.seq ≡ j.seq + length entries)
  unfolding append_all
  append_all-IsRecorded [] j w b r e = (e, omega arith)
  append_all-IsRecorded (entry ∷ entries) j w b r e =
      let (counted, recorded, read) = append-IsRecorded entry j w.0 (omega arith) r in
      let k =
        (append sha256_hex entry.calls entry.now_ms entry.stage entry.target_id entry.evidence_json
          j).0 in
      let (found, total) =
        append_all-IsRecorded entries k w.1 (omega arith) (rw counted recorded)
          (read ∙ sym counted) in
      (found, omega arith)

  -- After any number of appends to a new file, in which every system call but those of the rotation
  -- succeeds in full, no stage and no target has a newline and the counter does not wrap around, the
  -- constructor finds in the file the number of the last append, whether the file was rotated or not.
  pub append_all-recover :
      (entries : List Entry)
      → All IsWhole entries
      → length entries ≤ u64_max
      → recover (append_all entries (open_journal true true [])).content ≡ length entries
  unfolding open_journal recover split_lines greatest_seq
  append_all-recover entries w b =
      let (found, total) =
        append_all-IsRecorded entries (open_journal true true []) w (omega arith)
          (empty-IsRecorded 0) refl in
      found ∙ omega (arith, total)
