-- ===== src/Common/StateJournal/Lines.antt =====
-- The lines of common/StateJournal.hpp and the numbers in them.
use neuro_mesh.Prelude.{
  ℕ, zero, suc, ◌+◌, ◌/◌, ◌%◌, ◌≤◌, ◌≡◌, refl, ◌∙◌, true, false, not, [], ◌∷◌, ◌++◌, Text, codes,
  is_empty, all_of, if_intro, if◌then◌else◌, ◌==◌, All, arith,
}
use neuro_mesh.Prelude.Decimal.{to_text, digits}
use neuro_mesh.Crypto.Core.{hex_digit}
use neuro_mesh.Prelude.Search.{strip_prefix}
use neuro_mesh.Common.StateJournal.{
  u64_max, escape_byte, escape, zeros, field, line_from_time, line_of, journal_line, find_after,
  extract_digits, extract_seq,
}

-- No byte of the text is a newline.
abbrev pub IsLine : Text → Type 0
IsLine s = All (λ c. (c == b'\n') ≡ false) s

append-IsLine : (s t : Text) → IsLine s → IsLine t → IsLine (s ++ t)
append-IsLine [] t h k = k
append-IsLine (c ∷ s) t h k = (h.0, append-IsLine s t h.1 k)

escape_byte-IsLine : (c : ℕ) → IsLine (escape_byte c)
unfolding escape_byte hex_digit
escape_byte-IsLine c = ground arith

digits-IsLine : (f n : ℕ) (rest : Text) → IsLine rest → IsLine (digits f n rest)
unfolding digits
digits-IsLine zero n rest h = h
digits-IsLine (suc f) n rest h = ground (arith, digits-IsLine f (n / 10) ((b'0' + n % 10) ∷ rest))

digits-append : (f n : ℕ) (rest s : Text) → digits f n rest ++ s ≡ digits f n (rest ++ s)
unfolding digits
digits-append zero n rest s = refl
digits-append (suc f) n rest s = ground (arith, digits-append f (n / 10) ((b'0' + n % 10) ∷ rest) s)

extract-digits :
    (f n : ℕ) (rest : Text)
    → n ≤ f
    → n ≤ u64_max
    → extract_digits 0 (digits (suc f) n rest) ≡ extract_digits n rest
unfolding extract_digits digits
extract-digits zero n rest h k = ground arith
extract-digits (suc f) n rest h k =
    ground (arith, extract-digits f (n / 10) ((b'0' + n % 10) ∷ rest))

escape-IsLine : (s : Text) → IsLine (escape s)
unfolding escape
escape-IsLine [] = tt
escape-IsLine (c ∷ s) =
    append-IsLine (escape_byte c) (escape s) (escape_byte-IsLine c) (escape-IsLine s)

zeros-IsLine : (n : ℕ) → IsLine (zeros n)
unfolding zeros
zeros-IsLine zero = tt
zeros-IsLine (suc n) = (ground arith, zeros-IsLine n)

to_text-IsLine : (n : ℕ) → IsLine (to_text n)
unfolding to_text
to_text-IsLine n = digits-IsLine (suc n) n [] tt

-- A literal is checked byte by byte.
literal-IsLine : (s t : Text) → all_of (λ c. not (c == b'\n')) s ≡ true → IsLine t → IsLine (s ++ t)
literal-IsLine [] t h k = k
literal-IsLine (c ∷ s) t h k = (ground arith, literal-IsLine s t (ground arith) k)

field-IsLine :
    (name s t : Text)
    → all_of (λ c. not (c == b'\n')) name ≡ true
    → IsLine s
    → IsLine t
    → IsLine (field name s t)
field-IsLine name s t n h k = literal-IsLine name (s ++ t) n (append-IsLine s t h k)

line_of-IsLine :
    (seq now_ms stage target_id evidence hash : Text)
    → IsLine seq
    → IsLine now_ms
    → IsLine stage
    → IsLine target_id
    → IsLine evidence
    → IsLine hash
    → IsLine (line_of seq now_ms stage target_id evidence hash)
unfolding line_of line_from_time
line_of-IsLine seq now_ms stage target_id evidence hash q n s t e h =
    let from_hash = field (codes "\",\"hash\":\"") hash (codes "\"}") in
    let from_evidence = field (codes "\",\"evidence\":\"") evidence from_hash in
    let from_target = field (codes "\",\"target\":\"") target_id from_evidence in
    let from_stage = field (codes ",\"stage\":\"") stage from_target in
    let from_time = field (codes ",\"ts\":") now_ms from_stage in
    let line_h : IsLine from_hash =
      field-IsLine (codes "\",\"hash\":\"") hash (codes "\"}") refl h
        (literal-IsLine (codes "\"}") [] refl tt) in
    let line_e : IsLine from_evidence =
      field-IsLine (codes "\",\"evidence\":\"") evidence from_hash refl e line_h in
    let line_t : IsLine from_target =
      field-IsLine (codes "\",\"target\":\"") target_id from_evidence refl t line_e in
    let line_s : IsLine from_stage =
      field-IsLine (codes ",\"stage\":\"") stage from_target refl s line_t in
    let line_n : IsLine from_time =
      field-IsLine (codes ",\"ts\":") now_ms from_stage refl n line_s in
    field-IsLine (codes "{\"seq\":") seq from_time refl q line_n

-- A journal line has no newline in it, whatever the evidence, if the stage, the target and the hash
-- have none.
pub journal_line-IsLine :
    (seq now_ms : ℕ) (stage target_id evidence_json hash : Text)
    → IsLine stage
    → IsLine target_id
    → IsLine hash
    → IsLine (journal_line seq now_ms stage target_id evidence_json hash)
unfolding journal_line
journal_line-IsLine seq now_ms stage target_id evidence_json hash s t h =
    line_of-IsLine (to_text seq) (to_text now_ms) stage target_id (escape evidence_json) _
      (to_text-IsLine seq) (to_text-IsLine now_ms) s t (escape-IsLine evidence_json)
      (if_intro IsLine (is_empty hash) (zeros-IsLine 64) h)

extract_seq-line_of :
    (seq now_ms stage target_id evidence hash : Text)
    → (tail : Text) × (extract_seq (line_of seq now_ms stage target_id evidence hash)
        ≡ extract_digits 0 (seq ++ b',' ∷ tail))
unfolding extract_seq line_of line_from_time find_after strip_prefix
extract_seq-line_of seq now_ms stage target_id evidence hash = (
  field (codes "\"ts\":") now_ms (
      field (codes ",\"stage\":\"") stage (
        field (codes "\",\"target\":\"") target_id (
          field (codes "\",\"evidence\":\"") evidence
            (field (codes "\",\"hash\":\"") hash (codes "\"}"))))),
  refl,
)

extract-to_text :
    (n : ℕ) (tail : Text) → n ≤ u64_max → extract_digits 0 (to_text n ++ b',' ∷ tail) ≡ n
unfolding to_text extract_digits
extract-to_text n tail k =
    rw (digits-append (suc n) n [] (b',' ∷ tail)) (extract-digits n n (b',' ∷ tail) (omega arith) k)

-- The number of an entry is read back from its line.
pub extract_seq-journal_line :
    (seq now_ms : ℕ) (stage target_id evidence_json hash : Text)
    → seq ≤ u64_max
    → extract_seq (journal_line seq now_ms stage target_id evidence_json hash) ≡ seq
unfolding journal_line
extract_seq-journal_line seq now_ms stage target_id evidence_json hash k =
    let (tail, read) =
      extract_seq-line_of (to_text seq) (to_text now_ms) stage target_id (escape evidence_json)
        (if is_empty hash then zeros 64 else hash) in
    read ∙ extract-to_text seq tail k
