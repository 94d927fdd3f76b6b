-- ===== src/Common/StateJournal.antt =====
-- common/StateJournal.hpp: the journal's lines, its counter, and the recovery of the counter from a
-- file. A file is its bytes; what the system calls of an append give is its parameter.
pub mod Lines
pub mod Recovery
pub mod Rotation
use neuro_mesh.Prelude.{
  ℕ, zero, suc, ◌+◌, ◌-◌, ◌*◌, ◌/◌, ◌%◌, ◌^◌, Bool, true, false, not, ◌&&◌, ◌||◌, Option, none,
  some, List, [], ◌∷◌, ◌++◌, Text, codes, is_empty, if◌then◌else◌, ltb, leb, ◌==◌, length, max,
  take,
}
use neuro_mesh.Prelude.Decimal.{to_text, is_digit}
use neuro_mesh.Prelude.Search.{strip_prefix}
use neuro_mesh.Crypto.Core.{hex_digit}

abbrev pub u64_max : ℕ
u64_max = 2 ^ 64 - 1

-- A byte of the evidence as it stands in the line; `snprintf` prints four hexadecimal digits.
unfoldable pub escape_byte : ℕ → Text
unfolding hex_digit
escape_byte c =
    if c == b'"' || c == b'\\'
    then b'\\' ∷ c ∷ []
    else if c == b'\n'
    then codes "\\n"
    else if c == b'\t'
    then codes "\\t"
    else if ltb c 32
    then codes "\\u00" ++ hex_digit (c / 16) ∷ hex_digit (c % 16) ∷ []
    else c ∷ []

-- The loop of `append` over the evidence.
unfoldable pub escape : Text → Text
unfolding escape_byte
escape [] = []
escape (c ∷ s) = escape_byte c ++ escape s

-- A number of times `'0'`, for a hash that could not be computed.
unfoldable pub zeros : ℕ → Text
zeros zero = []
zeros (suc n) = b'0' ∷ zeros n

-- A literal and a value before the rest of a line.
abbrev pub field : Text → Text → Text → Text
field name value rest = name ++ (value ++ rest)

-- The line of an entry from its time on, and the whole line, without the newline at its end.
unfoldable pub line_from_time : (now_ms stage target_id evidence hash : Text) → Text
line_from_time now_ms stage target_id evidence hash = field (codes ",\"ts\":") now_ms (
    field (codes ",\"stage\":\"") stage (
      field (codes "\",\"target\":\"") target_id (
        field (codes "\",\"evidence\":\"") evidence
          (field (codes "\",\"hash\":\"") hash (codes "\"}")))))

unfoldable pub line_of : (seq now_ms stage target_id evidence hash : Text) → Text
unfolding line_from_time
line_of seq now_ms stage target_id evidence hash =
    field (codes "{\"seq\":") seq (line_from_time now_ms stage target_id evidence hash)

unfoldable pub journal_line : (seq now_ms : ℕ) (stage target_id evidence_json hash : Text) → Text
unfolding line_of escape to_text zeros
journal_line seq now_ms stage target_id evidence_json hash =
    line_of (to_text seq) (to_text now_ms) stage target_id (escape evidence_json)
      (if is_empty hash then zeros 64 else hash)

-- What follows the first occurrence of a pattern: `line.find(pattern)`.
unfoldable pub find_after : Text → Text → Option Text
unfolding strip_prefix
find_after pattern [] = strip_prefix pattern []
find_after pattern (c ∷ s) =
    let later = find_after pattern s in
    elim (strip_prefix pattern (c ∷ s)) [ none ↦ later | some rest ↦ some rest ]

-- The loop of `extract_seq`; a number that does not fit into 64 bits counts as 0.
unfoldable pub extract_digits : ℕ → Text → ℕ
extract_digits val [] = val
extract_digits val (c ∷ s) =
    let digit = c - b'0' in
    let more = extract_digits (val * 10 + digit) s in
    if is_digit c then if ltb ((u64_max - digit) / 10) val then 0 else more else val

unfoldable pub extract_seq : Text → ℕ
unfolding find_after extract_digits
extract_seq line = elim (find_after (codes "\"seq\":") line) [
  | none ↦ 0
  | some rest ↦ extract_digits 0 rest
]

-- The first line of a file, and the lines after it; an empty one may stand at the end.
unfoldable pub split_lines : Text → Text × List Text
split_lines [] = ([], [])
split_lines (c ∷ s) =
    let (line, lines) = split_lines s in
    if c == b'\n' then ([], line ∷ lines) else (c ∷ line, lines)

unfoldable pub greatest_seq : List Text → ℕ
unfolding extract_seq
greatest_seq [] = 0
greatest_seq (line ∷ lines) =
    max (if is_empty line then 0 else extract_seq line) (greatest_seq lines)

-- The counter that the constructor finds in a file.
unfoldable pub recover : Text → ℕ
unfolding split_lines greatest_seq
recover content = let (line, lines) = split_lines content in greatest_seq (line ∷ lines)

pub record StateJournal : Type 0 where
  pub seq : ℕ
  pub is_open : Bool
  pub content : Text
  pub backup : Text
  pub write_failure_logged : Bool

-- What the system calls of one append give: whether the file opens, whether it is locked, whether
-- `fstat`, the open of the backup, `lseek` and `ftruncate` succeed, after how many bytes a `read` of
-- the rotation fails and a `write` to the backup comes short (`none` for never), and how many bytes
-- the write of the line takes (`none` if it fails).
pub record FileCalls : Type 0 where
  pub opens : Bool
  pub locks : Bool
  pub stats : Bool
  pub backup_opens : Bool
  pub seeks : Bool
  pub read_fails_after : Option ℕ
  pub backup_short_after : Option ℕ
  pub truncates : Bool
  pub written : Text → Option ℕ

abbrev pub rotation_size : ℕ
rotation_size = 10 * 1024 * 1024

abbrev pub up_to : Option ℕ → Text → Text
up_to none s = s
up_to (some n) s = take n s

-- The copy to the backup: what is written of what is read, and whether no write came short.
unfoldable pub copy_backup : FileCalls → Text → Text × Bool
copy_backup calls content =
    let got = up_to calls.read_fails_after content in
    let put = up_to calls.backup_short_after got in (put, length put == length got)

-- The rotation by copying and truncating, under the lock.
unfoldable pub rotate : FileCalls → StateJournal → StateJournal
unfolding copy_backup
rotate calls j =
    if calls.locks && calls.stats && ltb rotation_size (length j.content) && calls.backup_opens
    then (let (put, copy_ok) = copy_backup calls j.content in
        if not calls.seeks then record j { backup = [] } else record j {
          backup = put;
          content = if copy_ok && calls.truncates then [] else j.content;
        })
    else j

-- The write of the line at the end of the file.
unfoldable pub write_line : FileCalls → Text → StateJournal → StateJournal
write_line calls line j = elim (calls.written line) [
  | none ↦ record j { write_failure_logged = true }
  | some n ↦ record j { content = j.content ++ take n line; write_failure_logged = false }
]

module _ (sha256_hex : Text → Text) where
  unfoldable pub append :
      FileCalls
      → (now_ms : ℕ) (stage target_id evidence_json : Text) → StateJournal
      → StateJournal × ℕ
  unfolding rotate write_line journal_line
  append calls now_ms stage target_id evidence_json j =
      let seq = suc j.seq % 2 ^ 64 in
      let hash = sha256_hex evidence_json in
      let line = journal_line seq now_ms stage target_id evidence_json hash ++ b'\n' ∷ [] in
      let counted : StateJournal = record j { seq = seq } in
      if not j.is_open && not calls.opens
      then (counted, seq)
      else (write_line calls line (rotate calls (record counted { is_open = true })), seq)

-- The constructor, on a file with some content, which may not be readable.
unfoldable pub open_journal : (reads opens : Bool) → Text → StateJournal
unfolding recover
open_journal reads opens content = record {
  seq = if reads then recover content else 0;
  is_open = opens;
  content = content;
  backup = [];
  write_failure_logged = false;
}
