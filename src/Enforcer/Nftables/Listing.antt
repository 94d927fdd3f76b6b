-- ===== src/Enforcer/Nftables/Listing.antt =====
-- Listings of rules with their handles, as enforcer/PolicyEnforcer.cpp reads them.
use neuro_mesh.Prelude.{
  ℕ, ◌≤◌, ◌≡◌, refl, ap, sym, ◌∙◌, subst, true, false, none, some, List, [], ◌∷◌, ◌++◌, Text, codes,
  nat_key, if◌then◌else◌, le→leb, All, arith,
}
use mathlib.Core.List.{append_assoc}
use neuro_mesh.Prelude.Decimal.{
  to_text, read_digits, read_digits-to_text, to_text-head, has_byte-to_text,
}
use neuro_mesh.Prelude.Dict.{contains}
use neuro_mesh.Prelude.Search.{
  skip_spaces, strip_prefix, contains_text, contains_text-append, has_byte, has_byte-append,
  split_string, split_string-token,
}
use neuro_mesh.Enforcer.Nftables.{
  int_max, after_spaces, read_number, read_handle, before_hash, match_handle, line_handles,
  handles_of, find_nft_handles,
}

-- What `nft --handle list chain` prints: a rule and its handle, or a line with no handle.
pub data Line : Type 0 where
  rule : Text → ℕ → Line
  plain : Text → Line

abbrev handle_comment : Text
handle_comment = codes " # handle "

abbrev pub print_line : Line → Text
print_line (rule spec handle) = spec ++ (handle_comment ++ to_text handle)
print_line (plain text) = text

unfoldable pub print : List Line → Text
print [] = []
print (line ∷ lines) = print_line line ++ (b'\n' ∷ print lines)

-- No byte of a rule begins a comment or ends a line.
abbrev pub IsSpec : Text → Type 0
IsSpec spec =
    (has_byte b'#' spec ≡ false) × (has_byte b'\n' spec ≡ false) × (has_byte b'\r' spec ≡ false)

abbrev pub IsWellPrinted : Line → Type 0
IsWellPrinted (rule spec handle) = IsSpec spec × (handle ≤ int_max)
IsWellPrinted (plain text) = (match_handle text ≡ none) × (has_byte b'\n' text ≡ false)

-- The handles of the rules whose text has the substring.
unfoldable pub matching : Text → List Line → List ℕ
unfolding contains_text
matching match_substr [] = []
matching match_substr (rule spec handle ∷ lines) =
    (if contains_text match_substr (spec ++ (32 ∷ [])) then handle ∷ [] else [])
    ++ matching match_substr lines
matching match_substr (plain text ∷ lines) = matching match_substr lines

read_number-to_text : (n : ℕ) → read_number (to_text n) ≡ some n
unfolding read_number skip_spaces
read_number-to_text n =
    let (c, s, e, d) = to_text-head n in
    let read : read_digits 0 (c ∷ s) ≡ (n, []) =
      subst (λ (t : Text). read_digits 0 t ≡ (n, [])) e (read_digits-to_text n) in
    rw (e, read, d) refl

skip_spaces-to_text : (n : ℕ) → skip_spaces (to_text n) ≡ to_text n
unfolding skip_spaces
skip_spaces-to_text n = let (c, s, e, d) = to_text-head n in rw e (ground arith)

match_handle-comment : (n : ℕ) → match_handle (handle_comment ++ to_text n) ≡ some n
unfolding match_handle read_handle skip_spaces strip_prefix after_spaces
match_handle-comment n = rw (skip_spaces-to_text n, read_number-to_text n) refl

match_handle-append :
    (spec rest : Text) → IsSpec spec → match_handle (spec ++ rest) ≡ match_handle rest
unfolding match_handle
match_handle-append [] rest h = refl
match_handle-append (c ∷ spec) rest h =
    ground (arith, match_handle-append spec rest (ground arith, ground arith, ground arith))

before_hash-append :
    (spec rest : Text)
    → has_byte b'#' spec ≡ false
    → before_hash (spec ++ (32 ∷ b'#' ∷ rest)) ≡ spec ++ (32 ∷ [])
unfolding before_hash
before_hash-append [] rest h = refl
before_hash-append (c ∷ spec) rest h = ground (arith, before_hash-append spec rest (ground arith))

line_handles-rule :
    (match_substr spec : Text) (n : ℕ)
    → IsWellPrinted (rule spec n)
    → line_handles match_substr (print_line (rule spec n))
      ≡ (if contains_text match_substr (spec ++ (32 ∷ [])) then n ∷ [] else [])
unfolding line_handles contains_text
line_handles-rule match_substr spec n (clean, small) =
    let read : match_handle (spec ++ (handle_comment ++ to_text n)) ≡ some n =
      match_handle-append spec _ clean ∙ match_handle-comment n in
    rw
      (
        line_handles,
        read,
        before_hash-append spec (codes " handle " ++ to_text n) clean.0,
        le→leb n int_max small,
      )
      (ground arith)

print_line-clean : (line : Line) → IsWellPrinted line → has_byte b'\n' (print_line line) ≡ false
print_line-clean (rule spec n) (clean, small) =
    rw
      (
        has_byte-append b'\n' spec (handle_comment ++ to_text n),
        clean.1,
        has_byte-to_text n b'\n' refl,
      )
      refl
print_line-clean (plain text) (unhandled, clean) = clean

-- On the listing of well-printed lines, `find_nft_handles` finds exactly the handles of the rules whose
-- text has the substring, in the order of the lines.
pub find_nft_handles-print :
    (match_substr : Text) (lines : List Line)
    → All IsWellPrinted lines
    → find_nft_handles (print lines) match_substr ≡ matching match_substr lines
unfolding find_nft_handles handles_of print matching split_string
find_nft_handles-print match_substr [] h = refl
find_nft_handles-print match_substr (rule spec n ∷ lines) (good, goods) =
    rw
      (
        split_string-token b'\n' (print_line (rule spec n)) (print lines)
            (print_line-clean (rule spec n) good),
        line_handles-rule match_substr spec n good,
        find_nft_handles-print match_substr lines goods,
      )
      refl
find_nft_handles-print match_substr (plain text ∷ lines) (good, goods) =
    let nothing : line_handles match_substr text ≡ [] = rw (line_handles, good.0) refl in
    rw
      (
        split_string-token b'\n' text (print lines) good.1,
        nothing,
        find_nft_handles-print match_substr lines goods,
      )
      refl

contains-append : (n : ℕ) (xs ys : List ℕ) → contains n ys ≡ true → contains n (xs ++ ys) ≡ true
unfolding contains
contains-append n [] ys h = h
contains-append n (x ∷ xs) ys h = ground (arith, contains-append n xs ys h)

matching-contains :
    (match_substr spec : Text) (n : ℕ) (front back : List Line)
    → contains_text match_substr (spec ++ (32 ∷ [])) ≡ true
    → contains n (matching match_substr (front ++ (rule spec n ∷ back))) ≡ true
unfolding matching contains
matching-contains match_substr spec n [] back h = rw h (ground arith)
matching-contains match_substr spec n (rule other k ∷ front) back h =
    contains-append n (if contains_text match_substr (other ++ (32 ∷ [])) then k ∷ [] else []) _
      (matching-contains match_substr spec n front back h)
matching-contains match_substr spec n (plain text ∷ front) back h =
    matching-contains match_substr spec n front back h

-- A rule for an address that goes on after `ip`.
abbrev pub longer_rule : (ip suffix before after : Text) → Text
longer_rule ip suffix before after = before ++ ((codes "ip saddr " ++ ip) ++ (suffix ++ after))

-- The search for the rules of an address finds in a well-printed listing also the handle of each rule
-- that names an address which the searched one begins.
pub find_nft_handles-longer :
    (ip suffix before after : Text) (n : ℕ) (front back : List Line)
    → All IsWellPrinted (front ++ (rule (longer_rule ip suffix before after) n ∷ back))
    → contains n (
        find_nft_handles
          (print (front ++ (rule (longer_rule ip suffix before after) n ∷ back)))
          (codes "ip saddr " ++ ip))
      ≡ true
find_nft_handles-longer ip suffix before after n front back h =
    let match_substr : Text = codes "ip saddr " ++ ip in
    let spec : Text = longer_rule ip suffix before after in
    let shape : spec ++ (32 ∷ []) ≡ before ++ (match_substr ++ ((suffix ++ after) ++ (32 ∷ []))) =
      append_assoc before (match_substr ++ (suffix ++ after)) (32 ∷ [])
      ∙ ap (λ (t : Text). before ++ t) (append_assoc match_substr (suffix ++ after) (32 ∷ [])) in
    let found : contains_text match_substr (spec ++ (32 ∷ [])) ≡ true =
      subst (λ (t : Text). contains_text match_substr t ≡ true) (sym shape)
        (contains_text-append before match_substr ((suffix ++ after) ++ (32 ∷ []))) in
    rw (find_nft_handles-print match_substr (front ++ (rule spec n ∷ back)) h)
      (matching-contains match_substr spec n front back found)
