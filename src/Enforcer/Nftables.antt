-- ===== src/Enforcer/Nftables.antt =====
-- Rules of nftables and their handles, in enforcer/PolicyEnforcer.cpp: the text of a listing, and the
-- removal of rules by their handles.
pub mod Listing
use neuro_mesh.Prelude.{
  ℕ, ◌-◌, ◌^◌, Bool, true, false, not, ◌&&◌, ◌||◌, Option, none, some, List, [], ◌∷◌, ◌++◌, Text,
  codes, is_empty, if◌then◌else◌, leb, ◌==◌,
}
use neuro_mesh.Prelude.Decimal.{to_text, is_digit, read_digits}
use neuro_mesh.Prelude.Search.{
  is_space, skip_spaces, strip_prefix, contains_text, has_byte, split_string,
}
use neuro_mesh.Enforcer.Types.{Command, Trace, Host, execute}

abbrev pub int_max : ℕ
int_max = 2 ^ 31 - 1

-- `\s+`: what follows one space or more.
unfoldable pub after_spaces : Text → Option Text
unfolding skip_spaces
after_spaces [] = none
after_spaces (c ∷ s) = if is_space c then some (skip_spaces s) else none

-- `(\d+)\s*$`, and the number of the digits.
unfoldable pub read_number : Text → Option ℕ
unfolding skip_spaces read_digits
read_number [] = none
read_number (c ∷ s) =
    let (value, rest) = read_digits 0 (c ∷ s) in
    if is_digit c && is_empty (skip_spaces rest) then some value else none

-- `\s*handle\s+(\d+)\s*$`
unfoldable pub read_handle : Text → Option ℕ
unfolding skip_spaces strip_prefix after_spaces read_number
read_handle s = elim (strip_prefix (codes "handle") (skip_spaces s)) [
  | none ↦ none
  | some rest ↦ elim (after_spaces rest) [ none ↦ none | some number ↦ read_number number ]
]

-- A text up to its first `#`.
unfoldable pub before_hash : Text → Text
before_hash [] = []
before_hash (c ∷ s) = let before = before_hash s in if c == b'#' then [] else c ∷ before

-- `^.*#\s*handle\s+(\d+)\s*$`: the dot matches no end of a line, and after the last `#` there is no
-- other one, so the first one that the rest fits is it.
unfoldable pub match_handle : Text → Option ℕ
unfolding read_handle
match_handle [] = none
match_handle (c ∷ s) =
    let later = match_handle s in
    let here : Option ℕ = read_handle s in
    if c == b'#'
    then elim here [ none ↦ later | some handle ↦ some handle ]
    else if c == b'\r' || c == b'\n'
    then none
    else later

-- The handle of a line whose rule has the substring; `stoi` throws past the greatest `int`.
unfoldable pub line_handles : Text → Text → List ℕ
unfolding match_handle before_hash contains_text
line_handles match_substr line = elim (match_handle line) [
  | none ↦ []
  | some handle ↦
      if contains_text match_substr (before_hash line) && leb handle int_max
      then handle ∷ []
      else []
]

unfoldable pub handles_of : Text → List Text → List ℕ
unfolding line_handles
handles_of match_substr [] = []
handles_of match_substr (line ∷ lines) =
    line_handles match_substr line ++ handles_of match_substr lines

unfoldable pub find_nft_handles : Text → Text → List ℕ
unfolding handles_of split_string
find_nft_handles list_output match_substr = handles_of match_substr (split_string b'\n' list_output)

abbrev nft : Text
nft = codes "/usr/sbin/nft"

abbrev input_chain : List Text → List Text
input_chain rest = codes "ip" ∷ codes "neuro_mesh" ∷ codes "INPUT" ∷ rest

abbrev pub add_rule : List Text → Command
add_rule rule = Command.run (nft ∷ codes "add" ∷ codes "rule" ∷ input_chain rule)

-- The rules that the class adds, from the address on.
abbrev pub drop_all : Text → List Text
drop_all ip = codes "ip" ∷ codes "saddr" ∷ ip ∷ codes "counter" ∷ codes "drop" ∷ []

abbrev pub on_loopback : List Text → List Text
on_loopback rule = codes "meta" ∷ codes "iif" ∷ codes "lo" ∷ rule

abbrev pub drop_port : Text → ℕ → Text → List Text
drop_port ip port protocol =
    codes "ip"
    ∷ codes "saddr"
    ∷ ip
    ∷ protocol
    ∷ codes "dport"
    ∷ to_text port
    ∷ codes "counter"
    ∷ codes "drop"
    ∷ []

module _ (h : Host) where
  unfoldable pub ensure_nftables_table : Trace → Trace × Bool
  unfolding execute
  ensure_nftables_table trace =
      let (reached, found) = execute h (Command.access nft) trace in
      let (added, _) =
        execute h
          (Command.run (nft ∷ codes "add" ∷ codes "table" ∷ codes "ip" ∷ codes "neuro_mesh" ∷ []))
          reached in
      let (listed, exists) =
        execute h (Command.run (nft ∷ codes "list" ∷ codes "chain" ∷ input_chain [])) added in
      if not found
      then (reached, false)
      else if exists
      then (listed, true)
      else execute h
          (Command.run (
            nft
            ∷ codes "add"
            ∷ codes "chain"
            ∷ input_chain (
                codes "{"
                ∷ codes "type"
                ∷ codes "filter"
                ∷ codes "hook"
                ∷ codes "input"
                ∷ codes "priority"
                ∷ codes "0"
                ∷ codes ";"
                ∷ codes "}"
                ∷ [])))
          listed

  unfoldable pub apply_nftables_drop : Text → Trace → Trace × Bool
  unfolding execute
  apply_nftables_drop ip trace =
      let (first, ip_rule) = execute h (add_rule (drop_all ip)) trace in
      let (second, _) = execute h (add_rule (on_loopback (drop_all ip))) first in (second, ip_rule)

  unfoldable pub apply_nftables_port_drop : Text → ℕ → Trace → Trace × Bool
  unfolding execute
  apply_nftables_port_drop ip port trace =
      let (first, tcp_rule) =
        execute h (add_rule (on_loopback (drop_port ip port (codes "tcp")))) trace in
      let (second, udp_rule) =
        execute h (add_rule (on_loopback (drop_port ip port (codes "udp")))) first in
      if port == 0 then (trace, false) else (second, tcp_rule || udp_rule)

  unfoldable pub delete_nft_handle : ℕ → Trace → Trace × Bool
  unfolding execute
  delete_nft_handle handle trace =
      execute h
        (Command.run (
          nft ∷ codes "delete" ∷ codes "rule" ∷ input_chain (codes "handle" ∷ to_text handle ∷ [])))
        trace

  -- The loop of `remove_nftables_rules_matching`.
  unfoldable pub delete_handles : List ℕ → Trace → Trace × Bool
  unfolding delete_nft_handle
  delete_handles [] trace = (trace, false)
  delete_handles (handle ∷ handles) trace =
      let (after_one, deleted) = delete_nft_handle handle trace in
      let (after_all, any_deleted) = delete_handles handles after_one in
      (after_all, deleted || any_deleted)

  -- `list_nftables_rules`: the command, and what it printed.
  unfoldable pub list_nftables_rules : Trace → Trace × Text
  list_nftables_rules trace = (Command.list_rules ∷ trace, h.printed trace)

  unfoldable pub remove_nftables_rules_matching : Text → Trace → Trace × Bool
  unfolding list_nftables_rules find_nft_handles delete_handles
  remove_nftables_rules_matching match_substr trace =
      let (listed, output) = list_nftables_rules trace in
      if is_empty output
      then (listed, false)
      else delete_handles (find_nft_handles output match_substr) listed

  unfoldable pub remove_nftables_drop : Text → Trace → Trace × Bool
  unfolding remove_nftables_rules_matching
  remove_nftables_drop ip trace = remove_nftables_rules_matching (codes "ip saddr " ++ ip) trace

  unfoldable pub remove_nftables_port_drop : Text → ℕ → Trace → Trace × Bool
  unfolding remove_nftables_rules_matching
  remove_nftables_port_drop ip port trace =
      let address : Text = codes "ip saddr " ++ ip in
      let (first, tcp_ok) =
        remove_nftables_rules_matching (address ++ (codes " tcp dport " ++ to_text port)) trace in
      let (second, udp_ok) =
        remove_nftables_rules_matching (address ++ (codes " udp dport " ++ to_text port)) first in
      if port == 0 then (trace, false) else (second, tcp_ok || udp_ok)
