-- ===== src/Enforcer/Addresses.antt =====
-- The validation of addresses, the safe list and the maps from nodes to addresses and ports, in
-- enforcer/PolicyEnforcer.cpp.
pub mod Safety
use neuro_mesh.Prelude.{
  ℕ, ◌-◌, ◌/◌, ◌^◌, Bool, true, false, not, ◌&&◌, ◌||◌, Option, none, some, List, [], ◌∷◌, ◌++◌,
  Text, map, codes, text_key, text_eq, is_empty, if◌then◌else◌, leb, ◌==◌, any_of, drop, take,
}
use neuro_mesh.Prelude.Dict.{lookup, lookup_or, insert, contains, add}
use neuro_mesh.Enforcer.Types.{Host, PolicyEnforcer}

-- Whether two lists of bytes are the same.
abbrev pub bytes_eq : List ℕ → List ℕ → Bool
bytes_eq = text_eq

abbrev zeros10 : List ℕ
zeros10 = 0 ∷ 0 ∷ 0 ∷ 0 ∷ 0 ∷ 0 ∷ 0 ∷ 0 ∷ 0 ∷ 0 ∷ []

-- `IN6_IS_ADDR_LOOPBACK`
abbrev pub is_addr_loopback : List ℕ → Bool
is_addr_loopback addr = bytes_eq addr (zeros10 ++ (0 ∷ 0 ∷ 0 ∷ 0 ∷ 0 ∷ 1 ∷ []))

-- `IN6_IS_ADDR_V4MAPPED`
abbrev pub is_addr_v4mapped : List ℕ → Bool
is_addr_v4mapped addr = bytes_eq (take 12 addr) (zeros10 ++ (255 ∷ 255 ∷ []))

abbrev pub starts_with_127 : List ℕ → Bool
starts_with_127 [] = false
starts_with_127 (b ∷ bytes) = b == 127

-- `toupper` of an `unsigned char`
abbrev pub to_upper : ℕ → ℕ
to_upper c = if leb b'a' c && leb c b'z' then c - 32 else c

unfoldable pub normalized : Text → Text
normalized = map to_upper

-- `is_safe`, and `is_safe_locked` under the lock that is held.
unfoldable pub is_safe : PolicyEnforcer → Text → Bool
unfolding normalized contains
is_safe p target_id = contains (normalized target_id) p.safe_list

unfoldable pub add_safe_node : Text → PolicyEnforcer → PolicyEnforcer
unfolding normalized add
add_safe_node node_id p = record p {
  safe_list = add (normalized node_id) p.safe_list;
  last_enforce_time = 0;
}

module _ (h : Host) where
  unfoldable pub is_valid_ipv4 : Text → Bool
  is_valid_ipv4 ip = elim (h.inet_pton4 ip) [
    | none ↦ false
    | some addr ↦ text_eq ip (h.inet_ntop4 addr)
  ]

  unfoldable pub is_valid_ipv6 : Text → Bool
  is_valid_ipv6 ip = elim (h.inet_pton6 ip) [ none ↦ false | some addr ↦ true ]

  unfoldable pub is_valid_ip : Text → Bool
  unfolding is_valid_ipv4 is_valid_ipv6
  is_valid_ip ip = is_valid_ipv4 ip || is_valid_ipv6 ip

  -- The first byte of the address is 127.
  unfoldable pub is_loopback : Text → Bool
  is_loopback ip = elim (h.inet_pton4 ip) [ none ↦ false | some addr ↦ addr / 2 ^ 24 == 127 ]

  unfoldable pub is_loopback_ipv6 : Text → Bool
  is_loopback_ipv6 ip = elim (h.inet_pton6 ip) [
    | none ↦ false
    | some addr ↦
        if is_addr_loopback addr
        then true
        else if is_addr_v4mapped addr
        then starts_with_127 (drop 12 addr)
        else false
  ]

  unfoldable pub is_ip_safe : PolicyEnforcer → Text → Bool
  unfolding is_valid_ip lookup
  is_ip_safe p ip =
      if not (is_valid_ip ip)
      then false
      else any_of
          (λ node_id. elim (lookup node_id p.peer_ip_map) [
            | none ↦ false
            | some known ↦ text_eq known ip
          ])
          p.safe_list

  unfoldable pub register_peer_ip : Text → Text → PolicyEnforcer → PolicyEnforcer
  unfolding is_valid_ip insert
  register_peer_ip node_id ip p =
      if is_empty node_id || not (is_valid_ip ip)
      then p
      else record p { peer_ip_map = insert node_id ip p.peer_ip_map }

  unfoldable pub resolve_target : PolicyEnforcer → Text → Text
  unfolding is_valid_ip lookup
  resolve_target p target =
      if is_valid_ip target
      then target
      else elim (lookup target p.peer_ip_map) [ none ↦ [] | some ip ↦ ip ]

unfoldable pub register_peer_port : Text → ℕ → PolicyEnforcer → PolicyEnforcer
unfolding insert
register_peer_port node_id port p =
    if is_empty node_id || port == 0
    then p
    else record p { peer_port_map = insert node_id port p.peer_port_map }

unfoldable pub resolve_port : PolicyEnforcer → Text → ℕ
unfolding lookup_or
resolve_port p target = lookup_or target 0 p.peer_port_map

unfoldable pub set_node_id : Text → PolicyEnforcer → PolicyEnforcer
set_node_id node_id p = record p { node_id = node_id }
