-- ===== src/Enforcer/Addresses/Safety.antt =====
-- The safe list of enforcer/PolicyEnforcer.cpp, by node and by address.
use neuro_mesh.Prelude.{
  ◌≡◌, ◌≢◌, refl, ◌∙◌, Bool, true, false, not, ◌||◌, none, some, List, [], Text, text_key, text_eq,
  text_eq_iff, text_eq_refl, is_empty, any_of, arith, if_intro, if_elim,
}
use neuro_mesh.Prelude.Dict.{lookup, lookup-insert, contains, add, contains-add}
use neuro_mesh.Enforcer.Types.{Host, PolicyEnforcer}
use neuro_mesh.Enforcer.Addresses.{
  normalized, is_safe, add_safe_node, is_valid_ip, is_ip_safe, register_peer_ip,
}

any_of-add :
    (test : Text → Bool) (k : Text) (s : List Text)
    → s ≡ []
    → test k ≡ false
    → any_of test (add k s) ≡ false
unfolding add contains
any_of-add test k s e h = rw (e, h) refl

register_peer_ip-keeps :
    (h : Host) (id ip : Text) (p : PolicyEnforcer)
    → (register_peer_ip h id ip p).safe_list ≡ p.safe_list
unfolding register_peer_ip
register_peer_ip-keeps h id ip p =
    if_intro (λ (q : PolicyEnforcer). q.safe_list ≡ p.safe_list)
      (is_empty id || not (is_valid_ip h ip)) refl refl

has_address : PolicyEnforcer → Text → Text → Bool
has_address p ip node_id = elim (lookup node_id p.peer_ip_map) [
  | none ↦ false
  | some known ↦ text_eq known ip
]

module _ (h : Host) (p : PolicyEnforcer) (id ip : Text) where
  unlisted :
      normalized id ≢ id
      → lookup (normalized id) p.peer_ip_map ≡ none
      → lookup (normalized id) (register_peer_ip h id ip p).peer_ip_map ≡ none
  unfolding register_peer_ip
  unlisted other missing =
      if_elim (λ (q : PolicyEnforcer). lookup (normalized id) q.peer_ip_map ≡ none)
        (is_empty id || not (is_valid_ip h ip)) (λ e. missing)
        (λ e. rw lookup-insert (ground (arith, text_eq_iff (normalized id) id, other, missing)))

  -- A node whose name has a lower-case letter is put on an empty safe list, after its address has been
  -- registered: the node is safe, its address is not.
  pub is_ip_safe-lower_case :
      normalized id ≢ id
      → lookup (normalized id) p.peer_ip_map ≡ none
      → p.safe_list ≡ []
      → (is_safe (add_safe_node id (register_peer_ip h id ip p)) id ≡ true)
        × (is_ip_safe h (add_safe_node id (register_peer_ip h id ip p)) ip ≡ false)
  unfolding is_safe add_safe_node is_ip_safe has_address
  is_ip_safe-lower_case other missing empty = (
    rw contains-add (ground (arith, text_eq_refl (normalized id))),
    if_intro (λ (b : Bool). b ≡ false) (not (is_valid_ip h ip)) refl
        (any_of-add (has_address (register_peer_ip h id ip p) ip) (normalized id) _
          (register_peer_ip-keeps h id ip p ∙ empty)
          (rw (has_address, unlisted other missing) refl)),
  )
