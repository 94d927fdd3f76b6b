-- ===== src/Pbft/Calls/Invariant/Histories.antt =====
-- Histories of calls of consensus/PBFT.hpp from the start, and the well-formedness of the state.
use neuro_mesh.Prelude.{
  is_empty, ◌||◌, Option, List, [], ◌∷◌, Text, text_key, nat_key, text_eq, arith, Bool-cases, inl,
  inr,
}
use neuro_mesh.Prelude.Dict.{contains, add-Distinct}
use neuro_mesh.Prelude.Int.{ℤ}
use neuro_mesh.Pbft.Calls.Rules.{advance_state-kept, verify_message-kept}
use neuro_mesh.Pbft.Calls.{Call, perform, run}
use neuro_mesh.Pbft.Registry.{
  init, register_peer_key, set_my_identity, set_private_key, set_peer_count, increment_peers,
  decrement_peers, drain_recent_bans, ban_peer_local, propose_ban, is_banned, try_increment_peers,
  advance_view, set_round_commit_sig,
}
use neuro_mesh.Pbft.Trust.{record_success}
use neuro_mesh.Pbft.Types.{PbftConsensus, Platform}
use neuro_mesh.Pbft.Calls.Invariant.Handlers.{SameBooks-IsValid, advance_parts}
use neuro_mesh.Pbft.Calls.Invariant.{
  IsValid, prune_peer-IsValid, record_failure-IsValid, trust-IsValid,
}

init-IsValid :
    (env : Platform) (n : ℤ) (window limit : Option Text) → IsValid (init env n window limit)
unfolding init
init-IsValid env n window limit = ground arith

ban_peer_local-IsValid : (x : Text) (p : PbftConsensus) → IsValid p → IsValid (ban_peer_local x p)
unfolding ban_peer_local
ban_peer_local-IsValid x p v = record {
  voters = v.voters;
  rates = v.rates;
  histories = v.histories;
  banned = add-Distinct x p.banned_peers v.banned;
  registered = v.registered;
}

propose_ban-IsValid : (x : Text) (p : PbftConsensus) → IsValid p → IsValid (propose_ban x p).0
unfolding propose_ban
propose_ban-IsValid x p v = elim (Bool-cases (is_empty x || text_eq x p.my_node_id)) [
  | inl myself ↦ rw myself v
  | inr other ↦ elim (Bool-cases (is_banned x p)) [
    | inl banned ↦ rw (other, banned) v
    | inr free ↦ rw (other, free) (ban_peer_local-IsValid x p v)
  ]
]

try_increment-IsValid :
    (x : Text) (p : PbftConsensus) → IsValid p → IsValid (try_increment_peers x p).0
unfolding try_increment_peers
try_increment-IsValid x p v = elim (Bool-cases (contains x p.registered_peers)) [
  | inl known ↦ rw known v
  | inr new ↦ rw new (record {
    voters = v.voters;
    rates = v.rates;
    histories = v.histories;
    banned = v.banned;
    registered = add-Distinct x p.registered_peers v.registered;
  })
]

register-IsValid :
    (env : Platform) (x pem : Text) (p : PbftConsensus)
    → IsValid p
    → IsValid (register_peer_key env x pem p)
unfolding register_peer_key
register-IsValid env x pem p v = record {
  voters = v.voters;
  rates = v.rates;
  histories = v.histories;
  banned = v.banned;
  registered = add-Distinct x p.registered_peers v.registered;
}

pub perform-IsValid :
    (env : Platform) (call : Call) (p : PbftConsensus) → IsValid p → IsValid (perform env call p)
unfolding perform set_my_identity set_private_key set_peer_count increment_peers decrement_peers
    drain_recent_bans advance_view set_round_commit_sig record_success
perform-IsValid env (Call.register_peer x pem) p v = register-IsValid env x pem p v
perform-IsValid env (Call.verify now msg) p v =
    verify_message-kept IsValid env now msg p (record_failure-IsValid now msg.sender_id p)
      (λ w. trust-IsValid p _ w) v
perform-IsValid env (Call.advance now msg) p v =
    advance_state-kept IsValid (advance_parts env now msg) p v
perform-IsValid env (Call.prune x) p v = prune_peer-IsValid x p v
perform-IsValid env (Call.ban_local x) p v = ban_peer_local-IsValid x p v
perform-IsValid env (Call.propose x) p v = propose_ban-IsValid x p v
perform-IsValid env (Call.try_increment x) p v = try_increment-IsValid x p v
perform-IsValid env _ p v = SameBooks-IsValid (ground arith) v

run-IsValid :
    (env : Platform) (calls : List Call) (p : PbftConsensus) → IsValid p → IsValid (run env calls p)
unfolding run
run-IsValid env [] p v = v
run-IsValid env (call ∷ calls) p v =
    run-IsValid env calls (perform env call p) (perform-IsValid env call p v)

-- After any history of calls no sender stands twice among the voters of a stage, no sender has more
-- readings in its rate window than the limit, no message history is longer than its bound, and the
-- sets of banned and of registered peers have no repetition.
pub run-init-IsValid :
    (env : Platform) (n : ℤ) (window limit : Option Text) (calls : List Call)
    → IsValid (run env calls (init env n window limit))
run-init-IsValid env n window limit calls =
    run-IsValid env calls _ (init-IsValid env n window limit)
