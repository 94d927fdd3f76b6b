-- ===== src/Pbft/Calls.antt =====
-- The public methods of consensus/PBFT.hpp that change its state, as calls, and histories of calls.
-- The mutex makes each call one step.
mod Rules
pub mod Bans
pub mod Invariant
pub mod Voters
use neuro_mesh.Prelude.{ℕ, Option, List, [], ◌∷◌, Text}
use neuro_mesh.Prelude.Int.{ℤ}
use neuro_mesh.Pbft.Registry.{
  register_peer_key, set_my_identity, set_private_key, set_peer_count, increment_peers,
  decrement_peers, prune_peer, drain_recent_bans, ban_peer_local, propose_ban, try_increment_peers,
  advance_view, set_round_commit_sig,
}
use neuro_mesh.Pbft.Types.{PbftConsensus, P2pMessage, Platform}
use neuro_mesh.Pbft.Verify.{verify_message}
use neuro_mesh.Pbft.Vote.{advance_state}

pub data Call : Type 0 where
  register_peer : Text → Text → Call
  my_identity : Text → Call
  private_key : Option Text → Call
  verify : ℕ → P2pMessage → Call
  advance : ℕ → P2pMessage → Call
  commit_sig : Text → Text → Call
  peer_count : ℤ → Call
  increment decrement : Call
  prune : Text → Call
  drain : Call
  ban_local : Text → Call
  propose : Text → Call
  try_increment : Text → Call
  next_view : Call

unfoldable pub perform : Platform → Call → PbftConsensus → PbftConsensus
perform env (Call.register_peer node_id pem) p = register_peer_key env node_id pem p
perform env (Call.my_identity node_id) p = set_my_identity node_id p
perform env (Call.private_key key) p = set_private_key key p
perform env (Call.verify now msg) p = (verify_message env now msg p).0
perform env (Call.advance now msg) p = (advance_state env now msg p).0
perform env (Call.commit_sig key sig) p = set_round_commit_sig key sig p
perform env (Call.peer_count n) p = set_peer_count n p
perform env Call.increment p = increment_peers p
perform env Call.decrement p = decrement_peers p
perform env (Call.prune node_id) p = prune_peer node_id p
perform env Call.drain p = (drain_recent_bans env p).0
perform env (Call.ban_local node_id) p = ban_peer_local node_id p
perform env (Call.propose target) p = (propose_ban target p).0
perform env (Call.try_increment node_id) p = (try_increment_peers node_id p).0
perform env Call.next_view p = advance_view p

unfoldable pub run : Platform → List Call → PbftConsensus → PbftConsensus
run env [] p = p
run env (call ∷ calls) p = run env calls (perform env call p)
