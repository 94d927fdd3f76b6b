-- ===== src/Pbft/Calls/Bans.antt =====
-- The banned peers of consensus/PBFT.hpp, over histories of calls.
use neuro_mesh.Prelude.{
  ℕ, ◌≡◌, refl, ap, ◌∙◌, Bool, true, false, not, List, [], ◌∷◌, Text, text_key, text_eq,
  text_eq_iff, keep_if, arith, Bool-cases, inl, inr,
}
use neuro_mesh.Prelude.Dict.{contains, contains-add}
use neuro_mesh.Pbft.Calls.Rules.{advance_state-kept, verify_message-kept, KeptByAdvance}
use neuro_mesh.Pbft.Calls.{Call, perform, run}
use neuro_mesh.Pbft.Registry.{
  register_peer_key, set_my_identity, set_private_key, set_peer_count, increment_peers,
  decrement_peers, prune_peer, drain_recent_bans, ban_peer_local, propose_ban, try_increment_peers,
  advance_view, set_round_commit_sig,
}
use neuro_mesh.Pbft.Trust.{record_failure, auto_ban, count_failure, record_success}
use neuro_mesh.Pbft.Types.{PbftConsensus, P2pMessage, Platform}
use neuro_mesh.Pbft.Verify.{verify_message}
use neuro_mesh.Pbft.Vote.Casts.{
  check_rate_limit-Alike, remembered-Alike, cleanup_stale_rounds-Swept,
}
use neuro_mesh.Pbft.Vote.{advance_state, set_voters}

module _ (x : Text) where
  abbrev IsBanned : PbftConsensus → Type 0
  IsBanned p = contains x p.banned_peers ≡ true

  record_failure-IsBanned :
      (now : ℕ) (node_id : Text) (p : PbftConsensus)
      → IsBanned p
      → IsBanned (record_failure now node_id p)
  unfolding record_failure auto_ban prune_peer count_failure
  record_failure-IsBanned now node_id p h = ground (arith, contains-add x node_id p.banned_peers)

  advance_parts : (env : Platform) (now : ℕ) (msg : P2pMessage) → KeptByAdvance IsBanned env now msg
  unfolding set_voters
  advance_parts env now msg = record {
    swept = λ p h. rw (cleanup_stale_rounds-Swept now p).banned_peers h;
    rated = λ p h. rw (check_rate_limit-Alike now msg.sender_id p).banned_peers h;
    failed = λ p h. record_failure-IsBanned now msg.sender_id p h;
    noted = λ p h. rw (remembered-Alike env now msg p).banned_peers h;
    voted = record { added = λ p h. h; removed = λ p h. h; round_set = λ round p h. h };
  }

  perform-IsBanned :
      (env : Platform) (call : Call) (p : PbftConsensus)
      → IsBanned p
      → IsBanned (perform env call p)
  unfolding perform register_peer_key set_my_identity set_private_key set_peer_count increment_peers
      decrement_peers prune_peer drain_recent_bans ban_peer_local propose_ban try_increment_peers
      advance_view set_round_commit_sig record_success
  perform-IsBanned env (Call.verify now msg) p h =
      verify_message-kept IsBanned env now msg p (record_failure-IsBanned now msg.sender_id p)
        (λ b. b) h
  perform-IsBanned env (Call.advance now msg) p h =
      advance_state-kept IsBanned (advance_parts env now msg) p h
  perform-IsBanned env (Call.ban_local node_id) p h =
      ground (arith, contains-add x node_id p.banned_peers)
  perform-IsBanned env (Call.propose target) p h =
      ground (arith, contains-add x target p.banned_peers)
  perform-IsBanned env (Call.try_increment node_id) p h = ground arith
  perform-IsBanned env call p h = h

  -- A message handed over by `x`.
  abbrev pub is_from : Call → Bool
  is_from (Call.verify now msg) = text_eq msg.sender_id x
  is_from (Call.advance now msg) = text_eq msg.sender_id x
  is_from _ = false

  perform-from :
      (env : Platform) (call : Call) (p : PbftConsensus)
      → IsBanned p
      → is_from call ≡ true
      → perform env call p ≡ p
  unfolding perform verify_message advance_state
  perform-from env (Call.verify now msg) p h from = ground (arith, text_eq_iff msg.sender_id x)
  perform-from env (Call.advance now msg) p h from = ground (arith, text_eq_iff msg.sender_id x)
  perform-from env _ p h from = absurd (ground arith)

  -- Once a peer is banned it stays banned through every history of calls, and the history ends in
  -- the same state as without the messages of that peer.
  pub run_banned :
      (env : Platform) (calls : List Call) (p : PbftConsensus)
      → contains x p.banned_peers ≡ true
      → (contains x (run env calls p).banned_peers ≡ true)
        × (run env calls p ≡ run env (keep_if (λ call. not (is_from call)) calls) p)
  unfolding run
  run_banned env [] p h = (h, refl)
  run_banned env (call ∷ calls) p h = elim (Bool-cases (is_from call)) [
    | inl from ↦
        let same : perform env call p ≡ p = perform-from env call p h from in
        let skipped : run env (call ∷ calls) p ≡ run env calls p = ap (run env calls) same in
        let (still, e) = run_banned env calls p h in (rw skipped still, rw from (skipped ∙ e))
    | inr other ↦
        rw other (run_banned env calls (perform env call p) (perform-IsBanned env call p h))
  ]
