-- ===== src/Pbft/Trust.antt =====
-- The trust scores of consensus/PBFT.hpp: `record_failure`, `record_success` and
-- `record_equivocation`, with the automatic ban.
pub mod Failures
use neuro_mesh.Prelude.{
  ℕ, suc, ◌+◌, ◌-◌, Option, none, some, Text, text_key, if◌then◌else◌, leb, min,
}
use neuro_mesh.Prelude.Dict.{lookup, insert, add}
use neuro_mesh.Pbft.Registry.{prune_peer}
use neuro_mesh.Pbft.Types.{PbftConsensus, NodeTrustScore, new_trust, auto_prune_failures}

-- `m_node_trust[node_id]`
unfoldable pub trust_of : Text → PbftConsensus → NodeTrustScore
trust_of node_id p = elim (lookup node_id p.node_trust) [ none ↦ new_trust | some trust ↦ trust ]

-- The score after one more failure: 0.1 is taken off, down to 0.
abbrev pub after_failure : ℕ → NodeTrustScore → NodeTrustScore
after_failure now trust = record trust {
  consecutive_failures = suc trust.consecutive_failures;
  trust_score = trust.trust_score - 10;
  last_failure = now;
}

-- The branch at `kAutoPruneFailures`: the peer is banned and pruned.
unfoldable pub auto_ban : Text → PbftConsensus → PbftConsensus
auto_ban node_id p = prune_peer node_id (record p {
  banned_peers = add node_id p.banned_peers;
  recent_bans = add node_id p.recent_bans;
})

-- The entry of the peer with one more failure.
unfoldable pub count_failure : ℕ → Text → PbftConsensus → PbftConsensus
count_failure now node_id p = record p {
  node_trust = insert node_id (after_failure now (trust_of node_id p)) p.node_trust;
}

unfoldable pub record_failure : ℕ → Text → PbftConsensus → PbftConsensus
record_failure now node_id p =
    let trust : NodeTrustScore = after_failure now (trust_of node_id p) in
    if leb auto_prune_failures trust.consecutive_failures
    then auto_ban node_id (count_failure now node_id p)
    else count_failure now node_id p

-- The score after a message that passed: 0.05 is added, up to 1.
abbrev pub after_success : NodeTrustScore → NodeTrustScore
after_success trust = record trust {
  consecutive_failures = 0;
  successful_rounds = suc trust.successful_rounds;
  trust_score = min 100 (trust.trust_score + 5);
}

unfoldable pub record_success : Text → PbftConsensus → PbftConsensus
record_success node_id p = record p {
  node_trust = insert node_id (after_success (trust_of node_id p)) p.node_trust;
}

-- The score after two messages under one number: 0.3 is taken off, down to 0.
abbrev pub after_equivocation : ℕ → NodeTrustScore → NodeTrustScore
after_equivocation now trust = record trust {
  equivocation_count = suc trust.equivocation_count;
  trust_score = trust.trust_score - 30;
  consecutive_failures = suc trust.consecutive_failures;
  last_failure = now;
}

unfoldable pub record_equivocation : ℕ → Text → PbftConsensus → PbftConsensus
record_equivocation now node_id p = record p {
  node_trust = insert node_id (after_equivocation now (trust_of node_id p)) p.node_trust;
}
