-- ===== src/Mesh/Consensus/Bans.antt =====
-- Bans that a node proposes in consensus/MeshNode.cpp.
use neuro_mesh.Prelude.{
  ◌≡◌, refl, Bool, true, false, ◌||◌, Text, text_eq, text_key, text_eq_refl, is_empty, codes, ◌++◌,
  if_elim,
}
use neuro_mesh.Prelude.Dict.{contains-add}
use neuro_mesh.Pbft.Types.{PbftConsensus}
use neuro_mesh.Pbft.Registry.{is_banned, ban_peer_local}
use neuro_mesh.Pbft.Advance.{stage_pre_prepare}
use neuro_mesh.Mesh.Types.{MeshNode, World}
use neuro_mesh.Mesh.Consensus.{broadcast_pbft_stage, vote_fuel, write_journal, propose_ban}

ban_peer_local-is_banned :
    (id : Text) (p : PbftConsensus) → is_banned id (ban_peer_local id p) ≡ true
unfolding is_banned ban_peer_local
ban_peer_local-is_banned id p = rw (contains-add id id p.banned_peers, text_eq_refl id) refl

-- A proposal to ban a peer is taken unless it names no one or the node itself: it returns true, whether
-- or not the peer was banned before, and the peer is banned by then.
pub propose_ban-is_banned :
    (w : World) (m : MeshNode) (target reason : Text)
    → ((is_empty target || text_eq target m.node_id) ≡ true
        → propose_ban w target reason m ≡ (m, false))
      × ((is_empty target || text_eq target m.node_id) ≡ false
          → ((propose_ban w target reason m).1 ≡ true)
            × (is_banned target (propose_ban w target reason m).0.pbft ≡ true))
unfolding propose_ban write_journal
propose_ban-is_banned w m target reason =
    let Taken : MeshNode × Bool → Type 0 = λ r. (r.1 ≡ true) × (is_banned target r.0.pbft ≡ true) in
    (
      λ refused. rw (propose_ban, refused) refl,
      λ named.
          rw (propose_ban, named)
            (if_elim Taken
              (is_banned target
                (broadcast_pbft_stage w (vote_fuel w) stage_pre_prepare target
                  (codes "{\"action\":\"ban\",\"reason\":\"" ++ (reason ++ codes "\"}")) m).pbft)
              (λ already. (refl, already)) (λ new. (refl, ban_peer_local-is_banned target _))),
    )
