-- ===== src/Mesh/Message.antt =====
-- `process_message` of consensus/MeshNode.cpp: the packets of the consensus port.
use neuro_mesh.Prelude.{not, ◌&&◌, List, Text, codes, text_eq, if◌then◌else◌, ltb, leb, length}
use neuro_mesh.Prelude.Search.{split_string}
use neuro_mesh.Peers.Rates.{check_rate_limit}
use neuro_mesh.Mesh.Types.{MeshNode, World}
use neuro_mesh.Mesh.Wire.{validate_message}
use neuro_mesh.Mesh.Vote.{token, process_vote}
use neuro_mesh.Mesh.Announce.{process_announce}

module _ (w : World) where
  unfoldable pub dispatch : List Text → Text → MeshNode → MeshNode
  unfolding token process_announce process_vote
  dispatch tokens sender_ip m =
      let cmd = token 0 tokens in
      if ltb (length tokens) 3
      then m
      else if text_eq cmd (codes "ANNOUNCE")
      then process_announce w tokens sender_ip m
      else if text_eq cmd (codes "VOTE") && leb 9 (length tokens)
      then process_vote w tokens m
      else m

  unfoldable pub process_message : Text → Text → MeshNode → MeshNode
  unfolding check_rate_limit validate_message split_string dispatch
  process_message msg sender_ip m =
      let (limited, ok) = check_rate_limit w.platform (w.now m.outputs) sender_ip m.peers in
      let counted : MeshNode = record m { peers = limited } in
      if not ok
      then counted
      else if not (validate_message msg)
      then counted
      else dispatch (split_string b'|' msg) sender_ip counted
