-- ===== src/Mesh/Pex.antt =====
-- The exchange of peer lists in consensus/MeshNode.cpp: `perform_pex_handshake`, and the body of
-- `tcp_listener_loop` for one connection.
use neuro_mesh.Prelude.{
  Bool, true, false, not, ◌&&◌, ◌||◌, Option, none, some, List, [], ◌∷◌, ◌++◌, Text, codes, text_eq,
  is_empty, if◌then◌else◌, ltb, leb, length,
}
use neuro_mesh.Prelude.Decimal.{to_text, int_to_text}
use neuro_mesh.Prelude.Int.{ℤ, pos}
use neuro_mesh.Prelude.Search.{split_string}
use neuro_mesh.Peers.Registry.{add_peer, has_peer, get_peer, get_all_peers}
use neuro_mesh.Peers.Types.{PeerEntry}
use neuro_mesh.Mesh.Types.{MeshNode, World, Output, give}
use neuro_mesh.Mesh.Wire.{piped, c_string, try_parse_int}
use neuro_mesh.Mesh.Vote.{token}

-- The entries of a list, with a comma before each but the first.
unfoldable pub peer_list_text : Bool → List PeerEntry → Text
unfolding int_to_text
peer_list_text first [] = []
peer_list_text first (entry ∷ entries) =
    (if first then [] else codes ",")
    ++ (entry.node_id
        ++ (b':'
            ∷ (entry.ip ++ (b':' ∷ (int_to_text entry.tcp_port ++ peer_list_text false entries)))))

unfoldable pub pex_text : Text → List PeerEntry → Text
unfolding peer_list_text to_text
pex_text node_id entries =
    piped (codes "PEX")
      (piped node_id (piped (to_text (length entries)) (peer_list_text true entries)))

-- `id:ip:port`, where the port is a number.
unfoldable pub parse_entry : Text → Option (Text × Text × ℤ)
unfolding split_string token try_parse_int
parse_entry entry =
    let parts = split_string b':' entry in
    if ltb (length parts) 3 then none else elim (try_parse_int (token 2 parts)) [
      | none ↦ none
      | some port ↦ some (token 0 parts, token 1 parts, port)
    ]

abbrev pub is_pex : List Text → Bool
is_pex tokens = leb 4 (length tokens) && text_eq (token 0 tokens) (codes "PEX")

-- The entries of the list in a text, if it is a list of peers.
unfoldable pub pex_entries : Text → Option (List Text)
unfolding split_string token
pex_entries msg =
    let tokens = split_string b'|' msg in
    let peer_list = token 3 tokens in
    if not (is_pex tokens)
    then none
    else if is_empty peer_list || text_eq peer_list (codes "0")
    then some []
    else some (split_string b',' peer_list)

module _ (w : World) where
  -- An entry of a list that is not the node itself becomes a peer with no key; `is_new` as `add_peer`
  -- says.
  unfoldable pub add_entry : Text → MeshNode → MeshNode × Option (Text × Text × ℤ)
  unfolding parse_entry add_peer
  add_entry entry m = elim (parse_entry entry) [
    | none ↦ (m, none)
    | some (pid, pip, pport) ↦
        let (added, is_new) = add_peer (w.now m.outputs) pid pip pport (pos 0) [] m.peers in
        if text_eq pid m.node_id
        then (m, none)
        else (record m { peers = added }, if is_new then some (pid, pip, pport) else none)
  ]

  unfoldable pub add_entries : List Text → MeshNode → MeshNode
  unfolding add_entry
  add_entries [] m = m
  add_entries (entry ∷ entries) m = add_entries entries (add_entry entry m).0

  -- The address of the peer is another one than the handshake goes to.
  unfoldable pub is_other_ip : Text → Text → MeshNode → Bool
  is_other_ip ip expected_peer_id m =
      let known = (get_peer expected_peer_id m.peers).ip in
      not (is_empty expected_peer_id)
      && has_peer expected_peer_id m.peers
      && (not (text_eq known ip) && not (is_empty known))

  unfoldable pub perform_pex_handshake : Text → ℤ → Text → MeshNode → MeshNode × Bool
  unfolding is_other_ip pex_text pex_entries c_string add_entries
  perform_pex_handshake ip port expected_peer_id m =
      let hello : Text = pex_text m.node_id (get_all_peers w.platform m.peers) in
      let greeted : MeshNode = give (Output.pex_hello ip port hello) m in
      if is_other_ip ip expected_peer_id m
      then (m, false)
      else elim (w.pex_answer greeted.outputs ip port) [
        | none ↦ (greeted, false)
        | some response ↦ elim (pex_entries (c_string response)) [
          | none ↦ (greeted, false)
          | some entries ↦ (add_entries entries greeted, true)
        ]
      ]

  -- The entries that a listener is sent: a handshake goes to each new peer.
  unfoldable pub accept_entries : List Text → MeshNode → MeshNode
  unfolding add_entry perform_pex_handshake
  accept_entries [] m = m
  accept_entries (entry ∷ entries) m =
      let (added, new_peer) = add_entry entry m in
      accept_entries entries (elim new_peer [
        | none ↦ added
        | some (pid, pip, pport) ↦ (perform_pex_handshake pip pport pid added).0
      ])

  -- What the listener does with what it reads from one connection.
  unfoldable pub process_pex : Text → MeshNode → MeshNode
  unfolding pex_entries c_string pex_text accept_entries
  process_pex buffer m = elim (pex_entries (c_string buffer)) [
    | none ↦ m
    | some entries ↦
        accept_entries entries
          (give (Output.pex_reply (pex_text m.node_id (get_all_peers w.platform m.peers))) m)
  ]
