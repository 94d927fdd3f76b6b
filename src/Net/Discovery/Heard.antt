-- ===== src/Net/Discovery/Heard.antt =====
-- What class `PeerDiscovery` of net/TransportLayer.cpp takes from payloads.
use neuro_mesh.Prelude.{
  ℕ, ◌<◌, ◌^◌, ◌%◌, ◌≡◌, ◌≢◌, refl, Bool, true, false, Option, some, [], ◌∷◌, ◌++◌, Text, codes,
  text_key, text_eq, text_eq_refl, text_eq_iff, arith, if_intro, option_elim,
}
use neuro_mesh.Prelude.Decimal.{to_text, int_to_text}
use neuro_mesh.Prelude.Dict.{lookup, lookup-insert}
use neuro_mesh.Prelude.Int.{ℤ}
use neuro_mesh.Prelude.Numbers.{stoi, stoi-to_text}
use neuro_mesh.Prelude.Search.{has_byte}
use neuro_mesh.Mesh.Gossip.{cut}
use neuro_mesh.Mesh.Gossip.Signed.{cut-append}
use neuro_mesh.Mesh.Wire.{piped, beacon_payload}
use neuro_mesh.Net.Discovery.{
  PeerInfo, PeerDiscovery, parse_payload, note_peer, handle_incoming_beacon, announcement,
}

parse_payload-announcement :
    (node_id ip : Text) (port : ℕ)
    → has_byte b'|' node_id ≡ false
    → has_byte b'|' ip ≡ false
    → port < 2 ^ 16
    → parse_payload (announcement node_id ip port) ≡ some (node_id, port)
unfolding parse_payload announcement
parse_payload-announcement node_id ip port clean ip_clean small =
    let fits : port % 2 ^ 16 ≡ port = omega (arith, small) in
    rw
      (
        parse_payload,
        cut-append node_id (ip ++ (b'|' ∷ to_text port)) clean,
        cut-append ip (to_text port) ip_clean,
        stoi-to_text port (omega (arith, small)),
        fits,
      )
      refl

note_peer-known :
    (now : ℕ) (src_ip node_id : Text) (port : ℕ) (d : PeerDiscovery)
    → (peer : PeerInfo) × (lookup node_id (note_peer now src_ip node_id port d).peers ≡ some peer)
      × (peer.ip ≡ src_ip)
      × (peer.port ≡ port)
      × (peer.last_seen ≡ now)
unfolding note_peer
note_peer-known now src_ip node_id port d =
    let Known : PeerDiscovery → Type 0 = λ e.
      (peer : PeerInfo) × (lookup node_id e.peers ≡ some peer)
      × (peer.ip ≡ src_ip)
      × (peer.port ≡ port)
      × (peer.last_seen ≡ now) in
    option_elim Known (lookup node_id d.peers)
      (λ e. (
        record {
          node_id = node_id;
          ip = src_ip;
          port = port;
          public_key_pem = [];
          last_seen = now;
          is_verified = false;
        },
        rw lookup-insert (rw text_eq_refl refl),
        refl,
        refl,
        refl,
      ))
      (λ peer e. (
        record peer { last_seen = now; ip = src_ip; port = port },
        rw lookup-insert (rw text_eq_refl refl),
        refl,
        refl,
        refl,
      ))

note_peer-others :
    (now : ℕ) (src_ip id node_id : Text) (port : ℕ) (d : PeerDiscovery)
    → text_eq id node_id ≡ false
    → lookup id (note_peer now src_ip node_id port d).peers ≡ lookup id d.peers
unfolding note_peer
note_peer-others now src_ip id node_id port d other =
    option_elim (λ (e : PeerDiscovery). lookup id e.peers ≡ lookup id d.peers)
      (lookup node_id d.peers) (λ e. rw lookup-insert (rw other refl))
      (λ peer e. rw lookup-insert (rw other refl))

-- What is read from a payload has the name before its first delimiter.
abbrev IsFrom : Text → Option (Text × ℕ) → Type 0
IsFrom head o = (name : Text) (port : ℕ) → o ≡ some (name, port) → name ≡ head

parse_payload-IsFrom :
    (head rest : Text)
    → has_byte b'|' head ≡ false
    → IsFrom head (parse_payload (head ++ (b'|' ∷ rest)))
unfolding parse_payload
parse_payload-IsFrom head rest clean =
    rw (parse_payload, cut-append head rest clean)
      (option_elim (IsFrom head) (cut rest) (λ e name port f. absurd (ground arith))
        (λ parts e.
          option_elim (IsFrom head) (stoi parts.1) (λ g name port f. absurd (ground arith))
            (λ number g name port f. ground arith)))

-- An announcement of a node is taken by every other node: the sender is known from then on, with the
-- address that the packet came from and the port that was announced, if neither its name nor the
-- announced address has a delimiter in it.
pub handle_incoming_beacon-announcement :
    (now : ℕ) (src_ip node_id ip : Text) (port : ℕ) (d : PeerDiscovery)
    → has_byte b'|' node_id ≡ false
    → has_byte b'|' ip ≡ false
    → port < 2 ^ 16
    → node_id ≢ d.node_id
    → let (after, ok) = handle_incoming_beacon now src_ip (announcement node_id ip port) d in
      (ok ≡ true)
      × ((peer : PeerInfo) × (lookup node_id after.peers ≡ some peer)
          × (peer.ip ≡ src_ip)
          × (peer.port ≡ port)
          × (peer.last_seen ≡ now))
unfolding handle_incoming_beacon note_peer
handle_incoming_beacon-announcement now src_ip node_id ip port d clean ip_clean small other =
    let foreign : text_eq node_id d.node_id ≡ false =
      ground (arith, text_eq_iff node_id d.node_id) in
    rw
      (
        handle_incoming_beacon,
        parse_payload-announcement node_id ip port clean ip_clean small,
        foreign,
      )
      (refl, note_peer-known now src_ip node_id port d)

-- The beacons that a mesh node sends on the discovery port have another form: one of them changes
-- nothing that is known of any peer but one with the name DISCOVERY.
pub handle_incoming_beacon-beacon_payload :
    (now : ℕ) (src_ip id node_id : Text) (tcp_port tls_port timestamp : ℤ)
    (b64_pubkey fingerprint b64_cert_pem b64_sig : Text) (d : PeerDiscovery)
    → id ≢ codes "DISCOVERY"
    → lookup id
        (handle_incoming_beacon now src_ip
          (beacon_payload node_id tcp_port tls_port timestamp b64_pubkey fingerprint b64_cert_pem
            b64_sig)
          d).0.peers
      ≡ lookup id d.peers
unfolding handle_incoming_beacon note_peer beacon_payload parse_payload
handle_incoming_beacon-beacon_payload now src_ip id node_id tcp_port tls_port timestamp b64_pubkey
      fingerprint b64_cert_pem b64_sig d other =
    let rest : Text = piped node_id (
      piped (int_to_text tcp_port) (
        piped (int_to_text tls_port) (
          piped (int_to_text timestamp)
            (piped b64_pubkey (piped fingerprint (piped b64_cert_pem b64_sig)))))) in
    let Keeps : PeerDiscovery × Bool → Type 0 = λ r. lookup id r.0.peers ≡ lookup id d.peers in
    option_elim Keeps (parse_payload (codes "DISCOVERY" ++ (b'|' ∷ rest))) (λ e. refl)
      (λ found e.
        let named : found.0 ≡ codes "DISCOVERY" =
          parse_payload-IsFrom (codes "DISCOVERY") rest refl found.0 found.1 e in
        if_intro Keeps (text_eq found.0 d.node_id) refl (
          note_peer-others now src_ip id found.0 found.1 d
            (rw named (ground (arith, text_eq_iff id (codes "DISCOVERY"))))))
