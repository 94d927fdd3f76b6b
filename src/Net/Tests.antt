-- ===== src/Net/Tests.antt =====
-- Runs of net/TransportLayer.cpp at concrete inputs.
use neuro_mesh.Prelude.{
  ◌≤◌, ◌≡◌, refl, true, none, some, List, [], ◌∷◌, codes, length, min, is_empty, if◌then◌else◌,
  text_key, nat_key, arith, ◌==◌,
}
use neuro_mesh.Prelude.Dict.{lookup, contains}
use neuro_mesh.Prelude.Int.{pos}
use neuro_mesh.Mesh.Wire.{beacon_payload}
use neuro_mesh.Net.Discovery.{PeerInfo, PeerDiscovery, handle_incoming_beacon, announcement}
use neuro_mesh.Net.Discovery.Heard.{
  handle_incoming_beacon-announcement, handle_incoming_beacon-beacon_payload,
}
use neuro_mesh.Net.Transport.{Sockets, TransportLayer, send}
use neuro_mesh.Net.Transport.Descriptors.{Call, perform_all, IsHeld, perform_all-IsHeld, is_open}
use neuro_mesh.Net.Transport.Sending.{IsWriting, IsSent, send-IsSent}

-- Sockets that take three bytes at a time, whose second handshake fails.
abbrev three_bytes : Sockets
three_bytes = record {
  now = λ acts. 0;
  accept4 = λ acts. some (length acts);
  socket = λ acts. some (length acts);
  connects = λ acts fd host port. true;
  makes_ssl = λ acts. true;
  handshakes = λ acts fd. fd == 0;
  verifies = λ acts fd. true;
  writes = λ acts fd rest. if is_empty rest then none else some (min 3 (length rest));
  reads = λ acts fd len. none;
}

abbrev listening : TransportLayer
listening = record { server_fd = some 3; active_ssl = []; rate_ts = 0; accept_rate = 0; acts = [] }

listening-IsHeld : IsHeld listening
unfolding contains is_open
listening-IsHeld fd = refl

abbrev calls : List Call
calls =
    Call.accepting
    ∷ Call.connecting (codes "10.0.0.2") 9000
    ∷ Call.sending 0 (codes "hello")
    ∷ Call.closing 0
    ∷ Call.stopping
    ∷ []

perform_all-IsHeld_example : IsHeld (perform_all three_bytes calls listening)
perform_all-IsHeld_example = perform_all-IsHeld three_bytes calls listening listening-IsHeld

three_bytes-IsWriting : IsWriting three_bytes
three_bytes-IsWriting = record {
  some_bytes = λ acts fd rest n e.
      elim rest as (λ r. three_bytes.writes acts fd r ≡ some n → 1 ≤ n) [
        | [] ↦ λ f. absurd (ground arith)
        | c ∷ s ↦ λ f. ground arith
      ]
        e;
  no_more = λ acts fd rest n e.
      elim rest as (λ r. three_bytes.writes acts fd r ≡ some n → n ≤ length r) [
        | [] ↦ λ f. absurd (ground arith)
        | c ∷ s ↦ λ f. ground arith
      ]
        e;
}

send-IsSent_example :
    IsSent 0 (codes "hello") 0 listening (send three_bytes 0 (codes "hello") listening)
send-IsSent_example = send-IsSent three_bytes three_bytes-IsWriting 0 (codes "hello") listening

abbrev quiet : PeerDiscovery
quiet = record {
  node_id = codes "a";
  peer_timeout_ms = 15000;
  has_socket = true;
  peers = [];
  notices = [];
}

handle_incoming_beacon-announcement_example :
    let (after, ok) =
      handle_incoming_beacon 7
        (codes "10.0.0.2")
        (announcement (codes "b") (codes "ip") 9999)
        quiet in
    (ok ≡ true)
    × ((peer : PeerInfo) × (lookup (codes "b") after.peers ≡ some peer)
        × (peer.ip ≡ codes "10.0.0.2")
        × (peer.port ≡ 9999)
        × (peer.last_seen ≡ 7))
handle_incoming_beacon-announcement_example =
    handle_incoming_beacon-announcement 7 (codes "10.0.0.2") (codes "b") (codes "ip") 9999 quiet
      refl refl (ground arith) (λ e. absurd (ground arith))

handle_incoming_beacon-beacon_payload_example :
    lookup
      (codes "b")
      (handle_incoming_beacon 7
        (codes "10.0.0.2")
        (beacon_payload
          (codes "b")
          (pos 10001)
          (pos 10002)
          (pos 5)
          (codes "Qg==")
          (codes "f")
          []
          (codes "c2ln"))
        quiet).0.peers
    ≡ none
unfolding lookup
handle_incoming_beacon-beacon_payload_example =
    handle_incoming_beacon-beacon_payload 7 (codes "10.0.0.2") (codes "b") (codes "b") (pos 10001)
      (pos 10002) (pos 5) (codes "Qg==") (codes "f") [] (codes "c2ln") quiet
      (λ e. absurd (ground arith))
