-- ===== src/Peers/Tests.antt =====
-- The theorems on consensus/PeerManager.cpp at concrete inputs.
use neuro_mesh.Prelude.{
  ◌≡◌, refl, false, List, [], ◌∷◌, codes, text_key, text_eq, text_lt, is_empty, All,
}
use neuro_mesh.Prelude.Dict.{lookup, insert, has_key}
use neuro_mesh.Prelude.Int.{pos}
use neuro_mesh.Pbft.Tests.{toy}
use neuro_mesh.Peers.Calls.{Call, perform_all}
use neuro_mesh.Peers.Kept.{Spares, get_peer_key-perform_all}
use neuro_mesh.Peers.Registry.{add_peer, new_peer, get_peer_key}
use neuro_mesh.Peers.Types.{PeerManager, RateLimitState, new_peer_manager, path_beacon}

abbrev one_peer : PeerManager
one_peer = (add_peer 1 (codes "p") (codes "ip") (pos 1) (pos 2) (codes "K") new_peer_manager).0

abbrev calls : List Call
calls =
    Call.heartbeat 2 (codes "p") (codes "ip") (pos 1) (pos 2) (codes "L")
    ∷ Call.confirm path_beacon (codes "p") (codes "L")
    ∷ Call.remove (codes "q")
    ∷ Call.rate 3 (codes "ip")
    ∷ []

known : is_empty (get_peer_key (codes "p") one_peer) ≡ false
unfolding get_peer_key add_peer insert lookup has_key text_eq text_lt new_peer
known = refl

spared : All (Spares (codes "p")) calls
unfolding text_eq
spared = (tt, (tt, (refl, (tt, tt))))

get_peer_key-perform_all_example :
    get_peer_key (codes "p") (perform_all toy calls one_peer) ≡ get_peer_key (codes "p") one_peer
get_peer_key-perform_all_example =
    get_peer_key-perform_all (codes "p") toy calls one_peer known spared

-- An address with 98 messages in its window.
abbrev busy_limit : RateLimitState
busy_limit = record { count = 98; window_start = 7000000000 }

abbrev busy : PeerManager
busy = record new_peer_manager { rate_limits = (codes "ip", busy_limit) ∷ [] }
