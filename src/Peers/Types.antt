-- ===== src/Peers/Types.antt =====
-- The data of consensus/PeerManager.hpp. Times are readings of `steady_clock` in nanoseconds.
use neuro_mesh.Prelude.{ℕ, Bool, false, none, some, List, [], ◌∷◌, Text, text_key, map}
use neuro_mesh.Prelude.Dict.{Dict, lookup}
use neuro_mesh.Prelude.Int.{ℤ, pos, negsuc}
use neuro_mesh.Pbft.Types.{Platform}

pub record PeerEntry : Type 0 where
  pub node_id : Text
  pub ip : Text
  pub tcp_port : ℤ
  pub tls_port : ℤ
  pub public_key_pem : Text
  pub last_heartbeat : ℕ
  pub verified : Bool
  pub tls_fd : ℤ
  pub confirmed_paths : ℕ

abbrev pub path_beacon : ℕ
path_beacon = 1

abbrev pub path_announce : ℕ
path_announce = 2

-- `PeerEntry{}`
abbrev pub new_peer_entry : PeerEntry
new_peer_entry = record {
  node_id = [];
  ip = [];
  tcp_port = pos 0;
  tls_port = pos 0;
  public_key_pem = [];
  last_heartbeat = 0;
  verified = false;
  tls_fd = negsuc 0;
  confirmed_paths = 0;
}

pub record TofuEntry : Type 0 where
  pub pinned_tls_fingerprint : Text
  pub first_seen : ℕ

pub record RateLimitState : Type 0 where
  pub count : ℕ
  pub window_start : ℕ

pub record PathConfirmResult : Type 0 where
  pub dual_confirmed : Bool
  pub key_mismatch : Bool

pub record PeerManager : Type 0 where
  pub peers : Dict Text PeerEntry
  pub tofu_trust : Dict Text TofuEntry
  pub pre_provisioned_keys : Dict Text Text
  pub rate_limits : Dict Text RateLimitState
  pub last_consensus : Dict Text ℕ
  pub own_telemetry : Text
  pub peer_telemetry : Dict Text Text
  pub known_peer_ips : List Text

abbrev pub new_peer_manager : PeerManager
new_peer_manager = record {
  peers = [];
  tofu_trust = [];
  pre_provisioned_keys = [];
  rate_limits = [];
  last_consensus = [];
  own_telemetry = [];
  peer_telemetry = [];
  known_peer_ips = [];
}

abbrev pub rate_limit_per_sec : ℕ
rate_limit_per_sec = 100

abbrev pub consensus_cooldown_sec : ℕ
consensus_cooldown_sec = 30

abbrev pub liveness_sec : ℕ
liveness_sec = 30

abbrev pub rate_limit_map_cap : ℕ
rate_limit_map_cap = 4096

abbrev pub rate_limit_evict_sec : ℕ
rate_limit_evict_sec = 30

-- The entries under some keys, in their order.
unfoldable pub entries_of : {V : Type 0} → List Text → Dict Text V → List (Text × V)
unfolding lookup
entries_of [] m = []
entries_of (k ∷ ks) m =
    let rest = entries_of ks m in elim (lookup k m) [ none ↦ rest | some v ↦ (k, v) ∷ rest ]

-- The entries of an `std::unordered_map`, in the order in which it walks them.
unfoldable pub walk_map : {V : Type 0} → Platform → Dict Text V → List (Text × V)
unfolding entries_of
walk_map env m = entries_of (env.bucket_order (map (λ entry. entry.0) m)) m
