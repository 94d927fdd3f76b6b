-- ===== src/Peers/Rates.antt =====
-- The rate limit of consensus/PeerManager.cpp and the eviction from its table.
use neuro_mesh.Prelude.{
  ℕ, suc, ◌-◌, ◌/◌, Bool, true, false, not, Option, none, some, List, [], ◌∷◌, Text, text_key,
  if◌then◌else◌, ltb, leb, length, keep_if,
}
use neuro_mesh.Prelude.Dict.{Dict, lookup, insert, erase}
use neuro_mesh.Pbft.Types.{Platform, elapsed_seconds}
use neuro_mesh.Peers.Types.{
  PeerManager, RateLimitState, rate_limit_per_sec, rate_limit_map_cap, rate_limit_evict_sec,
  walk_map,
}

-- `duration_cast<milliseconds>(now - then).count()` for a reading that is not later than `now`.
abbrev pub elapsed_ms : ℕ → ℕ → ℕ
elapsed_ms now since = (now - since) / 1000000

-- The entry after the message is counted, in a new window if the old one is over. A new entry has
-- the time 0.
unfoldable pub count_in_window : ℕ → Option RateLimitState → RateLimitState
count_in_window now none =
    if leb 1000 (elapsed_ms now 0)
    then record { count = 1; window_start = now }
    else record { count = 1; window_start = 0 }
count_in_window now (some limit) =
    if leb 1000 (elapsed_ms now limit.window_start)
    then record { count = 1; window_start = now }
    else record limit { count = suc limit.count }

-- The entry with the earliest window, the first of several.
unfoldable pub oldest : Text × RateLimitState → List (Text × RateLimitState) → Text
oldest best [] = best.0
oldest best (entry ∷ rest) =
    oldest (if ltb entry.1.window_start best.1.window_start then entry else best) rest

unfoldable pub evict_oldest : Platform → Dict Text RateLimitState → Dict Text RateLimitState
unfolding oldest
evict_oldest env limits = elim (walk_map env limits) [
  | [] ↦ limits
  | entry ∷ rest ↦ erase (oldest entry rest) limits
]

unfoldable pub evict_stale : ℕ → Dict Text RateLimitState → Dict Text RateLimitState
evict_stale now limits =
    keep_if
      (λ (entry : Text × RateLimitState).
        not (ltb rate_limit_evict_sec (elapsed_seconds now entry.1.window_start)))
      limits

unfoldable pub evict : Platform → ℕ → Dict Text RateLimitState → Dict Text RateLimitState
unfolding evict_stale evict_oldest
evict env now limits =
    let fresh = evict_stale now limits in
    if leb (length limits) rate_limit_map_cap
    then limits
    else if leb (length fresh) rate_limit_map_cap
    then fresh
    else evict_oldest env fresh

unfoldable pub check_rate_limit : Platform → ℕ → Text → PeerManager → PeerManager × Bool
unfolding count_in_window evict
check_rate_limit env now ip p =
    let counted = count_in_window now (lookup ip p.rate_limits) in
    let limits = insert ip counted p.rate_limits in
    if ltb rate_limit_per_sec counted.count
    then (record p { rate_limits = limits }, false)
    else (record p { rate_limits = evict env now limits }, true)

unfoldable pub reset_rate_limit : Text → PeerManager → PeerManager
reset_rate_limit ip p = record p { rate_limits = erase ip p.rate_limits }
