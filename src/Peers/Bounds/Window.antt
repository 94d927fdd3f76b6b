-- ===== src/Peers/Bounds/Window.antt =====
-- The messages of one address in its window, in consensus/PeerManager.cpp.
use neuro_mesh.Prelude.{
  ℕ, suc, min, ◌-◌, ◌<◌, ◌≡◌, refl, true, false, some, List, [], ◌∷◌, Text, text_key, text_eq,
  text_eq_refl, if◌then◌else◌, ltb, leb, length, All, arith, Bool-cases, inl, inr, ◌∙◌,
}
use neuro_mesh.Prelude.Dict.{lookup-insert, lookup, insert}
use neuro_mesh.Prelude.Sorted.{length-insert-known}
use neuro_mesh.Pbft.Types.{Platform}
use neuro_mesh.Peers.Rates.{check_rate_limit, count_in_window, elapsed_ms, evict}
use neuro_mesh.Peers.Bounds.{IsBounded, check_rate_limit-IsBounded}
use neuro_mesh.Peers.Types.{PeerManager, RateLimitState, rate_limit_per_sec, rate_limit_map_cap}

-- A message of the address that it sends in the window of its entry.
check_rate_limit-known :
    (env : Platform) (now : ℕ) (ip : Text) (p : PeerManager) (limit : RateLimitState)
    → IsBounded p.rate_limits
    → lookup ip p.rate_limits ≡ some limit
    → elapsed_ms now limit.window_start < 1000
    → check_rate_limit env now ip p ≡ (
      record p { rate_limits = insert ip (record limit { count = suc limit.count }) p.rate_limits },
      leb (suc limit.count) rate_limit_per_sec,
    )
unfolding check_rate_limit count_in_window evict
check_rate_limit-known env now ip p limit (s, b) e w =
    let counted : RateLimitState = record limit { count = suc limit.count } in
    let inside : leb 1000 (elapsed_ms now limit.window_start) ≡ false = ground arith in
    let size : length (insert ip counted p.rate_limits) ≡ length p.rate_limits =
      length-insert-known ip counted limit p.rate_limits s e in
    let fits : leb (length (insert ip counted p.rate_limits)) rate_limit_map_cap ≡ true =
      ground arith in
    elim (Bool-cases (ltb rate_limit_per_sec (suc limit.count))) [
      | inl limited ↦
          let refused : leb (suc limit.count) rate_limit_per_sec ≡ false = ground arith in
          rw (check_rate_limit, e, inside, limited, refused) refl
      | inr passed ↦
          let taken : leb (suc limit.count) rate_limit_per_sec ≡ true = ground arith in
          rw (check_rate_limit, e, inside, passed, taken, fits) refl
    ]

-- How many messages of the address, sent at these times, are let through.
unfoldable pub accepted : Platform → Text → List ℕ → PeerManager → ℕ
unfolding check_rate_limit
accepted env ip [] p = 0
accepted env ip (now ∷ times) p =
    let (q, ok) = check_rate_limit env now ip p in
    let more = accepted env ip times q in if ok then suc more else more

-- Of the messages that an address sends one after another in its window, as many are let through as
-- are left of the hundred, and no more, if the table is in order and within its bound.
pub accepted_lem :
    (env : Platform) (ip : Text) (times : List ℕ) (p : PeerManager) (limit : RateLimitState)
    → IsBounded p.rate_limits
    → lookup ip p.rate_limits ≡ some limit
    → All (λ now. elapsed_ms now limit.window_start < 1000) times
    → accepted env ip times p ≡ min (length times) (rate_limit_per_sec - limit.count)
unfolding accepted
accepted_lem env ip [] p limit b e w = omega arith
accepted_lem env ip (now ∷ times) p limit b e w =
    let counted : RateLimitState = record limit { count = suc limit.count } in
    let q : PeerManager = record p { rate_limits = insert ip counted p.rate_limits } in
    let step = check_rate_limit-known env now ip p limit b e w.0 in
    let kept : IsBounded q.rate_limits = rw step at (check_rate_limit-IsBounded env now ip p b) in
    let me : text_eq ip ip ≡ true = text_eq_refl ip in
    let found : lookup ip q.rate_limits ≡ some counted =
      lookup-insert ip ip counted p.rate_limits ∙ rw me refl in
    let rest = accepted_lem env ip times q counted kept found w.1 in rw step (ground (arith, rest))
