-- ===== src/Peers/Bounds.antt =====
-- The rate table of consensus/PeerManager.cpp: its order and the number of its addresses.
pub mod Histories
pub mod Window
use neuro_mesh.Prelude.{
  ℕ, suc, ◌+◌, ◌≤◌, ◌<◌, ◌≡◌, ◌≢◌, refl, Bool, true, false, not, ◌||◌, Option, none, some, List, [],
  ◌∷◌, Text, text_key, text_eq, text_eq_iff, text_eq_refl, if◌then◌else◌, ltb, leb, length,
  length-keep_if-le, keep_if, map, All, arith, Bool-cases, Option-cases, inl, inr, if_intro, sym,
  subst, ◌∙◌,
}
use neuro_mesh.Prelude.Dict.{Dict, lookup, insert, erase, contains}
use neuro_mesh.Prelude.Sorted.{
  IsSorted, insert-IsSorted, keep_if-IsSorted, erase-IsSorted, length-insert-le,
  length-insert-known, length-erase-known, length-erase-le,
}
use neuro_mesh.Pbft.Types.{Platform}
use neuro_mesh.Peers.Rates.{
  check_rate_limit, count_in_window, evict, evict_oldest, evict_stale, oldest, reset_rate_limit,
}
use neuro_mesh.Prelude.Int.{ℤ}
use neuro_mesh.Peers.Calls.{Call, perform, perform_all}
use neuro_mesh.Peers.Registry.{
  add_peer, update_peer_heartbeat, remove_peer, set_peer_tls_fd, set_cooldown, set_own_telemetry,
  set_peer_telemetry, add_known_ip,
}
use neuro_mesh.Peers.Trust.{
  unpin_peer_key, pin_tls_fingerprint, pre_provision_peer_key, confirm_path,
}
use neuro_mesh.Peers.Types.{
  PeerManager, new_peer_manager, RateLimitState, rate_limit_per_sec, rate_limit_map_cap, entries_of,
  walk_map,
}

-- An entry of the table as the table has it.
abbrev IsEntry : Dict Text RateLimitState → Text × RateLimitState → Type 0
IsEntry m entry = lookup entry.0 m ≡ some entry.1

entries_of-some :
    (k : Text) (v : RateLimitState) (ks : List Text) (m : Dict Text RateLimitState)
    → lookup k m ≡ some v
    → entries_of (k ∷ ks) m ≡ (k, v) ∷ entries_of ks m
unfolding entries_of
entries_of-some k v ks m e = rw (entries_of, e) refl

entries_of-none :
    (k : Text) (ks : List Text) (m : Dict Text RateLimitState)
    → lookup k m ≡ none
    → entries_of (k ∷ ks) m ≡ entries_of ks m
unfolding entries_of
entries_of-none k ks m e = rw (entries_of, e) refl

entries_of-IsEntry :
    (ks : List Text) (m : Dict Text RateLimitState) → All (IsEntry m) (entries_of ks m)
unfolding entries_of
entries_of-IsEntry [] m = tt
entries_of-IsEntry (k ∷ ks) m = elim (Option-cases (lookup k m)) [
  | inl missing ↦
      subst (All (IsEntry m)) (sym (entries_of-none k ks m missing)) (entries_of-IsEntry ks m)
  | inr (v, e) ↦
      subst (All (IsEntry m)) (sym (entries_of-some k v ks m e)) (e, entries_of-IsEntry ks m)
]

oldest-known :
    (m : Dict Text RateLimitState) (rest : List (Text × RateLimitState))
    (best : Text × RateLimitState)
    → IsEntry m best
    → All (IsEntry m) rest
    → (v : RateLimitState) × (lookup (oldest best rest) m ≡ some v)
unfolding oldest
oldest-known m [] best b a = (best.1, b)
oldest-known m (entry ∷ rest) best b a =
    let earlier : Bool = ltb entry.1.window_start best.1.window_start in
    oldest-known m rest (if earlier then entry else best) (if_intro (IsEntry m) earlier a.0 b) a.1

entries_of-nonempty :
    (k : Text) (v : RateLimitState) (ks : List Text) (m : Dict Text RateLimitState)
    → contains k ks ≡ true
    → lookup k m ≡ some v
    → (entry : Text × RateLimitState) × (rest : List (Text × RateLimitState)) × (entries_of ks m
        ≡ entry ∷ rest)
unfolding contains
entries_of-nonempty k v [] m c l = absurd (ground arith)
entries_of-nonempty k v (j ∷ ks) m c l = elim (Option-cases (lookup j m)) [
  | inr (w, e) ↦ ((j, w), entries_of ks m, entries_of-some j w ks m e)
  | inl missing ↦ elim (Bool-cases (text_eq k j)) [
    | inl same ↦
        let eq : k ≡ j = (text_eq_iff k j).0 same in
        let here : lookup j m ≡ some v = rw eq at l in absurd (ground arith)
    | inr other ↦
        let (entry, rest, e) = entries_of-nonempty k v ks m (ground arith) l in
        (entry, rest, entries_of-none j ks m missing ∙ e)
  ]
]

-- The table walked in any order has an entry, if it is not empty.
walk_map-nonempty :
    (env : Platform) (k : Text) (v : RateLimitState) (m : Dict Text RateLimitState)
    → (entry : Text × RateLimitState) × (rest : List (Text × RateLimitState)) × (walk_map env
          ((k, v) ∷ m)
        ≡ entry ∷ rest)
unfolding walk_map lookup contains
walk_map-nonempty env k v m =
    let ks : List Text = map (λ (entry : Text × RateLimitState). entry.0) ((k, v) ∷ m) in
    let me : text_eq k k ≡ true = text_eq_refl k in
    let listed : contains k (env.bucket_order ks) ≡ true =
      env.bucket_order_members k ks ∙ rw me refl in
    entries_of-nonempty k v (env.bucket_order ks) ((k, v) ∷ m) listed (rw me refl)

walk_map-IsEntry :
    (env : Platform) (m : Dict Text RateLimitState) → All (IsEntry m) (walk_map env m)
unfolding walk_map
walk_map-IsEntry env m =
    entries_of-IsEntry (env.bucket_order (map (λ (entry : Text × RateLimitState). entry.0) m)) m

length-evict_oldest :
    (env : Platform) (m : Dict Text RateLimitState)
    → 1 ≤ length m
    → length (evict_oldest env m) + 1 ≤ length m
unfolding evict_oldest
length-evict_oldest env [] h = absurd (omega arith)
length-evict_oldest env ((k, v) ∷ m) h =
    let (entry, rest, e) = walk_map-nonempty env k v m in
    let all : All (IsEntry ((k, v) ∷ m)) (entry ∷ rest) =
      subst (All (IsEntry ((k, v) ∷ m))) e (walk_map-IsEntry env ((k, v) ∷ m)) in
    let (w, found) = oldest-known ((k, v) ∷ m) rest entry all.0 all.1 in
    rw (evict_oldest, e) (length-erase-known (oldest entry rest) w ((k, v) ∷ m) found)

length-evict :
    (env : Platform) (now : ℕ) (m : Dict Text RateLimitState)
    → length m ≤ rate_limit_map_cap + 1
    → length (evict env now m) ≤ rate_limit_map_cap
unfolding evict evict_stale
length-evict env now m h =
    let fresh : Dict Text RateLimitState = evict_stale now m in
    let small : length fresh ≤ length m = length-keep_if-le _ m in
    ground (arith, length-evict_oldest env fresh)

evict_oldest-IsSorted :
    (env : Platform) (m : Dict Text RateLimitState) → IsSorted m → IsSorted (evict_oldest env m)
unfolding evict_oldest
evict_oldest-IsSorted env m s =
    elim (walk_map env m)
      as (λ (walked : List (Text × RateLimitState)).
        IsSorted (elim walked [ [] ↦ m | entry ∷ rest ↦ erase (oldest entry rest) m ])) [
          | [] ↦ s
          | entry ∷ rest ↦ erase-IsSorted (oldest entry rest) m s
        ]

evict-IsSorted :
    (env : Platform) (now : ℕ) (m : Dict Text RateLimitState)
    → IsSorted m
    → IsSorted (evict env now m)
unfolding evict evict_stale
evict-IsSorted env now m s =
    let fresh : IsSorted (evict_stale now m) = keep_if-IsSorted _ m s in
    if_intro IsSorted (leb (length m) rate_limit_map_cap) s (
      if_intro IsSorted (leb (length (evict_stale now m)) rate_limit_map_cap) fresh
        (evict_oldest-IsSorted env (evict_stale now m) fresh))

-- The table is in order and not longer than its bound.
abbrev pub IsBounded : Dict Text RateLimitState → Type 0
IsBounded m = IsSorted m × (length m ≤ rate_limit_map_cap)

first-count : (now : ℕ) → (count_in_window now none).count ≡ 1
unfolding count_in_window
first-count now = ground arith

pub check_rate_limit-IsBounded :
    (env : Platform) (now : ℕ) (ip : Text) (p : PeerManager)
    → IsBounded p.rate_limits
    → IsBounded (check_rate_limit env now ip p).0.rate_limits
unfolding check_rate_limit
check_rate_limit-IsBounded env now ip p (s, b) =
    let counted : RateLimitState = count_in_window now (lookup ip p.rate_limits) in
    let grown : Dict Text RateLimitState = insert ip counted p.rate_limits in
    let sorted : IsSorted grown = insert-IsSorted ip counted p.rate_limits s in
    elim (Bool-cases (ltb rate_limit_per_sec counted.count)) [
      | inr passed ↦ rw passed (
        evict-IsSorted env now grown sorted,
        length-evict env now grown (omega (arith, length-insert-le ip counted p.rate_limits)),
      )
      | inl limited ↦ elim (Option-cases (lookup ip p.rate_limits)) [
        | inl missing ↦
            let one : counted.count ≡ 1 = rw missing (first-count now) in absurd (ground arith)
        | inr (old, e) ↦
            rw limited (sorted, omega (arith, length-insert-known ip counted old p.rate_limits s e))
      ]
    ]

pub reset-IsBounded :
    (ip : Text) (p : PeerManager)
    → IsBounded p.rate_limits
    → IsBounded (reset_rate_limit ip p).rate_limits
unfolding reset_rate_limit
reset-IsBounded ip p (s, b) =
    (erase-IsSorted ip p.rate_limits s, omega (arith, length-erase-le ip p.rate_limits))
