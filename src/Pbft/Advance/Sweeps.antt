-- ===== src/Pbft/Advance/Sweeps.antt =====
-- The sweep of stale rounds in `cleanup_stale_rounds` of consensus/PBFT.hpp.
use neuro_mesh.Prelude.{
  ℕ, ◌≡◌, refl, Bool, false, ◌&&◌, ◌||◌, none, some, List, [], ◌∷◌, map, Text, text_key, text_eq,
  text_eq_iff, if◌then◌else◌, arith, ltb,
}
use neuro_mesh.Prelude.Dict.{Dict, lookup, lookup-erase, contains, Distinct}
use neuro_mesh.Pbft.Advance.{cleanup_stale_rounds, sweep, sweep_round, is_stale}
use neuro_mesh.Pbft.Types.{PbftConsensus, ConsensusRound, elapsed_seconds, round_ttl_sec}

abbrev pub keys : Dict Text ConsensusRound → List Text
keys = map (λ entry. entry.0)

-- Is the round `k` among these, and stale?
unfoldable pub stale_in : ℕ → Text → Dict Text ConsensusRound → Bool
stale_in now k [] = false
stale_in now k ((j, round) ∷ rest) = (text_eq k j && is_stale now round) || stale_in now k rest

sweep_round-lookup :
    (now : ℕ) (k j : Text) (round : ConsensusRound) (p : PbftConsensus)
    → (lookup k (sweep_round now j round p).rounds
        ≡ (if text_eq k j && is_stale now round then none else lookup k p.rounds))
      × (lookup k (sweep_round now j round p).vote_registry
          ≡ (if text_eq k j && is_stale now round then none else lookup k p.vote_registry))
unfolding sweep_round
sweep_round-lookup now k j round p =
    ground (arith, lookup-erase k j p.rounds, lookup-erase k j p.vote_registry)

sweep-lookup :
    (now : ℕ) (k : Text) (rounds : Dict Text ConsensusRound) (p : PbftConsensus)
    → (lookup k (sweep now rounds p).rounds
        ≡ (if stale_in now k rounds then none else lookup k p.rounds))
      × (lookup k (sweep now rounds p).vote_registry
          ≡ (if stale_in now k rounds then none else lookup k p.vote_registry))
unfolding sweep stale_in
sweep-lookup now k [] p = (refl, refl)
sweep-lookup now k ((j, round) ∷ rest) p =
    ground (
      arith,
      sweep_round-lookup now k j round p,
      sweep-lookup now k rest (sweep_round now j round p),
    )

not_among :
    (now : ℕ) (k : Text) (rounds : Dict Text ConsensusRound)
    → contains k (keys rounds) ≡ false
    → stale_in now k rounds ≡ false
unfolding stale_in contains
not_among now k [] h = refl
not_among now k ((j, round) ∷ rest) h = ground (arith, not_among now k rest)

-- Where each key has one entry, as in a `std::map`, a round is stale among them by its own age.
stale_in-lookup :
    (now : ℕ) (k : Text) (rounds : Dict Text ConsensusRound)
    → Distinct (keys rounds)
    → stale_in now k rounds
      ≡ elim (lookup k rounds) [ none ↦ false | some round ↦ is_stale now round ]
unfolding stale_in lookup
stale_in-lookup now k [] d = refl
stale_in-lookup now k ((j, round) ∷ rest) d =
    ground (arith, stale_in-lookup now k rest d.1, not_among now k rest, text_eq_iff k j)

-- If no two rounds have one key, the sweep leaves of a round and of its votes nothing when the
-- round has seen no activity for longer than the limit, and all of it otherwise.
pub cleanup_stale_rounds-lookup :
    (now : ℕ) (k : Text) (p : PbftConsensus) (round : ConsensusRound)
    → Distinct (keys p.rounds)
    → lookup k p.rounds ≡ some round
    → let q = cleanup_stale_rounds now p in
      let stale = ltb round_ttl_sec (elapsed_seconds now round.last_activity) in
      (lookup k q.rounds ≡ (if stale then none else some round))
      × (lookup k q.vote_registry ≡ (if stale then none else lookup k p.vote_registry))
unfolding cleanup_stale_rounds
cleanup_stale_rounds-lookup now k p round d e =
    ground (arith, sweep-lookup now k p.rounds p, stale_in-lookup now k p.rounds d)
