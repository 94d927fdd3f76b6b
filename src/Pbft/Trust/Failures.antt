-- ===== src/Pbft/Trust/Failures.antt =====
-- The failure counter of consensus/PBFT.hpp and the automatic ban at its threshold.
use neuro_mesh.Prelude.{ℕ, suc, ◌≤◌, ◌<◌, ◌≡◌, ◌⊎◌, inl, inr, Text, leb, arith, Bool-cases}
use neuro_mesh.Pbft.Trust.{trust_of, record_failure, count_failure, auto_ban}
use neuro_mesh.Pbft.Types.{PbftConsensus, auto_prune_failures}

-- Below the threshold a failure is counted; at it the peer is banned as well.
pub record_failure_cases :
    (now : ℕ) (x : Text) (p : PbftConsensus)
    → ((suc (trust_of x p).consecutive_failures < auto_prune_failures)
        × (record_failure now x p ≡ count_failure now x p))
      ⊎ ((auto_prune_failures ≤ suc (trust_of x p).consecutive_failures)
          × (record_failure now x p ≡ auto_ban x (count_failure now x p)))
unfolding record_failure
record_failure_cases now x p =
    elim (Bool-cases (leb auto_prune_failures (suc (trust_of x p).consecutive_failures))) [
      | inl over ↦ inr (ground arith, rw over)
      | inr under ↦ inl (ground arith, rw under)
    ]
