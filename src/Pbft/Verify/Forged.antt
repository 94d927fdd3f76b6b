-- ===== src/Pbft/Verify/Forged.antt =====
-- A peer that sends messages with bad signatures to `verify_message` of consensus/PBFT.hpp.
use neuro_mesh.Prelude.{
  ℕ, suc, ◌+◌, ◌<◌, ◌≡◌, refl, inl, inr, true, false, none, some, List, [], ◌∷◌, Text, text_key,
  text_eq_refl, arith, length, All, ap, sym, subst, ◌∙◌,
}
use neuro_mesh.Prelude.Dict.{
  lookup, contains, lookup-insert, lookup-erase, contains-add, contains-remove,
}
use neuro_mesh.Crypto.{PublicKey}
use neuro_mesh.Pbft.Registry.{prune_peer}
use neuro_mesh.Pbft.Trust.Failures.{record_failure_cases}
use neuro_mesh.Pbft.Trust.{trust_of, record_failure, count_failure, auto_ban, after_failure}
use neuro_mesh.Pbft.Types.{PbftConsensus, NodeTrustScore, P2pMessage, Platform, auto_prune_failures}
use neuro_mesh.Pbft.Verify.{verify_message, verify_with_key, signed_blob}

-- The calls of `verify_message` on a list of arrivals.
unfoldable pub verify_all : Platform → List (ℕ × P2pMessage) → PbftConsensus → PbftConsensus
verify_all env [] p = p
verify_all env ((now, msg) ∷ arrivals) p = verify_all env arrivals (verify_message env now msg p).0

module _ (env : Platform) (x : Text) (key : PublicKey) where
  -- A message in the name of `x` whose signature does not fit the key.
  abbrev pub Forged : ℕ × P2pMessage → Type 0
  Forged (now, msg) =
      (msg.sender_id ≡ x) × (env.verify_signature key (signed_blob msg) msg.signature ≡ false)

  -- `x` is a peer with this key, not banned, with `c` failures in a row.
  pub record Suspect (c : ℕ) (p : PbftConsensus) : Type 0 where
    pub has_key : lookup x p.peer_public_keys ≡ some key
    pub free : contains x p.banned_peers ≡ false
    pub failures : (trust_of x p).consecutive_failures ≡ c

  verify_message-Forged :
      (now : ℕ) (msg : P2pMessage) {c : ℕ} (p : PbftConsensus)
      → Suspect c p
      → Forged (now, msg)
      → verify_message env now msg p ≡ (record_failure now x p, false)
  unfolding verify_message verify_with_key
  verify_message-Forged now msg p s f = ground (arith, f.0, f.1, s.free, s.has_key)

  count_failure-Suspect :
      (now : ℕ) {c : ℕ} (p : PbftConsensus) → Suspect c p → Suspect (suc c) (count_failure now x p)
  unfolding count_failure trust_of
  count_failure-Suspect now p s =
      let trust : NodeTrustScore = after_failure now (trust_of x p) in
      record {
        has_key = s.has_key;
        free = s.free;
        failures = ground (arith, lookup-insert x x trust p.node_trust, text_eq_refl x, s.failures);
      }

  -- Banned, without a key and not registered.
  abbrev pub IsOut : PbftConsensus → Type 0
  IsOut q =
      (contains x q.banned_peers ≡ true)
      × (lookup x q.peer_public_keys ≡ none)
      × (contains x q.registered_peers ≡ false)
      × (contains x q.recent_bans ≡ true)

  auto_ban-IsOut : (p : PbftConsensus) → IsOut (auto_ban x p)
  unfolding auto_ban prune_peer
  auto_ban-IsOut p = ground (
    arith,
    text_eq_refl x,
    contains-add x x p.banned_peers,
    contains-add x x p.recent_bans,
    lookup-erase x x p.peer_public_keys,
    contains-remove x x p.registered_peers,
  )

  verify_all-nil :
      (arrivals : List (ℕ × P2pMessage)) (p : PbftConsensus)
      → length arrivals ≡ 0
      → verify_all env arrivals p ≡ p
  unfolding verify_all
  verify_all-nil [] p e = refl
  verify_all-nil (m ∷ arrivals) p e = absurd (omega arith)

  -- Messages with bad signatures in a row in the name of a peer that is not banned, up to the
  -- hundredth failure in a row: they leave the peer banned, unregistered and without a key.
  pub verify_all-Forged :
      (arrivals : List (ℕ × P2pMessage)) (c : ℕ) (p : PbftConsensus)
      → Suspect c p
      → All Forged arrivals
      → c < auto_prune_failures
      → length arrivals + c ≡ auto_prune_failures
      → IsOut (verify_all env arrivals p)
  unfolding verify_all
  verify_all-Forged [] c p s f below total = absurd (omega arith)
  verify_all-Forged ((now, msg) ∷ arrivals) c p s f below total =
      let step = ap (λ r. r.0) (verify_message-Forged now msg p s f.0) in
      elim (record_failure_cases now x p) [
        | inl (under, e) ↦ subst IsOut (ap (verify_all env arrivals) (sym (step ∙ e))) (
            verify_all-Forged arrivals (suc c) (count_failure now x p)
              (count_failure-Suspect now p s) f.1 (rw s.failures at under) (omega arith))
        | inr (over, e) ↦
            let last : length arrivals ≡ 0 = omega (arith, s.failures) in
            subst IsOut
              (sym (ap (verify_all env arrivals) (step ∙ e) ∙ verify_all-nil arrivals _ last))
              (auto_ban-IsOut (count_failure now x p))
      ]
