-- ===== src/Pbft/Advance/Equivocation.antt =====
-- `detect_equivocation` of consensus/PBFT.hpp.
use neuro_mesh.Prelude.{
  ℕ, suc, ◌-◌, ◌≡◌, ◌≢◌, ◌⊎◌, inl, inr, none, some, Text, text_key, nat_key, text_eq, text_eq_iff,
  text_eq_refl, arith, Option-cases, Bool-cases,
}
use neuro_mesh.Prelude.Dict.{lookup, lookup-insert}
use neuro_mesh.Pbft.Advance.{detect_equivocation, note_equivocation}
use neuro_mesh.Pbft.Trust.{trust_of, record_equivocation, after_equivocation}
use neuro_mesh.Pbft.Types.{PbftConsensus, P2pMessage, EquivocationEvidence}
use neuro_mesh.Pbft.Verify.{history_of}

module _ (now : ℕ) (msg : P2pMessage) (hash : Text) (p : PbftConsensus) where
  -- The two hashes under one number, as they are kept.
  abbrev pub evidence_of : Text → EquivocationEvidence
  evidence_of old = record {
    node_id = msg.sender_id;
    sequence_number = msg.sequence_number;
    view = msg.view;
    hash1 = old;
    hash2 = hash;
    detected_at = now;
  }

  -- The sender is caught exactly if its history has another hash under the number of the message:
  -- the two hashes are kept as evidence, the equivocation and a failure are counted, and the score
  -- falls. Otherwise evidence and scores stay.
  pub detect_equivocation_lem :
      let q = detect_equivocation now msg hash p in
      ((old : Text) × (lookup msg.sequence_number (history_of msg.sender_id p) ≡ some old)
        × (old ≢ hash)
        × (lookup msg.sender_id q.equivocation_history ≡ some (evidence_of old))
        × ((trust_of msg.sender_id q).equivocation_count
            ≡ suc (trust_of msg.sender_id p).equivocation_count)
        × ((trust_of msg.sender_id q).consecutive_failures
            ≡ suc (trust_of msg.sender_id p).consecutive_failures)
        × ((trust_of msg.sender_id q).trust_score ≡ (trust_of msg.sender_id p).trust_score - 30))
      ⊎ (((lookup msg.sequence_number (history_of msg.sender_id p) ≡ none)
            ⊎ (lookup msg.sequence_number (history_of msg.sender_id p) ≡ some hash))
          × (q.equivocation_history ≡ p.equivocation_history)
          × (q.node_trust ≡ p.node_trust))
  unfolding detect_equivocation note_equivocation record_equivocation trust_of
  detect_equivocation_lem =
      elim (Option-cases (lookup msg.sequence_number (history_of msg.sender_id p))) [
        | inl first ↦ inr (inl first, ground arith, ground arith)
        | inr (old, e) ↦ elim (Bool-cases (text_eq old hash)) [
          | inl same ↦ inr (inr (ground (arith, text_eq_iff old hash)), ground arith, ground arith)
          | inr other ↦
              let trust = after_equivocation now (trust_of msg.sender_id p) in
              let kept =
                lookup-insert msg.sender_id msg.sender_id (evidence_of old)
                  p.equivocation_history in
              let scored = lookup-insert msg.sender_id msg.sender_id trust p.node_trust in
              let me = text_eq_refl msg.sender_id in
              inl (
                old,
                e,
                ground (arith, text_eq_iff old hash),
                ground arith,
                ground arith,
                ground arith,
                ground arith,
              )
        ]
      ]
