-- ===== src/Pbft/Verify/Outcome.antt =====
-- The outcome of `verify_message` of consensus/PBFT.hpp.
use neuro_mesh.Prelude.{
  ℕ, ◌+◌, ◌-◌, ◌%◌, ◌^◌, ◌≤◌, ◌≡◌, refl, ◌↔◌, ◌⊎◌, inl, inr, Bool, true, false, Option, none, some,
  [], ◌∷◌, Text, text_key, nat_key, text_eq_iff, is_empty, ap, ==_iff, max, All, arith, Bool-cases,
  Option-cases,
}
use neuro_mesh.Prelude.Dict.{Dict, lookup, has_key, contains}
use neuro_mesh.Crypto.{PublicKey}
use neuro_mesh.Pbft.Trust.{record_failure, record_success}
use neuro_mesh.Pbft.Types.{PbftConsensus, P2pMessage, Platform}
use neuro_mesh.Pbft.Verify.{
  verify_message, verify_with_key, signed_blob, verify_message_chaining, verify_sequence_continuity,
  history_of, chains_from, greatest_sequence, within_gap,
}

-- The message names the hash that the history has under the number before its own, in 64 bits; where the
-- history has none there, it names no hash or the hash of the genesis message.
abbrev pub Chains : Text → P2pMessage → Dict ℕ Text → Type 0
Chains genesis msg history =
    let kept : Option Text = lookup ((msg.sequence_number + 2 ^ 64 - 1) % 2 ^ 64) history in
    (kept ≡ some msg.prev_message_hash)
    ⊎ ((kept ≡ none) × ((msg.prev_message_hash ≡ []) ⊎ (msg.prev_message_hash ≡ genesis)))

-- A number of the history that no number of it exceeds.
abbrev pub IsGreatest : ℕ → Dict ℕ Text → Type 0
IsGreatest n history = (has_key n history ≡ true) × All (λ entry. entry.0 ≤ n) history

abbrev pub IsClose : ℕ → Dict ℕ Text → Type 0
IsClose seq history =
    (greatest : ℕ) × IsGreatest greatest history × (seq ≤ (greatest + 100) % 2 ^ 64)

is_empty_iff : (s : Text) → (is_empty s ≡ true) ↔ (s ≡ [])
is_empty_iff [] = (λ h. refl, λ h. refl)
is_empty_iff (c ∷ s) = (λ h. absurd (ground arith), λ h. absurd (ground arith))

greatest_sequence-bound :
    (n : ℕ) (history : Dict ℕ Text)
    → (n ≤ greatest_sequence n history)
      × All (λ entry. entry.0 ≤ greatest_sequence n history) history
unfolding greatest_sequence
greatest_sequence-bound n [] = (omega arith, tt)
greatest_sequence-bound n ((seq, hash) ∷ history) =
    let (least, all) = greatest_sequence-bound (max n seq) history in
    (omega (arith, least), (omega (arith, least), all))

greatest_sequence-kept :
    (n : ℕ) (history : Dict ℕ Text)
    → (greatest_sequence n history ≡ n) ⊎ (has_key (greatest_sequence n history) history ≡ true)
unfolding greatest_sequence has_key lookup
greatest_sequence-kept n [] = inl refl
greatest_sequence-kept n ((seq, hash) ∷ history) = ground (
  arith,
  greatest_sequence-kept (max n seq) history,
  ==_iff (greatest_sequence (max n seq) history) seq,
)

-- The number that the loop finds in a history that is not empty.
greatest_sequence-IsGreatest :
    (seq : ℕ) (hash : Text) (history : Dict ℕ Text)
    → IsGreatest (greatest_sequence 0 ((seq, hash) ∷ history)) ((seq, hash) ∷ history)
unfolding greatest_sequence has_key lookup
greatest_sequence-IsGreatest seq hash history =
    let found = greatest_sequence seq history in
    (
      ground (arith, greatest_sequence-kept seq history, ==_iff found seq),
      (greatest_sequence-bound 0 ((seq, hash) ∷ history)).1,
    )

has_key-le :
    (n top : ℕ) (history : Dict ℕ Text)
    → has_key n history ≡ true
    → All (λ entry. entry.0 ≤ top) history
    → n ≤ top
unfolding has_key lookup
has_key-le n top [] h all = absurd (ground arith)
has_key-le n top ((seq, hash) ∷ history) h (first, all) =
    ground (arith, ==_iff n seq, has_key-le n top history)

IsGreatest-unique :
    (m n : ℕ) (history : Dict ℕ Text) → IsGreatest m history → IsGreatest n history → m ≡ n
IsGreatest-unique m n history (a, b) (c, d) =
    omega (arith, has_key-le m n history a d, has_key-le n m history c b)

chains_from_iff :
    (genesis : Text) (msg : P2pMessage) (seq : ℕ) (hash : Text) (history : Dict ℕ Text)
    → (chains_from genesis msg ((seq, hash) ∷ history) ≡ true)
      ↔ Chains genesis msg ((seq, hash) ∷ history)
unfolding chains_from
chains_from_iff genesis msg seq hash history =
    let before = (msg.sequence_number + 2 ^ 64 - 1) % 2 ^ 64 in
    let prev : Text = msg.prev_message_hash in
    elim (Option-cases (lookup before ((seq, hash) ∷ history))) [
      | inl unknown ↦
          rw (chains_from, unknown)
            (
              λ taken. inr (refl, ground (arith, is_empty_iff prev, text_eq_iff prev genesis)),
              λ h. elim h [
                | inl known ↦ absurd (ground arith)
                | inr (_, named) ↦ ground (arith, is_empty_iff prev, text_eq_iff prev genesis)
              ],
            )
      | inr (kept, known) ↦
          rw (chains_from, known)
            (
              λ taken. inl (ap some ((text_eq_iff kept prev).0 taken)),
              λ h. elim h [
                | inl same ↦ ground (arith, text_eq_iff kept prev)
                | inr (unknown, _) ↦ absurd (ground arith)
              ],
            )
    ]

within_gap_iff :
    (msg : P2pMessage) (seq : ℕ) (hash : Text) (history : Dict ℕ Text)
    → (within_gap msg ((seq, hash) ∷ history) ≡ true)
      ↔ IsClose msg.sequence_number ((seq, hash) ∷ history)
unfolding within_gap
within_gap_iff msg seq hash history =
    let found = greatest_sequence 0 ((seq, hash) ∷ history) in
    let found-IsGreatest = greatest_sequence-IsGreatest seq hash history in
    (
      λ taken. (found, found-IsGreatest, ground arith),
      λ (greatest, greatest-IsGreatest, close).
          let same : greatest ≡ found =
            IsGreatest-unique greatest found ((seq, hash) ∷ history) greatest-IsGreatest
              found-IsGreatest in
          ground arith,
    )

-- Both checks against the history of the sender.
admits_iff :
    (genesis : Text) (msg : P2pMessage) (history : Dict ℕ Text)
    → ((chains_from genesis msg history ≡ true) × (within_gap msg history ≡ true))
      ↔ ((history ≡ []) ⊎ (Chains genesis msg history × IsClose msg.sequence_number history))
unfolding chains_from within_gap
admits_iff genesis msg [] = (λ h. inl refl, λ h. (refl, refl))
admits_iff genesis msg ((seq, hash) ∷ history) =
    let chains = chains_from_iff genesis msg seq hash history in
    let gap = within_gap_iff msg seq hash history in
    (
      λ (a, b). inr (chains.0 a, gap.0 b),
      λ h. elim h [ inl empty ↦ absurd (ground arith) | inr (a, b) ↦ (chains.1 a, gap.1 b) ],
    )

module _ (env : Platform) (now : ℕ) (msg : P2pMessage) (p : PbftConsensus) where
  -- The three results that a check can have.
  abbrev ignored : PbftConsensus × Bool
  ignored = (p, false)

  abbrev refused : PbftConsensus × Bool
  refused = (record_failure now msg.sender_id p, false)

  abbrev passed : PbftConsensus × Bool
  passed = (record_success msg.sender_id p, true)

  verify_with_key_cases :
      (key : PublicKey)
      → (verify_with_key env now msg key p ≡ refused)
        ⊎ ((verify_with_key env now msg key p ≡ passed)
            × (env.verify_signature key (signed_blob msg) msg.signature ≡ true)
            × (verify_message_chaining msg p ≡ true)
            × (verify_sequence_continuity msg p ≡ true))
  unfolding verify_with_key
  verify_with_key_cases key = ground arith

  pub verify_message_cases :
      (verify_message env now msg p ≡ (p, false))
      ⊎ (verify_message env now msg p ≡ (record_failure now msg.sender_id p, false))
      ⊎ (verify_message env now msg p ≡ (record_success msg.sender_id p, true))
  unfolding verify_message
  verify_message_cases = elim (Bool-cases (contains msg.sender_id p.banned_peers)) [
    | inl banned ↦ inl (rw banned)
    | inr free ↦ elim (Option-cases (lookup msg.sender_id p.peer_public_keys)) [
      | inl unknown ↦ inl (rw (free, unknown))
      | inr (key, known) ↦ elim (verify_with_key_cases key) [
        | inl e ↦ inr (inl (rw (free, known) e))
        | inr (e, _, _, _) ↦ inr (inr (rw (free, known) e))
      ]
    ]
  ]

  -- A message is accepted exactly when its sender is not banned and has a key under which the signature
  -- fits, and one of two holds: nothing is kept of the sender's messages; or the message chains from
  -- what is kept of them and its number is at most 100 above the greatest one among them, in 64 bits. It
  -- chains if it names the hash that is kept under the number before its own, or if none is kept there
  -- and it names no hash or the hash of the genesis message.
  pub verify_message-accepts : ((verify_message env now msg p).1 ≡ true) ↔ (
      (contains msg.sender_id p.banned_peers ≡ false)
      × ((key : PublicKey) × (lookup msg.sender_id p.peer_public_keys ≡ some key)
          × (env.verify_signature key (signed_blob msg) msg.signature ≡ true))
      × ((history_of msg.sender_id p ≡ [])
          ⊎ (Chains p.genesis_hash msg (history_of msg.sender_id p)
              × IsClose msg.sequence_number (history_of msg.sender_id p))))
  unfolding verify_message verify_with_key verify_message_chaining verify_sequence_continuity
  verify_message-accepts = (
    λ accepted. elim (Option-cases (lookup msg.sender_id p.peer_public_keys)) [
      | inl unknown ↦ absurd (ground arith)
      | inr (key, known) ↦ (
        ground arith,
        (key, known, ground arith),
        (admits_iff p.genesis_hash msg (history_of msg.sender_id p)).0 (ground arith, ground arith),
      )
    ],
    λ (free, (key, known, signed), admitted).
        let (chained, close) =
          (admits_iff p.genesis_hash msg (history_of msg.sender_id p)).1 admitted in
        ground arith,
  )
