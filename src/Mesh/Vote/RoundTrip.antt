-- ===== src/Mesh/Vote/RoundTrip.antt =====
-- The packet of a vote, as consensus/MeshNode.cpp sends and reads it.
use neuro_mesh.Prelude.{
  ℕ, ◌+◌, ◌*◌, ◌/◌, ◌^◌, ◌≤◌, ◌<◌, ◌≡◌, ◌≢◌, refl, ap, sym, ◌∙◌, true, false, some, List, [], ◌∷◌,
  Text, codes, text_eq, text_eq_iff, is_empty, ltb, ◌==◌, length, All, arith, Bool-cases, inl, inr,
}
use neuro_mesh.Prelude.Decimal.{to_text, int_to_text, has_byte-to_text}
use neuro_mesh.Prelude.Int.{ℤ, pos}
use neuro_mesh.Prelude.Numbers.{stoull-to_text, stoi-to_text}
use neuro_mesh.Prelude.Search.{
  has_byte, starts_with, split_string, split_string-token, split_string-last,
}
use neuro_mesh.Common.Base64.{char_of, base64_encode}
use neuro_mesh.Common.Base64.RoundTrip.{IsByte, base64_decode-base64_encode, length-base64_encode}
use neuro_mesh.Pbft.Advance.{stage_pre_prepare, stage_prepare, stage_commit, stage_ban_peer}
use neuro_mesh.Pbft.Types.{P2pMessage}
use neuro_mesh.Mesh.Wire.{decode_or_empty, vote_payload}
use neuro_mesh.Mesh.Consensus.{payload_of}
use neuro_mesh.Mesh.Vote.{token, is_vote_stage, vote_fields_ok, parse_vote}

pub decode_or_empty-base64_encode :
    (text : Text) → All IsByte text → decode_or_empty (base64_encode text) ≡ text
unfolding decode_or_empty
decode_or_empty-base64_encode text h = rw (decode_or_empty, base64_decode-base64_encode text h) refl

char_of-clean : (n : ℕ) → (char_of n == b'|') ≡ false
unfolding char_of
char_of-clean n = ground arith

-- An encoded text has no delimiter in it.
pub has_byte-base64_encode : (text : Text) → has_byte b'|' (base64_encode text) ≡ false
unfolding base64_encode
has_byte-base64_encode [] = refl
has_byte-base64_encode (a ∷ []) = simp char_of-clean refl
has_byte-base64_encode (a ∷ b ∷ []) = simp char_of-clean refl
has_byte-base64_encode (a ∷ b ∷ c ∷ text) = simp (char_of-clean, has_byte-base64_encode text) refl

-- The fields of a vote that another node takes: its stage is one of the four, its names are no longer
-- than 64 bytes and not empty, its evidence is an object of bytes within the limit, and what is not
-- encoded has no delimiter; it is signed.
pub record IsSendable (limit : ℕ) (msg : P2pMessage) : Type 0 where
  pub stage : is_vote_stage msg.stage_str ≡ true
  pub sender : (is_empty msg.sender_id ≡ false) × (length msg.sender_id ≤ 64)
  pub sender_clean : has_byte b'|' msg.sender_id ≡ false
  pub target : (is_empty msg.target_id ≡ false) × (length msg.target_id ≤ 64)
  pub target_clean : has_byte b'|' msg.target_id ≡ false
  pub evidence_bytes : All IsByte msg.evidence_json
  pub evidence_object : starts_with (codes "{") msg.evidence_json ≡ true
  pub evidence_size : length msg.evidence_json ≤ limit
  pub hash_clean : has_byte b'|' msg.prev_message_hash ≡ false
  pub signature_bytes : All IsByte msg.signature
  pub signed : is_empty msg.signature ≡ false
  pub sequence : msg.sequence_number < 2 ^ 64
  pub view : (v : ℕ) × (msg.view ≡ pos v) × (v < 2 ^ 31)

stage-clean :
    (stage : Text)
    → is_vote_stage stage ≡ true
    → (has_byte b'|' stage ≡ false) × (is_empty stage ≡ false)
stage-clean stage h = elim (Bool-cases (text_eq stage stage_pre_prepare)) [
  | inl e ↦ rw ((text_eq_iff stage stage_pre_prepare).0 e) (refl, refl)
  | inr a ↦ elim (Bool-cases (text_eq stage stage_prepare)) [
    | inl e ↦ rw ((text_eq_iff stage stage_prepare).0 e) (refl, refl)
    | inr b ↦ elim (Bool-cases (text_eq stage stage_commit)) [
      | inl e ↦ rw ((text_eq_iff stage stage_commit).0 e) (refl, refl)
      | inr c ↦
          let e : stage ≡ stage_ban_peer = (text_eq_iff stage stage_ban_peer).0 (ground arith) in
          rw e (refl, refl)
    ]
  ]
]

encoded-nonempty : (text : Text) → is_empty text ≡ false → base64_encode text ≢ []
unfolding base64_encode
encoded-nonempty [] h e = absurd (ground arith)
encoded-nonempty (a ∷ []) h e = absurd (ground arith)
encoded-nonempty (a ∷ b ∷ []) h e = absurd (ground arith)
encoded-nonempty (a ∷ b ∷ c ∷ text) h e = absurd (ground arith)

-- The tokens of the packet of a vote.
abbrev vote_tokens : P2pMessage → ℕ → List Text
vote_tokens msg v =
    codes "VOTE"
    ∷ msg.stage_str
    ∷ msg.sender_id
    ∷ to_text msg.sequence_number
    ∷ to_text v
    ∷ msg.target_id
    ∷ base64_encode msg.evidence_json
    ∷ msg.prev_message_hash
    ∷ base64_encode msg.signature
    ∷ []

split-payload :
    (limit : ℕ) (msg : P2pMessage) (s : IsSendable limit msg)
    → split_string b'|' (payload_of msg) ≡ vote_tokens msg s.view.0
unfolding payload_of vote_payload int_to_text
split-payload limit msg s = rw (s.view.1) (
    rw
      (
        split_string-token b'|' (codes "VOTE") _ refl,
        split_string-token b'|' msg.stage_str _ (stage-clean msg.stage_str s.stage).0,
        split_string-token b'|' msg.sender_id _ s.sender_clean,
        split_string-token b'|' (to_text msg.sequence_number) _
            (has_byte-to_text msg.sequence_number b'|' refl),
        split_string-token b'|' (to_text s.view.0) _ (has_byte-to_text s.view.0 b'|' refl),
        split_string-token b'|' msg.target_id _ s.target_clean,
        split_string-token b'|' (base64_encode msg.evidence_json) _
            (has_byte-base64_encode msg.evidence_json),
        split_string-token b'|' msg.prev_message_hash _ s.hash_clean,
        split_string-last b'|' (base64_encode msg.signature) (has_byte-base64_encode msg.signature)
            (encoded-nonempty msg.signature s.signed),
      )
      refl)

object-nonempty : (text : Text) → starts_with (codes "{") text ≡ true → is_empty text ≡ false
unfolding starts_with
object-nonempty [] h = ground arith
object-nonempty (c ∷ text) h = refl

encoded-size :
    (limit : ℕ) (text : Text)
    → length text ≤ limit
    → ltb (limit * 4 / 3 + 4) (length (base64_encode text)) ≡ false
encoded-size limit text h = ground (arith, length-base64_encode text)

short : (limit : ℕ) (text : Text) → length text ≤ limit → ltb limit (length text) ≡ false
short limit text h = ground arith

vote_fields_ok-tokens :
    (limit : ℕ) (msg : P2pMessage) (s : IsSendable limit msg)
    → vote_fields_ok limit (vote_tokens msg s.view.0) ≡ true
unfolding vote_fields_ok token
vote_fields_ok-tokens limit msg s =
    rw (decode_or_empty-base64_encode msg.evidence_json s.evidence_bytes) (
      ground (
        arith,
        s.stage,
        (stage-clean msg.stage_str s.stage).1,
        s.sender.0,
        s.target.0,
        short 64 msg.sender_id s.sender.1,
        short 64 msg.target_id s.target.1,
        encoded-size limit msg.evidence_json s.evidence_size,
        object-nonempty msg.evidence_json s.evidence_object,
        short limit msg.evidence_json s.evidence_size,
        s.evidence_object,
      ))

parse_vote-tokens :
    (limit : ℕ) (msg : P2pMessage) (s : IsSendable limit msg)
    → parse_vote limit (vote_tokens msg s.view.0) ≡ some msg
unfolding parse_vote token
parse_vote-tokens limit msg s =
    rw
      (
        vote_fields_ok-tokens limit msg s,
        stoull-to_text msg.sequence_number s.sequence,
        stoi-to_text s.view.0 s.view.2,
        decode_or_empty-base64_encode msg.signature s.signature_bytes,
        decode_or_empty-base64_encode msg.evidence_json s.evidence_bytes,
        s.signed,
      )
      (ap (λ (view : ℤ). some (record msg { view = view })) (sym s.view.1))

-- A node reads from the packet of a vote the vote that was sent, if its stage is one of the four,
-- its sender and its target have 1 to 64 bytes and no delimiter, its evidence and its signature are
-- texts of bytes, the evidence begins with a brace and is no longer than the limit, the signature
-- is not empty, its hash has no delimiter, its number is below 2^64 and its view is not
-- negative and below 2^31.
pub parse_vote-payload_of :
    (limit : ℕ) (msg : P2pMessage)
    → IsSendable limit msg
    → parse_vote limit (split_string b'|' (payload_of msg)) ≡ some msg
parse_vote-payload_of limit msg s =
    ap (parse_vote limit) (split-payload limit msg s) ∙ parse_vote-tokens limit msg s
