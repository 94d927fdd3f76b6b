-- ===== src/Pbft/Tests.antt =====
-- Runs of the consensus in consensus/PBFT.hpp on concrete messages.
mod Examples
mod Books
mod Progress
use neuro_mesh.Prelude.{
  ℕ, ◌≡◌, refl, Bool, true, false, Option, none, some, List, [], ◌∷◌, ◌++◌, Text, codes, text_eq,
  text_lt, is_empty,
}
use neuro_mesh.Prelude.Decimal.{to_text, int_to_text}
use neuro_mesh.Prelude.Dict.{contains, lookup, insert, add, erase, remove}
use neuro_mesh.Prelude.Int.{ℤ, pos}
use neuro_mesh.Pbft.Advance.{
  stage_pre_prepare, stage_prepare, stage_commit, compute_message_hash, check_rate_limit,
  slide_window, timestamps_of, cleanup_stale_rounds, sweep, sweep_round, remember, trim_history,
  note_equivocation, detect_equivocation,
}
use neuro_mesh.Pbft.Registry.{init, register_peer_key, round_key_of, round_of}
use neuro_mesh.Pbft.Settings.{int_setting}
use neuro_mesh.Pbft.Types.{PbftConsensus, PbftStage, P2pMessage, Platform, quorum_size}
use neuro_mesh.Pbft.Verify.{history_of}
use neuro_mesh.Pbft.Vote.{
  advance_state, admit_message, count_message, cast_vote, advance_round, settle, opened,
  decide_move, verify_quorum_intersection, stages_intersect, set_voters, voters_of, voters_in,
}

-- A toy platform: hashing is the identity, and every signature verifies that repeats the payload.
abbrev pub toy_verify : Option Text → Text → Text → Bool
toy_verify none payload signature = false
toy_verify (some key) payload signature = text_eq payload signature

abbrev pub toy : Platform
toy = record {
  crypto = record {
    sha256_hex = λ text. text;
    get_pubkey_from_pem = λ pem. some pem;
    sign_payload = λ key text. text;
    verify_signature = toy_verify;
    null_key_fails = λ payload signature. refl;
  };
  bucket_order = λ seen. seen;
  bucket_order_size = λ seen. refl;
  bucket_order_members = λ x seen. refl;
}

-- Four nodes, so that a quorum has three votes.
abbrev pub four_nodes : PbftConsensus
four_nodes = register_peer_key toy (codes "d") (codes "D") (
    register_peer_key toy (codes "c") (codes "C") (
      register_peer_key toy (codes "b") (codes "B")
        (register_peer_key toy (codes "a") (codes "A") (init toy (pos 4) none none))))

abbrev pub vote : Text → Text → ℕ → P2pMessage
vote stage sender sequence = record {
  stage_str = stage;
  sender_id = sender;
  target_id = codes "x";
  evidence_json = codes "e";
  signature = [];
  prev_message_hash = [];
  sequence_number = sequence;
  view = pos 0;
}

play : List P2pMessage → PbftConsensus → List PbftStage
unfolding advance_state admit_message count_message cast_vote advance_round settle opened
    decide_move int_setting verify_quorum_intersection stages_intersect set_voters voters_of
    voters_in init register_peer_key contains lookup insert add erase remove compute_message_hash
    check_rate_limit slide_window timestamps_of cleanup_stale_rounds sweep sweep_round remember
    trim_history note_equivocation detect_equivocation round_key_of round_of quorum_size history_of
    to_text int_to_text text_eq text_lt
play [] p = []
play (msg ∷ msgs) p = let (q, stage) = advance_state toy 0 msg p in stage ∷ play msgs q

abbrev pub before_commit : List P2pMessage
before_commit =
    vote stage_pre_prepare (codes "a") 1
    ∷ vote stage_prepare (codes "a") 2
    ∷ vote stage_prepare (codes "b") 1
    ∷ vote stage_prepare (codes "c") 1
    ∷ vote stage_commit (codes "a") 3
    ∷ vote stage_commit (codes "b") 2
    ∷ []

-- The state after some messages.
abbrev pub after_all : List P2pMessage → PbftConsensus → PbftConsensus
after_all [] p = p
after_all (msg ∷ msgs) p = after_all msgs (advance_state toy 0 msg p).0

-- Four nodes that need one more COMMIT vote.
abbrev pub almost : PbftConsensus
almost = after_all before_commit four_nodes

abbrev pub last_vote : P2pMessage
last_vote = vote stage_commit (codes "c") 2

full_round :
    play (before_commit ++ last_vote ∷ []) four_nodes
    ≡ PbftStage.prepare ∷ PbftStage.idle ∷ PbftStage.idle ∷ PbftStage.commit ∷ PbftStage.idle
      ∷ PbftStage.idle ∷ PbftStage.executed ∷ []
unfolding play
full_round = refl
