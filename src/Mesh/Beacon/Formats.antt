-- ===== src/Mesh/Beacon/Formats.antt =====
-- The formats of discovery beacons that consensus/MeshNode.cpp reads.
use neuro_mesh.Prelude.{
  ℕ, ◌<◌, ◌≡◌, refl, Bool, true, false, ◌||◌, Option, none, List, [], Text, text_eq, is_empty,
  if◌then◌else◌, ltb, leb, length, arith, if_intro, if_elim, option_elim,
}
use neuro_mesh.Common.Base64.{base64_decode}
use neuro_mesh.Mesh.Wire.{decode_or_empty}
use neuro_mesh.Mesh.Vote.{token}
use neuro_mesh.Mesh.Beacon.{Beacon, beacon_numbers, beacon_sig, parse_beacon}

or_true : (a b : Bool) → (a || b || true) ≡ true
or_true a b = ground arith

beacon_sig-old : (n : ℕ) (tokens : List Text) → n < 8 → decode_or_empty (beacon_sig n tokens) ≡ []
unfolding decode_or_empty base64_decode beacon_sig
beacon_sig-old n tokens short =
    let no_eight : leb 8 n ≡ false = ground arith in
    let no_nine : leb 9 n ≡ false = ground arith in rw (no_nine, no_eight) refl

-- A beacon with fewer than eight tokens, as the two older formats have, is never taken.
pub parse_beacon-old :
    (node_id : Text) (tokens : List Text) → length tokens < 8 → parse_beacon node_id tokens ≡ none
unfolding parse_beacon
parse_beacon-old node_id tokens short =
    let IsNone : Option Beacon → Type 0 = λ o. o ≡ none in
    let unsigned = beacon_sig-old (length tokens) tokens short in
    if_intro IsNone (ltb (length tokens) 6) refl (
      option_elim IsNone (beacon_numbers (length tokens) tokens) (λ e. refl)
        (λ numbers e.
          if_elim IsNone
            (text_eq (token 1 tokens) node_id
              || is_empty (decode_or_empty (token (if leb 7 (length tokens) then 5 else 4) tokens))
              || is_empty (decode_or_empty (beacon_sig (length tokens) tokens)))
            (λ rejected. refl) (λ taken. absurd (ground (arith, unsigned)))))
