-- ===== src/Mesh/Wire.antt =====
-- The packets of consensus/MeshNode.cpp: their texts, their validation and the numbers in them.
pub mod Valid
use neuro_mesh.Prelude.{
  ℕ, Bool, true, false, not, ◌&&◌, ◌||◌, Option, none, some, List, [], ◌∷◌, ◌++◌, Text, codes,
  is_empty, if◌then◌else◌, ltb, leb, ◌==◌, length, all_of,
}
use neuro_mesh.Prelude.Decimal.{to_text, int_to_text}
use neuro_mesh.Prelude.Int.{ℤ}
use neuro_mesh.Prelude.Numbers.{stoi, stoll}
use neuro_mesh.Common.Base64.{base64_encode, base64_decode, Decoded}

-- `text + "|"` in front of the rest.
abbrev pub piped : Text → Text → Text
piped text rest = text ++ (b'|' ∷ rest)

-- A `char` is signed: a byte from 128 on is a negative number.
abbrev pub is_allowed : ℕ → Bool
is_allowed c = not (ltb c 32 || leb 128 c) || c == b'\n' || c == b'\r'

unfoldable pub validate_message : Text → Bool
validate_message msg =
    if is_empty msg || ltb 65536 (length msg) then false else all_of is_allowed msg

-- The value if the number is the whole text.
abbrev whole : Option (ℤ × Text) → Option ℤ
whole none = none
whole (some (value, rest)) = if is_empty rest then some value else none

unfoldable pub try_parse_int : Text → Option ℤ
unfolding stoi
try_parse_int s = whole (stoi s)

unfoldable pub try_parse_long : Text → Option ℤ
unfolding stoll
try_parse_long s = whole (stoll s)

-- `base64_decode(text).value_or("")`
unfoldable pub decode_or_empty : Text → Text
unfolding base64_decode
decode_or_empty text = elim (base64_decode text) [ Decoded.bytes out ↦ out | Decoded.error e ↦ [] ]

-- `std::string(buffer)`: the bytes before the first zero.
unfoldable pub c_string : Text → Text
c_string [] = []
c_string (c ∷ s) = let rest = c_string s in if c == 0 then [] else c ∷ rest

-- What a signed announcement covers, and the packet.
abbrev pub announce_blob : (node_id public_key_pem : Text) → Text
announce_blob node_id public_key_pem = piped node_id public_key_pem

unfoldable pub announce_payload : (node_id public_key_pem b64_sig : Text) → Text
announce_payload node_id public_key_pem b64_sig =
    piped (codes "ANNOUNCE") (piped node_id (piped public_key_pem b64_sig))

unfoldable pub vote_payload :
    (stage_str node_id : Text) (seq : ℕ) (view : ℤ) (target_id b64_evidence prev_hash : Text)
    (encoded_sig : Text)
    → Text
unfolding to_text int_to_text
vote_payload stage_str node_id seq view target_id b64_evidence prev_hash encoded_sig =
    piped (codes "VOTE") (
      piped stage_str (
        piped node_id (
          piped (to_text seq) (
            piped (int_to_text view)
              (piped target_id (piped b64_evidence (piped prev_hash encoded_sig)))))))

-- The fields of a discovery beacon that its signature covers, and the packet.
unfoldable pub beacon_blob :
    (node_id : Text) (tcp_port tls_port timestamp : ℤ) (fingerprint b64_cert_pem : Text) → Text
unfolding int_to_text
beacon_blob node_id tcp_port tls_port timestamp fingerprint b64_cert_pem = piped node_id (
    piped (int_to_text tcp_port) (
      piped (int_to_text tls_port)
        (piped (int_to_text timestamp) (piped fingerprint b64_cert_pem))))

unfoldable pub beacon_payload :
    (node_id : Text) (tcp_port tls_port timestamp : ℤ) (b64_pubkey fingerprint : Text)
    (b64_cert_pem b64_sig : Text)
    → Text
unfolding int_to_text
beacon_payload node_id tcp_port tls_port timestamp b64_pubkey fingerprint b64_cert_pem b64_sig =
    piped (codes "DISCOVERY") (
      piped node_id (
        piped (int_to_text tcp_port) (
          piped (int_to_text tls_port) (
            piped (int_to_text timestamp)
              (piped b64_pubkey (piped fingerprint (piped b64_cert_pem b64_sig)))))))
