-- ===== src/Crypto/Core.antt =====
-- crypto/CryptoCore.cpp. OpenSSL is a parameter: what each of its calls gives.
pub mod Hex
use neuro_mesh.Prelude.{
  ℕ, ◌+◌, ◌/◌, ◌%◌, ◌≡◌, refl, Bool, true, false, not, Option, none, some, List, [], ◌∷◌, Text, ltb,
  if◌then◌else◌,
}
use neuro_mesh.Prelude.Int.{ℤ, pos, eq_ℤ}
use neuro_mesh.Crypto.{Crypto}

-- The calls of OpenSSL that the core makes. A Boolean or an option says whether the call succeeds,
-- as the core tests it; a key is the bytes that its handle stands for. `sha256` is the three digest
-- calls in a row, `digest_sign_size` the first call of `EVP_DigestSign`.
pub record OpenSsl : Type 0 where
  pub keygen : Option Text
  pub md_ctx_new : Bool
  pub sha256 : Text → Option (List ℕ)
  pub digest_sign_init : Text → Bool
  pub digest_sign_size : Text → Text → Bool
  pub digest_sign : Text → Text → Option Text
  pub digest_verify_init : Text → Bool
  pub digest_verify : Text → Text → Text → ℤ
  pub bio_new : Bool
  pub pem_write_pubkey : Text → Option Text
  pub pem_read_pubkey : Text → Option Text

-- A hexadecimal digit as `std::hex` prints it.
unfoldable pub hex_digit : ℕ → ℕ
hex_digit n = if ltb n 10 then b'0' + n else 87 + n

-- Two digits for each byte, by `std::setw(2)` and `std::setfill('0')`.
unfoldable pub to_hex : List ℕ → Text
unfolding hex_digit
to_hex [] = []
to_hex (b ∷ bs) = hex_digit (b / 16) ∷ hex_digit (b % 16) ∷ to_hex bs

or_empty : Option Text → Text
or_empty none = []
or_empty (some text) = text

module _ (o : OpenSsl) where
  -- `none` where the call throws.
  unfoldable pub generate_ed25519_key : Option Text
  generate_ed25519_key = o.keygen

  unfoldable pub sign_payload : Text → Text → Text
  unfolding or_empty
  sign_payload key text =
      if not o.md_ctx_new
      then []
      else if not (o.digest_sign_init key)
      then []
      else if not (o.digest_sign_size key text)
      then []
      else or_empty (o.digest_sign key text)

  unfoldable pub verify_signature : Option Text → Text → Text → Bool
  verify_signature none text signature = false
  verify_signature (some key) text signature =
      if not o.md_ctx_new
      then false
      else if not (o.digest_verify_init key)
      then false
      else eq_ℤ (o.digest_verify key text signature) (pos 1)

  unfoldable pub get_pem_from_pubkey : Text → Text
  unfolding or_empty
  get_pem_from_pubkey key = if not o.bio_new then [] else or_empty (o.pem_write_pubkey key)

  unfoldable pub get_pubkey_from_pem : Text → Option Text
  get_pubkey_from_pem pem = if not o.bio_new then none else o.pem_read_pubkey pem

  unfoldable pub sha256_hex : Text → Text
  unfolding to_hex
  sha256_hex text =
      if not o.md_ctx_new then [] else elim (o.sha256 text) [ none ↦ [] | some hash ↦ to_hex hash ]

  unfoldable pub cert_fingerprint : Text → Text
  unfolding sha256_hex
  cert_fingerprint der_cert = sha256_hex der_cert

  pub null_key_fails : (text signature : Text) → verify_signature none text signature ≡ false
  unfolding verify_signature
  null_key_fails text signature = refl

  -- The core as the other parts of the node use it.
  abbrev pub core : Crypto
  core = record {
    sha256_hex = sha256_hex;
    get_pubkey_from_pem = get_pubkey_from_pem;
    sign_payload = sign_payload;
    verify_signature = verify_signature;
    null_key_fails = null_key_fails;
  }
