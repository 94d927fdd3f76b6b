-- ===== src/Crypto/Tests.antt =====
-- The digests of crypto/CryptoCore.cpp over a toy OpenSSL.
use neuro_mesh.Prelude.{ℕ, ◌≡◌, refl, true, none, some, List, [], ◌∷◌, codes, All, arith}
use neuro_mesh.Prelude.Int.{pos}
use neuro_mesh.Crypto.Core.Hex.{IsByte}
use neuro_mesh.Crypto.Core.{OpenSsl, sha256_hex}

-- Hashing gives the bytes 10 and 255.
abbrev toy : OpenSsl
toy = record {
  keygen = none;
  md_ctx_new = true;
  sha256 = λ text. some (10 ∷ 255 ∷ []);
  digest_sign_init = λ key. true;
  digest_sign_size = λ key text. true;
  digest_sign = λ key text. some text;
  digest_verify_init = λ key. true;
  digest_verify = λ key text signature. pos 1;
  bio_new = true;
  pem_write_pubkey = λ key. some key;
  pem_read_pubkey = λ pem. some pem;
}

toy_digest : sha256_hex toy (codes "abc") ≡ codes "0aff"
unfolding sha256_hex
toy_digest = refl

toy_bytes : All IsByte (10 ∷ 255 ∷ [])
toy_bytes = (omega arith, (omega arith, tt))

given : (hash : List ℕ) → toy.sha256 (codes "abc") ≡ some hash → All IsByte hash
given hash e = let same : (10 ∷ 255 ∷ []) ≡ hash = ground arith in rw (← same) toy_bytes
