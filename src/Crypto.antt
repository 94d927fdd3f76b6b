-- ===== src/Crypto.antt =====
-- The cryptographic core: `IdentityCore` of crypto/CryptoCore.hpp and crypto/CryptoCore.cpp as the
-- other parts of the node see it. Crypto/Core.antt fills this interface from OpenSSL.
pub mod Core
mod Tests
use neuro_mesh.Prelude.{◌≡◌, Bool, false, Option, none}
use neuro_mesh.Prelude.{Text}

-- `UniquePKEY` of a public key: the bytes that the handle stands for, `none` for a null pointer.
abbrev pub PublicKey : Type 0
PublicKey = Option Text

pub record Crypto : Type 0 where
  pub sha256_hex : Text → Text
  pub get_pubkey_from_pem : Text → PublicKey
  pub sign_payload : Text → Text → Text
  pub verify_signature : PublicKey → Text → Text → Bool
  pub null_key_fails : (payload signature : Text) → verify_signature none payload signature ≡ false
