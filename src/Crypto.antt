-- ===== src/Crypto.antt =====
-- The packages that the code calls and this repository does not hold, as records of operations:
-- `cryptography` for public keys and ECDSA.
use noethrion.Base.{ℕ, Bool}
use noethrion.Python.Result.{Result}
use noethrion.Python.Bytes.{Bytes}

pub record Crypto : Type 1 where
  -- a public key object, of any kind
  pub Key : Type 0
  -- `serialization.load_pem_public_key`
  pub load_pem_public_key : Bytes → Result Key
  -- `isinstance(key, ec.EllipticCurvePublicKey)`, `isinstance(key.curve, ec.SECP256R1)`
  pub is_ec : Key → Bool
  pub is_p256 : Key → Bool
  -- `encode_dss_signature(r, s)`
  pub encode_dss_signature : ℕ → ℕ → Bytes
  -- `key.verify(der, payload, ec.ECDSA(hashes.SHA256()))`, which raises where the signature is bad
  pub verify : Key → Bytes → Bytes → Result (Unit {0})
