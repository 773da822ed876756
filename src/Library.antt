-- ===== src/Library.antt =====
-- `NoethrionVerifier` of examples/integrators/python_verifier_library.py.
pub mod Inclusion
pub mod Signature
pub mod Full
use noethrion.Base.{Bool, true, false, List, [], ◌∷◌, ◌++◌, ◌==◌, if◌then◌else◌, length, take, drop}
use noethrion.Base.Int.{ℤ}
use noethrion.Python.Result.{
  Exn, Result, ok, raise, value_error, key_error, invalid_signature, is_value_error, ◌>>=◌, ◌>>◌,
  guard,
}
use noethrion.Python.Bytes.{Bytes, bytes_lt, bytes_eq, from_bytes}
use noethrion.Python.Text.{Text, codes}
use noethrion.Python.Utf8.{encode_utf8}
use noethrion.Python.Json.{Fields, as_str}
use noethrion.Crypto.{Crypto}
use noethrion.Leaf.{compute_leaf}
use noethrion.Tool.Signature.{item, fromhex_of}

pub data Reason : Type 0 where
  malformed : Exn → Reason
  not_64_bytes not_validated signature_ok : Reason
  root_not_32_bytes sibling_not_32_bytes inclusion_ok : Reason
  root_mismatch : Bytes → Bytes → Reason

-- `VerificationResult`: its truth value is the field `ok`.
pub record VerificationResult : Type 0 where
  pub verified : Bool
  pub reason : Reason

-- `except (KeyError, ValueError)`
abbrev pub is_malformed : Exn → Bool
is_malformed key_error = true
is_malformed e = is_value_error e

-- the first `try` of `verify_signature`: the payload and the signature, or why there is none
unfoldable pub signed_parts : Fields → Result (Bytes × Bytes)
signed_parts attestation = do
  raw_payload ← item (codes "payload_b64_canonical") attestation
  text ← as_str raw_payload
  payload ← encode_utf8 text
  sig_hex ← item (codes "signature_rs_hex") attestation
  sig_bytes ← fromhex_of sig_hex
  ok (payload, sig_bytes)

-- the second `try`
unfoldable pub verdict : Result (Unit {0}) → Result VerificationResult
verdict (ok u) = ok (record { verified = true; reason = signature_ok })
verdict (raise invalid_signature) = ok (record { verified = false; reason = not_validated })
verdict (raise e) = raise e

module _ (C : Crypto) where
  open C use {Key, load_pem_public_key, is_ec, is_p256, encode_dss_signature, verify}

  -- `__init__`
  unfoldable pub init : Bytes → Result Key
  init public_key_pem = do
    pub_key ← load_pem_public_key public_key_pem
    guard (is_ec pub_key) value_error
    guard (is_p256 pub_key) value_error
    ok pub_key

  unfoldable pub check_parts : Key → Result (Bytes × Bytes) → Result VerificationResult
  check_parts pub_key (raise e) =
      if is_malformed e then ok (record { verified = false; reason = malformed e }) else raise e
  check_parts pub_key (ok (payload, sig_bytes)) =
      if length sig_bytes == 64
      then verdict (
          verify pub_key
            (encode_dss_signature (from_bytes (take 32 sig_bytes)) (from_bytes (drop 32 sig_bytes)))
            payload)
      else ok (record { verified = false; reason = not_64_bytes })

  -- `verify_signature`
  unfoldable pub verify_signature : Key → Fields → Result VerificationResult
  unfolding check_parts
  verify_signature pub_key attestation = check_parts pub_key (signed_parts attestation)

module _ (keccak256 : Bytes → Bytes) where
  -- `_hash_pair`
  unfoldable pub hash_pair : Bytes → Bytes → Bytes
  hash_pair a b = if bytes_lt a b then keccak256 (a ++ b) else keccak256 (b ++ a)

  -- The loop over the siblings and the comparison behind it.
  unfoldable pub check_proof : Bytes → List Bytes → Bytes → VerificationResult
  check_proof computed [] expected_root =
      if bytes_eq computed expected_root
      then record { verified = true; reason = inclusion_ok }
      else record { verified = false; reason = root_mismatch computed expected_root }
  check_proof computed (sibling ∷ proof) expected_root =
      let rest = check_proof (hash_pair computed sibling) proof expected_root in
      if length sibling == 32
      then rest
      else record { verified = false; reason = sibling_not_32_bytes }

  -- `verify_merkle`
  unfoldable pub verify_merkle :
      ℤ → Text → Text → ℤ → ℤ → List Bytes → Bytes → Result VerificationResult
  verify_merkle chain_id attester_address beneficiary amount_wei epoch proof expected_root =
      if length expected_root == 32
      then (do
        leaf ← compute_leaf keccak256 chain_id attester_address beneficiary amount_wei epoch
        ok (check_proof leaf proof expected_root))
      else ok (record { verified = false; reason = root_not_32_bytes })

module _ (C : Crypto) (keccak256 : Bytes → Bytes) where
  -- `verify`
  unfoldable pub verify :
      C.Key → Fields → Bytes → List Bytes → ℤ → Text → Text → ℤ → ℤ → Result VerificationResult
  verify pub_key attestation root proof chain_id attester_address beneficiary amount_wei epoch = do
    sig ← verify_signature C pub_key attestation
    elim sig.verified [
      | true ↦
          verify_merkle keccak256 chain_id attester_address beneficiary amount_wei epoch proof root
      | false ↦ ok sig
    ]
