-- ===== src/Tool/Proof.antt =====
-- `_verify_merkle_proof_impl` of tools/verify_attestation.py.
pub mod Verdict
pub mod Inversion
use noethrion.Base.{Bool, List, [], ◌∷◌, ◌++◌, ◌==◌, if◌then◌else◌, length}
use noethrion.Python.Result.{
  Result, ok, raise, system_exit, ◌>>=◌, ◌>>◌, guard, traverse, value_error_exits,
}
use noethrion.Python.Bytes.{Bytes, bytes_lt, bytes_eq}
use noethrion.Python.Hex.{fromhex}
use noethrion.Python.Text.{Text, codes, lower, removeprefix_0x}
use noethrion.Python.Json.{Json, str, as_str}

-- The message beside the verdict.
pub data ProofMessage : Type 0 where
  proof_ok : ProofMessage
  root_mismatch : Bytes → Bytes → ProofMessage

-- `_to_bytes`
unfoldable pub to_word : Json → Result Bytes
to_word h = do
  s ← as_str h
  b ← value_error_exits (fromhex (removeprefix_0x (lower s)))
  guard (length b == 32) system_exit
  ok b

-- `computed` after the loop over the siblings
unfoldable pub fold_proof : (Bytes → Bytes) → Bytes → List Bytes → Bytes
fold_proof H computed [] = computed
fold_proof H computed (sibling ∷ proof) =
    let (a, b) = if bytes_lt computed sibling then (computed, sibling) else (sibling, computed) in
    fold_proof H (H (a ++ b)) proof

module _ (sha256 keccak256 : Bytes → Bytes) where
  -- `H`, with pycryptodome installed
  unfoldable pub hash_of : Text → Result (Bytes → Bytes)
  hash_of hash_alg =
      if bytes_eq hash_alg (codes "sha256")
      then ok sha256
      else if bytes_eq hash_alg (codes "keccak256")
      then ok keccak256
      else raise system_exit

  unfoldable pub verify_merkle_proof_impl :
      Text → List Json → Text → Text → Result (Bool × ProofMessage)
  verify_merkle_proof_impl leaf_hex proof_hex root_hex hash_alg = do
    leaf ← to_word (str leaf_hex)
    root ← to_word (str root_hex)
    proof ← traverse to_word proof_hex
    H ← hash_of hash_alg
    let computed = fold_proof H leaf proof
    let same = bytes_eq computed root
    ok (same, (if same then proof_ok else root_mismatch computed root))
