-- ===== src/Leaf.antt =====
-- The claim-record leaf, keccak256(abi.encode(chain_id, attester, beneficiary, amount, epoch)):
-- examples/lifecycle/03_build_merkle_tree.py (`abi_encode_leaf`, `leaf_hash`),
-- examples/integrators/python_verifier_library.py (`_compute_leaf`) and
-- tools/verify_attestation.py (`_compute_leaf_impl`, here in Leaf/Tool.antt).
pub mod Encoding
pub mod Tool
pub mod Address
pub mod Agreement
pub mod Casing
pub mod AnyCase
pub mod Checksum
use noethrion.Base.{[], ◌++◌, ◌==◌, length, replicate}
use noethrion.Base.Int.{ℤ}
use noethrion.Python.Result.{Result, ok, value_error, ◌>>=◌, ◌>>◌, guard}
use noethrion.Python.Bytes.{Bytes, to_bytes}
use noethrion.Python.Hex.{fromhex}
use noethrion.Python.Text.{Text, lower, removeprefix_0x}

-- `_addr_to_32` of the builder and of the library: they differ in the error's text alone.
unfoldable pub addr_to_32 : Text → Result Bytes
addr_to_32 addr_hex = do
  let addr_clean = removeprefix_0x (lower addr_hex)
  guard (length addr_clean == 40) value_error
  bs ← fromhex addr_clean
  ok (replicate 12 0 ++ bs)

-- `abi_encode_leaf`: five slots, of 32 bytes each for a well-formed address.
unfoldable pub abi_encode_leaf : ℤ → Text → Text → ℤ → ℤ → Result Bytes
abi_encode_leaf chain_id attester_addr beneficiary amount epoch = do
  slot₁ ← to_bytes chain_id 32
  slot₂ ← addr_to_32 attester_addr
  slot₃ ← addr_to_32 beneficiary
  slot₄ ← to_bytes amount 32
  slot₅ ← to_bytes epoch 32
  ok (slot₁ ++ slot₂ ++ slot₃ ++ slot₄ ++ slot₅)

module _ (keccak256 : Bytes → Bytes) where
  -- `leaf_hash`
  unfoldable pub leaf_hash : ℤ → Text → Text → ℤ → ℤ → Result Bytes
  leaf_hash chain_id attester_addr beneficiary amount epoch = do
    encoded ← abi_encode_leaf chain_id attester_addr beneficiary amount epoch
    ok (keccak256 encoded)

  -- `_compute_leaf` of the library
  unfoldable pub compute_leaf : ℤ → Text → Text → ℤ → ℤ → Result Bytes
  compute_leaf chain_id attester_address beneficiary amount_wei epoch = do
    e₁ ← to_bytes chain_id 32
    e₂ ← addr_to_32 attester_address
    e₃ ← addr_to_32 beneficiary
    e₄ ← to_bytes amount_wei 32
    e₅ ← to_bytes epoch 32
    ok (keccak256 (e₁ ++ e₂ ++ e₃ ++ e₄ ++ e₅))
