-- ===== src/Node.antt =====
-- node/verifier_node.py: the independent verifier. The values that it works on; its operations are
-- in the modules below.
pub mod Batch
pub mod Leaves
pub mod Abi
pub mod Epoch
pub mod Run
pub mod Main
use noethrion.Base.{ℕ, Bool, List}
use noethrion.Python.Result.{Exn, Result}
use noethrion.Python.Bytes.{Bytes}
use noethrion.Python.Text.{Text}
use noethrion.Python.Json.{Json}
use noethrion.Tool.Proof.{ProofMessage}
use noethrion.Tool.Signature.{SignatureMessage}

-- What the node calls of web3 and eth_abi.
pub record Web3 : Type 0 where
  -- `Web3.to_checksum_address`, on any value
  pub to_checksum_address : Json → Result Text
  -- `eth_abi.encode(["uint256", "address", "address", "uint128", "uint64"], …)`
  pub abi_encode : ℕ → Text → Text → ℕ → ℕ → Result Bytes
  -- `Web3.keccak`, the digest that pycryptodome has too
  pub keccak : Bytes → Bytes
  -- whether `HexBytes.hex()` writes a `0x` in front, which depends on its version
  pub hex_prefixed : Bool

-- The struct that `batches(epoch)` returns.
pub record OnChainBatch : Type 0 where
  pub merkle_root : Bytes
  pub epoch : ℕ
  pub total_kwh : ℕ
  pub timestamp : ℕ
  pub proposer : Bytes
  pub finalized : Bool
  pub threshold_at_propose : ℕ
  pub challenge_window_at_propose : ℕ

-- A path: nothing there, or what opening and reading it gives.
pub data File (A : Type 0) : Type 0 where
  absent : File A
  present : Result A → File A

-- The published directory at one moment.
pub record DataDir : Type 0 where
  -- batch-<epoch>.json
  pub batch_named : ℕ → File Json
  -- batch.json
  pub batch : File Json
  -- attestation.json
  pub attestation : File Json
  -- attester.key.pub
  pub pubkey : File Bytes

-- `OK`, `ALARM`, `SKIP`
pub data Status : Type 0 where
  all_ok alarm skip : Status

-- The lines that are reported, by what they say.
pub data Detail : Type 0 where
  not_proposed not_finalized malformed_batch engine_rejected : Detail
  not_parsed : Exn → Detail
  no_data : Detail
  root_differs : Text → Text → Detail
  root_matches : Text → Detail
  no_leaves : Detail
  leaf_differs : ℕ → Text → Text → Detail
  proof_failed : ℕ → ProofMessage → Detail
  leaves_verified : ℕ → Detail
  sum_differs : ℕ → ℕ → Detail
  sum_matches : ℕ → Detail
  signature_failed : SignatureMessage → Detail
  signature_ok fully_verified half_published : Detail
  signature_skipped chain_checks_ok : Detail

abbrev pub Report : Type 0
Report = Status × List Detail
