-- ===== src/Node/Epoch.antt =====
-- `_verify_finalized_epoch` and `verify_epoch` of node/verifier_node.py.
pub mod Sound
pub mod Complete
pub mod Closed
pub mod Committed
use noethrion.Base.{ℕ, ◌==◌, true, false, none, some, List, [], ◌∷◌, ◌++◌, if◌then◌else◌, length}
use noethrion.Python.Result.{
  Result, ok, raise, malformed_batch, system_exit, key_error, type_error, attribute_error,
  is_value_error, ◌>>=◌,
}
use noethrion.Python.Bytes.{Bytes, bytes_eq}
use noethrion.Python.Hex.{hex}
use noethrion.Python.Text.{Text, codes, lower, add_0x}
use noethrion.Python.Json.{Json, Fields, str, get}
use noethrion.Crypto.{Crypto}
use noethrion.Tool.Signature.{load_attestation, load_pubkey, verify_signature}
use noethrion.Node.{
  Web3, OnChainBatch, File, absent, present, DataDir, all_ok, alarm, skip, Detail, Report,
  not_proposed, not_finalized, engine_rejected, not_parsed, no_data, root_differs, root_matches,
  no_leaves, leaves_verified, sum_differs, sum_matches, signature_failed, signature_ok,
  fully_verified, half_published, signature_skipped, chain_checks_ok,
}
use noethrion.Node.Batch.{load_batch_file}
use noethrion.Node.Leaves.{
  LeafCheck, passed, failed, usable, normalize, array_or_empty, check_leaves,
}

abbrev pub alarm_with : Detail → Result Report
alarm_with d = ok (alarm, d ∷ [])

-- The `except` clauses of `verify_epoch`; any other class goes through.
unfoldable pub handle : Result Report → Result Report
handle (ok r) = ok r
handle (raise malformed_batch) = alarm_with Detail.malformed_batch
handle (raise system_exit) = alarm_with engine_rejected
handle (raise key_error) = alarm_with (not_parsed key_error)
handle (raise type_error) = alarm_with (not_parsed type_error)
handle (raise attribute_error) = alarm_with (not_parsed attribute_error)
handle (raise e) = if is_value_error e then alarm_with (not_parsed e) else raise e

module _ (C : Crypto) where
  -- 3. The signature, with the details so far.
  unfoldable pub check_signature : List Detail → File Json → File Bytes → Result Report
  check_signature details (present att_file) (present pub_file) = do
    att ← load_attestation att_file
    pub_key ← load_pubkey C pub_file
    (fine, m) ← verify_signature C att pub_key
    if fine
        then ok (all_ok, details ++ signature_ok ∷ fully_verified ∷ [])
        else alarm_with (signature_failed m)
  check_signature details absent absent =
      ok (all_ok, details ++ signature_skipped ∷ chain_checks_ok ∷ [])
  check_signature details _ _ = alarm_with half_published

module _ (W : Web3) (sha256 : Bytes → Bytes) (C : Crypto) (attester_addr : Text)
    (chain_id : ℕ) where
  module _ (epoch : ℕ) (data_dir : DataDir) (merkle_root_onchain : Text)
      (total_kwh_onchain : ℕ) where
    -- 2b and 3, behind the loop over the leaves
    unfoldable pub check_total : List Json → LeafCheck → Result Report
    check_total leaves (failed detail) = alarm_with detail
    check_total leaves (passed sum_amounts) = elim (sum_amounts == total_kwh_onchain) [
      | false ↦ alarm_with (sum_differs sum_amounts total_kwh_onchain)
      | true ↦
          check_signature C
            (root_matches merkle_root_onchain
              ∷ leaves_verified (length leaves)
              ∷ sum_matches total_kwh_onchain
              ∷ [])
            data_dir.attestation data_dir.pubkey
    ]

    -- 2. The leaves.
    unfoldable pub check_all_leaves : List Json → Result Report
    unfolding check_total
    check_all_leaves [] = alarm_with no_leaves
    check_all_leaves (lf ∷ leaves) = do
      r ← check_leaves W sha256 attester_addr chain_id epoch merkle_root_onchain 0 0 (lf ∷ leaves)
      check_total (lf ∷ leaves) r

    -- 1. The published root.
    unfoldable pub check_batch : Fields → Result Report
    unfolding check_all_leaves
    check_batch batch = do
      raw_root ← usable (get (codes "root") batch)
      let published_root = normalize raw_root
      elim (bytes_eq published_root (lower merkle_root_onchain)) [
        | false ↦ alarm_with (root_differs published_root merkle_root_onchain)
        | true ↦ do leaves ← array_or_empty (get (codes "leaves") batch); check_all_leaves leaves
      ]

    -- `_verify_finalized_epoch`
    unfoldable pub verify_finalized_epoch : Result Report
    unfolding check_batch
    verify_finalized_epoch = do
      loaded ← load_batch_file data_dir epoch
      elim loaded [ none ↦ alarm_with no_data | some batch ↦ check_batch batch ]

  -- The on-chain read of `verify_epoch`: the attester's address is checked, then `batches(epoch)` is
  -- called.
  abbrev pub read_batch : Result OnChainBatch → Result OnChainBatch
  read_batch call = do checked ← W.to_checksum_address (str attester_addr); call

  -- `verify_epoch`; `read` is what `read_batch` gives.
  unfoldable pub verify_epoch : Result OnChainBatch → ℕ → DataDir → Result Report
  verify_epoch read epoch data_dir = do
    b ← read
    elim (b.timestamp == 0) [
      | true ↦ ok (skip, not_proposed ∷ [])
      | false ↦ elim b.finalized [
        | false ↦ ok (skip, not_finalized ∷ [])
        | true ↦
            handle (verify_finalized_epoch epoch data_dir (add_0x (hex b.merkle_root)) b.total_kwh)
      ]
    ]
