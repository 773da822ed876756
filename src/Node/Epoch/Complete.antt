-- ===== src/Node/Epoch/Complete.antt =====
-- A reconciled epoch is reported as OK by `verify_epoch` (node/verifier_node.py).
use noethrion.Base.{ℕ, ◌+◌, ◌≡◌, ◌≢◌, ◌↔◌, refl, ap, ◌∙◌, true, List, [], ◌∷◌, arith, ◌==◌}
use noethrion.Python.Result.{Result, ok, >>=-ok, >>=-eq-ok}
use noethrion.Python.Bytes.{Bytes, bytes_eq, bytes_eq_refl}
use noethrion.Python.Hex.{hex}
use noethrion.Python.Text.{Text, lower, add_0x}
use noethrion.Python.Json.{Json}
use noethrion.Crypto.{Crypto}
use noethrion.Tool.Signature.{load_pubkey}
use noethrion.Node.{Web3, OnChainBatch, File, DataDir, all_ok, Detail, Report}
use noethrion.Node.Leaves.{passed, normalize}
use noethrion.Node.Leaves.Sound.{AllVerified, sum}
use noethrion.Node.Leaves.Complete.{AllVerified-check_leaves}
use noethrion.Node.Epoch.{
  handle, check_signature, check_total, check_all_leaves, check_batch, verify_finalized_epoch,
  verify_epoch,
}
use noethrion.Node.Epoch.Sound.{IsSigned, unsigned, signed, IsReconciled, verify_epoch-IsReconciled}
use noethrion.Node.Batch.Found.{IsFound-load_batch_file}
use noethrion.Node.Epoch.Closed.{verify_epoch-finalized}

-- The report is OK.
abbrev pub ReportsOk : Result Report → Type 0
ReportsOk r = (details : List Detail) × (r ≡ ok (all_ok, details))

IsSigned-check_signature :
    (C : Crypto) (details : List Detail) (att_path : File Json) (pub_path : File Bytes)
    → IsSigned C att_path pub_path
    → ReportsOk (check_signature C details att_path pub_path)
unfolding check_signature
IsSigned-check_signature C details att_path pub_path (unsigned a p) = rw (a, p) (_, refl)
IsSigned-check_signature C details att_path pub_path
      (signed att_file pub_file att m a p loaded good) =
    let (key, hk, hv) = >>=-eq-ok (load_pubkey C pub_file) _ good in
    rw (a, p) (_, >>=-ok _ loaded ∙ >>=-ok _ hk ∙ >>=-ok _ hv)

module _ (W : Web3) (sha256 : Bytes → Bytes) (C : Crypto) (attester_addr : Text)
    (chain_id : ℕ) where
  module _ (epoch : ℕ) (data_dir : DataDir) (root : Text) (total : ℕ) where
    total-check_total :
        (leaves : List Json)
        → IsSigned C data_dir.attestation data_dir.pubkey
        → ReportsOk (
            check_total W sha256 C attester_addr chain_id epoch data_dir root total leaves
              (passed total))
    unfolding check_total
    total-check_total leaves s =
        let same : (total == total) ≡ true = ground arith in
        rw (same, check_total) (IsSigned-check_signature C _ data_dir.attestation data_dir.pubkey s)

    AllVerified-check_all_leaves :
        (leaves : List Json) (amounts : List ℕ)
        → leaves ≢ []
        → AllVerified W sha256 attester_addr chain_id epoch root leaves amounts
        → sum amounts ≡ total
        → IsSigned C data_dir.attestation data_dir.pubkey
        → ReportsOk
            (check_all_leaves W sha256 C attester_addr chain_id epoch data_dir root total leaves)
    unfolding check_all_leaves
    AllVerified-check_all_leaves [] amounts some_leaf h hs s = absurd (some_leaf refl)
    AllVerified-check_all_leaves (lf ∷ leaves) amounts some_leaf h hs s =
        let all =
          AllVerified-check_leaves W sha256 attester_addr chain_id epoch root 0 0 (lf ∷ leaves)
            amounts h in
        let summed : 0 + sum amounts ≡ total = omega arith in
        let (details, reports) = total-check_total (lf ∷ leaves) s in
        (details, >>=-ok _ (all ∙ ap (λ n. ok (passed n)) summed) ∙ reports)

  IsReconciled-verify_finalized_epoch :
      (epoch : ℕ) (data_dir : DataDir) (b : OnChainBatch)
      → IsReconciled W sha256 C attester_addr chain_id epoch data_dir b
      → ReportsOk (
          verify_finalized_epoch W sha256 C attester_addr chain_id epoch data_dir
            (add_0x (hex b.merkle_root))
            b.total_kwh)
  unfolding verify_finalized_epoch check_batch
  IsReconciled-verify_finalized_epoch epoch data_dir b v =
      let root = add_0x (hex b.merkle_root) in
      let same : bytes_eq (normalize v.published_root) (lower root) ≡ true =
        rw v.root_matches (bytes_eq_refl (lower root)) in
      let (details, reports) =
        AllVerified-check_all_leaves epoch data_dir root b.total_kwh v.leaves v.amounts v.some_leaf
          v.leaves_verified v.total v.signature in
      (
        details,
        >>=-ok _ (IsFound-load_batch_file data_dir epoch v.batch v.found v.names_epoch)
            ∙ >>=-ok _ v.root_published
            ∙ rw same (>>=-ok _ v.leaves_published ∙ reports),
      )

  -- The node's contract, both ways: `verify_epoch` reports OK exactly where the chain was read and the
  -- epoch is proposed, final and reconciled: its published batch, which is the object in the file
  -- with the epoch's name or, where there is no such file, in batch.json, has the epoch as its integer
  -- `epoch` and names the on-chain root, each of its leaves, of which there is one at least, re-derives and passes its proof, the
  -- amounts sum to the on-chain total, and the signature material is absent or good.
  pub verify_epoch_iff :
      (read : Result OnChainBatch) (epoch : ℕ) (data_dir : DataDir)
      → ReportsOk (verify_epoch W sha256 C attester_addr chain_id read epoch data_dir) ↔ (
          (b : OnChainBatch) × (read ≡ ok b)
          × (b.timestamp ≢ 0)
          × (b.finalized ≡ true)
          × IsReconciled W sha256 C attester_addr chain_id epoch data_dir b)
  verify_epoch_iff read epoch data_dir = (forth, back)
    where
      forth :
          ReportsOk (verify_epoch W sha256 C attester_addr chain_id read epoch data_dir)
          → (b : OnChainBatch) × (read ≡ ok b)
            × (b.timestamp ≢ 0)
            × (b.finalized ≡ true)
            × IsReconciled W sha256 C attester_addr chain_id epoch data_dir b
      forth (details, h) =
          verify_epoch-IsReconciled W sha256 C attester_addr chain_id read epoch data_dir h

      back :
          ((b : OnChainBatch) × (read ≡ ok b)
            × (b.timestamp ≢ 0)
            × (b.finalized ≡ true)
            × IsReconciled W sha256 C attester_addr chain_id epoch data_dir b)
          → ReportsOk (verify_epoch W sha256 C attester_addr chain_id read epoch data_dir)
      back (b, e, proposed, final, v) =
          let (details, reports) = IsReconciled-verify_finalized_epoch epoch data_dir b v in
          (
            details,
            ap (λ r. verify_epoch W sha256 C attester_addr chain_id r epoch data_dir) e
                ∙ verify_epoch-finalized W sha256 C attester_addr chain_id b epoch data_dir proposed
                    final
                ∙ ap handle reports
                ∙ unfold handle in refl,
          )
