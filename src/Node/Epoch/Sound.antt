-- ===== src/Node/Epoch/Sound.antt =====
-- What an OK of `verify_epoch` (node/verifier_node.py) means.
use noethrion.Base.{
  if◌then◌else◌, ℕ, ◌≡◌, ◌≢◌, refl, ap, ◌∙◌, Bool, true, false, Option, some, none, List, [], ◌∷◌,
  arith, ◌==◌, Bool-cases, inl, inr, ==_iff,
}
use noethrion.Python.Result.{
  Result, ok, raise, malformed_batch, system_exit, key_error, type_error, attribute_error, ◌>>=◌,
  >>=-eq-ok, ok_injective,
}
use noethrion.Python.Bytes.{Bytes, bytes_eq, bytes_eq→eq}
use noethrion.Python.Hex.{hex}
use noethrion.Python.Text.{Text, codes, lower, add_0x}
use noethrion.Python.Json.{Json, Fields, get}
use noethrion.Crypto.{Crypto}
use noethrion.Tool.Signature.{SignatureMessage, load_attestation, load_pubkey, verify_signature}
use noethrion.Node.{
  Web3, OnChainBatch, File, absent, present, DataDir, all_ok, alarm, Detail, no_data, Report,
}
use noethrion.Node.Batch.{load_batch_file}
use noethrion.Node.Batch.Found.{IsFound, NamesEpoch, load_batch_file-IsFound}
use noethrion.Node.Leaves.{
  LeafCheck, passed, failed, usable, normalize, array_or_empty, check_leaves,
}
use noethrion.Node.Leaves.Sound.{AllVerified, sum, check_leaves-passed}
use noethrion.Node.Epoch.{
  alarm_with, handle, check_signature, check_total, check_all_leaves, check_batch,
  verify_finalized_epoch, verify_epoch,
}

module _ (C : Crypto) where
  -- The published signature material: none at all, or an attestation that the published key validates.
  pub data IsSigned (att_path : File Json) (pub_path : File Bytes) : Type 0 where
    unsigned : att_path ≡ absent → pub_path ≡ absent → IsSigned att_path pub_path
    signed :
        (att_file : Result Json) (pub_file : Result Bytes) (att : Fields) (m : SignatureMessage)
        → att_path ≡ present att_file
        → pub_path ≡ present pub_file
        → load_attestation att_file ≡ ok att
        → (do key ← load_pubkey C pub_file; verify_signature C att key) ≡ ok (true, m)
        → IsSigned att_path pub_path

  -- A verdict that reports OK is a good one.
  fine_verdict :
      (fine : Bool) (good bad : List Detail) {r : Report}
      → if◌then◌else◌ {A = Result Report} fine (ok (all_ok, good)) (ok (alarm, bad)) ≡ ok r
      → r.0 ≡ all_ok
      → fine ≡ true
  fine_verdict true good bad h e = refl
  fine_verdict false good bad h e = cc (e, ap (λ (t : Report). t.0) (ok_injective h))

  check_signature-ok :
      (details : List Detail) (att_path : File Json) (pub_path : File Bytes)
      {details' : List Detail}
      → check_signature C details att_path pub_path ≡ ok (all_ok, details')
      → IsSigned att_path pub_path
  unfolding check_signature
  check_signature-ok details absent absent h = unsigned refl refl
  check_signature-ok details absent (present p) h = cc
  check_signature-ok details (present a) absent h = cc
  check_signature-ok details (present a) (present p) h =
      let (att, ha, h₁) = >>=-eq-ok (load_attestation a) _ h in
      let (key, hk, h₂) = >>=-eq-ok (load_pubkey C p) _ h₁ in
      let ((fine, m), hv, h₃) = >>=-eq-ok (verify_signature C att key) _ h₂ in
      let is_fine = fine_verdict fine _ _ h₃ refl in
      signed a p att m refl refl ha
        (ap (λ r. r >>= λ k. verify_signature C att k) hk ∙ hv ∙ ap (λ b. ok (b, m)) is_fine)

-- Nothing that is raised becomes an OK.
handle-ok :
    (r : Result Report) {details : List Detail}
    → handle r ≡ ok (all_ok, details)
    → r ≡ ok (all_ok, details)
unfolding handle
handle-ok (ok r) h = h
handle-ok (raise malformed_batch) h = cc
handle-ok (raise system_exit) h = cc
handle-ok (raise key_error) h = cc
handle-ok (raise type_error) h = cc
handle-ok (raise attribute_error) h = cc
handle-ok (raise _) h = ground arith

module _ (W : Web3) (sha256 : Bytes → Bytes) (C : Crypto) (attester_addr : Text)
    (chain_id : ℕ) where
  -- All that has been checked of a finalized epoch.
  pub record IsReconciled (epoch : ℕ) (data_dir : DataDir) (b : OnChainBatch) : Type 0 where
    pub batch : Fields
    pub published_root : Text
    pub leaves : List Json
    pub amounts : List ℕ
    pub found : IsFound data_dir epoch batch
    pub names_epoch : NamesEpoch epoch batch
    pub root_published : usable (get (codes "root") batch) ≡ ok published_root
    pub root_matches : normalize published_root ≡ lower (add_0x (hex b.merkle_root))
    pub leaves_published : array_or_empty (get (codes "leaves") batch) ≡ ok leaves
    pub some_leaf : leaves ≢ []
    pub leaves_verified :
        AllVerified W sha256 attester_addr chain_id epoch
          (add_0x (hex b.merkle_root))
          leaves
          amounts
    pub total : sum amounts ≡ b.total_kwh
    pub signature : IsSigned C data_dir.attestation data_dir.pubkey

  module _ (epoch : ℕ) (data_dir : DataDir) (b : OnChainBatch) where
    abbrev root_text : Text
    root_text = add_0x (hex b.merkle_root)

    -- What the checks behind the loop say of its result.
    check_total-ok :
        (leaves : List Json) (r : LeafCheck) {details : List Detail}
        → check_total W sha256 C attester_addr chain_id epoch data_dir root_text b.total_kwh leaves
            r
          ≡ ok (all_ok, details)
        → (r ≡ passed b.total_kwh) × IsSigned C data_dir.attestation data_dir.pubkey
    unfolding check_total
    check_total-ok leaves (failed d) h = cc
    check_total-ok leaves (passed n) h = elim (Bool-cases (n == b.total_kwh)) [
      | inl e ↦ (
        ap passed ((==_iff n b.total_kwh).0 e),
        check_signature-ok C _ data_dir.attestation data_dir.pubkey (rw (e, check_total) at h),
      )
      | inr e ↦ cc (rw (e, check_total) at h)
    ]

    record LeavesOk (leaves : List Json) : Type 0 where
      amounts : List ℕ
      some_leaf : leaves ≢ []
      verified : AllVerified W sha256 attester_addr chain_id epoch root_text leaves amounts
      total : sum amounts ≡ b.total_kwh
      signature : IsSigned C data_dir.attestation data_dir.pubkey

    check_all_leaves-ok :
        (leaves : List Json) {details : List Detail}
        → check_all_leaves W sha256 C attester_addr chain_id epoch data_dir root_text b.total_kwh
            leaves
          ≡ ok (all_ok, details)
        → LeavesOk leaves
    unfolding check_all_leaves
    check_all_leaves-ok [] h = cc
    check_all_leaves-ok (lf ∷ leaves) h =
        let (r, hr, h₁) =
          >>=-eq-ok (check_leaves W sha256 attester_addr chain_id epoch root_text 0 0 (lf ∷ leaves))
            _ h in
        let (is_total, sig) = check_total-ok (lf ∷ leaves) r h₁ in
        let (amounts, all, total) =
          check_leaves-passed W sha256 attester_addr chain_id epoch root_text 0 0 (lf ∷ leaves)
            (hr ∙ ap ok is_total) in
        record {
          amounts = amounts;
          some_leaf = λ e. cc;
          verified = all;
          total = omega arith;
          signature = sig;
        }

    check_batch-ok :
        (batch : Fields) {details : List Detail}
        → load_batch_file data_dir epoch ≡ ok (some batch)
        → check_batch W sha256 C attester_addr chain_id epoch data_dir root_text b.total_kwh batch
          ≡ ok (all_ok, details)
        → IsReconciled epoch data_dir b
    unfolding check_batch
    check_batch-ok batch loaded h =
        let (found, names) = load_batch_file-IsFound data_dir epoch loaded in
        let (raw, hu, h₁) = >>=-eq-ok (usable (get (codes "root") batch)) _ h in
        elim (Bool-cases (bytes_eq (normalize raw) (lower root_text))) [
          | inl e ↦
              let (leaves, hl, h₂) =
                >>=-eq-ok (array_or_empty (get (codes "leaves") batch)) _ (rw e at h₁) in
              let v = check_all_leaves-ok leaves h₂ in
              record {
                batch = batch;
                published_root = raw;
                leaves = leaves;
                amounts = v.amounts;
                found = found;
                names_epoch = names;
                root_published = hu;
                root_matches = bytes_eq→eq _ _ e;
                leaves_published = hl;
                some_leaf = v.some_leaf;
                leaves_verified = v.verified;
                total = v.total;
                signature = v.signature;
              }
          | inr e ↦ cc (rw e at h₁)
        ]

    verify_finalized_epoch-ok :
        {details : List Detail}
        → verify_finalized_epoch W sha256 C attester_addr chain_id epoch data_dir root_text
            b.total_kwh
          ≡ ok (all_ok, details)
        → IsReconciled epoch data_dir b
    unfolding verify_finalized_epoch
    verify_finalized_epoch-ok {details} h =
        let (loaded, hl, h₁) = >>=-eq-ok (load_batch_file data_dir epoch) _ h in go loaded hl h₁
      where
        go :
            (loaded : Option Fields)
            → load_batch_file data_dir epoch ≡ ok loaded
            → (elim loaded [
              | none ↦ alarm_with no_data
              | some batch ↦
                  check_batch W sha256 C attester_addr chain_id epoch data_dir root_text b.total_kwh
                    batch
            ])
              ≡ ok (all_ok, details)
            → IsReconciled epoch data_dir b
        go none hl k = cc
        go (some batch) hl k = check_batch-ok batch hl k

  -- An OK is earned: `verify_epoch` reports OK only for an epoch that is proposed and finalized on the
  -- chain and whose published batch, the object in the epoch's file or else in batch.json, names the
  -- epoch and the on-chain root, has leaves, each of which
  -- re-derives and passes its proof against that root, sums to the on-chain total, and comes with no
  -- signature material or with an attestation that the published key validates.
  pub verify_epoch-IsReconciled :
      (read : Result OnChainBatch) (epoch : ℕ) (data_dir : DataDir) {details : List Detail}
      → verify_epoch W sha256 C attester_addr chain_id read epoch data_dir ≡ ok (all_ok, details)
      → (b : OnChainBatch) × (read ≡ ok b)
        × (b.timestamp ≢ 0)
        × (b.finalized ≡ true)
        × IsReconciled epoch data_dir b
  unfolding verify_epoch
  verify_epoch-IsReconciled read epoch data_dir h =
      let (b, hb, h₁) = >>=-eq-ok read _ h in
      elim (Bool-cases (b.timestamp == 0)) [
        | inl e ↦ cc (rw e at h₁)
        | inr proposed ↦ elim (Bool-cases b.finalized) [
          | inl final ↦ (
            b,
            hb,
            (λ z. cc ((==_iff b.timestamp 0).1 z, proposed)),
            final,
            verify_finalized_epoch-ok epoch data_dir b (handle-ok _ (rw (proposed, final) at h₁)),
          )
          | inr pending ↦ cc (rw (proposed, pending) at h₁)
        ]
      ]
