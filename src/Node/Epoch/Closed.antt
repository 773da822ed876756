-- ===== src/Node/Epoch/Closed.antt =====
-- How `verify_epoch` (node/verifier_node.py) fails: what becomes an alarm and what goes through.
use noethrion.Base.{
  ℕ, ◌≡◌, ◌≢◌, refl, ap, ◌∙◌, Bool, true, false, Option, some, none, List, [], ◌∷◌, arith, ◌==◌,
  if◌then◌else◌, Bool-cases, inl, inr,
}
use noethrion.Python.Result.{
  Exn, Result, ok, raise, malformed_batch, system_exit, key_error, type_error, attribute_error,
  overflow_error, value_error, json_decode_error, unicode_decode_error, unicode_encode_error,
  is_value_error, ◌>>=◌, >>=-ok, >>=-raise,
}
use noethrion.Python.Bytes.{Bytes, bytes_eq, bytes_eq_refl}
use noethrion.Python.Hex.{hex}
use noethrion.Python.Text.{Text, codes, lower, add_0x}
use noethrion.Python.Json.{Json, Fields, obj, float, infinite, get}
use noethrion.Python.Number.{int_of}
use noethrion.Crypto.{Crypto}
use noethrion.Tool.Signature.{load_attestation, load_pubkey, verify_signature}
use noethrion.Node.{
  Web3, OnChainBatch, File, absent, present, DataDir, all_ok, alarm, skip, Detail, no_data, Report,
}
use noethrion.Node.Batch.{load_batch_file}
use noethrion.Node.Leaves.{
  LeafCheck, passed, failed, usable, normalize, array_or_empty, required, raw_amount, check_leaf,
  check_leaves,
}
use noethrion.Node.Epoch.{
  handle, check_signature, check_total, check_all_leaves, check_batch, verify_finalized_epoch,
  verify_epoch,
}
use noethrion.Node.Run.{RunState, exit, round}

-- The classes that `verify_epoch` turns into an alarm.
abbrev pub is_handled : Exn → Bool
is_handled malformed_batch = true
is_handled system_exit = true
is_handled key_error = true
is_handled type_error = true
is_handled attribute_error = true
is_handled e = is_value_error e

-- OK, ALARM, or an exception of a class that is not handled.
abbrev pub IsClosed : Result Report → Type 0
IsClosed (ok (all_ok, details)) = Unit {0}
IsClosed (ok (alarm, details)) = Unit {0}
IsClosed (ok (skip, details)) = ⊥
IsClosed (raise e) = is_handled e ≡ false

-- No SKIP.
abbrev NoSkip : Result Report → Type 0
NoSkip (ok (skip, details)) = ⊥
NoSkip _ = Unit {0}

NoSkip-bind :
    {A : Type 0} (m : Result A) (f : A → Result Report)
    → ((a : A) → NoSkip (f a))
    → NoSkip (m >>= f)
NoSkip-bind (ok a) f h = h a
NoSkip-bind (raise e) f h = tt

handle-IsClosed : (r : Result Report) → NoSkip r → IsClosed (handle r)
unfolding handle
handle-IsClosed (ok (all_ok, details)) h = tt
handle-IsClosed (ok (alarm, details)) h = tt
handle-IsClosed (ok (skip, details)) h = h
handle-IsClosed (raise malformed_batch) h = tt
handle-IsClosed (raise system_exit) h = tt
handle-IsClosed (raise key_error) h = tt
handle-IsClosed (raise type_error) h = tt
handle-IsClosed (raise attribute_error) h = tt
handle-IsClosed (raise value_error) h = tt
handle-IsClosed (raise json_decode_error) h = tt
handle-IsClosed (raise unicode_decode_error) h = tt
handle-IsClosed (raise unicode_encode_error) h = tt
handle-IsClosed (raise _) h = refl

check_signature-NoSkip :
    (C : Crypto) (details : List Detail) (a : File Json) (p : File Bytes)
    → NoSkip (check_signature C details a p)
unfolding check_signature
check_signature-NoSkip C details absent absent = tt
check_signature-NoSkip C details absent (present p) = tt
check_signature-NoSkip C details (present a) absent = tt
check_signature-NoSkip C details (present a) (present p) = NoSkip-bind (load_attestation a) _ λ att.
    NoSkip-bind (load_pubkey C p) _
      λ key. NoSkip-bind (verify_signature C att key) _ λ v. verdict v.0 _ _
  where
    verdict :
        (fine : Bool) (x y : List Detail)
        → NoSkip (if◌then◌else◌ {A = Result Report} fine (ok (all_ok, x)) (ok (alarm, y)))
    verdict true x y = tt
    verdict false x y = tt

module _ (W : Web3) (sha256 : Bytes → Bytes) (C : Crypto) (attester_addr : Text)
    (chain_id : ℕ) where
  module _ (epoch : ℕ) (data_dir : DataDir) (root : Text) (total : ℕ) where
    check_total-NoSkip :
        (leaves : List Json) (r : LeafCheck)
        → NoSkip (check_total W sha256 C attester_addr chain_id epoch data_dir root total leaves r)
    unfolding check_total
    check_total-NoSkip leaves (failed d) = tt
    check_total-NoSkip leaves (passed n) = elim (Bool-cases (n == total)) [
      | inl e ↦
          rw (e, check_total) (check_signature-NoSkip C _ data_dir.attestation data_dir.pubkey)
      | inr e ↦ rw (e, check_total) tt
    ]

    check_batch-NoSkip :
        (batch : Fields)
        → NoSkip (check_batch W sha256 C attester_addr chain_id epoch data_dir root total batch)
    unfolding check_batch
    check_batch-NoSkip batch = NoSkip-bind (usable (get (codes "root") batch)) _ λ raw.
        elim (Bool-cases (bytes_eq (normalize raw) (lower root))) [
          | inl e ↦ rw e (
              NoSkip-bind (array_or_empty (get (codes "leaves") batch)) _
                λ leaves. all_leaves leaves)
          | inr e ↦ rw e tt
        ]
      where
        all_leaves :
            (leaves : List Json)
            → NoSkip (
                check_all_leaves W sha256 C attester_addr chain_id epoch data_dir root total leaves)
        all_leaves [] = tt
        all_leaves (lf ∷ leaves) =
            NoSkip-bind (check_leaves W sha256 attester_addr chain_id epoch root 0 0 (lf ∷ leaves))
              _ λ r. check_total-NoSkip (lf ∷ leaves) r

    verify_finalized_epoch-NoSkip :
        NoSkip (verify_finalized_epoch W sha256 C attester_addr chain_id epoch data_dir root total)
    unfolding verify_finalized_epoch
    verify_finalized_epoch-NoSkip =
        NoSkip-bind (load_batch_file data_dir epoch) _ λ loaded. found loaded
      where
        found :
            (loaded : Option Fields)
            → NoSkip (elim loaded [
              | none ↦ ok (alarm, no_data ∷ [])
              | some batch ↦
                  check_batch W sha256 C attester_addr chain_id epoch data_dir root total batch
            ])
        found none = tt
        found (some batch) = check_batch-NoSkip batch

  -- Past the two tests on the chain's state.
  pub verify_epoch-finalized :
      (b : OnChainBatch) (epoch : ℕ) (data_dir : DataDir)
      → b.timestamp ≢ 0
      → b.finalized ≡ true
      → verify_epoch W sha256 C attester_addr chain_id (ok b) epoch data_dir
        ≡ handle (
            verify_finalized_epoch W sha256 C attester_addr chain_id epoch data_dir
              (add_0x (hex b.merkle_root))
              b.total_kwh)
  unfolding verify_epoch
  verify_epoch-finalized b epoch data_dir proposed final = ground arith

  -- An epoch that is finalized on the chain is never skipped: it is found in order, it raises the
  -- alarm, or an exception goes through whose class `verify_epoch` does not handle.
  pub verify_epoch-IsClosed :
      (b : OnChainBatch) (epoch : ℕ) (data_dir : DataDir)
      → b.timestamp ≢ 0
      → b.finalized ≡ true
      → IsClosed (verify_epoch W sha256 C attester_addr chain_id (ok b) epoch data_dir)
  verify_epoch-IsClosed b epoch data_dir proposed final =
      rw (verify_epoch-finalized b epoch data_dir proposed final) (
        handle-IsClosed _
          (verify_finalized_epoch-NoSkip epoch data_dir (add_0x (hex b.merkle_root)) b.total_kwh))

  -- A hole in the fail-closed contract: on an epoch that is proposed and finalized, with a batch
  -- whose root is the chain's and whose first leaf has a beneficiary and an infinite amount, which
  -- JSON can hold (`1e999`), `verify_epoch` raises OverflowError and reports no alarm, and a round
  -- under `--once` exits with 2 where no alarm was counted before.
  pub infinite_amount_escapes :
      (b : OnChainBatch) (epoch : ℕ) (data_dir : DataDir)
      → b.timestamp ≢ 0
      → b.finalized ≡ true
      → (batch leaf : Fields) (leaves : List Json) (root : Text) (beneficiary : Json)
      → load_batch_file data_dir epoch ≡ ok (some batch)
      → usable (get (codes "root") batch) ≡ ok root
      → normalize root ≡ lower (add_0x (hex b.merkle_root))
      → array_or_empty (get (codes "leaves") batch) ≡ ok (obj leaf ∷ leaves)
      → get (codes "beneficiary") leaf ≡ some beneficiary
      → raw_amount leaf ≡ ok (float infinite)
      → (verify_epoch W sha256 C attester_addr chain_id (ok b) epoch data_dir
          ≡ raise overflow_error)
        × ((s : RunState)
            → round true s (verify_epoch W sha256 C attester_addr chain_id (ok b) epoch data_dir)
              ≡ exit (if s.alarms == 0 then 2 else 1) s)
  unfolding round
  infinite_amount_escapes b epoch data_dir proposed final batch leaf leaves root beneficiary hb hr
        hn hl hben ha =
      (escapes, λ s. rw (escapes, round))
    where
      leaf_raises :
          check_leaves W sha256 attester_addr chain_id epoch
            (add_0x (hex b.merkle_root))
            0
            0
            (obj leaf ∷ leaves)
          ≡ raise overflow_error
      leaf_raises = unfold check_leaves check_leaf required int_of in rw (hben, ha)

      same_root : bytes_eq (normalize root) (lower (add_0x (hex b.merkle_root))) ≡ true
      same_root = rw hn (bytes_eq_refl _)

      core :
          verify_finalized_epoch W sha256 C attester_addr chain_id epoch data_dir
            (add_0x (hex b.merkle_root))
            b.total_kwh
          ≡ raise overflow_error
      core =
          unfold verify_finalized_epoch check_batch check_all_leaves in
          >>=-ok _ hb ∙ >>=-ok _ hr ∙ rw same_root (>>=-ok _ hl ∙ >>=-raise _ leaf_raises)

      escapes :
          verify_epoch W sha256 C attester_addr chain_id (ok b) epoch data_dir
          ≡ raise overflow_error
      escapes =
          verify_epoch-finalized b epoch data_dir proposed final
          ∙ ap handle core
          ∙ unfold handle in refl
