-- ===== src/Publish/Accepted/Document.antt =====
-- The document of an honest batch under `_load_batch_file` and `_verify_finalized_epoch`
-- (node/verifier_node.py).
use noethrion.Base.{ℕ, ◌≡◌, refl, ap, ◌∙◌, true, false, some, List, [], ◌∷◌, arith, ◌==◌, length}
use noethrion.Base.Int.{pos}
use noethrion.Python.Result.{ok, >>=-ok}
use noethrion.Python.Bytes.{Bytes, bytes_eq, bytes_eq_refl}
use noethrion.Python.Text.{Text, codes, lower}
use noethrion.Python.Json.{Json, str, int, arr, obj, get, from_list}
use noethrion.Merkle.Replay.{IsWord}
use noethrion.Tool.Proof.Verdict.{word_text}
use noethrion.Crypto.{Crypto}
use noethrion.Node.{
  Web3, absent, present, DataDir, Detail, all_ok, root_matches, leaves_verified, sum_matches,
  signature_skipped, chain_checks_ok,
}
use noethrion.Node.Batch.{load_batch_file, load_candidate, accept_epoch}
use noethrion.Node.Leaves.{passed, usable, normalize, array_or_empty, check_leaves}
use noethrion.Node.Epoch.{
  check_signature, check_total, check_all_leaves, check_batch, verify_finalized_epoch,
}
use noethrion.Publish.{document}
use noethrion.Publish.Accepted.{
  usable-word_text, normalize-word_text, lower-word_text, array-from_list,
}

module _ (W : Web3) (sha256 : Bytes → Bytes) (chain_id : ℕ) (attester_addr : Text) (epoch : ℕ) where
  module _ (root : Bytes) (total : ℕ) (items : List Json) where
    document_epoch : get (codes "epoch") (document epoch total root items) ≡ some (int (pos epoch))
    unfolding get bytes_eq
    document_epoch = refl

    pub document_root :
        get (codes "root") (document epoch total root items) ≡ some (str (word_text root))
    unfolding get bytes_eq
    document_root = refl

    pub document_total :
        get (codes "totalKwh") (document epoch total root items) ≡ some (int (pos total))
    unfolding get bytes_eq
    document_total = refl

    document_leaves :
        get (codes "leaves") (document epoch total root items) ≡ some (arr (from_list items))
    unfolding get bytes_eq
    document_leaves = refl

  document_accepted :
      (root : Bytes) (total : ℕ) (items : List Json)
      → accept_epoch epoch false
          (document epoch total root items)
          (get (codes "epoch") (document epoch total root items))
        ≡ ok (some (document epoch total root items))
  unfolding accept_epoch
  document_accepted root total items =
      let same : (epoch == epoch) ≡ true = ground arith in
      rw (document_epoch root total items, same)

  -- The document is found where there is no file with the epoch's name.
  document_loaded :
      (root : Bytes) (total : ℕ) (items : List Json) (dir : DataDir)
      → dir.batch_named epoch ≡ absent
      → dir.batch ≡ present (ok (obj (document epoch total root items)))
      → load_batch_file dir epoch ≡ ok (some (document epoch total root items))
  unfolding load_batch_file load_candidate
  document_loaded root total items dir no_name there =
      rw (no_name, there) (document_accepted root total items)

  -- What the node reports of the document.
  abbrev pub details_of : Bytes → List Json → ℕ → List Detail
  details_of root items total =
      root_matches (word_text root)
      ∷ leaves_verified (length items)
      ∷ sum_matches total
      ∷ signature_skipped
      ∷ chain_checks_ok
      ∷ []

  pub document_verified :
      (C : Crypto) (root : Bytes) (total : ℕ) (first : Json) (rest : List Json) (dir : DataDir)
      → IsWord root
      → check_leaves W sha256 attester_addr chain_id epoch (word_text root) 0 0 (first ∷ rest)
        ≡ ok (passed total)
      → dir.batch_named epoch ≡ absent
      → dir.batch ≡ present (ok (obj (document epoch total root (first ∷ rest))))
      → dir.attestation ≡ absent
      → dir.pubkey ≡ absent
      → verify_finalized_epoch W sha256 C attester_addr chain_id epoch dir (word_text root) total
        ≡ ok (all_ok, details_of root (first ∷ rest) total)
  unfolding verify_finalized_epoch check_batch check_all_leaves check_total check_signature
  document_verified C root total first rest dir hr checked no_name there no_att no_pub =
      let items = first ∷ rest in
      let root_read = ap usable (document_root root total items) ∙ usable-word_text root hr in
      let same : bytes_eq (normalize (word_text root)) (lower (word_text root)) ≡ true =
        rw (normalize-word_text root hr, lower-word_text root hr)
          (bytes_eq_refl (word_text root)) in
      let leaves_read =
        ap array_or_empty (document_leaves root total items) ∙ array-from_list items in
      let equal : (total == total) ≡ true = ground arith in
      >>=-ok _ (document_loaded root total items dir no_name there)
      ∙ >>=-ok _ root_read
      ∙ rw same (
          >>=-ok _ leaves_read
          ∙ >>=-ok _ checked
          ∙ rw (check_total, equal, check_signature, no_att, no_pub))
