-- ===== src/Publish/Accepted/Epoch.antt =====
-- The honest batch as a whole: the loop over its leaves, and `verify_epoch` on it.
use noethrion.Base.{
  ℕ, suc, ◌+◌, ◌≡◌, ◌≢◌, refl, sym, ap, ◌∙◌, true, List, [], ◌∷◌, map, arith, length, All,
}
use noethrion.Base.Int.{pos}
use noethrion.Python.Result.{ok, traverse, >>=-ok, ok_injective}
use noethrion.Python.Bytes.{Bytes}
use noethrion.Python.Json.{Json, Fields, obj}
use noethrion.Leaf.{leaf_hash}
use noethrion.Python.Text.{Text}
use noethrion.Leaf.Encoding.{encoding}
use noethrion.Leaf.Casing.{IsWritten}
use noethrion.Leaf.AnyCase.{leaf_hash-IsWritten}
use noethrion.Merkle.{Proof, build_tree}
use noethrion.Merkle.Replay.{IsWord, IsDigest}
use noethrion.Merkle.Complete.{AllLead, build_tree-IsTree}
use noethrion.Merkle.Claims.{digests}
use noethrion.Tool.Proof.Verdict.{word_text}
use noethrion.Crypto.{Crypto}
use noethrion.Node.{Web3, OnChainBatch, absent, present, DataDir, Detail, Report, all_ok}
use noethrion.Node.Leaves.{passed, check_leaves}
use noethrion.Node.Epoch.{handle, verify_finalized_epoch, verify_epoch}
use noethrion.Node.Epoch.Closed.{verify_epoch-finalized}
use noethrion.Publish.{Entry, entry_fields, total_wei, published_leaves, document, batch_of}
use noethrion.Publish.Accepted.Share.{Share, entry_of, entries_of, claim_of, IsShare}
use noethrion.Publish.Accepted.{IsEncoder, check_leaf-claim}
use noethrion.Publish.Accepted.Document.{details_of, document_verified}

module _ (W : Web3) (sha256 : Bytes → Bytes) (encoder : IsEncoder W) (d : IsDigest W.keccak)
    (chain_id : ℕ) (attester : Bytes) (attester_addr : Text)
    (attester_written : IsWritten attester_addr attester) (epoch : ℕ) where
  abbrev encodings : List Share → List Bytes
  encodings shares = map (λ x. encoding (claim_of chain_id attester epoch x)) shares

  abbrev pub leaves_of : List Share → List Bytes
  leaves_of shares = map W.keccak (encodings shares)

  leaf_hashes :
      (shares : List Share)
      → All (IsShare chain_id attester epoch) shares
      → traverse
          (λ (x : Entry).
            leaf_hash W.keccak
              (pos chain_id)
              attester_addr
              x.beneficiary
              (pos x.amount_wei)
              (pos epoch))
          (entries_of shares)
        ≡ ok (leaves_of shares)
  unfolding traverse
  leaf_hashes [] h = refl
  leaf_hashes (x ∷ shares) (h, hs) =
      >>=-ok _ (
        leaf_hash-IsWritten W.keccak (claim_of chain_id attester epoch x) h.claim attester_addr
          x.address attester_written h.written)
      ∙ >>=-ok _ (leaf_hashes shares hs)

  -- What the loop over the published leaves finds.
  record Loop (root : Bytes) (i start : ℕ) (shares : List Share) (proofs : List Proof)
      : Type 0 where
    items : List Json
    published : published_leaves (entries_of shares) (leaves_of shares) proofs ≡ ok items
    checked :
        check_leaves W sha256 attester_addr chain_id epoch (word_text root) i start items
        ≡ ok (passed (start + total_wei (entries_of shares)))
    some_item : length items ≡ length shares

  shares-Loop :
      (root : Bytes) (depth i start : ℕ) (shares : List Share) (proofs : List Proof)
      → IsWord root
      → All (IsShare chain_id attester epoch) shares
      → AllLead W.keccak depth root (leaves_of shares) proofs
      → Loop root i start shares proofs
  unfolding published_leaves check_leaves total_wei
  shares-Loop root depth i start [] [] hr h lead = record {
    items = [];
    published = refl;
    checked = ap (λ n. ok (passed n)) (omega arith);
    some_item = refl;
  }
  shares-Loop root depth i start [] (p ∷ proofs) hr h lead = elim lead [ ]
  shares-Loop root depth i start (x ∷ shares) [] hr h lead = elim lead [ ]
  shares-Loop root depth i start (x ∷ shares) (p ∷ proofs) hr (h, hs) (l, ls) =
      let c = claim_of chain_id attester epoch x in
      let rest = shares-Loop root depth (suc i) (start + x.amount) shares proofs hr hs ls in
      let sum : start + x.amount + total_wei (entries_of shares)
          ≡ start + (x.amount + total_wei (entries_of shares)) =
        omega arith in
      record {
        items = obj (entry_fields (entry_of x) (W.keccak (encoding c)) p) ∷ rest.items;
        published = >>=-ok _ rest.published;
        checked =
            >>=-ok _ (
              check_leaf-claim W sha256 encoder d c attester_addr x.address i p root h.claim
                attester_written h.written hr l.words l.path)
            ∙ rest.checked
            ∙ ap (λ n. ok (passed n)) sum;
        some_item = omega (arith, rest.some_item);
      }

  -- The batch that the builder publishes of a non-empty list of shares.
  pub record IsPublished (x : Share) (shares : List Share) : Type 0 where
    pub root : Bytes
    pub proofs : List Proof
    pub first : Json
    pub rest : List Json
    pub built : build_tree W.keccak (leaves_of (x ∷ shares)) ≡ ok (root, proofs)
    pub published :
        batch_of W.keccak (pos chain_id) attester_addr epoch (entries_of (x ∷ shares))
        ≡ ok (document epoch (total_wei (entries_of (x ∷ shares))) root (first ∷ rest))
    pub word : IsWord root
    pub checked :
        check_leaves W sha256 attester_addr chain_id epoch (word_text root) 0 0 (first ∷ rest)
        ≡ ok (passed (total_wei (entries_of (x ∷ shares))))

  published_of_items :
      (x : Share) (shares : List Share) (root : Bytes) (proofs : List Proof) (items : List Json)
      → All (IsShare chain_id attester epoch) (x ∷ shares)
      → build_tree W.keccak (leaves_of (x ∷ shares)) ≡ ok (root, proofs)
      → IsWord root
      → published_leaves (entries_of (x ∷ shares)) (leaves_of (x ∷ shares)) proofs ≡ ok items
      → check_leaves W sha256 attester_addr chain_id epoch (word_text root) 0 0 items
        ≡ ok (passed (0 + total_wei (entries_of (x ∷ shares))))
      → length items ≡ length (x ∷ shares)
      → IsPublished x shares
  unfolding batch_of
  published_of_items x shares root proofs [] valid built word published checked size =
      absurd (omega arith)
  published_of_items x shares root proofs (first ∷ rest) valid built word published checked size =
      let total : 0 + total_wei (entries_of (x ∷ shares)) ≡ total_wei (entries_of (x ∷ shares)) =
        omega arith in
      record {
        root = root;
        proofs = proofs;
        first = first;
        rest = rest;
        built = built;
        published = >>=-ok _ (leaf_hashes (x ∷ shares) valid) ∙ >>=-ok _ built ∙ >>=-ok _ published;
        word = word;
        checked = checked ∙ ap (λ n. ok (passed n)) total;
      }

  -- The builder publishes every non-empty list of shares whose claims fit the contract's types, with
  -- the addresses in any mix of cases, eth_abi and web3 as in IsEncoder and a digest of 32 bytes: it
  -- returns a root, proofs and a batch, and the node's loop over the published leaves passes them all
  -- against that root, with the sum of the amounts.
  pub batch_of-IsPublished :
      (x : Share) (shares : List Share)
      → All (IsShare chain_id attester epoch) (x ∷ shares)
      → IsPublished x shares
  batch_of-IsPublished x shares valid =
      let t =
        build_tree-IsTree W.keccak d (W.keccak (encoding (claim_of chain_id attester epoch x)))
          (leaves_of shares) (digests W.keccak d (encodings (x ∷ shares))) in
      let l = shares-Loop t.root t.height 0 0 (x ∷ shares) t.proofs t.word valid t.lead in
      published_of_items x shares t.root t.proofs l.items valid t.returns t.word l.published
        l.checked l.some_item

  -- The batch that is published is accepted, where the chain has its root and its total.
  pub verify_epoch-IsPublished :
      (x : Share) (shares : List Share) (p : IsPublished x shares)
      → (C : Crypto) (o : OnChainBatch) (dir : DataDir) → word_text p.root ≡ word_text o.merkle_root
      → o.timestamp ≢ 0
      → o.finalized ≡ true
      → o.total_kwh ≡ total_wei (entries_of (x ∷ shares))
      → dir.batch_named epoch ≡ absent
      → dir.batch
        ≡ present (
            ok (
              obj (document epoch (total_wei (entries_of (x ∷ shares))) p.root (p.first ∷ p.rest))))
      → dir.attestation ≡ absent
      → dir.pubkey ≡ absent
      → (details : List Detail) × (verify_epoch W sha256 C attester_addr chain_id (ok o) epoch dir
          ≡ ok (all_ok, details))
  verify_epoch-IsPublished x shares p C o dir same_root proposed final total no_name there no_att
        no_pub =
      let verified =
        document_verified W sha256 chain_id attester_addr epoch C p.root
          (total_wei (entries_of (x ∷ shares))) p.first p.rest dir p.word p.checked no_name there
          no_att no_pub in
      let details =
        details_of W sha256 chain_id attester_addr epoch p.root (p.first ∷ p.rest)
          (total_wei (entries_of (x ∷ shares))) in
      let core : verify_finalized_epoch W sha256 C attester_addr chain_id epoch dir
            (word_text o.merkle_root) o.total_kwh
          ≡ ok (all_ok, details) =
        rw (sym same_root, total) verified in
      (
        details,
        verify_epoch-finalized W sha256 C attester_addr chain_id o epoch dir proposed final
            ∙ ap handle core
            ∙ handled (all_ok, details),
      )
    where
      handled : (r : Report) → handle (ok r) ≡ ok r
      handled r = unfold handle in refl

  -- An honest batch is accepted, with eth_abi and web3 as in IsEncoder and a digest of 32 bytes:
  -- where the builder has made a batch of a non-empty list of shares whose claims fit the
  -- contract's types, with the addresses in any mix of cases, the chain has its root as proposed and final, with the sum of the amounts as
  -- total, and the node finds the batch as batch.json, no batch named for the epoch and no
  -- signature material, `verify_epoch` reports OK.
  pub honest_batch-verified :
      (x : Share) (shares : List Share)
      → All (IsShare chain_id attester epoch) (x ∷ shares)
      → (C : Crypto) (o : OnChainBatch) (dir : DataDir) {batch : Fields} {proofs : List Proof}
      → batch_of W.keccak (pos chain_id) attester_addr epoch (entries_of (x ∷ shares)) ≡ ok batch
      → build_tree W.keccak (leaves_of (x ∷ shares)) ≡ ok (o.merkle_root, proofs)
      → o.timestamp ≢ 0
      → o.finalized ≡ true
      → o.total_kwh ≡ total_wei (entries_of (x ∷ shares))
      → dir.batch_named epoch ≡ absent
      → dir.batch ≡ present (ok (obj batch))
      → dir.attestation ≡ absent
      → dir.pubkey ≡ absent
      → (details : List Detail) × (verify_epoch W sha256 C attester_addr chain_id (ok o) epoch dir
          ≡ ok (all_ok, details))
  honest_batch-verified x shares valid C o dir {batch} published built proposed final total no_name
        there no_att no_pub =
      let p = batch_of-IsPublished x shares valid in
      let same_root : p.root ≡ o.merkle_root =
        ap (λ (t : Bytes × List Proof). t.0) (ok_injective (sym p.built ∙ built)) in
      let same_batch = ok_injective (sym published ∙ p.published) in
      verify_epoch-IsPublished x shares p C o dir (ap word_text same_root) proposed final total
        no_name (there ∙ ap (λ b. present (ok (obj b))) same_batch) no_att no_pub
