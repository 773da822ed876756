-- ===== src/Node/Epoch/Committed.antt =====
-- From the chain's root to the published leaves: where `verify_epoch` (node/verifier_node.py) reports
-- OK, the leaves are claims of the batch whose root is on the chain.
use mathlib.Core.List.{Memᴰ as MemD}
use noethrion.Base.{ℕ, ◌≡◌, refl, sym, ap, subst, ◌∙◌, ◌⊎◌, List, [], ◌∷◌, map, All}
use noethrion.Python.Result.{ok, ok_injective}
use noethrion.Python.Bytes.{Bytes}
use noethrion.Python.Text.{Text}
use noethrion.Python.Json.{Json, str}
use noethrion.Leaf.Encoding.{Claim, IsClaim, encoding}
use noethrion.Merkle.{Proof, build_tree}
use noethrion.Merkle.Replay.{IsWord, IsDigest, Collision, replay}
use noethrion.Merkle.Path.{Hashed}
use noethrion.Merkle.Claims.{replay-claims, root-IsWord}
use noethrion.Tool.Proof.{to_word}
use noethrion.Tool.Proof.Verdict.{word_text, to_word-word_json}
use noethrion.Tool.Proof.Inversion.{traverse-Is32}
use noethrion.Crypto.{Crypto}
use noethrion.Node.{Web3, OnChainBatch, DataDir, Detail, all_ok}
use noethrion.Node.Abi.{IsAbi, LeafOf, compute_leaf-LeafOf}
use noethrion.Node.Leaves.Sound.{IsVerified, AllVerified}
use noethrion.Node.Epoch.{verify_epoch}
use noethrion.Node.Epoch.Sound.{IsReconciled, verify_epoch-IsReconciled}

-- A text that was read as a word is the word that it shows.
word_read :
    (w : Bytes) {t : Text} {v : Bytes} → IsWord w → t ≡ word_text w → to_word (str t) ≡ ok v → v ≡ w
word_read w h e r =
    ok_injective (sym (ap (λ s. to_word (str s)) (sym e) ∙ r) ∙ to_word-word_json w h)

module _ (W : Web3) (sha256 : Bytes → Bytes) (abi : IsAbi W) (d : IsDigest W.keccak)
    (attester_addr : Text) (chain_id epoch : ℕ) where
  -- A verified leaf is one of the claims, with the beneficiary and the amount that are published and
  -- the node's chain, attester and epoch; or inputs that were hashed for the claims and for the proof
  -- of this leaf collide.
  pub record IsCommitted (claims : List Claim) (root : Bytes) (lf : Json) (amount : ℕ)
      : Type 0 where
    pub verified : IsVerified W sha256 attester_addr chain_id epoch (word_text root) lf amount
    pub leaf :
        LeafOf W sha256 abi chain_id attester_addr verified.beneficiary amount epoch
          verified.recomputed
    pub member :
        MemD leaf.claim claims
        ⊎ Collision W.keccak (
            Hashed W.keccak (map encoding claims) (encoding leaf.claim) verified.proof_passes.proof)

  pub IsVerified-IsCommitted :
      (c : Claim) (claims : List Claim) {root : Bytes} {proofs : List Proof}
      → All IsClaim (c ∷ claims)
      → build_tree W.keccak (map W.keccak (map encoding (c ∷ claims))) ≡ ok (root, proofs)
      → (lf : Json) (amount : ℕ)
      → IsVerified W sha256 attester_addr chain_id epoch (word_text root) lf amount
      → IsCommitted (c ∷ claims) root lf amount
  IsVerified-IsCommitted c claims {root} valid built lf amount v =
      let leaf =
        compute_leaf-LeafOf W sha256 abi d chain_id attester_addr v.beneficiary amount epoch
          v.leaf_derived in
      let pass = v.proof_passes in
      let start =
        word_read (W.keccak (encoding leaf.claim)) (d.word (encoding leaf.claim)) leaf.text
          pass.leaf_read in
      let top = word_read root (root-IsWord W.keccak d c claims built) refl pass.root_read in
      let path = ap (λ x. replay W.keccak x pass.proof) (sym start) ∙ pass.path ∙ top in
      record {
        verified = v;
        leaf = leaf;
        member =
            replay-claims W.keccak d c claims valid built leaf.claim pass.proof leaf.valid
              (traverse-Is32 v.proof pass.proof_read) path;
      }

  abbrev pub AllCommitted : List Claim → Bytes → List Json → List ℕ → Type 0
  AllCommitted claims root [] [] = Unit
  AllCommitted claims root (lf ∷ leaves) (n ∷ amounts) =
      IsCommitted claims root lf n × AllCommitted claims root leaves amounts
  AllCommitted claims root _ _ = ⊥

  AllVerified-AllCommitted :
      (c : Claim) (claims : List Claim) {root : Bytes} {proofs : List Proof}
      → All IsClaim (c ∷ claims)
      → build_tree W.keccak (map W.keccak (map encoding (c ∷ claims))) ≡ ok (root, proofs)
      → (leaves : List Json) (amounts : List ℕ)
      → AllVerified W sha256 attester_addr chain_id epoch (word_text root) leaves amounts
      → AllCommitted (c ∷ claims) root leaves amounts
  AllVerified-AllCommitted c claims valid built [] [] h = tt
  AllVerified-AllCommitted c claims valid built [] (n ∷ amounts) h = elim h [ ]
  AllVerified-AllCommitted c claims valid built (lf ∷ leaves) [] h = elim h [ ]
  AllVerified-AllCommitted c claims valid built (lf ∷ leaves) (n ∷ amounts) h = (
    IsVerified-IsCommitted c claims valid built lf n h.0,
    AllVerified-AllCommitted c claims valid built leaves amounts h.1,
  )

  -- With eth_abi as the contract has it and a digest of 32 bytes: where `verify_epoch` reports OK for a
  -- root that the builder made of some claims, the batch is reconciled, and each published leaf is one
  -- of these claims, with its beneficiary and amount and for the node's chain, attester and epoch, or
  -- inputs hashed for the batch and for the proof of this leaf collide.
  pub verify_epoch-AllCommitted :
      (C : Crypto) (b : OnChainBatch) (data_dir : DataDir) {details : List Detail}
      → (c : Claim) (claims : List Claim) {proofs : List Proof} → All IsClaim (c ∷ claims)
      → build_tree W.keccak (map W.keccak (map encoding (c ∷ claims))) ≡ ok (b.merkle_root, proofs)
      → verify_epoch W sha256 C attester_addr chain_id (ok b) epoch data_dir ≡ ok (all_ok, details)
      → (r : IsReconciled W sha256 C attester_addr chain_id epoch data_dir b) × AllCommitted
          (c ∷ claims)
          b.merkle_root
          r.leaves
          r.amounts
  verify_epoch-AllCommitted C b data_dir c claims valid built h =
      let (b', same, _, _, r') =
        verify_epoch-IsReconciled W sha256 C attester_addr chain_id (ok b) epoch data_dir h in
      let r =
        subst (IsReconciled W sha256 C attester_addr chain_id epoch data_dir)
          (sym (ok_injective same)) r' in
      (r, AllVerified-AllCommitted c claims valid built r.leaves r.amounts r.leaves_verified)
