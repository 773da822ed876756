-- ===== src/Node/Leaves/Complete.antt =====
-- Published leaves in order pass the loop of node/verifier_node.py.
use noethrion.Base.{ℕ, suc, ◌+◌, ◌≡◌, ap, ◌∙◌, true, List, [], ◌∷◌, arith}
use noethrion.Python.Result.{ok, >>=-ok}
use noethrion.Python.Bytes.{Bytes, bytes_eq, bytes_eq_refl}
use noethrion.Python.Text.{Text, codes, lower}
use noethrion.Python.Json.{Json, get}
use noethrion.Tool.Proof.Inversion.{Passes-verify_merkle_proof_impl}
use noethrion.Node.{Web3}
use noethrion.Node.Leaves.{
  passed, normalize, required, nonnegative, check_published, check_leaf, check_leaves,
}
use noethrion.Node.Leaves.Sound.{sum, IsVerified, AllVerified}

module _ (W : Web3) (sha256 : Bytes → Bytes) (attester_addr : Text) (chain_id epoch : ℕ)
    (root : Text) where
  IsVerified-check_published :
      (i : ℕ) (lf : Json) (amount : ℕ)
      → (v : IsVerified W sha256 attester_addr chain_id epoch root lf amount)
      → check_published W sha256 attester_addr chain_id epoch root i v.fields amount v.recomputed
        ≡ ok (passed amount)
  unfolding check_published
  IsVerified-check_published i lf amount v =
      let same : bytes_eq (lower v.recomputed) (normalize v.published_leaf) ≡ true =
        rw v.leaf_matches (bytes_eq_refl (normalize v.published_leaf)) in
      >>=-ok _ v.leaf_published
      ∙ rw same (
          >>=-ok _ v.proof_published
          ∙ >>=-ok _ (
              Passes-verify_merkle_proof_impl sha256 W.keccak v.recomputed v.proof root
                v.proof_passes))

  IsVerified-check_leaf :
      (i : ℕ) (lf : Json) (amount : ℕ)
      → IsVerified W sha256 attester_addr chain_id epoch root lf amount
      → check_leaf W sha256 attester_addr chain_id epoch root i lf ≡ ok (passed amount)
  unfolding check_leaf required nonnegative
  IsVerified-check_leaf i lf amount v =
      let has_beneficiary : required (get (codes "beneficiary") v.fields) ≡ ok v.beneficiary =
        ap required v.has_beneficiary in
      rw v.is_object (
        >>=-ok _ has_beneficiary
        ∙ >>=-ok _ v.has_amount
        ∙ >>=-ok _ v.amount_read
        ∙ >>=-ok _ v.leaf_derived
        ∙ IsVerified-check_published i lf amount v)

  -- The loop ends with the sum of the amounts.
  pub AllVerified-check_leaves :
      (i start : ℕ) (leaves : List Json) (amounts : List ℕ)
      → AllVerified W sha256 attester_addr chain_id epoch root leaves amounts
      → check_leaves W sha256 attester_addr chain_id epoch root i start leaves
        ≡ ok (passed (start + sum amounts))
  unfolding check_leaves
  AllVerified-check_leaves i start [] [] h = ap (λ n. ok (passed n)) (omega arith)
  AllVerified-check_leaves i start [] (n ∷ amounts) h = elim h [ ]
  AllVerified-check_leaves i start (lf ∷ leaves) [] h = elim h [ ]
  AllVerified-check_leaves i start (lf ∷ leaves) (n ∷ amounts) (v, h) =
      >>=-ok _ (IsVerified-check_leaf i lf n v)
      ∙ AllVerified-check_leaves (suc i) (start + n) leaves amounts h
      ∙ ap (λ m. ok (passed m)) (omega arith)
