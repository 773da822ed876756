-- ===== src/Node/Leaves/Sound.antt =====
-- What the loop over the published leaves (node/verifier_node.py) has checked when it gets through.
use noethrion.Base.{
  ℕ, suc, ◌+◌, ◌≡◌, refl, ap, subst, ◌∙◌, Bool, true, false, Option, some, none, List, [], ◌∷◌,
  arith, if◌then◌else◌, Bool-cases, inl, inr,
}
use noethrion.Base.Int.{ℤ, pos, negsuc}
use noethrion.Python.Result.{ok, >>=-eq-ok}
use noethrion.Python.Bytes.{Bytes, bytes_eq, bytes_eq→eq}
use noethrion.Python.Text.{Text, codes, lower}
use noethrion.Python.Json.{Json, Fields, obj, get}
use noethrion.Python.Number.{int_of}
use noethrion.Tool.Proof.{verify_merkle_proof_impl}
use noethrion.Tool.Proof.Inversion.{Passes, verify_merkle_proof_impl-Passes}
use noethrion.Node.{Web3, Detail}
use noethrion.Node.Leaves.{
  LeafCheck, passed, failed, usable, normalize, array_or_empty, required, raw_amount, nonnegative,
  compute_leaf, check_published, check_leaf, check_leaves,
}

abbrev pub sum : List ℕ → ℕ
sum [] = 0
sum (n ∷ amounts) = n + sum amounts

module _ (W : Web3) (sha256 : Bytes → Bytes) (attester_addr : Text) (chain_id epoch : ℕ)
    (root : Text) where
  -- A published leaf in order, with its amount.
  pub record IsVerified (lf : Json) (amount : ℕ) : Type 0 where
    pub fields : Fields
    pub beneficiary : Json
    pub published_amount : Json
    pub published_leaf : Text
    pub recomputed : Text
    pub proof : List Json
    pub is_object : lf ≡ obj fields
    pub has_beneficiary : get (codes "beneficiary") fields ≡ some beneficiary
    pub has_amount : raw_amount fields ≡ ok published_amount
    pub amount_read : int_of published_amount ≡ ok (pos amount)
    pub leaf_derived :
        compute_leaf W sha256 chain_id attester_addr beneficiary amount epoch ≡ ok recomputed
    pub leaf_published : usable (get (codes "leaf") fields) ≡ ok published_leaf
    pub leaf_matches : lower recomputed ≡ normalize published_leaf
    pub proof_published : array_or_empty (get (codes "proof") fields) ≡ ok proof
    pub proof_passes : Passes sha256 W.keccak recomputed proof root

  required-eq-ok : (o : Option Json) {j : Json} → required o ≡ ok j → o ≡ some j
  unfolding required
  required-eq-ok none h = cc
  required-eq-ok (some j) h = cc

  nonnegative-eq-ok : (z : ℤ) {n : ℕ} → nonnegative z ≡ ok n → z ≡ pos n
  unfolding nonnegative
  nonnegative-eq-ok (pos n) h = cc
  nonnegative-eq-ok (negsuc n) h = cc

  -- The second half of the loop's body.
  record IsPublished (d : Fields) (recomputed : Text) : Type 0 where
    published_leaf : Text
    proof : List Json
    leaf_published : usable (get (codes "leaf") d) ≡ ok published_leaf
    leaf_matches : lower recomputed ≡ normalize published_leaf
    proof_published : array_or_empty (get (codes "proof") d) ≡ ok proof
    proof_passes : Passes sha256 W.keccak recomputed proof root

  verdict_passed :
      (fine : Bool) (amount : ℕ) (alarm : Detail) {n : ℕ}
      → (if fine then ok (passed amount) else ok (failed alarm)) ≡ ok (passed n)
      → (fine ≡ true) × (amount ≡ n)
  verdict_passed true amount alarm h = (refl, cc)
  verdict_passed false amount alarm h = cc

  check_published-passed :
      (i : ℕ) (d : Fields) (amount : ℕ) (recomputed : Text) {n : ℕ}
      → check_published W sha256 attester_addr chain_id epoch root i d amount recomputed
        ≡ ok (passed n)
      → IsPublished d recomputed × (amount ≡ n)
  unfolding check_published
  check_published-passed i d amount recomputed {n} h =
      let (claimed, hu, h₁) = >>=-eq-ok (usable (get (codes "leaf") d)) _ h in
      elim (Bool-cases (bytes_eq (lower recomputed) (normalize claimed))) [
        | inl e ↦
            let (proof, hp, h₂) =
              >>=-eq-ok (array_or_empty (get (codes "proof") d)) _ (rw e at h₁) in
            let ((fine, m), hv, h₃) =
              >>=-eq-ok
                (verify_merkle_proof_impl sha256 W.keccak recomputed proof root (codes "keccak256"))
                _ h₂ in
            let (is_fine, same) = verdict_passed fine amount _ h₃ in
            (
              record {
                published_leaf = claimed;
                proof = proof;
                leaf_published = hu;
                leaf_matches = bytes_eq→eq _ _ e;
                proof_published = hp;
                proof_passes =
                    verify_merkle_proof_impl-Passes sha256 W.keccak recomputed proof root
                      (hv ∙ ap (λ b. ok (b, m)) is_fine);
              },
              same,
            )
        | inr e ↦ cc (rw e at h₁)
      ]

  check_leaf-passed :
      (i : ℕ) (lf : Json) {n : ℕ}
      → check_leaf W sha256 attester_addr chain_id epoch root i lf ≡ ok (passed n)
      → IsVerified lf n
  unfolding check_leaf
  check_leaf-passed i (obj d) {n} h =
      let (beneficiary, hb, h₁) = >>=-eq-ok (required (get (codes "beneficiary") d)) _ h in
      let (raw, hr, h₂) = >>=-eq-ok (raw_amount d) _ h₁ in
      let (signed, hs, h₃) = >>=-eq-ok (int_of raw) _ h₂ in
      let (amount, ha, h₄) = >>=-eq-ok (nonnegative signed) _ h₃ in
      let (recomputed, hc, h₅) =
        >>=-eq-ok (compute_leaf W sha256 chain_id attester_addr beneficiary amount epoch) _ h₄ in
      let (v, same) = check_published-passed i d amount recomputed h₅ in
      record {
        fields = d;
        beneficiary = beneficiary;
        published_amount = raw;
        published_leaf = v.published_leaf;
        recomputed = recomputed;
        proof = v.proof;
        is_object = refl;
        has_beneficiary = required-eq-ok _ hb;
        has_amount = hr;
        amount_read = hs ∙ ap ok (nonnegative-eq-ok signed ha ∙ ap pos same);
        leaf_derived =
            subst
              (λ k.
                compute_leaf W sha256 chain_id attester_addr beneficiary k epoch ≡ ok recomputed)
              same hc;
        leaf_published = v.leaf_published;
        leaf_matches = v.leaf_matches;
        proof_published = v.proof_published;
        proof_passes = v.proof_passes;
      }
  check_leaf-passed i _ h = cc

  -- All leaves in order, with their amounts.
  abbrev pub AllVerified : List Json → List ℕ → Type 0
  AllVerified [] [] = Unit
  AllVerified (lf ∷ leaves) (n ∷ amounts) = IsVerified lf n × AllVerified leaves amounts
  AllVerified _ _ = ⊥

  pub check_leaves-passed :
      (i start : ℕ) (leaves : List Json) {total : ℕ}
      → check_leaves W sha256 attester_addr chain_id epoch root i start leaves ≡ ok (passed total)
      → (amounts : List ℕ) × AllVerified leaves amounts × (start + sum amounts ≡ total)
  unfolding check_leaves
  check_leaves-passed i start [] {total} h = let same : start ≡ total = cc in ([], tt, omega arith)
  check_leaves-passed i start (lf ∷ leaves) {total} h =
      let (r, hr, h₁) =
        >>=-eq-ok (check_leaf W sha256 attester_addr chain_id epoch root i lf) _ h in
      go r hr h₁ (λ n k. check_leaves-passed (suc i) (start + n) leaves k)
    where
      go :
          (r : LeafCheck)
          → check_leaf W sha256 attester_addr chain_id epoch root i lf ≡ ok r
          → (elim r [
            | passed amount ↦
                check_leaves W sha256 attester_addr chain_id epoch root
                  (suc i)
                  (start + amount)
                  leaves
            | failed detail ↦ ok (failed detail)
          ])
            ≡ ok (passed total)
          → ((n : ℕ)
              → check_leaves W sha256 attester_addr chain_id epoch root (suc i) (start + n) leaves
                ≡ ok (passed total)
              → (amounts : List ℕ) × AllVerified leaves amounts × (start + n + sum amounts ≡ total))
          → (amounts : List ℕ) × AllVerified (lf ∷ leaves) amounts × (start + sum amounts ≡ total)
      go (passed n) hr h₁ rest =
          let (amounts, all, total_eq) = rest n h₁ in
          (n ∷ amounts, (check_leaf-passed i lf hr, all), omega arith)
      go (failed detail) hr h₁ rest = cc
