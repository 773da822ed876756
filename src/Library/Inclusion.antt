-- ===== src/Library/Inclusion.antt =====
-- `verify_merkle` of examples/integrators/python_verifier_library.py: what it accepts, and that it
-- agrees with the tool.
use mathlib.Core.List.{Memᴰ as MemD}
use noethrion.Base.{
  ◌≡◌, refl, sym, ap, ◌∙◌, Bool, true, false, ◌⊎◌, inl, inr, List, [], ◌∷◌, map, arith, ◌==◌,
  if◌then◌else◌, length, All, Bool-cases,
}
use noethrion.Base.Int.{ℤ, pos}
use noethrion.Python.Result.{Result, ok, >>=-eq-ok, ok_injective}
use noethrion.Python.Bytes.{Bytes, bytes_eq, bytes_eq→eq}
use noethrion.Python.Text.{Text, codes}
use noethrion.Leaf.{compute_leaf}
use noethrion.Leaf.Encoding.{Claim, IsClaim, encoding, address_text, compute_leaf-encoding}
use noethrion.Merkle
use noethrion.Merkle.{Proof, build_tree}
use noethrion.Merkle.Pairs.{Is32}
use noethrion.Merkle.Replay.{IsWord, IsDigest, Collision, replay}
use noethrion.Merkle.Path.{Hashed}
use noethrion.Merkle.Claims.{replay-claims}
use noethrion.Tool.Proof.{ProofMessage, verify_merkle_proof_impl}
use noethrion.Tool.Proof.Verdict.{word_text, word_json, verify_merkle_proof_impl-replay, answer}
use noethrion.Library.{
  VerificationResult, Reason, inclusion_ok, root_mismatch, hash_pair, check_proof, verify_merkle,
}

module _ (keccak256 : Bytes → Bytes) where
  hash_pair-eq : (a b : Bytes) → hash_pair keccak256 a b ≡ Merkle.hash_pair keccak256 a b
  unfolding hash_pair Merkle.hash_pair
  hash_pair-eq a b = refl

  -- The loop accepts exactly where all siblings have 32 bytes and the replay ends at the root.
  check_proof-true :
      (x root : Bytes) (p : Proof)
      → (check_proof keccak256 x p root).verified ≡ true
      → All Is32 p × (replay keccak256 x p ≡ root)
  unfolding check_proof replay
  check_proof-true x root [] h = (tt, bytes_eq→eq x root (ground arith))
  check_proof-true x root (s ∷ p) h = elim (Bool-cases (length s == 32)) [
    | inl e ↦
        let (sizes, path) = check_proof-true (hash_pair keccak256 x s) root p (rw e at h) in
        ((ground arith, sizes), rw hash_pair-eq at path)
    | inr e ↦ cc (rw e at h)
  ]

  check_proof-replay :
      (x root : Bytes) (p : Proof)
      → All Is32 p
      → check_proof keccak256 x p root ≡ (
          if bytes_eq (replay keccak256 x p) root
          then record { verified = true; reason = inclusion_ok }
          else record { verified = false; reason = root_mismatch (replay keccak256 x p) root })
  unfolding check_proof replay
  check_proof-replay x root [] h = refl
  check_proof-replay x root (s ∷ p) (hs, hp) =
      let whole : (length s == 32) ≡ true = ground arith in
      rw (whole, hash_pair-eq) (check_proof-replay (Merkle.hash_pair keccak256 x s) root p hp)

  -- What the library has checked when it accepts.
  pub record Accepted (leaf : Result Bytes) (p : Proof) (root : Bytes) : Type 0 where
    pub hash : Bytes
    pub computed : leaf ≡ ok hash
    pub sizes : All Is32 p
    pub path : replay keccak256 hash p ≡ root

  -- Where the library accepts, the claim has a leaf, all siblings have 32 bytes and the replay of the
  -- proof from the leaf ends at the root.
  pub verify_merkle-Accepted :
      (chain_id : ℤ) (attester beneficiary : Text) (amount epoch : ℤ) (p : Proof) (root : Bytes)
      {r : VerificationResult}
      → verify_merkle keccak256 chain_id attester beneficiary amount epoch p root ≡ ok r
      → r.verified ≡ true
      → Accepted (compute_leaf keccak256 chain_id attester beneficiary amount epoch) p root
  unfolding verify_merkle
  verify_merkle-Accepted chain_id attester beneficiary amount epoch p root {r} h t =
      elim (Bool-cases (length root == 32)) [
        | inl e ↦
            let (hash, computed, q) =
              >>=-eq-ok (compute_leaf keccak256 chain_id attester beneficiary amount epoch) _
                (rw e at h) in
            let (sizes, path) = check_proof-true hash root p (accepted q t) in
            record { hash = hash; computed = computed; sizes = sizes; path = path }
        | inr e ↦ cc (refused (rw e at h) t)
      ]
    where
      accepted : {v : VerificationResult} → ok v ≡ ok r → r.verified ≡ true → v.verified ≡ true
      accepted q t = ground arith

      refused :
          {reason : Reason}
          → ok (record { verified = false; reason = reason }) ≡ ok r
          → r.verified ≡ true
          → false ≡ true
      refused q t = ground arith

  -- Inclusion is sound, for a digest of 32 bytes and claims within the contract's widths: against the
  -- root that the builder made of some claims, the library accepts no
  -- other claim (of any chain, attester, beneficiary, amount or epoch), whatever the proof, or two of
  -- the inputs that the builder and this check have hashed collide.
  pub verify_merkle_sound :
      IsDigest keccak256
      → (c : Claim) (claims : List Claim) {root : Bytes} {proofs : List Proof}
      → All IsClaim (c ∷ claims)
      → build_tree keccak256 (map keccak256 (map encoding (c ∷ claims))) ≡ ok (root, proofs)
      → (q : Claim) (p : Proof) {r : VerificationResult} → IsClaim q
      → verify_merkle keccak256
          (pos q.chain_id)
          (address_text q.attester)
          (address_text q.beneficiary)
          (pos q.amount)
          (pos q.epoch)
          p
          root
        ≡ ok r
      → r.verified ≡ true
      → MemD q (c ∷ claims)
        ⊎ Collision keccak256 (Hashed keccak256 (map encoding (c ∷ claims)) (encoding q) p)
  verify_merkle_sound d c claims {root} valid built q p v accepted t =
      let a = verify_merkle-Accepted _ _ _ _ _ p root accepted t in
      let same : a.hash ≡ keccak256 (encoding q) =
        ok_injective (sym a.computed ∙ compute_leaf-encoding keccak256 q v) in
      replay-claims keccak256 d c claims valid built q p v a.sizes (rw same at a.path)

  verified-check_proof :
      (x root : Bytes) (p : Proof)
      → All Is32 p
      → (check_proof keccak256 x p root).verified ≡ bytes_eq (replay keccak256 x p) root
  verified-check_proof x root p h =
      ap (λ (v : VerificationResult). v.verified) (check_proof-replay x root p h)
      ∙ verified_if (bytes_eq (replay keccak256 x p) root) _ _
    where
      verified_if :
          (b : Bool) (yea nay : Reason)
          → (λ (v : VerificationResult). v.verified)
              (if b
                then record { verified = true; reason = yea }
                else record { verified = false; reason = nay })
            ≡ b
      verified_if true yea nay = refl
      verified_if false yea nay = refl

sizes_of : (p : Proof) → All IsWord p → All Is32 p
sizes_of [] h = tt
sizes_of (s ∷ p) h = (h.0.0, sizes_of p h.1)

module _ (sha256 keccak256 : Bytes → Bytes) where
  -- Where the library computes a leaf for the claim, and leaf, root and siblings have 32 bytes
  -- each, the library and the tool both answer, with the same verdict.
  pub verify_merkle-tool :
      (chain_id : ℤ) (attester beneficiary : Text) (amount epoch : ℤ) (p : Proof)
      (root leaf : Bytes)
      → compute_leaf keccak256 chain_id attester beneficiary amount epoch ≡ ok leaf
      → IsWord leaf
      → IsWord root
      → All IsWord p
      → (r : VerificationResult) × (m : ProofMessage) × (verify_merkle keccak256 chain_id attester
            beneficiary amount epoch p root
          ≡ ok r)
        × (verify_merkle_proof_impl sha256 keccak256
              (word_text leaf)
              (map word_json p)
              (word_text root)
              (codes "keccak256")
            ≡ ok (r.verified, m))
  unfolding verify_merkle
  verify_merkle-tool chain_id attester beneficiary amount epoch p root leaf e hl hr hp =
      let whole : (length root == 32) ≡ true = ground (arith, hr.0) in
      let out = check_proof keccak256 leaf p root in
      let message = (answer sha256 keccak256 (replay keccak256 leaf p) root).1 in
      (
        out,
        message,
        rw (whole, e),
        verify_merkle_proof_impl-replay sha256 keccak256 leaf root p hl hr hp
            ∙ ap (λ b. ok (b, message))
                (sym (verified-check_proof keccak256 leaf root p (sizes_of p hp))),
      )
