-- ===== src/Tool/Commands/Passing.antt =====
-- When a subcommand of tools/verify_attestation.py ends with status 0.
use noethrion.Base.{
  ℕ, ◌≡◌, refl, ap, ◌∙◌, Bool, true, false, List, [], ◌∷◌, map, arith, ◌==◌, if◌then◌else◌, All,
  Bool-cases, inl, inr, ==_iff,
}
use noethrion.Python.Result.{Result, ok, raise, keyboard_interrupt, >>=-eq-ok, ok_injective}
use noethrion.Python.Bytes.{Bytes, bytes_eq_refl}
use noethrion.Python.Text.{Text, codes}
use noethrion.Python.Split.{join}
use noethrion.Python.Json.{Json, Fields}
use noethrion.Crypto.{Crypto}
use noethrion.Merkle.{Proof, build_tree}
use noethrion.Merkle.Replay.{IsWord, IsDigest, replay}
use noethrion.Merkle.Complete.{AllLead, build_tree-IsTree}
use noethrion.Tool.Proof.{ProofMessage, verify_merkle_proof_impl}
use noethrion.Tool.Proof.Verdict.{word_text, verify_merkle_proof_impl-replay}
use noethrion.Tool.Signature.{SignatureMessage, load_attestation, load_pubkey, verify_signature}
use noethrion.Tool.Commands.{
  proof_argument, cmd_verify_signature, cmd_verify_merkle, cmd_verify_full, exit_status,
}
use noethrion.Tool.Commands.Argument.{proof_argument-join}

pub exit_status-zero : (r : Result ℕ) → exit_status r ≡ 0 → r ≡ ok 0
unfolding exit_status
exit_status-zero (ok n) h = ap ok h
exit_status-zero (raise keyboard_interrupt) h = absurd (omega (arith, h))
exit_status-zero (raise _) h = absurd (omega (arith, h))

zero_if_fine : (fine : Bool) → ◌≡◌ {A = Result ℕ} (ok (if fine then 0 else 1)) (ok 0) → fine ≡ true
zero_if_fine true h = refl
zero_if_fine false h = absurd (omega (arith, ok_injective h))

module _ (C : Crypto) where
  -- The attestation and the key were read, and the signature is good.
  pub record Signed (attestation : Result Json) (pubkey : Result Bytes) : Type 0 where
    pub att : Fields
    pub key : C.Key
    pub message : SignatureMessage
    pub attestation_read : load_attestation attestation ≡ ok att
    pub key_read : load_pubkey C pubkey ≡ ok key
    pub good : verify_signature C att key ≡ ok (true, message)

  pub cmd_verify_signature-Signed :
      (attestation : Result Json) (pubkey : Result Bytes)
      → cmd_verify_signature C attestation pubkey ≡ ok 0
      → Signed attestation pubkey
  unfolding cmd_verify_signature
  cmd_verify_signature-Signed attestation pubkey h =
      let (att, ha, h₁) = >>=-eq-ok (load_attestation attestation) _ h in
      let (key, hk, h₂) = >>=-eq-ok (load_pubkey C pubkey) _ h₁ in
      let ((fine, m), hv, h₃) = >>=-eq-ok (verify_signature C att key) _ h₂ in
      record {
        att = att;
        key = key;
        message = m;
        attestation_read = ha;
        key_read = hk;
        good = hv ∙ ap (λ b. ok (b, m)) (zero_if_fine fine h₃);
      }

module _ (sha256 keccak256 : Bytes → Bytes) where
  -- The siblings were read, and the proof is good.
  pub record Proved (read : Text → Result Json) (leaf proof root hash : Text) : Type 0 where
    pub siblings : List Json
    pub message : ProofMessage
    pub proof_read : proof_argument read proof ≡ ok siblings
    pub good :
        verify_merkle_proof_impl sha256 keccak256 leaf siblings root hash ≡ ok (true, message)

  pub cmd_verify_merkle-Proved :
      (read : Text → Result Json) (leaf proof root hash : Text)
      → cmd_verify_merkle sha256 keccak256 read leaf proof root hash ≡ ok 0
      → Proved read leaf proof root hash
  unfolding cmd_verify_merkle
  cmd_verify_merkle-Proved read leaf proof root hash h =
      let (siblings, hp, h₁) = >>=-eq-ok (proof_argument read proof) _ h in
      let ((fine, m), hv, h₂) =
        >>=-eq-ok (verify_merkle_proof_impl sha256 keccak256 leaf siblings root hash) _ h₁ in
      record {
        siblings = siblings;
        message = m;
        proof_read = hp;
        good = hv ∙ ap (λ b. ok (b, m)) (zero_if_fine fine h₂);
      }

  -- `verify-full` ends with status 0 only where the attestation's signature is good and the proof is
  -- good too.
  pub cmd_verify_full-Proved :
      (C : Crypto) (attestation : Result Json) (pubkey : Result Bytes) (read : Text → Result Json)
      (leaf proof root hash : Text)
      → exit_status
          (cmd_verify_full sha256 keccak256 C attestation pubkey read leaf proof root hash)
        ≡ 0
      → Signed C attestation pubkey × Proved read leaf proof root hash
  unfolding cmd_verify_full
  cmd_verify_full-Proved C attestation pubkey read leaf proof root hash h =
      let (rc, hs, h₁) =
        >>=-eq-ok (cmd_verify_signature C attestation pubkey) _ (exit_status-zero _ h) in
      elim (Bool-cases (rc == 0)) [
        | inl e ↦ (
          cmd_verify_signature-Signed C attestation pubkey (hs ∙ ap ok ((==_iff rc 0).0 e)),
          cmd_verify_merkle-Proved read leaf proof root hash (rw e at h₁),
        )
        | inr e ↦ cc (e, (==_iff rc 0).1 (ok_injective (rw e at h₁)))
      ]

  -- `verify-merkle` ends with status 0 for each leaf with its proof.
  abbrev pub AllZero : (Text → Result Json) → Bytes → List Bytes → List Proof → Type 0
  AllZero read root [] [] = Unit
  AllZero read root (l ∷ ls) (p ∷ ps) =
      (exit_status (
          cmd_verify_merkle sha256 keccak256 read (word_text l) (join b',' (map word_text p))
            (word_text root) (codes "keccak256"))
        ≡ 0)
      × AllZero read root ls ps
  AllZero read root _ _ = ⊥

  cmd_verify_merkle-zero :
      (read : Text → Result Json) (root l : Bytes) (p : Proof)
      → IsWord root
      → IsWord l
      → All IsWord p
      → replay keccak256 l p ≡ root
      → exit_status (
          cmd_verify_merkle sha256 keccak256 read
            (word_text l)
            (join b',' (map word_text p))
            (word_text root)
            (codes "keccak256"))
        ≡ 0
  unfolding cmd_verify_merkle exit_status
  cmd_verify_merkle-zero read root l p hr hl hp path = rw (
    proof_argument-join read p hp,
    verify_merkle_proof_impl-replay sha256 keccak256 l root p hl hr hp,
    path,
    bytes_eq_refl root,
  )

  AllLead-AllZero :
      (read : Text → Result Json) (depth : ℕ) (root : Bytes) (leaves : List Bytes)
      (proofs : List Proof)
      → IsWord root
      → All IsWord leaves
      → AllLead keccak256 depth root leaves proofs
      → AllZero read root leaves proofs
  AllLead-AllZero read depth root [] [] hr hl h = tt
  AllLead-AllZero read depth root [] (p ∷ ps) hr hl h = elim h [ ]
  AllLead-AllZero read depth root (l ∷ ls) [] hr hl h = elim h [ ]
  AllLead-AllZero read depth root (l ∷ ls) (p ∷ ps) hr hl h = (
    cmd_verify_merkle-zero read root l p hr hl.0 h.0.words h.0.path,
    AllLead-AllZero read depth root ls ps hr hl.1 h.1,
  )

  -- From the builder to the command line, with a digest of 32 bytes: for every non-empty list of
  -- leaves of 32 bytes the builder returns a root and a proof for each leaf, and `verify-merkle`
  -- with the leaf, the root and the siblings as hexadecimal texts, with commas between them, ends
  -- with status 0.
  pub build_tree-AllZero :
      IsDigest keccak256
      → (read : Text → Result Json) (x : Bytes) (rest : List Bytes) → All IsWord (x ∷ rest)
      → (root : Bytes) × (proofs : List Proof) × (build_tree keccak256 (x ∷ rest)
          ≡ ok (root, proofs))
        × AllZero read root (x ∷ rest) proofs
  build_tree-AllZero d read x rest words =
      let t = build_tree-IsTree keccak256 d x rest words in
      (
        t.root,
        t.proofs,
        t.returns,
        AllLead-AllZero read t.height t.root (x ∷ rest) t.proofs t.word words t.lead,
      )
