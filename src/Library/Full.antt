-- ===== src/Library/Full.antt =====
-- `verify` of examples/integrators/python_verifier_library.py against `verify-full` of
-- tools/verify_attestation.py.
use noethrion.Base.{◌≡◌, refl, sym, ap, subst, ◌∙◌, Bool, true, map, All, Bool-cases, inl, inr}
use noethrion.Base.Int.{pos}
use noethrion.Python.Result.{
  Result, ok, raise, value_error, guard, guard-eq-ok, >>=-ok, >>=-eq-ok, ok_injective,
}
use noethrion.Python.Bytes.{Bytes}
use noethrion.Python.Text.{Text, codes}
use noethrion.Python.Split.{join}
use noethrion.Python.Json.{Json, Fields}
use noethrion.Crypto.{Crypto}
use noethrion.Leaf.Encoding.{Claim, IsClaim, encoding, address_text, compute_leaf-encoding}
use noethrion.Merkle.{Proof}
use noethrion.Merkle.Replay.{IsWord, IsDigest}
use noethrion.Tool.Proof.Verdict.{word_text}
use noethrion.Tool.Signature as Tool
use noethrion.Tool.Signature.{SignatureMessage, load_attestation, load_pubkey}
use noethrion.Tool.Commands.{cmd_verify_signature, cmd_verify_merkle, cmd_verify_full, exit_status}
use noethrion.Tool.Commands.Argument.{proof_argument-join}
use noethrion.Library.{VerificationResult, init, verify_signature, verify_merkle, verify}
use noethrion.Library.Inclusion.{verify_merkle-tool}
use noethrion.Library.Signature.{Agrees, verify_signature-Agrees}

module _ (C : Crypto) where
  -- The key of a verifier that could be made is one that the tool loads from the same file.
  init-load_pubkey :
      (pem : Bytes) {key : C.Key} → init C pem ≡ ok key → load_pubkey C (ok pem) ≡ ok key
  unfolding init load_pubkey
  init-load_pubkey pem h =
      let (k, loaded, h₁) = >>=-eq-ok (C.load_pem_public_key pem) _ h in
      let (_, ec, h₂) = >>=-eq-ok (guard (C.is_ec k) value_error) _ h₁ in
      let (_, p256, h₃) = >>=-eq-ok (guard (C.is_p256 k) value_error) _ h₂ in
      rw
        (loaded, guard-eq-ok (C.is_ec k) value_error ec, guard-eq-ok (C.is_p256 k) value_error p256)
        h₃

  -- A signature that the library verifies the tool verifies.
  verified-tool :
      (key : C.Key) (att : Fields) {r : VerificationResult}
      → verify_signature C key att ≡ ok r
      → r.verified ≡ true
      → (m : SignatureMessage) × (Tool.verify_signature C att key ≡ ok (true, m))
  verified-tool key att {r} h t =
      go (Tool.verify_signature C att key) refl
        (subst (Agrees (Tool.verify_signature C att key)) h (verify_signature-Agrees C key att))
    where
      go :
          (x : Result (Bool × SignatureMessage))
          → Tool.verify_signature C att key ≡ x
          → Agrees x (ok r)
          → (m : SignatureMessage) × (Tool.verify_signature C att key ≡ ok (true, m))
      go (ok (fine, m)) e a = (m, e ∙ ap (λ b. ok (b, m)) (sym a ∙ t))
      go (raise x) e a = cc (a.1, t)

module _ (sha256 keccak256 : Bytes → Bytes) (C : Crypto) where
  -- Both halves of an acceptance by `verify`.
  record BothVerified (key : C.Key) (att : Fields) (root : Bytes) (p : Proof) (q : Claim)
      : Type 0 where
    sig : VerificationResult
    inclusion : VerificationResult
    sig_answer : verify_signature C key att ≡ ok sig
    sig_good : sig.verified ≡ true
    inclusion_answer :
        verify_merkle keccak256
          (pos q.chain_id)
          (address_text q.attester)
          (address_text q.beneficiary)
          (pos q.amount)
          (pos q.epoch)
          p
          root
        ≡ ok inclusion
    inclusion_good : inclusion.verified ≡ true

  verify-BothVerified :
      (key : C.Key) (att : Fields) (root : Bytes) (p : Proof) (q : Claim) {r : VerificationResult}
      → verify C keccak256 key att root p
          (pos q.chain_id)
          (address_text q.attester)
          (address_text q.beneficiary)
          (pos q.amount)
          (pos q.epoch)
        ≡ ok r
      → r.verified ≡ true
      → BothVerified key att root p q
  unfolding verify
  verify-BothVerified key att root p q {r} h t =
      let (sig, hs, h₁) = >>=-eq-ok (verify_signature C key att) _ h in
      elim (Bool-cases sig.verified) [
        | inl good ↦ record {
          sig = sig;
          inclusion = r;
          sig_answer = hs;
          sig_good = good;
          inclusion_answer = rw good at h₁;
          inclusion_good = t;
        }
        | inr bad ↦
            let same : sig ≡ r = ok_injective (rw bad at h₁) in
            cc (bad, t, ap (λ (v : VerificationResult). v.verified) same)
      ]

  signature_zero :
      (attestation : Result Json) (pem : Bytes) (att : Fields) {key : C.Key}
      {r : VerificationResult}
      → load_attestation attestation ≡ ok att
      → init C pem ≡ ok key
      → verify_signature C key att ≡ ok r
      → r.verified ≡ true
      → cmd_verify_signature C attestation (ok pem) ≡ ok 0
  unfolding cmd_verify_signature
  signature_zero attestation pem att {key} loaded made h t =
      let (m, good) = verified-tool C key att h t in
      >>=-ok _ loaded ∙ >>=-ok _ (init-load_pubkey C pem made) ∙ >>=-ok _ good

  inclusion_zero :
      IsDigest keccak256
      → (read : Text → Result Json) (root : Bytes) (p : Proof) (q : Claim) {r : VerificationResult}
      → IsWord root
      → All IsWord p
      → IsClaim q
      → verify_merkle keccak256
          (pos q.chain_id)
          (address_text q.attester)
          (address_text q.beneficiary)
          (pos q.amount)
          (pos q.epoch)
          p
          root
        ≡ ok r
      → r.verified ≡ true
      → cmd_verify_merkle sha256 keccak256 read
          (word_text (keccak256 (encoding q)))
          (join b',' (map word_text p))
          (word_text root)
          (codes "keccak256")
        ≡ ok 0
  unfolding cmd_verify_merkle
  inclusion_zero d read root p q {r} hr hp hq h t =
      let leaf = keccak256 (encoding q) in
      let (r', m, library, tool) =
        verify_merkle-tool sha256 keccak256 (pos q.chain_id) (address_text q.attester)
          (address_text q.beneficiary) (pos q.amount) (pos q.epoch) p root leaf
          (compute_leaf-encoding keccak256 q hq) (d.word (encoding q)) hr hp in
      let good : r'.verified ≡ true =
        ap (λ (v : VerificationResult). v.verified) (ok_injective (sym library ∙ h)) ∙ t in
      >>=-ok _ (proof_argument-join read p hp) ∙ >>=-ok _ (tool ∙ ap (λ b. ok (b, m)) good)

  -- What the library accepts the tool accepts: with a digest of 32 bytes, a claim within the contract's
  -- widths, a root and siblings of 32 bytes, and an attestation that the tool loads, where `verify`
  -- of a verifier made from a key file accepts, `verify-full` ends with status 0 on the same files
  -- and on the claim's leaf, the root and the siblings as texts.
  pub verify-cmd_verify_full :
      IsDigest keccak256
      → (read : Text → Result Json) (attestation : Result Json) (pem : Bytes) (att : Fields)
        {key : C.Key}
      → load_attestation attestation ≡ ok att
      → init C pem ≡ ok key
      → (root : Bytes) (p : Proof) (q : Claim) → IsWord root
      → All IsWord p
      → IsClaim q
      → {r : VerificationResult}
      → verify C keccak256 key att root p
          (pos q.chain_id)
          (address_text q.attester)
          (address_text q.beneficiary)
          (pos q.amount)
          (pos q.epoch)
        ≡ ok r
      → r.verified ≡ true
      → exit_status (
          cmd_verify_full sha256 keccak256 C attestation
            (ok pem)
            read
            (word_text (keccak256 (encoding q)))
            (join b',' (map word_text p))
            (word_text root)
            (codes "keccak256"))
        ≡ 0
  unfolding cmd_verify_full exit_status
  verify-cmd_verify_full d read attestation pem att {key} loaded made root p q hr hp hq {r} h t =
      let b = verify-BothVerified key att root p q h t in
      ap exit_status (
        >>=-ok _ (signature_zero attestation pem att loaded made b.sig_answer b.sig_good)
        ∙ inclusion_zero d read root p q hr hp hq b.inclusion_answer b.inclusion_good)
