-- ===== src/Tool/Proof/Inversion.antt =====
-- What a PASS of `_verify_merkle_proof_impl` (tools/verify_attestation.py) means, on any input.
use noethrion.Base.{
  ℕ, ◌≡◌, sym, ap, subst, ◌∙◌, Bool, true, List, [], ◌∷◌, arith, ◌==◌, length, All,
}
use noethrion.Python.Result.{
  ok, system_exit, traverse, guard, >>=-ok, >>=-eq-ok, ok_injective, value_error_exits,
}
use noethrion.Python.Bytes.{Bytes, bytes_eq, bytes_eq→eq, bytes_eq_refl}
use noethrion.Python.Hex.{fromhex}
use noethrion.Python.Text.{Text, codes, lower, removeprefix_0x}
use noethrion.Python.Json.{Json, str, as_str}
use noethrion.Merkle.{Proof}
use noethrion.Merkle.Pairs.{Is32}
use noethrion.Merkle.Replay.{replay}
use noethrion.Tool.Proof.{
  ProofMessage, proof_ok, fold_proof, to_word, hash_of, verify_merkle_proof_impl,
}
use noethrion.Tool.Proof.Verdict.{fold_proof-replay}

-- Whatever is read as a word has 32 bytes.
pub to_word-Is32 : (j : Json) {w : Bytes} → to_word j ≡ ok w → Is32 w
unfolding to_word
to_word-Is32 j {w} h =
    let (s, _, h₁) = >>=-eq-ok (as_str j) _ h in
    let (b, _, h₂) = >>=-eq-ok (value_error_exits (fromhex (removeprefix_0x (lower s)))) _ h₁ in
    let (_, sized, h₃) = >>=-eq-ok (guard (length b == 32) system_exit) _ h₂ in
    ap (λ (l : Bytes). length l) (sym (ok_injective h₃)) ∙ size (length b) sized
  where
    size : (n : ℕ) {u : Unit {0}} → guard (n == 32) system_exit ≡ ok u → n ≡ 32
    size n e = ground arith

pub traverse-Is32 : (js : List Json) {p : Proof} → traverse to_word js ≡ ok p → All Is32 p
unfolding traverse
traverse-Is32 [] {p} h = subst (All Is32) (ok_injective h) tt
traverse-Is32 (j ∷ js) {p} h =
    let (w, hw, h₁) = >>=-eq-ok (to_word j) _ h in
    let (ws, hws, h₂) = >>=-eq-ok (traverse to_word js) _ h₁ in
    subst (All Is32) (ok_injective h₂) (to_word-Is32 j hw, traverse-Is32 js hws)

module _ (sha256 keccak256 : Bytes → Bytes) where
  -- The texts were words, and the replay of the proof with `keccak256` ends at the root.
  pub record Passes (leaf_hex : Text) (proof_hex : List Json) (root_hex : Text) : Type 0 where
    pub leaf : Bytes
    pub root : Bytes
    pub proof : Proof
    pub leaf_read : to_word (str leaf_hex) ≡ ok leaf
    pub root_read : to_word (str root_hex) ≡ ok root
    pub proof_read : traverse to_word proof_hex ≡ ok proof
    pub path : replay keccak256 leaf proof ≡ root

  pub verify_merkle_proof_impl-Passes :
      (leaf_hex : Text) (proof_hex : List Json) (root_hex : Text) {m : ProofMessage}
      → verify_merkle_proof_impl sha256 keccak256 leaf_hex proof_hex root_hex (codes "keccak256")
        ≡ ok (true, m)
      → Passes leaf_hex proof_hex root_hex
  unfolding verify_merkle_proof_impl hash_of bytes_eq
  verify_merkle_proof_impl-Passes leaf_hex proof_hex root_hex h =
      let (leaf, hl, h₁) = >>=-eq-ok (to_word (str leaf_hex)) _ h in
      let (root, hr, h₂) = >>=-eq-ok (to_word (str root_hex)) _ h₁ in
      let (proof, hp, h₃) = >>=-eq-ok (traverse to_word proof_hex) _ h₂ in
      let same = ap (λ (t : Bool × ProofMessage). t.0) (ok_injective h₃) in
      record {
        leaf = leaf;
        root = root;
        proof = proof;
        leaf_read = hl;
        root_read = hr;
        proof_read = hp;
        path = sym (fold_proof-replay keccak256 leaf proof) ∙ bytes_eq→eq _ _ same;
      }

  -- The converse.
  pub Passes-verify_merkle_proof_impl :
      (leaf_hex : Text) (proof_hex : List Json) (root_hex : Text)
      → Passes leaf_hex proof_hex root_hex
      → verify_merkle_proof_impl sha256 keccak256 leaf_hex proof_hex root_hex (codes "keccak256")
        ≡ ok (true, proof_ok)
  unfolding verify_merkle_proof_impl hash_of bytes_eq
  Passes-verify_merkle_proof_impl leaf_hex proof_hex root_hex p =
      let same : bytes_eq (fold_proof keccak256 p.leaf p.proof) p.root ≡ true =
        rw (fold_proof-replay keccak256 p.leaf p.proof, p.path) (bytes_eq_refl p.root) in
      >>=-ok _ p.leaf_read ∙ >>=-ok _ p.root_read ∙ >>=-ok _ p.proof_read ∙ rw same
