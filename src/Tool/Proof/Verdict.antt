-- ===== src/Tool/Proof/Verdict.antt =====
-- What `_verify_merkle_proof_impl` (tools/verify_attestation.py) answers on well-formed words, and on
-- the proofs of the builder.
use noethrion.Base.{
  ℕ, ◌≡◌, refl, ◌∙◌, Bool, true, List, [], ◌∷◌, ◌++◌, map, arith, ◌==◌, if◌then◌else◌, length, All,
  inl, inr, Bool-cases,
}
use noethrion.Python.Result.{ok, traverse}
use noethrion.Python.Bytes.{Bytes, bytes_lt, bytes_eq, bytes_eq_refl}
use noethrion.Python.Hex.{hex}
use noethrion.Python.Hex.RoundTrip.{fromhex-hex}
use noethrion.Python.Text.{Text, codes, add_0x, lower-add_0x, lower-hex, removeprefix_0x-add_0x}
use noethrion.Python.Json.{Json, str, as_str}
use noethrion.Merkle.{Proof, hash_pair, build_tree}
use noethrion.Merkle.Replay.{IsWord, IsDigest, replay}
use noethrion.Merkle.Complete.{AllLead, build_tree-IsTree}
use noethrion.Tool.Proof.{
  ProofMessage, proof_ok, root_mismatch, to_word, fold_proof, hash_of, verify_merkle_proof_impl,
}

-- The loop is the replay with the builder's pair hash.
pub fold_proof-replay :
    (H : Bytes → Bytes) (x : Bytes) (p : Proof) → fold_proof H x p ≡ replay H x p
unfolding fold_proof replay hash_pair
fold_proof-replay H x [] = refl
fold_proof-replay H x (s ∷ p) = elim (Bool-cases (bytes_lt x s)) [
  | inl lt ↦ rw lt (fold_proof-replay H (H (x ++ s)) p)
  | inr ge ↦ rw ge (fold_proof-replay H (H (s ++ x)) p)
]

-- A word as the tools print it.
abbrev pub word_text : Bytes → Text
word_text w = add_0x (hex w)

abbrev pub word_json : Bytes → Json
word_json w = str (word_text w)

pub to_word-word_json : (w : Bytes) → IsWord w → to_word (word_json w) ≡ ok w
unfolding to_word as_str
to_word-word_json w (size, bytes) =
    let whole : (length w == 32) ≡ true = ground arith in
    rw (lower-add_0x, removeprefix_0x-add_0x, lower-hex w bytes, fromhex-hex w bytes, whole)

pub traverse-to_word : (p : Proof) → All IsWord p → traverse to_word (map word_json p) ≡ ok p
unfolding traverse
traverse-to_word [] h = refl
traverse-to_word (w ∷ p) (hw, hp) = rw (to_word-word_json w hw, traverse-to_word p hp)

module _ (sha256 keccak256 : Bytes → Bytes) where
  abbrev pub answer : Bytes → Bytes → Bool × ProofMessage
  answer computed root =
      let same = bytes_eq computed root in
      (same, (if same then proof_ok else root_mismatch computed root))

  -- On words the tool replays the proof and compares.
  pub verify_merkle_proof_impl-replay :
      (leaf root : Bytes) (p : Proof)
      → IsWord leaf
      → IsWord root
      → All IsWord p
      → verify_merkle_proof_impl sha256 keccak256
          (word_text leaf)
          (map word_json p)
          (word_text root)
          (codes "keccak256")
        ≡ ok (answer (replay keccak256 leaf p) root)
  unfolding verify_merkle_proof_impl hash_of bytes_eq
  verify_merkle_proof_impl-replay leaf root p hl hr hp = rw (
    to_word-word_json leaf hl,
    to_word-word_json root hr,
    traverse-to_word p hp,
    fold_proof-replay keccak256 leaf p,
  )

  -- The tool says PASS for each leaf with its proof.
  abbrev pub AllPass : Bytes → List Bytes → List Proof → Type 0
  AllPass root [] [] = Unit
  AllPass root (l ∷ ls) (p ∷ ps) =
      (verify_merkle_proof_impl sha256 keccak256 (word_text l) (map word_json p) (word_text root)
          (codes "keccak256")
        ≡ ok (true, proof_ok))
      × AllPass root ls ps
  AllPass root _ _ = ⊥

  pub AllLead-AllPass :
      (depth : ℕ) (root : Bytes) (leaves : List Bytes) (proofs : List Proof)
      → IsWord root
      → All IsWord leaves
      → AllLead keccak256 depth root leaves proofs
      → AllPass root leaves proofs
  AllLead-AllPass depth root [] [] hr hl h = tt
  AllLead-AllPass depth root [] (p ∷ ps) hr hl h = elim h [ ]
  AllLead-AllPass depth root (l ∷ ls) [] hr hl h = elim h [ ]
  AllLead-AllPass depth root (l ∷ ls) (p ∷ ps) hr hl h = (
    verify_merkle_proof_impl-replay l root p hl.0 hr h.0.words ∙ rw (h.0.path, bytes_eq_refl root),
    AllLead-AllPass depth root ls ps hr hl.1 h.1,
  )

  -- With a digest of 32 bytes: for every non-empty list of leaves of 32 bytes the builder returns a
  -- root and proofs, one for each leaf, and the tool says PASS on every leaf with its proof against
  -- that root.
  pub build_tree-AllPass :
      IsDigest keccak256
      → (x : Bytes) (rest : List Bytes) → All IsWord (x ∷ rest)
      → (root : Bytes) × (proofs : List Proof) × (build_tree keccak256 (x ∷ rest)
          ≡ ok (root, proofs))
        × AllPass root (x ∷ rest) proofs
  build_tree-AllPass d x rest words =
      let t = build_tree-IsTree keccak256 d x rest words in
      (
        t.root,
        t.proofs,
        t.returns,
        AllLead-AllPass t.height t.root (x ∷ rest) t.proofs t.word words t.lead,
      )
