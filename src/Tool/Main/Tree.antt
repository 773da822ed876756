-- ===== src/Tool/Main/Tree.antt =====
-- The trees of examples/lifecycle/03_build_merkle_tree.py and the command lines of
-- tools/verify_attestation.py that check them.
use noethrion.Base.{ℕ, ◌≡◌, refl, ap, ◌∙◌, none, List, [], ◌∷◌, map, All}
use noethrion.Python.Result.{Result, ok, raise, keyboard_interrupt, ◌>>=◌}
use noethrion.Python.Bytes.{Bytes}
use noethrion.Python.Split.{join}
use noethrion.Python.Argparse.{runs}
use noethrion.Python.Argparse.Written.{Undashed}
use noethrion.Crypto.{Crypto}
use noethrion.Merkle.{Proof, build_tree}
use noethrion.Merkle.Replay.{IsWord, IsDigest}
use noethrion.Tool.Proof.Verdict.{word_text}
use noethrion.Tool.Commands.{exit_status}
use noethrion.Tool.Commands.Passing.{AllZero, build_tree-AllZero}
use noethrion.Tool.Main.{Files, main, status}
use noethrion.Tool.Main.Lines.{merkle_line, main-merkle_line}

pub status-silent : (m : Result ℕ) → status (runs (m >>= λ code. ok (code, none))) ≡ exit_status m
unfolding status exit_status
status-silent (ok n) = refl
status-silent (raise keyboard_interrupt) = refl
status-silent (raise _) = refl

join-Undashed : (p : Proof) → Undashed (join b',' (map word_text p))
join-Undashed [] = tt
join-Undashed (w ∷ []) = refl
join-Undashed (w ∷ v ∷ p) = refl

module _ (sha256 keccak256 : Bytes → Bytes) (C : Crypto) (files : Files) where
  -- The program ends with status 0 on the command line of each leaf with its proof.
  abbrev pub AllAccepted : Bytes → List Bytes → List Proof → Type 0
  AllAccepted root [] [] = Unit {0}
  AllAccepted root (l ∷ leaves) (p ∷ proofs) =
      (status (
          main sha256 keccak256 C files
            (merkle_line (word_text l) (word_text root) (join b',' (map word_text p))))
        ≡ 0)
      × AllAccepted root leaves proofs
  AllAccepted root _ _ = ⊥

  AllZero-AllAccepted :
      (root : Bytes) (leaves : List Bytes) (proofs : List Proof)
      → AllZero sha256 keccak256 files.read_json root leaves proofs
      → AllAccepted root leaves proofs
  AllZero-AllAccepted root [] [] h = tt
  AllZero-AllAccepted root [] (p ∷ proofs) h = elim h [ ]
  AllZero-AllAccepted root (l ∷ leaves) [] h = elim h [ ]
  AllZero-AllAccepted root (l ∷ leaves) (p ∷ proofs) (zero_status, h) = (
    ap status (
          main-merkle_line sha256 keccak256 C files (word_text l) (word_text root)
            (join b',' (map word_text p)) refl refl (join-Undashed p))
        ∙ status-silent _
        ∙ zero_status,
    AllZero-AllAccepted root leaves proofs h,
  )

  -- From the builder to the program, with a digest of 32 bytes: for every non-empty list of leaves of
  -- 32 bytes the builder returns a root and a proof for each leaf, and the command line
  -- `verify-merkle --leaf … --root … --proof …`, with `0x` texts and commas between the siblings,
  -- is parsed, run and ends with status 0.
  pub build_tree-AllAccepted :
      IsDigest keccak256
      → (x : Bytes) (rest : List Bytes) → All IsWord (x ∷ rest)
      → (root : Bytes) × (proofs : List Proof) × (build_tree keccak256 (x ∷ rest)
          ≡ ok (root, proofs))
        × AllAccepted root (x ∷ rest) proofs
  build_tree-AllAccepted d x rest words =
      let (root, proofs, built, zeros) =
        build_tree-AllZero sha256 keccak256 d files.read_json x rest words in
      (root, proofs, built, AllZero-AllAccepted root (x ∷ rest) proofs zeros)
