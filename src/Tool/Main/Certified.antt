-- ===== src/Tool/Main/Certified.antt =====
-- What status 0 of tools/verify_attestation.py stands for.
use noethrion.Base.{ℕ, ◌≡◌, refl, ap, ◌∙◌, false, Option, none, List, ◌⊎◌, inl, inr}
use noethrion.Base.Int.{ℤ}
use noethrion.Python.Result.{Result, ok, ◌>>=◌, >>=-eq-ok, ok_injective}
use noethrion.Python.Bytes.{Bytes}
use noethrion.Python.Text.{Text, codes}
use noethrion.Python.Argparse.{Outcome, exits, runs, Settings, parse_command, text_of, number_of}
use noethrion.Crypto.{Crypto}
use noethrion.Leaf.Tool.{compute_leaf_impl}
use noethrion.Tool.Commands.{cmd_compute_leaf, exit_status}
use noethrion.Tool.Commands.Passing.{
  Signed, Proved, exit_status-zero, cmd_verify_signature-Signed, cmd_verify_merkle-Proved,
  cmd_verify_full-Proved,
}
use noethrion.Tool.Main.{build_parser, Files, main, status}
use noethrion.Tool.Main.Invoked.{Invoked, signature, merkle, full, compute, main-Invoked}

-- A result that is good as a status is good as a code.
code_zero :
    (r : Result (ℕ × Option Text))
    → exit_status (r >>= λ (p : ℕ × Option Text). ok p.0) ≡ 0
    → (line : Option Text) × (r ≡ ok (0, line))
code_zero r h =
    let ((code, line), hr, h₁) = >>=-eq-ok r _ (exit_status-zero _ h) in
    (line, hr ∙ ap (λ n. ok (n, line)) (ok_injective h₁))

-- A code that is passed on without a line.
passed_on :
    (m : Result ℕ) {line : Option Text}
    → ◌≡◌ {A = Result (ℕ × Option Text)} (m >>= λ code. ok (code, none)) (ok (0, line))
    → m ≡ ok 0
passed_on m h =
    let (code, hm, h₁) = >>=-eq-ok m _ h in
    hm ∙ ap (λ (p : ℕ × Option Text). ok p.0) (ok_injective h₁)

module _ (sha256 keccak256 : Bytes → Bytes) (C : Crypto) (files : Files) where
  -- The checks that the subcommand of this name stands for, all passed, or the leaf that it asks for.
  pub data Certified (name : Text) (args : Settings) : Type 0 where
    signature_checked :
        (attestation pubkey : Text)
        → name ≡ codes "verify-signature"
        → text_of (codes "--attestation") args ≡ ok attestation
        → text_of (codes "--pubkey") args ≡ ok pubkey
        → Signed C (files.read_json attestation) (files.read_pem pubkey)
        → Certified name args
    proof_checked :
        (leaf root proof hash : Text)
        → name ≡ codes "verify-merkle"
        → text_of (codes "--leaf") args ≡ ok leaf
        → text_of (codes "--root") args ≡ ok root
        → text_of (codes "--proof") args ≡ ok proof
        → text_of (codes "--hash") args ≡ ok hash
        → Proved sha256 keccak256 files.read_json leaf proof root hash
        → Certified name args
    both_checked :
        (attestation pubkey leaf root proof hash : Text)
        → name ≡ codes "verify-full"
        → text_of (codes "--attestation") args ≡ ok attestation
        → text_of (codes "--pubkey") args ≡ ok pubkey
        → text_of (codes "--leaf") args ≡ ok leaf
        → text_of (codes "--root") args ≡ ok root
        → text_of (codes "--proof") args ≡ ok proof
        → text_of (codes "--hash") args ≡ ok hash
        → Signed C (files.read_json attestation) (files.read_pem pubkey)
        → Proved sha256 keccak256 files.read_json leaf proof root hash
        → Certified name args
    leaf_computed :
        (chain_id : ℤ) (attester beneficiary : Text) (amount epoch : ℤ) (leaf : Bytes)
        (w w' : Option Text)
        → name ≡ codes "compute-leaf"
        → number_of (codes "--chain-id") args ≡ ok chain_id
        → text_of (codes "--attester") args ≡ ok attester
        → text_of (codes "--beneficiary") args ≡ ok beneficiary
        → number_of (codes "--amount") args ≡ ok amount
        → number_of (codes "--epoch") args ≡ ok epoch
        → compute_leaf_impl keccak256 chain_id attester beneficiary amount epoch ≡ ok (leaf, w, w')
        → Certified name args

  Invoked-Certified :
      (name : Text) (args : Settings) (r : Result (ℕ × Option Text)) {line : Option Text}
      → Invoked sha256 keccak256 C files name args r
      → r ≡ ok (0, line)
      → Certified name args
  unfolding cmd_compute_leaf exit_status
  Invoked-Certified name args _ (signature a k is_name ha hk) h =
      signature_checked a k is_name ha hk
        (cmd_verify_signature-Signed C (files.read_json a) (files.read_pem k) (passed_on _ h))
  Invoked-Certified name args _ (merkle l r p c is_name hl hr hp hc is_hash) h =
      proof_checked l r p c is_name hl hr hp hc
        (cmd_verify_merkle-Proved sha256 keccak256 files.read_json l p r c (passed_on _ h))
  Invoked-Certified name args _ (full a k l r p c is_name ha hk hl hr hp hc is_hash) h =
      let (signed, proved) =
        cmd_verify_full-Proved sha256 keccak256 C (files.read_json a) (files.read_pem k)
          files.read_json l p r c (ap exit_status (passed_on _ h)) in
      both_checked a k l r p c is_name ha hk hl hr hp hc signed proved
  Invoked-Certified name args _ (compute i a b n e is_name hi ha hb hn he) h =
      let ((code, line), hc, _) = >>=-eq-ok (cmd_compute_leaf sha256 keccak256 i a b n e) _ h in
      let ((leaf, w, w'), hl, _) = >>=-eq-ok (compute_leaf_impl keccak256 i a b n e) _ hc in
      leaf_computed i a b n e leaf w w' is_name hi ha hb hn he hl

  -- Status 0 of the program is earned: the help text was asked for, or the command line names one of
  -- the four subcommands and each check that this one stands for was passed on the files and values
  -- named, signature and proof both for `verify-full`; for `compute-leaf`, the leaf was computed.
  pub main_zero-Certified :
      (argv : List Text)
      → status (main sha256 keccak256 C files argv) ≡ 0
      → (main sha256 keccak256 C files argv ≡ exits 0)
        ⊎ ((name : Text) × (args : Settings) × (parse_command build_parser false argv
              ≡ runs (name, args))
            × Certified name args)
  unfolding status
  main_zero-Certified argv h = go (main sha256 keccak256 C files argv) refl h
    where
      go :
          (m : Outcome (Result (ℕ × Option Text)))
          → main sha256 keccak256 C files argv ≡ m
          → status m ≡ 0
          → (main sha256 keccak256 C files argv ≡ exits 0)
            ⊎ ((name : Text) × (args : Settings) × (parse_command build_parser false argv
                  ≡ runs (name, args))
                × Certified name args)
      go (exits n) q k = inl (q ∙ ap exits k)
      go (runs r) q k =
          let (name, args, parsed, invoked) = main-Invoked sha256 keccak256 C files argv q in
          let (line, good) = code_zero r k in
          inr (name, args, parsed, Invoked-Certified name args r invoked good)
