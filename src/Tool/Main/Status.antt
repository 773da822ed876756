-- ===== src/Tool/Main/Status.antt =====
-- The exit statuses of tools/verify_attestation.py.
use noethrion.Base.{
  ℕ, ◌≡◌, ◌≤◌, ◌↔◌, refl, ap, subst, ◌∙◌, Bool, true, false, Option, none, some, List, ◌⊎◌, inl,
  inr, arith, if◌then◌else◌, ◌==◌, Bool-cases,
}
use noethrion.Python.Result.{Result, ok, raise, keyboard_interrupt, ◌>>=◌, >>=-eq-ok, ok_injective}
use noethrion.Python.Bytes.{Bytes}
use noethrion.Python.Text.{Text}
use noethrion.Python.Json.{Json}
use noethrion.Python.Argparse.{Outcome, exits, runs, Settings, parse_command}
use noethrion.Python.Argparse.Exits.{IsExit, parse_command-IsExit}
use noethrion.Crypto.{Crypto}
use noethrion.Leaf.Tool.{compute_leaf_impl}
use noethrion.Tool.Proof.{verify_merkle_proof_impl}
use noethrion.Tool.Signature.{load_attestation, load_pubkey, verify_signature}
use noethrion.Tool.Commands.{
  proof_argument, cmd_verify_signature, cmd_verify_merkle, cmd_verify_full, cmd_compute_leaf,
  exit_status,
}
use noethrion.Tool.Main.{build_parser, Files, func, main, status}
use noethrion.Tool.Main.Invoked.{Invoked, signature, merkle, full, compute, main-Invoked}

verdict_code :
    (fine : Bool) {n : ℕ} → ◌≡◌ {A = Result ℕ} (ok (if fine then 0 else 1)) (ok n) → n ≤ 1
verdict_code true h = omega (arith, ok_injective h)
verdict_code false h = omega (arith, ok_injective h)

signature_code :
    (C : Crypto) (attestation : Result Json) (pubkey : Result Bytes) {n : ℕ}
    → cmd_verify_signature C attestation pubkey ≡ ok n
    → n ≤ 1
unfolding cmd_verify_signature
signature_code C attestation pubkey h =
    let (att, _, h₁) = >>=-eq-ok (load_attestation attestation) _ h in
    let (key, _, h₂) = >>=-eq-ok (load_pubkey C pubkey) _ h₁ in
    let ((fine, m), _, h₃) = >>=-eq-ok (verify_signature C att key) _ h₂ in verdict_code fine h₃

-- A code that is passed on with a line is the command's.
code_of :
    {A : Type 0} (m : Result A) (f : A → ℕ × Option Text) {code : ℕ} {line : Option Text}
    → (m >>= λ a. ok (f a)) ≡ ok (code, line)
    → (a : A) × (m ≡ ok a) × ((f a).0 ≡ code)
code_of m f h =
    let (a, hm, h₁) = >>=-eq-ok m _ h in
    (a, hm, ap (λ (p : ℕ × Option Text). p.0) (ok_injective h₁))

module _ (sha256 keccak256 : Bytes → Bytes) (C : Crypto) (files : Files) where
  merkle_code :
      (leaf proof root hash : Text) {n : ℕ}
      → cmd_verify_merkle sha256 keccak256 files.read_json leaf proof root hash ≡ ok n
      → n ≤ 1
  unfolding cmd_verify_merkle
  merkle_code leaf proof root hash h =
      let (siblings, _, h₁) = >>=-eq-ok (proof_argument files.read_json proof) _ h in
      let ((fine, m), _, h₂) =
        >>=-eq-ok (verify_merkle_proof_impl sha256 keccak256 leaf siblings root hash) _ h₁ in
      verdict_code fine h₂

  full_code :
      (attestation : Result Json) (pubkey : Result Bytes) (leaf proof root hash : Text) {n : ℕ}
      → cmd_verify_full sha256 keccak256 C attestation pubkey files.read_json leaf proof root hash
        ≡ ok n
      → n ≤ 1
  unfolding cmd_verify_full
  full_code attestation pubkey leaf proof root hash h =
      let (rc, hs, h₁) = >>=-eq-ok (cmd_verify_signature C attestation pubkey) _ h in
      elim (Bool-cases (rc == 0)) [
        | inl e ↦ merkle_code leaf proof root hash (rw e at h₁)
        | inr e ↦ signature_code C attestation pubkey (hs ∙ rw e at h₁)
      ]

  Invoked-code :
      (name : Text) (args : Settings) (r : Result (ℕ × Option Text)) {code : ℕ} {line : Option Text}
      → Invoked sha256 keccak256 C files name args r
      → r ≡ ok (code, line)
      → code ≤ 1
  unfolding cmd_compute_leaf
  Invoked-code name args _ (signature a k is_name ha hk) h =
      let (n, hn, same) =
        code_of (cmd_verify_signature C (files.read_json a) (files.read_pem k)) (λ c. (c, none))
          h in
      subst (λ c. c ≤ 1) same (signature_code C _ _ hn)
  Invoked-code name args _ (merkle l r p c is_name hl hr hp hc is_hash) h =
      let (n, hn, same) =
        code_of (cmd_verify_merkle sha256 keccak256 files.read_json l p r c) (λ c. (c, none)) h in
      subst (λ c. c ≤ 1) same (merkle_code l p r c hn)
  Invoked-code name args _ (full a k l r p c is_name ha hk hl hr hp hc is_hash) h =
      let (n, hn, same) =
        code_of
          (cmd_verify_full sha256 keccak256 C (files.read_json a) (files.read_pem k) files.read_json
            l p r c)
          (λ c. (c, none)) h in
      subst (λ c. c ≤ 1) same (full_code _ _ l p r c hn)
  Invoked-code name args _ (compute i a b n e is_name hi ha hb hn he) h =
      let ((code, line), hc, same) =
        code_of (cmd_compute_leaf sha256 keccak256 i a b n e) (λ (q : ℕ × Text). (q.0, some q.1))
          h in
      let (leaf, _, h₁) = >>=-eq-ok (compute_leaf_impl keccak256 i a b n e) _ hc in
      let zero_code : 0 ≡ code = ap (λ (q : ℕ × Text). q.0) (ok_injective h₁) in omega arith

  -- A status below 3, or what Ctrl-C gives; 2 stands for one kind of end.
  abbrev IsStatus : Outcome (Result (ℕ × Option Text)) → Type 0
  IsStatus m = ((status m ≡ 2) ↔ (m ≡ exits 2)) × ((status m ≤ 2) ⊎ (status m ≡ 130))

  exits-IsStatus : (n : ℕ) → (n ≡ 0) ⊎ (n ≡ 2) → IsStatus (exits n)
  unfolding status
  exits-IsStatus n h = (
    ((λ e. ap exits e), (λ e. ap status e)),
    inl (elim h [ inl e ↦ omega arith | inr e ↦ omega arith ]),
  )

  returned-IsStatus :
      (r : Result (ℕ × Option Text))
      → ((code : ℕ) (line : Option Text) → r ≡ ok (code, line) → code ≤ 1)
      → IsStatus (runs r)
  unfolding status exit_status
  returned-IsStatus (ok (code, line)) h =
      let small = h code line refl in
      (((λ e. absurd (omega (arith, small, e))), (λ e. cc)), inl (omega (arith, small)))
  returned-IsStatus (raise keyboard_interrupt) h =
      (((λ e. absurd (omega (arith, e))), (λ e. cc)), inr refl)
  returned-IsStatus (raise _) h = (((λ e. absurd (omega (arith, e))), (λ e. cc)), inl (omega arith))

  -- The program's status is 0, 1 or 2, or 130 where reading a file was interrupted, and 2 says that
  -- the command line was refused and no subcommand was run: no verdict, and no exception of a
  -- subcommand, gives 2.
  pub main-IsStatus :
      (argv : List Text)
      → ((status (main sha256 keccak256 C files argv) ≡ 2)
          ↔ (main sha256 keccak256 C files argv ≡ exits 2))
        × ((status (main sha256 keccak256 C files argv) ≤ 2)
            ⊎ (status (main sha256 keccak256 C files argv) ≡ 130))
  unfolding main
  main-IsStatus argv =
      go (main sha256 keccak256 C files argv)
        (exit_of (parse_command build_parser false argv)
          (parse_command-IsExit build_parser false argv))
        (λ r q. main-Invoked sha256 keccak256 C files argv q)
    where
      exit_of :
          (p : Outcome (Text × Settings))
          → IsExit p
          → IsExit (elim p as (λ x. Outcome (Result (ℕ × Option Text))) [
            | exits n ↦ exits n
            | runs (name, args) ↦ runs (func sha256 keccak256 C files name args)
          ])
      exit_of (exits n) h = h
      exit_of (runs (name, args)) h = tt

      go :
          (m : Outcome (Result (ℕ × Option Text)))
          → IsExit m
          → ((r : Result (ℕ × Option Text))
              → m ≡ runs r
              → (name : Text) × (args : Settings) × (parse_command build_parser false argv
                  ≡ runs (name, args))
                × Invoked sha256 keccak256 C files name args r)
          → IsStatus m
      go (exits n) h run = exits-IsStatus n h
      go (runs r) h run =
          let (name, args, _, invoked) = run r refl in
          returned-IsStatus r (λ code line e. Invoked-code name args r invoked e)
