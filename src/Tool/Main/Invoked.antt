-- ===== src/Tool/Main/Invoked.antt =====
-- What `main` (tools/verify_attestation.py) runs: every command line ends in a usage error, in the help
-- text or in a subcommand on arguments of the declared types.
use mathlib.Core.Option.{some-injective}
use noethrion.Base.{
  ℕ, ◌≡◌, refl, sym, subst, true, false, Option, none, some, List, Bool-cases, inl, inr,
}
use noethrion.Base.Int.{ℤ}
use noethrion.Python.Result.{Result, ok, ◌>>=◌}
use noethrion.Python.Bytes.{Bytes, bytes_eq, bytes_eq→eq}
use noethrion.Python.Text.{Text, codes}
use noethrion.Python.Argparse.{
  Opt, Outcome, exits, runs, Settings, Sub, find_flag, find_sub, member, parse_command, text_of,
  number_of,
}
use noethrion.Python.Argparse.Typed.{HasType}
use noethrion.Python.Argparse.Settled.{runs_injective}
use noethrion.Python.Argparse.Command.{AreParsers, parse_command-Chosen}
use noethrion.Python.Argparse.Values.{text_of-HasType, text_of-choice, number_of-HasType}
use noethrion.Crypto.{Crypto}
use noethrion.Tool.Commands.{
  cmd_verify_signature, cmd_verify_merkle, cmd_verify_full, cmd_compute_leaf,
}
use noethrion.Tool.Main.{
  hashes, merkle_options, signature_options, full_options, leaf_options, build_parser, Files, func,
  main,
}

build_parser-AreParsers : AreParsers build_parser
unfolding find_flag bytes_eq member
build_parser-AreParsers = (
  ((refl, tt), ((refl, tt), tt)),
  (
    ((refl, tt), ((refl, tt), ((refl, tt), ((refl, refl), tt)))),
    (
      ((refl, tt), ((refl, tt), ((refl, tt), ((refl, tt), ((refl, tt), ((refl, refl), tt)))))),
      (((refl, tt), ((refl, tt), ((refl, tt), ((refl, tt), ((refl, tt), tt))))), tt),
    ),
  ),
)

module _ (sha256 keccak256 : Bytes → Bytes) (C : Crypto) (files : Files) where
  -- The subcommand of this name on values.
  pub data Invoked (name : Text) (args : Settings) : Result (ℕ × Option Text) → Type 0 where
    signature :
        (attestation pubkey : Text)
        → name ≡ codes "verify-signature"
        → text_of (codes "--attestation") args ≡ ok attestation
        → text_of (codes "--pubkey") args ≡ ok pubkey
        → Invoked name args (
            cmd_verify_signature C (files.read_json attestation) (files.read_pem pubkey) >>= λ code.
            ok (code, none))
    merkle :
        (leaf root proof hash : Text)
        → name ≡ codes "verify-merkle"
        → text_of (codes "--leaf") args ≡ ok leaf
        → text_of (codes "--root") args ≡ ok root
        → text_of (codes "--proof") args ≡ ok proof
        → text_of (codes "--hash") args ≡ ok hash
        → member hash hashes ≡ true
        → Invoked name args (
            cmd_verify_merkle sha256 keccak256 files.read_json leaf proof root hash >>= λ code.
            ok (code, none))
    full :
        (attestation pubkey leaf root proof hash : Text)
        → name ≡ codes "verify-full"
        → text_of (codes "--attestation") args ≡ ok attestation
        → text_of (codes "--pubkey") args ≡ ok pubkey
        → text_of (codes "--leaf") args ≡ ok leaf
        → text_of (codes "--root") args ≡ ok root
        → text_of (codes "--proof") args ≡ ok proof
        → text_of (codes "--hash") args ≡ ok hash
        → member hash hashes ≡ true
        → Invoked name args (
            cmd_verify_full sha256 keccak256 C
              (files.read_json attestation)
              (files.read_pem pubkey)
              files.read_json
              leaf
              proof
              root
              hash
            >>= λ code. ok (code, none))
    compute :
        (chain_id : ℤ) (attester beneficiary : Text) (amount epoch : ℤ)
        → name ≡ codes "compute-leaf"
        → number_of (codes "--chain-id") args ≡ ok chain_id
        → text_of (codes "--attester") args ≡ ok attester
        → text_of (codes "--beneficiary") args ≡ ok beneficiary
        → number_of (codes "--amount") args ≡ ok amount
        → number_of (codes "--epoch") args ≡ ok epoch
        → Invoked name args (
            cmd_compute_leaf sha256 keccak256 chain_id attester beneficiary amount epoch
            >>= λ (p : ℕ × Text). ok (p.0, some p.1))

  signature-Invoked :
      (args : Settings)
      → HasType signature_options args
      → Invoked
          (codes "verify-signature")
          args
          (func sha256 keccak256 C files (codes "verify-signature") args)
  unfolding func find_flag bytes_eq
  signature-Invoked args h =
      let (a, ha) = text_of-HasType signature_options args h (codes "--attestation") refl in
      let (k, hk) = text_of-HasType signature_options args h (codes "--pubkey") refl in
      rw (ha, hk) (signature a k refl ha hk)

  merkle-Invoked :
      (args : Settings)
      → HasType merkle_options args
      → Invoked
          (codes "verify-merkle")
          args
          (func sha256 keccak256 C files (codes "verify-merkle") args)
  unfolding func find_flag bytes_eq
  merkle-Invoked args h =
      let (l, hl) = text_of-HasType merkle_options args h (codes "--leaf") refl in
      let (r, hr) = text_of-HasType merkle_options args h (codes "--root") refl in
      let (p, hp) = text_of-HasType merkle_options args h (codes "--proof") refl in
      let (c, hc, is_hash) = text_of-choice merkle_options args h (codes "--hash") hashes refl in
      rw (hl, hr, hp, hc) (merkle l r p c refl hl hr hp hc is_hash)

  full-Invoked :
      (args : Settings)
      → HasType full_options args
      → Invoked
          (codes "verify-full")
          args
          (func sha256 keccak256 C files (codes "verify-full") args)
  unfolding func find_flag bytes_eq
  full-Invoked args h =
      let (a, ha) = text_of-HasType full_options args h (codes "--attestation") refl in
      let (k, hk) = text_of-HasType full_options args h (codes "--pubkey") refl in
      let (l, hl) = text_of-HasType full_options args h (codes "--leaf") refl in
      let (r, hr) = text_of-HasType full_options args h (codes "--root") refl in
      let (p, hp) = text_of-HasType full_options args h (codes "--proof") refl in
      let (c, hc, is_hash) = text_of-choice full_options args h (codes "--hash") hashes refl in
      rw (ha, hk, hl, hr, hp, hc) (full a k l r p c refl ha hk hl hr hp hc is_hash)

  compute-Invoked :
      (args : Settings)
      → HasType leaf_options args
      → Invoked
          (codes "compute-leaf")
          args
          (func sha256 keccak256 C files (codes "compute-leaf") args)
  unfolding func find_flag bytes_eq
  compute-Invoked args h =
      let (i, hi) = number_of-HasType leaf_options args h (codes "--chain-id") refl in
      let (a, ha) = text_of-HasType leaf_options args h (codes "--attester") refl in
      let (b, hb) = text_of-HasType leaf_options args h (codes "--beneficiary") refl in
      let (n, hn) = number_of-HasType leaf_options args h (codes "--amount") refl in
      let (e, he) = number_of-HasType leaf_options args h (codes "--epoch") refl in
      rw (hi, ha, hb, hn, he) (compute i a b n e refl hi ha hb hn he)

  Chosen-Invoked :
      (name : Text) (args : Settings) (sub : Sub)
      → find_sub name build_parser ≡ some sub
      → HasType sub.opts args
      → Invoked name args (func sha256 keccak256 C files name args)
  unfolding find_sub
  Chosen-Invoked name args sub f h = elim (Bool-cases (bytes_eq (codes "verify-signature") name)) [
    | inl e ↦ chosen (codes "verify-signature") signature_options e (rw e at f) signature-Invoked
    | inr e₁ ↦ elim (Bool-cases (bytes_eq (codes "verify-merkle") name)) [
      | inl e ↦ chosen (codes "verify-merkle") merkle_options e (rw (e₁, e) at f) merkle-Invoked
      | inr e₂ ↦ elim (Bool-cases (bytes_eq (codes "verify-full") name)) [
        | inl e ↦ chosen (codes "verify-full") full_options e (rw (e₁, e₂, e) at f) full-Invoked
        | inr e₃ ↦ elim (Bool-cases (bytes_eq (codes "compute-leaf") name)) [
          | inl e ↦
              chosen (codes "compute-leaf") leaf_options e (rw (e₁, e₂, e₃, e) at f) compute-Invoked
          | inr e ↦ cc (rw (e₁, e₂, e₃, e) at f)
        ]
      ]
    ]
  ]
    where
      chosen :
          (name' : Text) (opts : List Opt)
          → bytes_eq name' name ≡ true
          → some (record { name = name'; opts = opts }) ≡ some sub
          → ((a : Settings)
              → HasType opts a
              → Invoked name' a (func sha256 keccak256 C files name' a))
          → Invoked name args (func sha256 keccak256 C files name args)
      chosen name' opts e same run =
          subst (λ n. Invoked n args (func sha256 keccak256 C files n args))
            (bytes_eq→eq name' name e)
            (run args (subst (λ (s : Sub). HasType s.opts args) (sym (some-injective _ _ same)) h))

  -- A command line that argparse accepts runs the one of the four subcommands that it names, on
  -- arguments that are all there and of the declared types, `--hash` being one of the two algorithms.
  pub main-Invoked :
      (argv : List Text) {r : Result (ℕ × Option Text)}
      → main sha256 keccak256 C files argv ≡ runs r
      → (name : Text) × (args : Settings) × (parse_command build_parser false argv
          ≡ runs (name, args))
        × Invoked name args r
  unfolding main
  main-Invoked argv {r} h = go (parse_command build_parser false argv) refl h
    where
      go :
          (p : Outcome (Text × Settings))
          → parse_command build_parser false argv ≡ p
          → (elim p [
            | exits status ↦ exits status
            | runs (name, args) ↦ runs (func sha256 keccak256 C files name args)
          ])
            ≡ runs r
          → (name : Text) × (args : Settings) × (parse_command build_parser false argv
              ≡ runs (name, args))
            × Invoked name args r
      go (exits n) q k = cc
      go (runs (name, args)) q k =
          let c = parse_command-Chosen build_parser build_parser-AreParsers false argv q in
          (
            name,
            args,
            q,
            subst (Invoked name args) (runs_injective k)
                (Chosen-Invoked name args c.sub c.found c.typed),
          )
