-- ===== src/Tool/Main.antt =====
-- `build_parser` and `main` of tools/verify_attestation.py.
pub mod Invoked
pub mod Certified
pub mod Status
pub mod Lines
pub mod Tree
use noethrion.Base.{ℕ, false, Option, none, some, List, [], ◌∷◌, if◌then◌else◌}
use noethrion.Python.Result.{Result, ok, raise, attribute_error, ◌>>=◌}
use noethrion.Python.Bytes.{Bytes, bytes_eq}
use noethrion.Python.Text.{Text, codes}
use noethrion.Python.Json.{Json}
use noethrion.Python.Argparse.{
  text, number, choice, text_value, Opt, required_option, default_option, Outcome, exits, runs,
  Settings, Sub, parse_command, text_of, number_of,
}
use noethrion.Crypto.{Crypto}
use noethrion.Tool.Commands.{
  cmd_verify_signature, cmd_verify_merkle, cmd_verify_full, cmd_compute_leaf, exit_status,
}

abbrev pub hashes : List Text
hashes = codes "keccak256" ∷ codes "sha256" ∷ []

abbrev pub merkle_options : List Opt
merkle_options =
    required_option (codes "--leaf") text
    ∷ required_option (codes "--root") text
    ∷ default_option (codes "--proof") text (text_value [])
    ∷ default_option (codes "--hash") (choice hashes) (text_value (codes "keccak256"))
    ∷ []

abbrev pub signature_options : List Opt
signature_options =
    required_option (codes "--attestation") text ∷ required_option (codes "--pubkey") text ∷ []

abbrev pub full_options : List Opt
full_options =
    required_option (codes "--attestation") text
    ∷ required_option (codes "--pubkey") text
    ∷ merkle_options

abbrev pub leaf_options : List Opt
leaf_options =
    required_option (codes "--chain-id") number
    ∷ required_option (codes "--attester") text
    ∷ required_option (codes "--beneficiary") text
    ∷ required_option (codes "--amount") number
    ∷ required_option (codes "--epoch") number
    ∷ []

-- `build_parser`
abbrev pub build_parser : List Sub
build_parser =
    record { name = codes "verify-signature"; opts = signature_options }
    ∷ record { name = codes "verify-merkle"; opts = merkle_options }
    ∷ record { name = codes "verify-full"; opts = full_options }
    ∷ record { name = codes "compute-leaf"; opts = leaf_options }
    ∷ []

-- What opening and reading a path gives.
pub record Files : Type 0 where
  pub read_json : Text → Result Json
  pub read_pem : Text → Result Bytes

module _ (sha256 keccak256 : Bytes → Bytes) (C : Crypto) (files : Files) where
  -- `args.func(args)`: the exit code, and the leaf that is printed, if one is.
  unfoldable pub func : Text → Settings → Result (ℕ × Option Text)
  func name args =
      if bytes_eq (codes "verify-signature") name
      then (do
        attestation ← text_of (codes "--attestation") args
        pubkey ← text_of (codes "--pubkey") args
        code ← cmd_verify_signature C (files.read_json attestation) (files.read_pem pubkey)
        ok (code, none))
      else if bytes_eq (codes "verify-merkle") name
      then (do
        leaf ← text_of (codes "--leaf") args
        root ← text_of (codes "--root") args
        proof ← text_of (codes "--proof") args
        hash ← text_of (codes "--hash") args
        code ← cmd_verify_merkle sha256 keccak256 files.read_json leaf proof root hash
        ok (code, none))
      else if bytes_eq (codes "verify-full") name
      then (do
        attestation ← text_of (codes "--attestation") args
        pubkey ← text_of (codes "--pubkey") args
        leaf ← text_of (codes "--leaf") args
        root ← text_of (codes "--root") args
        proof ← text_of (codes "--proof") args
        hash ← text_of (codes "--hash") args
        code ←
            cmd_verify_full sha256 keccak256 C (files.read_json attestation) (files.read_pem pubkey)
              files.read_json leaf proof root hash
        ok (code, none))
      else if bytes_eq (codes "compute-leaf") name
      then (do
        chain_id ← number_of (codes "--chain-id") args
        attester ← text_of (codes "--attester") args
        beneficiary ← text_of (codes "--beneficiary") args
        amount ← number_of (codes "--amount") args
        epoch ← number_of (codes "--epoch") args
        (code, line) ← cmd_compute_leaf sha256 keccak256 chain_id attester beneficiary amount epoch
        ok (code, some line))
      else raise attribute_error

  -- `main`
  unfoldable pub main : List Text → Outcome (Result (ℕ × Option Text))
  unfolding func
  main argv = elim (parse_command build_parser false argv) [
    | exits status ↦ exits status
    | runs (name, args) ↦ runs (func name args)
  ]

-- The status of `sys.exit(main())`.
unfoldable pub status : Outcome (Result (ℕ × Option Text)) → ℕ
unfolding exit_status
status (exits n) = n
status (runs r) = exit_status (do (code, line) ← r; ok code)
