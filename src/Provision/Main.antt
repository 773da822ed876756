-- ===== src/Provision/Main.antt =====
-- `build_parser` and `main` of tools/provision_atecc.py, and which files a command line may change.
pub mod Frame
use noethrion.Base.{ℕ, ◌≡◌, ◌≢◌, Bool, true, false, ◌⊎◌, none, List, [], ◌∷◌, if◌then◌else◌, arith}
use noethrion.Python.Result.{Result, ok, raise, attribute_error, ◌>>=◌}
use noethrion.Python.Bytes.{bytes_eq}
use noethrion.Python.Text.{Text, codes}
use noethrion.Python.Json.{Fields}
use noethrion.Python.Argparse.{
  text, switch, switch_value, Opt, required_option, default_option, Outcome, exits, runs, Settings,
  Sub, parse_command, text_of, switch_of,
}
use noethrion.Crypto.{Crypto}
use noethrion.Provision.{
  Signer, Disk, Shown, read_bytes, pub_path, cmd_generate_key, cmd_show_pubkey, cmd_sign_test,
  cmd_export_onchain,
}

abbrev pub generate_options : List Opt
generate_options =
    required_option (codes "--out") text
    ∷ default_option (codes "--force") switch (switch_value false)
    ∷ []

abbrev pub key_options : List Opt
key_options = required_option (codes "--key") text ∷ []

abbrev pub sign_options : List Opt
sign_options =
    required_option (codes "--key") text
    ∷ required_option (codes "--device-id") text
    ∷ required_option (codes "--timestamp") text
    ∷ required_option (codes "--wh") text
    ∷ []

-- `build_parser`
abbrev pub build_parser : List Sub
build_parser =
    record { name = codes "generate-key"; opts = generate_options }
    ∷ record { name = codes "show-pubkey"; opts = key_options }
    ∷ record { name = codes "sign-test"; opts = sign_options }
    ∷ record { name = codes "export-onchain"; opts = key_options }
    ∷ []

-- What a subcommand prints on stdout; the notes of `generate-key` are left out.
pub data Printed : Type 0 where
  nothing : Printed
  shown : Shown → Printed
  attestation : Fields → Printed
  line : Text → Printed

module _ (C : Crypto) (S : Signer C) where
  -- `cmd_generate_key(args)`, with the files that it leaves behind
  unfoldable pub generate : Result Text → Result Bool → ℕ → Disk → Result (ℕ × Printed) × Disk
  generate (ok out) (ok force) seed disk =
      let made = cmd_generate_key C S out force seed disk in
      ((do code ← made.0; ok (code, nothing)), made.1)
  generate (raise e) force seed disk = (raise e, disk)
  generate (ok out) (raise e) seed disk = (raise e, disk)

  -- `args.func(args)` of the subcommands that change no file
  unfoldable pub func : Text → Settings → ℕ → Disk → Result (ℕ × Printed)
  func name args seed disk =
      if bytes_eq (codes "show-pubkey") name
      then (do
        key ← text_of (codes "--key") args
        values ← cmd_show_pubkey C S key disk
        ok (0, shown values))
      else if bytes_eq (codes "sign-test") name
      then (do
        key ← text_of (codes "--key") args
        device_id ← text_of (codes "--device-id") args
        timestamp ← text_of (codes "--timestamp") args
        wh ← text_of (codes "--wh") args
        out ← cmd_sign_test C S (read_bytes key disk) device_id timestamp wh seed
        ok (0, attestation out))
      else if bytes_eq (codes "export-onchain") name
      then (do
        key ← text_of (codes "--key") args
        raw ← cmd_export_onchain C S key disk
        ok (0, line raw))
      else raise attribute_error

  -- `main`
  unfoldable pub main : List Text → ℕ → Disk → Outcome (Result (ℕ × Printed)) × Disk
  unfolding generate func
  main argv seed disk = elim (parse_command build_parser false argv) [
    | exits status ↦ (exits status, disk)
    | runs (name, args) ↦
        if bytes_eq (codes "generate-key") name
        then (let made =
              generate (text_of (codes "--out") args) (switch_of (codes "--force") args) seed
                disk in
            (runs made.0, made.1))
        else (runs (func name args seed disk), disk)
  ]

  -- A `generate-key` that may write: its path was free, or `--force` was given, and no other file than
  -- the two of the pair has changed.
  pub record Writes (argv : List Text) (before after : Disk) : Type 0 where
    pub args : Settings
    pub out : Text
    pub force : Bool
    pub asked : parse_command build_parser false argv ≡ runs (codes "generate-key", args)
    pub out_given : text_of (codes "--out") args ≡ ok out
    pub force_given : switch_of (codes "--force") args ≡ ok force
    pub allowed : (before.content out ≡ none) ⊎ (force ≡ true)
    pub others : (p : Text) → p ≢ out → p ≢ pub_path out → after.content p ≡ before.content p
