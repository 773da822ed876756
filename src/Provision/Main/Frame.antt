-- ===== src/Provision/Main/Frame.antt =====
-- Which files a command line of tools/provision_atecc.py may change.
use noethrion.Base.{
  ℕ, ◌≡◌, ◌≢◌, refl, sym, ap, ◌∙◌, Bool, true, false, not, ◌&&◌, ◌⊎◌, inl, inr, none, List,
  if◌then◌else◌, Bool-cases,
}
use noethrion.Python.Result.{Result, ok, raise}
use noethrion.Python.Bytes.{bytes_eq, bytes_eq→eq}
use noethrion.Python.Text.{Text, codes}
use noethrion.Python.Argparse.{Outcome, exits, runs, Settings, parse_command, text_of, switch_of}
use noethrion.Crypto.{Crypto}
use noethrion.Provision.{
  Signer, Disk, exists, write_bytes, chmod, pub_path, write_public_key, write_pair,
  cmd_generate_key,
}
use noethrion.Provision.Lifecycle.{bytes_eq-false, free_path}
use noethrion.Provision.Main.{build_parser, Printed, Writes, generate, func, main}

module _ (C : Crypto) (S : Signer C) where
  write_pair-others :
      (out : Text) (k : S.PrivateKey) (disk : Disk) (p : Text)
      → bytes_eq p out ≡ false
      → bytes_eq p (pub_path out) ≡ false
      → (write_pair C S out k disk).1.content p ≡ disk.content p
  unfolding write_pair write_bytes write_public_key chmod
  write_pair-others out k disk p n m = elim (Bool-cases (disk.writable out)) [
    | inl e ↦ elim (Bool-cases (disk.writable (pub_path out))) [
      | inl f ↦ rw (write_pair, write_bytes, e, f, n, m) refl
      | inr f ↦ rw (write_pair, write_bytes, e, f, n) refl
    ]
    | inr e ↦ rw (write_pair, write_bytes, e) refl
  ]

  cmd_generate_key-others :
      (out : Text) (force : Bool) (seed : ℕ) (disk : Disk)
      → ((cmd_generate_key C S out force seed disk).1 ≡ disk)
        ⊎ (((disk.content out ≡ none) ⊎ (force ≡ true))
            × ((p : Text)
                → p ≢ out
                → p ≢ pub_path out
                → (cmd_generate_key C S out force seed disk).1.content p ≡ disk.content p))
  unfolding cmd_generate_key
  cmd_generate_key-others out force seed disk = elim (Bool-cases (exists out disk && not force)) [
    | inl e ↦ inl (rw (e, cmd_generate_key) refl)
    | inr e ↦ inr (
      free_path out force disk e,
      (λ p n m.
          rw (e, cmd_generate_key)
            (write_pair-others out (S.generate_private_key seed) disk p (bytes_eq-false p out n)
              (bytes_eq-false p (pub_path out) m))),
    )
  ]

  -- Private keys are not overwritten by accident, and nothing else writes: whatever the command line,
  -- the files stay as they are, or it was a `generate-key` whose `--out` named no file or that had
  -- `--force`, and it changed no file but that one and the one with `.pub` behind it.
  pub main-Writes :
      (argv : List Text) (seed : ℕ) (disk : Disk)
      → ((main C S argv seed disk).1 ≡ disk) ⊎ Writes C S argv disk (main C S argv seed disk).1
  unfolding main bytes_eq
  main-Writes argv seed disk = go (parse_command build_parser false argv) refl
    where
      after : Outcome (Text × Settings) → Disk
      after p =
          (elim p as (λ x. Outcome (Result (ℕ × Printed)) × Disk) [
            | exits status ↦ (exits status, disk)
            | runs (name, args) ↦
                if bytes_eq (codes "generate-key") name
                then (let made =
                      generate C S (text_of (codes "--out") args) (switch_of (codes "--force") args)
                        seed disk in
                    (runs made.0, made.1))
                else (runs (func C S name args seed disk), disk)
          ]).1

      made :
          (name : Text) (args : Settings) (out : Result Text) (force : Result Bool)
          → parse_command build_parser false argv ≡ runs (name, args)
          → bytes_eq (codes "generate-key") name ≡ true
          → text_of (codes "--out") args ≡ out
          → switch_of (codes "--force") args ≡ force
          → ((generate C S out force seed disk).1 ≡ disk)
            ⊎ Writes C S argv disk (generate C S out force seed disk).1
      made name args (raise e) force q is_name ho hf = inl (unfold generate in refl)
      made name args (ok out) (raise e) q is_name ho hf = inl (unfold generate in refl)
      made name args (ok out) (ok force) q is_name ho hf =
          unfold generate in
          elim (cmd_generate_key-others out force seed disk) [
            | inl same ↦ inl same
            | inr (allowed, others) ↦ inr (record {
              args = args;
              out = out;
              force = force;
              asked =
                  q
                  ∙ ap (λ n. runs (n, args))
                      (sym (bytes_eq→eq (codes "generate-key") name is_name));
              out_given = ho;
              force_given = hf;
              allowed = allowed;
              others = others;
            })
          ]

      go :
          (p : Outcome (Text × Settings))
          → parse_command build_parser false argv ≡ p
          → (after p ≡ disk) ⊎ Writes C S argv disk (after p)
      go (exits n) q = inl refl
      go (runs (name, args)) q = elim (Bool-cases (bytes_eq (codes "generate-key") name)) [
        | inl e ↦ rw e (made name args _ _ q e refl refl)
        | inr e ↦ rw e (inl refl)
      ]
