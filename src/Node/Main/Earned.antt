-- ===== src/Node/Main/Earned.antt =====
-- Status 0 of `main` (node/verifier_node.py) under `--once`.
use mathlib.Core.Option
use mathlib.Core.Option.{some-injective}
use noethrion.Base.{
  arith, ℕ, ◌≡◌, ◌≢◌, refl, sym, ap, ◌∙◌, Bool, true, false, inl, inr, Option, none, some, List,
}
use noethrion.Base.Int.{pos}
use noethrion.Python.Result.{Result, ok, raise, system_exit, keyboard_interrupt, ok_injective}
use noethrion.Python.Bytes.{Bytes, bytes_eq}
use noethrion.Python.Text.{Text, codes}
use noethrion.Python.Argparse.{Outcome, exits, runs, Settings, find_flag, parse_args}
use noethrion.Python.Argparse.Typed.{HasType, IsParser}
use noethrion.Python.Argparse.Settled.{runs_injective, parse_args-HasType}
use noethrion.Python.Argparse.Values.{text_of-HasType, number_of-HasType, switch_of-HasType}
use noethrion.Crypto.{Crypto}
use noethrion.Node.{Web3, all_ok, alarm, skip, Report}
use noethrion.Node.Run.{
  RunState, Ended, exited, stopped, exit_code, interrupted, round, on_alarm, run, initial,
}
use noethrion.Node.Run.Invariant.{here, run_loop-EndsAfter}
use noethrion.Node.Run.Reconciled.{watched, UpToDate, once_zero-UpToDate}
use noethrion.Node.Main.{node_options, Args, args_of, parse, World, report, run_args, main}

node_options-IsParser : IsParser node_options
unfolding find_flag bytes_eq
node_options-IsParser = (
  (refl, tt),
  ((refl, tt), ((refl, tt), ((refl, tt), ((refl, tt), ((refl, tt), ((refl, tt), tt)))))),
)

-- The settings of an accepted command line are a namespace.
args_of-HasType :
    (settings : Settings)
    → HasType node_options settings
    → (args : Args) × (args_of settings ≡ ok args)
unfolding args_of find_flag bytes_eq
args_of-HasType s h =
    let (rpc, h₁) = text_of-HasType node_options s h (codes "--rpc") refl in
    let (attester, h₂) = text_of-HasType node_options s h (codes "--attester") refl in
    let (chain_id, h₃) = number_of-HasType node_options s h (codes "--chain-id") refl in
    let (data_dir, h₄) = text_of-HasType node_options s h (codes "--data-dir") refl in
    let (start, h₅) = number_of-HasType node_options s h (codes "--start-epoch") refl in
    let (interval, h₆) = number_of-HasType node_options s h (codes "--interval") refl in
    let (once, h₇) = switch_of-HasType node_options s h (codes "--once") refl in
    (
      record {
        rpc = rpc;
        attester = attester;
        chain_id = chain_id;
        data_dir = data_dir;
        start_epoch = start;
        interval = interval;
        once = once;
      },
      rw (h₁, h₂, h₃, h₄, h₅, h₆, h₇) refl,
    )

-- A round that is interrupted was interrupted by Ctrl-C.
round-interrupted :
    (once : Bool) (s : RunState) (r : Result Report)
    → round once s r ≡ interrupted
    → r ≡ raise keyboard_interrupt
unfolding round on_alarm
round-interrupted once s (ok (all_ok, details)) h = cc
round-interrupted once s (ok (alarm, details)) h = ground arith
round-interrupted once s (ok (skip, details)) h = ground arith
round-interrupted once s (raise system_exit) h = ground arith
round-interrupted once s (raise keyboard_interrupt) h = refl
round-interrupted once s (raise _) h = ground arith

-- Every command line that argparse accepts gives a namespace with all seven attributes.
pub parse-ok :
    (argv : List Text) {r : Result Args} → parse argv ≡ runs r → (args : Args) × (r ≡ ok args)
unfolding parse
parse-ok argv {r} h = go (parse_args node_options argv) refl h
  where
    go :
        (o : Outcome Settings)
        → parse_args node_options argv ≡ o
        → (elim o [ exits status ↦ exits status | runs settings ↦ runs (args_of settings) ])
          ≡ runs r
        → (args : Args) × (r ≡ ok args)
    go (exits n) q k = cc
    go (runs settings) q k =
        let (args, e) =
          args_of-HasType settings (parse_args-HasType node_options node_options-IsParser argv q) in
        (args, sym (runs_injective k) ∙ e)

-- A connected run in a world without Ctrl-C does not stop by it.
run-stopped :
    (once : Bool) (reports : ℕ → ℕ → Result Report) (start rounds : ℕ)
    → ((t e : ℕ) → reports t e ≢ raise keyboard_interrupt)
    → run true once start reports rounds ≢ some stopped
unfolding run
run-stopped once reports start rounds quiet h =
    let x = run_loop-EndsAfter once reports rounds 0 0 (initial start) (initial start) here h in
    elim x.final [
      | inl (code, s, e, same) ↦ cc same
      | inr (e, same) ↦ absurd (quiet x.time x.state.epoch (round-interrupted once x.state _ e))
    ]

module _ (W : Web3) (sha256 : Bytes → Bytes) (C : Crypto) (world : World) (args : Args)
    (chain_id start : ℕ) where
  abbrev seen : ℕ → ℕ → Result Report
  seen =
      watched W sha256 C args.attester chain_id (world.chain args.rpc args.attester)
        (world.directory args.data_dir)

  run_args-run :
      (rounds : ℕ)
      → args.chain_id ≡ pos chain_id
      → args.start_epoch ≡ pos start
      → run_args W sha256 C world args rounds
        ≡ run (world.connects args.rpc) args.once start seen rounds
  unfolding run_args report
  run_args-run rounds chain from = rw (from, chain) refl

  -- What the final state stands for, on the chain and the directory that the command line names.
  abbrev pub Earned : ℕ → RunState → Type 0
  Earned rounds s =
      UpToDate W sha256 C args.attester chain_id (world.chain args.rpc args.attester)
        (world.directory args.data_dir) start rounds s

  run-UpToDate :
      (connected : Bool) (rounds : ℕ)
      → ((t e : ℕ) → seen t e ≢ raise keyboard_interrupt)
      → Option.map exit_code (run connected true start seen rounds) ≡ some 0
      → (s : RunState) × (run connected true start seen rounds ≡ some (exited 0 s))
        × Earned rounds s
  unfolding run
  run-UpToDate false rounds quiet h = cc h
  run-UpToDate true rounds quiet h = go (run true true start seen rounds) refl h
    where
      go :
          (o : Option Ended)
          → run true true start seen rounds ≡ o
          → Option.map exit_code o ≡ some 0
          → (s : RunState) × (run true true start seen rounds ≡ some (exited 0 s)) × Earned rounds s
      go none e k = cc k
      go (some stopped) e k = absurd (run-stopped true seen start rounds quiet e)
      go (some (exited code s)) e k =
          let is_zero : code ≡ 0 = some-injective _ _ k in
          let ends = e ∙ ap (λ c. some (exited c s)) is_zero in
          (
            s,
            ends,
            once_zero-UpToDate W sha256 C args.attester chain_id
                (world.chain args.rpc args.attester) (world.directory args.data_dir) start rounds
                ends,
          )

  -- Status 0 of the program under `--once` is earned: on a command line that gives `--once`, a chain
  -- id and a start epoch that are not negative, and in a world without Ctrl-C, `main` returns 0 only
  -- where the run has returned 0 in one of its rounds, which the rounds before it lead to; every epoch
  -- from the start up to the one of the final state was final on the chain that `--rpc` names and was
  -- reconciled with the directory `--data-dir` in one of those earlier rounds; and the epoch of the
  -- final state was read from the chain in the last round and is not proposed or not final yet.
  pub main_zero-UpToDate :
      (argv : List Text) (rounds : ℕ)
      → parse argv ≡ runs (ok args)
      → args.once ≡ true
      → args.chain_id ≡ pos chain_id
      → args.start_epoch ≡ pos start
      → ((t e : ℕ) → seen t e ≢ raise keyboard_interrupt)
      → main W sha256 C world argv rounds ≡ runs (ok (some 0))
      → (s : RunState) × (run_args W sha256 C world args rounds ≡ some (exited 0 s))
        × Earned rounds s
  unfolding main
  main_zero-UpToDate argv rounds parsed once chain from quiet h =
      let ended : Option.map exit_code (run_args W sha256 C world args rounds) ≡ some 0 =
        ok_injective (runs_injective (rw (parsed, main) at h)) in
      let same : run_args W sha256 C world args rounds
          ≡ run (world.connects args.rpc) true start seen rounds =
        run_args-run rounds chain from
        ∙ ap (λ b. run (world.connects args.rpc) b start seen rounds) once in
      let (s, ends, earned) =
        run-UpToDate (world.connects args.rpc) rounds quiet
          (ap (λ o. Option.map exit_code o) (sym same) ∙ ended) in
      (s, same ∙ ends, earned)
