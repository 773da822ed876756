-- ===== src/Node/Main.antt =====
-- `main` of node/verifier_node.py: the command line in front of `run`.
pub mod Earned
use noethrion.Base.{ℕ, suc, ◌-◌, Bool, false, Option, List, [], ◌∷◌, leb, if◌then◌else◌}
use noethrion.Base.Int.{ℤ, pos, negsuc}
use noethrion.Python.Result.{Result, ok, ◌>>=◌}
use noethrion.Python.Bytes.{Bytes}
use noethrion.Python.Text.{Text, codes}
use noethrion.Python.Argparse.{
  text, number, switch, text_value, number_value, switch_value, Opt, required_option,
  default_option, Outcome, exits, runs, Settings, parse_args, text_of, number_of, switch_of,
}
use noethrion.Crypto.{Crypto}
use noethrion.Node.{Web3, OnChainBatch, DataDir, Report}
use noethrion.Node.Run.{Ended, exit_code, run}
use noethrion.Node.Run.Reconciled.{watched}
use mathlib.Core.Option

abbrev pub node_options : List Opt
node_options =
    required_option (codes "--rpc") text
    ∷ required_option (codes "--attester") text
    ∷ required_option (codes "--chain-id") number
    ∷ default_option (codes "--data-dir") text (text_value (codes "./published"))
    ∷ default_option (codes "--start-epoch") number (number_value (pos 1))
    ∷ default_option (codes "--interval") number (number_value (pos 30))
    ∷ default_option (codes "--once") switch (switch_value false)
    ∷ []

-- The namespace. The rounds do not depend on the interval.
pub record Args : Type 0 where
  pub rpc : Text
  pub attester : Text
  pub chain_id : ℤ
  pub data_dir : Text
  pub start_epoch : ℤ
  pub interval : ℤ
  pub once : Bool

unfoldable pub args_of : Settings → Result Args
args_of settings = do
  rpc ← text_of (codes "--rpc") settings
  attester ← text_of (codes "--attester") settings
  chain_id ← number_of (codes "--chain-id") settings
  data_dir ← text_of (codes "--data-dir") settings
  start_epoch ← number_of (codes "--start-epoch") settings
  interval ← number_of (codes "--interval") settings
  once ← switch_of (codes "--once") settings
  ok (record {
    rpc = rpc;
    attester = attester;
    chain_id = chain_id;
    data_dir = data_dir;
    start_epoch = start_epoch;
    interval = interval;
    once = once;
  })

-- `p.parse_args()`
unfoldable pub parse : List Text → Outcome (Result Args)
unfolding args_of
parse argv = elim (parse_args node_options argv) [
  | exits status ↦ exits status
  | runs settings ↦ runs (args_of settings)
]

-- What a run meets: whether an RPC answers, what it gives for the attester's `batches(epoch)` in a
-- round, and what a directory holds then. `refused` is the report on a negative epoch or chain id,
-- which the ABI has no encoding of.
pub record World : Type 0 where
  pub connects : Text → Bool
  pub chain : Text → Text → ℕ → ℕ → Result OnChainBatch
  pub directory : Text → ℕ → DataDir
  pub refused : Args → ℕ → ℤ → Result Report

-- -(n + 1) + k
unfoldable pub from_negative : ℕ → ℕ → ℤ
from_negative n k = if leb k n then negsuc (n - k) else pos (k - suc n)

module _ (W : Web3) (sha256 : Bytes → Bytes) (C : Crypto) (world : World) where
  -- The report of a round on an epoch.
  unfoldable pub report : Args → ℕ → ℤ → Result Report
  report args t (pos e) = elim args.chain_id [
    | pos c ↦
        watched W sha256 C args.attester c (world.chain args.rpc args.attester)
          (world.directory args.data_dir) t e
    | negsuc c ↦ world.refused args t (pos e)
  ]
  report args t (negsuc e) = world.refused args t (negsuc e)

  -- `run(args)`. Behind a negative start the loop's number `k` stands for the epoch `start + k`.
  unfoldable pub run_args : Args → ℕ → Option Ended
  unfolding report from_negative
  run_args args rounds = elim args.start_epoch [
    | pos n ↦ run (world.connects args.rpc) args.once n (λ t e. report args t (pos e)) rounds
    | negsuc n ↦
        run (world.connects args.rpc) args.once 0 (λ t k. report args t (from_negative n k)) rounds
  ]

  -- `main`, for a number of rounds: the status, or none where the node still runs.
  unfoldable pub main : List Text → ℕ → Outcome (Result (Option ℕ))
  unfolding parse run_args
  main argv rounds = elim (parse argv) [
    | exits status ↦ exits status
    | runs r ↦ runs (do args ← r; ok (Option.map exit_code (run_args args rounds)))
  ]
