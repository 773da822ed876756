-- ===== src/Tests/NodeLine.antt =====
-- A command line of node/verifier_node.py, with abbreviated flags and `=`, on the chain of Tests/Watched.
use noethrion.Base.{
  ℕ, ◌≡◌, ◌≢◌, refl, ap, ==_iff, true, some, List, [], ◌∷◌, Bool-cases, inl, inr, ◌==◌,
}
use noethrion.Base.Int.{pos}
use noethrion.Python.Result.{ok, raise, value_error, keyboard_interrupt}
use noethrion.Python.Bytes
use noethrion.Python.Text.{Text, codes}
use noethrion.Python.Number
use noethrion.Python.Argparse
use noethrion.Python.Argparse.{runs}
use noethrion.Leaf.Encoding.{address_text}
use noethrion.Python.Json.{as_str}
use noethrion.Node.Epoch.{verify_epoch}
use noethrion.Node.Run.{RunState, exited}
use noethrion.Node.Run.Reconciled.{UpToDate}
use noethrion.Node.Main.{Args, args_of, parse, World, report, run_args, main}
use noethrion.Node.Main.Earned.{main_zero-UpToDate}
use noethrion.Tests.Values.{digest, alice, crypto, web3}
use noethrion.Tests.Epochs.{epoch_verified}
use noethrion.Tests.Watched.{chain, published, reports, ends_with_zero, reports-chain}

abbrev argv : List Text
argv =
    codes "--rpc=http://127.0.0.1:8545"
    ∷ codes "--att"
    ∷ address_text alice.attester
    ∷ codes "--chain-id"
    ∷ codes "31337"
    ∷ codes "--once"
    ∷ []

abbrev args : Args
args = record {
  rpc = codes "http://127.0.0.1:8545";
  attester = address_text alice.attester;
  chain_id = pos 31337;
  data_dir = codes "./published";
  start_epoch = pos 1;
  interval = pos 30;
  once = true;
}

parsed : parse argv ≡ runs (ok args)
unfolding parse args_of Argparse.parse_args Argparse.tokens Argparse.consume Argparse.finish
    Argparse.complete Argparse.value_of Argparse.lookup Argparse.meet Argparse.accept
    Argparse.member Argparse.classify Argparse.dashed Argparse.long_option Argparse.only_one
    Argparse.abbreviated Argparse.starts_with Argparse.find_flag Argparse.split_eq Argparse.text_of
    Argparse.number_of Argparse.switch_of Number.int_of_text Bytes.bytes_eq
parsed = refl

abbrev world : World
world = record {
  connects = λ rpc. true;
  chain = λ rpc attester. chain;
  directory = λ path. published;
  refused = λ args t e. raise value_error;
}

quiet : (t e : ℕ) → reports t e ≢ raise keyboard_interrupt
unfolding verify_epoch as_str
quiet t e h = elim (Bool-cases (e == 1)) [
  | inl one ↦
      let first : e ≡ 1 = (==_iff e 1).0 one in
      cc (ap (λ k. reports t k) first, reports-chain t 1, epoch_verified, h)
  | inr other ↦ cc (rw (other, verify_epoch) at h)
]

main_zero : main web3 digest crypto world argv 10 ≡ runs (ok (some 0))
unfolding main run_args report
main_zero = rw (parsed, main, ends_with_zero) refl

main_zero-UpToDate_example :
    (s : RunState) × (run_args web3 digest crypto world args 10 ≡ some (exited 0 s))
    × UpToDate web3 digest crypto (address_text alice.attester) 31337 chain published 1 10 s
main_zero-UpToDate_example =
    main_zero-UpToDate web3 digest crypto world args 31337 1 argv 10 parsed refl refl refl quiet
      main_zero
