-- ===== src/Tests/Watched.antt =====
-- A run of the node against a chain with one final epoch.
use noethrion.Base.{ℕ, ◌≡◌, ◌≤◌, ◌<◌, refl, true, false, some, inl, arith, ◌==◌, if◌then◌else◌}
use noethrion.Python.Result.{Result, ok}
use noethrion.Leaf.Encoding.{address_text}
use noethrion.Node.{Report, OnChainBatch, DataDir}
use noethrion.Python.Json.{as_str}
use noethrion.Node.Epoch.{verify_epoch}
use noethrion.Node.Run.{RunState, again, exit, run, run_loop, round, initial, exited}
use noethrion.Node.Run.Invariant.{Reach, here, next}
use noethrion.Node.Run.Reconciled.{
  watched, ReconciledBy, Reach-ReconciledBy, UpToDate, once_zero-UpToDate,
}
use noethrion.Tests.Values.{digest, alice, crypto, web3}
use noethrion.Tests.Epochs.{on_chain, honest, epoch_verified}

-- Nothing is proposed behind epoch 1.
abbrev pub chain : ℕ → ℕ → Result OnChainBatch
chain t e =
    if e == 1 then ok on_chain else ok (record on_chain { timestamp = 0; finalized = false })

abbrev pub published : ℕ → DataDir
published t = honest

abbrev pub reports : ℕ → ℕ → Result Report
reports = watched web3 digest crypto (address_text alice.attester) 31337 chain published

abbrev pub after_one : RunState
after_one = record { epoch = 2; last_verified = some 1; alarms = 0 }

-- The attester's address is in order.
pub reports-chain :
    (t e : ℕ)
    → reports t e
      ≡ verify_epoch web3 digest crypto (address_text alice.attester) 31337 (chain t e) e honest
unfolding as_str
reports-chain t e = refl

first_round : round true (initial 1) (reports 0 1) ≡ again after_one
unfolding round
first_round = rw (reports-chain, epoch_verified) refl

second_round : round true after_one (reports 1 2) ≡ exit 0 after_one
unfolding round verify_epoch as_str
second_round = refl

pub ends_with_zero : run true true 1 reports 10 ≡ some (exited 0 after_one)
unfolding run run_loop
ends_with_zero = rw (run_loop, first_round, second_round)

once_zero-UpToDate_example :
    UpToDate web3 digest crypto (address_text alice.attester) 31337 chain published 1 10 after_one
once_zero-UpToDate_example =
    once_zero-UpToDate web3 digest crypto (address_text alice.attester) 31337 chain published 1 10
      ends_with_zero

reached : Reach false reports 0 (initial 1) 1 after_one
unfolding round
reached = next here (inl (rw (reports-chain, epoch_verified) refl))

from_one : 1 ≤ 1
from_one = omega arith

below_two : 1 < 2
below_two = omega arith

Reach-ReconciledBy_example :
    ReconciledBy web3 digest crypto (address_text alice.attester) 31337 chain published 1 1
Reach-ReconciledBy_example =
    Reach-ReconciledBy web3 digest crypto (address_text alice.attester) 31337 chain published false
      1 reached 1 from_one below_two
