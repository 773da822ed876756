-- ===== src/Tests/Rounds.antt =====
-- Runs of the node on epochs that somebody has looked at.
use noethrion.Base.{
  ℕ, ◌+◌, ◌≡◌, ◌≢◌, ◌<◌, refl, true, false, none, some, List, [], arith, ◌==◌, if◌then◌else◌, inl,
  inr,
}
use noethrion.Python.Result.{Result, ok, raise, keyboard_interrupt}
use noethrion.Node.{Report, Detail, all_ok, alarm}
use noethrion.Node.Run.{RunState, Ended, exited, run, run_loop, round, on_alarm, initial}
use noethrion.Node.Run.Invariant.{Reach, here, next, IsSound, Reach-IsSound}
use noethrion.Node.Run.Exit.{LastRound, once_exit, once_ends, daemon_goes_on}

-- Epoch 5 is in order, epoch 6 raises the alarm.
unfoldable world : ℕ → ℕ → Result Report
world t e = if e == 5 then ok (all_ok, []) else ok (alarm, [])

abbrev after_alarm : RunState
after_alarm = record { epoch = 6; last_verified = some 5; alarms = 1 }

alarm_ends : run true true 5 world 10 ≡ some (exited 1 after_alarm)
unfolding run run_loop round on_alarm world
alarm_ends = refl

once_exit_example : LastRound world 5 10 1 after_alarm
once_exit_example = once_exit world 5 10 1 alarm_ends

two_rounds : 1 < 10
two_rounds = omega arith

not_in_order : (details : List Detail) → world 1 (5 + 1) ≢ ok (all_ok, details)
unfolding world
not_in_order details e = cc e

once_ends_example : (ended : Ended) × (run true true 5 world 10 ≡ some ended)
once_ends_example = once_ends world 5 1 10 two_rounds not_in_order

no_interrupt : (t e : ℕ) → world t e ≢ raise keyboard_interrupt
unfolding world
no_interrupt t e h = ground arith

daemon_goes_on_example : run true false 5 world 100 ≡ none
daemon_goes_on_example = daemon_goes_on world no_interrupt 5 100

reached : Reach false world 0 (initial 5) 2 after_alarm
unfolding round on_alarm world
reached = next (next here (inl refl)) (inr refl)

Reach-IsSound_example : IsSound false world 5 2 after_alarm
Reach-IsSound_example = Reach-IsSound false world 5 reached
