-- ===== src/Node/Run.antt =====
-- `run` of node/verifier_node.py, and how `main` ends with it. The interval is one that time.sleep
-- accepts.
pub mod Invariant
pub mod Exit
pub mod Reconciled
use noethrion.Base.{ℕ, zero, suc, ◌+◌, ◌==◌, Bool, Option, none, some, [], if◌then◌else◌}
use noethrion.Python.Result.{Result, ok, raise, system_exit, keyboard_interrupt}
use noethrion.Node.{Report, all_ok, alarm, skip}

-- The variables of the loop.
pub record RunState : Type 0 where
  pub epoch : ℕ
  pub last_verified : Option ℕ
  pub alarms : ℕ

-- What a round does: return, go on at once, sleep for the interval, or let Ctrl-C through.
pub data Next : Type 0 where
  exit : ℕ → RunState → Next
  again sleep : RunState → Next
  interrupted : Next

-- `1 if alarms else code`
abbrev pub one_if_alarms : RunState → ℕ → ℕ
one_if_alarms s code = if s.alarms == 0 then code else 1

-- An ALARM: count it; the epoch stays.
unfoldable pub on_alarm : Bool → RunState → Next
on_alarm once s =
    let s' = record s { alarms = s.alarms + 1 } in if once then exit 1 s' else sleep s'

-- One round of the loop, from what `verify_epoch` gave.
unfoldable pub round : Bool → RunState → Result Report → Next
unfolding on_alarm
round once s (ok (all_ok, details)) =
    again (record s { epoch = s.epoch + 1; last_verified = some s.epoch })
round once s (ok (alarm, details)) = on_alarm once s
round once s (ok (skip, details)) = if once then exit (one_if_alarms s 0) s else sleep s
round once s (raise system_exit) = on_alarm once s
round once s (raise keyboard_interrupt) = interrupted
round once s (raise e) = if once then exit (one_if_alarms s 2) s else sleep s

-- How a run ends: by itself, or by Ctrl-C, which `main` turns into exit code 0.
pub data Ended : Type 0 where
  exited : ℕ → RunState → Ended
  stopped : Ended

abbrev pub exit_code : Ended → ℕ
exit_code (exited code s) = code
exit_code stopped = 0

-- `while True`. `world t e` is what `verify_epoch` gives for the epoch `e` in the round `t`; `none`
-- means that the run still goes on after the rounds given.
unfoldable pub run_loop : Bool → (ℕ → ℕ → Result Report) → ℕ → ℕ → RunState → Option Ended
unfolding round
run_loop once world zero t s = none
run_loop once world (suc rounds) t s = elim (round once s (world t s.epoch)) [
  | exit code s' ↦ some (exited code s')
  | again s' ↦ run_loop once world rounds (suc t) s'
  | sleep s' ↦ run_loop once world rounds (suc t) s'
  | interrupted ↦ some stopped
]

abbrev pub initial : ℕ → RunState
initial start_epoch = record { epoch = start_epoch; last_verified = none; alarms = 0 }

-- `run`: no connection is exit code 2.
unfoldable pub run : Bool → Bool → ℕ → (ℕ → ℕ → Result Report) → ℕ → Option Ended
unfolding run_loop
run connected once start_epoch world rounds =
    if connected
    then run_loop once world rounds 0 (initial start_epoch)
    else some (exited 2 (initial start_epoch))
