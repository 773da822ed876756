-- ===== src/Node/Run/Exit.antt =====
-- How `run` and `main` (node/verifier_node.py) end, and what the exit code says.
use noethrion.Base.{
  ℕ, zero, suc, ◌+◌, ◌<◌, ◌≡◌, ◌≢◌, refl, sym, ap, ap₂, subst, ◌∙◌, true, false, ◌⊎◌, inl, inr,
  none, some, List, arith,
}
use noethrion.Python.Result.{Exn, Result, ok, raise, system_exit, keyboard_interrupt}
use noethrion.Node.{Report, Detail, all_ok, alarm, skip}
use noethrion.Node.Run.{
  RunState, exit, again, sleep, interrupted, round, run_loop, run, initial, Ended, exited, stopped,
}
use noethrion.Node.Run.Invariant.{Reach, here, next, IsSound, Reach-IsSound, run_loop-EndsAfter}

-- What an exit code of `--once` says of the last report: nothing new, an alarm, or an error on the way.
abbrev pub Explains : ℕ → Result Report → Type 0
Explains zero r = (details : List Detail) × (r ≡ ok (skip, details))
Explains (suc zero) r =
    ((details : List Detail) × (r ≡ ok (alarm, details))) ⊎ (r ≡ raise system_exit)
Explains (suc (suc zero)) r =
    (e : Exn) × (r ≡ raise e) × (e ≢ system_exit) × (e ≢ keyboard_interrupt)
Explains _ r = ⊥

-- A round under `--once` that goes on does not count an alarm.
once_alarms :
    (s s' : RunState) (r : Result Report)
    → (round true s r ≡ again s') ⊎ (round true s r ≡ sleep s')
    → s'.alarms ≡ s.alarms
unfolding round
once_alarms s s' (ok (all_ok, details)) h = ground arith
once_alarms s s' (ok (alarm, details)) h = ground arith
once_alarms s s' (ok (skip, details)) h = ground arith
once_alarms s s' (raise system_exit) h = ground arith
once_alarms s s' (raise keyboard_interrupt) h = ground arith
once_alarms s s' (raise _) h = ground arith

once_exit_explained :
    (s s' : RunState) (code : ℕ) (r : Result Report)
    → s.alarms ≡ 0
    → round true s r ≡ exit code s'
    → Explains code r
unfolding round
once_exit_explained s s' code (ok (all_ok, details)) a h = ground arith
once_exit_explained s s' code (ok (alarm, details)) a h =
    let is_code : 1 ≡ code = ground arith in
    subst (λ c. Explains c (ok (alarm, details))) is_code (inl (details, refl))
once_exit_explained s s' code (ok (skip, details)) a h =
    let is_code : 0 ≡ code = ground arith in
    subst (λ c. Explains c (ok (skip, details))) is_code (details, refl)
once_exit_explained s s' code (raise system_exit) a h =
    let is_code : 1 ≡ code = ground arith in
    subst (λ c. Explains c (raise system_exit)) is_code (inr refl)
once_exit_explained s s' code (raise keyboard_interrupt) a h = ground arith
once_exit_explained s s' code (raise e) a h =
    let is_code : 2 ≡ code = ground arith in
    subst (λ c. Explains c (raise e)) is_code (e, refl, (λ q. cc), (λ q. cc))

-- With a world in which nobody presses Ctrl-C the daemon goes on for ever.
round_daemon :
    (s : RunState) (r : Result Report)
    → r ≢ raise keyboard_interrupt
    → (s' : RunState) × ((round false s r ≡ again s') ⊎ (round false s r ≡ sleep s'))
unfolding round
round_daemon s (ok (all_ok, details)) h = (_, inl refl)
round_daemon s (ok (alarm, details)) h = (_, inr refl)
round_daemon s (ok (skip, details)) h = (_, inr refl)
round_daemon s (raise system_exit) h = (_, inr refl)
round_daemon s (raise keyboard_interrupt) h = absurd (h refl)
round_daemon s (raise _) h = (s, inr refl)

daemon_loop :
    (world : ℕ → ℕ → Result Report)
    → ((t e : ℕ) → world t e ≢ raise keyboard_interrupt)
    → (rounds t : ℕ) (s : RunState) → run_loop false world rounds t s ≡ none
unfolding run_loop
daemon_loop world quiet zero t s = refl
daemon_loop world quiet (suc rounds) t s =
    let (s', m) = round_daemon s (world t s.epoch) (quiet t s.epoch) in
    let rest = daemon_loop world quiet rounds (suc t) s' in
    elim m [ inl e ↦ rw (run_loop, e) rest | inr e ↦ rw (run_loop, e) rest ]

-- Without Ctrl-C, and with an interval that time.sleep accepts, a daemon that has connected never
-- returns, whatever the node sees: neither an alarm nor an error ends it.
pub daemon_goes_on :
    (world : ℕ → ℕ → Result Report)
    → ((t e : ℕ) → world t e ≢ raise keyboard_interrupt)
    → (start rounds : ℕ) → run true false start world rounds ≡ none
unfolding run
daemon_goes_on world quiet start rounds = daemon_loop world quiet rounds 0 (initial start)

-- A round under `--once` on anything but an OK ends the run.
round_once :
    (s : RunState) (r : Result Report)
    → ((details : List Detail) → r ≢ ok (all_ok, details))
    → ((code : ℕ) × (s' : RunState) × (round true s r ≡ exit code s'))
      ⊎ (round true s r ≡ interrupted)
unfolding round
round_once s (ok (all_ok, details)) h = absurd (h details refl)
round_once s (ok (alarm, details)) h = inl (_, _, refl)
round_once s (ok (skip, details)) h = inl (_, _, refl)
round_once s (raise system_exit) h = inl (_, _, refl)
round_once s (raise keyboard_interrupt) h = inr refl
round_once s (raise _) h = inl (_, s, refl)

-- A round under `--once` on an OK goes on to the next epoch.
once_next :
    (s : RunState) (r : Result Report)
    → ((details : List Detail) → r ≢ ok (all_ok, details))
      ⊎ ((s' : RunState) × (s'.epoch ≡ s.epoch + 1) × (round true s r ≡ again s'))
unfolding round
once_next s (ok (all_ok, details)) = inr (_, refl, refl)
once_next s (ok (alarm, details)) = inl (λ d e. cc)
once_next s (ok (skip, details)) = inl (λ d e. cc)
once_next s (raise e) = inl (λ d e. cc)

once_loop_ends :
    (world : ℕ → ℕ → Result Report) (n rounds t : ℕ) (s : RunState)
    → n < rounds
    → ((details : List Detail) → world (t + n) (s.epoch + n) ≢ ok (all_ok, details))
    → (ended : Ended) × (run_loop true world rounds t s ≡ some ended)
unfolding run_loop
once_loop_ends world n zero t s lt bad = absurd (omega arith)
once_loop_ends world zero (suc rounds) t s lt bad =
    let p : t + 0 ≡ t = omega arith in
    let q : s.epoch + 0 ≡ s.epoch = omega arith in
    elim (round_once s (world t s.epoch) (λ details e. bad details (ap₂ world p q ∙ e))) [
      | inl (code, s', e) ↦ (exited code s', rw (run_loop, e))
      | inr e ↦ (stopped, rw (run_loop, e))
    ]
once_loop_ends world (suc n) (suc rounds) t s lt bad = elim (once_next s (world t s.epoch)) [
  | inl other ↦ elim (round_once s (world t s.epoch) other) [
    | inl (code, s', e) ↦ (exited code s', rw (run_loop, e))
    | inr e ↦ (stopped, rw (run_loop, e))
  ]
  | inr (s', up, e) ↦
      let p : t + suc n ≡ suc t + n = omega arith in
      let q : s.epoch + suc n ≡ s'.epoch + n = omega arith in
      let rest =
        once_loop_ends world n rounds (suc t) s' (omega arith)
          (λ details e. bad details (ap₂ world p q ∙ e)) in
      rw (run_loop, e) rest
]

-- `--once` ends: if some later epoch is not found in order in the round in which the run would come to
-- it, the run has returned by the end of that round.
pub once_ends :
    (world : ℕ → ℕ → Result Report) (start n rounds : ℕ)
    → n < rounds
    → ((details : List Detail) → world n (start + n) ≢ ok (all_ok, details))
    → (ended : Ended) × (run true true start world rounds ≡ some ended)
unfolding run
once_ends world start n rounds lt bad =
    let p : 0 + n ≡ n = omega arith in
    once_loop_ends world n rounds 0 (initial start) lt
      (λ details e. bad details (ap (λ t. world t (start + n)) (sym p) ∙ e))

Reach-alarms :
    (world : ℕ → ℕ → Result Report) (start : ℕ) {t : ℕ} {s : RunState}
    → Reach true world 0 (initial start) t s
    → s.alarms ≡ 0
Reach-alarms world start here = refl
Reach-alarms world start (next {t = t} {s = s} {s' = s'} r h) =
    once_alarms s s' (world t s.epoch) h ∙ Reach-alarms world start r

round_exit_epoch :
    (s s' : RunState) (code : ℕ) (r : Result Report)
    → round true s r ≡ exit code s'
    → s.epoch ≡ s'.epoch
unfolding round
round_exit_epoch s s' code (ok (all_ok, details)) h = ground arith
round_exit_epoch s s' code (ok (alarm, details)) h = ground arith
round_exit_epoch s s' code (ok (skip, details)) h = ground arith
round_exit_epoch s s' code (raise system_exit) h = ground arith
round_exit_epoch s s' code (raise keyboard_interrupt) h = ground arith
round_exit_epoch s s' code (raise _) h = ground arith

-- The round that ended a run of at most `rounds` rounds with this code and this final state: the state
-- in front of it was reached by the rounds before, and the round itself exits.
pub record LastRound (world : ℕ → ℕ → Result Report) (start rounds code : ℕ) (final : RunState)
    : Type 0 where
  pub time : ℕ
  pub in_time : time < rounds
  pub state : RunState
  pub reached : Reach true world 0 (initial start) time state
  pub exits : round true state (world time state.epoch) ≡ exit code final
  pub same_epoch : state.epoch ≡ final.epoch
  pub sound : IsSound true world start time state
  pub explained : Explains code (world time state.epoch)

-- The exit code of a connected `--once` run is right: it ended in one of its rounds, which the rounds
-- before it lead to; all epochs from the first up to the one of that round were found in order in
-- earlier rounds; and the report of that very round was SKIP for 0, ALARM or SystemExit for 1, and any
-- other exception for 2.
pub once_exit :
    (world : ℕ → ℕ → Result Report) (start rounds code : ℕ) {s : RunState}
    → run true true start world rounds ≡ some (exited code s)
    → LastRound world start rounds code s
unfolding run
once_exit world start rounds code {s} h =
    let x = run_loop-EndsAfter true world rounds 0 0 (initial start) (initial start) here h in
    elim x.final [
      | inl (c, s', e, same) ↦
          let is_code : c ≡ code = cc same in
          let is_final : s' ≡ s = cc same in
          record {
            time = x.time;
            in_time = omega (arith, x.in_time);
            state = x.state;
            reached = x.reached;
            exits = e ∙ ap₂ exit is_code is_final;
            same_epoch =
                round_exit_epoch x.state s' c _ e ∙ ap (λ (q : RunState). q.epoch) is_final;
            sound = Reach-IsSound true world start x.reached;
            explained =
                subst (λ k. Explains k (world x.time x.state.epoch)) is_code
                  (once_exit_explained x.state s' c _ (Reach-alarms world start x.reached) e);
          }
      | inr (e, same) ↦ cc same
    ]
