-- ===== src/Node/Run/Invariant.antt =====
-- The states that the loop of `run` (node/verifier_node.py) passes through, for the daemon and for
-- `--once` alike.
use mathlib.Core.Option.{some-injective}
use native.Mathlib.Decide.{dec_lt}
use noethrion.Base.{
  ℕ, zero, suc, ◌+◌, ◌-◌, ◌≤◌, ◌<◌, ◌≡◌, refl, sym, ap, subst, ◌∙◌, Bool, ◌⊎◌, inl, inr, none, some,
  List, arith,
}
use noethrion.Python.Result.{Exn, Result, ok, raise, system_exit, keyboard_interrupt}
use noethrion.Node.{Report, Detail, all_ok, alarm, skip}
use noethrion.Node.Run.{
  RunState, Next, exit, again, sleep, interrupted, round, run_loop, initial, Ended, exited, stopped,
}

module _ (once : Bool) (world : ℕ → ℕ → Result Report) where
  -- The state in front of the round `t`, from a state in front of an earlier one.
  pub data Reach (t₀ : ℕ) (s₀ : RunState) : ℕ → RunState → Type 0 where
    here : Reach t₀ s₀ t₀ s₀
    next :
        {t : ℕ} {s s' : RunState}
        → Reach t₀ s₀ t s
        → (round once s (world t s.epoch) ≡ again s') ⊎ (round once s (world t s.epoch) ≡ sleep s')
        → Reach t₀ s₀ (suc t) s'

  -- A round that found the epoch in order, in front of the round `t`.
  pub record VerifiedBy (t e : ℕ) : Type 0 where
    pub at : ℕ
    pub before : at < t
    pub details : List Detail
    pub reports : world at e ≡ ok (all_ok, details)

  pub record IsSound (start t : ℕ) (s : RunState) : Type 0 where
    pub from_start : start ≤ s.epoch
    pub verified : (e : ℕ) → start ≤ e → e < s.epoch → VerifiedBy t e
    pub last :
        ((s.epoch ≡ start) × (s.last_verified ≡ none))
        ⊎ ((start < s.epoch) × (s.last_verified ≡ some (s.epoch - 1)))

  later : {t e : ℕ} → VerifiedBy t e → VerifiedBy (suc t) e
  later v = record { at = v.at; before = omega arith; details = v.details; reports = v.reports }

  raise_keeps :
      (s s' : RunState) (e : Exn)
      → (round once s (raise e) ≡ again s') ⊎ (round once s (raise e) ≡ sleep s')
      → (s'.epoch ≡ s.epoch) × (s'.last_verified ≡ s.last_verified)
  unfolding round
  raise_keeps s s' system_exit h = (ground arith, ground arith)
  raise_keeps s s' keyboard_interrupt h = (ground arith, ground arith)
  raise_keeps s s' _ h = (ground arith, ground arith)

  -- What a round that goes on has seen and done: it passed the epoch on an OK, or kept it.
  round_moves :
      (s s' : RunState) (r : Result Report)
      → (round once s r ≡ again s') ⊎ (round once s r ≡ sleep s')
      → ((details : List Detail) × (r ≡ ok (all_ok, details))
          × (s'.epoch ≡ s.epoch + 1)
          × (s'.last_verified ≡ some s.epoch))
        ⊎ ((s'.epoch ≡ s.epoch) × (s'.last_verified ≡ s.last_verified))
  unfolding round
  round_moves s s' (ok (all_ok, details)) (inl h) = inl (details, refl, ground arith, ground arith)
  round_moves s s' (ok (all_ok, details)) (inr h) = cc
  round_moves s s' (ok (alarm, details)) h = inr (ground arith, ground arith)
  round_moves s s' (ok (skip, details)) h = inr (ground arith, ground arith)
  round_moves s s' (raise e) h = inr (raise_keeps s s' e h)

  round-IsSound :
      (start t : ℕ) {s s' : RunState}
      → IsSound start t s
      → (round once s (world t s.epoch) ≡ again s') ⊎ (round once s (world t s.epoch) ≡ sleep s')
      → IsSound start (suc t) s'
  round-IsSound start t {s} {s'} v h = elim (round_moves s s' (world t s.epoch) h) [
    | inl (details, seen, up, last) ↦ record {
      from_start = omega (arith, v.from_start);
      verified = λ e lo hi. elim (dec_lt e s.epoch) [
        | yes old ↦ later (v.verified e lo old)
        | no new ↦
            let same : e ≡ s.epoch = omega arith in
            record { at = t; before = omega arith; details = details; reports = rw same seen }
      ];
      last = inr (omega (arith, v.from_start), last ∙ ap some (omega arith));
    }
    | inr (same, kept) ↦ record {
      from_start = omega (arith, v.from_start);
      verified = λ e lo hi. later (v.verified e lo (omega arith));
      last = elim v.last [
        | inl (at_start, none_yet) ↦ inl (same ∙ at_start, kept ∙ none_yet)
        | inr (past, is_last) ↦ inr (omega arith, kept ∙ is_last ∙ ap some (omega arith))
      ];
    }
  ]

  -- Whatever the node sees, every epoch from the first up to the current one was found in order in an
  -- earlier round, and `last_verified` is the epoch below the current one, if there is one: no epoch
  -- is passed without an OK.
  pub Reach-IsSound :
      (start : ℕ) {t : ℕ} {s : RunState} → Reach 0 (initial start) t s → IsSound start t s
  Reach-IsSound start here = record {
    from_start = omega arith;
    verified = λ e lo hi. absurd (omega arith);
    last = inl (refl, refl);
  }
  Reach-IsSound start (next r h) = round-IsSound start _ (Reach-IsSound start r) h

  -- A run that has ended got there by rounds that went on, and a last one that did not, before `limit`.
  pub record EndsAfter (t₀ limit : ℕ) (s₀ : RunState) (ended : Ended) : Type 0 where
    pub time : ℕ
    pub in_time : time < limit
    pub state : RunState
    pub reached : Reach t₀ s₀ time state
    pub final :
        ((code : ℕ) × (s : RunState) × (round once state (world time state.epoch) ≡ exit code s)
          × (ended ≡ exited code s))
        ⊎ ((round once state (world time state.epoch) ≡ interrupted) × (ended ≡ stopped))

  pub run_loop-EndsAfter :
      (rounds t t₀ : ℕ) (s s₀ : RunState) {ended : Ended}
      → Reach t₀ s₀ t s
      → run_loop once world rounds t s ≡ some ended
      → EndsAfter t₀ (t + rounds) s₀ ended
  unfolding run_loop
  run_loop-EndsAfter zero t t₀ s s₀ r h = cc
  run_loop-EndsAfter (suc rounds) t t₀ s s₀ {ended} r h =
      go (round once s (world t s.epoch)) refl h (λ s' r' k.
        subst (λ l. EndsAfter t₀ l s₀ ended) (one_more t rounds)
          (run_loop-EndsAfter rounds (suc t) t₀ s' s₀ r' k))
    where
      one_more : (t rounds : ℕ) → suc t + rounds ≡ t + suc rounds
      one_more t rounds = omega arith

      go :
          (n : Next)
          → round once s (world t s.epoch) ≡ n
          → (elim n [
            | exit code s' ↦ some (exited code s')
            | again s' ↦ run_loop once world rounds (suc t) s'
            | sleep s' ↦ run_loop once world rounds (suc t) s'
            | interrupted ↦ some stopped
          ])
            ≡ some ended
          → ((s' : RunState)
              → Reach t₀ s₀ (suc t) s'
              → run_loop once world rounds (suc t) s' ≡ some ended
              → EndsAfter t₀ (t + suc rounds) s₀ ended)
          → EndsAfter t₀ (t + suc rounds) s₀ ended
      go (exit code s') e k rest = record {
        time = t;
        in_time = omega arith;
        state = s;
        reached = r;
        final = inl (code, s', e, sym (some-injective _ _ k));
      }
      go (again s') e k rest = rest s' (next r (inl e)) k
      go (sleep s') e k rest = rest s' (next r (inr e)) k
      go interrupted e k rest = record {
        time = t;
        in_time = omega arith;
        state = s;
        reached = r;
        final = inr (e, sym (some-injective _ _ k));
      }
