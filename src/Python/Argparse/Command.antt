-- ===== src/Python/Argparse/Command.antt =====
-- `parse_args` (argparse) of a parser with subcommands.
use mathlib.Core.Option.{some-injective}
use noethrion.Base.{
  ◌≡◌, ap, subst, Bool, true, false, Option, none, some, List, [], ◌∷◌, All, Bool-cases, inl, inr,
  Option-cases,
}
use noethrion.Python.Bytes.{bytes_eq}
use noethrion.Python.Text.{Text, codes}
use noethrion.Python.Argparse.{
  Outcome, exits, runs, Settings, help_option, Token, plain, named, unknown, classify, Met, ends,
  set, waits, meet, parse_args, Sub, find_sub, with_name, parse_command,
}
use noethrion.Python.Argparse.Typed.{HasType, IsParser}
use noethrion.Python.Argparse.Settled.{runs_injective, parse_args-HasType}

abbrev pub AreParsers : List Sub → Type 0
AreParsers = All (λ (s : Sub). IsParser s.opts)

find_sub-IsParser :
    (name : Text) (subs : List Sub) {sub : Sub}
    → AreParsers subs
    → find_sub name subs ≡ some sub
    → IsParser sub.opts
unfolding find_sub
find_sub-IsParser name [] hp h = cc
find_sub-IsParser name (s ∷ subs) hp h = elim (Bool-cases (bytes_eq s.name name)) [
  | inl e ↦ subst (λ (t : Sub). IsParser t.opts) (some-injective _ _ (rw e at h)) hp.0
  | inr e ↦ find_sub-IsParser name subs hp.1 (rw e at h)
]

-- The subcommand that was chosen.
pub record Chosen (subs : List Sub) (name : Text) (args : Settings) : Type 0 where
  pub sub : Sub
  pub found : find_sub name subs ≡ some sub
  pub typed : HasType sub.opts args

with_name-runs :
    (extras : Bool) (name : Text) (r : Outcome Settings) {name' : Text} {args : Settings}
    → with_name extras name r ≡ runs (name', args)
    → (r ≡ runs args) × (name ≡ name')
unfolding with_name
with_name-runs extras name (exits n) h = cc
with_name-runs true name (runs a) h = cc
with_name-runs false name (runs a) h = (
  ap (λ (p : Text × Settings). runs p.1) (runs_injective h),
  ap (λ (p : Text × Settings). p.0) (runs_injective h),
)

-- A command line that is accepted names one of the subcommands, and settles each option of it with a
-- value of its kind.
pub parse_command-Chosen :
    (subs : List Sub)
    → AreParsers subs
    → (extras : Bool) (argv : List Text) {name : Text} {args : Settings}
    → parse_command subs extras argv ≡ runs (name, args)
    → Chosen subs name args
unfolding parse_command
parse_command-Chosen subs hp extras [] h = cc
parse_command-Chosen subs hp extras (s ∷ argv) {name} {args} h =
    elim (Bool-cases (bytes_eq s (codes "--"))) [
      | inl e ↦ cc (rw (e, parse_command) at h)
      | inr e ↦
          go (classify (help_option ∷ []) s) (rw (e, parse_command) at h)
            (λ k. parse_command-Chosen subs hp true argv k)
    ]
  where
    go :
        (t : Option Token)
        → (elim t [
          | none ↦ exits 2
          | some unknown ↦ parse_command subs true argv
          | some (named o explicit) ↦ elim (meet o.kind explicit) [
            | ends status ↦ exits status
            | _ ↦ exits 2
          ]
          | some (plain name') ↦ elim (find_sub name' subs) [
            | none ↦ exits 2
            | some sub ↦ with_name extras name' (parse_args sub.opts argv)
          ]
        ])
          ≡ runs (name, args)
        → (parse_command subs true argv ≡ runs (name, args) → Chosen subs name args)
        → Chosen subs name args
    go none k later = cc
    go (some unknown) k later = later k
    go (some (named o explicit)) k later = stops (meet o.kind explicit) k
      where
        stops :
            (m : Met)
            → ◌≡◌ {A = Outcome (Text × Settings)}
                (elim m [ ends status ↦ exits status | _ ↦ exits 2 ])
                (runs (name, args))
            → Chosen subs name args
        stops (ends n) q = cc
        stops (set v) q = cc
        stops waits q = cc
    go (some (plain name')) k later = elim (Option-cases (find_sub name' subs)) [
      | inl f ↦ cc (rw f at k)
      | inr (sub, f) ↦
          let (parsed, same) = with_name-runs extras name' (parse_args sub.opts argv) (rw f at k) in
          record {
            sub = sub;
            found = subst (λ n. find_sub n subs ≡ some sub) same f;
            typed = parse_args-HasType sub.opts (find_sub-IsParser name' subs hp f) argv parsed;
          }
    ]
