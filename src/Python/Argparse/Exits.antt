-- ===== src/Python/Argparse/Exits.antt =====
-- The statuses with which `parse_args` (argparse) ends a program.
use noethrion.Base.{
  ◌≡◌, refl, Bool, true, false, Option, none, some, List, [], ◌∷◌, ◌⊎◌, inl, inr, Bool-cases,
  Option-cases,
}
use noethrion.Python.Bytes.{bytes_eq}
use noethrion.Python.Text.{Text, codes}
use noethrion.Python.Argparse.{
  Kind, text, number, switch, help, choice, Opt, Outcome, exits, runs, Settings, help_option, Token,
  plain, named, unknown, classify, Met, ends, set, waits, meet, accept, complete, finish, consume,
  tokens, parse_args, Sub, find_sub, with_name, parse_command,
}

-- The help text, a usage error, or no end at all.
abbrev pub IsExit {ℓ} : {A : Type ℓ} → Outcome A → Type 0
IsExit (exits n) = (n ≡ 0) ⊎ (n ≡ 2)
IsExit (runs a) = Unit {0}

abbrev MetExit : Met → Type 0
MetExit (ends n) = (n ≡ 0) ⊎ (n ≡ 2)
MetExit _ = Unit {0}

meet-MetExit : (k : Kind) (e : Option Text) → MetExit (meet k e)
unfolding meet
meet-MetExit k (some s) = elim (Option-cases (accept k s)) [
  | inl q ↦ rw (q, meet) (inr refl)
  | inr (v, q) ↦ rw (q, meet) tt
]
meet-MetExit help none = inl refl
meet-MetExit switch none = tt
meet-MetExit text none = tt
meet-MetExit number none = tt
meet-MetExit (choice cs) none = tt

module _ (opts : List Opt) where
  finish-IsExit : (got : Settings) (extras : Bool) → IsExit (finish opts got extras)
  unfolding finish
  finish-IsExit got extras = elim (Option-cases (complete opts got)) [
    | inl e ↦ rw (e, finish) (inr refl)
    | inr (args, e) ↦ elim (Bool-cases extras) [
      | inl f ↦ rw (e, f, finish) (inr refl)
      | inr f ↦ rw (e, f, finish) tt
    ]
  ]

  consume-IsExit :
      (waiting : Option Opt) (got : Settings) (extras : Bool) (ts : List Token)
      → IsExit (consume opts waiting got extras ts)
  unfolding consume
  consume-IsExit (some o) got extras [] = inr refl
  consume-IsExit (some o) got extras (plain s ∷ ts) = elim (Option-cases (accept o.kind s)) [
    | inl e ↦ rw (e, consume) (inr refl)
    | inr (v, e) ↦ rw (e, consume) (consume-IsExit none ((o.flag, v) ∷ got) extras ts)
  ]
  consume-IsExit (some o) got extras (named p e ∷ ts) = inr refl
  consume-IsExit (some o) got extras (unknown ∷ ts) = inr refl
  consume-IsExit none got extras [] = finish-IsExit got extras
  consume-IsExit none got extras (plain s ∷ ts) = consume-IsExit none got true ts
  consume-IsExit none got extras (unknown ∷ ts) = consume-IsExit none got true ts
  consume-IsExit none got extras (named o e ∷ ts) =
      go (meet o.kind e) (meet-MetExit o.kind e)
        (λ v. consume-IsExit none ((o.flag, v) ∷ got) extras ts)
        (consume-IsExit (some o) got extras ts)
    where
      go :
          (m : Met)
          → MetExit m
          → ((v : _) → IsExit (consume opts none ((o.flag, v) ∷ got) extras ts))
          → IsExit (consume opts (some o) got extras ts)
          → IsExit (elim m [
            | ends status ↦ exits status
            | set v ↦ consume opts none ((o.flag, v) ∷ got) extras ts
            | waits ↦ consume opts (some o) got extras ts
          ])
      go (ends n) h on_set on_wait = h
      go (set v) h on_set on_wait = on_set v
      go waits h on_set on_wait = on_wait

  pub parse_args-IsExit : (argv : List Text) → IsExit (parse_args opts argv)
  unfolding parse_args
  parse_args-IsExit argv = elim (Option-cases (tokens (help_option ∷ opts) false argv)) [
    | inl e ↦ rw (e, parse_args) (inr refl)
    | inr (ts, e) ↦ rw (e, parse_args) (consume-IsExit none [] false ts)
  ]

with_name-IsExit :
    (extras : Bool) (name : Text) (r : Outcome Settings)
    → IsExit r
    → IsExit (with_name extras name r)
unfolding with_name
with_name-IsExit extras name (exits n) h = h
with_name-IsExit true name (runs args) h = inr refl
with_name-IsExit false name (runs args) h = tt

pub parse_command-IsExit :
    (subs : List Sub) (extras : Bool) (argv : List Text) → IsExit (parse_command subs extras argv)
unfolding parse_command
parse_command-IsExit subs extras [] = inr refl
parse_command-IsExit subs extras (s ∷ argv) = elim (Bool-cases (bytes_eq s (codes "--"))) [
  | inl e ↦ rw (e, parse_command) (inr refl)
  | inr e ↦
      rw (e, parse_command)
        (go (classify (help_option ∷ []) s) (parse_command-IsExit subs true argv))
]
  where
    go :
        (t : Option Token)
        → IsExit (parse_command subs true argv)
        → IsExit (elim t as (λ x. Outcome (Text × Settings)) [
          | none ↦ exits 2
          | some unknown ↦ parse_command subs true argv
          | some (named o explicit) ↦ elim (meet o.kind explicit) [
            | ends status ↦ exits status
            | _ ↦ exits 2
          ]
          | some (plain name) ↦ elim (find_sub name subs) [
            | none ↦ exits 2
            | some sub ↦ with_name extras name (parse_args sub.opts argv)
          ]
        ])
    go none later = inr refl
    go (some unknown) later = later
    go (some (named o explicit)) later = stops (meet o.kind explicit) (meet-MetExit o.kind explicit)
      where
        stops :
            (m : Met)
            → MetExit m
            → IsExit (elim m as (λ x. Outcome (Text × Settings)) [
              | ends status ↦ exits status
              | _ ↦ exits 2
            ])
        stops (ends n) q = q
        stops (set v) q = inr refl
        stops waits q = inr refl
    go (some (plain name)) later = elim (Option-cases (find_sub name subs)) [
      | inl f ↦ rw f (inr refl)
      | inr (sub, f) ↦ rw f (
          with_name-IsExit extras name (parse_args sub.opts argv) (parse_args-IsExit sub.opts argv))
    ]
