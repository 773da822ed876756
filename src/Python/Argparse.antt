-- ===== src/Python/Argparse.antt =====
-- `argparse.ArgumentParser.parse_args`, as Python 3.12.0 has it, for parsers of options with one value
-- or none and with subcommands of such parsers. An error ends the program with status 2, `-h` and
-- `--help` with 0. An ambiguous abbreviation is refused before any option is looked at, and a `--` is
-- never accepted, since the parsers here have no positional arguments. Digits are the ASCII ones.
pub mod Typed
pub mod Settled
pub mod Command
pub mod Values
pub mod Exits
pub mod Written
use noethrion.Base.{ℕ, Bool, true, false, ◌||◌, Option, none, some, List, [], ◌∷◌, if◌then◌else◌}
use noethrion.Base.Int.{ℤ}
use noethrion.Python.Result.{Result, ok, raise, attribute_error, type_error}
use noethrion.Python.Bytes.{bytes_eq}
use noethrion.Python.Text.{Text, codes}
use noethrion.Python.Number.{int_of_text}
pub use noethrion.Python.Options.{
  Kind, text, number, switch, help, choice, Value, text_value, number_value, switch_value, Opt,
  required_option, default_option, help_option, Token, plain, named, unknown,
}
unfoldable pub use noethrion.Python.Options.{
  starts_with, split_eq, find_flag, abbreviated, negative_number, other_dashed, only_one,
  short_help, long_option, dashed, classify, tokens,
}

-- What parsing comes to: the program ends with a status, or goes on.
pub data Outcome {ℓ} (A : Type ℓ) : Type ℓ where
  exits : ℕ → Outcome A
  runs : A → Outcome A

abbrev pub Settings : Type 0
Settings = List (Text × Value)

unfoldable pub member : Text → List Text → Bool
member s [] = false
member s (t ∷ ts) = bytes_eq s t || member s ts

-- `_get_value` and `_check_value`: `none` is an error.
unfoldable pub accept : Kind → Text → Option Value
unfolding member
accept text s = some (text_value s)
accept number s = elim (int_of_text s) [ ok z ↦ some (number_value z) | raise e ↦ none ]
accept (choice cs) s = if member s cs then some (text_value s) else none
accept switch s = none
accept help s = none

-- What an option does when it is met: end the program, set its value, or wait for the next argument.
pub data Met : Type 0 where
  ends : ℕ → Met
  set : Value → Met
  waits : Met

unfoldable pub meet : Kind → Option Text → Met
unfolding accept
meet kind (some e) = elim (accept kind e) [ some v ↦ set v | none ↦ ends 2 ]
meet help none = ends 0
meet switch none = set (switch_value true)
meet _ none = waits

unfoldable pub lookup : Text → Settings → Option Value
lookup flag [] = none
lookup flag ((f, v) ∷ got) = let rest = lookup flag got in if bytes_eq f flag then some v else rest

-- What was set, or the default; `none` where a required option was not met.
unfoldable pub value_of : Opt → Settings → Option Value
unfolding lookup
value_of o got = elim (lookup o.flag got) [ some v ↦ some v | none ↦ o.default ]

-- The values of all options, in their order.
unfoldable pub complete : List Opt → Settings → Option Settings
unfolding value_of
complete [] got = some []
complete (o ∷ opts) got =
    let rest = complete opts got in
    elim (value_of o got) [
      | none ↦ none
      | some v ↦ elim rest [ none ↦ none | some args ↦ some ((o.flag, v) ∷ args) ]
    ]

module _ (opts : List Opt) where
  -- The end of the arguments: none may be left over.
  unfoldable pub finish : Settings → Bool → Outcome Settings
  unfolding complete
  finish got extras = elim (complete opts got) [
    | none ↦ exits 2
    | some args ↦ if extras then exits 2 else runs args
  ]

  -- `_parse_known_args`: the option that waits for a value, what was set, the last in front, and
  -- whether something was left over.
  unfoldable pub consume : Option Opt → Settings → Bool → List Token → Outcome Settings
  unfolding accept meet finish
  consume (some o) got extras (plain s ∷ ts) = elim (accept o.kind s) [
    | none ↦ exits 2
    | some v ↦ consume none ((o.flag, v) ∷ got) extras ts
  ]
  consume (some o) got extras _ = exits 2
  consume none got extras [] = finish got extras
  consume none got extras (plain s ∷ ts) = consume none got true ts
  consume none got extras (unknown ∷ ts) = consume none got true ts
  consume none got extras (named o explicit ∷ ts) = elim (meet o.kind explicit) [
    | ends status ↦ exits status
    | set v ↦ consume none ((o.flag, v) ∷ got) extras ts
    | waits ↦ consume (some o) got extras ts
  ]

  -- `parse_args` of a parser without subcommands
  unfoldable pub parse_args : List Text → Outcome Settings
  unfolding tokens consume
  parse_args argv = elim (tokens (help_option ∷ opts) false argv) [
    | none ↦ exits 2
    | some ts ↦ consume none [] false ts
  ]

-- `sub.add_parser(name)` with its options
pub record Sub : Type 0 where
  pub name : Text
  pub opts : List Opt

unfoldable pub find_sub : Text → List Sub → Option Sub
find_sub name [] = none
find_sub name (s ∷ subs) =
    let rest = find_sub name subs in if bytes_eq s.name name then some s else rest

-- What the subcommand's parser gives, where an argument in front of it was left over or not.
unfoldable pub with_name : Bool → Text → Outcome Settings → Outcome (Text × Settings)
with_name extras name (exits status) = exits status
with_name extras name (runs args) = if extras then exits 2 else runs (name, args)

-- `parse_args` of a parser that has nothing but required subcommands: the first argument that is no
-- option names the parser of all that follow.
unfoldable pub parse_command : List Sub → Bool → List Text → Outcome (Text × Settings)
unfolding parse_args with_name find_sub classify meet
parse_command subs extras [] = exits 2
parse_command subs extras (s ∷ argv) =
    let later = parse_command subs true argv in
    if bytes_eq s (codes "--") then exits 2 else (elim (classify (help_option ∷ []) s) [
      | none ↦ exits 2
      | some unknown ↦ later
      | some (named o explicit) ↦ elim (meet o.kind explicit) [
        | ends status ↦ exits status
        | _ ↦ exits 2
      ]
      | some (plain name) ↦ elim (find_sub name subs) [
        | none ↦ exits 2
        | some sub ↦ with_name extras name (parse_args sub.opts argv)
      ]
    ])

-- `args.name`
unfoldable pub text_of : Text → Settings → Result Text
unfolding lookup
text_of flag args = elim (lookup flag args) [
  | none ↦ raise attribute_error
  | some (text_value s) ↦ ok s
  | some _ ↦ raise type_error
]

unfoldable pub number_of : Text → Settings → Result ℤ
unfolding lookup
number_of flag args = elim (lookup flag args) [
  | none ↦ raise attribute_error
  | some (number_value z) ↦ ok z
  | some _ ↦ raise type_error
]

unfoldable pub switch_of : Text → Settings → Result Bool
unfolding lookup
switch_of flag args = elim (lookup flag args) [
  | none ↦ raise attribute_error
  | some (switch_value b) ↦ ok b
  | some _ ↦ raise type_error
]
