-- ===== src/Python/Options.antt =====
-- The options of `argparse.ArgumentParser`, as Python 3.12.0 has it, and how `parse_args` tells the
-- arguments of a command line apart: flags, abbreviations of them, values and what is neither.
use noethrion.Base.{Bool, true, false, ◌&&◌, Option, none, some, List, [], ◌∷◌, if◌then◌else◌, ◌==◌}
use noethrion.Base.Int.{ℤ}
use noethrion.Python.Bytes.{bytes_eq}
use noethrion.Python.Text.{Text, codes, any, is_empty}
use noethrion.Python.Number.{is_digit}

-- `type=int`, `choices`, `action="store_true"`; a plain option stores its text.
pub data Kind : Type 0 where
  text number switch help : Kind
  choice : List Text → Kind

pub data Value : Type 0 where
  text_value : Text → Value
  number_value : ℤ → Value
  switch_value : Bool → Value

-- `add_argument`: a required option has no default. The attribute of an option goes by its flag.
pub record Opt : Type 0 where
  pub flag : Text
  pub kind : Kind
  pub default : Option Value

-- `add_argument(flag, required=True)` and `add_argument(flag, default=…)`
abbrev pub required_option : Text → Kind → Opt
required_option flag kind = record { flag = flag; kind = kind; default = none }

abbrev pub default_option : Text → Kind → Value → Opt
default_option flag kind v = record { flag = flag; kind = kind; default = some v }

-- The option that `-h, --help` adds.
abbrev pub help_option : Opt
help_option = record { flag = codes "--help"; kind = help; default = some (switch_value false) }

unfoldable pub starts_with : Text → Text → Bool
starts_with [] s = true
starts_with (c ∷ t) [] = false
starts_with (c ∷ t) (d ∷ s) = if c == d then starts_with t s else false

-- `s.split("=", 1)`
unfoldable pub split_eq : Text → Text × Option Text
split_eq [] = ([], none)
split_eq (c ∷ s) = let (t, e) = split_eq s in if c == b'=' then ([], some s) else (c ∷ t, e)

unfoldable pub find_flag : Text → List Opt → Option Opt
find_flag name [] = none
find_flag name (o ∷ opts) =
    let rest = find_flag name opts in if bytes_eq o.flag name then some o else rest

-- The options that `name` abbreviates.
unfoldable pub abbreviated : Text → List Opt → List Opt
unfolding starts_with
abbreviated name [] = []
abbreviated name (o ∷ opts) =
    let rest = abbreviated name opts in if starts_with name o.flag then o ∷ rest else rest

-- `^-\d+$|^-\d*\.\d+$` behind the `-`, where `dot` may still come and a digit was `seen`
unfoldable pub negative_number : Bool → Bool → Text → Bool
unfolding is_digit is_empty
negative_number dot seen [] = seen
negative_number dot seen (c ∷ s) =
    let after_digit = negative_number dot true s in
    let after_dot = negative_number false false s in
    if is_digit c
    then after_digit
    else if c == b'.' && dot
    then after_dot
    else c == 10 && seen && is_empty s

-- An argument, as `_parse_optional` classifies it: an option's flag with the text behind `=`.
pub data Token : Type 0 where
  plain : Text → Token
  named : Opt → Option Text → Token
  unknown : Token

-- What is no flag and no abbreviation, behind its `-`.
unfoldable pub other_dashed : Text → Token
unfolding negative_number any
other_dashed s =
    if negative_number true false s
    then plain (b'-' ∷ s)
    else if any (λ c. c == b' ') s
    then plain (b'-' ∷ s)
    else unknown

-- No option, one, or too many.
unfoldable pub only_one : Option Text → Token → List Opt → Option Token
only_one explicit other [] = some other
only_one explicit other (o ∷ []) = some (named o explicit)
only_one explicit other (o ∷ o' ∷ opts) = none

-- `-h` with the text behind it: more `h` are `-h` again, and anything else is an error.
unfoldable pub short_help : Text → Token
unfolding any
short_help s =
    named help_option (if any (λ c. if c == b'h' then false else true) s then some s else none)

-- An argument that starts with `--` and goes on with `s`.
unfoldable pub long_option : List Opt → Text → Option Token
unfolding other_dashed only_one find_flag abbreviated split_eq
long_option opts s =
    let (name, explicit) = split_eq (b'-' ∷ b'-' ∷ s) in
    elim (find_flag name opts) [
      | some o ↦ some (named o explicit)
      | none ↦ only_one explicit (other_dashed (b'-' ∷ s)) (abbreviated name opts)
    ]

-- An argument that starts with `-` and goes on with `s`.
unfoldable pub dashed : List Opt → Text → Option Token
unfolding other_dashed short_help long_option
dashed opts [] = some (plain (b'-' ∷ []))
dashed opts (d ∷ s) =
    if d == b'-'
    then long_option opts s
    else if d == b'h'
    then some (short_help s)
    else some (other_dashed (d ∷ s))

-- `_parse_optional`; `none` is an ambiguous abbreviation.
unfoldable pub classify : List Opt → Text → Option Token
unfolding dashed
classify opts [] = some (plain [])
classify opts (c ∷ s) = if c == b'-' then dashed opts s else some (plain (c ∷ s))

-- Behind a `--` nothing is an option; the `--` itself is not accepted, like an unknown option.
unfoldable pub tokens : List Opt → Bool → List Text → Option (List Token)
unfolding classify
tokens opts dashes [] = some []
tokens opts true (s ∷ argv) = elim (tokens opts true argv) [
  | none ↦ none
  | some ts ↦ some (plain s ∷ ts)
]
tokens opts false (s ∷ argv) =
    let behind = tokens opts true argv in
    let rest = tokens opts false argv in
    if bytes_eq s (codes "--")
    then (elim behind [ none ↦ none | some ts ↦ some (unknown ∷ ts) ])
    else (elim (classify opts s) [
      | none ↦ none
      | some t ↦ elim rest [ none ↦ none | some ts ↦ some (t ∷ ts) ]
    ])
