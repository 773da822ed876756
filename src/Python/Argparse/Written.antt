-- ===== src/Python/Argparse/Written.antt =====
-- A command line that is written as flags with their values behind them, read by `parse_args` (argparse).
use noethrion.Base.{◌≡◌, refl, ◌∙◌, false, none, some, List, [], ◌∷◌, All, ◌==◌}
use noethrion.Base.Int.{ℤ}
use noethrion.Python.Result.{ok}
use noethrion.Python.Number.{int_of_text}
use noethrion.Python.Bytes.{bytes_eq}
use noethrion.Python.Text.{Text, codes}
use noethrion.Python.Argparse.{
  number, number_value, Value, Opt, runs, Settings, help_option, Token, plain, named, classify,
  tokens, accept, waits, meet, complete, finish, consume, parse_args,
}

-- An option with the text that is given for it, and the value that this text stands for.
pub record Piece : Type 0 where
  pub option : Opt
  pub given : Text
  pub value : Value

abbrev pub written : List Piece → List Text
written [] = []
written (p ∷ ps) = p.option.flag ∷ p.given ∷ written ps

-- The values, the last in front.
abbrev pub settled : Settings → List Piece → Settings
settled got [] = got
settled got (p ∷ ps) = settled ((p.option.flag, p.value) ∷ got) ps

module _ (opts : List Opt) where
  -- The flag is the option's, which takes a value, and the text is no option and has the value.
  pub record IsPiece (p : Piece) : Type 0 where
    pub no_dashes : bytes_eq p.option.flag (codes "--") ≡ false
    pub is_flag : classify (help_option ∷ opts) p.option.flag ≡ some (named p.option none)
    pub takes_value : meet p.option.kind none ≡ waits
    pub given_no_dashes : bytes_eq p.given (codes "--") ≡ false
    pub is_plain : classify (help_option ∷ opts) p.given ≡ some (plain p.given)
    pub accepted : accept p.option.kind p.given ≡ some p.value

  abbrev read_tokens : List Piece → List Token
  read_tokens [] = []
  read_tokens (p ∷ ps) = named p.option none ∷ plain p.given ∷ read_tokens ps

  tokens-written :
      (ps : List Piece)
      → All IsPiece ps
      → tokens (help_option ∷ opts) false (written ps) ≡ some (read_tokens ps)
  unfolding tokens
  tokens-written [] h = refl
  tokens-written (p ∷ ps) (hp, h) =
      rw (hp.no_dashes, hp.is_flag, hp.given_no_dashes, hp.is_plain, tokens-written ps h)

  consume-flag :
      (o : Opt) (got : Settings) (ts : List Token)
      → meet o.kind none ≡ waits
      → consume opts none got false (named o none ∷ ts) ≡ consume opts (some o) got false ts
  unfolding consume
  consume-flag o got ts h = rw (h, consume)

  consume-value :
      (o : Opt) (got : Settings) (s : Text) (ts : List Token) {v : Value}
      → accept o.kind s ≡ some v
      → consume opts (some o) got false (plain s ∷ ts)
        ≡ consume opts none ((o.flag, v) ∷ got) false ts
  unfolding consume
  consume-value o got s ts h = rw (h, consume)

  consume-read_tokens :
      (got : Settings) (ps : List Piece)
      → All IsPiece ps
      → consume opts none got false (read_tokens ps) ≡ finish opts (settled got ps) false
  unfolding consume
  consume-read_tokens got [] h = refl
  consume-read_tokens got (p ∷ ps) (hp, h) =
      consume-flag p.option got (plain p.given ∷ read_tokens ps) hp.takes_value
      ∙ consume-value p.option got p.given (read_tokens ps) hp.accepted
      ∙ consume-read_tokens ((p.option.flag, p.value) ∷ got) ps h

  -- Flags with their values behind them are read back: if the options given and the defaults settle
  -- all options, the command line is accepted with these values.
  pub parse_args-written :
      (ps : List Piece) {args : Settings}
      → All IsPiece ps
      → complete opts (settled [] ps) ≡ some args
      → parse_args opts (written ps) ≡ runs args
  unfolding parse_args finish
  parse_args-written ps h done =
      rw (tokens-written ps h, parse_args) (consume-read_tokens [] ps h ∙ rw (done, finish))

-- A text that does not start with `-` is no option.
abbrev pub Undashed : Text → Type 0
Undashed [] = Unit {0}
Undashed (c ∷ s) = (c == b'-') ≡ false

pub Undashed-plain : (opts : List Opt) (s : Text) → Undashed s → classify opts s ≡ some (plain s)
unfolding classify
Undashed-plain opts [] h = refl
Undashed-plain opts (c ∷ s) h = rw (h, classify)

pub Undashed-no_dashes : (s : Text) → Undashed s → bytes_eq s (codes "--") ≡ false
unfolding bytes_eq
Undashed-no_dashes [] h = refl
Undashed-no_dashes (c ∷ s) h = rw (h, bytes_eq)

pub Undashed-IsPiece :
    (opts : List Opt) (p : Piece)
    → bytes_eq p.option.flag (codes "--") ≡ false
    → classify (help_option ∷ opts) p.option.flag ≡ some (named p.option none)
    → meet p.option.kind none ≡ waits
    → Undashed p.given
    → accept p.option.kind p.given ≡ some p.value
    → IsPiece opts p
Undashed-IsPiece opts p d f m u a = record {
  no_dashes = d;
  is_flag = f;
  takes_value = m;
  given_no_dashes = Undashed-no_dashes p.given u;
  is_plain = Undashed-plain (help_option ∷ opts) p.given u;
  accepted = a;
}

pub number-accepted :
    (s : Text) {z : ℤ} → int_of_text s ≡ ok z → accept number s ≡ some (number_value z)
unfolding accept
number-accepted s h = rw (h, accept)
