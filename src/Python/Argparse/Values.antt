-- ===== src/Python/Argparse/Values.antt =====
-- Reading the attributes of a namespace (argparse) whose options have values of their kinds.
use mathlib.Core.Option.{some-injective}
use noethrion.Base.{◌≡◌, subst, Bool, true, Option, some, List, [], ◌∷◌, Bool-cases, inl, inr}
use noethrion.Base.Int.{ℤ}
use noethrion.Python.Result.{ok}
use noethrion.Python.Bytes.{bytes_eq}
use noethrion.Python.Text.{Text}
use noethrion.Python.Argparse.{
  Kind, text, number, switch, choice, Value, text_value, number_value, switch_value, Opt, Settings,
  find_flag, member, lookup, text_of, number_of, switch_of,
}
use noethrion.Python.Argparse.Typed.{Fits, HasType}

-- The value of the option with this flag.
record Valued (flag : Text) (kind : Kind) (args : Settings) : Type 0 where
  value : Value
  found : lookup flag args ≡ some value
  fits : Fits kind value

lookup-HasType :
    (opts : List Opt) (args : Settings) (flag : Text) {o : Opt}
    → HasType opts args
    → find_flag flag opts ≡ some o
    → Valued flag o.kind args
unfolding lookup find_flag
lookup-HasType [] args flag h f = cc
lookup-HasType (p ∷ opts) [] flag h f = elim h [ ]
lookup-HasType (p ∷ opts) ((g, v) ∷ args) flag {o} (same, fits, h) f =
    elim (Bool-cases (bytes_eq p.flag flag)) [
      | inl e ↦ record {
        value = v;
        found = rw (same, e);
        fits = subst (λ (q : Opt). Fits q.kind v) (some-injective _ _ (rw e at f)) fits;
      }
      | inr e ↦
          let w = lookup-HasType opts args flag h (rw e at f) in
          record { value = w.value; found = rw (same, e) w.found; fits = w.fits }
    ]

module _ (opts : List Opt) (args : Settings) (typed : HasType opts args) (flag : Text) where
  pub text_of-HasType :
      {d : Option Value}
      → find_flag flag opts ≡ some (record { flag = flag; kind = text; default = d })
      → (t : Text) × (text_of flag args ≡ ok t)
  unfolding text_of
  text_of-HasType f = let v = lookup-HasType opts args flag typed f in go v.value v.fits v.found
    where
      go :
          (v : Value)
          → Fits text v
          → lookup flag args ≡ some v
          → (t : Text) × (text_of flag args ≡ ok t)
      go (text_value t) h e = (t, rw (e, text_of))
      go (number_value z) h e = elim h [ ]
      go (switch_value b) h e = elim h [ ]

  -- A choice is one of the texts that the option lists.
  pub text_of-choice :
      (cs : List Text) {d : Option Value}
      → find_flag flag opts ≡ some (record { flag = flag; kind = choice cs; default = d })
      → (t : Text) × (text_of flag args ≡ ok t) × (member t cs ≡ true)
  unfolding text_of
  text_of-choice cs f = let v = lookup-HasType opts args flag typed f in go v.value v.fits v.found
    where
      go :
          (v : Value)
          → Fits (choice cs) v
          → lookup flag args ≡ some v
          → (t : Text) × (text_of flag args ≡ ok t) × (member t cs ≡ true)
      go (text_value t) h e = (t, rw (e, text_of), h)
      go (number_value z) h e = elim h [ ]
      go (switch_value b) h e = elim h [ ]

  pub number_of-HasType :
      {d : Option Value}
      → find_flag flag opts ≡ some (record { flag = flag; kind = number; default = d })
      → (z : ℤ) × (number_of flag args ≡ ok z)
  unfolding number_of
  number_of-HasType f = let v = lookup-HasType opts args flag typed f in go v.value v.fits v.found
    where
      go :
          (v : Value)
          → Fits number v
          → lookup flag args ≡ some v
          → (z : ℤ) × (number_of flag args ≡ ok z)
      go (number_value z) h e = (z, rw (e, number_of))
      go (text_value t) h e = elim h [ ]
      go (switch_value b) h e = elim h [ ]

  pub switch_of-HasType :
      {d : Option Value}
      → find_flag flag opts ≡ some (record { flag = flag; kind = switch; default = d })
      → (b : Bool) × (switch_of flag args ≡ ok b)
  unfolding switch_of
  switch_of-HasType f = let v = lookup-HasType opts args flag typed f in go v.value v.fits v.found
    where
      go :
          (v : Value)
          → Fits switch v
          → lookup flag args ≡ some v
          → (b : Bool) × (switch_of flag args ≡ ok b)
      go (switch_value b) h e = (b, rw (e, switch_of))
      go (text_value t) h e = elim h [ ]
      go (number_value z) h e = elim h [ ]
