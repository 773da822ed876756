-- ===== src/Python/Argparse/Typed.antt =====
-- What `parse_args` (argparse) promises: the values of an accepted command line have the declared kinds.
use mathlib.Core.Option.{some-injective}
use noethrion.Base.{
  ◌≡◌, refl, sym, ap, subst, ◌∙◌, Bool, true, false, Option, none, some, List, [], ◌∷◌,
  if◌then◌else◌, ◌==◌, All, Bool-cases, inl, inr, Option-cases,
}
use noethrion.Base.Int.{ℤ}
use noethrion.Python.Result.{Result, ok, raise}
use noethrion.Python.Bytes.{bytes_eq, bytes_eq→eq}
use noethrion.Python.Text.{Text, codes, any}
use noethrion.Python.Number.{int_of_text}
use noethrion.Python.Argparse.{
  Kind, text, number, switch, help, choice, Value, text_value, number_value, switch_value, Opt,
  Settings, help_option, starts_with, split_eq, find_flag, abbreviated, Token, plain, named,
  unknown, other_dashed, negative_number, only_one, short_help, long_option, dashed, classify,
  tokens, member, accept, set, meet,
}

-- A value of a kind; a choice is one of the texts listed.
abbrev pub Fits : Kind → Value → Type 0
Fits text (text_value s) = Unit {0}
Fits number (number_value z) = Unit {0}
Fits switch (switch_value b) = Unit {0}
Fits (choice cs) (text_value s) = member s cs ≡ true
Fits _ _ = ⊥

-- The options in their order, each with a value of its kind.
abbrev pub HasType : List Opt → Settings → Type 0
HasType [] [] = Unit {0}
HasType (o ∷ opts) ((f, v) ∷ args) = (f ≡ o.flag) × Fits o.kind v × HasType opts args
HasType _ _ = ⊥

abbrev pub DefaultFits : Opt → Type 0
DefaultFits o = elim o.default [ none ↦ Unit {0} | some v ↦ Fits o.kind v ]

-- Every option is found by its flag, and its default has its kind.
abbrev pub IsParser : List Opt → Type 0
IsParser opts =
    All (λ (o : Opt). (find_flag o.flag (help_option ∷ opts) ≡ some o) × DefaultFits o) opts

pub accept-Fits : (k : Kind) (s : Text) {v : Value} → accept k s ≡ some v → Fits k v
unfolding accept
accept-Fits text s h = subst (Fits text) (some-injective _ _ h) tt
accept-Fits number s {v} h = go (int_of_text s) h
  where
    go :
        (r : Result ℤ)
        → (elim r [ ok z ↦ some (number_value z) | raise e ↦ none ]) ≡ some v
        → Fits number v
    go (ok z) k = subst (Fits number) (some-injective _ _ k) tt
    go (raise e) k = cc
accept-Fits (choice cs) s h = elim (Bool-cases (member s cs)) [
  | inl e ↦ subst (Fits (choice cs)) (some-injective _ _ (rw e at h)) e
  | inr e ↦ cc (rw e at h)
]
accept-Fits switch s h = cc
accept-Fits help s h = cc

pub meet-Fits : (k : Kind) (e : Option Text) {v : Value} → meet k e ≡ set v → Fits k v
unfolding meet
meet-Fits k (some s) {v} h = elim (Option-cases (accept k s)) [
  | inl q ↦ cc (rw (q, meet) at h)
  | inr (w, q) ↦ let same : w ≡ v = cc (rw (q, meet) at h) in accept-Fits k s (q ∙ ap some same)
]
meet-Fits help none h = cc
meet-Fits switch none {v} h = let same : switch_value true ≡ v = cc in subst (Fits switch) same tt
meet-Fits text none h = cc
meet-Fits number none h = cc
meet-Fits (choice cs) none h = cc

find_flag-flag :
    (name : Text) (opts : List Opt) {o : Opt} → find_flag name opts ≡ some o → o.flag ≡ name
unfolding find_flag
find_flag-flag name [] h = cc
find_flag-flag name (p ∷ opts) {o} h = elim (Bool-cases (bytes_eq p.flag name)) [
  | inl e ↦
      let same : p ≡ o = some-injective _ _ (rw e at h) in
      sym (ap (λ (q : Opt). q.flag) same) ∙ bytes_eq→eq p.flag name e
  | inr e ↦ find_flag-flag name opts (rw e at h)
]

All-abbreviated :
    (P : Opt → Type 0) (name : Text) (opts : List Opt) → All P opts → All P (abbreviated name opts)
unfolding abbreviated
All-abbreviated P name [] h = tt
All-abbreviated P name (o ∷ opts) (ho, h) = elim (Bool-cases (starts_with name o.flag)) [
  | inl e ↦ rw e (ho, All-abbreviated P name opts h)
  | inr e ↦ rw e (All-abbreviated P name opts h)
]

module _ (opts : List Opt) where
  abbrev pub all : List Opt
  all = help_option ∷ opts

  abbrev pub IsFound : Opt → Type 0
  IsFound o = find_flag o.flag all ≡ some o

  -- An argument that was read as an option is one of the parser's.
  abbrev pub IsToken : Token → Type 0
  IsToken (named o e) = IsFound o
  IsToken _ = Unit {0}

  -- A setting stems from an option of its flag, and has the option's kind.
  pub record IsSetting (s : Text × Value) : Type 0 where
    pub option : Opt
    pub found : find_flag s.0 all ≡ some option
    pub fits : Fits option.kind s.1

  pub help_option-IsFound : IsFound help_option
  unfolding find_flag bytes_eq
  help_option-IsFound = refl

  if-IsToken : (b : Bool) (t u : Token) → IsToken t → IsToken u → IsToken (if b then t else u)
  if-IsToken true t u ht hu = ht
  if-IsToken false t u ht hu = hu

  other_dashed-IsToken : (s : Text) → IsToken (other_dashed s)
  unfolding other_dashed
  other_dashed-IsToken s =
      if-IsToken (negative_number true false s) _ _ tt
        (if-IsToken (any (λ c. c == b' ') s) _ _ tt tt)

  only_one-IsToken :
      (e : Option Text) (other : Token) (found : List Opt) {t : Token}
      → IsToken other
      → All IsFound found
      → only_one e other found ≡ some t
      → IsToken t
  unfolding only_one
  only_one-IsToken e other [] ho ha h = subst IsToken (some-injective _ _ h) ho
  only_one-IsToken e other (o ∷ []) ho ha h = subst IsToken (some-injective _ _ h) ha.0
  only_one-IsToken e other (o ∷ o' ∷ found) ho ha h = cc

  long_option-IsToken :
      All IsFound all → (s : Text) {t : Token} → long_option all s ≡ some t → IsToken t
  unfolding long_option
  long_option-IsToken ok_all s {t} h = go (split_eq (b'-' ∷ b'-' ∷ s)) h
    where
      go :
          (p : Text × Option Text)
          → (elim (find_flag p.0 all) [
            | some o ↦ some (named o p.1)
            | none ↦ only_one p.1 (other_dashed (b'-' ∷ s)) (abbreviated p.0 all)
          ])
            ≡ some t
          → IsToken t
      go p k = elim (Option-cases (find_flag p.0 all)) [
        | inl e ↦
            only_one-IsToken p.1 _ _ (other_dashed-IsToken (b'-' ∷ s))
              (All-abbreviated IsFound p.0 all ok_all) (rw e at k)
        | inr (o, e) ↦
            subst IsToken (some-injective _ _ (rw e at k))
              (subst (λ n. find_flag n all ≡ some o) (sym (find_flag-flag p.0 all e)) e)
      ]

  dashed-IsToken : All IsFound all → (s : Text) {t : Token} → dashed all s ≡ some t → IsToken t
  unfolding dashed
  dashed-IsToken ok_all [] h = subst IsToken (some-injective _ _ h) tt
  dashed-IsToken ok_all (d ∷ s) h = elim (Bool-cases (d == b'-')) [
    | inl e ↦ long_option-IsToken ok_all s (rw e at h)
    | inr e ↦ elim (Bool-cases (d == b'h')) [
      | inl f ↦
          subst IsToken (some-injective _ _ (rw (e, f) at h))
            (unfold short_help in help_option-IsFound)
      | inr f ↦ subst IsToken (some-injective _ _ (rw (e, f) at h)) (other_dashed-IsToken (d ∷ s))
    ]
  ]

  classify-IsToken : All IsFound all → (s : Text) {t : Token} → classify all s ≡ some t → IsToken t
  unfolding classify
  classify-IsToken ok_all [] h = subst IsToken (some-injective _ _ h) tt
  classify-IsToken ok_all (c ∷ s) h = elim (Bool-cases (c == b'-')) [
    | inl e ↦ dashed-IsToken ok_all s (rw e at h)
    | inr e ↦ subst IsToken (some-injective _ _ (rw e at h)) tt
  ]

  cons_tokens :
      (t : Token) (rest : Option (List Token)) {ts : List Token}
      → IsToken t
      → ((us : List Token) → rest ≡ some us → All IsToken us)
      → (elim rest [ none ↦ none | some us ↦ some (t ∷ us) ]) ≡ some ts
      → All IsToken ts
  cons_tokens t none ht hr h = cc
  cons_tokens t (some us) ht hr h = subst (All IsToken) (some-injective _ _ h) (ht, hr us refl)

  pub tokens-IsToken :
      All IsFound all
      → (dashes : Bool) (argv : List Text) {ts : List Token} → tokens all dashes argv ≡ some ts
      → All IsToken ts
  unfolding tokens
  tokens-IsToken ok_all dashes [] h = subst (All IsToken) (some-injective _ _ h) tt
  tokens-IsToken ok_all true (s ∷ argv) h =
      cons_tokens (plain s) (tokens all true argv) tt (λ us e. tokens-IsToken ok_all true argv e) h
  tokens-IsToken ok_all false (s ∷ argv) {ts} h = elim (Bool-cases (bytes_eq s (codes "--"))) [
    | inl e ↦
        cons_tokens unknown (tokens all true argv) tt (λ us q. tokens-IsToken ok_all true argv q)
          (rw e at h)
    | inr e ↦ elim (Option-cases (classify all s)) [
      | inl f ↦ cc (rw (e, f) at h)
      | inr (t, f) ↦
          cons_tokens t (tokens all false argv) (classify-IsToken ok_all s f)
            (λ us q. tokens-IsToken ok_all false argv q) (rw (e, f) at h)
    ]
  ]
