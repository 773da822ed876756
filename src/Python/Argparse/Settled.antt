-- ===== src/Python/Argparse/Settled.antt =====
-- `parse_args` and `parse_command` (argparse) on any command line: an accepted one settles every
-- option, with a value of its kind.
use mathlib.Core.Option.{some-injective}
use noethrion.Base.{
  ◌≡◌, refl, sym, ap, subst, ◌∙◌, Bool, true, false, Option, none, some, List, [], ◌∷◌, All,
  Bool-cases, inl, inr, Option-cases,
}
use noethrion.Python.Bytes.{bytes_eq, bytes_eq→eq}
use noethrion.Python.Text.{Text}
use noethrion.Python.Argparse.{
  Value, Opt, exits, runs, Settings, Token, plain, named, unknown, tokens, accept, Met, ends, set,
  waits, meet, lookup, value_of, complete, finish, consume, parse_args,
}
use noethrion.Python.Argparse.Typed.{
  Fits, HasType, DefaultFits, IsParser, all, IsFound, IsToken, IsSetting, accept-Fits, meet-Fits,
  tokens-IsToken, help_option-IsFound,
}

pub runs_injective {ℓ} : {A : Type ℓ} {x y : A} → runs x ≡ runs y → x ≡ y
runs_injective h = cc

module _ (opts : List Opt) where
  lookup-IsSetting :
      (flag : Text) (got : Settings) {v : Value}
      → All (IsSetting opts) got
      → lookup flag got ≡ some v
      → IsSetting opts (flag, v)
  unfolding lookup
  lookup-IsSetting flag [] hs h = cc
  lookup-IsSetting flag ((f, w) ∷ got) {v} (ho, hs) h = elim (Bool-cases (bytes_eq f flag)) [
    | inl e ↦
        subst (IsSetting opts)
          (ap (λ (t : Text). (t, w)) (bytes_eq→eq f flag e)
            ∙ ap (λ (x : Value). (flag, x)) (some-injective _ _ (rw e at h)))
          ho
    | inr e ↦ lookup-IsSetting flag got hs (rw e at h)
  ]

  value_of-Fits :
      (o : Opt) (got : Settings) {v : Value}
      → IsFound opts o
      → DefaultFits o
      → All (IsSetting opts) got
      → value_of o got ≡ some v
      → Fits o.kind v
  unfolding value_of
  value_of-Fits o got {v} found fits hs h = elim (Option-cases (lookup o.flag got)) [
    | inl e ↦ go o.default fits (rw (e, value_of) at h)
    | inr (w, e) ↦
        let s = lookup-IsSetting o.flag got hs e in
        let same : s.option ≡ o = some-injective _ _ (sym s.found ∙ found) in
        let value : w ≡ v = some-injective _ _ (rw (e, value_of) at h) in
        subst (λ (p : Opt). Fits p.kind v) same (subst (Fits s.option.kind) value s.fits)
  ]
    where
      go :
          (d : Option Value)
          → (elim d as (λ x. Type 0) [ none ↦ Unit {0} | some x ↦ Fits o.kind x ])
          → d ≡ some v
          → Fits o.kind v
      go none hd k = cc
      go (some x) hd k = subst (Fits o.kind) (some-injective _ _ k) hd

  complete-HasType :
      (os : List Opt) (got : Settings) {args : Settings}
      → All (λ (o : Opt). IsFound opts o × DefaultFits o) os
      → All (IsSetting opts) got
      → complete os got ≡ some args
      → HasType os args
  unfolding complete
  complete-HasType [] got hp hs h = subst (HasType []) (some-injective _ _ h) tt
  complete-HasType (o ∷ os) got ((found, fits), hp) hs h = elim (Option-cases (value_of o got)) [
    | inl e ↦ cc (rw (e, complete) at h)
    | inr (v, e) ↦ elim (Option-cases (complete os got)) [
      | inl f ↦ cc (rw (e, f, complete) at h)
      | inr (args', f) ↦
          subst (HasType (o ∷ os)) (some-injective _ _ (rw (e, f, complete) at h))
            (refl, value_of-Fits o got found fits hs e, complete-HasType os got hp hs f)
    ]
  ]

  -- The option that waits for its value is one of the parser's.
  abbrev IsWaiting : Option Opt → Type 0
  IsWaiting none = Unit {0}
  IsWaiting (some o) = IsFound opts o

  module _ (well_formed : IsParser opts) where
    finish-HasType :
        (got : Settings) (extras : Bool) {args : Settings}
        → All (IsSetting opts) got
        → finish opts got extras ≡ runs args
        → HasType opts args
    unfolding finish
    finish-HasType got extras hs h = elim (Option-cases (complete opts got)) [
      | inl e ↦ cc (rw (e, finish) at h)
      | inr (args', e) ↦ elim (Bool-cases extras) [
        | inl f ↦ cc (rw (e, f, finish) at h)
        | inr f ↦
            subst (HasType opts) (runs_injective (rw (e, f, finish) at h))
              (complete-HasType opts got well_formed hs e)
      ]
    ]

    setting :
        (o : Opt) (v : Value) (got : Settings)
        → IsFound opts o
        → Fits o.kind v
        → All (IsSetting opts) got
        → All (IsSetting opts) ((o.flag, v) ∷ got)
    setting o v got found fits hs = (record { option = o; found = found; fits = fits }, hs)

    consume-HasType :
        (waiting : Option Opt) (got : Settings) (extras : Bool) (ts : List Token) {args : Settings}
        → IsWaiting waiting
        → All (IsSetting opts) got
        → All (IsToken opts) ts
        → consume opts waiting got extras ts ≡ runs args
        → HasType opts args
    unfolding consume
    consume-HasType (some o) got extras [] hw hs ht h = cc
    consume-HasType (some o) got extras (plain s ∷ ts) hw hs ht h =
        elim (Option-cases (accept o.kind s)) [
          | inl e ↦ cc (rw (e, consume) at h)
          | inr (v, e) ↦
              consume-HasType none ((o.flag, v) ∷ got) extras ts tt
                (setting o v got hw (accept-Fits o.kind s e) hs) ht.1 (rw (e, consume) at h)
        ]
    consume-HasType (some o) got extras (named p e ∷ ts) hw hs ht h = cc
    consume-HasType (some o) got extras (unknown ∷ ts) hw hs ht h = cc
    consume-HasType none got extras [] hw hs ht h = finish-HasType got extras hs h
    consume-HasType none got extras (plain s ∷ ts) hw hs ht h =
        consume-HasType none got true ts tt hs ht.1 h
    consume-HasType none got extras (unknown ∷ ts) hw hs ht h =
        consume-HasType none got true ts tt hs ht.1 h
    consume-HasType none got extras (named o e ∷ ts) {args} hw hs ht h =
        go (meet o.kind e) refl h
          (λ v q k.
            consume-HasType none ((o.flag, v) ∷ got) extras ts tt
              (setting o v got ht.0 (meet-Fits o.kind e q) hs) ht.1 k)
          (λ k. consume-HasType (some o) got extras ts ht.0 hs ht.1 k)
      where
        go :
            (m : Met)
            → meet o.kind e ≡ m
            → (elim m [
              | ends status ↦ exits status
              | set v ↦ consume opts none ((o.flag, v) ∷ got) extras ts
              | waits ↦ consume opts (some o) got extras ts
            ])
              ≡ runs args
            → ((v : Value)
                → meet o.kind e ≡ set v
                → consume opts none ((o.flag, v) ∷ got) extras ts ≡ runs args
                → HasType opts args)
            → (consume opts (some o) got extras ts ≡ runs args → HasType opts args)
            → HasType opts args
        go (ends status) q k on_set on_wait = cc
        go (set v) q k on_set on_wait = on_set v q k
        go waits q k on_set on_wait = on_wait k

    pub parse_args-HasType :
        (argv : List Text) {args : Settings} → parse_args opts argv ≡ runs args → HasType opts args
    unfolding parse_args
    parse_args-HasType argv h = elim (Option-cases (tokens (all opts) false argv)) [
      | inl e ↦ cc (rw (e, parse_args) at h)
      | inr (ts, e) ↦
          consume-HasType none [] false ts tt tt
            (tokens-IsToken opts (help_option-IsFound opts, All-found opts well_formed) false argv
              e)
            (rw (e, parse_args) at h)
    ]
      where
        All-found :
            (os : List Opt)
            → All (λ (o : Opt). IsFound opts o × DefaultFits o) os
            → All (IsFound opts) os
        All-found [] hp = tt
        All-found (o ∷ os) hp = (hp.0.0, All-found os hp.1)
