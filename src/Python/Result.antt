-- ===== src/Python/Result.antt =====
-- Python's exceptions as values. A function that may raise returns a `Result`.
use noethrion.Base.{ℕ, ◌≡◌, refl, ap, Bool, true, false, List, [], ◌∷◌, if◌then◌else◌, arith}

-- The exception classes that the code raises, catches or lets through. `foreign` is a class of a
-- third-party package that derives from `Exception` alone.
pub data Exn : Type 0 where
  value_error overflow_error type_error key_error attribute_error index_error : Exn
  json_decode_error unicode_decode_error unicode_encode_error : Exn
  os_error recursion_error invalid_signature malformed_batch : Exn
  system_exit keyboard_interrupt assertion_error : Exn
  foreign : ℕ → Exn

pub data Result {ℓ} (A : Type ℓ) : Type ℓ where
  ok : A → Result A
  raise : Exn → Result A

infixl 5 ◌>>=◌ ◌>>◌
-- An exception skips what follows.
abbrev pub ◌>>=◌ {ℓ κ} :
    {A : Type ℓ} {B : Type κ} (tried : Result A) (next : A → Result B) → Result B
raise e >>= next = raise e
ok x >>= next = next x

-- The same where there is no value to pass on.
abbrev pub ◌>>◌ {κ} : {B : Type κ} (tried : Result (Unit {0})) (rest : Result B) → Result B
tried >> rest = tried >>= λ _. rest

-- `if not test: raise e`
abbrev pub guard : (test : Bool) (otherwise : Exn) → Result (Unit {0})
guard false otherwise = raise otherwise
guard true otherwise = ok tt

-- `[f(x) for x in xs]`
unfoldable pub traverse {ℓ κ} :
    {A : Type ℓ} {B : Type κ} → (A → Result B) → List A → Result (List B)
traverse f [] = ok []
traverse f (x ∷ xs) = do y ← f x; ys ← traverse f xs; ok (y ∷ ys)

-- Inversion of a successful bind.
pub >>=-eq-ok {ℓ κ} :
    {A : Type ℓ} {B : Type κ} (tried : Result A) (next : A → Result B) {y : B}
    → (tried >>= next) ≡ ok y
    → (x : A) × (tried ≡ ok x) × (next x ≡ ok y)
>>=-eq-ok (raise e) next returns = cc
>>=-eq-ok (ok x) next returns = (x, refl, returns)

-- `except ValueError` catches the class and those below it.
abbrev pub is_value_error : Exn → Bool
is_value_error value_error = true
is_value_error json_decode_error = true
is_value_error unicode_decode_error = true
is_value_error unicode_encode_error = true
is_value_error _ = false

-- `try: m; except ValueError: raise SystemExit`
abbrev pub value_error_exits {ℓ} : {A : Type ℓ} → Result A → Result A
value_error_exits (ok a) = ok a
value_error_exits (raise e) = if is_value_error e then raise system_exit else raise e

pub ok_injective {ℓ} : {A : Type ℓ} {x y : A} → ok x ≡ ok y → x ≡ y
ok_injective e = cc

-- Equal results have equal parts.
pub ok_part {ℓ κ} :
    {A : Type ℓ} {B : Type κ} (f : A → B) {x y : A} → ok x ≡ ok y → ok (f x) ≡ ok (f y)
ok_part f e = ap (λ z. ok (f z)) (ok_injective e)

-- A bind whose first step is known.
pub >>=-ok {ℓ κ} :
    {A : Type ℓ} {B : Type κ} {m : Result A} {a : A} (f : A → Result B) → m ≡ ok a → (m >>= f) ≡ f a
>>=-ok f e = ap (λ r. r >>= f) e

pub >>=-raise {ℓ κ} :
    {A : Type ℓ} {B : Type κ} {m : Result A} {e : Exn} (f : A → Result B)
    → m ≡ raise e
    → (m >>= f) ≡ raise e
>>=-raise f p = ap (λ r. r >>= f) p

-- Inversion of a guard and of a handler.
pub guard-eq-ok : (b : Bool) (e : Exn) {u : Unit {0}} → guard b e ≡ ok u → b ≡ true
guard-eq-ok true e h = refl
guard-eq-ok false e h = cc

pub value_error_exits-eq-ok {ℓ} :
    {A : Type ℓ} (r : Result A) {a : A} → value_error_exits r ≡ ok a → r ≡ ok a
value_error_exits-eq-ok (ok x) h = h
value_error_exits-eq-ok (raise e) h = ground arith
