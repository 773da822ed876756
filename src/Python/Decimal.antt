-- ===== src/Python/Decimal.antt =====
-- `int(str(n))`: what `str` writes of an integer `int` reads back, up to the limit on digits.
use mathlib.Core.WellFounded.{Acc}
use native.Mathlib.Decide.{dec_lt}
use noethrion.Base.{
  refl, ℕ, zero, suc, ◌+◌, ◌*◌, ◌/◌, ◌%◌, ◌^◌, ◌≤◌, ◌<◌, ◌≡◌, ap, ap₂, ◌∙◌, Bool, true, false, some,
  [], ◌∷◌, arith, leb, ltb, map, ◌&&◌, false, ◌==◌, All,
}
use noethrion.Base.Int.{pos}
use noethrion.Base.Order.{lt_wf}
use noethrion.Python.Result.{ok}
use noethrion.Python.Text.{Text, is_space}
use noethrion.Python.Split.{strip-id}
use noethrion.Python.Number.{
  is_digit, digits, max_str_digits, unsigned, signed, ascii_of, int_of_text,
}
use noethrion.Python.Print.{decimal, decimal_acc, decimal_step, text_of_int}

abbrev pub IsDigits : Text → Type 0
IsDigits = All (λ c. is_digit c ≡ true)

last_digit : (d : ℕ) → d < 10 → is_digit (d + b'0') ≡ true
unfolding is_digit
last_digit d h = ground arith

decimal_acc-IsDigits :
    (n : ℕ) (s : Text) (w : Acc ◌<◌ n) → IsDigits s → IsDigits (decimal_acc n s w)
unfolding decimal_acc decimal_step
decimal_acc-IsDigits n s (Acc.intro _ smaller) hs =
    go (dec_lt n 10) (λ m lt t ht. decimal_acc-IsDigits m t (smaller m lt) ht)
  where
    go :
        (d : Dec (n < 10))
        → ((m : ℕ) (lt : m < n) (t : Text) → IsDigits t → IsDigits (decimal_acc m t (smaller m lt)))
        → IsDigits (decimal_step n s d (λ m lt t. decimal_acc m t (smaller m lt)))
    go (yes p) ih = (last_digit n p, hs)
    go (no q) ih = ih (n / 10) (omega arith) _ (last_digit (n % 10) (omega arith), hs)

-- A digit is read.
digits-digit :
    (b : Bool) (n count d : ℕ) (s : Text)
    → d < 10
    → digits b n count ((d + b'0') ∷ s) ≡ digits true (n * 10 + d) (suc count) s
unfolding digits
digits-digit b n count d s h =
    rw (last_digit d h) (ap (λ m. digits true m (suc count) s) (omega arith))

-- What reading the digits of `n` comes to, with their number.
record Read (n : ℕ) (b : Bool) (count : ℕ) (t s : Text) : Type 0 where
  size : ℕ
  reads : digits b 0 count t ≡ digits true n (count + size) s
  bounded : (m : ℕ) → n < 10 ^ suc m → size ≤ suc m

decimal_acc-Read :
    (n : ℕ) (s : Text) (w : Acc ◌<◌ n) (b : Bool) (count : ℕ) → Read n b count (decimal_acc n s w) s
unfolding decimal_acc decimal_step
decimal_acc-Read n s (Acc.intro _ smaller) b count =
    go (dec_lt n 10) (λ m lt t. decimal_acc-Read m t (smaller m lt) b count)
  where
    from_zero : 0 * 10 + n ≡ n
    from_zero = omega arith

    one_more : suc count ≡ count + 1
    one_more = omega arith

    go :
        (d : Dec (n < 10))
        → ((m : ℕ) (lt : m < n) (t : Text) → Read m b count (decimal_acc m t (smaller m lt)) t)
        → Read n b count (decimal_step n s d (λ m lt t. decimal_acc m t (smaller m lt))) s
    go (yes p) ih = record {
      size = 1;
      reads = digits-digit b 0 count n s p ∙ ap₂ (λ v c. digits true v c s) from_zero one_more;
      bounded = λ m lt. omega arith;
    }
    go (no q) ih =
        let r = ih (n / 10) (omega arith) ((n % 10 + b'0') ∷ s) in
        let value : n / 10 * 10 + n % 10 ≡ n = omega arith in
        let counted : suc (count + r.size) ≡ count + suc r.size = omega arith in
        record {
          size = suc r.size;
          reads =
              r.reads
              ∙ digits-digit true (n / 10) (count + r.size) (n % 10) s (omega arith)
              ∙ ap (λ v. digits true v (suc (count + r.size)) s) value
              ∙ ap (λ c. digits true n c s) counted;
          bounded = λ m lt. smaller_bound m lt r.bounded;
        }
      where
        smaller_bound :
            {size : ℕ} (m : ℕ)
            → n < 10 ^ suc m
            → ((m' : ℕ) → n / 10 < 10 ^ suc m' → size ≤ suc m')
            → suc size ≤ suc m
        smaller_bound zero lt h = absurd (omega arith)
        smaller_bound (suc m) lt h = omega (arith, h m (omega arith))

is_space-digit : (c : ℕ) → is_digit c ≡ true → is_space c ≡ false
unfolding is_digit is_space
is_space-digit c h = ground arith

IsDigits-spaces : (s : Text) → IsDigits s → All (λ c. is_space c ≡ false) s
IsDigits-spaces [] h = tt
IsDigits-spaces (c ∷ s) h = (is_space-digit c h.0, IsDigits-spaces s h.1)

minus : (c : ℕ) → is_digit c ≡ true → (c == b'-') ≡ false
unfolding is_digit
minus c h = ground arith

plus : (c : ℕ) → is_digit c ≡ true → (c == b'+') ≡ false
unfolding is_digit
plus c h = ground arith

pub decimal-IsDigits : (n : ℕ) → IsDigits (decimal n)
unfolding decimal
decimal-IsDigits n = decimal_acc-IsDigits n [] (lt_wf.apply n) tt

-- What `decimal` writes, with the number of its digits.
record Written (n : ℕ) : Type 0 where
  size : ℕ
  reads : digits false 0 0 (decimal n) ≡ some (n, size)
  few : size ≤ 4300

decimal-Written : (n : ℕ) → n < 10 ^ 4300 → Written n
unfolding decimal digits
decimal-Written n lt =
    let r = decimal_acc-Read n [] (lt_wf.apply n) false 0 in
    record { size = 0 + r.size; reads = r.reads; few = omega (arith, r.bounded 4299 lt) }

unsigned_of_digits :
    (s : Text) (n size : ℕ) → digits false 0 0 s ≡ some (n, size) → size ≤ 4300 → unsigned s ≡ ok n
unfolding unsigned
unsigned_of_digits s n size h few =
    let enough : ltb max_str_digits size ≡ false = ground arith in rw (h, enough, unsigned)

signed_of_digits :
    (s : Text) (n size : ℕ)
    → IsDigits s
    → digits false 0 0 s ≡ some (n, size)
    → size ≤ 4300
    → signed s ≡ ok (pos n)
unfolding signed digits
signed_of_digits [] n size hs h few = cc
signed_of_digits (c ∷ s) n size hs h few =
    rw (minus c hs.0, plus c hs.0, unsigned_of_digits (c ∷ s) n size h few)

ascii_of-digit : (c : ℕ) → is_digit c ≡ true → ascii_of c ≡ c
unfolding is_digit ascii_of
ascii_of-digit c h =
    let not_separator : (leb 28 c && leb c 31) ≡ false = ground arith in
    let is_ascii : ltb c 127 ≡ true = ground arith in rw (not_separator, is_ascii) refl

map-ascii_of : (s : Text) → IsDigits s → map ascii_of s ≡ s
map-ascii_of [] h = refl
map-ascii_of (c ∷ s) h = cc (ascii_of-digit c h.0, map-ascii_of s h.1)

-- `int(str(z)) == z`, for fewer than 4300 digits.
pub int_of_text-text_of_int :
    (n : ℕ) → n < 10 ^ 4300 → int_of_text (text_of_int (pos n)) ≡ ok (pos n)
unfolding int_of_text text_of_int
int_of_text-text_of_int n lt =
    let w = decimal-Written n lt in
    rw
      (
        map-ascii_of (decimal n) (decimal-IsDigits n),
        strip-id (decimal n) (IsDigits-spaces (decimal n) (decimal-IsDigits n)),
      )
      (signed_of_digits (decimal n) n w.size (decimal-IsDigits n) w.reads w.few)
