-- ===== src/Python/Bytes.antt =====
-- `bytes`: big-endian conversions and the lexicographic order.
use noethrion.Base.{
  ℕ, zero, suc, ◌+◌, ◌*◌, ◌/◌, ◌%◌, ◌^◌, ◌<◌, ◌≡◌, refl, sym, ap, ◌∙◌, Bool, true, false, List, [],
  ◌∷◌, ◌++◌, arith, ltb, ◌==◌, if◌then◌else◌, length, length-append, All, All-append, lt→ltb,
}
use noethrion.Base.Int.{ℤ, pos, negsuc}
use noethrion.Python.Result.{Result, ok, raise, overflow_error}
use mathlib.Core.List.{foldl, foldl-append}

abbrev pub Bytes : Type 0
Bytes = List ℕ

abbrev pub IsByte : ℕ → Type 0
IsByte b = b < 256

-- The `k` lowest bytes of `n`, the highest first.
unfoldable pub big_endian : ℕ → ℕ → Bytes
big_endian zero n = []
big_endian (suc k) n = big_endian k (n / 256) ++ (n % 256) ∷ []

-- `n.to_bytes(k, "big")`: a negative or too large number raises OverflowError.
unfoldable pub to_bytes : ℤ → ℕ → Result Bytes
to_bytes (negsuc n) k = raise overflow_error
to_bytes (pos n) k = if ltb n (256 ^ k) then ok (big_endian k n) else raise overflow_error

-- `int.from_bytes(b, "big")`
unfoldable pub from_bytes : Bytes → ℕ
from_bytes = foldl (λ acc b. acc * 256 + b) 0

-- `a < b`
unfoldable pub bytes_lt : Bytes → Bytes → Bool
bytes_lt [] [] = false
bytes_lt [] (y ∷ ys) = true
bytes_lt (x ∷ xs) [] = false
bytes_lt (x ∷ xs) (y ∷ ys) = if x == y then bytes_lt xs ys else ltb x y

-- `a == b`
unfoldable pub bytes_eq : Bytes → Bytes → Bool
bytes_eq [] [] = true
bytes_eq [] (y ∷ ys) = false
bytes_eq (x ∷ xs) [] = false
bytes_eq (x ∷ xs) (y ∷ ys) = if x == y then bytes_eq xs ys else false

pub bytes_eq→eq : (a b : Bytes) → bytes_eq a b ≡ true → a ≡ b
unfolding bytes_eq
bytes_eq→eq [] [] h = refl
bytes_eq→eq [] (y ∷ ys) h = cc
bytes_eq→eq (x ∷ xs) [] h = cc
bytes_eq→eq (x ∷ xs) (y ∷ ys) h = ground (arith, bytes_eq→eq xs ys)

pub bytes_eq_refl : (a : Bytes) → bytes_eq a a ≡ true
unfolding bytes_eq
bytes_eq_refl [] = refl
bytes_eq_refl (x ∷ xs) = ground (arith, bytes_eq_refl xs)

pub bytes_lt_asym : (a b : Bytes) → bytes_lt a b ≡ true → bytes_lt b a ≡ false
unfolding bytes_lt
bytes_lt_asym [] [] h = refl
bytes_lt_asym [] (y ∷ ys) h = refl
bytes_lt_asym (x ∷ xs) [] h = cc
bytes_lt_asym (x ∷ xs) (y ∷ ys) h = ground (arith, bytes_lt_asym xs ys)

pub bytes_lt_connex : (a b : Bytes) → bytes_lt a b ≡ false → bytes_lt b a ≡ false → a ≡ b
unfolding bytes_lt
bytes_lt_connex [] [] h k = refl
bytes_lt_connex [] (y ∷ ys) h k = cc
bytes_lt_connex (x ∷ xs) [] h k = cc
bytes_lt_connex (x ∷ xs) (y ∷ ys) h k = ground (arith, bytes_lt_connex xs ys)

pub length-big_endian : (k n : ℕ) → length (big_endian k n) ≡ k
unfolding big_endian
length-big_endian zero n = refl
length-big_endian (suc k) n =
    omega (
      arith,
      length-append (big_endian k (n / 256)) ((n % 256) ∷ []),
      length-big_endian k (n / 256),
    )

pub big_endian-IsByte : (k n : ℕ) → All IsByte (big_endian k n)
unfolding big_endian
big_endian-IsByte zero n = tt
big_endian-IsByte (suc k) n =
    All-append IsByte (big_endian k (n / 256)) _ (big_endian-IsByte k (n / 256)) (omega arith)

pub pow256_suc : (k : ℕ) → 256 ^ suc k ≡ 256 * 256 ^ k
pow256_suc k = omega arith

div256-lt : (k n : ℕ) → n < 256 ^ suc k → n / 256 < 256 ^ k
div256-lt k n h = omega (arith, pow256_suc k)

-- Reading back what was written gives the number, if it fits.
pub from_bytes-big_endian : (k n : ℕ) → n < 256 ^ k → from_bytes (big_endian k n) ≡ n
unfolding big_endian from_bytes
from_bytes-big_endian zero n h = omega arith
from_bytes-big_endian (suc k) n h =
    foldl-append _ 0 (big_endian k (n / 256)) ((n % 256) ∷ [])
    ∙ omega (arith, from_bytes-big_endian k (n / 256) (div256-lt k n h))

-- Different numbers below 256 ^ k have different encodings.
pub big_endian_injective :
    (k m n : ℕ) → m < 256 ^ k → n < 256 ^ k → big_endian k m ≡ big_endian k n → m ≡ n
big_endian_injective k m n hm hn e =
    sym (from_bytes-big_endian k m hm) ∙ ap from_bytes e ∙ from_bytes-big_endian k n hn

pub to_bytes-pos : (n k : ℕ) → n < 256 ^ k → to_bytes (pos n) k ≡ ok (big_endian k n)
unfolding to_bytes
to_bytes-pos n k h = rw (lt→ltb _ _ h)
