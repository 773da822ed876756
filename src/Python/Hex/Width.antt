-- ===== src/Python/Hex/Width.antt =====
-- `f"{n:064x}"`: the hexadecimal digits of a number, with zeros in front.
use noethrion.Base.{
  ℕ, zero, suc, ◌+◌, ◌-◌, ◌/◌, ◌%◌, ◌^◌, ◌≤◌, ◌<◌, ◌≡◌, refl, sym, ap, ap₂, ◌∙◌, true, [], ◌∷◌,
  ◌++◌, arith, ◌==◌, if◌then◌else◌, length, length-append, replicate, append-nil, append_assoc,
  Bool-cases, inl, inr, ==_iff,
}
use noethrion.Python.Bytes.{Bytes, big_endian}
use noethrion.Python.Text.{Text}
use noethrion.Python.Hex.{hex, hex_digit}

-- The digits of `n`, none for 0, on fuel: as much as `n` is enough.
unfoldable pub hex_digits : ℕ → ℕ → Text
unfolding hex_digit
hex_digits zero n = []
hex_digits (suc fuel) n =
    let rest = hex_digits fuel (n / 16) in if n == 0 then [] else rest ++ hex_digit (n % 16) ∷ []

-- `s.rjust(width, "0")`
unfoldable pub zero_fill : ℕ → Text → Text
zero_fill width s = replicate (width - length s) b'0' ++ s

-- `f"{n:064x}"`
unfoldable pub hex_064 : ℕ → Text
unfolding hex_digits zero_fill
hex_064 n = zero_fill 64 (hex_digits n n)

-- Exactly `k` digits.
fixed : ℕ → ℕ → Text
fixed zero n = []
fixed (suc k) n = fixed k (n / 16) ++ hex_digit (n % 16) ∷ []

replicate-last : (k c : ℕ) → replicate (suc k) c ≡ replicate k c ++ c ∷ []
replicate-last zero c = refl
replicate-last (suc k) c = ap (λ (s : Text). c ∷ s) (replicate-last k c)

fixed-zero : (k : ℕ) → replicate k b'0' ≡ fixed k 0
unfolding fixed hex_digit
fixed-zero zero = refl
fixed-zero (suc k) = replicate-last k b'0' ∙ ap (λ s. s ++ b'0' ∷ []) (fixed-zero k)

zero_fill-empty : (k n : ℕ) → n ≡ 0 → zero_fill k [] ≡ fixed k n
unfolding zero_fill
zero_fill-empty k n h =
    let whole : k - 0 ≡ k = omega arith in
    append-nil (replicate (k - 0) b'0')
    ∙ ap (λ m. replicate m b'0') whole
    ∙ fixed-zero k
    ∙ ap (fixed k) (sym h)

zero_fill-last : (k d : ℕ) (s : Text) → zero_fill (suc k) (s ++ d ∷ []) ≡ zero_fill k s ++ d ∷ []
unfolding zero_fill
zero_fill-last k d s =
    let room : suc k - length (s ++ d ∷ []) ≡ k - length s =
      omega (arith, length-append s (d ∷ [])) in
    ap (λ m. replicate m b'0' ++ (s ++ d ∷ [])) room
    ∙ sym (append_assoc (replicate (k - length s) b'0') s (d ∷ []))

zero_fill-hex_digits :
    (k fuel n : ℕ) → n < 16 ^ k → n ≤ fuel → zero_fill k (hex_digits fuel n) ≡ fixed k n
unfolding hex_digits fixed
zero_fill-hex_digits zero zero n lt le = zero_fill-empty zero n (omega arith)
zero_fill-hex_digits zero (suc fuel) n lt le =
    let empty : (n == 0) ≡ true = ground arith in
    rw (empty, hex_digits) (zero_fill-empty zero n (omega arith))
zero_fill-hex_digits (suc k) zero n lt le = zero_fill-empty (suc k) n (omega arith)
zero_fill-hex_digits (suc k) (suc fuel) n lt le = elim (Bool-cases (n == 0)) [
  | inl e ↦ rw (e, hex_digits) (zero_fill-empty (suc k) n ((==_iff n 0).0 e))
  | inr e ↦
      let smaller : n / 16 ≤ fuel = ground arith in
      rw (e, hex_digits)
        (zero_fill-last k (hex_digit (n % 16)) (hex_digits fuel (n / 16))
          ∙ ap (λ s. s ++ hex_digit (n % 16) ∷ [])
              (zero_fill-hex_digits k fuel (n / 16) (omega arith) smaller))
]

pub hex-append : (a b : Bytes) → hex (a ++ b) ≡ hex a ++ hex b
unfolding hex
hex-append [] b = refl
hex-append (x ∷ a) b = cc (hex-append a b)

fixed-big_endian : (k n : ℕ) → hex (big_endian k n) ≡ fixed (k + k) n
unfolding hex big_endian fixed
fixed-big_endian zero n = refl
fixed-big_endian (suc k) n =
    let parts : n / 256 ≡ n / 16 / 16 = omega arith in
    let high : n % 256 / 16 ≡ n / 16 % 16 = omega arith in
    let low : n % 256 % 16 ≡ n % 16 = omega arith in
    let twice : suc (suc (k + k)) ≡ suc k + suc k = omega arith in
    hex-append (big_endian k (n / 256)) (n % 256 ∷ [])
    ∙ ap₂ (λ (s t : Text). s ++ t) (fixed-big_endian k (n / 256) ∙ ap (fixed (k + k)) parts)
        (ap₂ (λ c d. hex_digit c ∷ hex_digit d ∷ []) high low)
    ∙ sym (
        append_assoc (fixed (k + k) (n / 16 / 16)) (hex_digit (n / 16 % 16) ∷ [])
          (hex_digit (n % 16) ∷ []))
    ∙ ap (λ m. fixed m n) twice

-- A number of 32 bytes is written as its bytes are.
pub hex_064-big_endian : (n : ℕ) → n < 2 ^ 256 → hex_064 n ≡ hex (big_endian 32 n)
unfolding hex_064
hex_064-big_endian n h =
    zero_fill-hex_digits 64 n n (omega arith) (omega arith) ∙ sym (fixed-big_endian 32 n)
