-- ===== src/Python/Hex/RoundTrip.antt =====
-- Reading hexadecimal text back, and the lengths of what is read.
use noethrion.Base.{
  ℕ, ◌+◌, ◌*◌, ◌/◌, ◌%◌, ◌≤◌, ◌≡◌, refl, false, some, none, Option, ap, List, [], ◌∷◌, arith,
  length, All, inl, inr, Bool-cases,
}
use noethrion.Python.Result.{Result, ok, raise}
use noethrion.Python.Bytes.{Bytes, IsByte}
use noethrion.Python.Hex.{
  fromhex, hex, hex_value, cons_byte, is_ascii_space, hex_value-hex_digit, is_ascii_space-hex_digit,
}

join_digits : (b : ℕ) (bs : Bytes) → ok ((b / 16 * 16 + b % 16) ∷ bs) ≡ ok (b ∷ bs)
join_digits b bs = ground arith

-- `bytes.fromhex(b.hex()) == b`
pub fromhex-hex : (bs : Bytes) → All IsByte bs → fromhex (hex bs) ≡ ok bs
unfolding fromhex hex
fromhex-hex [] h = refl
fromhex-hex (b ∷ bs) (hb, hbs) =
    rw
      (
        is_ascii_space-hex_digit (b / 16) (omega arith),
        hex_value-hex_digit (b / 16) (omega arith),
        hex_value-hex_digit (b % 16) (omega arith),
        fromhex-hex bs hbs,
      )
      (join_digits b bs)

pub cons_byte-eq-ok :
    (hi lo : Option ℕ) (r : Result Bytes) {bs : Bytes}
    → cons_byte hi lo r ≡ ok bs
    → (b : ℕ) × (rest : Bytes) × (r ≡ ok rest) × (bs ≡ b ∷ rest)
unfolding cons_byte
cons_byte-eq-ok none lo r h = cc
cons_byte-eq-ok (some hi) none r h = cc
cons_byte-eq-ok (some hi) (some lo) (raise e) h = cc
cons_byte-eq-ok (some hi) (some lo) (ok rest) h = (hi * 16 + lo, rest, refl, ground arith)

abbrev pub NoSpace : List ℕ → Type 0
NoSpace = All (λ c. is_ascii_space c ≡ false)

-- Text with no white space in it gives one byte for two digits.
pub length-fromhex :
    (s : List ℕ) {bs : Bytes} → NoSpace s → fromhex s ≡ ok bs → 2 * length bs ≡ length s
unfolding fromhex
length-fromhex [] n h = ground arith
length-fromhex (c ∷ []) n h = ground arith
length-fromhex (c ∷ d ∷ s) {bs} n h =
    let (b, rest, e, p) = cons_byte-eq-ok (hex_value c) (hex_value d) (fromhex s) (rw n.0 at h) in
    omega (arith, length-fromhex s n.1.1 e, ap (λ (l : Bytes). length l) p)

-- Every byte takes two digits, so there are at most half as many bytes as characters.
pub length-fromhex-le : (s : List ℕ) {bs : Bytes} → fromhex s ≡ ok bs → 2 * length bs ≤ length s
unfolding fromhex
length-fromhex-le [] h = ground arith
length-fromhex-le (c ∷ []) h = ground arith
length-fromhex-le (c ∷ d ∷ s) {bs} h = elim (Bool-cases (is_ascii_space c)) [
  | inl space ↦ omega (arith, length-fromhex-le (d ∷ s) (rw space at h))
  | inr digit ↦
      let (b, rest, e, p) =
        cons_byte-eq-ok (hex_value c) (hex_value d) (fromhex s) (rw digit at h) in
      omega (arith, length-fromhex-le s e, ap (λ (l : Bytes). length l) p)
]
