-- ===== src/Python/Number.antt =====
-- `int(x)` and `str(n)`.
use noethrion.Base.{
  ℕ, suc, ◌+◌, ◌-◌, ◌*◌, Bool, true, false, ◌&&◌, Option, none, some, List, [], ◌∷◌, map, leb, ltb,
  ◌==◌, if◌then◌else◌,
}
use noethrion.Base.Int.{ℤ, pos, neg}
use noethrion.Python.Result.{Result, ok, raise, type_error, overflow_error, value_error, ◌>>=◌}
use noethrion.Python.Text.{Text, strip, is_space}
use noethrion.Python.Json.{Json, null, boolean, int, float, str, arr, obj, finite, infinite, nan}

unfoldable pub is_digit : ℕ → Bool
is_digit c = leb b'0' c && leb c b'9'

-- Digits, with single underscores between them; `n` and `count` are their value and number so far.
-- `after_digit` tells whether an underscore, or the end, may follow.
unfoldable pub digits : Bool → ℕ → ℕ → Text → Option (ℕ × ℕ)
unfolding is_digit
digits after_digit n count [] = if after_digit then some (n, count) else none
digits after_digit n count (c ∷ s) =
    let underscore = digits false n count s in
    let digit = digits true (n * 10 + (c - b'0')) (suc count) s in
    if is_digit c then digit else if c == b'_' && after_digit then underscore else none

-- `sys.get_int_max_str_digits()`, by default
abbrev pub max_str_digits : ℕ
max_str_digits = 4300

unfoldable pub unsigned : Text → Result ℕ
unfolding digits
unsigned s = elim (digits false 0 0 s) [
  | none ↦ raise value_error
  | some (n, count) ↦ if ltb max_str_digits count then raise value_error else ok n
]

unfoldable pub signed : Text → Result ℤ
unfolding unsigned
signed [] = raise value_error
signed (c ∷ s) =
    if c == b'-'
    then (do n ← unsigned s; ok (neg n))
    else if c == b'+'
    then (do n ← unsigned s; ok (pos n))
    else (do n ← unsigned (c ∷ s); ok (pos n))

-- The zeros of the other decimal digits of Unicode 15.0; each has its ten digits in a row.
abbrev other_zeros : List ℕ
other_zeros =
    0x660 ∷ 0x6f0 ∷ 0x7c0 ∷ 0x966 ∷ 0x9e6 ∷ 0xa66 ∷ 0xae6 ∷ 0xb66 ∷ 0xbe6 ∷ 0xc66 ∷ 0xce6 ∷ 0xd66
    ∷ 0xde6 ∷ 0xe50 ∷ 0xed0 ∷ 0xf20 ∷ 0x1040 ∷ 0x1090 ∷ 0x17e0 ∷ 0x1810 ∷ 0x1946 ∷ 0x19d0 ∷ 0x1a80
    ∷ 0x1a90 ∷ 0x1b50 ∷ 0x1bb0 ∷ 0x1c40 ∷ 0x1c50 ∷ 0xa620 ∷ 0xa8d0 ∷ 0xa900 ∷ 0xa9d0 ∷ 0xa9f0
    ∷ 0xaa50 ∷ 0xabf0 ∷ 0xff10 ∷ 0x104a0 ∷ 0x10d30 ∷ 0x11066 ∷ 0x110f0 ∷ 0x11136 ∷ 0x111d0 ∷ 0x112f0
    ∷ 0x11450 ∷ 0x114d0 ∷ 0x11650 ∷ 0x116c0 ∷ 0x11730 ∷ 0x118e0 ∷ 0x11950 ∷ 0x11c50 ∷ 0x11d50
    ∷ 0x11da0 ∷ 0x11f50 ∷ 0x16a60 ∷ 0x16ac0 ∷ 0x16b50 ∷ 0x1d7ce ∷ 0x1d7d8 ∷ 0x1d7e2 ∷ 0x1d7ec
    ∷ 0x1d7f6 ∷ 0x1e140 ∷ 0x1e2f0 ∷ 0x1e4f0 ∷ 0x1e950 ∷ 0x1fbf0 ∷ []

unfoldable pub other_digit : ℕ → List ℕ → ℕ
other_digit c [] = b'?'
other_digit c (zero_of ∷ zeros) =
    let rest = other_digit c zeros in
    if leb zero_of c && ltb c (zero_of + 10) then c - zero_of + b'0' else rest

-- How `int` reads a character: white space and digits beyond ASCII as those of ASCII, and what it
-- refuses anywhere, the separators 28 to 31 among it, as `?`.
unfoldable pub ascii_of : ℕ → ℕ
unfolding is_space other_digit
ascii_of c =
    if leb 28 c && leb c 31
    then b'?'
    else if ltb c 127
    then c
    else if is_space c
    then b' '
    else other_digit c other_zeros

-- `int(s)` for a text
unfoldable pub int_of_text : Text → Result ℤ
unfolding strip signed ascii_of
int_of_text s = signed (strip (map ascii_of s))

-- `int(x)` for a value
unfoldable pub int_of : Json → Result ℤ
int_of null = raise type_error
int_of (boolean true) = ok (pos 1)
int_of (boolean false) = ok (pos 0)
int_of (int n) = ok n
int_of (float (finite n)) = ok n
int_of (float infinite) = raise overflow_error
int_of (float nan) = raise value_error
int_of (str s) = int_of_text s
int_of (arr js) = raise type_error
int_of (obj d) = raise type_error
