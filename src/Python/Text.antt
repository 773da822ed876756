-- ===== src/Python/Text.antt =====
-- `str` as a list of code points. The case functions act on ASCII letters.
use noethrion.Base.{
  ℕ, suc, ◌+◌, ◌-◌, ◌<◌, ◌≡◌, refl, ap, Bool, true, false, ◌&&◌, ◌||◌, List, [], ◌∷◌, arith, leb,
  ◌==◌, if◌then◌else◌, length, All, ◌/◌, ◌%◌,
}
use Prim.Native.Char.{code}
use Prim.Native.String.{String}
use mathlib.Core.List.{reverse}
use noethrion.Python.Result.{Result, ok, raise, unicode_encode_error}
use noethrion.Python.Bytes.{Bytes, IsByte}
use noethrion.Python.Hex.{hex, hex_digit}

abbrev pub Text : Type 0
Text = List ℕ

-- A literal of the source.
abbrev pub codes : String → Text
codes String.[] = []
codes (String.◌∷◌ c s) = code c ∷ codes s

unfoldable pub is_upper : ℕ → Bool
is_upper c = leb b'A' c && leb c b'Z'

unfoldable pub is_lower : ℕ → Bool
is_lower c = leb b'a' c && leb c b'z'

unfoldable pub lower_char : ℕ → ℕ
unfolding is_upper
lower_char c = if is_upper c then c + 32 else c

unfoldable pub upper_char : ℕ → ℕ
unfolding is_lower
upper_char c = if is_lower c then c - 32 else c

-- `s.lower()`
unfoldable pub lower : Text → Text
unfolding lower_char
lower [] = []
lower (c ∷ s) = lower_char c ∷ lower s

-- `any(p(c) for c in s)`
unfoldable pub any : (ℕ → Bool) → Text → Bool
any p [] = false
any p (c ∷ s) = p c || any p s

unfoldable pub starts_0x : Text → Bool
starts_0x [] = false
starts_0x (a ∷ []) = false
starts_0x (a ∷ b ∷ s) = a == b'0' && b == b'x'

-- `s.removeprefix("0x")`
unfoldable pub removeprefix_0x : Text → Text
removeprefix_0x [] = []
removeprefix_0x (a ∷ []) = a ∷ []
removeprefix_0x (a ∷ b ∷ s) = if a == b'0' && b == b'x' then s else a ∷ b ∷ s

-- `"0x" + s`
abbrev pub add_0x : Text → Text
add_0x s = b'0' ∷ b'x' ∷ s

-- `c.isspace()`
unfoldable pub is_space : ℕ → Bool
is_space c =
    (leb 9 c && leb c 13)
    || (leb 28 c && leb c 32)
    || c == 0x85
    || c == 0xa0
    || c == 0x1680
    || (leb 0x2000 c && leb c 0x200a)
    || c == 0x2028
    || c == 0x2029
    || c == 0x202f
    || c == 0x205f
    || c == 0x3000

unfoldable pub lstrip : Text → Text
unfolding is_space
lstrip [] = []
lstrip (c ∷ s) = if is_space c then lstrip s else c ∷ s

-- `s.strip()`
unfoldable pub strip : Text → Text
unfolding lstrip
strip s = reverse (lstrip (reverse (lstrip s)))

unfoldable pub is_empty : Text → Bool
is_empty [] = true
is_empty (c ∷ s) = false

-- `s.encode("ascii")`
unfoldable pub encode_ascii : Text → Result Bytes
unfolding any
encode_ascii s = if any (λ c. leb 128 c) s then raise unicode_encode_error else ok s

pub length-lower : (s : Text) → length (lower s) ≡ length s
unfolding lower
length-lower [] = refl
length-lower (c ∷ s) = ap suc (length-lower s)

lower_char-hex_digit : (v : ℕ) → v < 16 → lower_char (hex_digit v) ≡ hex_digit v
unfolding lower_char hex_digit
lower_char-hex_digit v h = ground arith

-- What `bytes.hex` writes is in lower case.
pub lower-hex : (bs : Bytes) → All IsByte bs → lower (hex bs) ≡ hex bs
unfolding lower hex
lower-hex [] h = refl
lower-hex (b ∷ bs) (hb, hbs) = cc (
  lower_char-hex_digit (b / 16) (omega arith),
  lower_char-hex_digit (b % 16) (omega arith),
  lower-hex bs hbs,
)

pub lower-add_0x : (s : Text) → lower (add_0x s) ≡ add_0x (lower s)
unfolding lower
lower-add_0x s = refl

pub removeprefix_0x-add_0x : (s : Text) → removeprefix_0x (add_0x s) ≡ s
unfolding removeprefix_0x
removeprefix_0x-add_0x s = refl
