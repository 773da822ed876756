-- ===== src/Python/Hex.antt =====
-- `bytes.fromhex` and `bytes.hex`.
pub mod RoundTrip
pub mod Width
use noethrion.Base.{
  ℕ, ◌+◌, ◌-◌, ◌*◌, ◌/◌, ◌%◌, ◌<◌, ◌≡◌, refl, Bool, false, ◌&&◌, ◌||◌, Option, none, some, List, [],
  ◌∷◌, arith, leb, ◌==◌, if◌then◌else◌, length,
}
use noethrion.Python.Result.{Result, ok, raise, value_error, ◌>>=◌}
use noethrion.Python.Bytes.{Bytes}

-- The white space that `bytes.fromhex` skips between two bytes: tab to carriage return, and space.
unfoldable pub is_ascii_space : ℕ → Bool
is_ascii_space c = (leb 9 c && leb c 13) || c == 32

unfoldable pub hex_value : ℕ → Option ℕ
hex_value c =
    if leb b'0' c && leb c b'9'
    then some (c - b'0')
    else if leb b'a' c && leb c b'f'
    then some (c - b'a' + 10)
    else if leb b'A' c && leb c b'F'
    then some (c - b'A' + 10)
    else none

-- A byte from two digits, in front of what follows.
unfoldable pub cons_byte : Option ℕ → Option ℕ → Result Bytes → Result Bytes
cons_byte (some hi) (some lo) rest = do bs ← rest; ok ((hi * 16 + lo) ∷ bs)
cons_byte _ _ rest = raise value_error

unfoldable pub fromhex : List ℕ → Result Bytes
unfolding is_ascii_space hex_value cons_byte
fromhex [] = ok []
fromhex (c ∷ []) = if is_ascii_space c then ok [] else raise value_error
fromhex (c ∷ d ∷ cs) =
    let skipped = fromhex (d ∷ cs) in
    let rest = fromhex cs in
    if is_ascii_space c then skipped else cons_byte (hex_value c) (hex_value d) rest

unfoldable pub hex_digit : ℕ → ℕ
hex_digit v = if leb v 9 then v + b'0' else v - 10 + b'a'

-- `b.hex()`
unfoldable pub hex : Bytes → List ℕ
unfolding hex_digit
hex [] = []
hex (b ∷ bs) = hex_digit (b / 16) ∷ hex_digit (b % 16) ∷ hex bs

pub hex_value-hex_digit : (v : ℕ) → v < 16 → hex_value (hex_digit v) ≡ some v
unfolding hex_value hex_digit
hex_value-hex_digit v h = ground arith

pub is_ascii_space-hex_digit : (v : ℕ) → v < 16 → is_ascii_space (hex_digit v) ≡ false
unfolding is_ascii_space hex_digit
is_ascii_space-hex_digit v h = ground arith

pub length-hex : (bs : Bytes) → length (hex bs) ≡ 2 * length bs
unfolding hex
length-hex [] = refl
length-hex (b ∷ bs) = omega (arith, length-hex bs)
