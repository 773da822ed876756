-- ===== src/Python/Print.antt =====
-- `str(n)`, and the texts that `json.dumps` writes: they are ASCII.
use mathlib.Core.WellFounded.{Acc}
use native.Mathlib.Decide.{dec_lt}
use noethrion.Base.{
  ℕ, suc, ◌+◌, ◌-◌, ◌/◌, ◌%◌, ◌<◌, ◌≡◌, refl, Bool, true, false, ◌&&◌, ◌||◌, [], ◌∷◌, ◌++◌, arith,
  ltb, leb, ◌==◌, if◌then◌else◌, All, All-append,
}
use noethrion.Base.Int.{ℤ, pos, negsuc}
use noethrion.Base.Order.{lt_wf}
use noethrion.Python.Hex.{hex_digit}
use noethrion.Python.Text.{Text}

-- The last digit, and what comes before it, in front of a text.
unfoldable pub decimal_step : (n : ℕ) → Text → Dec (n < 10) → ((m : ℕ) → m < n → Text → Text) → Text
decimal_step n s (yes _) rest = (n + b'0') ∷ s
decimal_step n s (no h) rest = rest (n / 10) (omega arith) ((n % 10 + b'0') ∷ s)

-- The digits of `n` in front of a text.
unfoldable pub decimal_acc : (n : ℕ) → Text → Acc ◌<◌ n → Text
unfolding decimal_step
decimal_acc n s (Acc.intro _ smaller) =
    decimal_step n s (dec_lt n 10) (λ m h t. decimal_acc m t (smaller m h))

unfoldable pub decimal : ℕ → Text
unfolding decimal_acc lt_wf dec_lt
decimal n = decimal_acc n [] (lt_wf.apply n)

-- `str(n)`
unfoldable pub text_of_int : ℤ → Text
unfolding decimal
text_of_int (pos n) = decimal n
text_of_int (negsuc n) = b'-' ∷ decimal (suc n)

-- `\uXXXX`
unfoldable pub u_escape : ℕ → Text
unfolding hex_digit
u_escape c =
    b'\\'
    ∷ b'u'
    ∷ hex_digit (c / 4096 % 16)
    ∷ hex_digit (c / 256 % 16)
    ∷ hex_digit (c / 16 % 16)
    ∷ hex_digit (c % 16)
    ∷ []

-- A character of a JSON string, with `ensure_ascii`: what is not ASCII is one escape or a pair.
unfoldable pub json_char : ℕ → Text
unfolding u_escape
json_char c =
    if c == b'"' || c == b'\\'
    then b'\\' ∷ c ∷ []
    else if leb 32 c && leb c 126
    then c ∷ []
    else if c == 8
    then b'\\' ∷ b'b' ∷ []
    else if c == 9
    then b'\\' ∷ b't' ∷ []
    else if c == 10
    then b'\\' ∷ b'n' ∷ []
    else if c == 12
    then b'\\' ∷ b'f' ∷ []
    else if c == 13
    then b'\\' ∷ b'r' ∷ []
    else if ltb c 65536
    then u_escape c
    else u_escape (0xd800 + (c - 0x10000) / 1024) ++ u_escape (0xdc00 + (c - 0x10000) % 1024)

unfoldable pub json_chars : Text → Text
unfolding json_char
json_chars [] = []
json_chars (c ∷ s) = json_char c ++ json_chars s

abbrev pub IsAscii : Text → Type 0
IsAscii = All (λ c. c < 128)

decimal_step-IsAscii :
    (n : ℕ) (s : Text) (d : Dec (n < 10)) (rest : (m : ℕ) → m < n → Text → Text)
    → IsAscii s
    → ((m : ℕ) (h : m < n) (t : Text) → IsAscii t → IsAscii (rest m h t))
    → IsAscii (decimal_step n s d rest)
unfolding decimal_step
decimal_step-IsAscii n s (yes p) rest hs h = (omega arith, hs)
decimal_step-IsAscii n s (no q) rest hs h = h (n / 10) (omega arith) _ (omega arith, hs)

decimal_acc-IsAscii : (n : ℕ) (s : Text) (w : Acc ◌<◌ n) → IsAscii s → IsAscii (decimal_acc n s w)
unfolding decimal_acc
decimal_acc-IsAscii n s (Acc.intro _ smaller) h =
    decimal_step-IsAscii n s (dec_lt n 10) (λ m lt t. decimal_acc m t (smaller m lt)) h
      (λ m lt t a. decimal_acc-IsAscii m t (smaller m lt) a)

pub text_of_int-IsAscii : (z : ℤ) → IsAscii (text_of_int z)
unfolding text_of_int
text_of_int-IsAscii (pos n) = decimal_acc-IsAscii n [] (lt_wf.apply n) tt
text_of_int-IsAscii (negsuc n) =
    (omega arith, decimal_acc-IsAscii (suc n) [] (lt_wf.apply (suc n)) tt)

hex_digit-lt : (v : ℕ) → v < 16 → hex_digit v < 128
unfolding hex_digit
hex_digit-lt v h = ground arith

u_escape-IsAscii : (c : ℕ) → IsAscii (u_escape c)
unfolding u_escape
u_escape-IsAscii c = (
  omega arith,
  (
    omega arith,
    (
      hex_digit-lt _ (omega arith),
      (
        hex_digit-lt _ (omega arith),
        (hex_digit-lt _ (omega arith), (hex_digit-lt _ (omega arith), tt)),
      ),
    ),
  ),
)

pub record Ascii (s : Text) : Type 0 where
  pub chars : IsAscii s

if-Ascii : (b : Bool) {x y : Text} → (b ≡ true → Ascii x) → Ascii y → Ascii (if b then x else y)
if-Ascii true hx hy = hx refl
if-Ascii false hx hy = hy

two : (c d : ℕ) → c < 128 → d < 128 → Ascii (c ∷ d ∷ [])
two c d hc hd = record { chars = (hc, (hd, tt)) }

quoted : (c : ℕ) → (c == b'"' || c == b'\\') ≡ true → c < 128
quoted c h = ground arith

printable : (c : ℕ) → (leb 32 c && leb c 126) ≡ true → c < 128
printable c h = ground arith

pair-Ascii : (c d : ℕ) → Ascii (u_escape c ++ u_escape d)
pair-Ascii c d = record {
  chars =
      All-append (λ c. c < 128) (u_escape c) (u_escape d) (u_escape-IsAscii c) (u_escape-IsAscii d);
}

json_char-Ascii : (c : ℕ) → Ascii (json_char c)
unfolding json_char
json_char-Ascii c =
    if-Ascii (c == b'"' || c == b'\\') (λ h. two b'\\' c (omega arith) (quoted c h))
      (if-Ascii (leb 32 c && leb c 126) (λ h. record { chars = (printable c h, tt) })
        (if-Ascii (c == 8) (λ _. two b'\\' b'b' (omega arith) (omega arith))
          (if-Ascii (c == 9) (λ _. two b'\\' b't' (omega arith) (omega arith))
            (if-Ascii (c == 10) (λ _. two b'\\' b'n' (omega arith) (omega arith))
              (if-Ascii (c == 12) (λ _. two b'\\' b'f' (omega arith) (omega arith))
                (if-Ascii (c == 13) (λ _. two b'\\' b'r' (omega arith) (omega arith))
                  (if-Ascii (ltb c 65536) (λ _. record { chars = u_escape-IsAscii c })
                    (pair-Ascii (0xd800 + (c - 0x10000) / 1024)
                      (0xdc00 + (c - 0x10000) % 1024)))))))))

pub json_chars-IsAscii : (s : Text) → IsAscii (json_chars s)
unfolding json_chars
json_chars-IsAscii [] = tt
json_chars-IsAscii (c ∷ s) =
    All-append (λ c. c < 128) (json_char c) (json_chars s) ((json_char-Ascii c).chars)
      (json_chars-IsAscii s)

pub append-Ascii : {s t : Text} → Ascii s → Ascii t → Ascii (s ++ t)
append-Ascii {s} {t} h k = record { chars = All-append (λ c. c < 128) s t h.chars k.chars }
