-- ===== src/Leaf/Address.antt =====
-- The size of an address slot (`_addr_to_32` of the builder and the library): the check counts
-- characters, and `bytes.fromhex` skips white space between the digits.
use noethrion.Base.{
  ℕ, ◌*◌, ◌<◌, ◌≡◌, ◌↔◌, refl, ap, true, false, inl, inr, Option, none, some, [], ◌∷◌, arith, ◌==◌,
  length, Bool-cases,
}
use noethrion.Python.Result.{Result, ok, raise, value_error, guard, >>=-eq-ok, ok_injective}
use noethrion.Python.Bytes.{Bytes}
use noethrion.Python.Hex.{fromhex, is_ascii_space, hex_value, cons_byte}
use noethrion.Python.Hex.RoundTrip.{NoSpace, length-fromhex, length-fromhex-le, cons_byte-eq-ok}
use noethrion.Python.Text.{Text, lower, removeprefix_0x, any}
use noethrion.Leaf.{addr_to_32}

any-NoSpace : (s : Text) → any is_ascii_space s ≡ false → NoSpace s
unfolding any
any-NoSpace [] h = tt
any-NoSpace (c ∷ s) h = (ground arith, any-NoSpace s (ground arith))

space_no_digit : (c : ℕ) → is_ascii_space c ≡ true → hex_value c ≡ none
unfolding is_ascii_space hex_value
space_no_digit c h = ground arith

cons_byte-none : (o : Option ℕ) (r : Result Bytes) → cons_byte o none r ≡ raise value_error
unfolding cons_byte
cons_byte-none none r = refl
cons_byte-none (some hi) r = refl

-- White space among the digits makes the bytes fewer.
length-fromhex-lt :
    (s : Text) {bs : Bytes}
    → fromhex s ≡ ok bs
    → any is_ascii_space s ≡ true
    → 2 * length bs < length s
unfolding fromhex any
length-fromhex-lt [] h e = cc
length-fromhex-lt (c ∷ []) h e = ground arith
length-fromhex-lt (c ∷ d ∷ s) {bs} h e = elim (Bool-cases (is_ascii_space c)) [
  | inl space ↦ omega (arith, length-fromhex-le (d ∷ s) (rw space at h))
  | inr digit ↦
      let h' : cons_byte (hex_value c) (hex_value d) (fromhex s) ≡ ok bs = rw digit at h in
      let (b, rest, p, q) = cons_byte-eq-ok (hex_value c) (hex_value d) (fromhex s) h' in
      elim (Bool-cases (is_ascii_space d)) [
        | inl space ↦
            cc (rw (space_no_digit d space) at h', cons_byte-none (hex_value c) (fromhex s))
        | inr digit' ↦
            omega (
              arith,
              length-fromhex-lt s p (rw (digit, digit') at e),
              ap (λ (l : Bytes). length l) q,
            )
      ]
]

-- Where the builder or the library accepts an address, its slot has 32 bytes exactly when there is
-- no white space in the address.
pub length-addr_to_32 :
    (addr_hex : Text) {slot : Bytes}
    → addr_to_32 addr_hex ≡ ok slot
    → (length slot ≡ 32) ↔ (any is_ascii_space (removeprefix_0x (lower addr_hex)) ≡ false)
unfolding addr_to_32
length-addr_to_32 addr_hex {slot} h =
    let s = removeprefix_0x (lower addr_hex) in
    let (u, sized, h₁) = >>=-eq-ok (guard (length s == 40) value_error) _ h in
    let (bs, decoded, h₂) = >>=-eq-ok (fromhex s) _ h₁ in
    let size = ap (λ (l : Bytes). length l) (ok_injective h₂) in
    let forty = forty_chars (length s) sized in
    (
      λ whole. elim (Bool-cases (any is_ascii_space s)) [
        | inl space ↦ absurd (omega (arith, length-fromhex-lt s decoded space, size, forty, whole))
        | inr clean ↦ clean
      ],
      λ clean. omega (arith, length-fromhex s (any-NoSpace s clean) decoded, size, forty),
    )
  where
    forty_chars : (n : ℕ) {u : Unit {0}} → guard (n == 40) value_error ≡ ok u → n ≡ 40
    forty_chars n e = ground arith
