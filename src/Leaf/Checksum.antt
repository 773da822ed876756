-- ===== src/Leaf/Checksum.antt =====
-- The EIP-55 warning of `_addr_to_32` (tools/verify_attestation.py) and the address that it proposes.
use noethrion.Base.{
  ℕ, ◌/◌, ◌%◌, ◌<◌, leb, All, ◌≡◌, refl, sym, ap, ◌∙◌, Bool, true, false, ◌&&◌, Option, none, some,
  [], ◌∷◌, arith, ◌==◌, if◌then◌else◌, length, Bool-cases, inl, inr,
}
use mathlib.Core.Option.{some-injective}
use noethrion.Python.Result.{
  ok, system_exit, guard, guard-eq-ok, value_error_exits, >>=-eq-ok, ok_injective,
}
use noethrion.Python.Bytes.{Bytes, IsByte, bytes_eq, bytes_eq_refl}
use noethrion.Python.Hex.{fromhex, hex, hex_digit, hex_value-hex_digit}
use noethrion.Python.Text.{
  Text, lower, lower_char, upper_char, is_upper, is_lower, any, encode_ascii, add_0x,
  removeprefix_0x, length-lower, removeprefix_0x-add_0x,
}
use noethrion.Merkle.Replay.{IsDigest}
use noethrion.Leaf.Tool.{high_digit, checksum_case, checksum_warning, addr_to_32}

lower-lower_char : (c : ℕ) → lower_char (lower_char c) ≡ lower_char c
unfolding lower_char is_upper
lower-lower_char c = ground arith

lower-upper_char : (c : ℕ) → lower_char (upper_char c) ≡ lower_char c
unfolding lower_char upper_char is_upper is_lower
lower-upper_char c = ground arith

lower-lower : (s : Text) → lower (lower s) ≡ lower s
unfolding lower
lower-lower [] = refl
lower-lower (c ∷ s) = cc (lower-lower_char c, lower-lower s)

lower_if : (b : Bool) (c : ℕ) → lower_char (if b then upper_char c else lower_char c) ≡ lower_char c
lower_if true c = lower-upper_char c
lower_if false c = lower-lower_char c

-- The EIP-55 form has the letters of the text.
lower-checksum_case : (digest s : Text) → lower (checksum_case digest s) ≡ lower s
unfolding lower checksum_case
lower-checksum_case digest [] = refl
lower-checksum_case [] (c ∷ s) = cc (lower-lower_char c, lower-checksum_case [] s)
lower-checksum_case (d ∷ digest) (c ∷ s) =
    cc (lower_if (high_digit d) c, lower-checksum_case digest s)

-- EIP-55 on the 40 digits in lower case: a letter is a capital where its half of the digest's byte,
-- of 4 bits, has its highest bit set.
abbrev pub capital_if : Bool → ℕ → ℕ
capital_if high c = if high then upper_char c else c

unfoldable pub eip55 : Bytes → Text → Text
eip55 (b ∷ bs) (c ∷ d ∷ s) = capital_if (leb 128 b) c ∷ capital_if (leb 8 (b % 16)) d ∷ eip55 bs s
eip55 (b ∷ bs) (c ∷ []) = capital_if (leb 128 b) c ∷ []
eip55 _ s = s

abbrev AllLower : Text → Type 0
AllLower = All (λ c. lower_char c ≡ c)

lower-AllLower : (s : Text) → AllLower (lower s)
unfolding lower
lower-AllLower [] = tt
lower-AllLower (c ∷ s) = (lower-lower_char c, lower-AllLower s)

high_digit-hex_digit : (v : ℕ) → v < 16 → high_digit (hex_digit v) ≡ leb 8 v
unfolding high_digit
high_digit-hex_digit v h = rw (high_digit, hex_value-hex_digit v h) refl

high_half : (b : ℕ) → b < 256 → high_digit (hex_digit (b / 16)) ≡ leb 128 b
high_half b h =
    let same : leb 8 (b / 16) ≡ leb 128 b = ground arith in
    high_digit-hex_digit (b / 16) (omega arith) ∙ same

checksum_case-none : (s : Text) → AllLower s → checksum_case [] s ≡ s
unfolding checksum_case
checksum_case-none [] h = refl
checksum_case-none (c ∷ s) h = cc (h.0, checksum_case-none s h.1)

case_of :
    (b b' : Bool) (c : ℕ)
    → b ≡ b'
    → lower_char c ≡ c
    → (if b then upper_char c else lower_char c) ≡ capital_if b' c
case_of true b' c e h = rw (sym e) refl
case_of false b' c e h = rw (sym e) h

-- The tool's form is the one of EIP-55.
checksum_case-eip55 :
    (bs : Bytes) (s : Text) → All IsByte bs → AllLower s → checksum_case (hex bs) s ≡ eip55 bs s
unfolding checksum_case hex eip55
checksum_case-eip55 [] [] hb hs = refl
checksum_case-eip55 [] (c ∷ s) hb hs = checksum_case-none (c ∷ s) hs
checksum_case-eip55 (b ∷ bs) [] hb hs = refl
checksum_case-eip55 (b ∷ bs) (c ∷ []) hb hs =
    ap (λ k. k ∷ []) (case_of _ (leb 128 b) c (high_half b hb.0) hs.0)
checksum_case-eip55 (b ∷ bs) (c ∷ d ∷ s) hb hs = cc (
  case_of _ (leb 128 b) c (high_half b hb.0) hs.0,
  case_of _ (leb 8 (b % 16)) d (high_digit-hex_digit (b % 16) (omega arith)) hs.1.0,
  checksum_case-eip55 bs s hb.1 hs.1.1,
)

encode_ascii-eq-ok : (s : Text) {ascii : Bytes} → encode_ascii s ≡ ok ascii → ascii ≡ s
unfolding encode_ascii
encode_ascii-eq-ok s h = elim (Bool-cases (any (λ c. leb 128 c) s)) [
  | inl e ↦ cc (rw e at h)
  | inr e ↦ sym (ok_injective (rw e at h))
]

module _ (keccak256 : Bytes → Bytes) where
  -- What a warning about `raw` proposes, behind `0x`.
  record Proposal (raw proposed : Text) : Type 0 where
    digits : Text
    prefixed : proposed ≡ add_0x digits
    same : lower digits ≡ lower raw
    quiet : checksum_warning keccak256 digits ≡ ok none
    form : digits ≡ checksum_case (hex (keccak256 (lower raw))) (lower raw)

  -- The EIP-55 form raises no warning.
  checksum_case-quiet :
      (digits low : Text) {ascii : Bytes}
      → lower digits ≡ low
      → encode_ascii low ≡ ok ascii
      → checksum_case (hex (keccak256 ascii)) low ≡ digits
      → checksum_warning keccak256 digits ≡ ok none
  unfolding checksum_warning
  checksum_case-quiet digits low same encoded form =
      elim (Bool-cases (any is_upper digits && any is_lower digits)) [
        | inl mixed ↦ rw (mixed, same, encoded, form, bytes_eq_refl digits, checksum_warning)
        | inr plain ↦ rw (plain, checksum_warning)
      ]

  warning-Proposal :
      (raw : Text) {proposed : Text}
      → checksum_warning keccak256 raw ≡ ok (some proposed)
      → Proposal raw proposed
  unfolding checksum_warning
  warning-Proposal raw {proposed} h = elim (Bool-cases (any is_upper raw && any is_lower raw)) [
    | inr plain ↦ cc (rw (plain, checksum_warning) at h)
    | inl mixed ↦
        let (ascii, encoded, h₁) =
          >>=-eq-ok (encode_ascii (lower raw)) _ (rw (mixed, checksum_warning) at h) in
        let form = checksum_case (hex (keccak256 ascii)) (lower raw) in
        let same : lower form ≡ lower raw =
          lower-checksum_case (hex (keccak256 ascii)) (lower raw) ∙ lower-lower raw in
        elim (Bool-cases (bytes_eq form raw)) [
          | inl right ↦ cc (rw right at h₁)
          | inr wrong ↦ record {
            digits = form;
            prefixed = sym (some-injective _ _ (ok_injective (rw wrong at h₁)));
            same = same;
            quiet = checksum_case-quiet form (lower raw) same encoded refl;
            form =
                ap (λ x. checksum_case (hex (keccak256 x)) (lower raw))
                  (encode_ascii-eq-ok (lower raw) encoded);
          }
        ]
  ]

  -- A warning gives good advice, for a digest of 32 bytes: the address that it proposes is the EIP-55
  -- form of the digits, is read as the same slot, and raises no warning.
  pub addr_to_32-proposed :
      IsDigest keccak256
      → (t : Text) {slot : Bytes} {proposed : Text}
      → addr_to_32 keccak256 t ≡ ok (slot, some proposed)
      → (addr_to_32 keccak256 proposed ≡ ok (slot, none))
        × (proposed
            ≡ add_0x (eip55 (keccak256 (lower (removeprefix_0x t))) (lower (removeprefix_0x t))))
  unfolding addr_to_32
  addr_to_32-proposed d t {slot} {proposed} h =
      let raw = removeprefix_0x t in
      let (_, sized, h₁) = >>=-eq-ok (guard (length raw == 40) system_exit) _ h in
      let (w, warned, h₂) = >>=-eq-ok (checksum_warning keccak256 raw) _ h₁ in
      let (bs, decoded, h₃) = >>=-eq-ok (value_error_exits (fromhex (lower raw))) _ h₂ in
      let result = ok_injective h₃ in
      let is_warning : w ≡ some proposed = ap (λ (p : Bytes × Option Text). p.1) result in
      let v = warning-Proposal raw (warned ∙ ap ok is_warning) in
      let as_long : length v.digits ≡ length raw =
        sym (length-lower v.digits) ∙ ap (λ (s : Text). length s) v.same ∙ length-lower raw in
      let forty : (length v.digits == 40) ≡ true =
        rw as_long (guard-eq-ok (length raw == 40) system_exit sized) in
      (
        rw (v.prefixed, removeprefix_0x-add_0x v.digits, forty, v.quiet, v.same, decoded)
            (ap (λ (p : Bytes × Option Text). ok (p.0, none)) result),
        v.prefixed
            ∙ ap add_0x (
                v.form
                ∙ checksum_case-eip55 (keccak256 (lower raw)) (lower raw) (d.word (lower raw)).1
                    (lower-AllLower raw)),
      )
