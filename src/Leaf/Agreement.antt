-- ===== src/Leaf/Agreement.antt =====
-- Where tools/verify_attestation.py and examples/integrators/python_verifier_library.py compute the
-- same leaf. They read the `0x` of an address in another order: the tool before the case is folded.
use noethrion.Base.{
  ℕ, ◌≡◌, refl, ◌∙◌, true, false, inl, inr, ◌&&◌, Option, none, [], ◌∷◌, ◌++◌, arith, ◌==◌, length,
  replicate, Bool-cases, All, ◌/◌, ◌%◌, ◌^◌, ◌<◌, lt→ltb,
}
use noethrion.Base.Int.{ℤ, pos}
use noethrion.Python.Result.{
  ok, raise, value_error, system_exit, guard, guard-eq-ok, value_error_exits-eq-ok, >>=-eq-ok,
  ok_part, value_error_exits,
}
use noethrion.Python.Bytes.{Bytes, IsByte, to_bytes, to_bytes-pos}
use noethrion.Python.Hex.{fromhex, hex, hex_digit, length-hex}
use noethrion.Python.Hex.RoundTrip.{fromhex-hex}
use noethrion.Leaf.Encoding.{Claim, IsClaim, encoding, address_text}
use noethrion.Python.Text.{
  Text, lower, lower_char, removeprefix_0x, length-lower, any, is_upper, lower-hex,
  removeprefix_0x-add_0x,
}
use noethrion.Leaf.{addr_to_32, compute_leaf}
use noethrion.Leaf.Tool
use noethrion.Leaf.Tool.{checksum_warning, in_range, compute_leaf_impl}

fromhex_0x : (s : Text) → fromhex (b'0' ∷ b'x' ∷ s) ≡ raise value_error
unfolding fromhex
fromhex_0x s = refl

both_iff : (a b m n : ℕ) → (a == m && b == n) ≡ true → (a ≡ m) × (b ≡ n)
both_iff a b m n h = (ground arith, ground arith)

-- Folding the case first finds the same digits, if they are digits at all: in front of `0X` only the
-- tool leaves an `x` behind, which is no digit.
removeprefix_0x-lower :
    (s : Text) {bs : Bytes}
    → fromhex (lower (removeprefix_0x s)) ≡ ok bs
    → removeprefix_0x (lower s) ≡ lower (removeprefix_0x s)
unfolding removeprefix_0x lower
removeprefix_0x-lower [] h = refl
removeprefix_0x-lower (a ∷ []) h = refl
removeprefix_0x-lower (a ∷ b ∷ s) {bs} h = elim (Bool-cases (a == b'0' && b == b'x')) [
  | inl e ↦ let (p, q) = both_iff a b b'0' b'x' e in rw (p, q)
  | inr e ↦ elim (Bool-cases (lower_char a == b'0' && lower_char b == b'x')) [
    | inl f ↦
        let (p, q) = both_iff (lower_char a) (lower_char b) b'0' b'x' f in
        let g : fromhex (lower_char a ∷ lower_char b ∷ lower s) ≡ ok bs = rw e at h in
        cc (g, p, q, fromhex_0x (lower s))
    | inr f ↦ rw (e, f)
  ]
]

module _ (keccak256 : Bytes → Bytes) where
  addr_to_32-tool :
      (a : Text) {slot : Bytes} {w : Option Text}
      → Tool.addr_to_32 keccak256 a ≡ ok (slot, w)
      → addr_to_32 a ≡ ok slot
  unfolding addr_to_32 Tool.addr_to_32
  addr_to_32-tool a {slot} {w} h =
      let raw = removeprefix_0x a in
      let (u, sized, h₁) = >>=-eq-ok (guard (length raw == 40) system_exit) _ h in
      let (warning, warned, h₂) = >>=-eq-ok (checksum_warning keccak256 raw) _ h₁ in
      let (bs, decoded, h₃) = >>=-eq-ok (value_error_exits (fromhex (lower raw))) _ h₂ in
      let digits = value_error_exits-eq-ok (fromhex (lower raw)) decoded in
      let same = removeprefix_0x-lower a digits in
      let forty : (length (lower raw) == 40) ≡ true =
        rw (length-lower raw) (guard-eq-ok (length raw == 40) system_exit sized) in
      rw (same, forty, digits) (ok_part (λ (t : Bytes × Option Text). t.0) h₃)

  compute_leaf_of_slots :
      (chain_id : ℤ) (attester beneficiary : Text) (amount epoch : ℤ) {e₁ e₂ e₃ e₄ e₅ : Bytes}
      → to_bytes chain_id 32 ≡ ok e₁
      → addr_to_32 attester ≡ ok e₂
      → addr_to_32 beneficiary ≡ ok e₃
      → to_bytes amount 32 ≡ ok e₄
      → to_bytes epoch 32 ≡ ok e₅
      → compute_leaf keccak256 chain_id attester beneficiary amount epoch
        ≡ ok (keccak256 (e₁ ++ e₂ ++ e₃ ++ e₄ ++ e₅))
  unfolding compute_leaf
  compute_leaf_of_slots chain_id attester beneficiary amount epoch p₁ p₂ p₃ p₄ p₅ =
      rw (p₁, p₂, p₃, p₄, p₅)

  -- What the tool computes the library computes too: an accepted input gives the same leaf.
  pub compute_leaf-compute_leaf_impl :
      (chain_id : ℤ) (attester beneficiary : Text) (amount epoch : ℤ) {leaf : Bytes}
      {w w' : Option Text}
      → compute_leaf_impl keccak256 chain_id attester beneficiary amount epoch ≡ ok (leaf, w, w')
      → compute_leaf keccak256 chain_id attester beneficiary amount epoch ≡ ok leaf
  unfolding compute_leaf_impl
  compute_leaf-compute_leaf_impl chain_id attester beneficiary amount epoch {leaf} {w} {w'} h =
      let (_, _, h₁) = >>=-eq-ok (guard (in_range chain_id 256) system_exit) _ h in
      let (_, _, h₂) = >>=-eq-ok (guard (in_range amount 128) system_exit) _ h₁ in
      let (_, _, h₃) = >>=-eq-ok (guard (in_range epoch 64) system_exit) _ h₂ in
      let (e₁, p₁, h₄) = >>=-eq-ok (to_bytes chain_id 32) _ h₃ in
      let (a₂, p₂, h₅) = >>=-eq-ok (Tool.addr_to_32 keccak256 attester) _ h₄ in
      let (a₃, p₃, h₆) = >>=-eq-ok (Tool.addr_to_32 keccak256 beneficiary) _ h₅ in
      let (e₄, p₄, h₇) = >>=-eq-ok (to_bytes amount 32) _ h₆ in
      let (e₅, p₅, h₈) = >>=-eq-ok (to_bytes epoch 32) _ h₇ in
      compute_leaf_of_slots chain_id attester beneficiary amount epoch p₁
        (addr_to_32-tool attester p₂) (addr_to_32-tool beneficiary p₃) p₄ p₅
      ∙ ok_part (λ (t : Bytes × Option Text × Option Text). t.0) h₈

any-is_upper-hex : (bs : Bytes) → All IsByte bs → any is_upper (hex bs) ≡ false
unfolding any hex is_upper hex_digit
any-is_upper-hex [] h = refl
any-is_upper-hex (b ∷ bs) (hb, hbs) =
    let high = is_upper-hex_digit (b / 16) (omega arith) in
    let low = is_upper-hex_digit (b % 16) (omega arith) in rw (high, low) (any-is_upper-hex bs hbs)
  where
    is_upper-hex_digit : (v : ℕ) → v < 16 → is_upper (hex_digit v) ≡ false
    is_upper-hex_digit v h = ground arith

module _ (keccak256 : Bytes → Bytes) where
  -- An address in lower case gets its slot and no warning.
  tool-addr_to_32-address_text :
      (a : Bytes)
      → length a ≡ 20
      → All IsByte a
      → Tool.addr_to_32 keccak256 (address_text a) ≡ ok (replicate 12 0 ++ a, none)
  unfolding Tool.addr_to_32 checksum_warning
  tool-addr_to_32-address_text a size bytes =
      let forty : (length (hex a) == 40) ≡ true = ground (arith, length-hex a) in
      rw (
        removeprefix_0x-add_0x,
        forty,
        any-is_upper-hex a bytes,
        lower-hex a bytes,
        fromhex-hex a bytes,
      )

  -- On a claim whose fields fit the contract's types, with the addresses in lower case, the tool
  -- computes the digest of the contract's encoding, and prints no warning.
  pub compute_leaf_impl-encoding :
      (c : Claim)
      → IsClaim c
      → compute_leaf_impl keccak256
          (pos c.chain_id)
          (address_text c.attester)
          (address_text c.beneficiary)
          (pos c.amount)
          (pos c.epoch)
        ≡ ok (keccak256 (encoding c), none, none)
  unfolding compute_leaf_impl in_range encoding
  compute_leaf_impl-encoding c v = rw (
    lt→ltb c.chain_id (2 ^ 256) v.chain_fits,
    lt→ltb c.amount (2 ^ 128) v.amount_fits,
    lt→ltb c.epoch (2 ^ 64) v.epoch_fits,
    to_bytes-pos c.chain_id 32 (omega arith),
    tool-addr_to_32-address_text c.attester v.attester_size v.attester_bytes,
    tool-addr_to_32-address_text c.beneficiary v.beneficiary_size v.beneficiary_bytes,
    to_bytes-pos c.amount 32 (omega arith),
    to_bytes-pos c.epoch 32 (omega arith),
  )
