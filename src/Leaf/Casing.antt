-- ===== src/Leaf/Casing.antt =====
-- `_addr_to_32` of tools/verify_attestation.py on addresses in any case: the digits count, and the
-- EIP-55 warning changes nothing.
use noethrion.Base.{
  ℕ, ◌/◌, ◌%◌, ◌^◌, ◌<◌, ◌≡◌, refl, sym, ap, ◌∙◌, true, false, ◌&&◌, Option, none, some, [], ◌∷◌,
  ◌++◌, arith, leb, ◌==◌, length, replicate, All, Bool-cases, inl, inr, lt→ltb,
}
use noethrion.Base.Int.{pos}
use noethrion.Python.Result.{ok}
use noethrion.Python.Bytes.{Bytes, IsByte, bytes_eq, to_bytes-pos}
use noethrion.Python.Hex.{hex, hex_digit, length-hex}
use noethrion.Python.Hex.RoundTrip.{fromhex-hex}
use noethrion.Python.Text.{
  Text, lower, is_upper, is_lower, any, encode_ascii, add_0x, length-lower, lower-hex,
  removeprefix_0x-add_0x,
}
use noethrion.Leaf.Encoding.{Claim, IsClaim, encoding, address_text}
use noethrion.Leaf.Tool
use noethrion.Leaf.Tool.{checksum_case, checksum_warning, in_range, compute_leaf_impl}

-- A text of an address: `0x` and its hexadecimal digits, each in upper or lower case.
pub record IsWritten (t : Text) (a : Bytes) : Type 0 where
  pub digits : Text
  pub prefixed : t ≡ add_0x digits
  pub same : lower digits ≡ hex a

pub address_text-IsWritten : (a : Bytes) → All IsByte a → IsWritten (address_text a) a
address_text-IsWritten a h = record { digits = hex a; prefixed = refl; same = lower-hex a h }

hex_digit-ascii : (v : ℕ) → v < 16 → leb 128 (hex_digit v) ≡ false
unfolding hex_digit
hex_digit-ascii v h = ground arith

any-hex : (a : Bytes) → All IsByte a → any (λ c. leb 128 c) (hex a) ≡ false
unfolding any hex
any-hex [] h = refl
any-hex (b ∷ a) (hb, ha) =
    rw (hex_digit-ascii (b / 16) (omega arith), hex_digit-ascii (b % 16) (omega arith))
      (any-hex a ha)

encode_ascii-hex : (a : Bytes) → All IsByte a → encode_ascii (hex a) ≡ ok (hex a)
unfolding encode_ascii
encode_ascii-hex a h = rw (any-hex a h)

module _ (keccak256 : Bytes → Bytes) where
  -- Whatever the case, the warning's text can be computed.
  checksum_warning-ok :
      (digits : Text) (a : Bytes)
      → All IsByte a
      → lower digits ≡ hex a
      → (w : Option Text) × (checksum_warning keccak256 digits ≡ ok w)
  unfolding checksum_warning
  checksum_warning-ok digits a bytes same =
      elim (Bool-cases (any is_upper digits && any is_lower digits)) [
        | inl mixed ↦
            elim (Bool-cases (bytes_eq (checksum_case (hex (keccak256 (hex a))) (hex a)) digits)) [
              | inl e ↦ (none, rw (mixed, same, encode_ascii-hex a bytes, e, checksum_warning))
              | inr e ↦ (
                some (add_0x (checksum_case (hex (keccak256 (hex a))) (hex a))),
                rw (mixed, same, encode_ascii-hex a bytes, e, checksum_warning),
              )
            ]
        | inr plain ↦ (none, rw (plain, checksum_warning))
      ]

  addr_to_32-IsWritten :
      (t : Text) (a : Bytes)
      → length a ≡ 20
      → All IsByte a
      → IsWritten t a
      → (w : Option Text) × (Tool.addr_to_32 keccak256 t ≡ ok (replicate 12 0 ++ a, w))
  unfolding Tool.addr_to_32
  addr_to_32-IsWritten t a size bytes h =
      let (w, warned) = checksum_warning-ok h.digits a bytes h.same in
      let sized : length h.digits ≡ length (hex a) =
        sym (length-lower h.digits) ∙ ap (λ (s : Text). length s) h.same in
      let forty : (length h.digits == 40) ≡ true = ground (arith, length-hex a) in
      (
        w,
        rw (
          h.prefixed,
          removeprefix_0x-add_0x h.digits,
          forty,
          warned,
          h.same,
          fromhex-hex a bytes,
        ),
      )

  -- The case of an address's digits does not matter: on a claim whose fields fit the contract's
  -- types, with the addresses written after `0x` in any mix of cases, right or wrong under EIP-55, the
  -- tool computes the digest of the contract's encoding.
  pub compute_leaf_impl-IsWritten :
      (c : Claim)
      → IsClaim c
      → (attester beneficiary : Text) → IsWritten attester c.attester
      → IsWritten beneficiary c.beneficiary
      → (w w' : Option Text) × (compute_leaf_impl keccak256
            (pos c.chain_id)
            attester
            beneficiary
            (pos c.amount)
            (pos c.epoch)
          ≡ ok (keccak256 (encoding c), w, w'))
  unfolding compute_leaf_impl in_range encoding
  compute_leaf_impl-IsWritten c v attester beneficiary ha hb =
      let (w, slot₂) =
        addr_to_32-IsWritten attester c.attester v.attester_size v.attester_bytes ha in
      let (w', slot₃) =
        addr_to_32-IsWritten beneficiary c.beneficiary v.beneficiary_size v.beneficiary_bytes hb in
      (
        w,
        w',
        rw (
          lt→ltb c.chain_id (2 ^ 256) v.chain_fits,
          lt→ltb c.amount (2 ^ 128) v.amount_fits,
          lt→ltb c.epoch (2 ^ 64) v.epoch_fits,
          to_bytes-pos c.chain_id 32 (omega arith),
          slot₂,
          slot₃,
          to_bytes-pos c.amount 32 (omega arith),
          to_bytes-pos c.epoch 32 (omega arith),
        ),
      )
