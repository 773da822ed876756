-- ===== src/Leaf/Tool.antt =====
-- `_addr_to_32` and `_compute_leaf_impl` of tools/verify_attestation.py.
-- A refusal is a SystemExit. What the tool prints on stderr is returned beside the result.
use noethrion.Base.{
  ℕ, ◌^◌, Bool, false, ◌&&◌, Option, none, some, [], ◌∷◌, ◌++◌, leb, ltb, ◌==◌, if◌then◌else◌,
  length, replicate,
}
use noethrion.Base.Int.{ℤ, pos, negsuc}
use noethrion.Python.Result.{Result, ok, system_exit, value_error_exits, ◌>>=◌, ◌>>◌, guard}
use noethrion.Python.Bytes.{Bytes, to_bytes, bytes_eq}
use noethrion.Python.Hex.{fromhex, hex, hex_value}
use noethrion.Python.Text.{
  Text, lower, lower_char, upper_char, is_upper, is_lower, any, removeprefix_0x, encode_ascii,
  add_0x,
}

-- int(digest[i], 16) >= 8
unfoldable pub high_digit : ℕ → Bool
high_digit c = elim (hex_value c) [ none ↦ false | some v ↦ leb 8 v ]

-- The EIP-55 form: a letter is upper case where the digest has a high digit. A digest has 64
-- digits and `raw` has 40, so the digits do not run out.
unfoldable pub checksum_case : Text → Text → Text
unfolding high_digit
checksum_case digest [] = []
checksum_case [] (ch ∷ raw) = lower_char ch ∷ checksum_case [] raw
checksum_case (d ∷ digest) (ch ∷ raw) =
    (if high_digit d then upper_char ch else lower_char ch) ∷ checksum_case digest raw

-- 0 <= n < 1 << bits
unfoldable pub in_range : ℤ → ℕ → Bool
in_range (negsuc n) bits = false
in_range (pos n) bits = ltb n (2 ^ bits)

module _ (keccak256 : Bytes → Bytes) where
  -- The address that the warning expects, if a warning is printed.
  unfoldable pub checksum_warning : Text → Result (Option Text)
  checksum_warning raw =
      if any is_upper raw && any is_lower raw
      then (do
        ascii ← encode_ascii (lower raw)
        let expected = checksum_case (hex (keccak256 ascii)) (lower raw)
        if bytes_eq expected raw then ok none else ok (some (add_0x expected)))
      else ok none

  -- `_addr_to_32`: the slot, and the warning.
  unfoldable pub addr_to_32 : Text → Result (Bytes × Option Text)
  addr_to_32 addr_hex = do
    let raw = removeprefix_0x addr_hex
    guard (length raw == 40) system_exit
    warning ← checksum_warning raw
    let addr_clean = lower raw
    bs ← value_error_exits (fromhex addr_clean)
    ok (replicate 12 0 ++ bs, warning)

  -- `_compute_leaf_impl`, with pycryptodome installed: the leaf, and the two warnings in the order of
  -- printing.
  unfoldable pub compute_leaf_impl :
      ℤ → Text → Text → ℤ → ℤ → Result (Bytes × Option Text × Option Text)
  compute_leaf_impl chain_id attester_address beneficiary amount_wei epoch = do
    guard (in_range chain_id 256) system_exit
    guard (in_range amount_wei 128) system_exit
    guard (in_range epoch 64) system_exit
    e₁ ← to_bytes chain_id 32
    (e₂, w₂) ← addr_to_32 attester_address
    (e₃, w₃) ← addr_to_32 beneficiary
    e₄ ← to_bytes amount_wei 32
    e₅ ← to_bytes epoch 32
    ok (keccak256 (e₁ ++ e₂ ++ e₃ ++ e₄ ++ e₅), w₂, w₃)
