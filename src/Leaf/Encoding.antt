-- ===== src/Leaf/Encoding.antt =====
-- The three encoders against one description of `abi.encode`: where they agree, and that the
-- encoding of a claim determines the claim.
use noethrion.Base.{
  ℕ, ◌+◌, ◌^◌, ◌<◌, ◌≡◌, refl, sym, ◌∙◌, true, ◌++◌, arith, ◌==◌, length, replicate, length-append,
  append-split, All, ◌⊎◌, inl, inr,
}
use noethrion.Base.Int.{ℤ, pos}
use noethrion.Python.Result.{ok, ok_injective}
use noethrion.Python.Bytes.{
  Bytes, IsByte, big_endian, to_bytes-pos, length-big_endian, big_endian_injective,
}
use noethrion.Python.Hex.{hex, length-hex}
use noethrion.Python.Hex.RoundTrip.{fromhex-hex}
use noethrion.Python.Text.{Text, add_0x, lower-hex, lower-add_0x, removeprefix_0x-add_0x}
use noethrion.Merkle.Replay.{Collision}
use noethrion.Merkle.Pairs.{same_or_Collision}
use noethrion.Leaf.{addr_to_32, abi_encode_leaf, leaf_hash, compute_leaf}

-- A slot that holds an address.
abbrev address_slot : Bytes → Bytes
address_slot a = replicate 12 0 ++ a

module _ (a b c d e : Bytes) where
  length-slots :
      length (a ++ b ++ c ++ d ++ e) ≡ length a + length b + length c + length d + length e
  length-slots = omega (
    arith,
    length-append (a ++ b ++ c ++ d) e,
    length-append (a ++ b ++ c) d,
    length-append (a ++ b) c,
    length-append a b,
  )

-- Slots of equal sizes can be told apart in their concatenation.
slots_injective :
    (a b c d e a' b' c' d' e' : Bytes)
    → length a ≡ length a'
    → length b ≡ length b'
    → length c ≡ length c'
    → length d ≡ length d'
    → a ++ b ++ c ++ d ++ e ≡ a' ++ b' ++ c' ++ d' ++ e'
    → (a ≡ a') × (b ≡ b') × (c ≡ c') × (d ≡ d') × (e ≡ e')
slots_injective a b c d e a' b' c' d' e' ha hb hc hd h =
    let two : length (a ++ b) ≡ length (a' ++ b') =
      omega (arith, length-append a b, length-append a' b') in
    let three : length (a ++ b ++ c) ≡ length (a' ++ b' ++ c') =
      omega (arith, length-append (a ++ b) c, length-append (a' ++ b') c', two) in
    let four : length (a ++ b ++ c ++ d) ≡ length (a' ++ b' ++ c' ++ d') =
      omega (arith, length-append (a ++ b ++ c) d, length-append (a' ++ b' ++ c') d', three) in
    let (p, pe) = append-split (a ++ b ++ c ++ d) e (a' ++ b' ++ c' ++ d') e' four h in
    let (q, pd) = append-split (a ++ b ++ c) d (a' ++ b' ++ c') d' three p in
    let (r, pc) = append-split (a ++ b) c (a' ++ b') c' two q in
    let (pa, pb) = append-split a b a' b' ha r in (pa, pb, pc, pd, pe)

-- A claim as the contract has it: the address fields hold 20 bytes.
pub record Claim : Type 0 where
  pub chain_id : ℕ
  pub attester : Bytes
  pub beneficiary : Bytes
  pub amount : ℕ
  pub epoch : ℕ

-- uint256, address, address, uint128, uint64
pub record IsClaim (c : Claim) : Type 0 where
  pub chain_fits : c.chain_id < 2 ^ 256
  pub attester_size : length c.attester ≡ 20
  pub attester_bytes : All IsByte c.attester
  pub beneficiary_size : length c.beneficiary ≡ 20
  pub beneficiary_bytes : All IsByte c.beneficiary
  pub amount_fits : c.amount < 2 ^ 128
  pub epoch_fits : c.epoch < 2 ^ 64

-- Solidity's abi.encode of the five values.
unfoldable pub encoding : Claim → Bytes
encoding c =
    big_endian 32 c.chain_id
    ++ address_slot c.attester
    ++ address_slot c.beneficiary
    ++ big_endian 32 c.amount
    ++ big_endian 32 c.epoch

-- The text of an address: `0x` and 40 digits in lower case.
abbrev pub address_text : Bytes → Text
address_text a = add_0x (hex a)

pub addr_to_32-address_text :
    (a : Bytes)
    → length a ≡ 20
    → All IsByte a
    → addr_to_32 (address_text a) ≡ ok (replicate 12 0 ++ a)
unfolding addr_to_32
addr_to_32-address_text a size bytes =
    let forty : (length (hex a) == 40) ≡ true = ground (arith, length-hex a) in
    rw (lower-add_0x, removeprefix_0x-add_0x, lower-hex a bytes, forty, fromhex-hex a bytes)

-- On a claim whose fields fit the contract's types, with the addresses as hexadecimal texts in
-- lower case, the builder's encoder returns the contract's encoding.
pub abi_encode_leaf-encoding :
    (c : Claim)
    → IsClaim c
    → abi_encode_leaf
        (pos c.chain_id)
        (address_text c.attester)
        (address_text c.beneficiary)
        (pos c.amount)
        (pos c.epoch)
      ≡ ok (encoding c)
unfolding abi_encode_leaf encoding
abi_encode_leaf-encoding c v = rw (
  to_bytes-pos c.chain_id 32 (omega arith),
  addr_to_32-address_text c.attester v.attester_size v.attester_bytes,
  addr_to_32-address_text c.beneficiary v.beneficiary_size v.beneficiary_bytes,
  to_bytes-pos c.amount 32 (omega arith),
  to_bytes-pos c.epoch 32 (omega arith),
)

-- A valid claim is encoded in 160 bytes.
pub length-encoding : (c : Claim) → IsClaim c → length (encoding c) ≡ 160
unfolding encoding
length-encoding c v = omega (
  arith,
  length-slots (big_endian 32 c.chain_id) (address_slot c.attester) (address_slot c.beneficiary)
      (big_endian 32 c.amount) (big_endian 32 c.epoch),
  length-big_endian 32 c.chain_id,
  length-big_endian 32 c.amount,
  length-big_endian 32 c.epoch,
)

-- The encoding determines the claim: the two domain fields, the beneficiary, the amount and the epoch.
pub encoding_injective : (c d : Claim) → IsClaim c → IsClaim d → encoding c ≡ encoding d → c ≡ d
unfolding encoding
encoding_injective c d v w e =
    let (p, q, r, s, t) =
      slots_injective (big_endian 32 c.chain_id) (address_slot c.attester)
        (address_slot c.beneficiary) (big_endian 32 c.amount) (big_endian 32 c.epoch)
        (big_endian 32 d.chain_id) (address_slot d.attester) (address_slot d.beneficiary)
        (big_endian 32 d.amount) (big_endian 32 d.epoch)
        (length-big_endian 32 c.chain_id ∙ sym (length-big_endian 32 d.chain_id)) (omega arith)
        (omega arith) (length-big_endian 32 c.amount ∙ sym (length-big_endian 32 d.amount)) e in
    λ i. record {
      chain_id = big_endian_injective 32 c.chain_id d.chain_id (omega arith) (omega arith) p i;
      attester = (append-split (replicate 12 0) c.attester (replicate 12 0) d.attester refl q).1 i;
      beneficiary =
          (append-split (replicate 12 0) c.beneficiary (replicate 12 0) d.beneficiary refl r).1 i;
      amount = big_endian_injective 32 c.amount d.amount (omega arith) (omega arith) s i;
      epoch = big_endian_injective 32 c.epoch d.epoch (omega arith) (omega arith) t i;
    }

-- Either of the two encodings.
pub data OneOf (c d : Claim) (x : Bytes) : Type 0 where
  first_claim : x ≡ encoding c → OneOf c d x
  second_claim : x ≡ encoding d → OneOf c d x

module _ (keccak256 : Bytes → Bytes) where
  -- The builder and the library compute the same leaf, or raise alike, on all inputs.
  pub compute_leaf-leaf_hash :
      (chain_id : ℤ) (attester beneficiary : Text) (amount epoch : ℤ)
      → compute_leaf keccak256 chain_id attester beneficiary amount epoch
        ≡ leaf_hash keccak256 chain_id attester beneficiary amount epoch
  unfolding compute_leaf leaf_hash abi_encode_leaf
  compute_leaf-leaf_hash chain_id attester beneficiary amount epoch = ground arith

  pub leaf_hash-encoding :
      (c : Claim)
      → IsClaim c
      → leaf_hash keccak256
          (pos c.chain_id)
          (address_text c.attester)
          (address_text c.beneficiary)
          (pos c.amount)
          (pos c.epoch)
        ≡ ok (keccak256 (encoding c))
  unfolding leaf_hash
  leaf_hash-encoding c v = rw (abi_encode_leaf-encoding c v)

  pub compute_leaf-encoding :
      (c : Claim)
      → IsClaim c
      → compute_leaf keccak256
          (pos c.chain_id)
          (address_text c.attester)
          (address_text c.beneficiary)
          (pos c.amount)
          (pos c.epoch)
        ≡ ok (keccak256 (encoding c))
  compute_leaf-encoding c v = compute_leaf-leaf_hash _ _ _ _ _ ∙ leaf_hash-encoding c v

  -- The leaf of the builder determines the claim: two claims whose fields fit the contract's types
  -- and that have one leaf are the same claim, in all five fields, or the encodings of these two
  -- collide.
  pub leaf_hash_injective :
      (c d : Claim)
      → IsClaim c
      → IsClaim d
      → leaf_hash keccak256
          (pos c.chain_id)
          (address_text c.attester)
          (address_text c.beneficiary)
          (pos c.amount)
          (pos c.epoch)
        ≡ leaf_hash keccak256
            (pos d.chain_id)
            (address_text d.attester)
            (address_text d.beneficiary)
            (pos d.amount)
            (pos d.epoch)
      → (c ≡ d) ⊎ Collision keccak256 (OneOf c d)
  leaf_hash_injective c d v w e =
      let same : keccak256 (encoding c) ≡ keccak256 (encoding d) =
        ok_injective (sym (leaf_hash-encoding c v) ∙ e ∙ leaf_hash-encoding d w) in
      elim (same_or_Collision keccak256 (OneOf c d) (encoding c) (encoding d) (first_claim refl)
        (second_claim refl) same) [ inl p ↦ inl (encoding_injective c d v w p) | inr x ↦ inr x ]
