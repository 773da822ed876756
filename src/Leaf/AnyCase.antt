-- ===== src/Leaf/AnyCase.antt =====
-- `_addr_to_32` and `leaf_hash` of examples/lifecycle/03_build_merkle_tree.py on addresses in any case.
use noethrion.Base.{◌≡◌, ap, ◌∙◌, true, ◌++◌, arith, ◌==◌, length, replicate, All}
use noethrion.Base.Int.{pos}
use noethrion.Python.Result.{ok}
use noethrion.Python.Bytes.{Bytes, IsByte, to_bytes-pos}
use noethrion.Python.Hex.{hex, length-hex}
use noethrion.Python.Hex.RoundTrip.{fromhex-hex}
use noethrion.Python.Text.{Text, lower, add_0x, lower-add_0x, removeprefix_0x-add_0x}
use noethrion.Leaf.{addr_to_32, abi_encode_leaf, leaf_hash}
use noethrion.Leaf.Encoding.{Claim, IsClaim, encoding, address_text}
use noethrion.Leaf.Casing.{IsWritten}

pub lower-IsWritten : (t : Text) (a : Bytes) → IsWritten t a → lower t ≡ address_text a
lower-IsWritten t a h = ap lower h.prefixed ∙ lower-add_0x h.digits ∙ ap add_0x h.same

addr_to_32-IsWritten :
    (t : Text) (a : Bytes)
    → length a ≡ 20
    → All IsByte a
    → IsWritten t a
    → addr_to_32 t ≡ ok (replicate 12 0 ++ a)
unfolding addr_to_32
addr_to_32-IsWritten t a size bytes h =
    let forty : (length (hex a) == 40) ≡ true = ground (arith, length-hex a) in
    rw (lower-IsWritten t a h, removeprefix_0x-add_0x, forty, fromhex-hex a bytes)

-- With the addresses in any mix of cases, the builder's leaf is the digest of the contract's encoding.
pub leaf_hash-IsWritten :
    (keccak256 : Bytes → Bytes) (c : Claim)
    → IsClaim c
    → (attester beneficiary : Text) → IsWritten attester c.attester
    → IsWritten beneficiary c.beneficiary
    → leaf_hash keccak256 (pos c.chain_id) attester beneficiary (pos c.amount) (pos c.epoch)
      ≡ ok (keccak256 (encoding c))
unfolding leaf_hash abi_encode_leaf encoding
leaf_hash-IsWritten keccak256 c v attester beneficiary ha hb = rw (
  to_bytes-pos c.chain_id 32 (omega arith),
  addr_to_32-IsWritten attester c.attester v.attester_size v.attester_bytes ha,
  addr_to_32-IsWritten beneficiary c.beneficiary v.beneficiary_size v.beneficiary_bytes hb,
  to_bytes-pos c.amount 32 (omega arith),
  to_bytes-pos c.epoch 32 (omega arith),
)
