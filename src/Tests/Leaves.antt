-- ===== src/Tests/Leaves.antt =====
-- Leaves of concrete claims and addresses.
use noethrion.Base.{◌≡◌, refl, ◌⊎◌, false, ◌↔◌, none, [], ◌∷◌, ◌++◌, replicate, length}
use noethrion.Base.Int.{pos}
use noethrion.Python.Result.{ok}
use noethrion.Python.Bytes.{Bytes}
use noethrion.Python.Hex.{fromhex, is_ascii_space}
use noethrion.Python.Text.{Text, codes, lower, removeprefix_0x, any}
use noethrion.Merkle.Replay.{Collision}
use noethrion.Leaf.{addr_to_32, abi_encode_leaf, compute_leaf}
use noethrion.Leaf.Encoding.{
  encoding, address_text, OneOf, abi_encode_leaf-encoding, leaf_hash_injective,
}
use noethrion.Leaf.Tool.{compute_leaf_impl}
use noethrion.Leaf.Agreement.{compute_leaf-compute_leaf_impl, compute_leaf_impl-encoding}
use noethrion.Leaf.Address.{length-addr_to_32}
use noethrion.Tests.Values.{digest, alice, alice-IsClaim}

leaf_hash_injective_example : (alice ≡ alice) ⊎ Collision digest (OneOf alice alice)
leaf_hash_injective_example =
    leaf_hash_injective digest alice alice alice-IsClaim alice-IsClaim refl

abi_encode_leaf-encoding_example :
    abi_encode_leaf
      (pos alice.chain_id)
      (address_text alice.attester)
      (address_text alice.beneficiary)
      (pos alice.amount)
      (pos alice.epoch)
    ≡ ok (encoding alice)
abi_encode_leaf-encoding_example = abi_encode_leaf-encoding alice alice-IsClaim

alice_leaf :
    compute_leaf_impl digest
      (pos alice.chain_id)
      (address_text alice.attester)
      (address_text alice.beneficiary)
      (pos alice.amount)
      (pos alice.epoch)
    ≡ ok (digest (encoding alice), none, none)
alice_leaf = compute_leaf_impl-encoding digest alice alice-IsClaim

compute_leaf-compute_leaf_impl_example :
    compute_leaf digest
      (pos alice.chain_id)
      (address_text alice.attester)
      (address_text alice.beneficiary)
      (pos alice.amount)
      (pos alice.epoch)
    ≡ ok (digest (encoding alice))
compute_leaf-compute_leaf_impl_example =
    compute_leaf-compute_leaf_impl digest (pos alice.chain_id) (address_text alice.attester)
      (address_text alice.beneficiary) (pos alice.amount) (pos alice.epoch) alice_leaf

-- 38 digits with two spaces between them, and their slot.
abbrev spaced : Text
spaced = codes "0x11223344556677889900 1122334455667788 99"

abbrev short_slot : Bytes
short_slot =
    replicate 12 0
    ++ 0x11 ∷ 0x22 ∷ 0x33 ∷ 0x44 ∷ 0x55 ∷ 0x66 ∷ 0x77 ∷ 0x88 ∷ 0x99 ∷ 0x00 ∷ 0x11 ∷ 0x22 ∷ 0x33
      ∷ 0x44 ∷ 0x55 ∷ 0x66 ∷ 0x77 ∷ 0x88 ∷ 0x99 ∷ []

spaced_slot : addr_to_32 spaced ≡ ok short_slot
unfolding addr_to_32 lower removeprefix_0x fromhex
spaced_slot = refl

length-addr_to_32_example :
    (length short_slot ≡ 32) ↔ (any is_ascii_space (removeprefix_0x (lower spaced)) ≡ false)
length-addr_to_32_example = length-addr_to_32 spaced spaced_slot
