-- ===== src/Tests/Trees.antt =====
-- The builder's trees and the verifiers' answers.
use mathlib.Core.List.{Memᴰ as MemD}
use noethrion.Base.{◌*◌, ◌<◌, ◌≡◌, refl, ◌⊎◌, true, List, [], ◌∷◌, map, All, arith, length}
use noethrion.Base.Int.{pos}
use noethrion.Python.Result.{ok}
use noethrion.Python.Bytes.{Bytes, bytes_lt, bytes_eq, to_bytes, big_endian, from_bytes}
use noethrion.Python.Hex.{fromhex, hex}
use noethrion.Python.Text.{codes, lower, removeprefix_0x}
use noethrion.Leaf.{addr_to_32, compute_leaf}
use noethrion.Leaf.Encoding.{encoding, address_text, compute_leaf-encoding}
use noethrion.Merkle
use noethrion.Merkle.{
  Proof, pad, not_power_of_two, last_or, record_siblings, range_from, pair_level, build_levels,
  build_tree,
}
use noethrion.Merkle.Replay.{IsWord, Collision, hash_pair-IsWord}
use noethrion.Merkle.Path.{Hashed}
use noethrion.Merkle.Padding.{Padded, pad-Padded}
use noethrion.Tool.Proof.{ProofMessage, verify_merkle_proof_impl}
use noethrion.Tool.Proof.Verdict.{AllPass, build_tree-AllPass, word_text, word_json}
use noethrion.Library.{VerificationResult, verify_merkle, check_proof, hash_pair, inclusion_ok}
use noethrion.Library.Inclusion.{
  Accepted, verify_merkle-Accepted, verify_merkle_sound, verify_merkle-tool,
}
use noethrion.Tests.Values.{
  digest, digest-IsDigest, alice, bob, alice-IsClaim, bob-IsClaim, carol, carol-IsClaim,
}

abbrev pub leaf_a : Bytes
leaf_a = digest (encoding alice)

abbrev pub leaf_b : Bytes
leaf_b = digest (encoding bob)

abbrev pub leaf_c : Bytes
leaf_c = digest (encoding carol)

pub leaf_words : All IsWord (leaf_a ∷ leaf_b ∷ leaf_c ∷ [])
leaf_words = (
  digest-IsDigest.word (encoding alice),
  (digest-IsDigest.word (encoding bob), (digest-IsDigest.word (encoding carol), tt)),
)

abbrev pub left_node : Bytes
left_node = Merkle.hash_pair digest leaf_a leaf_b

abbrev pub right_node : Bytes
right_node = Merkle.hash_pair digest leaf_c leaf_c

abbrev pub root : Bytes
root = Merkle.hash_pair digest left_node right_node

abbrev pub proof_b : Proof
proof_b = leaf_a ∷ right_node ∷ []

pub three_leaves :
    build_tree digest (leaf_a ∷ leaf_b ∷ leaf_c ∷ [])
    ≡ ok (root, (leaf_b ∷ right_node ∷ []) ∷ proof_b ∷ (leaf_c ∷ left_node ∷ []) ∷ [])
unfolding build_tree build_levels pair_level record_siblings pad not_power_of_two last_or range_from
three_leaves = refl

bob_accepted :
    verify_merkle digest
      (pos bob.chain_id)
      (address_text bob.attester)
      (address_text bob.beneficiary)
      (pos bob.amount)
      (pos bob.epoch)
      proof_b
      root
    ≡ ok (record { verified = true; reason = inclusion_ok })
unfolding verify_merkle check_proof hash_pair Merkle.hash_pair compute_leaf addr_to_32 bytes_lt
    bytes_eq digest encoding big_endian from_bytes to_bytes fromhex lower removeprefix_0x hex
bob_accepted = refl

verify_merkle_sound_example :
    MemD bob (alice ∷ bob ∷ carol ∷ [])
    ⊎ Collision digest
        (Hashed digest (map encoding (alice ∷ bob ∷ carol ∷ [])) (encoding bob) proof_b)
verify_merkle_sound_example =
    verify_merkle_sound digest digest-IsDigest alice (bob ∷ carol ∷ [])
      (alice-IsClaim, (bob-IsClaim, (carol-IsClaim, tt))) three_leaves bob proof_b bob-IsClaim
      bob_accepted refl

build_tree-AllPass_example :
    (top : Bytes) × (proofs : List Proof) × (build_tree digest (leaf_a ∷ leaf_b ∷ leaf_c ∷ [])
      ≡ ok (top, proofs))
    × AllPass digest digest top (leaf_a ∷ leaf_b ∷ leaf_c ∷ []) proofs
build_tree-AllPass_example =
    build_tree-AllPass digest digest digest-IsDigest leaf_a (leaf_b ∷ leaf_c ∷ []) leaf_words

pub root-IsWord : IsWord root
root-IsWord = hash_pair-IsWord digest digest-IsDigest left_node right_node

pub proof_words : All IsWord proof_b
proof_words = (leaf_words.0, (hash_pair-IsWord digest digest-IsDigest leaf_c leaf_c, tt))

bob_leaf :
    compute_leaf digest
      (pos bob.chain_id)
      (address_text bob.attester)
      (address_text bob.beneficiary)
      (pos bob.amount)
      (pos bob.epoch)
    ≡ ok leaf_b
bob_leaf = compute_leaf-encoding digest bob bob-IsClaim

verify_merkle-tool_example :
    (r : VerificationResult) × (m : ProofMessage) × (verify_merkle digest
        (pos bob.chain_id)
        (address_text bob.attester)
        (address_text bob.beneficiary)
        (pos bob.amount)
        (pos bob.epoch)
        proof_b
        root
      ≡ ok r)
    × (verify_merkle_proof_impl digest digest
          (word_text leaf_b)
          (map word_json proof_b)
          (word_text root)
          (codes "keccak256")
        ≡ ok (r.verified, m))
verify_merkle-tool_example =
    verify_merkle-tool digest digest (pos bob.chain_id) (address_text bob.attester)
      (address_text bob.beneficiary) (pos bob.amount) (pos bob.epoch) proof_b root leaf_b bob_leaf
      leaf_words.1.0 root-IsWord proof_words

verify_merkle-Accepted_example :
    Accepted digest
      (compute_leaf digest
        (pos bob.chain_id)
        (address_text bob.attester)
        (address_text bob.beneficiary)
        (pos bob.amount)
        (pos bob.epoch))
      proof_b
      root
verify_merkle-Accepted_example =
    verify_merkle-Accepted digest (pos bob.chain_id) (address_text bob.attester)
      (address_text bob.beneficiary) (pos bob.amount) (pos bob.epoch) proof_b root bob_accepted refl

three_entries : 0 < length (leaf_a ∷ leaf_b ∷ leaf_c ∷ [])
three_entries = omega arith

pad-Padded_example :
    Padded
      (leaf_a ∷ leaf_b ∷ leaf_c ∷ [])
      (pad (length (leaf_a ∷ leaf_b ∷ leaf_c ∷ [])) (leaf_a ∷ leaf_b ∷ leaf_c ∷ []))
    × (length (pad (length (leaf_a ∷ leaf_b ∷ leaf_c ∷ [])) (leaf_a ∷ leaf_b ∷ leaf_c ∷ []))
        < 2 * length (leaf_a ∷ leaf_b ∷ leaf_c ∷ []))
pad-Padded_example = pad-Padded (leaf_a ∷ leaf_b ∷ leaf_c ∷ []) three_entries
