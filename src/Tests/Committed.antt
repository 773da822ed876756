-- ===== src/Tests/Committed.antt =====
-- The published epoch under the contract's encoding: its leaves are the claims of the batch.
use noethrion.Base.{◌≡◌, refl, [], ◌∷◌}
use noethrion.Python.Result.{ok}
use noethrion.Python.Hex.{hex}
use noethrion.Leaf.Encoding.{encoding, address_text}
use noethrion.Merkle.{Proof}
use noethrion.Node.{
  all_ok, root_matches, leaves_verified, sum_matches, signature_ok, fully_verified,
}
use noethrion.Node.Epoch.{verify_epoch}
use noethrion.Node.Epoch.Sound.{IsReconciled}
use noethrion.Node.Epoch.Committed.{AllCommitted, verify_epoch-AllCommitted}
use noethrion.Tool.Proof.Verdict.{word_text}
use noethrion.Tests.Values.{
  digest, digest-IsDigest, alice, bob, carol, alice-IsClaim, bob-IsClaim, carol-IsClaim, crypto,
}
use noethrion.Tests.Trees.{root, three_leaves}
use noethrion.Tests.Abi
use noethrion.Tests.Abi.{strict, strict-IsAbi}
use noethrion.Tests.Epochs.{on_chain, honest}
use noethrion.Node.Epoch
use noethrion.Node.Batch
use noethrion.Python.Json
use noethrion.Python.Bytes
use noethrion.Node.Leaves
use noethrion.Python.Text
use noethrion.Python.Hex
use noethrion.Merkle
use noethrion.Tests.Values
use noethrion.Leaf.Encoding
use noethrion.Python.Number
use noethrion.Python.Result
use noethrion.Python.Utf8
use noethrion.Tool.Proof
use noethrion.Tool.Signature
use noethrion.Leaf

honest_verified :
    verify_epoch strict digest crypto (address_text alice.attester) 31337 (ok on_chain) 1 honest
    ≡ ok (
      all_ok,
      root_matches (word_text root)
          ∷ leaves_verified 3
          ∷ sum_matches 350
          ∷ signature_ok
          ∷ fully_verified
          ∷ [],
    )
unfolding verify_epoch Abi.encode_claim Abi.fits Abi.all_bytes Abi.address_bytes Epoch.handle
    Epoch.verify_finalized_epoch Epoch.check_all_leaves Epoch.check_batch Epoch.check_signature
    Epoch.check_total Batch.load_batch_file Batch.accept_epoch Batch.load_candidate Json.get
    Json.as_str Json.to_list Json.from_list Bytes.bytes_eq Bytes.bytes_lt Bytes.big_endian
    Bytes.from_bytes Bytes.to_bytes Leaves.usable Leaves.normalize Leaves.array_or_empty
    Leaves.check_leaf Leaves.check_leaves Leaves.check_published Leaves.compute_leaf
    Leaves.hexbytes_hex Leaves.nonnegative Leaves.raw_amount Leaves.required Leaves.with_0x
    Text.is_empty Text.strip Text.starts_0x Text.lower Text.is_space Text.is_upper Text.lower_char
    Text.lstrip Text.removeprefix_0x Hex.hex Hex.cons_byte Hex.fromhex Hex.hex_digit Hex.hex_value
    Hex.is_ascii_space Merkle.hash_pair Values.digest Encoding.encoding Number.digits Number.int_of
    Number.int_of_text Number.is_digit Number.signed Number.unsigned Result.traverse
    Utf8.encode_char Utf8.encode_utf8 Proof.fold_proof Proof.hash_of Proof.to_word
    Proof.verify_merkle_proof_impl Signature.check_attestation Signature.fromhex_of Signature.has
    Signature.hex_or_none Signature.is_es256 Signature.item Signature.json_error_exits
    Signature.load_attestation Signature.load_pubkey Signature.verdict Signature.verify_raw
    Signature.verify_signature Leaf.abi_encode_leaf Leaf.addr_to_32
honest_verified = refl

verify_epoch-AllCommitted_example :
    (r : IsReconciled strict digest crypto (address_text alice.attester) 31337 1 honest on_chain)
    × AllCommitted strict digest strict-IsAbi digest-IsDigest
        (address_text alice.attester)
        31337
        1
        (alice ∷ bob ∷ carol ∷ [])
        root
        r.leaves
        r.amounts
verify_epoch-AllCommitted_example =
    verify_epoch-AllCommitted strict digest strict-IsAbi digest-IsDigest
      (address_text alice.attester) 31337 1 crypto on_chain honest alice (bob ∷ carol ∷ [])
      (alice-IsClaim, (bob-IsClaim, (carol-IsClaim, tt))) three_leaves honest_verified
