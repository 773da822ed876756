-- ===== src/Tests/Epochs.antt =====
-- A published epoch, and what the node reports of it.
use noethrion.Base.{
  ◌≡◌, ◌≢◌, ◌↔◌, refl, true, some, List, [], ◌∷◌, ◌++◌, map, arith, ◌==◌, if◌then◌else◌,
}
use noethrion.Base.Int.{pos}
use noethrion.Python.Result.{Result, ok, raise, overflow_error}
use noethrion.Python.Bytes.{Bytes, big_endian, from_bytes, to_bytes, bytes_lt, bytes_eq}
use noethrion.Python.Hex.{hex, fromhex, is_ascii_space, hex_digit}
use noethrion.Python.Text.{Text, codes, lower, strip, add_0x, starts_0x, removeprefix_0x}
use noethrion.Python.Json.{
  Json, Fields, end, field, nil, cons, int, float, str, arr, obj, get, from_list, to_list, infinite,
}
use noethrion.Python.Number.{int_of}
use noethrion.Leaf.Encoding.{Claim, encoding, address_text}
use noethrion.Tool.Proof.Verdict.{word_text, word_json}
use noethrion.Node.{
  OnChainBatch, DataDir, absent, present, all_ok, root_matches, leaves_verified, sum_matches,
  signature_ok, fully_verified,
}
use noethrion.Node.Batch.{load_batch_file}
use noethrion.Node.Epoch.{verify_epoch}
use noethrion.Node.Epoch.Sound.{IsReconciled}
use noethrion.Node.Epoch.Complete.{ReportsOk, verify_epoch_iff}
use noethrion.Node.Epoch.Closed.{IsClosed, verify_epoch-IsClosed, infinite_amount_escapes}
use noethrion.Node.Run.{RunState, exit, round}
use noethrion.Tests.Values.{digest, alice, bob, carol, crypto, web3}
use noethrion.Merkle.{Proof}
use noethrion.Node.Epoch
use noethrion.Node.Batch
use noethrion.Python.Json
use noethrion.Python.Bytes
use noethrion.Node.Leaves
use noethrion.Node.Leaves.{usable, normalize, array_or_empty, raw_amount}
use noethrion.Python.Text
use noethrion.Python.Hex
use noethrion.Merkle
use noethrion.Tests.Values
use noethrion.Leaf.Encoding
use noethrion.Python.Number
use noethrion.Python.Result
use noethrion.Python.Utf8
use noethrion.Tool.Proof
use noethrion.Tool.Signature
use noethrion.Leaf
use noethrion.Tests.Trees.{leaf_a, leaf_b, leaf_c, left_node, right_node, root, proof_b}

abbrev published_leaf : Claim → Json → Bytes → Proof → Json
published_leaf c amount leaf proof = obj (
    field (codes "beneficiary") (str (address_text c.beneficiary)) (
      field (codes "amount_wei") amount (
        field (codes "leaf") (str (word_text leaf))
          (field (codes "proof") (arr (from_list (map word_json proof))) end))))

abbrev batch_of : Json → Fields
batch_of amount = field (codes "epoch") (int (pos 1)) (
    field (codes "root") (str (word_text root)) (
      field (codes "leaves")
        (arr (
          cons (published_leaf alice amount leaf_a (leaf_b ∷ right_node ∷ [])) (
            cons (published_leaf bob (str (codes "200")) leaf_b proof_b)
              (cons (published_leaf carol (int (pos 50)) leaf_c (leaf_c ∷ left_node ∷ [])) nil))))
        end))

abbrev pub signed_payload : Fields
signed_payload = field (codes "payload_b64_canonical") (str (codes "e30=")) (
    field (codes "signature_rs_hex") (str (hex (big_endian 32 5 ++ big_endian 32 5)))
      (field (codes "algorithm") (str (codes "ES256")) end))

abbrev pub data_dir_of : Json → DataDir
data_dir_of amount = record {
  batch_named = λ epoch. if epoch == 1 then present (ok (obj (batch_of amount))) else absent;
  batch = absent;
  attestation = present (ok (obj signed_payload));
  pubkey = present (ok (5 ∷ []));
}

abbrev pub on_chain : OnChainBatch
on_chain = record {
  merkle_root = root;
  epoch = 1;
  total_kwh = 350;
  timestamp = 1700000000;
  proposer = alice.attester;
  finalized = true;
  threshold_at_propose = 2;
  challenge_window_at_propose = 3600;
}

abbrev pub honest : DataDir
honest = data_dir_of (int (pos 100))

pub epoch_verified :
    verify_epoch web3 digest crypto (address_text alice.attester) 31337 (ok on_chain) 1 honest
    ≡ ok (
      all_ok,
      root_matches (word_text root)
          ∷ leaves_verified 3
          ∷ sum_matches 350
          ∷ signature_ok
          ∷ fully_verified
          ∷ [],
    )
unfolding verify_epoch Epoch.handle Epoch.verify_finalized_epoch Epoch.check_all_leaves
    Epoch.check_batch Epoch.check_signature Epoch.check_total Batch.load_batch_file
    Batch.accept_epoch Batch.load_candidate Json.get Json.as_str Json.to_list Json.from_list
    Bytes.bytes_eq Bytes.bytes_lt Bytes.big_endian Bytes.from_bytes Bytes.to_bytes Leaves.usable
    Leaves.normalize Leaves.array_or_empty Leaves.check_leaf Leaves.check_leaves
    Leaves.check_published Leaves.compute_leaf Leaves.hexbytes_hex Leaves.nonnegative
    Leaves.raw_amount Leaves.required Leaves.with_0x Text.is_empty Text.strip Text.starts_0x
    Text.lower Text.is_space Text.is_upper Text.lower_char Text.lstrip Text.removeprefix_0x Hex.hex
    Hex.cons_byte Hex.fromhex Hex.hex_digit Hex.hex_value Hex.is_ascii_space Merkle.hash_pair
    Values.digest Encoding.encoding Number.digits Number.int_of Number.int_of_text Number.is_digit
    Number.signed Number.unsigned Result.traverse Utf8.encode_char Utf8.encode_utf8 Proof.fold_proof
    Proof.hash_of Proof.to_word Proof.verify_merkle_proof_impl Signature.check_attestation
    Signature.fromhex_of Signature.has Signature.hex_or_none Signature.is_es256 Signature.item
    Signature.json_error_exits Signature.load_attestation Signature.load_pubkey Signature.verdict
    Signature.verify_raw Signature.verify_signature Leaf.abi_encode_leaf Leaf.addr_to_32
epoch_verified = refl

proposed : on_chain.timestamp ≢ 0
proposed e = absurd (omega (arith, e))

-- Nothing is published.
abbrev nothing : DataDir
nothing = record {
  batch_named = λ epoch. absent;
  batch = absent;
  attestation = absent;
  pubkey = absent;
}

verify_epoch-IsClosed_example :
    IsClosed
      (verify_epoch web3 digest crypto (address_text alice.attester) 31337 (ok on_chain) 1 nothing)
verify_epoch-IsClosed_example =
    verify_epoch-IsClosed web3 digest crypto (address_text alice.attester) 31337 on_chain 1 nothing
      proposed refl

abbrev infinite_batch : Fields
infinite_batch = batch_of (float infinite)

abbrev infinite_leaf : Fields
infinite_leaf = field (codes "beneficiary") (str (address_text alice.beneficiary)) (
    field (codes "amount_wei") (float infinite) (
      field (codes "leaf") (str (word_text leaf_a))
        (field (codes "proof") (arr (from_list (map word_json (leaf_b ∷ right_node ∷ [])))) end)))

abbrev other_leaves : List Json
other_leaves =
    published_leaf bob (str (codes "200")) leaf_b proof_b
    ∷ published_leaf carol (int (pos 50)) leaf_c (leaf_c ∷ left_node ∷ [])
    ∷ []

infinite_loaded : load_batch_file (data_dir_of (float infinite)) 1 ≡ ok (some infinite_batch)
unfolding load_batch_file Batch.accept_epoch Batch.load_candidate get bytes_eq
infinite_loaded = refl

infinite_root : usable (get (codes "root") infinite_batch) ≡ ok (word_text root)
unfolding usable get bytes_eq Text.is_empty strip Text.lstrip Text.is_space hex hex_digit
    Merkle.hash_pair bytes_lt digest encoding big_endian
infinite_root = refl

infinite_normal : normalize (word_text root) ≡ lower (add_0x (hex on_chain.merkle_root))
unfolding normalize Leaves.with_0x starts_0x lower Text.lower_char strip Text.lstrip Text.is_space
    hex hex_digit Merkle.hash_pair bytes_lt digest encoding big_endian
infinite_normal = refl

infinite_leaves :
    array_or_empty (get (codes "leaves") infinite_batch) ≡ ok (obj infinite_leaf ∷ other_leaves)
unfolding array_or_empty get bytes_eq to_list
infinite_leaves = refl

infinite_beneficiary :
    get (codes "beneficiary") infinite_leaf ≡ some (str (address_text alice.beneficiary))
unfolding get bytes_eq
infinite_beneficiary = refl

infinite_amount : raw_amount infinite_leaf ≡ ok (float infinite)
unfolding raw_amount get bytes_eq
infinite_amount = refl

infinite_amount_escapes_example :
    (verify_epoch web3 digest crypto
        (address_text alice.attester)
        31337
        (ok on_chain)
        1
        (data_dir_of (float infinite))
      ≡ raise overflow_error)
    × ((s : RunState)
        → round true s (
            verify_epoch web3 digest crypto
              (address_text alice.attester)
              31337
              (ok on_chain)
              1
              (data_dir_of (float infinite)))
          ≡ exit (if s.alarms == 0 then 2 else 1) s)
infinite_amount_escapes_example =
    infinite_amount_escapes web3 digest crypto (address_text alice.attester) 31337 on_chain 1
      (data_dir_of (float infinite)) proposed refl infinite_batch infinite_leaf other_leaves
      (word_text root) (str (address_text alice.beneficiary)) infinite_loaded infinite_root
      infinite_normal infinite_leaves infinite_beneficiary infinite_amount

verify_epoch_iff_example :
    ReportsOk
      (verify_epoch web3 digest crypto (address_text alice.attester) 31337 (ok on_chain) 1 honest)
    ↔ ((b : OnChainBatch) × (ok on_chain ≡ ok b)
        × (b.timestamp ≢ 0)
        × (b.finalized ≡ true)
        × IsReconciled web3 digest crypto (address_text alice.attester) 31337 1 honest b)
verify_epoch_iff_example =
    verify_epoch_iff web3 digest crypto (address_text alice.attester) 31337 (ok on_chain) 1 honest
