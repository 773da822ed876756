-- ===== src/Publish/Sample.antt =====
-- A run of `main` (examples/lifecycle/03_build_merkle_tree.py) on its sample, and the node
-- (node/verifier_node.py) on the batch.json that the run leaves.
use noethrion.Base.{
  ℕ, ◌*◌, ◌^◌, ◌<◌, ◌≡◌, ◌≢◌, refl, sym, ap, ◌∙◌, true, false, Option, some, List, [], ◌∷◌, arith,
  length, All,
}
use noethrion.Base.Int.{pos}
use noethrion.Python.Result.{ok}
use noethrion.Python.Bytes.{Bytes, IsByte}
use noethrion.Python.Hex
use noethrion.Python.Hex.{hex}
use noethrion.Python.Text
use noethrion.Python.Text.{Text, codes, lower, is_empty}
use noethrion.Python.Json.{Fields, str, int, obj, get}
use noethrion.Leaf.Casing.{IsWritten}
use noethrion.Merkle.Replay.{IsDigest}
use noethrion.Tool.Proof.Verdict.{word_text}
use noethrion.Crypto.{Crypto}
use noethrion.Node.{Web3, OnChainBatch, absent, present, DataDir, Detail, all_ok}
use noethrion.Node.Epoch.{verify_epoch}
use noethrion.Publish.{
  total_wei, document, batch_of, sample, chain_id_of, Output, written, write_batch, main,
}
use noethrion.Publish.Accepted.{IsEncoder}
use noethrion.Publish.Accepted.Document.{document_root, document_total}
use noethrion.Publish.Accepted.Share.{Share, entries_of, IsShare}
use noethrion.Publish.Accepted.Epoch.{IsPublished, batch_of-IsPublished, verify_epoch-IsPublished}

abbrev pub alice : Share
alice = record {
  beneficiary =
      0xf3 ∷ 0x9f ∷ 0xd6 ∷ 0xe5 ∷ 0x1a ∷ 0xad ∷ 0x88 ∷ 0xf6 ∷ 0xf4 ∷ 0xce ∷ 0x6a ∷ 0xb8 ∷ 0x82
      ∷ 0x72 ∷ 0x79 ∷ 0xcf ∷ 0xff ∷ 0xb9 ∷ 0x22 ∷ 0x66 ∷ [];
  address = codes "0xf39Fd6e51aad88F6F4ce6aB8827279cffFb92266";
  amount = 100 * 10 ^ 18;
}

alice-IsWritten : IsWritten alice.address alice.beneficiary
unfolding lower hex Hex.hex_digit Text.lower_char Text.is_upper
alice-IsWritten = record {
  digits = codes "f39Fd6e51aad88F6F4ce6aB8827279cffFb92266";
  prefixed = refl;
  same = refl;
}

abbrev pub bob : Share
bob = record {
  beneficiary =
      0x70 ∷ 0x99 ∷ 0x79 ∷ 0x70 ∷ 0xc5 ∷ 0x18 ∷ 0x12 ∷ 0xdc ∷ 0x3a ∷ 0x01 ∷ 0x0c ∷ 0x7d ∷ 0x01
      ∷ 0xb5 ∷ 0x0e ∷ 0x0d ∷ 0x17 ∷ 0xdc ∷ 0x79 ∷ 0xc8 ∷ [];
  address = codes "0x70997970C51812dc3A010C7d01b50e0d17dc79C8";
  amount = 200 * 10 ^ 18;
}

bob-IsWritten : IsWritten bob.address bob.beneficiary
unfolding lower hex Hex.hex_digit Text.lower_char Text.is_upper
bob-IsWritten = record {
  digits = codes "70997970C51812dc3A010C7d01b50e0d17dc79C8";
  prefixed = refl;
  same = refl;
}

abbrev pub carol : Share
carol = record {
  beneficiary =
      0x3c ∷ 0x44 ∷ 0xcd ∷ 0xdd ∷ 0xb6 ∷ 0xa9 ∷ 0x00 ∷ 0xfa ∷ 0x2b ∷ 0x58 ∷ 0x5d ∷ 0xd2 ∷ 0x99
      ∷ 0xe0 ∷ 0x3d ∷ 0x12 ∷ 0xfa ∷ 0x42 ∷ 0x93 ∷ 0xbc ∷ [];
  address = codes "0x3C44CdDdB6a900fa2b585dd299e03d12FA4293BC";
  amount = 150 * 10 ^ 18;
}

carol-IsWritten : IsWritten carol.address carol.beneficiary
unfolding lower hex Hex.hex_digit Text.lower_char Text.is_upper
carol-IsWritten = record {
  digits = codes "3C44CdDdB6a900fa2b585dd299e03d12FA4293BC";
  prefixed = refl;
  same = refl;
}

abbrev pub others : List Share
others = bob ∷ carol ∷ []

sample_shares : entries_of (alice ∷ others) ≡ sample
sample_shares = refl

sample_total : total_wei (entries_of (alice ∷ others)) ≡ 450 * 10 ^ 18
unfolding total_wei
sample_total = refl

module _ (chain_id : ℕ) (attester : Bytes) (chain_fits : chain_id < 2 ^ 256)
    (size : length attester ≡ 20) (bytes : All IsByte attester) where
  share_valid :
      (x : Share)
      → length x.beneficiary ≡ 20
      → All IsByte x.beneficiary
      → x.amount < 2 ^ 128
      → IsWritten x.address x.beneficiary
      → IsShare chain_id attester 1 x
  share_valid x size' bytes' fits' written' = record {
    claim = record {
      chain_fits = chain_fits;
      attester_size = size;
      attester_bytes = bytes;
      beneficiary_size = size';
      beneficiary_bytes = bytes';
      amount_fits = fits';
      epoch_fits = omega arith;
    };
    written = written';
  }

  pub shares_valid : All (IsShare chain_id attester 1) (alice ∷ others)
  shares_valid = (
    share_valid alice refl (omega arith) (omega arith) alice-IsWritten,
    (
      share_valid bob refl (omega arith) (omega arith) bob-IsWritten,
      (share_valid carol refl (omega arith) (omega arith) carol-IsWritten, tt),
    ),
  )

  module _ (W : Web3) (sha256 : Bytes → Bytes) (encoder : IsEncoder W) (d : IsDigest W.keccak)
      (attester_addr : Text) (attester_written : IsWritten attester_addr attester)
      (environ : Text → Option Text) (out : Output)
      (chain_read : chain_id_of environ ≡ ok (pos chain_id))
      (attester_read : environ (codes "ATTESTER") ≡ some attester_addr) (opened : out.opens ≡ ok tt)
      (dumped : out.dumps ≡ ok tt) where
    abbrev pub sample_batch :
        IsPublished W sha256 encoder d chain_id attester attester_addr attester_written 1 alice
          others
    sample_batch =
        batch_of-IsPublished W sha256 encoder d chain_id attester attester_addr attester_written 1
          alice others shares_valid

    abbrev pub sample_document : Fields
    sample_document =
        document 1 (450 * 10 ^ 18) sample_batch.root (sample_batch.first ∷ sample_batch.rest)

    -- The run ends with 0 and leaves the batch.
    main-written : main W.keccak environ out ≡ (written sample_document, ok 0)
    unfolding main write_batch is_empty
    main-written =
        let published : batch_of W.keccak (pos chain_id) attester_addr 1 sample
            ≡ ok sample_document =
          sample_batch.published
          ∙ ap (λ n. ok (document 1 n sample_batch.root (sample_batch.first ∷ sample_batch.rest)))
              sample_total in
        let given : is_empty attester_addr ≡ false = ap is_empty attester_written.prefixed in
        rw (chain_read, attester_read, given, published, opened, dumped, main, write_batch)

    -- The run and the node together, for every CHAIN_ID that is read as a uint256 and every ATTESTER
    -- that is `0x` and an address in any mix of cases, with eth_abi and web3 as in IsEncoder, a digest
    -- of 32 bytes and a batch.json that can be written: `main` ends with 0 and leaves the document of
    -- the three sample claims; and where epoch 1 is proposed and final on the chain with the root and
    -- the total that this document names, and the node finds it as batch.json, with no batch named for
    -- the epoch and no signature material, `verify_epoch` reports OK.
    pub main-verify_epoch :
        (C : Crypto) (o : OnChainBatch) (dir : DataDir)
        → get (codes "root") sample_document ≡ some (str (word_text o.merkle_root))
        → get (codes "totalKwh") sample_document ≡ some (int (pos o.total_kwh))
        → o.timestamp ≢ 0
        → o.finalized ≡ true
        → dir.batch_named 1 ≡ absent
        → dir.batch ≡ present (ok (obj sample_document))
        → dir.attestation ≡ absent
        → dir.pubkey ≡ absent
        → (main W.keccak environ out ≡ (written sample_document, ok 0))
          × (details : List Detail) × (verify_epoch W sha256 C attester_addr chain_id (ok o) 1 dir
              ≡ ok (all_ok, details))
    main-verify_epoch C o dir root_named total_named proposed final no_name there no_att no_pub =
        let items = sample_batch.first ∷ sample_batch.rest in
        let same_root : word_text sample_batch.root ≡ word_text o.merkle_root = str_injective (
          sym (
            document_root W sha256 chain_id attester_addr 1 sample_batch.root (450 * 10 ^ 18) items)
          ∙ root_named) in
        let same_total : 450 * 10 ^ 18 ≡ o.total_kwh = int_injective (
          sym (
            document_total W sha256 chain_id attester_addr 1 sample_batch.root (450 * 10 ^ 18)
              items)
          ∙ total_named) in
        let (details, verified) =
          verify_epoch-IsPublished W sha256 encoder d chain_id attester attester_addr
            attester_written 1 alice others sample_batch C o dir same_root proposed final
            (sym same_total ∙ sym sample_total) no_name
            (there
              ∙ ap (λ n. present (ok (obj (document 1 n sample_batch.root items))))
                  (sym sample_total))
            no_att no_pub in
        (main-written, details, verified)
      where
        str_injective : {s t : Text} → some (str s) ≡ some (str t) → s ≡ t
        str_injective e = cc e

        int_injective : {m n : ℕ} → some (int (pos m)) ≡ some (int (pos n)) → m ≡ n
        int_injective e = cc e
