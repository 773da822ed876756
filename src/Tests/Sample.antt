-- ===== src/Tests/Sample.antt =====
-- A run of the builder on its sample, with the vector's attester and no CHAIN_ID.
use noethrion.Base.{◌*◌, ◌^◌, ◌≡◌, ◌≢◌, refl, Option, none, some, List, arith, if◌then◌else◌}
use noethrion.Base.Int.{pos}
use noethrion.Python.Result.{ok}
use noethrion.Python.Bytes.{bytes_eq}
use noethrion.Python.Text.{Text, codes, add_0x}
use noethrion.Python.Json.{Fields, obj}
use noethrion.Python.Number.{int_of_text}
use noethrion.Node.{OnChainBatch, DataDir, absent, present, Detail, all_ok}
use noethrion.Node.Epoch.{verify_epoch}
use noethrion.Publish.{chain_id_of, Output, written, main}
use noethrion.Publish.Accepted.Document.{document_root, document_total}
use noethrion.Publish.Sample.{sample_batch, sample_document, main-verify_epoch}
use noethrion.Tests.Values.{digest, digest-IsDigest, crypto}
use noethrion.Tests.Abi.{strict}
use noethrion.Tests.Epochs.{on_chain}
use noethrion.Tests.Published.{strict-IsEncoder}
use noethrion.Tests.Vector.{vector, vector-IsClaim, attester_digits, attester-IsWritten}

abbrev environ : Text → Option Text
environ name = if bytes_eq (codes "ATTESTER") name then some (add_0x attester_digits) else none

abbrev output : Output
output = record { opens = ok tt; dumps = ok tt }

chain_read : chain_id_of environ ≡ ok (pos 31337)
unfolding chain_id_of bytes_eq int_of_text
chain_read = refl

attester_read : environ (codes "ATTESTER") ≡ some (add_0x attester_digits)
unfolding bytes_eq
attester_read = refl

abbrev batch_json : Fields
batch_json =
    sample_document 31337 vector.attester vector-IsClaim.chain_fits vector-IsClaim.attester_size
      vector-IsClaim.attester_bytes strict digest strict-IsEncoder digest-IsDigest
      (add_0x attester_digits) attester-IsWritten environ output chain_read attester_read refl refl

abbrev proposed : OnChainBatch
proposed = record on_chain {
  merkle_root =
      (sample_batch 31337 vector.attester vector-IsClaim.chain_fits vector-IsClaim.attester_size
        vector-IsClaim.attester_bytes strict digest strict-IsEncoder digest-IsDigest
        (add_0x attester_digits) attester-IsWritten environ output chain_read attester_read refl
        refl).root;
  total_kwh = 450 * 10 ^ 18;
}

abbrev data_dir : DataDir
data_dir = record {
  batch_named = λ epoch. absent;
  batch = present (ok (obj batch_json));
  attestation = absent;
  pubkey = absent;
}

main-verify_epoch_example :
    (main digest environ output ≡ (written batch_json, ok 0))
    × (details : List Detail) × (verify_epoch strict digest crypto
          (add_0x attester_digits)
          31337
          (ok proposed)
          1
          data_dir
        ≡ ok (all_ok, details))
main-verify_epoch_example =
    main-verify_epoch 31337 vector.attester vector-IsClaim.chain_fits vector-IsClaim.attester_size
      vector-IsClaim.attester_bytes strict digest strict-IsEncoder digest-IsDigest
      (add_0x attester_digits) attester-IsWritten environ output chain_read attester_read refl refl
      crypto proposed data_dir
      (document_root strict digest 31337 (add_0x attester_digits) 1 proposed.merkle_root
        (450 * 10 ^ 18) _)
      (document_total strict digest 31337 (add_0x attester_digits) 1 proposed.merkle_root
        (450 * 10 ^ 18) _)
      proposed_there refl refl refl refl refl
  where
    proposed_there : proposed.timestamp ≢ 0
    proposed_there e = absurd (omega (arith, e))
