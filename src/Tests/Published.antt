-- ===== src/Tests/Published.antt =====
-- The batch of three claims, published and verified.
use noethrion.Base.{◌^◌, ◌≡◌, ◌≢◌, refl, ap, true, List, [], ◌∷◌, arith, ◌==◌, length, All, lt→ltb}
use noethrion.Python.Result.{ok}
use noethrion.Python.Bytes.{Bytes, IsByte}
use noethrion.Python.Hex.RoundTrip.{fromhex-hex}
use noethrion.Python.Text.{add_0x, lower-add_0x, lower-hex, removeprefix_0x-add_0x}
use noethrion.Python.Json.{obj, as_str}
use noethrion.Leaf.Encoding.{Claim, IsClaim, encoding, address_text}
use noethrion.Node.{OnChainBatch, DataDir, absent, present, Detail, all_ok}
use noethrion.Node.Epoch.{verify_epoch}
use noethrion.Publish.{document, total_wei}
use noethrion.Publish.Accepted.{IsEncoder}
use noethrion.Publish.Accepted.Share.{Share, IsShare, entries_of}
use noethrion.Publish.Accepted.Epoch.{IsPublished, batch_of-IsPublished, honest_batch-verified}
use noethrion.Tests.Values.{
  digest, digest-IsDigest, alice, bob, carol, alice-IsClaim, bob-IsClaim, carol-IsClaim, crypto,
}
use noethrion.Leaf.Casing.{IsWritten, address_text-IsWritten}
use noethrion.Leaf.AnyCase.{lower-IsWritten}
use noethrion.Tests.Vector.{
  vector, vector-IsClaim, attester_digits, beneficiary_digits, attester-IsWritten,
  beneficiary-IsWritten,
}
use noethrion.Tests.Abi.{strict, address_bytes, all_bytes, fits, encode_claim}
use noethrion.Tests.Epochs.{on_chain}

address_bytes-address_text : (a : Bytes) → All IsByte a → address_bytes (address_text a) ≡ a
unfolding address_bytes
address_bytes-address_text a h =
    rw (address_bytes, lower-add_0x, removeprefix_0x-add_0x, lower-hex a h, fromhex-hex a h)

all_bytes-true : (bs : Bytes) → All IsByte bs → all_bytes bs ≡ true
unfolding all_bytes
all_bytes-true [] h = refl
all_bytes-true (b ∷ bs) h = rw (lt→ltb b 256 h.0) (all_bytes-true bs h.1)

fits-true : (c : Claim) → IsClaim c → fits c ≡ true
unfolding fits
fits-true c v =
    let twenty : (length c.attester == 20) ≡ true = ground (arith, v.attester_size) in
    let twenty' : (length c.beneficiary == 20) ≡ true = ground (arith, v.beneficiary_size) in
    rw (
      lt→ltb c.chain_id (2 ^ 256) v.chain_fits,
      twenty,
      all_bytes-true c.attester v.attester_bytes,
      twenty',
      all_bytes-true c.beneficiary v.beneficiary_bytes,
      lt→ltb c.amount (2 ^ 128) v.amount_fits,
      lt→ltb c.epoch (2 ^ 64) v.epoch_fits,
    )

encode_claim_ok : (c : Claim) → IsClaim c → encode_claim c ≡ ok (encoding c)
unfolding encode_claim
encode_claim_ok c v = rw (fits-true c v)

pub strict-IsEncoder : IsEncoder strict
unfolding as_str
strict-IsEncoder = record {
  checksum = address_text;
  checksums = λ t a size bytes h. ap ok (lower-IsWritten t a h);
  encodes = λ c v.
      rw
        (
          address_bytes-address_text c.attester v.attester_bytes,
          address_bytes-address_text c.beneficiary v.beneficiary_bytes,
        )
        (encode_claim_ok c v);
}

abbrev share : Claim → Share
share c = record {
  beneficiary = c.beneficiary;
  address = address_text c.beneficiary;
  amount = c.amount;
}

is_share :
    (c : Claim)
    → IsClaim c
    → c.chain_id ≡ 31337
    → c.epoch ≡ 1
    → IsShare 31337 c.attester 1 (share c)
is_share c v chain epoch = record {
  claim = record {
    chain_fits = omega (arith, chain, v.chain_fits);
    attester_size = v.attester_size;
    attester_bytes = v.attester_bytes;
    beneficiary_size = v.beneficiary_size;
    beneficiary_bytes = v.beneficiary_bytes;
    amount_fits = v.amount_fits;
    epoch_fits = omega (arith, epoch, v.epoch_fits);
  };
  written = address_text-IsWritten c.beneficiary v.beneficiary_bytes;
}

abbrev three_shares :
    All (IsShare 31337 alice.attester 1) (share alice ∷ share bob ∷ share carol ∷ [])
three_shares = (
  is_share alice alice-IsClaim refl refl,
  (is_share bob bob-IsClaim refl refl, (is_share carol carol-IsClaim refl refl, tt)),
)

attester_written : IsWritten (address_text alice.attester) alice.attester
attester_written = address_text-IsWritten alice.attester alice-IsClaim.attester_bytes

abbrev batch :
    IsPublished strict digest strict-IsEncoder digest-IsDigest 31337 alice.attester
      (address_text alice.attester)
      attester_written
      1
      (share alice)
      (share bob ∷ share carol ∷ [])
batch =
    batch_of-IsPublished strict digest strict-IsEncoder digest-IsDigest 31337 alice.attester
      (address_text alice.attester) attester_written 1 (share alice) (share bob ∷ share carol ∷ [])
      three_shares

abbrev finalized : OnChainBatch
finalized = record on_chain { merkle_root = batch.root }

abbrev published : DataDir
published = record {
  batch_named = λ epoch. absent;
  batch = present (ok (obj (document 1 350 batch.root (batch.first ∷ batch.rest))));
  attestation = absent;
  pubkey = absent;
}

on_chain_proposed : finalized.timestamp ≢ 0
on_chain_proposed e = absurd (omega (arith, e))

total_committed :
    finalized.total_kwh ≡ total_wei (entries_of (share alice ∷ share bob ∷ share carol ∷ []))
unfolding total_wei
total_committed = refl

batch_there :
    published.batch
    ≡ present (
        ok (
          obj (
            document 1
              (total_wei (entries_of (share alice ∷ share bob ∷ share carol ∷ [])))
              batch.root
              (batch.first ∷ batch.rest))))
unfolding total_wei
batch_there = refl

honest_batch-verified_example :
    (details : List Detail) × (verify_epoch strict digest crypto
        (address_text alice.attester)
        31337
        (ok finalized)
        1
        published
      ≡ ok (all_ok, details))
honest_batch-verified_example =
    honest_batch-verified strict digest strict-IsEncoder digest-IsDigest 31337 alice.attester
      (address_text alice.attester) attester_written 1 (share alice) (share bob ∷ share carol ∷ [])
      three_shares crypto finalized published batch.published batch.built on_chain_proposed refl
      total_committed refl batch_there refl refl

-- An address in EIP-55 form.
abbrev mixed_case : Share
mixed_case = record {
  beneficiary = vector.beneficiary;
  address = add_0x beneficiary_digits;
  amount = vector.amount;
}

batch_of-IsPublished_example :
    IsPublished strict digest strict-IsEncoder digest-IsDigest 31337 vector.attester
      (add_0x attester_digits)
      attester-IsWritten
      1
      mixed_case
      []
batch_of-IsPublished_example =
    batch_of-IsPublished strict digest strict-IsEncoder digest-IsDigest 31337 vector.attester
      (add_0x attester_digits) attester-IsWritten 1 mixed_case []
      (record { claim = vector-IsClaim; written = beneficiary-IsWritten }, tt)
