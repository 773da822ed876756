-- ===== src/Tests/Abi.antt =====
-- A web3 and an eth_abi that encode as the contract does, and the published epoch under them.
use noethrion.Base.{
  ◌^◌, ◌≡◌, sym, Bool, true, ◌&&◌, [], ◌∷◌, arith, ◌==◌, ltb, if◌then◌else◌, length, All,
  Bool-cases, inl, inr,
}
use noethrion.Python.Result.{Result, ok, raise, value_error, ok_injective, ◌>>=◌}
use noethrion.Python.Bytes.{Bytes, IsByte}
use noethrion.Python.Hex.{fromhex}
use noethrion.Python.Text.{Text, lower, removeprefix_0x}
use noethrion.Python.Json.{as_str}
use noethrion.Leaf.Encoding.{Claim, IsClaim, encoding}
use noethrion.Node.{Web3}
use noethrion.Node.Abi.{IsAbi}
use noethrion.Tests.Values.{digest}

-- The bytes of an address, or none.
unfoldable pub address_bytes : Text → Bytes
address_bytes t = elim (fromhex (removeprefix_0x (lower t))) [ ok b ↦ b | raise e ↦ [] ]

unfoldable pub all_bytes : Bytes → Bool
all_bytes [] = true
all_bytes (b ∷ bs) = ltb b 256 && all_bytes bs

all_bytes-All : (bs : Bytes) → all_bytes bs ≡ true → All IsByte bs
unfolding all_bytes
all_bytes-All [] h = tt
all_bytes-All (b ∷ bs) h = (ground arith, all_bytes-All bs (ground arith))

unfoldable pub fits : Claim → Bool
unfolding all_bytes
fits c =
    ltb c.chain_id (2 ^ 256)
    && length c.attester == 20
    && all_bytes c.attester
    && length c.beneficiary == 20
    && all_bytes c.beneficiary
    && ltb c.amount (2 ^ 128)
    && ltb c.epoch (2 ^ 64)

fits-IsClaim : (c : Claim) → fits c ≡ true → IsClaim c
unfolding fits
fits-IsClaim c h = record {
  chain_fits = ground arith;
  attester_size = ground arith;
  attester_bytes = all_bytes-All c.attester (ground arith);
  beneficiary_size = ground arith;
  beneficiary_bytes = all_bytes-All c.beneficiary (ground arith);
  amount_fits = ground arith;
  epoch_fits = ground arith;
}

unfoldable pub encode_claim : Claim → Result Bytes
unfolding encoding fits
encode_claim c = if fits c then ok (encoding c) else raise value_error

encode_claim-ok :
    (c : Claim) {enc : Bytes} → encode_claim c ≡ ok enc → IsClaim c × (enc ≡ encoding c)
unfolding encode_claim
encode_claim-ok c h = elim (Bool-cases (fits c)) [
  | inl e ↦ (fits-IsClaim c e, sym (ok_injective (rw e at h)))
  | inr e ↦ cc (rw e at h)
]

abbrev pub strict : Web3
strict = record {
  to_checksum_address = λ j. as_str j >>= λ s. ok (lower s);
  abi_encode = λ chain_id a b amount epoch. encode_claim (record {
    chain_id = chain_id;
    attester = address_bytes a;
    beneficiary = address_bytes b;
    amount = amount;
    epoch = epoch;
  });
  keccak = digest;
  hex_prefixed = true;
}

pub strict-IsAbi : IsAbi strict
strict-IsAbi = record {
  address = address_bytes;
  encodes = λ chain_id a b amount epoch {enc} h. encode_claim-ok _ h;
}
