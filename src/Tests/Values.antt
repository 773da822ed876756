-- ===== src/Tests/Values.antt =====
-- Concrete stand-ins for the packages that the code calls, and three claims.
use noethrion.Base.{◌%◌, ◌^◌, ℕ, ◌+◌, ◌*◌, true, false, [], ◌∷◌, replicate, arith, if◌then◌else◌}
use noethrion.Python.Result.{ok, raise, invalid_signature}
use noethrion.Python.Bytes.{
  Bytes, bytes_eq, big_endian, from_bytes, length-big_endian, big_endian-IsByte,
}
use noethrion.Python.Json.{as_str}
use noethrion.Base.Int.{pos}
use noethrion.Leaf.{abi_encode_leaf}
use noethrion.Leaf.Encoding.{Claim, IsClaim}
use noethrion.Merkle.Replay.{IsDigest}
use noethrion.Crypto.{Crypto}
use noethrion.Node.{Web3}

mix : ℕ → Bytes → ℕ
mix acc [] = acc
mix acc (b ∷ x) = mix (acc * 0x1000193 + b) x

-- A polynomial in the bytes, modulo 2 ^ 256.
unfoldable pub digest : Bytes → Bytes
unfolding big_endian mix
digest x = big_endian 32 (mix 1 x)

pub digest-IsDigest : IsDigest digest
unfolding digest mix
digest-IsDigest = record {
  word = λ x. (length-big_endian 32 (mix 1 x), big_endian-IsByte 32 (mix 1 x));
}

abbrev pub alice : Claim
alice = record {
  chain_id = 31337;
  attester = replicate 20 0xe7;
  beneficiary = replicate 20 0xf3;
  amount = 100;
  epoch = 1;
}

abbrev pub bob : Claim
bob = record alice { beneficiary = replicate 20 0x70; amount = 200 }

abbrev pub carol : Claim
carol = record alice { beneficiary = replicate 20 0x21; amount = 50 }

pub alice-IsClaim : IsClaim alice
alice-IsClaim = omega arith

pub bob-IsClaim : IsClaim bob
bob-IsClaim = omega arith

pub carol-IsClaim : IsClaim carol
carol-IsClaim = omega arith

-- Keys are numbers, all on P-256. A signature is good if r and s are both the key, modulo 2 ^ 256.
abbrev pub crypto : Crypto
crypto = record {
  Key = ℕ;
  load_pem_public_key = λ pem. ok (from_bytes pem);
  is_ec = λ key. true;
  is_p256 = λ key. true;
  encode_dss_signature = λ r s. r ∷ s ∷ [];
  verify = λ key der payload.
      if bytes_eq der (key % 2 ^ 256 ∷ key % 2 ^ 256 ∷ []) then ok tt else raise invalid_signature;
}

-- eth_abi as the contract has it: the builder's encoder.
abbrev pub web3 : Web3
web3 = record {
  to_checksum_address = as_str;
  abi_encode = λ chain_id attester beneficiary amount epoch.
      abi_encode_leaf (pos chain_id) attester beneficiary (pos amount) (pos epoch);
  keccak = digest;
  hex_prefixed = false;
}
