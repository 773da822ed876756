-- ===== src/Tests/Vector.antt =====
-- The vector of node/_leaf_equiv_test.py.
use noethrion.Base.{◌*◌, ◌^◌, ◌≡◌, refl, ap, false, some, none, ◌++◌, replicate, [], ◌∷◌, arith}
use noethrion.Base.Int.{pos}
use noethrion.Python.Result.{ok, ◌>>=◌}
use noethrion.Python.Bytes.{Bytes}
use noethrion.Python.Hex.{hex, hex_digit}
use noethrion.Python.Text
use noethrion.Python.Bytes
use noethrion.Python.Hex
use noethrion.Leaf.Tool
use noethrion.Leaf.Tool.{checksum_case}
use noethrion.Leaf.Checksum.{eip55, addr_to_32-proposed}
use noethrion.Python.Text.{Text, removeprefix_0x, codes, lower, add_0x}
use noethrion.Python.Json.{as_str}
use noethrion.Leaf.{abi_encode_leaf}
use noethrion.Leaf.Encoding.{Claim, IsClaim, address_text, abi_encode_leaf-encoding}
use noethrion.Leaf.Casing.{IsWritten}
use noethrion.Leaf.AnyCase.{lower-IsWritten}
use noethrion.Node.{Web3}
use noethrion.Publish.Accepted.{IsEncoder}
use noethrion.LeafEquiv.{leaf_equiv_test}
use noethrion.LeafEquiv.Identical.{leaf_equiv_test-identical}
use noethrion.Tests.Values.{digest, digest-IsDigest, crypto}
use noethrion.Tests.CommandLine.{files}

abbrev pub vector : Claim
vector = record {
  chain_id = 31337;
  attester =
      0xe7 ∷ 0xf1 ∷ 0x72 ∷ 0x5e ∷ 0x77 ∷ 0x34 ∷ 0xce ∷ 0x28 ∷ 0x8f ∷ 0x83 ∷ 0x67 ∷ 0xe1 ∷ 0xbb
      ∷ 0x14 ∷ 0x3e ∷ 0x90 ∷ 0xbb ∷ 0x3f ∷ 0x05 ∷ 0x12 ∷ [];
  beneficiary =
      0xf3 ∷ 0x9f ∷ 0xd6 ∷ 0xe5 ∷ 0x1a ∷ 0xad ∷ 0x88 ∷ 0xf6 ∷ 0xf4 ∷ 0xce ∷ 0x6a ∷ 0xb8 ∷ 0x82
      ∷ 0x72 ∷ 0x79 ∷ 0xcf ∷ 0xff ∷ 0xb9 ∷ 0x22 ∷ 0x66 ∷ [];
  amount = 100 * 10 ^ 18;
  epoch = 1;
}

pub vector-IsClaim : IsClaim vector
vector-IsClaim = omega arith

abbrev pub attester_digits : Text
attester_digits = codes "e7f1725E7734CE288F8367e1Bb143E90bb3F0512"

abbrev pub beneficiary_digits : Text
beneficiary_digits = codes "f39Fd6e51aad88F6F4ce6aB8827279cffFb92266"

pub attester-IsWritten : IsWritten (add_0x attester_digits) vector.attester
unfolding lower hex hex_digit Text.lower_char Text.is_upper
attester-IsWritten = record { digits = attester_digits; prefixed = refl; same = refl }

pub beneficiary-IsWritten : IsWritten (add_0x beneficiary_digits) vector.beneficiary
unfolding lower hex hex_digit Text.lower_char Text.is_upper
beneficiary-IsWritten = record { digits = beneficiary_digits; prefixed = refl; same = refl }

-- Addresses are read in any case.
abbrev folding : Web3
folding = record {
  to_checksum_address = λ j. as_str j >>= λ s. ok (lower s);
  abi_encode = λ chain_id attester beneficiary amount epoch.
      abi_encode_leaf (pos chain_id) attester beneficiary (pos amount) (pos epoch);
  keccak = digest;
  hex_prefixed = false;
}

folding-IsEncoder : IsEncoder folding
unfolding as_str
folding-IsEncoder = record {
  checksum = address_text;
  checksums = λ t a size bytes h. ap ok (lower-IsWritten t a h);
  encodes = λ c v. abi_encode_leaf-encoding c v;
}

leaf_equiv_test-identical_example :
    leaf_equiv_test folding digest crypto files 31337
      (add_0x attester_digits)
      (add_0x beneficiary_digits)
      (100 * 10 ^ 18)
      1
      []
    ≡ ok 0
leaf_equiv_test-identical_example =
    leaf_equiv_test-identical folding digest crypto files folding-IsEncoder digest-IsDigest vector
      vector-IsClaim (add_0x attester_digits) (add_0x beneficiary_digits) [] attester-IsWritten
      beneficiary-IsWritten

-- Under this digest the vector's address is not the EIP-55 form.
abbrev proposed : Text
proposed = add_0x (checksum_case (hex (digest (hex vector.attester))) (hex vector.attester))

warned :
    Tool.addr_to_32 digest (add_0x attester_digits)
    ≡ ok (replicate 12 0 ++ vector.attester, some proposed)
unfolding Tool.addr_to_32 Tool.checksum_warning checksum_case Tool.high_digit digest lower
    Text.lower_char Text.upper_char Text.is_upper Text.is_lower Text.any Text.encode_ascii
    Text.removeprefix_0x hex hex_digit Hex.fromhex Hex.hex_value Hex.cons_byte Hex.is_ascii_space
    Bytes.bytes_eq Bytes.big_endian
warned = refl

addr_to_32-proposed_example :
    (Tool.addr_to_32 digest proposed ≡ ok (replicate 12 0 ++ vector.attester, none))
    × (proposed
        ≡ add_0x (
            eip55
              (digest (lower (removeprefix_0x (add_0x attester_digits))))
              (lower (removeprefix_0x (add_0x attester_digits)))))
addr_to_32-proposed_example =
    addr_to_32-proposed digest digest-IsDigest (add_0x attester_digits) warned
