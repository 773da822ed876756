-- ===== src/Node/Abi.antt =====
-- What eth_abi and web3 promise of the leaf that `compute_leaf` (node/verifier_node.py) encodes, and
-- the text that it returns.
use noethrion.Base.{
  ℕ, ◌/◌, ◌%◌, ◌<◌, ◌≡◌, refl, sym, ap, ◌∙◌, true, false, ◌&&◌, [], ◌∷◌, arith, ◌==◌, Bool-cases,
  inl, inr,
}
use noethrion.Python.Result.{ok, >>=-eq-ok, ok_injective}
use noethrion.Python.Bytes.{Bytes}
use noethrion.Python.Hex.{hex, hex_digit}
use noethrion.Python.Text.{Text, starts_0x, add_0x}
use noethrion.Python.Json.{Json, str}
use noethrion.Leaf.Encoding.{Claim, IsClaim, encoding}
use noethrion.Merkle.Replay.{IsWord, IsDigest}
use noethrion.Tool.Proof.Verdict.{word_text}
use noethrion.Node.{Web3}
use noethrion.Node.Leaves.{with_0x, hexbytes_hex, compute_leaf}

-- `abi.encode` of uint256, address, address, uint128, uint64: a text has the bytes of an address, and
-- only values of these types are encoded.
pub record IsAbi (W : Web3) : Type 0 where
  pub address : Text → Bytes
  pub encodes :
      (chain_id : ℕ) (a b : Text) (amount epoch : ℕ) {enc : Bytes}
      → W.abi_encode chain_id a b amount epoch ≡ ok enc
      → IsClaim (record {
        chain_id = chain_id;
        attester = address a;
        beneficiary = address b;
        amount = amount;
        epoch = epoch;
      })
        × (enc
            ≡ encoding (record {
              chain_id = chain_id;
              attester = address a;
              beneficiary = address b;
              amount = amount;
              epoch = epoch;
            }))

starts_0x-hex : (w : Bytes) → IsWord w → starts_0x (hex w) ≡ false
unfolding starts_0x hex hex_digit
starts_0x-hex [] h = refl
starts_0x-hex (b ∷ w) h = second (hex_digit (b / 16)) (b % 16) (omega arith)
  where
    second : (c v : ℕ) → v < 16 → (c == b'0' && hex_digit v == b'x') ≡ false
    second c v h = ground arith

starts_0x-add_0x : (s : Text) → starts_0x (add_0x s) ≡ true
unfolding starts_0x
starts_0x-add_0x s = refl

module _ (W : Web3) (sha256 : Bytes → Bytes) where
  -- Whatever `HexBytes.hex()` writes, the text has one `0x` in front.
  pub with_0x-hexbytes_hex :
      (w : Bytes) → IsWord w → with_0x (hexbytes_hex W sha256 w) ≡ word_text w
  unfolding with_0x hexbytes_hex
  with_0x-hexbytes_hex w h = elim (Bool-cases W.hex_prefixed) [
    | inl e ↦ rw (e, starts_0x-add_0x (hex w))
    | inr e ↦ rw (e, starts_0x-hex w h)
  ]

  -- The claim whose leaf `compute_leaf` returns.
  pub record LeafOf (abi : IsAbi W) (chain_id : ℕ) (attester : Text) (beneficiary : Json)
      (amount epoch : ℕ) (t : Text) : Type 0 where
    pub claim : Claim
    pub valid : IsClaim claim
    pub checksummed_attester : Text
    pub checksummed : Text
    pub attester_read : W.to_checksum_address (str attester) ≡ ok checksummed_attester
    pub beneficiary_read : W.to_checksum_address beneficiary ≡ ok checksummed
    pub same_chain : claim.chain_id ≡ chain_id
    pub same_attester : claim.attester ≡ abi.address checksummed_attester
    pub same_beneficiary : claim.beneficiary ≡ abi.address checksummed
    pub same_amount : claim.amount ≡ amount
    pub same_epoch : claim.epoch ≡ epoch
    pub text : t ≡ word_text (W.keccak (encoding claim))

  pub compute_leaf-LeafOf :
      (abi : IsAbi W)
      → IsDigest W.keccak
      → (chain_id : ℕ) (attester : Text) (beneficiary : Json) (amount epoch : ℕ) {t : Text}
      → compute_leaf W sha256 chain_id attester beneficiary amount epoch ≡ ok t
      → LeafOf abi chain_id attester beneficiary amount epoch t
  unfolding compute_leaf
  compute_leaf-LeafOf abi d chain_id attester beneficiary amount epoch {t} h =
      let (a, ha, h₁) = >>=-eq-ok (W.to_checksum_address (str attester)) _ h in
      let (b, hb, h₂) = >>=-eq-ok (W.to_checksum_address beneficiary) _ h₁ in
      let (enc, he, h₃) = >>=-eq-ok (W.abi_encode chain_id a b amount epoch) _ h₂ in
      let (valid, same) = abi.encodes chain_id a b amount epoch he in
      record {
        claim = record {
          chain_id = chain_id;
          attester = abi.address a;
          beneficiary = abi.address b;
          amount = amount;
          epoch = epoch;
        };
        valid = valid;
        checksummed_attester = a;
        checksummed = b;
        attester_read = ha;
        beneficiary_read = hb;
        same_chain = refl;
        same_attester = refl;
        same_beneficiary = refl;
        same_amount = refl;
        same_epoch = refl;
        text =
            sym (ok_injective h₃)
            ∙ with_0x-hexbytes_hex (W.keccak enc) (d.word enc)
            ∙ ap (λ e. word_text (W.keccak e)) same;
      }
