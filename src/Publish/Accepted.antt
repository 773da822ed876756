-- ===== src/Publish/Accepted.antt =====
-- An honest batch of `main` (examples/lifecycle/03_build_merkle_tree.py) under the node
-- (node/verifier_node.py).
pub mod Share
pub mod Document
pub mod Epoch
use noethrion.Base.{ℕ, ◌≡◌, refl, ap, ◌∙◌, true, some, List, [], map, arith, length, All}
use noethrion.Base.Int.{pos}
use noethrion.Python.Result.{ok, ◌>>=◌, >>=-ok}
use noethrion.Python.Bytes.{Bytes, IsByte, bytes_eq, bytes_eq_refl}
use noethrion.Python.Text.{Text, codes, lower, strip, is_empty, starts_0x, lower-add_0x, lower-hex}
use noethrion.Python.Split.{strip-id}
use noethrion.Python.Json.{Json, str, int, arr, obj, get, from_list, to_list-from_list}
use noethrion.Python.Number.{int_of}
use noethrion.Leaf.Encoding.{Claim, IsClaim, encoding}
use noethrion.Leaf.Casing.{IsWritten}
use noethrion.Merkle.{Proof}
use noethrion.Merkle.Replay.{IsWord, IsDigest, replay}
use noethrion.Tool.Proof.{verify_merkle_proof_impl, proof_ok}
use noethrion.Tool.Proof.Verdict.{word_text, word_json, verify_merkle_proof_impl-replay}
use noethrion.Tool.Commands.Argument.{word_text-IsPlain, plain_parts}
use noethrion.Node.{Web3}
use noethrion.Node.Abi.{with_0x-hexbytes_hex}
use noethrion.Node.Leaves.{
  passed, with_0x, usable, normalize, array_or_empty, required, raw_amount, nonnegative,
  compute_leaf, check_published, check_leaf,
}
use noethrion.Publish.{Entry, entry_fields}

-- `to_checksum_address` takes addresses in any case to one form, and `abi_encode` takes claims to the
-- contract's encoding.
pub record IsEncoder (W : Web3) : Type 0 where
  pub checksum : Bytes → Text
  pub checksums :
      (t : Text) (a : Bytes)
      → length a ≡ 20
      → All IsByte a
      → IsWritten t a
      → W.to_checksum_address (str t) ≡ ok (checksum a)
  pub encodes :
      (c : Claim)
      → IsClaim c
      → W.abi_encode c.chain_id (checksum c.attester) (checksum c.beneficiary) c.amount c.epoch
        ≡ ok (encoding c)

pub lower-word_text : (w : Bytes) → IsWord w → lower (word_text w) ≡ word_text w
lower-word_text w h = rw (lower-add_0x, lower-hex w h.1)

strip-word_text : (w : Bytes) → IsWord w → strip (word_text w) ≡ word_text w
strip-word_text w h = strip-id (word_text w) (plain_parts (word_text w) (word_text-IsPlain w h)).0

pub usable-word_text : (w : Bytes) → IsWord w → usable (some (str (word_text w))) ≡ ok (word_text w)
unfolding usable is_empty
usable-word_text w h = rw (strip-word_text w h)

pub normalize-word_text : (w : Bytes) → IsWord w → normalize (word_text w) ≡ word_text w
unfolding normalize with_0x starts_0x
normalize-word_text w h = rw (strip-word_text w h, lower-word_text w h)

module _ (x : Entry) (leaf : Bytes) (proof : Proof) where
  get_beneficiary : get (codes "beneficiary") (entry_fields x leaf proof) ≡ some (str x.beneficiary)
  unfolding get bytes_eq
  get_beneficiary = refl

  get_leaf : get (codes "leaf") (entry_fields x leaf proof) ≡ some (str (word_text leaf))
  unfolding get bytes_eq
  get_leaf = refl

  get_proof :
      get (codes "proof") (entry_fields x leaf proof) ≡ some (arr (from_list (map word_json proof)))
  unfolding get bytes_eq
  get_proof = refl

  amount_published : raw_amount (entry_fields x leaf proof) ≡ ok (int (pos x.amount_wei))
  unfolding raw_amount get bytes_eq
  amount_published = refl

pub array-from_list : (js : List Json) → array_or_empty (some (arr (from_list js))) ≡ ok js
unfolding array_or_empty
array-from_list js = ap ok (to_list-from_list js)

module _ (W : Web3) (sha256 : Bytes → Bytes) (encoder : IsEncoder W) (d : IsDigest W.keccak) where
  pub compute_leaf-claim :
      (c : Claim)
      → IsClaim c
      → (attester beneficiary : Text) → IsWritten attester c.attester
      → IsWritten beneficiary c.beneficiary
      → compute_leaf W sha256 c.chain_id attester (str beneficiary) c.amount c.epoch
        ≡ ok (word_text (W.keccak (encoding c)))
  unfolding compute_leaf
  compute_leaf-claim c v attester beneficiary ha hb = rw (
    encoder.checksums attester c.attester v.attester_size v.attester_bytes ha,
    encoder.checksums beneficiary c.beneficiary v.beneficiary_size v.beneficiary_bytes hb,
    encoder.encodes c v,
    with_0x-hexbytes_hex W sha256 (W.keccak (encoding c)) (d.word (encoding c)),
  )

  proof_passes :
      (leaf root : Bytes) (proof : Proof)
      → IsWord leaf
      → IsWord root
      → All IsWord proof
      → replay W.keccak leaf proof ≡ root
      → verify_merkle_proof_impl sha256 W.keccak
          (word_text leaf)
          (map word_json proof)
          (word_text root)
          (codes "keccak256")
        ≡ ok (true, proof_ok)
  proof_passes leaf root proof hl hr hp path =
      verify_merkle_proof_impl-replay sha256 W.keccak leaf root proof hl hr hp
      ∙ rw (path, bytes_eq_refl root)

  leaf_matches :
      (leaf : Bytes)
      → IsWord leaf
      → bytes_eq (lower (word_text leaf)) (normalize (word_text leaf)) ≡ true
  leaf_matches leaf h =
      rw (lower-word_text leaf h, normalize-word_text leaf h) (bytes_eq_refl (word_text leaf))

  check_published-entry :
      (x : Entry) (attester : Text) (chain_id epoch i : ℕ) (leaf root : Bytes) (proof : Proof)
      → IsWord leaf
      → IsWord root
      → All IsWord proof
      → replay W.keccak leaf proof ≡ root
      → check_published W sha256 attester chain_id epoch
          (word_text root)
          i
          (entry_fields x leaf proof)
          x.amount_wei
          (word_text leaf)
        ≡ ok (passed x.amount_wei)
  unfolding check_published
  check_published-entry x attester chain_id epoch i leaf root proof hl hr hp path =
      let claimed = ap usable (get_leaf x leaf proof) ∙ usable-word_text leaf hl in
      let siblings =
        ap array_or_empty (get_proof x leaf proof) ∙ array-from_list (map word_json proof) in
      >>=-ok _ claimed
      ∙ rw (leaf_matches leaf hl)
          (>>=-ok _ siblings ∙ >>=-ok _ (proof_passes leaf root proof hl hr hp path))

  -- A published claim with a proof that leads to the root passes the loop's body.
  pub check_leaf-claim :
      (c : Claim) (attester beneficiary : Text) (i : ℕ) (proof : Proof) (root : Bytes)
      → IsClaim c
      → IsWritten attester c.attester
      → IsWritten beneficiary c.beneficiary
      → IsWord root
      → All IsWord proof
      → replay W.keccak (W.keccak (encoding c)) proof ≡ root
      → check_leaf W sha256 attester c.chain_id c.epoch (word_text root) i (
          obj (
            entry_fields
              (record { beneficiary = beneficiary; amount_wei = c.amount })
              (W.keccak (encoding c))
              proof))
        ≡ ok (passed c.amount)
  unfolding check_leaf required nonnegative int_of
  check_leaf-claim c attester beneficiary i proof root v ha hb hr hp path =
      let x : Entry = record { beneficiary = beneficiary; amount_wei = c.amount } in
      let leaf = W.keccak (encoding c) in
      >>=-ok _ (ap required (get_beneficiary x leaf proof))
      ∙ >>=-ok _ (amount_published x leaf proof)
      ∙ >>=-ok _ (compute_leaf-claim c v attester beneficiary ha hb)
      ∙ check_published-entry x attester c.chain_id c.epoch i leaf root proof (d.word (encoding c))
          hr hp path
