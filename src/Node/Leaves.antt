-- ===== src/Node/Leaves.antt =====
-- `compute_leaf` of node/verifier_node.py, and the loop over the published leaves.
pub mod Sound
pub mod Complete
use noethrion.Base.{ℕ, suc, ◌+◌, true, false, Option, none, some, List, [], ◌∷◌, if◌then◌else◌}
use noethrion.Base.Int.{ℤ, pos, negsuc}
use noethrion.Python.Result.{Result, ok, raise, malformed_batch, ◌>>=◌}
use noethrion.Python.Bytes.{Bytes, bytes_eq}
use noethrion.Python.Hex.{hex}
use noethrion.Python.Text.{Text, codes, lower, strip, is_empty, starts_0x, add_0x}
use noethrion.Python.Json.{Json, Fields, null, str, arr, obj, get, to_list}
use noethrion.Python.Number.{int_of}
use noethrion.Tool.Proof.{verify_merkle_proof_impl}
use noethrion.Node.{Web3, Detail, leaf_differs, proof_failed}

-- `x if x.startswith("0x") else "0x" + x`
unfoldable pub with_0x : Text → Text
with_0x s = if starts_0x s then s else add_0x s

-- A text that is not blank, or MalformedBatch.
unfoldable pub usable : Option Json → Result Text
usable (some (str s)) = if is_empty (strip s) then raise malformed_batch else ok s
usable _ = raise malformed_batch

-- `x.strip().lower()`, with the prefix
unfoldable pub normalize : Text → Text
unfolding with_0x
normalize s = with_0x (lower (strip s))

-- `d.get(key, [])`, which must be an array
unfoldable pub array_or_empty : Option Json → Result (List Json)
array_or_empty none = ok []
array_or_empty (some (arr js)) = ok (to_list js)
array_or_empty (some _) = raise malformed_batch

unfoldable pub required : Option Json → Result Json
required none = raise malformed_batch
required (some j) = ok j

-- `lf.get("amount_wei", lf.get("amount"))`, not None
unfoldable pub raw_amount : Fields → Result Json
raw_amount d = elim (get (codes "amount_wei") d) [
  | some null ↦ raise malformed_batch
  | some j ↦ ok j
  | none ↦ elim (get (codes "amount") d) [
    | none ↦ raise malformed_batch
    | some null ↦ raise malformed_batch
    | some j ↦ ok j
  ]
]

unfoldable pub nonnegative : ℤ → Result ℕ
nonnegative (pos n) = ok n
nonnegative (negsuc n) = raise malformed_batch

-- What became of a leaf: its amount, or the alarm.
pub data LeafCheck : Type 0 where
  passed : ℕ → LeafCheck
  failed : Detail → LeafCheck

module _ (W : Web3) (sha256 : Bytes → Bytes) where
  -- `HexBytes.hex()`
  unfoldable pub hexbytes_hex : Bytes → Text
  hexbytes_hex b = if W.hex_prefixed then add_0x (hex b) else hex b

  -- `compute_leaf`
  unfoldable pub compute_leaf : ℕ → Text → Json → ℕ → ℕ → Result Text
  unfolding hexbytes_hex with_0x
  compute_leaf chain_id attester beneficiary amount epoch = do
    a ← W.to_checksum_address (str attester)
    b ← W.to_checksum_address beneficiary
    enc ← W.abi_encode chain_id a b amount epoch
    ok (with_0x (hexbytes_hex (W.keccak enc)))

  module _ (attester_addr : Text) (chain_id epoch : ℕ) (merkle_root_onchain : Text) where
    -- the rest of the loop's body, from the recomputed leaf on
    unfoldable pub check_published : ℕ → Fields → ℕ → Text → Result LeafCheck
    check_published i d amount recomputed = do
      claimed_raw ← usable (get (codes "leaf") d)
      let claimed_leaf = normalize claimed_raw
      elim (bytes_eq (lower recomputed) claimed_leaf) [
        | false ↦ ok (failed (leaf_differs i recomputed claimed_leaf))
        | true ↦ do
          proof ← array_or_empty (get (codes "proof") d)
          (fine, m) ←
              verify_merkle_proof_impl sha256 W.keccak recomputed proof merkle_root_onchain
                (codes "keccak256")
          if fine then ok (passed amount) else ok (failed (proof_failed i m))
      ]

    -- the loop's body
    unfoldable pub check_leaf : ℕ → Json → Result LeafCheck
    unfolding check_published
    check_leaf i (obj d) = do
      beneficiary ← required (get (codes "beneficiary") d)
      raw ← raw_amount d
      signed ← int_of raw
      amount ← nonnegative signed
      recomputed ← compute_leaf chain_id attester_addr beneficiary amount epoch
      check_published i d amount recomputed
    check_leaf i _ = raise malformed_batch

    -- the loop: the sum of the amounts, or the first alarm
    unfoldable pub check_leaves : ℕ → ℕ → List Json → Result LeafCheck
    check_leaves i sum_amounts [] = ok (passed sum_amounts)
    check_leaves i sum_amounts (lf ∷ leaves) = do
      r ← check_leaf i lf
      elim r [
        | passed amount ↦ check_leaves (suc i) (sum_amounts + amount) leaves
        | failed detail ↦ ok (failed detail)
      ]
