-- ===== src/Publish.antt =====
-- `main` of examples/lifecycle/03_build_merkle_tree.py: the batch that it publishes.
pub mod Accepted
pub mod Sample
use noethrion.Base.{ℕ, ◌+◌, ◌*◌, ◌^◌, true, false, Option, none, some, List, [], ◌∷◌, map}
use noethrion.Base.Int.{ℤ, pos}
use noethrion.Python.Result.{Result, ok, raise, index_error, traverse, ◌>>=◌}
use noethrion.Python.Bytes.{Bytes}
use noethrion.Python.Text.{Text, codes, is_empty}
use noethrion.Python.Number.{int_of_text}
use noethrion.Python.Json.{Json, Fields, str, int, arr, obj, field, end, from_list}
use noethrion.Leaf.{leaf_hash}
use noethrion.Merkle.{Proof, build_tree}
use noethrion.Tool.Proof.Verdict.{word_text, word_json}

-- An item of `LEAVES_INPUT`.
pub record Entry : Type 0 where
  pub beneficiary : Text
  pub amount_wei : ℕ

-- `sum(x["amount_wei"] for x in entries)`
unfoldable pub total_wei : List Entry → ℕ
total_wei [] = 0
total_wei (x ∷ entries) = x.amount_wei + total_wei entries

abbrev pub entry_fields : Entry → Bytes → Proof → Fields
entry_fields x leaf proof = field (codes "beneficiary") (str x.beneficiary) (
    field (codes "amount_wei") (int (pos x.amount_wei)) (
      field (codes "leaf") (str (word_text leaf))
        (field (codes "proof") (arr (from_list (map word_json proof))) end)))

-- The items of `"leaves"`; `leaves[i]` and `proofs[i]` raise where there is no such item.
unfoldable pub published_leaves : List Entry → List Bytes → List Proof → Result (List Json)
published_leaves [] leaves proofs = ok []
published_leaves (x ∷ entries) (leaf ∷ leaves) (proof ∷ proofs) = do
  rest ← published_leaves entries leaves proofs
  ok (obj (entry_fields x leaf proof) ∷ rest)
published_leaves (x ∷ entries) _ _ = raise index_error

abbrev pub document : ℕ → ℕ → Bytes → List Json → Fields
document epoch total root leaves = field (codes "epoch") (int (pos epoch)) (
    field (codes "totalKwh") (int (pos total)) (
      field (codes "root") (str (word_text root))
        (field (codes "leaves") (arr (from_list leaves)) end)))

-- The sample batch, `EPOCH` and `LEAVES_INPUT`.
abbrev pub sample : List Entry
sample =
    record {
      beneficiary = codes "0xf39Fd6e51aad88F6F4ce6aB8827279cffFb92266";
      amount_wei = 100 * 10 ^ 18;
    }
    ∷ record {
      beneficiary = codes "0x70997970C51812dc3A010C7d01b50e0d17dc79C8";
      amount_wei = 200 * 10 ^ 18;
    }
    ∷ record {
      beneficiary = codes "0x3C44CdDdB6a900fa2b585dd299e03d12FA4293BC";
      amount_wei = 150 * 10 ^ 18;
    }
    ∷ []

-- `int(os.environ.get("CHAIN_ID", "31337"))`
unfoldable pub chain_id_of : (Text → Option Text) → Result ℤ
chain_id_of environ =
    int_of_text (elim (environ (codes "CHAIN_ID")) [ none ↦ codes "31337" | some s ↦ s ])

-- What opening batch.json for writing, and writing the object to it, come to.
pub record Output : Type 0 where
  pub opens : Result (Unit {0})
  pub dumps : Result (Unit {0})

-- batch.json after a run: as before, emptied and written in part, or holding the object.
pub data BatchFile : Type 0 where
  unchanged cut_short : BatchFile
  written : Fields → BatchFile

unfoldable pub write_batch : Output → Fields → BatchFile × Result ℕ
write_batch out batch = elim out.opens [
  | raise e ↦ (unchanged, raise e)
  | ok u ↦ elim out.dumps [ raise e ↦ (cut_short, raise e) | ok v ↦ (written batch, ok 0) ]
]

module _ (keccak256 : Bytes → Bytes) where
  -- From the entries to the object that is written to batch.json.
  unfoldable pub batch_of : ℤ → Text → ℕ → List Entry → Result Fields
  batch_of chain_id attester_addr epoch entries = do
    leaves ←
        traverse
          (λ (x : Entry).
            leaf_hash keccak256 chain_id attester_addr x.beneficiary (pos x.amount_wei) (pos epoch))
          entries
    (root, proofs) ← build_tree keccak256 leaves
    items ← published_leaves entries leaves proofs
    ok (document epoch (total_wei entries) root items)

  -- `main`, on the environment's variables: batch.json, and the exit code.
  unfoldable pub main : (Text → Option Text) → Output → BatchFile × Result ℕ
  unfolding batch_of chain_id_of write_batch
  main environ out = elim (chain_id_of environ) [
    | raise e ↦ (unchanged, raise e)
    | ok chain_id ↦ elim (environ (codes "ATTESTER")) [
      | none ↦ (unchanged, ok 2)
      | some attester_addr ↦ elim (is_empty attester_addr) [
        | true ↦ (unchanged, ok 2)
        | false ↦ elim (batch_of chain_id attester_addr 1 sample) [
          | raise e ↦ (unchanged, raise e)
          | ok batch ↦ write_batch out batch
        ]
      ]
    ]
  ]
