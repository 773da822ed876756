-- ===== src/Merkle.antt =====
-- The sorted-pair Merkle tree of examples/lifecycle/03_build_merkle_tree.py: `hash_pair` and
-- `build_tree`. `keccak256` is the digest of pycryptodome, a parameter.
pub mod Replay
pub mod PowerOfTwo
pub mod Padding
pub mod Level
pub mod Complete
pub mod Pairs
pub mod Members
pub mod Path
pub mod Sound
pub mod Claims
use Prim.Native.Nat.{bit_and}
use noethrion.Base.{
  ℕ, zero, suc, ◌+◌, ◌-◌, ◌/◌, Bool, not, List, [], ◌∷◌, ◌++◌, map, ◌==◌, if◌then◌else◌, length,
}
use noethrion.Python.Result.{Result, ok, raise, value_error, index_error, recursion_error, ◌>>=◌}
use noethrion.Python.Bytes.{Bytes, bytes_lt}

abbrev pub Proof : Type 0
Proof = List Bytes

-- `list(range(i, i + n))`
unfoldable pub range_from : ℕ → ℕ → List ℕ
range_from i zero = []
range_from i (suc n) = i ∷ range_from (suc i) n

-- `padded[-1]`
unfoldable pub last_or : Bytes → List Bytes → Bytes
last_or d [] = d
last_or d (x ∷ xs) = last_or x xs

-- (n & (n - 1)) != 0
unfoldable pub not_power_of_two : ℕ → Bool
not_power_of_two n = not (bit_and n (n - 1) == 0)

-- The padding loop: the last leaf again until the length is a power of two. A round adds one leaf.
unfoldable pub pad : ℕ → List Bytes → List Bytes
pad zero padded = padded
pad (suc rounds) padded =
    let more = pad rounds (padded ++ last_or [] padded ∷ []) in
    if not_power_of_two (length padded) then more else padded

-- The inner loop over `zip(indices, next_indices)` at the pair `i`, `i + 1`. `indices` counts up
-- from 0, so the loop walks `proofs` and `next_indices` side by side.
unfoldable pub record_siblings : ℕ → Bytes → Bytes → List Proof → List ℕ → List Proof
record_siblings i left right [] cur = []
record_siblings i left right (p ∷ proofs) [] = p ∷ proofs
record_siblings i left right (p ∷ proofs) (cur_idx ∷ cur) =
    (if cur_idx == i then p ++ right ∷ [] else if cur_idx == i + 1 then p ++ left ∷ [] else p)
    ∷ record_siblings i left right proofs cur

module _ (keccak256 : Bytes → Bytes) where
  unfoldable pub hash_pair : Bytes → Bytes → Bytes
  hash_pair a b = if bytes_lt a b then keccak256 (a ++ b) else keccak256 (b ++ a)

  -- `for i in range(0, len(level), 2)`, from the entry `i` on: the new level and the proofs. An
  -- entry without a partner makes `level[i + 1]` raise IndexError.
  unfoldable pub pair_level :
      ℕ → List Bytes → List Bytes → List Proof → List ℕ → Result (List Bytes × List Proof)
  pair_level i [] new_level proofs cur = ok (new_level, proofs)
  pair_level i (left ∷ []) new_level proofs cur = raise index_error
  pair_level i (left ∷ right ∷ level) new_level proofs cur =
      pair_level (i + 2) level (new_level ++ hash_pair left right ∷ [])
        (record_siblings i left right proofs cur) cur

  -- `while len(level) > 1`, and `return level[0], proofs`. A round halves the level.
  unfoldable pub build_levels : ℕ → List Bytes → List Proof → List ℕ → Result (Bytes × List Proof)
  build_levels rounds [] proofs cur = raise index_error
  build_levels rounds (top ∷ []) proofs cur = ok (top, proofs)
  build_levels zero (x ∷ y ∷ level) proofs cur = raise recursion_error
  build_levels (suc rounds) (x ∷ y ∷ level) proofs cur = do
    (new_level, new_proofs) ← pair_level 0 (x ∷ y ∷ level) [] proofs cur
    build_levels rounds new_level new_proofs (map (λ c. c / 2) cur)

  unfoldable pub build_tree : List Bytes → Result (Bytes × List Proof)
  build_tree [] = raise value_error
  build_tree (leaf ∷ []) = ok (leaf, [] ∷ [])
  build_tree (x ∷ y ∷ rest) =
      let leaves = x ∷ y ∷ rest in
      let padded = pad (length leaves) leaves in
      build_levels (length padded) padded (map (λ _. []) leaves) (range_from 0 (length padded))
