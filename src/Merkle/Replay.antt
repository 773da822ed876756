-- ===== src/Merkle/Replay.antt =====
-- Replaying a proof with the sorted-pair hash, and the rows of a tree, apart from how they are built.
use noethrion.Base.{
  ℕ, zero, suc, ◌*◌, ◌≡◌, refl, ap, List, [], ◌∷◌, ◌++◌, arith, inl, inr, length, All, Bool-cases,
}
use mathlib.Core.List.{foldl, foldl-append}
use noethrion.Python.Bytes.{Bytes, IsByte, bytes_lt, bytes_lt_asym, bytes_lt_connex}
use noethrion.Merkle.{Proof, hash_pair}

-- What a hash function of this size promises: 32 bytes.
abbrev pub IsWord : Bytes → Type 0
IsWord x = (length x ≡ 32) × All IsByte x

pub record IsDigest (keccak256 : Bytes → Bytes) : Type 0 where
  pub word : (x : Bytes) → IsWord (keccak256 x)

-- Two inputs among those `Used`, with the same digest.
pub record Collision (keccak256 : Bytes → Bytes) (Used : Bytes → Type 0) : Type 0 where
  pub first : Bytes
  pub second : Bytes
  pub first_used : Used first
  pub second_used : Used second
  pub differ : ¬ (first ≡ second)
  pub same : keccak256 first ≡ keccak256 second

module _ (keccak256 : Bytes → Bytes) where
  unfoldable pub replay : Bytes → Proof → Bytes
  replay = foldl (hash_pair keccak256)

  pub replay-snoc :
      (x : Bytes) (p : Proof) (s : Bytes)
      → replay x (p ++ s ∷ []) ≡ hash_pair keccak256 (replay x p) s
  unfolding replay
  replay-snoc x p s = foldl-append (hash_pair keccak256) x p (s ∷ [])

  pub hash_pair_comm : (a b : Bytes) → hash_pair keccak256 a b ≡ hash_pair keccak256 b a
  unfolding hash_pair
  hash_pair_comm a b = elim (Bool-cases (bytes_lt a b)) [
    | inl lt ↦ rw (lt, bytes_lt_asym a b lt)
    | inr ge ↦ elim (Bool-cases (bytes_lt b a)) [
      | inl gt ↦ rw (ge, gt)
      | inr le ↦ rw (bytes_lt_connex a b ge le)
    ]
  ]

  pub hash_pair-IsWord : IsDigest keccak256 → (a b : Bytes) → IsWord (hash_pair keccak256 a b)
  unfolding hash_pair
  hash_pair-IsWord d a b = elim (Bool-cases (bytes_lt a b)) [
    | inl lt ↦ rw lt (d.word (a ++ b))
    | inr ge ↦ rw ge (d.word (b ++ a))
  ]

  -- The row above: the hash of each pair.
  unfoldable pub pair_up : List Bytes → List Bytes
  pair_up [] = []
  pair_up (x ∷ []) = []
  pair_up (x ∷ y ∷ row) = hash_pair keccak256 x y ∷ pair_up row

  -- The row `k` levels above.
  unfoldable pub row_above : ℕ → List Bytes → List Bytes
  row_above zero row = row
  row_above (suc k) row = pair_up (row_above k row)

  pub pair_up-IsWord : IsDigest keccak256 → (row : List Bytes) → All IsWord (pair_up row)
  unfolding pair_up
  pair_up-IsWord d [] = tt
  pair_up-IsWord d (x ∷ []) = tt
  pair_up-IsWord d (x ∷ y ∷ row) = (hash_pair-IsWord d x y, pair_up-IsWord d row)

  pub row_above-pair_up :
      (k : ℕ) (row : List Bytes) → row_above k (pair_up row) ≡ row_above (suc k) row
  unfolding row_above
  row_above-pair_up zero row = refl
  row_above-pair_up (suc k) row = ap pair_up (row_above-pair_up k row)

  pub length-pair_up : (m : ℕ) (row : List Bytes) → length row ≡ 2 * m → length (pair_up row) ≡ m
  unfolding pair_up
  length-pair_up m [] h = omega arith
  length-pair_up m (x ∷ []) h = absurd (omega arith)
  length-pair_up zero (x ∷ y ∷ row) h = absurd (omega arith)
  length-pair_up (suc m) (x ∷ y ∷ row) h = omega (arith, length-pair_up m row (omega arith))
