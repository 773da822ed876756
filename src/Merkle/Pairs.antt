-- ===== src/Merkle/Pairs.antt =====
-- What a hash of a pair (`hash_pair`) shows of the pair, up to a collision of the hash.
use mathlib.Core.List.{Memᴰ as MemD}
use native.Mathlib.Decide.{ℕ_discrete}
use noethrion.Base.{
  ◌≡◌, ◌≢◌, refl, sym, ap, ◌∙◌, ◌⊎◌, inl, inr, List, [], ◌∷◌, ◌++◌, arith, length, length-append,
  append-split, if◌then◌else◌, Bool-cases,
}
use noethrion.Python.Bytes.{Bytes, bytes_lt}
use noethrion.Merkle.{hash_pair}
use noethrion.Merkle.Replay.{Collision, pair_up}

abbrev pub Is32 : Bytes → Type 0
Is32 x = length x ≡ 32

pub Bytes-discrete : Discrete Bytes
Bytes-discrete = hlevel ℕ_discrete

-- The pair in the order in which it is hashed.
unfoldable pub sorted_pair : Bytes → Bytes → Bytes
sorted_pair a b = if bytes_lt a b then a ++ b else b ++ a

length-sorted_pair : (a b : Bytes) → Is32 a → Is32 b → length (sorted_pair a b) ≡ 64
unfolding sorted_pair
length-sorted_pair a b ha hb = elim (Bool-cases (bytes_lt a b)) [
  | inl lt ↦ rw lt (omega (arith, length-append a b))
  | inr ge ↦ rw ge (omega (arith, length-append b a))
]

-- The order is lost, the members are not.
sorted_pair_injective :
    (a b c d : Bytes)
    → Is32 a
    → Is32 b
    → Is32 c
    → Is32 d
    → sorted_pair a b ≡ sorted_pair c d
    → (a ≡ c) ⊎ (a ≡ d)
unfolding sorted_pair
sorted_pair_injective a b c d ha hb hc hd e = elim (Bool-cases (bytes_lt a b)) [
  | inl p ↦ elim (Bool-cases (bytes_lt c d)) [
    | inl q ↦ inl (append-split a b c d (omega arith) (rw (p, q) at e)).0
    | inr q ↦ inr (append-split a b d c (omega arith) (rw (p, q) at e)).0
  ]
  | inr p ↦ elim (Bool-cases (bytes_lt c d)) [
    | inl q ↦ inr (append-split b a c d (omega arith) (rw (p, q) at e)).1
    | inr q ↦ inl (append-split b a d c (omega arith) (rw (p, q) at e)).1
  ]
]

-- The inputs of the hash for a row of pairs.
unfoldable pub pair_inputs : List Bytes → List Bytes
pair_inputs [] = []
pair_inputs (x ∷ []) = []
pair_inputs (x ∷ y ∷ row) = sorted_pair x y ∷ pair_inputs row

module _ (keccak256 : Bytes → Bytes) (Used : Bytes → Type 0) where
  hash_pair-sorted : (a b : Bytes) → hash_pair keccak256 a b ≡ keccak256 (sorted_pair a b)
  unfolding hash_pair sorted_pair
  hash_pair-sorted a b = elim (Bool-cases (bytes_lt a b)) [ inl p ↦ rw p | inr p ↦ rw p ]

  -- Inputs of one digest are equal, or collide.
  pub same_or_Collision :
      (x y : Bytes)
      → Used x
      → Used y
      → keccak256 x ≡ keccak256 y
      → (x ≡ y) ⊎ Collision keccak256 Used
  same_or_Collision x y ux uy e = elim (Bytes-discrete x y) [
    | yes p ↦ inl p
    | no n ↦
        inr (record {
          first = x;
          second = y;
          first_used = ux;
          second_used = uy;
          differ = n;
          same = e;
        })
  ]

  -- A digest of something that is not 64 bytes long is no hash of a pair.
  pub pair-Collision :
      (e a b : Bytes)
      → Used e
      → Used (sorted_pair a b)
      → length e ≢ 64
      → Is32 a
      → Is32 b
      → keccak256 e ≡ hash_pair keccak256 a b
      → Collision keccak256 Used
  pair-Collision e a b ue up n ha hb p = record {
    first = e;
    second = sorted_pair a b;
    first_used = ue;
    second_used = up;
    differ = λ q. n (ap (λ (l : Bytes). length l) q ∙ length-sorted_pair a b ha hb);
    same = p ∙ hash_pair-sorted a b;
  }

  pub pair_members :
      (a b c d : Bytes)
      → Used (sorted_pair a b)
      → Used (sorted_pair c d)
      → Is32 a
      → Is32 b
      → Is32 c
      → Is32 d
      → hash_pair keccak256 a b ≡ hash_pair keccak256 c d
      → ((a ≡ c) ⊎ (a ≡ d)) ⊎ Collision keccak256 Used
  pair_members a b c d uab ucd ha hb hc hd e =
      elim (same_or_Collision (sorted_pair a b) (sorted_pair c d) uab ucd
        (sym (hash_pair-sorted a b) ∙ e ∙ hash_pair-sorted c d)) [
          | inl p ↦ inl (sorted_pair_injective a b c d ha hb hc hd p)
          | inr c ↦ inr c
        ]

module _ (keccak256 : Bytes → Bytes) where
  -- An entry of the row above is the hash of two entries of the row.
  pub MemD-pair_up :
      (row : List Bytes) {z : Bytes}
      → MemD z (pair_up keccak256 row)
      → (a b : Bytes) × (z ≡ hash_pair keccak256 a b)
        × MemD a row
        × MemD b row
        × MemD (sorted_pair a b) (pair_inputs row)
  unfolding pair_up pair_inputs
  MemD-pair_up [] m = elim m [ ]
  MemD-pair_up (x ∷ []) m = elim m [ ]
  MemD-pair_up (x ∷ y ∷ row) (MemD.head e) =
      (x, y, e, MemD.head refl, MemD.tail (MemD.head refl), MemD.head refl)
  MemD-pair_up (x ∷ y ∷ row) (MemD.tail m) =
      let (a, b, e, p, q, u) = MemD-pair_up row m in
      (a, b, e, MemD.tail (MemD.tail p), MemD.tail (MemD.tail q), MemD.tail u)
