-- ===== src/Merkle/Complete.antt =====
-- `build_tree` (examples/lifecycle/03_build_merkle_tree.py) returns on every non-empty list of
-- leaves, and each proof that it returns leads from its leaf to the root.
use noethrion.Base.{
  ℕ, zero, suc, ◌+◌, ◌/◌, ◌^◌, ◌≤◌, ◌≡◌, refl, sym, ap, subst, ◌∙◌, List, [], ◌∷◌, ◌++◌, arith,
  length, length-append, replicate, All, All-append, map, append_assoc,
}
use noethrion.Python.Result.{Result, ok}
use noethrion.Python.Bytes.{Bytes}
use noethrion.Merkle.{Proof, last_or, not_power_of_two, range_from, pad, build_levels, build_tree}
use noethrion.Merkle.PowerOfTwo.{pow2_pos}
use noethrion.Merkle.Replay.{
  IsWord, IsDigest, replay, pair_up, row_above, row_above-pair_up, pair_up-IsWord, length-pair_up,
}
use noethrion.Merkle.Padding.{Padded, pad-Padded}
use noethrion.Merkle.Level.{
  IsPaired-length, get_elem?-append_left, get_elem?-append_end, Leads, AllAt, pair_level-AllAt,
}

-- The last leaf is a word too.
last_or-IsWord : (x : Bytes) (xs : List Bytes) → IsWord x → All IsWord xs → IsWord (last_or x xs)
unfolding last_or
last_or-IsWord x [] h hs = h
last_or-IsWord x (y ∷ xs) h hs = last_or-IsWord y xs hs.0 hs.1

replicate-IsWord : (n : ℕ) (x : Bytes) → IsWord x → All IsWord (replicate n x)
replicate-IsWord zero x h = tt
replicate-IsWord (suc n) x h = (h, replicate-IsWord n x h)

module _ (keccak256 : Bytes → Bytes) where
  -- Each proof leads from its leaf to the root, side by side.
  abbrev pub AllLead : ℕ → Bytes → List Bytes → List Proof → Type 0
  AllLead depth root [] [] = Unit
  AllLead depth root (l ∷ ls) (p ∷ ps) = Leads keccak256 depth l p root × AllLead depth root ls ps
  AllLead depth root _ _ = ⊥

  -- A tree over the padded leaves: its root is the single entry of the top row.
  pub record IsTree (padded leaves : List Bytes) (r : Result (Bytes × List Proof)) : Type 0 where
    pub root : Bytes
    pub proofs : List Proof
    pub height : ℕ
    pub returns : r ≡ ok (root, proofs)
    pub size : length padded ≡ 2 ^ height
    pub top : row_above keccak256 height padded ≡ root ∷ []
    pub word : IsWord root
    pub lead : AllLead height root leaves proofs

  AllLead-AllAt :
      (root : Bytes) (depth : ℕ) (leaves : List Bytes) (proofs : List Proof) (cur : List ℕ)
      → AllAt keccak256 (root ∷ []) depth leaves proofs cur
      → AllLead depth root leaves proofs
  AllLead-AllAt root depth [] [] cur h = tt
  AllLead-AllAt root depth [] (p ∷ ps) cur h = elim h [ ]
  AllLead-AllAt root depth (l ∷ ls) [] cur h = elim h [ ]
  AllLead-AllAt root depth (l ∷ ls) (p ∷ ps) [] h = elim h [ ]
  AllLead-AllAt root depth (l ∷ ls) (p ∷ ps) (zero ∷ cs) (h, hs) =
      let same : h.entry ≡ root = cc h.found in
      (rw same at h.leads, AllLead-AllAt root depth ls ps cs hs)
  AllLead-AllAt root depth (l ∷ ls) (p ∷ ps) (suc c ∷ cs) (h, hs) = cc h.found

  -- The level loop from a row of 2 ^ k entries, `depth` rows above the leaves.
  pub record IsTop (k depth : ℕ) (row leaves : List Bytes) (r : Result (Bytes × List Proof))
      : Type 0 where
    pub root : Bytes
    pub proofs : List Proof
    pub returns : r ≡ ok (root, proofs)
    pub top : row_above keccak256 k row ≡ root ∷ []
    pub lead : AllLead (depth + k) root leaves proofs

  build_levels-IsTop :
      (d : IsDigest keccak256) (k rounds depth : ℕ) (row leaves : List Bytes) (proofs : List Proof)
      (cur : List ℕ)
      → length row ≡ 2 ^ k
      → k ≤ rounds
      → All IsWord row
      → AllAt keccak256 row depth leaves proofs cur
      → IsTop k depth row leaves (build_levels keccak256 rounds row proofs cur)
  unfolding build_levels row_above
  build_levels-IsTop d k rounds depth [] leaves proofs cur size enough words h =
      absurd (omega (arith, pow2_pos k))
  build_levels-IsTop d zero rounds depth (x ∷ []) leaves proofs cur size enough words h =
      let none : depth + 0 ≡ depth = omega arith in
      record {
        root = x;
        proofs = proofs;
        returns = refl;
        top = refl;
        lead = rw none (AllLead-AllAt x depth leaves proofs cur h);
      }
  build_levels-IsTop d (suc k) rounds depth (x ∷ []) leaves proofs cur size enough words h =
      absurd (omega (arith, pow2_pos k))
  build_levels-IsTop d zero rounds depth (x ∷ y ∷ row) leaves proofs cur size enough words h =
      absurd (omega arith)
  build_levels-IsTop d (suc k) zero depth (x ∷ y ∷ row) leaves proofs cur size enough words h =
      absurd (omega arith)
  build_levels-IsTop d (suc k) (suc rounds) depth (x ∷ y ∷ row) leaves proofs cur size enough words
        h =
      let whole = x ∷ y ∷ row in
      let r =
        pair_level-AllAt keccak256 whole depth leaves proofs cur
          (IsPaired-length (2 ^ k) whole (omega arith)) words h in
      let t =
        build_levels-IsTop d k rounds (suc depth) (pair_up keccak256 whole) leaves r.proofs
          (map (λ c. c / 2) cur) (length-pair_up keccak256 (2 ^ k) whole (omega arith))
          (omega arith) (pair_up-IsWord keccak256 d whole) r.at in
      let up : suc depth + k ≡ depth + suc k = omega arith in
      rw r.returns (record {
        root = t.root;
        proofs = t.proofs;
        returns = t.returns;
        top = sym (row_above-pair_up keccak256 k whole) ∙ t.top;
        lead = rw up at t.lead;
      })

  -- At the start every leaf stands at its own index and every proof is empty.
  AllAt-start :
      (front leaves back : List Bytes) (n : ℕ)
      → length leaves ≤ n
      → AllAt keccak256
          (front ++ leaves ++ back)
          0
          leaves
          (map (λ _. []) leaves)
          (range_from (length front) n)
  unfolding range_from replay
  AllAt-start front [] back n h = tt
  AllAt-start front (l ∷ ls) back zero h = absurd (omega arith)
  AllAt-start front (l ∷ ls) back (suc n) h =
      let rest = AllAt-start (front ++ l ∷ []) ls back n (omega arith) in
      let next : length (front ++ l ∷ []) ≡ suc (length front) =
        omega (arith, length-append front (l ∷ [])) in
      (
        record {
          entry = l;
          found =
              get_elem?-append_left (front ++ l ∷ ls) back (length front)
                (get_elem?-append_end front ls l);
          leads = record { size = refl; words = tt; path = refl };
        },
        rw (next, append_assoc front (l ∷ []) ls) at rest,
      )

  height-le : (k : ℕ) → k ≤ 2 ^ k
  height-le zero = omega arith
  height-le (suc k) = omega (arith, height-le k, pow2_pos k)

  -- The padded row, read off its shape.
  Padded-AllAt :
      {leaves padded : List Bytes}
      → Padded leaves padded
      → AllAt keccak256 padded 0 leaves (map (λ _. []) leaves) (range_from 0 (length padded))
  Padded-AllAt {leaves} {padded} p =
      let filling = replicate p.extra (last_or [] leaves) in
      let many : length leaves ≤ length padded =
        omega (arith, ap (λ (l : List Bytes). length l) p.shape, length-append leaves filling) in
      subst
        (λ row. AllAt keccak256 row 0 leaves (map (λ _. []) leaves) (range_from 0 (length padded)))
        (sym p.shape) (AllAt-start [] leaves filling (length padded) many)

  Padded-IsWord :
      {leaves padded : List Bytes}
      → Padded leaves padded
      → All IsWord leaves
      → IsWord (last_or [] leaves)
      → All IsWord padded
  Padded-IsWord {leaves} p words last =
      rw p.shape
        (All-append IsWord leaves _ words (replicate-IsWord p.extra (last_or [] leaves) last))

  row_above-IsWord :
      IsDigest keccak256
      → (k : ℕ) (row : List Bytes) → All IsWord row
      → All IsWord (row_above keccak256 k row)
  unfolding row_above
  row_above-IsWord d zero row h = h
  row_above-IsWord d (suc k) row h = pair_up-IsWord keccak256 d (row_above keccak256 k row)

  from_leaves :
      (k : ℕ) (root : Bytes) (leaves : List Bytes) (proofs : List Proof)
      → AllLead (0 + k) root leaves proofs
      → AllLead k root leaves proofs
  from_leaves k root leaves proofs h =
      let none : 0 + k ≡ k = omega arith in subst (λ depth. AllLead depth root leaves proofs) none h

  abbrev pub padded_leaves : List Bytes → List Bytes
  padded_leaves leaves = pad (length leaves) leaves

  build_tree_pair :
      IsDigest keccak256
      → (x y : Bytes) (rest : List Bytes) → All IsWord (x ∷ y ∷ rest)
      → IsTree (padded_leaves (x ∷ y ∷ rest)) (x ∷ y ∷ rest) (build_tree keccak256 (x ∷ y ∷ rest))
  unfolding build_tree last_or
  build_tree_pair d x y rest words =
      let leaves = x ∷ y ∷ rest in
      let padded = padded_leaves leaves in
      let (p, bound) = pad-Padded leaves (omega arith) in
      let last = last_or-IsWord x (y ∷ rest) words.0 words.1 in
      let t =
        build_levels-IsTop d p.height (length padded) 0 padded leaves (map (λ _. []) leaves)
          (range_from 0 (length padded)) p.size (omega (arith, height-le p.height, p.size))
          (Padded-IsWord p words last) (Padded-AllAt p) in
      record {
        root = t.root;
        proofs = t.proofs;
        height = p.height;
        returns = t.returns;
        size = p.size;
        top = t.top;
        word = (rw t.top at (row_above-IsWord d p.height padded (Padded-IsWord p words last))).0;
        lead = from_leaves p.height t.root leaves t.proofs t.lead;
      }

  -- On one leaf the loop would stop at once, so that the early return is the same tree.
  build_tree_one : (x : Bytes) → IsWord x → IsTree (x ∷ []) (x ∷ []) (build_tree keccak256 (x ∷ []))
  unfolding build_tree row_above replay
  build_tree_one x word = record {
    root = x;
    proofs = [] ∷ [];
    height = 0;
    returns = refl;
    size = refl;
    top = refl;
    word = word;
    lead = (record { size = refl; words = tt; path = refl }, tt);
  }

  pub build_tree-IsTree :
      IsDigest keccak256
      → (x : Bytes) (rest : List Bytes) → All IsWord (x ∷ rest)
      → IsTree (padded_leaves (x ∷ rest)) (x ∷ rest) (build_tree keccak256 (x ∷ rest))
  build_tree-IsTree d x [] words = unfold pad not_power_of_two in build_tree_one x words.0
  build_tree-IsTree d x (y ∷ rest) words = build_tree_pair d x y rest words
