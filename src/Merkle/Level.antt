-- ===== src/Merkle/Level.antt =====
-- One round of the level loop of `build_tree` (examples/lifecycle/03_build_merkle_tree.py): the
-- proofs that are collected keep leading from their leaves to the entries of the level.
use noethrion.Base.{
  ℕ, zero, suc, ◌+◌, ◌*◌, ◌/◌, ◌<◌, ◌≡◌, refl, ap, ◌∙◌, true, false, some, List, [], ◌∷◌, ◌++◌,
  arith, if◌then◌else◌, ◌==◌, length, length-append, get_elem?, append_assoc, append-nil, All,
  All-append, map,
}
use noethrion.Python.Result.{Result, ok}
use noethrion.Python.Bytes.{Bytes}
use noethrion.Merkle.{Proof, record_siblings, hash_pair, pair_level}
use noethrion.Merkle.Replay.{IsWord, replay, replay-snoc, hash_pair_comm, pair_up}

-- A row that falls into pairs.
abbrev pub IsPaired : List Bytes → Type 0
IsPaired [] = Unit {0}
IsPaired (x ∷ []) = ⊥
IsPaired (x ∷ y ∷ row) = IsPaired row

pub IsPaired-length : (m : ℕ) (row : List Bytes) → length row ≡ 2 * m → IsPaired row
IsPaired-length m [] h = tt
IsPaired-length m (x ∷ []) h = absurd (omega arith)
IsPaired-length zero (x ∷ y ∷ row) h = absurd (omega arith)
IsPaired-length (suc m) (x ∷ y ∷ row) h = IsPaired-length m row (omega arith)

pub get_elem?-append_left {ℓ} :
    {A : Type ℓ} (xs ys : List A) (i : ℕ) {a : A}
    → get_elem? xs i ≡ some a
    → get_elem? (xs ++ ys) i ≡ some a
get_elem?-append_left [] ys i h = cc
get_elem?-append_left (x ∷ xs) ys zero h = h
get_elem?-append_left (x ∷ xs) ys (suc i) h = get_elem?-append_left xs ys i h

pub get_elem?-append_end {ℓ} :
    {A : Type ℓ} (xs ys : List A) (a : A) → get_elem? (xs ++ a ∷ ys) (length xs) ≡ some a
get_elem?-append_end [] ys a = refl
get_elem?-append_end (x ∷ xs) ys a = get_elem?-append_end xs ys a

module _ (keccak256 : Bytes → Bytes) where
  -- The proof `p` has `depth` siblings, each a word, and leads from `leaf` to `entry`.
  pub record Leads (depth : ℕ) (leaf : Bytes) (p : Proof) (entry : Bytes) : Type 0 where
    pub size : length p ≡ depth
    pub words : All IsWord p
    pub path : replay keccak256 leaf p ≡ entry

  -- The proof leads to the entry of the row at the index.
  pub record At (row : List Bytes) (depth : ℕ) (leaf : Bytes) (p : Proof) (cur : ℕ) : Type 0 where
    pub entry : Bytes
    pub found : get_elem? row cur ≡ some entry
    pub leads : Leads depth leaf p entry

  -- In the middle of a round, with `done` the new row so far and `rest` the entries still to be
  -- paired: the leaf's entry is still ahead, or its sibling has been recorded.
  pub data Midway (done rest : List Bytes) (depth : ℕ) (leaf : Bytes) (p : Proof) (cur : ℕ)
      : Type 0 where
    ahead :
        (k : ℕ)
        → cur ≡ 2 * length done + k
        → At rest depth leaf p k
        → Midway done rest depth leaf p cur
    passed :
        cur < 2 * length done
        → At done (suc depth) leaf p (cur / 2)
        → Midway done rest depth leaf p cur

  abbrev next_proof : ℕ → Bytes → Bytes → Proof → ℕ → Proof
  next_proof i left right p cur_idx =
      if cur_idx == i then p ++ right ∷ [] else if cur_idx == i + 1 then p ++ left ∷ [] else p

  Leads-snoc :
      {depth : ℕ} {leaf : Bytes} {p : Proof} {entry : Bytes} (s : Bytes)
      → IsWord s
      → Leads depth leaf p entry
      → Leads (suc depth) leaf (p ++ s ∷ []) (hash_pair keccak256 entry s)
  Leads-snoc {p = p} s w h = record {
    size = omega (arith, length-append p (s ∷ []), h.size);
    words = All-append IsWord p (s ∷ []) h.words (w, tt);
    path = replay-snoc keccak256 _ p s ∙ ap (λ t. hash_pair keccak256 t s) h.path;
  }

  Midway-next :
      (done rest : List Bytes) (left right : Bytes) (depth : ℕ) (leaf : Bytes) (p : Proof) (cur : ℕ)
      → IsWord left
      → IsWord right
      → Midway done (left ∷ right ∷ rest) depth leaf p cur
      → Midway
          (done ++ hash_pair keccak256 left right ∷ [])
          rest
          depth
          leaf
          (next_proof (2 * length done) left right p cur)
          cur
  Midway-next done rest left right depth leaf p cur wl wr (ahead zero e h) =
      let is_left : (cur == 2 * length done) ≡ true = ground arith in
      let half : cur / 2 ≡ length done = omega arith in
      let same : h.entry ≡ left = cc h.found in
      rw is_left (
        passed (omega (arith, length-append done (hash_pair keccak256 left right ∷ []))) (record {
          entry = hash_pair keccak256 left right;
          found = rw half (get_elem?-append_end done [] (hash_pair keccak256 left right));
          leads = rw same at (Leads-snoc right wr h.leads);
        }))
  Midway-next done rest left right depth leaf p cur wl wr (ahead (suc zero) e h) =
      let not_left : (cur == 2 * length done) ≡ false = ground arith in
      let is_right : (cur == 2 * length done + 1) ≡ true = ground arith in
      let half : cur / 2 ≡ length done = omega arith in
      let same : h.entry ≡ right = cc h.found in
      rw (not_left, is_right)
        (passed (omega (arith, length-append done (hash_pair keccak256 left right ∷ []))) (record {
          entry = hash_pair keccak256 left right;
          found = rw half (get_elem?-append_end done [] (hash_pair keccak256 left right));
          leads = rw (same, hash_pair_comm keccak256 right left) at (Leads-snoc left wl h.leads);
        }))
  Midway-next done rest left right depth leaf p cur wl wr (ahead (suc (suc k)) e h) =
      let not_left : (cur == 2 * length done) ≡ false = ground arith in
      let not_right : (cur == 2 * length done + 1) ≡ false = ground arith in
      rw (not_left, not_right)
        (ahead k (omega (arith, length-append done (hash_pair keccak256 left right ∷ [])))
          (record { entry = h.entry; found = h.found; leads = h.leads }))
  Midway-next done rest left right depth leaf p cur wl wr (passed e h) =
      let not_left : (cur == 2 * length done) ≡ false = ground arith in
      let not_right : (cur == 2 * length done + 1) ≡ false = ground arith in
      rw (not_left, not_right)
        (passed (omega (arith, length-append done (hash_pair keccak256 left right ∷ []))) (record {
          entry = h.entry;
          found = get_elem?-append_left done _ (cur / 2) h.found;
          leads = h.leads;
        }))

  -- The same for all leaves, side by side with their proofs and indices.
  abbrev pub AllMidway : List Bytes → List Bytes → ℕ → List Bytes → List Proof → List ℕ → Type 0
  AllMidway done rest depth [] [] cur = Unit
  AllMidway done rest depth (l ∷ ls) (p ∷ ps) (c ∷ cs) =
      Midway done rest depth l p c × AllMidway done rest depth ls ps cs
  AllMidway done rest depth _ _ _ = ⊥

  abbrev pub AllAt : List Bytes → ℕ → List Bytes → List Proof → List ℕ → Type 0
  AllAt row depth [] [] cur = Unit
  AllAt row depth (l ∷ ls) (p ∷ ps) (c ∷ cs) = At row depth l p c × AllAt row depth ls ps cs
  AllAt row depth _ _ _ = ⊥

  AllMidway-next :
      (done rest : List Bytes) (left right : Bytes) (depth : ℕ) (leaves : List Bytes)
      (proofs : List Proof) (cur : List ℕ)
      → IsWord left
      → IsWord right
      → AllMidway done (left ∷ right ∷ rest) depth leaves proofs cur
      → AllMidway
          (done ++ hash_pair keccak256 left right ∷ [])
          rest
          depth
          leaves
          (record_siblings (2 * length done) left right proofs cur)
          cur
  unfolding record_siblings
  AllMidway-next done rest left right depth [] [] cur wl wr h = tt
  AllMidway-next done rest left right depth [] (p ∷ ps) cur wl wr h = elim h [ ]
  AllMidway-next done rest left right depth (l ∷ ls) [] cur wl wr h = elim h [ ]
  AllMidway-next done rest left right depth (l ∷ ls) (p ∷ ps) [] wl wr h = elim h [ ]
  AllMidway-next done rest left right depth (l ∷ ls) (p ∷ ps) (c ∷ cs) wl wr (h, hs) = (
    Midway-next done rest left right depth l p c wl wr h,
    AllMidway-next done rest left right depth ls ps cs wl wr hs,
  )

  AllMidway-start :
      (row : List Bytes) (depth : ℕ) (leaves : List Bytes) (proofs : List Proof) (cur : List ℕ)
      → AllAt row depth leaves proofs cur
      → AllMidway [] row depth leaves proofs cur
  AllMidway-start row depth [] [] cur h = tt
  AllMidway-start row depth [] (p ∷ ps) cur h = elim h [ ]
  AllMidway-start row depth (l ∷ ls) [] cur h = elim h [ ]
  AllMidway-start row depth (l ∷ ls) (p ∷ ps) [] h = elim h [ ]
  AllMidway-start row depth (l ∷ ls) (p ∷ ps) (c ∷ cs) (h, hs) =
      (ahead c (omega arith) h, AllMidway-start row depth ls ps cs hs)

  Midway-end :
      {done : List Bytes} {depth : ℕ} {leaf : Bytes} {p : Proof} {cur : ℕ}
      → Midway done [] depth leaf p cur
      → At done (suc depth) leaf p (cur / 2)
  Midway-end (ahead k e h) = cc h.found
  Midway-end (passed e h) = h

  AllMidway-end :
      (done : List Bytes) (depth : ℕ) (leaves : List Bytes) (proofs : List Proof) (cur : List ℕ)
      → AllMidway done [] depth leaves proofs cur
      → AllAt done (suc depth) leaves proofs (map (λ c. c / 2) cur)
  AllMidway-end done depth [] [] cur h = tt
  AllMidway-end done depth [] (p ∷ ps) cur h = elim h [ ]
  AllMidway-end done depth (l ∷ ls) [] cur h = elim h [ ]
  AllMidway-end done depth (l ∷ ls) (p ∷ ps) [] h = elim h [ ]
  AllMidway-end done depth (l ∷ ls) (p ∷ ps) (c ∷ cs) (h, hs) =
      (Midway-end h, AllMidway-end done depth ls ps cs hs)

  -- What a round returns: the row above, and proofs that lead to it.
  pub record Round (row : List Bytes) (depth : ℕ) (leaves : List Bytes) (cur : List ℕ)
      (r : Result (List Bytes × List Proof)) : Type 0 where
    pub proofs : List Proof
    pub returns : r ≡ ok (row, proofs)
    pub at : AllAt row (suc depth) leaves proofs (map (λ c. c / 2) cur)

  pair_level-Midway :
      (rest done : List Bytes) (depth : ℕ) (leaves : List Bytes) (proofs : List Proof)
      (cur : List ℕ)
      → IsPaired rest
      → All IsWord rest
      → AllMidway done rest depth leaves proofs cur
      → Round
          (done ++ pair_up keccak256 rest)
          depth
          leaves
          cur
          (pair_level keccak256 (2 * length done) rest done proofs cur)
  unfolding pair_level pair_up
  pair_level-Midway [] done depth leaves proofs cur even words h = record {
    proofs = proofs;
    returns = rw append-nil;
    at = rw append-nil (AllMidway-end done depth leaves proofs cur h);
  }
  pair_level-Midway (x ∷ []) done depth leaves proofs cur even words h = elim even [ ]
  pair_level-Midway (x ∷ y ∷ rest) done depth leaves proofs cur even words h =
      let top = hash_pair keccak256 x y in
      let next : 2 * length done + 2 ≡ 2 * length (done ++ top ∷ []) =
        omega (arith, length-append done (top ∷ [])) in
      let r =
        pair_level-Midway rest (done ++ top ∷ []) depth leaves
          (record_siblings (2 * length done) x y proofs cur) cur even words.1.1
          (AllMidway-next done rest x y depth leaves proofs cur words.0 words.1.0 h) in
      rw next (rw (append_assoc done (top ∷ []) (pair_up keccak256 rest)) at r)

  -- On a row that falls into pairs a round returns, and its row is the row above.
  pub pair_level-AllAt :
      (row : List Bytes) (depth : ℕ) (leaves : List Bytes) (proofs : List Proof) (cur : List ℕ)
      → IsPaired row
      → All IsWord row
      → AllAt row depth leaves proofs cur
      → Round (pair_up keccak256 row) depth leaves cur (pair_level keccak256 0 row [] proofs cur)
  pair_level-AllAt row depth leaves proofs cur even words h =
      pair_level-Midway row [] depth leaves proofs cur even words
        (AllMidway-start row depth leaves proofs cur h)
