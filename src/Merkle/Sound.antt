-- ===== src/Merkle/Sound.antt =====
-- What a proof shows: a record whose hash replays to the root of a tree is one of the records under
-- the tree, or two of the inputs hashed on the way collide. Of the hash only its size is assumed.
use mathlib.Core.List.{reverse, reverse-reverse, Memᴰ as MemD}
use noethrion.Base.{
  ℕ, zero, suc, ◌≡◌, ◌≢◌, refl, sym, subst, ◌∙◌, ◌⊎◌, inl, inr, List, [], ◌∷◌, arith, length, All,
  map,
}
use noethrion.Python.Result.{Result, ok}
use noethrion.Python.Bytes.{Bytes}
use noethrion.Merkle.{Proof, build_tree}
use noethrion.Merkle.Replay.{IsWord, IsDigest, Collision, replay, hash_pair-IsWord, row_above}
use noethrion.Merkle.Padding.{pad-Padded}
use noethrion.Merkle.Complete.{padded_leaves, build_tree-IsTree}
use noethrion.Merkle.Members.{MemD-last, MemD-padded}
use noethrion.Merkle.Pairs.{
  pair_inputs, Is32, same_or_Collision, pair-Collision, pair_members, MemD-pair_up,
}
use noethrion.Merkle.Path.{
  path_inputs, Hashed, recorded, shown, on_path, in_tree, climb, climb-Is32, Climbs, Climbs-path,
  replay-eq-climb, All-reverse,
}

root_unique :
    {r : Result (Bytes × List Proof)} {root root' : Bytes} {proofs proofs' : List Proof}
    → r ≡ ok (root, proofs)
    → r ≡ ok (root', proofs')
    → root ≡ root'
root_unique {r} p q = ground arith

module _ (keccak256 : Bytes → Bytes) (d : IsDigest keccak256) where
  row_above-Is32 :
      (k : ℕ) (row : List Bytes) {z : Bytes}
      → ((z : Bytes) → MemD z row → Is32 z)
      → MemD z (row_above keccak256 k row)
      → Is32 z
  unfolding row_above
  row_above-Is32 zero row h m = h _ m
  row_above-Is32 (suc k) row h m =
      let (a, b, e, p, q, u) = MemD-pair_up keccak256 (row_above keccak256 k row) m in
      rw e (hash_pair-IsWord keccak256 d a b).0

  -- `Flat Used z`: `z` is the digest of an input that is not 64 bytes long, as an encoded claim is.
  pub record Flat (Used : Bytes → Type 0) (z : Bytes) : Type 0 where
    pub input : Bytes
    pub used : Used input
    pub size : length input ≢ 64
    pub digest : keccak256 input ≡ z

  -- Down the tree along the proof, from an entry `k` rows above the leaves.
  climb-MemD :
      (Used : Bytes → Type 0) (k : ℕ) (row : List Bytes) (x : Bytes) (p : Proof)
      → ((j : ℕ) (z : Bytes) → MemD z (pair_inputs (row_above keccak256 j row)) → Used z)
      → ((z : Bytes) → MemD z row → Flat Used z × Is32 z)
      → Flat Used x
      → Is32 x
      → All Is32 p
      → Climbs keccak256 Used x p
      → MemD (climb keccak256 x p) (row_above keccak256 k row)
      → MemD x row ⊎ Collision keccak256 Used
  unfolding climb row_above
  climb-MemD Used zero row x [] rows flat fx hx hp up m = inl m
  climb-MemD Used zero row x (s ∷ p) rows flat fx hx hp up m =
      let f = (flat _ m).0 in
      inr (
        pair-Collision keccak256 Used f.input (climb keccak256 x p) s f.used up.0 f.size
          (climb-Is32 keccak256 d x p hx) hp.0 f.digest)
  climb-MemD Used (suc k) row x [] rows flat fx hx hp up m =
      let (a, b, e, ma, mb, mab) = MemD-pair_up keccak256 (row_above keccak256 k row) m in
      let words = λ (z : Bytes) (h : MemD z row). (flat z h).1 in
      inr (
        pair-Collision keccak256 Used fx.input a b fx.used (rows k _ mab) fx.size
          (row_above-Is32 k row words ma) (row_above-Is32 k row words mb) (fx.digest ∙ e))
  climb-MemD Used (suc k) row x (s ∷ p) rows flat fx hx hp up m =
      let (a, b, e, ma, mb, mab) = MemD-pair_up keccak256 (row_above keccak256 k row) m in
      let words = λ (z : Bytes) (h : MemD z row). (flat z h).1 in
      let down = climb-MemD Used k row x p rows flat fx hx hp.1 up.1 in
      elim (pair_members keccak256 Used (climb keccak256 x p) s a b up.0 (rows k _ mab)
        (climb-Is32 keccak256 d x p hx) hp.0 (row_above-Is32 k row words ma)
        (row_above-Is32 k row words mb) e) [
          | inl (inl q) ↦ down (subst (λ z. MemD z (row_above keccak256 k row)) (sym q) ma)
          | inl (inr q) ↦ down (subst (λ z. MemD z (row_above keccak256 k row)) (sym q) mb)
          | inr c ↦ inr c
        ]

  -- The leaves are digests of inputs of other sizes than a pair.
  Flat-map :
      (Used : Bytes → Type 0) (inputs : List Bytes)
      → All (λ e. length e ≢ 64) inputs
      → ((e : Bytes) → MemD e inputs → Used e)
      → (z : Bytes) → MemD z (map keccak256 inputs)
      → Flat Used z × Is32 z
  Flat-map Used [] h u z m = elim m [ ]
  Flat-map Used (e ∷ inputs) h u z (MemD.head p) = (
    record { input = e; used = u e (MemD.head refl); size = h.0; digest = sym p },
    rw p (d.word e).0,
  )
  Flat-map Used (e ∷ inputs) h u z (MemD.tail m) =
      Flat-map Used inputs h.1 (λ e m. u e (MemD.tail m)) z m

  MemD-input :
      (Used : Bytes → Type 0) (inputs : List Bytes) (e : Bytes)
      → ((i : Bytes) → MemD i inputs → Used i)
      → Used e
      → MemD (keccak256 e) (map keccak256 inputs)
      → MemD e inputs ⊎ Collision keccak256 Used
  MemD-input Used [] e u ue m = elim m [ ]
  MemD-input Used (i ∷ inputs) e u ue (MemD.head p) =
      elim (same_or_Collision keccak256 Used e i ue (u i (MemD.head refl)) p) [
        | inl q ↦ inl (MemD.head q)
        | inr c ↦ inr c
      ]
  MemD-input Used (i ∷ inputs) e u ue (MemD.tail m) =
      elim (MemD-input Used inputs e (λ j n. u j (MemD.tail n)) ue m) [
        | inl q ↦ inl (MemD.tail q)
        | inr c ↦ inr c
      ]

  words_of_map : (inputs : List Bytes) → All IsWord (map keccak256 inputs)
  words_of_map [] = tt
  words_of_map (e ∷ inputs) = (d.word e, words_of_map inputs)

  -- A record that replays to the root of a tree over `inputs` is one of them.
  pub replay-MemD :
      (i : Bytes) (inputs : List Bytes) {root : Bytes} {proofs : List Proof}
      → build_tree keccak256 (map keccak256 (i ∷ inputs)) ≡ ok (root, proofs)
      → All (λ e. length e ≢ 64) (i ∷ inputs)
      → (e : Bytes) (p : Proof) → length e ≢ 64
      → All Is32 p
      → replay keccak256 (keccak256 e) p ≡ root
      → MemD e (i ∷ inputs) ⊎ Collision keccak256 (Hashed keccak256 (i ∷ inputs) e p)
  replay-MemD i inputs {root} built sizes e p size siblings h =
      let leaves = map keccak256 (i ∷ inputs) in
      let padded = padded_leaves keccak256 leaves in
      let Used = Hashed keccak256 (i ∷ inputs) e p in
      let t =
        build_tree-IsTree keccak256 d (keccak256 i) (map keccak256 inputs)
          (words_of_map (i ∷ inputs)) in
      let same : t.root ≡ climb keccak256 (keccak256 e) (reverse p) =
        root_unique t.returns built ∙ sym h ∙ replay-eq-climb keccak256 (keccak256 e) p in
      let at_top : MemD (climb keccak256 (keccak256 e) (reverse p))
          (row_above keccak256 t.height padded) =
        rw t.top (MemD.head (sym same)) in
      let pads = (pad-Padded leaves (omega arith)).0 in
      let last = MemD-last (keccak256 i) (map keccak256 inputs) in
      let flat = λ (z : Bytes) (m : MemD z padded).
        Flat-map Used (i ∷ inputs) sizes (λ x n. recorded n) z (MemD-padded pads last m) in
      let up = Climbs-path keccak256 Used (keccak256 e) (reverse p) (λ z m.
        on_path
          (subst (λ q. MemD z (path_inputs keccak256 (keccak256 e) q)) (reverse-reverse p) m)) in
      elim (climb-MemD Used t.height padded (keccak256 e) (reverse p) (λ k z m. in_tree k m) flat
        (record { input = e; used = shown refl; size = size; digest = refl }) (d.word e).0
        (All-reverse p siblings) up at_top) [
          | inl m ↦
              MemD-input Used (i ∷ inputs) e (λ x n. recorded n) (shown refl)
                (MemD-padded pads last m)
          | inr c ↦ inr c
        ]
