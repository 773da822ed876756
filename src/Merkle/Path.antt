-- ===== src/Merkle/Path.antt =====
-- The inputs of the hash along a proof, and where a tree and a proof meet.
use mathlib.Core.List.{reverse, reverse-reverse, reverse-append, Memᴰ as MemD}
use noethrion.Base.{ℕ, ◌≡◌, refl, sym, ap, subst, ◌∙◌, List, [], ◌∷◌, ◌++◌, All, All-append, map}
use noethrion.Python.Bytes.{Bytes}
use noethrion.Merkle.{Proof, hash_pair}
use noethrion.Merkle.Replay.{IsDigest, replay, replay-snoc, hash_pair-IsWord, row_above}
use noethrion.Merkle.Complete.{padded_leaves}
use noethrion.Merkle.Members.{MemD-end, MemD-front}
use noethrion.Merkle.Pairs.{sorted_pair, pair_inputs, Is32}

pub All-reverse : (p : Proof) → All Is32 p → All Is32 (reverse p)
All-reverse [] h = tt
All-reverse (s ∷ p) h =
    subst (All Is32) (sym (reverse-append (s ∷ []) p))
      (All-append Is32 (reverse p) (s ∷ []) (All-reverse p h.1) (h.0, tt))

module _ (keccak256 : Bytes → Bytes) where
  -- The inputs of the hash in the replay of a proof.
  unfoldable pub path_inputs : Bytes → Proof → List Bytes
  path_inputs x [] = []
  path_inputs x (s ∷ p) = sorted_pair x s ∷ path_inputs (hash_pair keccak256 x s) p

  -- The inputs of the hash where a tree is built over records and a proof of the record `e` is checked.
  pub data Hashed (inputs : List Bytes) (e : Bytes) (p : Proof) (x : Bytes) : Type 0 where
    recorded : MemD x inputs → Hashed inputs e p x
    shown : x ≡ e → Hashed inputs e p x
    on_path : MemD x (path_inputs (keccak256 e) p) → Hashed inputs e p x
    in_tree :
        (k : ℕ)
        → MemD x
            (pair_inputs (row_above keccak256 k (padded_leaves keccak256 (map keccak256 inputs))))
        → Hashed inputs e p x

  path_inputs-snoc :
      (x : Bytes) (p : Proof) (s : Bytes)
      → path_inputs x (p ++ s ∷ []) ≡ path_inputs x p ++ sorted_pair (replay keccak256 x p) s ∷ []
  unfolding path_inputs replay
  path_inputs-snoc x [] s = refl
  path_inputs-snoc x (t ∷ p) s =
      ap (λ l. sorted_pair x t ∷ l) (path_inputs-snoc (hash_pair keccak256 x t) p s)

  -- A replay from the last sibling backwards.
  unfoldable pub climb : Bytes → Proof → Bytes
  climb x [] = x
  climb x (s ∷ p) = hash_pair keccak256 (climb x p) s

  replay-nil : (x : Bytes) → replay keccak256 x [] ≡ x
  unfolding replay
  replay-nil x = refl

  replay-climb : (x : Bytes) (p : Proof) → replay keccak256 x (reverse p) ≡ climb x p
  unfolding climb
  replay-climb x [] = replay-nil x
  replay-climb x (s ∷ p) =
      ap (replay keccak256 x) (reverse-append (s ∷ []) p)
      ∙ replay-snoc keccak256 x (reverse p) s
      ∙ ap (λ t. hash_pair keccak256 t s) (replay-climb x p)

  pub climb-Is32 : IsDigest keccak256 → (x : Bytes) (p : Proof) → Is32 x → Is32 (climb x p)
  unfolding climb
  climb-Is32 d x [] h = h
  climb-Is32 d x (s ∷ p) h = (hash_pair-IsWord keccak256 d (climb x p) s).0

  -- What a replay from the last sibling backwards hashes.
  abbrev pub Climbs : (Bytes → Type 0) → Bytes → Proof → Type 0
  Climbs Used x [] = Unit
  Climbs Used x (s ∷ p) = Used (sorted_pair (climb x p) s) × Climbs Used x p

  path_inputs-reverse :
      (x s : Bytes) (p : Proof)
      → path_inputs x (reverse (s ∷ p))
        ≡ path_inputs x (reverse p) ++ sorted_pair (climb x p) s ∷ []
  path_inputs-reverse x s p =
      ap (path_inputs x) (reverse-append (s ∷ []) p)
      ∙ path_inputs-snoc x (reverse p) s
      ∙ ap (λ t. path_inputs x (reverse p) ++ sorted_pair t s ∷ []) (replay-climb x p)

  pub Climbs-path :
      (Used : Bytes → Type 0) (x : Bytes) (p : Proof)
      → ((z : Bytes) → MemD z (path_inputs x (reverse p)) → Used z)
      → Climbs Used x p
  Climbs-path Used x [] h = tt
  Climbs-path Used x (s ∷ p) h =
      let whole =
        λ (z : Bytes) (m : MemD z (path_inputs x (reverse p) ++ sorted_pair (climb x p) s ∷ [])).
          h z (subst (λ l. MemD z l) (sym (path_inputs-reverse x s p)) m) in
      (
        whole _ (MemD-end (path_inputs x (reverse p)) _),
        Climbs-path Used x p (λ z m. whole z (MemD-front (path_inputs x (reverse p)) _ m)),
      )

  pub replay-eq-climb : (x : Bytes) (p : Proof) → replay keccak256 x p ≡ climb x (reverse p)
  replay-eq-climb x p =
      ap (replay keccak256 x) (sym (reverse-reverse p)) ∙ replay-climb x (reverse p)
