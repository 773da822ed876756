-- ===== src/Merkle/Claims.antt =====
-- Trees over claims: what a proof shows of the claim whose leaf it starts from.
use mathlib.Core.List.{Memᴰ as MemD}
use noethrion.Base.{
  ◌≡◌, ◌≢◌, sym, ap, subst, ◌∙◌, ◌⊎◌, inl, inr, List, [], ◌∷◌, map, arith, length, All,
}
use noethrion.Python.Result.{ok, ok_injective}
use noethrion.Python.Bytes.{Bytes}
use noethrion.Leaf.Encoding.{Claim, IsClaim, encoding, length-encoding, encoding_injective}
use noethrion.Merkle.{Proof, build_tree}
use noethrion.Merkle.Replay.{IsWord, IsDigest, Collision, replay}
use noethrion.Merkle.Complete.{build_tree-IsTree}
use noethrion.Merkle.Pairs.{Is32}
use noethrion.Merkle.Path.{Hashed}
use noethrion.Merkle.Sound.{replay-MemD}

MemD-encoding :
    (claims : List Claim) (q : Claim)
    → All IsClaim claims
    → IsClaim q
    → MemD (encoding q) (map encoding claims)
    → MemD q claims
MemD-encoding [] q h v m = elim m [ ]
MemD-encoding (c ∷ claims) q h v (MemD.head e) = MemD.head (encoding_injective q c v h.0 e)
MemD-encoding (c ∷ claims) q h v (MemD.tail m) = MemD.tail (MemD-encoding claims q h.1 v m)

length-encodings :
    (claims : List Claim) → All IsClaim claims → All (λ e. length e ≢ 64) (map encoding claims)
length-encodings [] h = tt
length-encodings (c ∷ claims) h =
    ((λ e. absurd (omega (arith, length-encoding c h.0, e))), length-encodings claims h.1)

module _ (keccak256 : Bytes → Bytes) (d : IsDigest keccak256) where
  -- A claim that replays to the root of a tree over claims is one of these.
  pub replay-claims :
      (c : Claim) (claims : List Claim) {root : Bytes} {proofs : List Proof}
      → All IsClaim (c ∷ claims)
      → build_tree keccak256 (map keccak256 (map encoding (c ∷ claims))) ≡ ok (root, proofs)
      → (q : Claim) (p : Proof) → IsClaim q
      → All Is32 p
      → replay keccak256 (keccak256 (encoding q)) p ≡ root
      → MemD q (c ∷ claims)
        ⊎ Collision keccak256 (Hashed keccak256 (map encoding (c ∷ claims)) (encoding q) p)
  replay-claims c claims valid built q p v sizes path =
      let flat : length (encoding q) ≢ 64 = λ e. absurd (omega (arith, length-encoding q v, e)) in
      elim (replay-MemD keccak256 d (encoding c) (map encoding claims) built
        (length-encodings (c ∷ claims) valid) (encoding q) p flat sizes path) [
          | inl m ↦ inl (MemD-encoding (c ∷ claims) q valid v m)
          | inr x ↦ inr x
        ]

  pub digests : (inputs : List Bytes) → All IsWord (map keccak256 inputs)
  digests [] = tt
  digests (e ∷ inputs) = (d.word e, digests inputs)

  -- The root of a tree over claims is a word.
  pub root-IsWord :
      (c : Claim) (claims : List Claim) {root : Bytes} {proofs : List Proof}
      → build_tree keccak256 (map keccak256 (map encoding (c ∷ claims))) ≡ ok (root, proofs)
      → IsWord root
  root-IsWord c claims built =
      let t =
        build_tree-IsTree keccak256 d (keccak256 (encoding c)) (map keccak256 (map encoding claims))
          (digests (map encoding (c ∷ claims))) in
      let same = ap (λ (r : Bytes × List Proof). r.0) (ok_injective (sym t.returns ∙ built)) in
      subst IsWord same t.word
