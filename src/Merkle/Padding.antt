-- ===== src/Merkle/Padding.antt =====
-- The padding loop of `build_tree` (examples/lifecycle/03_build_merkle_tree.py).
use noethrion.Base.{
  ◌≢◌, ℕ, zero, suc, ◌+◌, ◌*◌, ◌^◌, ◌≤◌, ◌<◌, ◌≡◌, refl, sym, ap, ◌∙◌, List, [], ◌∷◌, ◌++◌, arith,
  inl, inr, length, length-append, replicate, append_assoc, append-nil, Bool-cases,
}
use noethrion.Python.Bytes.{Bytes}
use noethrion.Merkle.{not_power_of_two, last_or, pad}
use noethrion.Merkle.PowerOfTwo.{not_power_of_two-pow, not_power_of_two_complete, next_power}

-- What the loop leaves: the leaves, the last one `extra` times more, a power of two in all.
pub record Padded (leaves padded : List Bytes) : Type 0 where
  pub extra : ℕ
  pub height : ℕ
  pub shape : padded ≡ leaves ++ replicate extra (last_or [] leaves)
  pub size : length padded ≡ 2 ^ height

last_or-snoc : (d : Bytes) (xs : List Bytes) (x : Bytes) → last_or d (xs ++ x ∷ []) ≡ x
unfolding last_or
last_or-snoc d [] x = refl
last_or-snoc d (y ∷ xs) x = last_or-snoc y xs x

pad-Padded_rounds :
    (rounds k : ℕ) (leaves : List Bytes)
    → 0 < length leaves
    → length leaves ≤ 2 ^ k
    → 2 ^ k ≤ length leaves + rounds
    → Padded leaves (pad rounds leaves) × (length (pad rounds leaves) ≤ 2 ^ k)
unfolding pad
pad-Padded_rounds zero k leaves pos lo hi =
    (record { extra = 0; height = k; shape = sym (append-nil leaves); size = omega arith }, lo)
pad-Padded_rounds (suc rounds) k leaves pos lo hi =
    elim (Bool-cases (not_power_of_two (length leaves))) [
      | inl odd ↦
          let last = last_or [] leaves in
          let strict : length leaves ≢ 2 ^ k =
            λ e. cc (not_power_of_two-pow k, ap not_power_of_two e) in
          let (p, q) =
            pad-Padded_rounds rounds k (leaves ++ last ∷ [])
              (omega (arith, length-append leaves (last ∷ [])))
              (omega (arith, length-append leaves (last ∷ [])))
              (omega (arith, length-append leaves (last ∷ []))) in
          rw odd (
            record {
              extra = suc p.extra;
              height = p.height;
              shape = p.shape ∙ rw (last_or-snoc, append_assoc);
              size = p.size;
            },
            q,
          )
      | inr done ↦
          let (j, e) = not_power_of_two_complete (length leaves) pos done in
          rw done (record { extra = 0; height = j; shape = sym (append-nil leaves); size = e }, lo)
    ]

-- Within a round for each leaf the padding of a non-empty list stops at a power of two that is less
-- than twice the number of leaves; it keeps the leaves and repeats the last one behind them.
pub pad-Padded :
    (leaves : List Bytes)
    → 0 < length leaves
    → Padded leaves (pad (length leaves) leaves)
      × (length (pad (length leaves) leaves) < 2 * length leaves)
pad-Padded leaves pos =
    let (k, lo, hi) = next_power (length leaves) pos in
    let (p, q) = pad-Padded_rounds (length leaves) k leaves pos lo (omega arith) in (p, omega arith)
