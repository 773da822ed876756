-- ===== src/Merkle/PowerOfTwo.antt =====
-- The test `n & (n - 1)` of the padding loop of examples/lifecycle/03_build_merkle_tree.py: it is 0
-- at the powers of two and nowhere else.
use Prim.Native.Nat.{bit_and, bit_and-bitwise, digits, min}
use noethrion.Base.{
  ℕ, zero, suc, ◌+◌, ◌-◌, ◌*◌, ◌/◌, ◌%◌, ◌^◌, ◌≤◌, ◌<◌, ◌≡◌, refl, ap, ap₂, ◌∙◌, false, arith, ◌↔◌,
}
use native.Mathlib.Decide.{ℕ_discrete, dec_lt}
use noethrion.Merkle.{not_power_of_two}

-- `&` by its definition, a recursion over the digits of the left number under `rounds`: a number
-- of rounds that is not below the left number gives the same result as any other.
abbrev and_rounds : ℕ → ℕ → ℕ → ℕ
and_rounds rounds = digits (λ low. zero) min rounds

and_rounds_stable :
    (left right r s : ℕ) → left ≤ r → left ≤ s → and_rounds r left right ≡ and_rounds s left right
and_rounds_stable zero right zero zero hr hs = refl
and_rounds_stable zero right zero (suc s) hr hs = refl
and_rounds_stable zero right (suc r) zero hr hs = refl
and_rounds_stable zero right (suc r) (suc s) hr hs = refl
and_rounds_stable (suc left) right zero s hr hs = absurd (omega arith)
and_rounds_stable (suc left) right (suc r) zero hr hs = absurd (omega arith)
and_rounds_stable (suc left) right (suc r) (suc s) hr hs =
    let half_left = suc left / 2 in
    ap (λ (t : ℕ). t * 2 + min (suc left % 2) (right % 2))
      (and_rounds_stable half_left (right / 2) r s (omega arith) (omega arith))

-- The lowest digit, and the digits above it.
bit_and-halves : (a b : ℕ) → bit_and a b ≡ 2 * bit_and (a / 2) (b / 2) + min (a % 2) (b % 2)
bit_and-halves zero b = omega (arith, bit_and-bitwise 0 b, bit_and-bitwise 0 (b / 2))
bit_and-halves (suc a) b =
    let half = suc a / 2 in
    omega (
      arith,
      bit_and-bitwise (suc a) b,
      bit_and-bitwise half (b / 2),
      and_rounds_stable half (b / 2) a half (omega arith) (omega arith),
    )

-- In terms of the lowest digits `r` and `s`.
bit_and-double :
    (x y r s : ℕ) → r < 2 → s < 2 → bit_and (2 * x + r) (2 * y + s) ≡ 2 * bit_and x y + min r s
bit_and-double x y r s hr hs =
    let p : (2 * x + r) / 2 ≡ x = omega arith in
    let q : (2 * y + s) / 2 ≡ y = omega arith in
    let u : (2 * x + r) % 2 ≡ r = omega arith in
    let v : (2 * y + s) % 2 ≡ s = omega arith in
    bit_and-halves (2 * x + r) (2 * y + s) ∙ rw (p, q, u, v)

bit_and_self_rounds : (n a : ℕ) → a ≤ n → bit_and a a ≡ a
bit_and_self_rounds n zero h = refl
bit_and_self_rounds zero (suc a) h = absurd (omega arith)
bit_and_self_rounds (suc n) (suc a) h =
    omega (arith, bit_and-halves (suc a) (suc a), bit_and_self_rounds n (suc a / 2) (omega arith))

-- n & (n - 1): for an even number twice that of the half, for an odd one n - 1.
and_pred_even : (m : ℕ) → 0 < m → bit_and (2 * m) (2 * m - 1) ≡ 2 * bit_and m (m - 1)
and_pred_even m h =
    let p : 2 * m ≡ 2 * m + 0 = omega arith in
    let q : 2 * m - 1 ≡ 2 * (m - 1) + 1 = omega arith in
    ap₂ bit_and p q ∙ omega (arith, bit_and-double m (m - 1) 0 1 (omega arith) (omega arith))

and_pred_odd : (m : ℕ) → bit_and (2 * m + 1) (2 * m + 1 - 1) ≡ 2 * m
and_pred_odd m =
    let q : 2 * m + 1 - 1 ≡ 2 * m + 0 = omega arith in
    ap (bit_and (2 * m + 1)) q
    ∙ omega (
      arith,
      bit_and-double m m 1 0 (omega arith) (omega arith),
      bit_and_self_rounds m m (omega arith),
    )

pub pow2_pos : (k : ℕ) → 0 < 2 ^ k
pow2_pos zero = omega arith
pow2_pos (suc k) = omega (arith, pow2_pos k)

-- The test of the padding loop, stated of the number: `n & (n - 1)` is 0.
not_power_of_two_iff : (n : ℕ) → (not_power_of_two n ≡ false) ↔ (bit_and n (n - 1) ≡ 0)
unfolding not_power_of_two
not_power_of_two_iff n = ground arith

and_pred_pow : (k : ℕ) → bit_and (2 ^ k) (2 ^ k - 1) ≡ 0
and_pred_pow zero = refl
and_pred_pow (suc k) =
    let double : 2 ^ suc k ≡ 2 * 2 ^ k = omega arith in
    rw double (omega (arith, and_pred_even (2 ^ k) (pow2_pos k), and_pred_pow k))

-- The test stops at every power of two,
pub not_power_of_two-pow : (k : ℕ) → not_power_of_two (2 ^ k) ≡ false
not_power_of_two-pow k = (not_power_of_two_iff (2 ^ k)).1 (and_pred_pow k)

and_pred_zero : (bound n : ℕ) → 0 < n → n ≤ bound → bit_and n (n - 1) ≡ 0 → (k : ℕ) × (n ≡ 2 ^ k)
and_pred_zero zero n h hb e = absurd (omega arith)
and_pred_zero (suc bound) n h hb e = elim (ℕ_discrete (n % 2) 0) [
  | yes even ↦
      let double : n ≡ 2 * (n / 2) = omega arith in
      let half : bit_and (n / 2) (n / 2 - 1) ≡ 0 =
        omega (arith, and_pred_even (n / 2) (omega arith), rw double at e) in
      let (k, p) = and_pred_zero bound (n / 2) (omega arith) (omega arith) half in
      (suc k, omega arith)
  | no odd ↦
      let double : n ≡ 2 * (n / 2) + 1 = omega arith in
      (0, omega (arith, and_pred_odd (n / 2), rw double at e))
]

-- and only there.
pub not_power_of_two_complete : (n : ℕ) → 0 < n → not_power_of_two n ≡ false → (k : ℕ) × (n ≡ 2 ^ k)
not_power_of_two_complete n h e = and_pred_zero n n h (omega arith) ((not_power_of_two_iff n).0 e)

-- There is a power of two from `n` on and below `2 * n`.
pub next_power : (n : ℕ) → 0 < n → (k : ℕ) × (n ≤ 2 ^ k) × (2 ^ k < 2 * n)
next_power zero h = elim h [ ]
next_power (suc zero) h = (0, omega arith, omega arith)
next_power (suc (suc n)) h =
    let (k, lo, hi) = next_power (suc n) (omega arith) in
    elim (dec_lt (2 ^ k) (suc (suc n))) [
      | yes short ↦ (suc k, omega arith, omega arith)
      | no enough ↦ (k, omega arith, omega arith)
    ]
