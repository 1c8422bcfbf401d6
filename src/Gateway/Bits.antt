-- ===== src/Gateway/Bits.antt =====
-- The bit operations of JavaScript on 32-bit unsigned numbers, at masks of leading ones.
use Prim.Native.Nat.{min, max, bit_and, bit_or, digits, bitwise, bit_and-bitwise, bit_or-bitwise}
use native.Mathlib.Decide.{dec_lt}
use native.Mathlib.Nat.{pow-suc, div-div-eq-div-mul, div-lt_iff_lt-mul}
use alchemy_alibaba.Prelude.{
  ℕ, zero, suc, ◌+◌, ◌-◌, ◌*◌, ◌/◌, ◌%◌, ◌^◌, ◌≤◌, ◌<◌, ◌≡◌, refl, sym, ap, ◌∙◌, arith,
}

-- The digit recursion of both operations needs as much fuel as its first operand, and no more
-- changes nothing.
module _ (z : ℕ → ℕ) (f : ℕ → ℕ → ℕ) where
  same_digits : (n m a b : ℕ) → a ≤ n → a ≤ m → digits z f n a b ≡ digits z f m a b
  same_digits zero zero zero b p q = refl
  same_digits zero (suc m) zero b p q = refl
  same_digits (suc n) zero zero b p q = refl
  same_digits (suc n) (suc m) zero b p q = refl
  same_digits (suc n) (suc m) (suc a) b p q =
      ap (λ d. d * 2 + f (suc a % 2) (b % 2))
        (same_digits n m (suc a / 2) (b / 2) (omega arith) (omega arith))
  same_digits _ _ (suc a) b p q = absurd (omega arith)

  -- The lowest digit, and the rest.
  bitwise_step :
      (a b : ℕ)
      → bitwise z f (suc a) b ≡ bitwise z f (suc a / 2) (b / 2) * 2 + f (suc a % 2) (b % 2)
  bitwise_step a b =
      ap (λ d. d * 2 + f (suc a % 2) (b % 2))
        (same_digits a (suc a / 2) (suc a / 2) (b / 2) (omega arith) (omega arith))

and_step : (a b : ℕ) → bit_and a b ≡ bit_and (a / 2) (b / 2) * 2 + min (a % 2) (b % 2)
and_step zero b = omega (arith, bit_and-bitwise 0 b, bit_and-bitwise 0 (b / 2))
and_step (suc a) b = omega (
  arith,
  bitwise_step (λ _. 0) min a b,
  bit_and-bitwise (suc a) b,
  bit_and-bitwise (suc a / 2) (b / 2),
)

or_step : (a b : ℕ) → bit_or a b ≡ bit_or (a / 2) (b / 2) * 2 + max (a % 2) (b % 2)
or_step zero b = omega (arith, bit_or-bitwise 0 b, bit_or-bitwise 0 (b / 2))
or_step (suc a) b = omega (
  arith,
  bitwise_step (λ d. d) max a b,
  bit_or-bitwise (suc a) b,
  bit_or-bitwise (suc a / 2) (b / 2),
)

pub pow_pos : (k : ℕ) → 0 < 2 ^ k
pow_pos zero = omega arith
pow_pos (suc k) = omega (arith, pow-suc 2 k, pow_pos k)

-- An operand with a zero as its lowest digit.
and_even : (x m : ℕ) → bit_and x (2 * m) ≡ 2 * bit_and (x / 2) m
and_even x m =
    let half : 2 * m / 2 ≡ m = omega arith in
    omega (arith, and_step x (2 * m), ap (bit_and (x / 2)) half)

or_odd : (x m : ℕ) → bit_or (2 * x) (2 * m + 1) ≡ 2 * bit_or x m + 1
or_odd x m =
    let a : 2 * x / 2 ≡ x = omega arith in
    let b : (2 * m + 1) / 2 ≡ m = omega arith in
    omega
      (arith, or_step (2 * x) (2 * m + 1), ap (λ z. bit_or z ((2 * m + 1) / 2)) a, ap (bit_or x) b)

and-zero : (n x : ℕ) → x ≤ n → bit_and x 0 ≡ 0
and-zero zero zero h = bit_and-bitwise 0 0
and-zero zero (suc x) h = absurd (omega arith)
and-zero (suc n) x h = omega (arith, and_step x 0, and-zero n (x / 2) (omega arith))

-- All ones.
and_ones : (n x : ℕ) → x < 2 ^ n → bit_and x (2 ^ n - 1) ≡ x
and_ones zero x h = omega (arith, and-zero 0 x (omega arith))
and_ones (suc n) x h =
    let twice : 2 ^ suc n ≡ 2 * 2 ^ n = omega (arith, pow-suc 2 n) in
    let half : (2 ^ suc n - 1) / 2 ≡ 2 ^ n - 1 = omega (arith, twice, pow_pos n) in
    omega (
      arith,
      twice,
      pow_pos n,
      and_step x (2 ^ suc n - 1),
      ap (bit_and (x / 2)) half,
      and_ones n (x / 2) (omega (arith, twice)),
    )

-- The lowest `k` digits under a mask that has them clear.
and_shift : (k x m : ℕ) → bit_and x (2 ^ k * m) ≡ 2 ^ k * bit_and (x / 2 ^ k) m
and_shift zero x m =
    let a : 1 * m ≡ m = omega arith in let b : x / 1 ≡ x = omega arith in rw (a, b) (omega arith)
and_shift (suc k) x m =
    let twice : 2 ^ suc k ≡ 2 * 2 ^ k = omega (arith, pow-suc 2 k) in
    let apart : 2 ^ suc k * m ≡ 2 * (2 ^ k * m) = omega (arith, ap (λ t. t * m) twice) in
    let deeper : x / 2 / 2 ^ k ≡ x / 2 ^ suc k =
      div-div-eq-div-mul x 2 (2 ^ k) ∙ ap (λ t. x / t) (sym twice) in
    let high : ℕ = bit_and (x / 2 ^ suc k) m in
    ap (bit_and x) apart
    ∙ and_even x (2 ^ k * m)
    ∙ ap (λ t. 2 * t) (and_shift k (x / 2) m ∙ ap (λ t. 2 ^ k * bit_and t m) deeper)
    ∙ omega (arith, ap (λ t. t * high) twice)

or-zero : (n x : ℕ) → x ≤ n → bit_or x 0 ≡ x
or-zero zero zero h = bit_or-bitwise 0 0
or-zero zero (suc x) h = absurd (omega arith)
or-zero (suc n) x h = elim (dec_lt 0 x) [
  | yes p ↦ omega (arith, or_step x 0, or-zero n (x / 2) (omega arith))
  | no p ↦ omega (arith, or_step x 0, or-zero n (x / 2) (omega arith))
]

-- Setting the lowest `k` digits where they are clear.
or_low_ones : (k a : ℕ) → bit_or (2 ^ k * a) (2 ^ k - 1) ≡ 2 ^ k * a + (2 ^ k - 1)
or_low_ones zero a =
    let one : 1 * a ≡ a = omega arith in rw one (omega (arith, or-zero a a (omega arith)))
or_low_ones (suc k) a =
    let twice : 2 ^ suc k ≡ 2 * 2 ^ k = omega (arith, pow-suc 2 k) in
    let left : 2 ^ suc k * a ≡ 2 * (2 ^ k * a) = omega (arith, ap (λ t. t * a) twice) in
    let right : 2 ^ suc k - 1 ≡ 2 * (2 ^ k - 1) + 1 = omega (arith, twice, pow_pos k) in
    ap (λ t. bit_or t (2 ^ suc k - 1)) left
    ∙ ap (bit_or (2 * (2 ^ k * a))) right
    ∙ or_odd (2 ^ k * a) (2 ^ k - 1)
    ∙ omega (arith, or_low_ones k a, left, right)

pub pow_add : (k n : ℕ) → 2 ^ (k + n) ≡ 2 ^ k * 2 ^ n
pow_add zero n = let z : 0 + n ≡ n = omega arith in ap (λ t. 2 ^ t) z ∙ omega arith
pow_add (suc k) n =
    let s : suc k + n ≡ suc (k + n) = omega arith in
    ap (λ t. 2 ^ t) s
    ∙ omega (arith, pow-suc 2 (k + n), pow_add k n, ap (λ t. t * 2 ^ n) (pow-suc 2 k))

-- `x & mask`, where `mask` has ones above the lowest `k` of `k + n` digits and `x` has no more.
pub and_mask : (k n x : ℕ) → x < 2 ^ (k + n) → bit_and x (2 ^ (k + n) - 2 ^ k) ≡ 2 ^ k * (x / 2 ^ k)
and_mask k n x h =
    let split : 2 ^ n ≡ (2 ^ n - 1) + 1 = omega (arith, pow_pos n) in
    let apart : 2 ^ (k + n) - 2 ^ k ≡ 2 ^ k * (2 ^ n - 1) =
      omega (arith, pow_add k n, ap (λ t. 2 ^ k * t) split) in
    let small : x / 2 ^ k < 2 ^ n =
      (div-lt_iff_lt-mul (pow_pos k)).1 (omega (arith, pow_add k n)) in
    ap (bit_and x) apart
    ∙ and_shift k x (2 ^ n - 1)
    ∙ ap (λ t. 2 ^ k * t) (and_ones n (x / 2 ^ k) small)

-- `x | ~mask`, for an `x` that the mask has been applied to.
pub or_low : (k a : ℕ) → bit_or (2 ^ k * a) (2 ^ k - 1) ≡ 2 ^ k * a + (2 ^ k - 1)
or_low k a = or_low_ones k a
