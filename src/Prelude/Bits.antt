-- ===== src/Prelude/Bits.antt =====
-- Laws of the native bit operations at variables, from the recursion on digits that they stand for.
use Prim.Native.Nat.{
  ℕ, zero, suc, ◌+◌, ◌*◌, ◌/◌, ◌%◌, ◌^◌, ◌≤◌, ◌<◌, differ, digits, bitwise, bit_xor,
  bit_xor-bitwise, min, bit_and, bit_and-bitwise, max, bit_or, bit_or-bitwise,
}
use native.Mathlib.Nat.{le_refl, pow-suc}
use mathlib.Core.Path.{◌≡◌, refl, sym, ◌∙◌, ap}
use native.Mathlib.Omega.{arith}

-- The count of digits that `digits` recurs on is enough from the number itself on.
module _ (z : ℕ → ℕ) (f : ℕ → ℕ → ℕ) where
  digits_enough : (n m a b : ℕ) → a ≤ n → a ≤ m → digits z f n a b ≡ digits z f m a b
  digits_enough zero zero a b p q = refl
  digits_enough zero (suc m) zero b p q = refl
  digits_enough zero (suc m) (suc a) b p q = absurd (omega arith)
  digits_enough (suc n) zero zero b p q = refl
  digits_enough (suc n) zero (suc a) b p q = absurd (omega arith)
  digits_enough (suc n) (suc m) zero b p q = refl
  digits_enough (suc n) (suc m) (suc a) b p q =
      omega (arith, digits_enough n m (suc a / 2) (b / 2) (omega arith) (omega arith))

  bitwise_halves :
      (a b : ℕ)
      → bitwise z f (suc a) b ≡ bitwise z f (suc a / 2) (b / 2) * 2 + f (suc a % 2) (b % 2)
  bitwise_halves a b =
      omega (arith, digits_enough a (suc a / 2) (suc a / 2) (b / 2) (omega arith) (le_refl _))

differ_digits : (x y : ℕ) → x < 2 → y < 2 → differ x y ≡ (x + y) % 2
differ_digits zero y p q = omega arith
differ_digits (suc zero) zero p q = refl
differ_digits (suc zero) (suc zero) p q = refl
differ_digits (suc zero) (suc (suc y)) p q = absurd (omega arith)
differ_digits (suc (suc x)) y p q = absurd (omega arith)

-- Exclusive or, one digit at a time.
pub xor_step : (a b : ℕ) → bit_xor a b ≡ bit_xor (a / 2) (b / 2) * 2 + (a % 2 + b % 2) % 2
xor_step zero b = simp bit_xor-bitwise (omega arith)
xor_step (suc a) b = simp bit_xor-bitwise (
    bitwise_halves (λ y. y) differ a b
    ∙ ap (λ d. bitwise (λ y. y) differ (suc a / 2) (b / 2) * 2 + d)
        (differ_digits (suc a % 2) (b % 2) (omega arith) (omega arith)))

and_step : (a b : ℕ) → bit_and a b ≡ bit_and (a / 2) (b / 2) * 2 + min (a % 2) (b % 2)
and_step zero b = simp bit_and-bitwise (omega arith)
and_step (suc a) b = simp bit_and-bitwise (bitwise_halves (λ y. 0) min a b)

and_zero_below : (k a : ℕ) → a ≤ k → bit_and a 0 ≡ 0
and_zero_below zero zero h = refl
and_zero_below zero (suc a) h = absurd (omega arith)
and_zero_below (suc k) a h = omega (arith, and_step a 0, and_zero_below k (a / 2) (omega arith))

-- The lowest digit.
pub bit_and-one : (a : ℕ) → bit_and a 1 ≡ a % 2
bit_and-one a = omega (arith, and_step a 1, and_zero_below (a / 2) (a / 2) (le_refl _))

and_mask_3 : (a : ℕ) → bit_and a 3 ≡ a % 4
and_mask_3 a = omega (arith, and_step a 3, bit_and-one (a / 2))

and_mask_7 : (a : ℕ) → bit_and a 7 ≡ a % 8
and_mask_7 a = omega (arith, and_step a 7, and_mask_3 (a / 2))

and_mask_15 : (a : ℕ) → bit_and a 15 ≡ a % 16
and_mask_15 a = omega (arith, and_step a 15, and_mask_7 (a / 2))

and_mask_31 : (a : ℕ) → bit_and a 31 ≡ a % 32
and_mask_31 a = omega (arith, and_step a 31, and_mask_15 (a / 2))

and_mask_63 : (a : ℕ) → bit_and a 63 ≡ a % 64
and_mask_63 a = omega (arith, and_step a 63, and_mask_31 (a / 2))

and_mask_127 : (a : ℕ) → bit_and a 127 ≡ a % 128
and_mask_127 a = omega (arith, and_step a 127, and_mask_63 (a / 2))

-- The lowest byte.
pub bit_and_byte : (a : ℕ) → bit_and a 0xff ≡ a % 256
bit_and_byte a = omega (arith, and_step a 255, and_mask_127 (a / 2))

xor_zero_below : (k a : ℕ) → a ≤ k → bit_xor a 0 ≡ a
xor_zero_below zero zero h = refl
xor_zero_below zero (suc a) h = absurd (omega arith)
xor_zero_below (suc k) a h = omega (arith, xor_step a 0, xor_zero_below k (a / 2) (omega arith))

pub xor_zero : (a : ℕ) → bit_xor a 0 ≡ a
xor_zero a = xor_zero_below a a (le_refl _)

xor_comm_below : (k a b : ℕ) → a + b ≤ k → bit_xor a b ≡ bit_xor b a
xor_comm_below zero zero zero h = refl
xor_comm_below zero zero (suc b) h = absurd (omega arith)
xor_comm_below zero (suc a) b h = absurd (omega arith)
xor_comm_below (suc k) a b h =
    omega (arith, xor_step a b, xor_step b a, xor_comm_below k (a / 2) (b / 2) (omega arith))

pub xor_comm : (a b : ℕ) → bit_xor a b ≡ bit_xor b a
xor_comm a b = xor_comm_below (a + b) a b (le_refl _)

-- What is applied twice is gone. The bound is on the sum of the two numbers.
xor_cancel_below : (k a b : ℕ) → a + b ≤ k → bit_xor (bit_xor a b) b ≡ a
xor_cancel_below zero zero zero h = refl
xor_cancel_below zero zero (suc b) h = absurd (omega arith)
xor_cancel_below zero (suc a) b h = absurd (omega arith)
xor_cancel_below (suc k) a b h =
    let halves = bit_xor (a / 2) (b / 2) in
    let shifted : bit_xor a b / 2 ≡ halves = omega (arith, xor_step a b) in
    omega (
      arith,
      xor_step a b,
      xor_step (bit_xor a b) b,
      ap (λ n. bit_xor n (b / 2)) shifted,
      xor_cancel_below k (a / 2) (b / 2) (omega arith),
    )

pub xor_cancel : (a b : ℕ) → bit_xor (bit_xor a b) b ≡ a
xor_cancel a b = xor_cancel_below (a + b) a b (le_refl _)

xor_self_below : (k a : ℕ) → a ≤ k → bit_xor a a ≡ 0
xor_self_below zero zero h = refl
xor_self_below zero (suc a) h = absurd (omega arith)
xor_self_below (suc k) a h = omega (arith, xor_step a a, xor_self_below k (a / 2) (omega arith))

pub xor_self : (a : ℕ) → bit_xor a a ≡ 0
xor_self a = xor_self_below a a (le_refl _)

-- Numbers of `k` digits make a number of `k` digits.
pub xor-lt : (k a b : ℕ) → a < 2 ^ k → b < 2 ^ k → bit_xor a b < 2 ^ k
xor-lt zero zero zero p q = omega arith
xor-lt zero zero (suc b) p q = absurd (omega arith)
xor-lt zero (suc a) b p q = absurd (omega arith)
xor-lt (suc k) a b p q =
    let double : 2 ^ suc k ≡ 2 ^ k * 2 = pow-suc 2 k in
    omega (
      arith,
      double,
      xor_step a b,
      xor-lt k (a / 2) (b / 2) (omega (arith, double)) (omega (arith, double)),
    )

-- The low digits drop out, and the others stay.
xor_fields : (k q r : ℕ) → r < 2 ^ k → bit_xor (q * 2 ^ k + r) r ≡ q * 2 ^ k
xor_fields zero q r h =
    let none_left : r ≡ 0 = omega arith in
    ap (λ n. bit_xor (q * 1 + n) n) none_left ∙ xor_zero (q * 1 + 0) ∙ omega arith
xor_fields (suc k) q r h =
    let double : 2 ^ suc k ≡ 2 ^ k * 2 = pow-suc 2 k in
    let doubled : q * 2 ^ suc k ≡ q * 2 ^ k * 2 = omega (arith, ap (λ n. q * n) double) in
    let halved : (q * 2 ^ suc k + r) / 2 ≡ q * 2 ^ k + r / 2 = omega (arith, doubled) in
    omega (
      arith,
      doubled,
      xor_step (q * 2 ^ suc k + r) r,
      ap (λ n. bit_xor n (r / 2)) halved,
      xor_fields k q (r / 2) (omega (arith, double)),
    )

-- What is left of a number without its lowest byte.
pub xor_low_byte : (a : ℕ) → bit_xor a (a % 256) ≡ a / 256 * 256
xor_low_byte a =
    let whole : a / 256 * 256 + a % 256 ≡ a = omega arith in
    ap (λ n. bit_xor n (a % 256)) (sym whole) ∙ xor_fields 8 (a / 256) (a % 256) (omega arith)

-- A digit above all the others stays.
pub xor_top : (k a b : ℕ) → a < 2 ^ k → b < 2 ^ k → bit_xor a (2 ^ k + b) ≡ 2 ^ k + bit_xor a b
xor_top zero zero zero p q = refl
xor_top zero zero (suc b) p q = absurd (omega arith)
xor_top zero (suc a) b p q = absurd (omega arith)
xor_top (suc k) a b p q =
    let double : 2 ^ suc k ≡ 2 ^ k * 2 = pow-suc 2 k in
    let halved : (2 ^ suc k + b) / 2 ≡ 2 ^ k + b / 2 = omega (arith, double) in
    omega (
      arith,
      double,
      xor_step a (2 ^ suc k + b),
      xor_step a b,
      ap (bit_xor (a / 2)) halved,
      xor_top k (a / 2) (b / 2) (omega (arith, double)) (omega (arith, double)),
    )

or_step : (a b : ℕ) → bit_or a b ≡ bit_or (a / 2) (b / 2) * 2 + max (a % 2) (b % 2)
or_step zero b = simp bit_or-bitwise (omega arith)
or_step (suc a) b = simp bit_or-bitwise (bitwise_halves (λ y. y) max a b)

or_zero_below : (k a : ℕ) → a ≤ k → bit_or a 0 ≡ a
or_zero_below zero zero h = refl
or_zero_below zero (suc a) h = absurd (omega arith)
or_zero_below (suc k) a h = omega (arith, or_step a 0, or_zero_below k (a / 2) (omega arith))

-- Numbers that share no digit are added.
pub or_fields : (k q r : ℕ) → r < 2 ^ k → bit_or (q * 2 ^ k) r ≡ q * 2 ^ k + r
or_fields zero q r h =
    let none_left : r ≡ 0 = omega arith in
    ap (bit_or (q * 1)) none_left
    ∙ or_zero_below (q * 1) (q * 1) (le_refl _)
    ∙ omega (arith, none_left)
or_fields (suc k) q r h =
    let double : 2 ^ suc k ≡ 2 ^ k * 2 = pow-suc 2 k in
    let doubled : q * 2 ^ suc k ≡ q * 2 ^ k * 2 = omega (arith, ap (λ n. q * n) double) in
    let halved : q * 2 ^ suc k / 2 ≡ q * 2 ^ k = omega (arith, doubled) in
    omega (
      arith,
      doubled,
      or_step (q * 2 ^ suc k) r,
      ap (λ n. bit_or n (r / 2)) halved,
      or_fields k q (r / 2) (omega (arith, double)),
    )
