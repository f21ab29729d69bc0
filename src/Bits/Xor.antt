-- ===== src/Bits/Xor.antt =====
-- Exclusive or undoes itself and stays within a power of two.
use native.Mathlib.Nat.{pow-suc}
use coding_projects.Prelude.{
  ℕ, zero, suc, ◌+◌, ◌/◌, ◌%◌, ◌^◌, ◌≤◌, ◌<◌, bit_xor, differ, ◌≡◌, refl, arith,
}
use coding_projects.Bits.Step.{bit_xor_step}

differ_digits : (a b : ℕ) → a < 2 → b < 2 → (differ a b < 2) × (differ (differ a b) b ≡ a)
differ_digits zero zero h k = (omega arith, refl)
differ_digits zero (suc zero) h k = (omega arith, refl)
differ_digits (suc zero) zero h k = (omega arith, refl)
differ_digits (suc zero) (suc zero) h k = (omega arith, refl)
differ_digits zero (suc (suc b)) h k = absurd (omega arith)
differ_digits (suc zero) (suc (suc b)) h k = absurd (omega arith)
differ_digits (suc (suc a)) b h k = absurd (omega arith)

digit-lt : (a : ℕ) → a % 2 < 2
digit-lt a = omega arith

xor_undo_below : (n a b : ℕ) → a + b ≤ n → bit_xor (bit_xor a b) b ≡ a
xor_undo_below zero a b h =
    let ea : a ≡ 0 = omega arith in let eb : b ≡ 0 = omega arith in rw (ea, eb) refl
xor_undo_below (suc n) a b h = ground (
  arith,
  bit_xor_step a b,
  bit_xor_step (bit_xor a b) b,
  differ_digits (a % 2) (b % 2) (digit-lt a) (digit-lt b),
  xor_undo_below n (a / 2) (b / 2),
)

-- x ^ y ^ y is x.
pub bit_xor_undo : (a b : ℕ) → bit_xor (bit_xor a b) b ≡ a
bit_xor_undo a b = xor_undo_below (a + b) a b (omega arith)

pub bit_xor-lt : (k a b : ℕ) → a < 2 ^ k → b < 2 ^ k → bit_xor a b < 2 ^ k
bit_xor-lt zero a b h g =
    let ea : a ≡ 0 = omega arith in let eb : b ≡ 0 = omega arith in rw (ea, eb) (omega arith)
bit_xor-lt (suc k) a b h g = omega (
  arith,
  pow-suc 2 k,
  bit_xor_step a b,
  (differ_digits (a % 2) (b % 2) (digit-lt a) (digit-lt b)).0,
  bit_xor-lt k (a / 2) (b / 2) (omega (arith, pow-suc 2 k)) (omega (arith, pow-suc 2 k)),
)
