-- ===== src/Bits/Test.antt =====
-- A word as the row of its bits: reading, setting and clearing one, and equality bit by bit.
use Prim.Native.Nat.{bit_and-bitwise}
use native.Mathlib.Nat.{
  pow-suc, pow-le-pow_right, one-le-pow, div-div-eq-div-mul, mul_comm, div-one,
}
use coding_projects.Prelude.{
  ℕ, zero, suc, ◌-◌, ◌*◌, ◌/◌, ◌%◌, ◌^◌, ◌≤◌, ◌<◌, min, max, bit_and, bit_or, bit_xor, differ, ◌≡◌,
  ◌≢◌, refl, ap, arith,
}
use coding_projects.Bits.Step.{bit_and_step, bit_or_step, bit_xor_step}

-- Bit number `k` of `x`, 0 or 1.
unfoldable pub test_bit : ℕ → ℕ → ℕ
test_bit x zero = x % 2
test_bit x (suc k) = test_bit (x / 2) k

pub test_bit-lt : (x k : ℕ) → test_bit x k < 2
unfolding test_bit
test_bit-lt x zero = omega arith
test_bit-lt x (suc k) = test_bit-lt (x / 2) k

pub test_bit_zero : (k : ℕ) → test_bit 0 k ≡ 0
unfolding test_bit
test_bit_zero zero = refl
test_bit_zero (suc k) = test_bit_zero k

-- `(x >> k) & 1`, as arithmetic.
pub test_bit-shift : (x k : ℕ) → test_bit x k ≡ x / 2 ^ k % 2
unfolding test_bit
test_bit-shift x zero = rw div-one
test_bit-shift x (suc k) =
    rw (test_bit-shift (x / 2) k, div-div-eq-div-mul, pow-suc, mul_comm (2 ^ k) 2)

max-lt : (a b : ℕ) → max (a % 2) (b % 2) < 2
max-lt a b = omega arith

min-lt : (a b : ℕ) → min (a % 2) (b % 2) < 2
min-lt a b = omega arith

differ-lt : (a b : ℕ) → a < 2 → b < 2 → differ a b < 2
differ-lt zero b h k = k
differ-lt (suc a) zero h k = h
differ-lt (suc a) (suc b) h k = differ-lt a b (omega arith) (omega arith)

pub test_bit-or : (k a b : ℕ) → test_bit (bit_or a b) k ≡ max (test_bit a k) (test_bit b k)
unfolding test_bit
test_bit-or zero a b = omega (arith, bit_or_step a b)
test_bit-or (suc k) a b =
    let e : bit_or a b / 2 ≡ bit_or (a / 2) (b / 2) = omega (arith, bit_or_step a b) in
    rw e (test_bit-or k (a / 2) (b / 2))

pub test_bit-and : (k a b : ℕ) → test_bit (bit_and a b) k ≡ min (test_bit a k) (test_bit b k)
unfolding test_bit
test_bit-and zero a b = omega (arith, bit_and_step a b)
test_bit-and (suc k) a b =
    let e : bit_and a b / 2 ≡ bit_and (a / 2) (b / 2) = omega (arith, bit_and_step a b) in
    rw e (test_bit-and k (a / 2) (b / 2))

pub test_bit-xor : (k a b : ℕ) → test_bit (bit_xor a b) k ≡ differ (test_bit a k) (test_bit b k)
unfolding test_bit
test_bit-xor zero a b =
    omega (arith, bit_xor_step a b, differ-lt (a % 2) (b % 2) (omega arith) (omega arith))
test_bit-xor (suc k) a b =
    let d = differ-lt (a % 2) (b % 2) (omega arith) (omega arith) in
    let e : bit_xor a b / 2 ≡ bit_xor (a / 2) (b / 2) = omega (arith, bit_xor_step a b, d) in
    rw e (test_bit-xor k (a / 2) (b / 2))

-- `1 << j` has bit `j` alone.
pub test_bit-pow_self : (j : ℕ) → test_bit (2 ^ j) j ≡ 1
unfolding test_bit
test_bit-pow_self zero = refl
test_bit-pow_self (suc j) =
    let e : 2 ^ suc j / 2 ≡ 2 ^ j = omega (arith, pow-suc 2 j) in rw e (test_bit-pow_self j)

pub test_bit-pow_ne : (j k : ℕ) → j ≢ k → test_bit (2 ^ j) k ≡ 0
unfolding test_bit
test_bit-pow_ne zero zero h = absurd (h refl)
test_bit-pow_ne zero (suc k) h = test_bit_zero k
test_bit-pow_ne (suc j) zero h = omega (arith, pow-suc 2 j)
test_bit-pow_ne (suc j) (suc k) h =
    let e : 2 ^ suc j / 2 ≡ 2 ^ j = omega (arith, pow-suc 2 j) in
    rw e (test_bit-pow_ne j k (λ p. h (omega arith)))

-- `~x` in a word of `w` bits.
pub test_bit_not : (w k x : ℕ) → k < w → x < 2 ^ w → test_bit (2 ^ w - 1 - x) k ≡ 1 - test_bit x k
unfolding test_bit
test_bit_not zero k x h g = absurd (omega arith)
test_bit_not (suc w) zero x h g = omega (arith, pow-suc 2 w)
test_bit_not (suc w) (suc k) x h g =
    let p = pow-suc 2 w in
    let e : (2 ^ suc w - 1 - x) / 2 ≡ 2 ^ w - 1 - x / 2 = omega (arith, p) in
    rw e (test_bit_not w k (x / 2) (omega arith) (omega (arith, p)))

-- Words of `w` bits with the same bits are equal.
pub eq_of_test_bit :
    (w a b : ℕ) → a < 2 ^ w → b < 2 ^ w → ((k : ℕ) → k < w → test_bit a k ≡ test_bit b k) → a ≡ b
unfolding test_bit
eq_of_test_bit zero a b h g same = omega arith
eq_of_test_bit (suc w) a b h g same =
    let p = pow-suc 2 w in
    let rest : a / 2 ≡ b / 2 =
      eq_of_test_bit w (a / 2) (b / 2) (omega (arith, p)) (omega (arith, p))
        (λ k l. same (suc k) (omega arith)) in
    omega (arith, same 0 (omega arith), rest)

-- The bits above the width are clear.
pub test_bit_high : (w k x : ℕ) → x < 2 ^ w → w ≤ k → test_bit x k ≡ 0
unfolding test_bit
test_bit_high zero k x h g = let e : x ≡ 0 = omega arith in rw e (test_bit_zero k)
test_bit_high (suc w) zero x h g = absurd (omega arith)
test_bit_high (suc w) (suc k) x h g =
    test_bit_high w k (x / 2) (omega (arith, pow-suc 2 w)) (omega arith)

bit_and-zero : (w a : ℕ) → a < 2 ^ w → bit_and a 0 ≡ 0
bit_and-zero zero a h = let e : a ≡ 0 = omega arith in rw e refl
bit_and-zero (suc w) a h =
    omega
      (arith, pow-suc 2 w, bit_and_step a 0, bit_and-zero w (a / 2) (omega (arith, pow-suc 2 w)))

pub lt-two-pow : (a : ℕ) → a < 2 ^ a
lt-two-pow zero = omega arith
lt-two-pow (suc a) = omega (arith, pow-suc 2 a, lt-two-pow a)

-- `x & (1 << j)` is bit `j` in its place.
pub bit_and-pow : (j a : ℕ) → bit_and a (2 ^ j) ≡ test_bit a j * 2 ^ j
unfolding test_bit
bit_and-pow zero a =
    omega (arith, bit_and_step a 1, bit_and-zero (a / 2) (a / 2) (lt-two-pow (a / 2)))
bit_and-pow (suc j) a =
    let p = pow-suc 2 j in
    let half : 2 ^ suc j / 2 ≡ 2 ^ j = omega (arith, p) in
    rw (bit_and_step a (2 ^ suc j), half, bit_and-pow j (a / 2))
      (omega (arith, p, ap (λ (t : ℕ). test_bit (a / 2) j * t) p))

pub bit_and-one : (a : ℕ) → bit_and a 1 ≡ a % 2
bit_and-one a = omega (arith, bit_and_step a 1, bit_and-zero (a / 2) (a / 2) (lt-two-pow (a / 2)))

pub bit_or-lt : (w a b : ℕ) → a < 2 ^ w → b < 2 ^ w → bit_or a b < 2 ^ w
bit_or-lt zero a b h g =
    let ea : a ≡ 0 = omega arith in let eb : b ≡ 0 = omega arith in rw (ea, eb) (omega arith)
bit_or-lt (suc w) a b h g =
    let p = pow-suc 2 w in
    omega
      (arith, p, bit_or_step a b, bit_or-lt w (a / 2) (b / 2) (omega (arith, p)) (omega (arith, p)))

bit_and_zero : (b : ℕ) → bit_and 0 b ≡ 0
bit_and_zero b = bit_and-bitwise 0 b

pub bit_and-le : (w a b : ℕ) → a < 2 ^ w → bit_and a b ≤ a
bit_and-le zero a b h = let e : a ≡ 0 = omega arith in rw e (omega (arith, bit_and_zero b))
bit_and-le (suc w) a b h = omega (
  arith,
  pow-suc 2 w,
  bit_and_step a b,
  bit_and-le w (a / 2) (b / 2) (omega (arith, pow-suc 2 w)),
)

pub two_pow_mono : (a b : ℕ) → a < b → 2 ^ a < 2 ^ b
two_pow_mono a b l =
    omega
      (arith, pow-le-pow_right {n = 2} (omega arith) l, pow-suc 2 a, one-le-pow a 2 (omega arith))
