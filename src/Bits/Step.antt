-- ===== src/Bits/Step.antt =====
-- One equation for the lowest digit of each operation, from the digit recursion that the native
-- operations stand for.
use Prim.Native.Nat.{digits, bitwise, bit_and-bitwise, bit_or-bitwise, bit_xor-bitwise}
use coding_projects.Prelude.{
  ℕ, zero, suc, ◌+◌, ◌*◌, ◌/◌, ◌%◌, ◌≤◌, min, max, bit_and, bit_or, bit_xor, differ, ◌≡◌, refl,
  arith,
}

-- A count of digits that is at least the first number gives the same result.
module _ (rest : ℕ → ℕ) (join : ℕ → ℕ → ℕ) where
  more_digits : (m n x y : ℕ) → x ≤ m → x ≤ n → digits rest join m x y ≡ digits rest join n x y
  more_digits zero zero x y h k = refl
  more_digits zero (suc n) zero y h k = refl
  more_digits (suc m) zero zero y h k = refl
  more_digits (suc m) (suc n) zero y h k = refl
  more_digits zero n (suc x) y h k = absurd (omega arith)
  more_digits (suc m) zero (suc x) y h k = absurd (omega arith)
  more_digits (suc m) (suc n) (suc x) y h k =
      rw (more_digits m n (suc x / 2) (y / 2) (omega arith) (omega arith))

  next_digit :
      (x y : ℕ)
      → bitwise rest join (suc x) y
        ≡ bitwise rest join (suc x / 2) (y / 2) * 2 + join (suc x % 2) (y % 2)
  next_digit x y = rw (more_digits x (suc x / 2) (suc x / 2) (y / 2) (omega arith) (omega arith))

pub bit_and_step : (m n : ℕ) → bit_and m n ≡ bit_and (m / 2) (n / 2) * 2 + min (m % 2) (n % 2)
bit_and_step zero n = simp bit_and-bitwise (omega arith)
bit_and_step (suc m) n = simp bit_and-bitwise (next_digit (λ y. 0) min m n)

pub bit_or_step : (m n : ℕ) → bit_or m n ≡ bit_or (m / 2) (n / 2) * 2 + max (m % 2) (n % 2)
bit_or_step zero n = simp bit_or-bitwise (omega arith)
bit_or_step (suc m) n = simp bit_or-bitwise (next_digit (λ y. y) max m n)

pub bit_xor_step : (m n : ℕ) → bit_xor m n ≡ bit_xor (m / 2) (n / 2) * 2 + differ (m % 2) (n % 2)
bit_xor_step zero n = simp bit_xor-bitwise (omega arith)
bit_xor_step (suc m) n = simp bit_xor-bitwise (next_digit (λ y. y) differ m n)
