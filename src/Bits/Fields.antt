-- ===== src/Bits/Fields.antt =====
-- `(q << k) | r` as a sum, where `r` fits below.
use native.Mathlib.Nat.{pow-suc}
use coding_projects.Prelude.{
  ℕ, zero, suc, ◌+◌, ◌*◌, ◌/◌, ◌^◌, ◌<◌, ◌%◌, max, bit_or, ◌≡◌, refl, arith, ap, ◌∙◌,
}
use coding_projects.Bits.Step.{bit_or_step}

bit_or-nothing_below : (n a : ℕ) → a < suc n → bit_or a 0 ≡ a
bit_or-nothing_below n zero h = refl
bit_or-nothing_below zero (suc a) h = absurd (omega arith)
bit_or-nothing_below (suc n) (suc a) h =
    omega (arith, bit_or_step (suc a) 0, bit_or-nothing_below n (suc a / 2) (omega arith))

pub bit_or-sum : (k q r : ℕ) → r < 2 ^ k → bit_or (q * 2 ^ k) r ≡ q * 2 ^ k + r
bit_or-sum zero q r h =
    let e : r ≡ 0 = omega arith in rw e (ground (arith, bit_or-nothing_below (q * 1) (q * 1)))
bit_or-sum (suc k) q r h =
    let double : q * 2 ^ suc k ≡ q * 2 ^ k * 2 =
      omega (arith, ap (λ (t : ℕ). q * t) (pow-suc 2 k)) in
    ground (arith, double, pow-suc 2 k, bit_or_step (q * 2 ^ suc k) r, bit_or-sum k q (r / 2))

max_swap : (a b : ℕ) → max a b ≡ max b a
max_swap a b = omega arith

bit_or_swap_below : (w a b : ℕ) → a < 2 ^ w → b < 2 ^ w → bit_or a b ≡ bit_or b a
bit_or_swap_below zero a b h g =
    let ea : a ≡ 0 = omega arith in let eb : b ≡ 0 = omega arith in rw (ea, eb) refl
bit_or_swap_below (suc w) a b h g =
    let p = pow-suc 2 w in
    ground (
      arith,
      bit_or_step a b,
      bit_or_step b a,
      max_swap (a % 2) (b % 2),
      bit_or_swap_below w (a / 2) (b / 2) (omega (arith, p)) (omega (arith, p)),
    )

-- `r | (q << k)`, the other way round.
pub bit_or-sum_low :
    (w k q r : ℕ) → r < 2 ^ k → q * 2 ^ k < 2 ^ w → r < 2 ^ w → bit_or r (q * 2 ^ k) ≡ q * 2 ^ k + r
bit_or-sum_low w k q r h g l = bit_or_swap_below w r (q * 2 ^ k) l g ∙ bit_or-sum k q r h
