-- ===== src/Phys/Buddy.antt =====
-- The address arithmetic of `vm_phys_free_pages`: the buddy of a block, and the block of both.
use native.Mathlib.Nat.{
  pow-suc, mul_assoc, mul_comm, mul-mod_left, pow-le-pow_right, div-one, mul-one,
  div-div-eq-div-mul, div-add-mod', one-le-pow, add-mul, one-mul, mul-div_left,
}
use native.Mathlib.Decide.{ℕ_discrete}
use coding_projects.Prelude.{
  ℕ, zero, suc, ◌+◌, ◌-◌, ◌*◌, ◌/◌, ◌%◌, ◌^◌, ◌≤◌, ◌<◌, bit_and, bit_xor, differ, ◌≡◌, refl, sym,
  ap, ◌∙◌, arith, ◌⊎◌, inl, inr,
}
use coding_projects.Bits.{bit_and_step, bit_xor_step, lt-two-pow}

bit_and_ones : (w x : ℕ) → x < 2 ^ w → bit_and x (2 ^ w - 1) ≡ x
bit_and_ones zero x h = let e : x ≡ 0 = omega arith in rw e refl
bit_and_ones (suc w) x h =
    let p = pow-suc 2 w in
    let half : (2 ^ suc w - 1) / 2 ≡ 2 ^ w - 1 = omega (arith, p) in
    let rest = bit_and_ones w (x / 2) (omega (arith, p)) in
    bit_and_step x (2 ^ suc w - 1) ∙ rw (half, rest) (omega (arith, p))

-- `x & ~((1 << k) - 1)` in a word of `w` bits.
pub bit_and_high : (k w x : ℕ) → x < 2 ^ w → k ≤ w → bit_and x (2 ^ w - 2 ^ k) ≡ x / 2 ^ k * 2 ^ k
bit_and_high zero w x h l = bit_and_ones w x h ∙ sym (mul-one (x / 1) ∙ div-one x)
bit_and_high (suc k) zero x h l = absurd (omega arith)
bit_and_high (suc k) (suc w) x h l =
    let p = pow-suc 2 w in
    let q = pow-suc 2 k in
    let le = pow-le-pow_right {n = 2} (omega arith) {i = k} {j = w} (omega arith) in
    let half : (2 ^ suc w - 2 ^ suc k) / 2 ≡ 2 ^ w - 2 ^ k = omega (arith, p, q, le) in
    let even : (2 ^ suc w - 2 ^ suc k) % 2 ≡ 0 = omega (arith, p, q, le) in
    let rest = bit_and_high k w (x / 2) (omega (arith, p)) (omega arith) in
    let split : x / 2 ^ suc k ≡ x / 2 / 2 ^ k =
      ap (λ (t : ℕ). x / t) (q ∙ mul_comm (2 ^ k) 2) ∙ sym (div-div-eq-div-mul x 2 (2 ^ k)) in
    let twice : x / 2 ^ suc k * 2 ^ suc k ≡ x / 2 / 2 ^ k * 2 ^ k * 2 =
      (λ i. split i * q i) ∙ sym (mul_assoc (x / 2 / 2 ^ k) (2 ^ k) 2) in
    bit_and_step x (2 ^ suc w - 2 ^ suc k) ∙ rw (half, rest, even, twice) (omega arith)

differ-zero : (d : ℕ) → differ d 0 ≡ d
differ-zero zero = refl
differ-zero (suc d) = refl

bit_xor-zero : (w a : ℕ) → a < 2 ^ w → bit_xor a 0 ≡ a
bit_xor-zero zero a h = let e : a ≡ 0 = omega arith in rw e refl
bit_xor-zero (suc w) a h = omega (
  arith,
  pow-suc 2 w,
  bit_xor_step a 0,
  bit_xor-zero w (a / 2) (omega (arith, pow-suc 2 w)),
  differ-zero (a % 2),
)

-- The other number of a pair that starts at an even one.
unfoldable pub flip : ℕ → ℕ
flip q = q / 2 * 2 + (1 - q % 2)

differ_one : (d : ℕ) → d < 2 → differ d 1 ≡ 1 - d
differ_one zero h = refl
differ_one (suc zero) h = refl
differ_one (suc (suc d)) h = absurd (omega arith)

bit_xor-one : (q : ℕ) → bit_xor q 1 ≡ flip q
unfolding flip
bit_xor-one q = omega (
  arith,
  bit_xor_step q 1,
  bit_xor-zero (q / 2) (q / 2) (lt-two-pow (q / 2)),
  differ_one (q % 2) (omega arith),
)

pub bit_xor-pow : (k q : ℕ) → bit_xor (q * 2 ^ k) (2 ^ k) ≡ flip q * 2 ^ k
bit_xor-pow zero q =
    ap (λ (t : ℕ). bit_xor t 1) (mul-one q) ∙ bit_xor-one q ∙ sym (mul-one (flip q))
bit_xor-pow (suc k) q =
    let p = pow-suc 2 k in
    let twice : q * 2 ^ suc k ≡ q * 2 ^ k * 2 =
      ap (λ (t : ℕ). q * t) p ∙ sym (mul_assoc q (2 ^ k) 2) in
    let half : q * 2 ^ suc k / 2 ≡ q * 2 ^ k = omega (arith, twice) in
    let even : q * 2 ^ suc k % 2 ≡ 0 = omega (arith, twice) in
    let half' : 2 ^ suc k / 2 ≡ 2 ^ k = omega (arith, p) in
    let even' : 2 ^ suc k % 2 ≡ 0 = omega (arith, p) in
    bit_xor_step (q * 2 ^ suc k) (2 ^ suc k)
    ∙ rw (half, even, half', even', bit_xor-pow k q)
        (omega (arith, ap (λ (t : ℕ). flip q * t) p ∙ sym (mul_assoc (flip q) (2 ^ k) 2)))

pub two_pow_add : (a b : ℕ) → 2 ^ (a + b) ≡ 2 ^ b * 2 ^ a
two_pow_add a zero = omega (arith, ap (λ (t : ℕ). 2 ^ t) (e a))
  where
    e : (a : ℕ) → a + 0 ≡ a
    e a = omega arith
two_pow_add a (suc b) =
    let e : a + suc b ≡ suc (a + b) = omega arith in
    ap (λ (t : ℕ). 2 ^ t) e
    ∙ pow-suc 2 (a + b)
    ∙ ap (λ (t : ℕ). t * 2) (two_pow_add a b)
    ∙ mul_assoc (2 ^ b) (2 ^ a) 2
    ∙ ap (λ (t : ℕ). 2 ^ b * t) (mul_comm (2 ^ a) 2)
    ∙ sym (mul_assoc (2 ^ b) 2 (2 ^ a))
    ∙ ap (λ (t : ℕ). t * 2 ^ a) (sym (pow-suc 2 b))

-- The address of the first page of the block number `q` of order `o`.
pub address : (q o : ℕ) → q * 2 ^ o * 2 ^ 12 ≡ q * 2 ^ (12 + o)
address q o = mul_assoc q (2 ^ o) (2 ^ 12) ∙ ap (λ (t : ℕ). q * t) (sym (two_pow_add 12 o))

-- The two blocks of a pair, and the block of both.
pub record Pair (m o b both : ℕ) : Type 0 where
  pub xor_is : bit_xor (m * 2 ^ 12) (2 ^ (12 + o)) ≡ b * 2 ^ 12
  pub start : b % 2 ^ o ≡ 0
  pub start_both : both % 2 ^ suc o ≡ 0
  pub places : (both ≡ m) × (b ≡ m + 2 ^ o) ⊎ (both ≡ b) × (m ≡ b + 2 ^ o)
  pub mask_is :
      12 + (o + 1) ≤ 64
      → b * 2 ^ 12 < 2 ^ 64
      → bit_and (b * 2 ^ 12) (2 ^ 64 - 2 ^ (12 + (o + 1))) ≡ both * 2 ^ 12

module _ (m o : ℕ) (start : m % 2 ^ o ≡ 0) where
  abbrev pub number : ℕ
  number = m / 2 ^ o

  m_is : m ≡ number * 2 ^ o
  m_is = omega (arith, div-add-mod' m (2 ^ o), start)

  abbrev pub buddy : ℕ
  buddy = flip number * 2 ^ o

  abbrev pub merged : ℕ
  merged = number / 2 * 2 ^ suc o

  merged_is : merged ≡ number / 2 * 2 * 2 ^ o
  merged_is =
      ap (λ (t : ℕ). number / 2 * t) (pow-suc 2 o ∙ mul_comm (2 ^ o) 2)
      ∙ sym (mul_assoc (number / 2) 2 (2 ^ o))

  masked :
      12 + (o + 1) ≤ 64
      → buddy * 2 ^ 12 < 2 ^ 64
      → bit_and (buddy * 2 ^ 12) (2 ^ 64 - 2 ^ (12 + (o + 1))) ≡ merged * 2 ^ 12
  unfolding flip
  masked fits small =
      let k : 12 + (o + 1) ≡ suc (12 + o) = omega arith in
      let k' : 12 + (o + 1) ≡ 12 + suc o = omega arith in
      let half : flip number / 2 ≡ number / 2 = omega arith in
      let quotient : buddy * 2 ^ 12 / 2 ^ (12 + (o + 1)) ≡ number / 2 =
        (λ i. address (flip number) o i / (ap (λ (t : ℕ). 2 ^ t) k ∙ pow-suc 2 (12 + o)) i)
        ∙ sym (div-div-eq-div-mul (flip number * 2 ^ (12 + o)) (2 ^ (12 + o)) 2)
        ∙ ap (λ (t : ℕ). t / 2) (mul-div_left (flip number) (one-le-pow (12 + o) 2 (omega arith)))
        ∙ half in
      bit_and_high (12 + (o + 1)) 64 (buddy * 2 ^ 12) small fits
      ∙ ap (λ (t : ℕ). t * 2 ^ (12 + (o + 1))) quotient
      ∙ ap (λ (t : ℕ). number / 2 * 2 ^ t) k'
      ∙ sym (address (number / 2) (suc o))

  two_places : (merged ≡ m) × (buddy ≡ m + 2 ^ o) ⊎ (merged ≡ buddy) × (m ≡ buddy + 2 ^ o)
  unfolding flip
  two_places = elim (ℕ_discrete (number % 2) 0) [
    | yes even ↦
        let e : number / 2 * 2 ≡ number = omega arith in
        let f : flip number ≡ number + 1 = omega arith in
        inl (
          merged_is ∙ ap (λ (t : ℕ). t * 2 ^ o) e ∙ sym m_is,
          ap (λ (t : ℕ). t * 2 ^ o) f
              ∙ add-mul number 1 (2 ^ o)
              ∙ omega (arith, m_is, one-mul (2 ^ o)),
        )
    | no odd ↦
        let e : number / 2 * 2 ≡ flip number = omega arith in
        let f : number ≡ flip number + 1 = omega arith in
        inr (
          merged_is ∙ ap (λ (t : ℕ). t * 2 ^ o) e,
          m_is
              ∙ ap (λ (t : ℕ). t * 2 ^ o) f
              ∙ add-mul (flip number) 1 (2 ^ o)
              ∙ omega (arith, one-mul (2 ^ o)),
        )
  ]

  pub buddy_pair : Pair m o buddy merged
  buddy_pair = record {
    xor_is =
        ap (λ (t : ℕ). bit_xor (t * 2 ^ 12) (2 ^ (12 + o))) m_is
        ∙ ap (λ (t : ℕ). bit_xor t (2 ^ (12 + o))) (address number o)
        ∙ bit_xor-pow (12 + o) number
        ∙ sym (address (flip number) o);
    start = mul-mod_left (flip number) (2 ^ o);
    start_both = mul-mod_left (number / 2) (2 ^ suc o);
    places = two_places;
    mask_is = masked;
  }
