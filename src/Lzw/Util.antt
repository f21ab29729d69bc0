-- ===== src/Lzw/Util.antt =====
-- LZW/util.c: `log2_64` and `power`.
use native.Mathlib.Nat.{
  pow-suc, mul_comm, mul_assoc, mod-mod, add-mul-mod_self_left, mod-add-div, mod-eq_of_lt, add-mul,
  pow-zero, mul-one, one-mul, zero-add,
}
use coding_projects.Prelude.{
  ℕ, zero, suc, ◌+◌, ◌*◌, ◌/◌, ◌%◌, ◌^◌, ◌≤◌, ◌<◌, bit_and, Option, none, some, ◌≡◌, refl, sym, ap,
  ◌∙◌, arith, ltb, ltb→lt, ◌==◌, ==_iff, ==_of_ne, if◌then◌else◌, Bool-cases, inl, inr, false,
}
use coding_projects.Bits.{bit_and-one}
use coding_projects.Speck.{word}

-- `while(n > 1) { ret += 1; n >>= 1; }`; `ret` is a `uint8_t`.
pub log2_loop : ℕ → ℕ → ℕ → Option ℕ
log2_loop zero ret n = none
log2_loop (suc fuel) ret n =
    let next = log2_loop fuel ((ret + 1) % 256) (n / 2) in if ltb 1 n then next else some ret

-- `none` is the failed assertion `n != 0`, or a loop of more than 64 rounds.
pub log2_64 : ℕ → Option ℕ
log2_64 n = if n == 0 then none else log2_loop 64 0 n

-- `while(exp)`, with the state `base` and `ret`.
pub power_loop : ℕ → ℕ → ℕ → ℕ → Option ℕ
power_loop zero base exp ret = none
power_loop (suc fuel) base exp ret =
    let ret' = if bit_and exp 1 == 0 then ret else word (ret * base) in
    let next = power_loop fuel (word (base * base)) (exp / 2) ret' in
    if exp == 0 then some ret else next

pub power : ℕ → ℕ → Option ℕ
power base exp = power_loop 65 base exp 1

log2_loop_lem :
    (fuel ret n : ℕ)
    → 0 < n
    → n < 2 ^ fuel
    → ret + fuel < 256
    → (r : ℕ) × (log2_loop fuel ret n ≡ some (ret + r)) × (2 ^ r ≤ n) × (n < 2 ^ (r + 1))
unfolding log2_loop
log2_loop_lem zero ret n pos small room = absurd (omega arith)
log2_loop_lem (suc fuel) ret n pos small room = elim (Bool-cases (ltb 1 n)) [
  | inl more ↦
      let l = ltb→lt 1 n more in
      let rest =
        log2_loop_lem fuel (ret + 1) (n / 2) (omega arith) (omega (arith, pow-suc 2 fuel))
          (omega arith) in
      let small_ret : (ret + 1) % 256 ≡ ret + 1 = omega arith in
      let next : suc rest.0 + 1 ≡ suc (rest.0 + 1) = omega arith in
      let moved : ret + 1 + rest.0 ≡ ret + suc rest.0 = omega arith in
      (
        suc rest.0,
        rw (more, small_ret) (rest.1 ∙ ap some moved),
        omega (arith, rest.2, pow-suc 2 rest.0),
        omega (arith, rest.3, pow-suc 2 (rest.0 + 1), ap (λ (k : ℕ). 2 ^ k) next),
      )
  | inr last ↦ (0, rw last (ap some (omega arith)), omega arith, ground arith)
]

-- For a number from 1 to 2^64 - 1, `log2_64` returns the number of its highest bit.
pub log2_64_lem :
    (n : ℕ) → 0 < n → n < 2 ^ 64 → (r : ℕ) × (log2_64 n ≡ some r) × (2 ^ r ≤ n) × (n < 2 ^ (r + 1))
unfolding log2_64
log2_64_lem n pos small = elim (Bool-cases (n == 0)) [
  | inl e ↦ absurd (omega (arith, (==_iff n 0).0 e))
  | inr e ↦
      let l = log2_loop_lem 64 0 n pos small (omega arith) in
      (l.0, rw e (l.1 ∙ ap some (zero-add l.0)), l.2, l.3)
]

mul-mod_first : (m a b : ℕ) → a % m * b % m ≡ a * b % m
mul-mod_first m a b =
    let split : a * b ≡ a % m * b + m * (a / m * b) =
      ap (λ (t : ℕ). t * b) (sym (mod-add-div a m))
      ∙ add-mul (a % m) (m * (a / m)) b
      ∙ ap (λ (t : ℕ). a % m * b + t) (mul_assoc m (a / m) b) in
    rw split (sym (add-mul-mod_self_left (a % m * b) m (a / m * b)))

mul-mod_both : (m a b : ℕ) → a % m * (b % m) % m ≡ a * b % m
mul-mod_both m a b =
    mul-mod_first m a (b % m)
    ∙ ap (λ (t : ℕ). t % m) (mul_comm a (b % m))
    ∙ mul-mod_first m b a
    ∙ ap (λ (t : ℕ). t % m) (mul_comm b a)

pow-mod : (m a k : ℕ) → (a % m) ^ k % m ≡ a ^ k % m
pow-mod m a zero = rw (pow-zero (a % m), pow-zero a) refl
pow-mod m a (suc k) =
    ap (λ (t : ℕ). t % m) (pow-suc (a % m) k)
    ∙ sym (mul-mod_both m ((a % m) ^ k) (a % m))
    ∙ ap (λ (t : ℕ). t * (a % m % m) % m) (pow-mod m a k)
    ∙ ap (λ (t : ℕ). a ^ k % m * t % m) (mod-mod a m)
    ∙ mul-mod_both m (a ^ k) a
    ∙ ap (λ (t : ℕ). t % m) (sym (pow-suc a k))

-- The product that a round leaves, without the reductions on the way.
mul-pow-mod : (m a b k : ℕ) → a % m * (b % m) ^ k % m ≡ a * b ^ k % m
mul-pow-mod m a b k =
    sym (mul-mod_both m (a % m) ((b % m) ^ k))
    ∙ ap (λ (t : ℕ). t * ((b % m) ^ k % m) % m) (mod-mod a m)
    ∙ ap (λ (t : ℕ). a % m * t % m) (pow-mod m b k)
    ∙ mul-mod_both m a (b ^ k)

pow-square : (b k : ℕ) → (b * b) ^ k ≡ b ^ (k + k)
pow-square b zero = rw (pow-zero (b * b), pow-zero b) refl
pow-square b (suc k) =
    let e : suc k + suc k ≡ suc (suc (k + k)) = omega arith in
    pow-suc (b * b) k
    ∙ ap (λ (t : ℕ). t * (b * b)) (pow-square b k)
    ∙ sym (mul_assoc (b ^ (k + k)) b b)
    ∙ ap (λ (t : ℕ). t * b) (sym (pow-suc b (k + k)))
    ∙ sym (pow-suc b (suc (k + k)))
    ∙ ap (λ (n : ℕ). b ^ n) (sym e)

pow_even : (b e : ℕ) → e % 2 ≡ 0 → (b * b) ^ (e / 2) ≡ b ^ e
pow_even b e even = pow-square b (e / 2) ∙ ap (λ (n : ℕ). b ^ n) (omega arith)

pow_odd : (r b e : ℕ) → e % 2 ≡ 1 → r * b * (b * b) ^ (e / 2) ≡ r * b ^ e
pow_odd r b e odd =
    let n : e ≡ suc (e / 2 + e / 2) = omega arith in
    ap (λ (t : ℕ). r * b * t) (pow-square b (e / 2))
    ∙ mul_assoc r b (b ^ (e / 2 + e / 2))
    ∙ ap (λ (t : ℕ). r * t)
        (mul_comm b (b ^ (e / 2 + e / 2))
          ∙ sym (pow-suc b (e / 2 + e / 2))
          ∙ ap (λ (k : ℕ). b ^ k) (sym n))

power_loop_lem :
    (fuel base exp ret : ℕ)
    → exp < 2 ^ fuel
    → ret < 2 ^ 64
    → power_loop (suc fuel) base exp ret ≡ some (word (ret * base ^ exp))
unfolding power_loop
power_loop_lem fuel base zero ret small fits = ap some (
    sym
      (ap (λ (t : ℕ). word (ret * t)) (pow-zero base) ∙ ap word (mul-one ret) ∙ mod-eq_of_lt fits))
power_loop_lem zero base (suc exp) ret small fits = absurd (omega arith)
power_loop_lem (suc fuel) base (suc exp) ret small fits =
    let e = suc exp in
    let more : (suc exp == 0) ≡ false = ==_of_ne (suc exp) 0 (λ p. omega arith) in
    let half : e / 2 < 2 ^ fuel = omega (arith, pow-suc 2 fuel) in
    elim (Bool-cases (bit_and e 1 == 0)) [
      | inl even ↦
          let digit : e % 2 ≡ 0 = omega (arith, bit_and-one e, (==_iff (bit_and e 1) 0).0 even) in
          rw (more, even)
            (power_loop_lem fuel (word (base * base)) (e / 2) ret half fits
              ∙ ap (λ (t : ℕ). some (word (t * word (base * base) ^ (e / 2))))
                  (sym (mod-eq_of_lt fits))
              ∙ ap some (mul-pow-mod (2 ^ 64) ret (base * base) (e / 2))
              ∙ ap (λ (t : ℕ). some (word (ret * t))) (pow_even base e digit))
      | inr odd ↦
          let digit : e % 2 ≡ 1 = ground (arith, bit_and-one e) in
          rw (more, odd)
            (power_loop_lem fuel (word (base * base)) (e / 2) (word (ret * base)) half (omega arith)
              ∙ ap some (mul-pow-mod (2 ^ 64) (ret * base) (base * base) (e / 2))
              ∙ ap (λ (t : ℕ). some (word t)) (pow_odd ret base e digit))
    ]

-- For an exponent below 2^64, `power` returns the power modulo 2^64.
pub power_lem : (base exp : ℕ) → exp < 2 ^ 64 → power base exp ≡ some (base ^ exp % 2 ^ 64)
unfolding power
power_lem base exp small =
    power_loop_lem 64 base exp 1 small (omega arith)
    ∙ ap (λ (t : ℕ). some (word t)) (one-mul (base ^ exp))
