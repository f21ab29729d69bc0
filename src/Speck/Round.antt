-- ===== src/Speck/Round.antt =====
-- One round of the cipher: the macro `R` stays within its words and loses nothing.
use coding_projects.Prelude.{ℕ, ◌+◌, ◌*◌, ◌/◌, ◌%◌, ◌^◌, ◌<◌, bit_xor, ◌≡◌, sym, arith, ap, ◌∙◌}
use coding_projects.Bits.{bit_or-sum, bit_or-sum_low, bit_xor_undo, bit_xor-lt}
use coding_projects.Speck.{word, lcs, rcs, Pair, round}

pub lcs_three : (y : ℕ) → y < 2 ^ 64 → lcs y 3 ≡ y % 2 ^ 61 * 8 + y / 2 ^ 61
unfolding lcs
lcs_three y h =
    let high : word (y * 2 ^ 3) ≡ y % 2 ^ 61 * 2 ^ 3 = omega arith in
    rw high (bit_or-sum 3 (y % 2 ^ 61) (y / 2 ^ 61) (omega arith))

pub rcs_eight : (x : ℕ) → x < 2 ^ 64 → rcs x 8 ≡ x % 2 ^ 8 * 2 ^ 56 + x / 2 ^ 8
unfolding rcs
rcs_eight x h =
    let high : word (x * 2 ^ 56) ≡ x % 2 ^ 8 * 2 ^ 56 = omega arith in
    rw high (bit_or-sum_low 64 56 (x % 2 ^ 8) (x / 2 ^ 8) (omega arith) (omega arith) (omega arith))

lcs-injective : (y z : ℕ) → y < 2 ^ 64 → z < 2 ^ 64 → lcs y 3 ≡ lcs z 3 → y ≡ z
lcs-injective y z hy hz e = omega (arith, lcs_three y hy, lcs_three z hz)

rcs-injective : (x z : ℕ) → x < 2 ^ 64 → z < 2 ^ 64 → rcs x 8 ≡ rcs z 8 → x ≡ z
rcs-injective x z hx hz e = omega (arith, rcs_eight x hx, rcs_eight z hz)

xor-injective : (a b k : ℕ) → bit_xor a k ≡ bit_xor b k → a ≡ b
xor-injective a b k e = sym (bit_xor_undo a k) ∙ ap (λ (t : ℕ). bit_xor t k) e ∙ bit_xor_undo b k

word_add-injective : (a b y : ℕ) → a < 2 ^ 64 → b < 2 ^ 64 → word (a + y) ≡ word (b + y) → a ≡ b
word_add-injective a b y ha hb e = omega arith

-- Both words of a pair fit `uint64_t`.
abbrev pub IsPair : Pair → Type 0
IsPair p = (p.x < 2 ^ 64) × (p.y < 2 ^ 64)

rcs-lt : (x : ℕ) → x < 2 ^ 64 → rcs x 8 < 2 ^ 64
rcs-lt x h = omega (arith, rcs_eight x h)

lcs-lt : (y : ℕ) → y < 2 ^ 64 → lcs y 3 < 2 ^ 64
lcs-lt y h = omega (arith, lcs_three y h)

pub round-IsPair : (x y k : ℕ) → y < 2 ^ 64 → k < 2 ^ 64 → IsPair (round x y k)
unfolding round
round-IsPair x y k hy hk =
    let x3 = bit_xor-lt 64 (word (rcs x 8 + y)) k (omega arith) hk in
    (x3, bit_xor-lt 64 (lcs y 3) (bit_xor (word (rcs x 8 + y)) k) (lcs-lt y hy) x3)

-- Under one round key, equal results come from equal pairs.
pub round-injective :
    (x y x' y' k : ℕ)
    → x < 2 ^ 64
    → y < 2 ^ 64
    → x' < 2 ^ 64
    → y' < 2 ^ 64
    → (round x y k).x ≡ (round x' y' k).x
    → (round x y k).y ≡ (round x' y' k).y
    → (x ≡ x') × (y ≡ y')
unfolding round
round-injective x y x' y' k hx hy hx' hy' ex ey =
    let same_y : y ≡ y' =
      lcs-injective y y' hy hy'
        (xor-injective _ _ (bit_xor (word (rcs x 8 + y)) k) (rw (← ex) at ey)) in
    let sums : word (rcs x 8 + y) ≡ word (rcs x' 8 + y) =
      rw (← same_y) at (xor-injective _ _ k ex) in
    (
      rcs-injective x x' hx hx' (word_add-injective _ _ y (rcs-lt x hx) (rcs-lt x' hx') sums),
      same_y,
    )
