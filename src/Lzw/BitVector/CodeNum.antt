-- ===== src/Lzw/BitVector/CodeNum.antt =====
-- Code numbers written to bit vectors and read back.
use native.Mathlib.Nat.{
  div-one, pow-suc, div-div-eq-div-mul, div-eq_of_lt, div-le_self, pow-le-pow_right,
}
use coding_projects.Prelude.{
  ℕ, zero, suc, ◌+◌, ◌*◌, ◌/◌, ◌%◌, ◌^◌, ◌≤◌, ◌<◌, bit_and, ◌≡◌, ◌≢◌, refl, sym, ap, ◌∙◌, arith,
  ◌==◌, ==_iff, if◌then◌else◌, length, length-set, length-replicate, get_or-replicate, get_or,
  ==_of_ne, ==_refl, Bool-cases, inl, inr,
}
use coding_projects.Bits.{test_bit, test_bit-lt, test_bit_zero, test_bit-shift, bit_and-one}
use coding_projects.Speck.{word}
use coding_projects.Lzw.BitVector.{
  BitVector, byte_len, bv_create, bv_set_bit, bv_get_bit, put_bits, code_num_to_bv, take_bits,
  bv_to_code_num, get_bit-test_bit, get_bit-set_bit,
}

shifted_bit : (c i : ℕ) → bit_and (c / 2 ^ i) 1 ≡ test_bit c i
shifted_bit c i = bit_and-one (c / 2 ^ i) ∙ sym (test_bit-shift c i)

-- One round of `put_bits`.
abbrev put_bit : ℕ → ℕ → BitVector → BitVector
put_bit c i v = if bit_and (c / 2 ^ i) 1 == 0 then v else bv_set_bit v i

length-put_bit : (c i : ℕ) (v : BitVector) → length (put_bit c i v).vector ≡ length v.vector
unfolding bv_set_bit
length-put_bit c i v = elim (Bool-cases (bit_and (c / 2 ^ i) 1 == 0)) [
  | inl e ↦ rw e refl
  | inr e ↦ rw e (length-set v.vector (i / 8) _)
]

put_bit_other :
    (c i q : ℕ) (v : BitVector)
    → i / 8 < length v.vector
    → q ≢ i
    → bv_get_bit (put_bit c i v) q ≡ bv_get_bit v q
put_bit_other c i q v inside ne = elim (Bool-cases (bit_and (c / 2 ^ i) 1 == 0)) [
  | inl e ↦ rw e refl
  | inr e ↦ rw (e, (get_bit-set_bit v i q inside).0, ==_of_ne q i ne) refl
]

put_bit_here :
    (c i : ℕ) (v : BitVector)
    → i / 8 < length v.vector
    → bv_get_bit v i ≡ 0
    → bv_get_bit (put_bit c i v) i ≡ test_bit c i
put_bit_here c i v inside clear = elim (Bool-cases (bit_and (c / 2 ^ i) 1 == 0)) [
  | inl e ↦ rw e (clear ∙ sym ((==_iff _ 0).0 e) ∙ shifted_bit c i)
  | inr e ↦
      let one : test_bit c i ≡ 1 = ground (arith, shifted_bit c i, test_bit-lt c i) in
      rw (e, (get_bit-set_bit v i i inside).0, ==_refl i) (sym one)
]

put_bits_before :
    (left i c q : ℕ) (v : BitVector)
    → i + left ≤ 8 * length v.vector
    → q < i
    → bv_get_bit (put_bits left i c v) q ≡ bv_get_bit v q
unfolding put_bits
put_bits_before zero i c q v room below = refl
put_bits_before (suc left) i c q v room below =
    put_bits_before left (i + 1) c q (put_bit c i v) (omega (arith, length-put_bit c i v))
      (omega arith)
    ∙ put_bit_other c i q v (omega arith) (λ e. omega arith)

put_bits_lem :
    (left i c q : ℕ) (v : BitVector)
    → i + left ≤ 8 * length v.vector
    → ((k : ℕ) → i ≤ k → bv_get_bit v k ≡ 0)
    → i ≤ q
    → q < i + left
    → bv_get_bit (put_bits left i c v) q ≡ test_bit c q
unfolding put_bits
put_bits_lem zero i c q v room clear above below = absurd (omega arith)
put_bits_lem (suc left) i c q v room clear above below = elim (Bool-cases (q == i)) [
  | inl e ↦
      let at : q ≡ i = (==_iff q i).0 e in
      rw at (
        put_bits_before left (i + 1) c i (put_bit c i v) (omega (arith, length-put_bit c i v))
          (omega arith)
        ∙ put_bit_here c i v (omega arith) (clear i (omega arith)))
  | inr ne ↦
      put_bits_lem left (i + 1) c q (put_bit c i v) (omega (arith, length-put_bit c i v))
        (λ k l. put_bit_other c i k v (omega arith) (λ e. omega arith) ∙ clear k (omega arith))
        (ground arith) (omega arith)
]

length-put_bits : (left i c : ℕ) (v : BitVector) → (put_bits left i c v).bit_length ≡ v.bit_length
unfolding put_bits bv_set_bit
length-put_bits zero i c v = refl
length-put_bits (suc left) i c v =
    length-put_bits left (i + 1) c (put_bit c i v)
    ∙ elim (Bool-cases (bit_and (c / 2 ^ i) 1 == 0)) [ inl e ↦ rw e refl | inr e ↦ rw e refl ]

byte_len-bound : (n : ℕ) → n ≤ 8 * byte_len n
unfolding byte_len
byte_len-bound n = ground arith

pub create_room : (n : ℕ) → n ≤ 8 * length (bv_create n).vector
unfolding bv_create
create_room n = omega (arith, byte_len-bound n, length-replicate {A = ℕ} (byte_len n) 0)

pub create_clear : (n q : ℕ) → bv_get_bit (bv_create n) q ≡ 0
unfolding bv_create
create_clear n q =
    get_bit-test_bit (bv_create n) q
    ∙ ap (λ (b : ℕ). test_bit b (q % 8)) (get_or-replicate {A = ℕ} (byte_len n) (q / 8) 0)
    ∙ test_bit_zero (q % 8)

-- Bit `q` of the vector that `code_num_to_bv` gives is bit `q` of the code number, below the
-- length.
pub get_bit-code_num_to_bv :
    (code_num bit_len q : ℕ)
    → q < bit_len
    → bv_get_bit (code_num_to_bv code_num bit_len) q ≡ test_bit code_num q
unfolding code_num_to_bv bv_create
get_bit-code_num_to_bv code_num bit_len q below =
    put_bits_lem bit_len 0 code_num q (bv_create bit_len) (omega (arith, create_room bit_len))
      (λ k l. create_clear bit_len k) (omega arith) (omega arith)

take_bits_lem :
    (i code : ℕ) (v : BitVector)
    → code < 2 ^ 64
    → ((k : ℕ) → k < i → bv_get_bit v k ≡ test_bit code k)
    → take_bits i (code / 2 ^ i) v ≡ code
unfolding take_bits bv_get_bit
take_bits_lem zero code v small bits = div-one code
take_bits_lem (suc i) code v small bits =
    let d = code / 2 ^ i in
    let half : code / 2 ^ suc i ≡ d / 2 = rw (pow-suc 2 i, ← div-div-eq-div-mul) refl in
    let le : d ≤ code = div-le_self code (2 ^ i) in
    let rest = take_bits_lem i code v small (λ k l. bits k (omega arith)) in
    let here = bits i (omega arith) ∙ test_bit-shift code i in
    let bit = bit_and (get_or v.vector (i / 8) 0 / 2 ^ (i % 8)) 1 in
    rw half (elim (Bool-cases (bit == 0)) [
      | inl e ↦
          let same : word (d / 2 * 2) ≡ d = omega (arith, here, (==_iff bit 0).0 e) in
          rw (e, same) rest
      | inr e ↦
          let same : word (word (d / 2 * 2) + 1) ≡ d = ground (arith, here) in rw (e, same) rest
    ])

-- A bit vector with the bits of a code number stands for it.
pub to_code_num_lem :
    (v : BitVector) (code_num bit_len : ℕ)
    → v.bit_length ≡ bit_len
    → bit_len ≤ 64
    → code_num < 2 ^ bit_len
    → ((k : ℕ) → k < bit_len → bv_get_bit v k ≡ test_bit code_num k)
    → bv_to_code_num v ≡ code_num
unfolding bv_to_code_num
to_code_num_lem v code_num bit_len len fits small bits =
    let start : 0 ≡ code_num / 2 ^ bit_len = sym (div-eq_of_lt small) in
    ap (λ (n : ℕ). take_bits n 0 v) len
    ∙ ap (λ (n : ℕ). take_bits bit_len n v) start
    ∙ take_bits_lem bit_len code_num v (omega (arith, pow-le-pow_right {n = 2} (omega arith) fits))
        bits

pub length-code_num_to_bv :
    (code_num bit_len : ℕ) → (code_num_to_bv code_num bit_len).bit_length ≡ bit_len
unfolding code_num_to_bv bv_create
length-code_num_to_bv code_num bit_len = length-put_bits bit_len 0 code_num (bv_create bit_len)

-- A code number that fits a length of at most 64 bits comes back from its bit vector.
pub code_num_round_trip :
    (code_num bit_len : ℕ)
    → bit_len ≤ 64
    → code_num < 2 ^ bit_len
    → bv_to_code_num (code_num_to_bv code_num bit_len) ≡ code_num
code_num_round_trip code_num bit_len fits small =
    to_code_num_lem (code_num_to_bv code_num bit_len) code_num bit_len
      (length-code_num_to_bv code_num bit_len) fits small
      (λ k l. get_bit-code_num_to_bv code_num bit_len k l)
