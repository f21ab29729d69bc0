-- ===== src/Lzw/BitVector.antt =====
-- LZW/bv.c: bit vectors, and code numbers as bit vectors. A failed allocation ends the program by
-- `assert` and is left out. An access behind the vector's bytes is not meaningful in the model: the
-- theorems are about indices below the length.
pub mod CodeNum
use native.Mathlib.Decide.{ℕ_discrete}
use coding_projects.Prelude.{
  ℕ, zero, suc, ◌+◌, ◌-◌, ◌*◌, ◌/◌, ◌%◌, ◌^◌, ◌≤◌, ◌<◌, bit_and, bit_or, List, ◌≡◌, refl, ◌≢◌, sym,
  ap, ◌∙◌, arith, ◌==◌, if◌then◌else◌, length, get_or, set, replicate, length-set, get_or-set_self,
  get_or-set_ne, ==_of_ne, ==_refl,
}
use coding_projects.Bits.{
  test_bit, test_bit-lt, test_bit-or, test_bit-and, test_bit-pow_self, test_bit-pow_ne,
  test_bit_not, test_bit-shift, bit_and-one, two_pow_mono,
}
use coding_projects.Speck.{word}

pub record BitVector : Type 0 where
  pub vector : List ℕ
  pub bit_length : ℕ

pub byte_len : ℕ → ℕ
byte_len bit_len = let whole = bit_len / 8 in if bit_len % 8 == 0 then whole else whole + 1

pub bv_create : ℕ → BitVector
bv_create bit_len = record { vector = replicate (byte_len bit_len) 0; bit_length = bit_len }

pub bv_set_bit : BitVector → ℕ → BitVector
bv_set_bit v i =
    let old = get_or v.vector (i / 8) 0 in
    record v { vector = set v.vector (i / 8) (bit_or old (2 ^ (i % 8))) }

-- `~(1U << index)` is a word of 32 bits.
pub bv_clr_bit : BitVector → ℕ → BitVector
bv_clr_bit v i =
    let old = get_or v.vector (i / 8) 0 in
    record v { vector = set v.vector (i / 8) (bit_and old (2 ^ 32 - 1 - 2 ^ (i % 8))) }

pub bv_get_bit : BitVector → ℕ → ℕ
bv_get_bit v i = bit_and (get_or v.vector (i / 8) 0 / 2 ^ (i % 8)) 1

-- The loop of `code_num_to_bv` at bit `i`, with the bits left as first argument.
pub put_bits : ℕ → ℕ → ℕ → BitVector → BitVector
put_bits zero i code_num bv = bv
put_bits (suc left) i code_num bv =
    put_bits left (i + 1) code_num
      (if bit_and (code_num / 2 ^ i) 1 == 0 then bv else bv_set_bit bv i)

pub code_num_to_bv : ℕ → ℕ → BitVector
code_num_to_bv code_num bit_len = put_bits bit_len 0 code_num (bv_create bit_len)

-- The loop of `bv_to_code_num` below bit `i`.
pub take_bits : ℕ → ℕ → BitVector → ℕ
take_bits zero code v = code
take_bits (suc i) code v =
    let bit = bit_and (get_or v.vector (i / 8) 0 / 2 ^ (i % 8)) 1 in
    let shifted = word (code * 2) in
    take_bits i (if bit == 0 then shifted else word (shifted + 1)) v

pub bv_to_code_num : BitVector → ℕ
bv_to_code_num v = take_bits v.bit_length 0 v

-- There are bytes for all the bits.
abbrev pub HasBytes : BitVector → Type 0
HasBytes v = v.bit_length ≤ 8 * length v.vector

pub get_bit-test_bit :
    (v : BitVector) (i : ℕ) → bv_get_bit v i ≡ test_bit (get_or v.vector (i / 8) 0) (i % 8)
unfolding bv_get_bit
get_bit-test_bit v i =
    bit_and-one (get_or v.vector (i / 8) 0 / 2 ^ (i % 8))
    ∙ sym (test_bit-shift (get_or v.vector (i / 8) 0) (i % 8))

-- A byte is replaced by one with another bit in the place of bit `i`.
get_bit-set :
    (v : BitVector) (i q byte bit : ℕ)
    → i / 8 < length v.vector
    → test_bit byte (i % 8) ≡ bit
    → ((k : ℕ) → k < 8 → k ≢ i % 8 → test_bit byte k ≡ test_bit (get_or v.vector (i / 8) 0) k)
    → bv_get_bit (record v { vector = set v.vector (i / 8) byte }) q
      ≡ (if q == i then bit else bv_get_bit v q)
get_bit-set v i q byte bit inside at others =
    get_bit-test_bit (record v { vector = set v.vector (i / 8) byte }) q ∙ elim (ℕ_discrete q i) [
      | yes e ↦
          rw (e, ==_refl i)
            (ap (λ (b : ℕ). test_bit b (i % 8)) (get_or-set_self v.vector (i / 8) byte 0 inside)
              ∙ at)
      | no ne ↦
          rw (==_of_ne q i ne, get_bit-test_bit v q)
            (elim (ℕ_discrete (q / 8) (i / 8)) [
              | yes same ↦ rw same (
                  ap (λ (b : ℕ). test_bit b (q % 8))
                    (get_or-set_self v.vector (i / 8) byte 0 inside)
                  ∙ others (q % 8) (omega arith) (λ m. ne (omega arith)))
              | no other ↦
                  ap (λ (b : ℕ). test_bit b (q % 8))
                    (get_or-set_ne v.vector (i / 8) (q / 8) byte 0 (λ s. other (sym s)))
            ])
    ]

pub set_bit_kept : (v : BitVector) (i : ℕ) → (bv_set_bit v i).bit_length ≡ v.bit_length
unfolding bv_set_bit
set_bit_kept v i = refl

pub length-create : (n : ℕ) → (bv_create n).bit_length ≡ n
unfolding bv_create
length-create n = refl

pub length-set_bit : (v : BitVector) (i : ℕ) → length (bv_set_bit v i).vector ≡ length v.vector
unfolding bv_set_bit
length-set_bit v i = length-set v.vector (i / 8) _

-- After `bv_set_bit`, `bv_get_bit` gives 1 at the index and what it gave before elsewhere; after
-- `bv_clr_bit` it gives 0 at the index. The index lies in the vector's bytes.
pub get_bit-set_bit :
    (v : BitVector) (i q : ℕ)
    → i / 8 < length v.vector
    → (bv_get_bit (bv_set_bit v i) q ≡ (if q == i then 1 else bv_get_bit v q))
      × (bv_get_bit (bv_clr_bit v i) q ≡ (if q == i then 0 else bv_get_bit v q))
unfolding bv_set_bit bv_clr_bit
get_bit-set_bit v i q inside =
    let old = get_or v.vector (i / 8) 0 in
    let p = i % 8 in
    let small : 2 ^ p < 2 ^ 32 = two_pow_mono p 32 (omega arith) in
    let mask = 2 ^ 32 - 1 - 2 ^ p in
    (
      get_bit-set v i q (bit_or old (2 ^ p)) 1 inside
          (omega (arith, test_bit-or p old (2 ^ p), test_bit-pow_self p, test_bit-lt old p))
          (λ k below ne.
            omega (arith, test_bit-or k old (2 ^ p), test_bit-pow_ne p k (λ e. ne (sym e)))),
      get_bit-set v i q (bit_and old mask) 0 inside
          (omega (
            arith,
            test_bit-and p old mask,
            test_bit_not 32 p (2 ^ p) (omega arith) small,
            test_bit-pow_self p,
          ))
          (λ k below ne. omega (
            arith,
            test_bit-and k old mask,
            test_bit_not 32 k (2 ^ p) (omega arith) small,
            test_bit-pow_ne p k (λ e. ne (sym e)),
            test_bit-lt old k,
          )),
    )
