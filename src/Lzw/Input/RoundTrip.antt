-- ===== src/Lzw/Input/RoundTrip.antt =====
-- The codes that `next_code` reads are the codes that `buffer_code` has written.
use native.Mathlib.Decide.{ℕ_discrete}
use coding_projects.Prelude.{
  ℕ, ◌+◌, ◌-◌, ◌*◌, ◌/◌, ◌%◌, ◌^◌, ◌≤◌, ◌<◌, bit_and, some, ◌≡◌, refl, ap, ◌∙◌, arith, ◌==◌,
  ==_of_ne, get_or, false,
}
use native.Mathlib.Nat.{one-le-pow, one-mul, zero-mul}
use coding_projects.Bits.{test_bit, test_bit-lt, bit_and-pow}
use coding_projects.Lzw.Output.{Output, buffer_code}
use coding_projects.Lzw.Output.Codes.{out_bit, IsReady, buffer_code_lem}
use coding_projects.Lzw.BitVector.{BitVector, bv_get_bit, code_num_to_bv, bv_to_code_num}
use coding_projects.Lzw.BitVector.CodeNum.{
  length-code_num_to_bv, to_code_num_lem, get_bit-code_num_to_bv,
}
use coding_projects.Lzw.Input.{Input, buffer_get_bit, next_code}
use coding_projects.Lzw.Input.Codes.{next_code_lem}

get_bit-out_bit : (s : Output) (q : ℕ) → buffer_get_bit s.out_buffer q ≡ out_bit s q
unfolding buffer_get_bit out_bit
get_bit-out_bit s q =
    let byte = get_or s.out_buffer (q / 8) 0 in
    let p = 7 - q % 8 in
    let masked = bit_and-pow p byte in
    let positive = one-le-pow p 2 (omega arith) in
    elim (ℕ_discrete (test_bit byte p) 0) [
      | yes e ↦
          let zero_mask : bit_and byte (2 ^ p) ≡ 0 = masked ∙ rw e (zero-mul (2 ^ p)) in
          rw (zero_mask, e) refl
      | no ne ↦
          let one : test_bit byte p ≡ 1 = omega (arith, test_bit-lt byte p) in
          let mask : bit_and byte (2 ^ p) ≡ 2 ^ p =
            masked ∙ ap (λ (t : ℕ). t * 2 ^ p) one ∙ one-mul (2 ^ p) in
          let set : (bit_and byte (2 ^ p) == 0) ≡ false =
            ==_of_ne (bit_and byte (2 ^ p)) 0 (λ e. omega arith) in
          rw (set, one) refl
    ]

-- A code number of at most 64 bits that `buffer_code` puts into the output buffer, where it fits the
-- rest of the buffer, is the one that `next_code` reads at the same place of an input buffer with the
-- same bytes.
pub code_through_buffer :
    (s : Output) (r : Input) (code_num bit_len : ℕ)
    → IsReady s
    → bit_len ≤ 64
    → code_num < 2 ^ bit_len
    → s.out_index + bit_len ≤ 32768
    → r.in_buffer ≡ (buffer_code s (code_num_to_bv code_num bit_len)).out_buffer
    → r.in_index ≡ s.out_index
    → r.in_index + bit_len ≤ r.total * 8
    → (code : BitVector) × (next_code r bit_len
        ≡ (some code, record r { in_index = r.in_index + bit_len }))
      × (bv_to_code_num code ≡ code_num)
code_through_buffer s r code_num bit_len ready fits small room same at there =
    let written = code_num_to_bv code_num bit_len in
    let len = length-code_num_to_bv code_num bit_len in
    let out = buffer_code s written in
    let w = buffer_code_lem s written ready (omega (arith, len)) in
    let n = next_code_lem r bit_len (omega arith) there in
    let bits = λ (k : ℕ) (l : k < bit_len).
      let j = bit_len - 1 - k in
      let back : k ≡ bit_len - 1 - j = omega arith in
      let place : written.bit_length - 1 - j ≡ k = omega (arith, len) in
      ap (bv_get_bit n.0) back
      ∙ n.3 j (omega arith)
      ∙ rw (same, at) (get_bit-out_bit out (s.out_index + j))
      ∙ w.1 j (omega (arith, len))
      ∙ ap (bv_get_bit written) place
      ∙ get_bit-code_num_to_bv code_num bit_len k l in
    (n.0, n.1, to_code_num_lem n.0 code_num bit_len n.2 fits small bits)
