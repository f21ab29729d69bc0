-- ===== src/Lzw/Input/Codes.antt =====
-- The codes that `next_code` reads.
use native.Mathlib.Decide.{ℕ_discrete}
use coding_projects.Prelude.{
  ℕ, zero, suc, ◌+◌, ◌-◌, ◌*◌, ◌/◌, ◌%◌, ◌≤◌, ◌<◌, some, List, ◌≡◌, ◌≢◌, refl, sym, ap, ◌∙◌, arith,
  ◌==◌, ==_iff, ==_refl, ==_of_ne, length, false, inl, inr, Bool-cases,
}
use coding_projects.Lzw.BitVector.{
  BitVector, bv_create, bv_get_bit, get_bit-set_bit, length-set_bit, set_bit_kept, length-create,
}
use coding_projects.Lzw.BitVector.CodeNum.{create_room, create_clear}
use coding_projects.Lzw.Input.{Input, buffer_get_bit, take_bit, read_bits, next_code}

-- What a loop below bit `i` reads when the buffer has the bits.
record Took (i : ℕ) (temp : BitVector) (s : Input) : Type 0 where
  code : BitVector
  returns : read_bits i temp s ≡ (some code, record s { in_index = s.in_index + i })
  bits : (k : ℕ) → k < i → bv_get_bit code (i - 1 - k) ≡ buffer_get_bit s.in_buffer (s.in_index + k)
  kept : code.bit_length ≡ temp.bit_length
  above : (q : ℕ) → i ≤ q → bv_get_bit code q ≡ bv_get_bit temp q

bit_of_set : (b : List ℕ) (q : ℕ) → (buffer_get_bit b q == 0) ≡ false → buffer_get_bit b q ≡ 1
unfolding buffer_get_bit
bit_of_set b q e = ground arith

length-take_bit :
    (s : Input) (temp : BitVector) (i : ℕ) → length (take_bit s temp i).vector ≡ length temp.vector
unfolding take_bit
length-take_bit s temp i = elim (Bool-cases (buffer_get_bit s.in_buffer s.in_index == 0)) [
  | inl e ↦ rw e refl
  | inr e ↦ rw e (length-set_bit temp i)
]

take_bit_kept :
    (s : Input) (temp : BitVector) (i : ℕ) → (take_bit s temp i).bit_length ≡ temp.bit_length
unfolding take_bit
take_bit_kept s temp i = elim (Bool-cases (buffer_get_bit s.in_buffer s.in_index == 0)) [
  | inl e ↦ rw e refl
  | inr e ↦ rw e (set_bit_kept temp i)
]

take_bit_here :
    (s : Input) (temp : BitVector) (i : ℕ)
    → i / 8 < length temp.vector
    → bv_get_bit temp i ≡ 0
    → bv_get_bit (take_bit s temp i) i ≡ buffer_get_bit s.in_buffer s.in_index
unfolding take_bit
take_bit_here s temp i inside clear =
    let bit = buffer_get_bit s.in_buffer s.in_index in
    elim (Bool-cases (bit == 0)) [
      | inl e ↦ rw e (clear ∙ sym ((==_iff bit 0).0 e))
      | inr e ↦
          rw (e, (get_bit-set_bit temp i i inside).0, ==_refl i)
            (sym (bit_of_set s.in_buffer s.in_index e))
    ]

take_bit_other :
    (s : Input) (temp : BitVector) (i q : ℕ)
    → i / 8 < length temp.vector
    → q ≢ i
    → bv_get_bit (take_bit s temp i) q ≡ bv_get_bit temp q
unfolding take_bit
take_bit_other s temp i q inside ne =
    elim (Bool-cases (buffer_get_bit s.in_buffer s.in_index == 0)) [
      | inl e ↦ rw e refl
      | inr e ↦ rw (e, (get_bit-set_bit temp i q inside).0, ==_of_ne q i ne) refl
    ]

read_bits-Took :
    (i : ℕ) (temp : BitVector) (s : Input)
    → i ≤ 8 * length temp.vector
    → ((q : ℕ) → q < i → bv_get_bit temp q ≡ 0)
    → s.in_index + i ≤ s.total * 8
    → Took i temp s
unfolding read_bits
read_bits-Took zero temp s room clear there =
    let same : s.in_index ≡ s.in_index + 0 = omega arith in
    record {
      code = temp;
      returns = ap (λ (n : ℕ). (some temp, record s { in_index = n })) same;
      bits = λ k l. absurd (omega arith);
      kept = refl;
      above = λ q l. refl;
    }
read_bits-Took (suc i) temp s room clear there =
    let inside : i / 8 < length temp.vector = omega arith in
    let temp' = take_bit s temp i in
    let rest =
      read_bits-Took i temp' (record s { in_index = s.in_index + 1 })
        (omega (arith, length-take_bit s temp i))
        (λ q l. take_bit_other s temp i q inside (λ e. omega arith) ∙ clear q (omega arith))
        (omega arith) in
    let some_left : (s.in_index == s.total * 8) ≡ false =
      ==_of_ne s.in_index (s.total * 8) (λ e. omega arith) in
    let moved : s.in_index + 1 + i ≡ s.in_index + suc i = omega arith in
    record {
      code = rest.code;
      returns =
          rw some_left
            (rest.returns ∙ ap (λ (n : ℕ). (some rest.code, record s { in_index = n })) moved);
      bits = λ k l. elim (ℕ_discrete k 0) [
        | yes e ↦
            let top : suc i - 1 - k ≡ i = omega arith in
            let at : s.in_index + k ≡ s.in_index = omega arith in
            rw (top, at)
              (rest.above i (omega arith) ∙ take_bit_here s temp i inside (clear i (omega arith)))
        | no ne ↦
            let place : suc i - 1 - k ≡ i - 1 - (k - 1) = omega arith in
            let at : s.in_index + 1 + (k - 1) ≡ s.in_index + k = omega arith in
            ap (bv_get_bit rest.code) place
            ∙ rest.bits (k - 1) (omega arith)
            ∙ ap (buffer_get_bit s.in_buffer) at
      ];
      kept = rest.kept ∙ take_bit_kept s temp i;
      above =
          λ q l. rest.above q (omega arith) ∙ take_bit_other s temp i q inside (λ e. omega arith);
    }

-- When the buffer has the bits, `next_code` for a length of at most 255 returns a bit vector of that
-- length with them, the first as the highest, and moves the index behind them; nothing else changes.
pub next_code_lem :
    (s : Input) (bit_len : ℕ)
    → bit_len < 256
    → s.in_index + bit_len ≤ s.total * 8
    → (code : BitVector) × (next_code s bit_len
        ≡ (some code, record s { in_index = s.in_index + bit_len }))
      × (code.bit_length ≡ bit_len)
      × ((k : ℕ)
          → k < bit_len
          → bv_get_bit code (bit_len - 1 - k) ≡ buffer_get_bit s.in_buffer (s.in_index + k))
unfolding next_code
next_code_lem s bit_len small there =
    let fits : bit_len % 256 ≡ bit_len = omega arith in
    let t =
      read_bits-Took bit_len (bv_create bit_len) s (create_room bit_len)
        (λ q l. create_clear bit_len q) there in
    (t.code, rw fits t.returns, t.kept ∙ length-create bit_len, t.bits)
