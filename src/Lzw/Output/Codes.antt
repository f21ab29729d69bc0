-- ===== src/Lzw/Output/Codes.antt =====
-- Codes written by `buffer_code`, bit by bit, and what `flush_code` does with the last of them.
use native.Mathlib.Decide.{ℕ_discrete}
use coding_projects.Prelude.{
  ℕ, zero, suc, ◌+◌, ◌-◌, ◌/◌, ◌%◌, ◌^◌, ◌≤◌, ◌<◌, bit_or, List, [], ◌∷◌, ◌++◌, ◌≡◌, ◌≢◌, refl, sym,
  ap, ◌∙◌, arith, ◌==◌, ==_iff, ==_refl, if◌then◌else◌, length, get_or, set, length-set, take, drop,
  get_or-set_self, get_or-set_ne, ==_of_ne, inl, inr, ap₂, false, ◌⊎◌, subst,
}
use coding_projects.Bits.{
  test_bit, test_bit-lt, test_bit-or, test_bit-pow_self, test_bit-pow_ne, test_bit_zero,
}
use coding_projects.Lzw.BitVector.{BitVector, bv_get_bit, get_bit-test_bit}
use coding_projects.Lzw.Output.{
  Output, write_full, new_byte, buffer_bit, buffer_bits, buffer_code, flush_code,
}

take-set_same : (n : ℕ) (xs : List ℕ) (b : ℕ) → take n (set xs n b) ≡ take n xs
take-set_same n [] b = refl
take-set_same zero (x ∷ xs) b = refl
take-set_same (suc n) (x ∷ xs) b = ap (λ t. x ∷ t) (take-set_same n xs b)

drop-set_same : (n : ℕ) (xs : List ℕ) (b : ℕ) → drop (suc n) (set xs n b) ≡ drop (suc n) xs
drop-set_same n [] b = refl
drop-set_same zero (x ∷ xs) b = refl
drop-set_same (suc n) (x ∷ xs) b = drop-set_same n xs b

-- When the last byte is not full, what `flush_code` leaves in the file does not depend on that byte:
-- with any other byte in its place the file is the same.
pub flush_code_loses_last :
    (s : Output) (byte : ℕ)
    → s.out_index % 8 ≢ 0
    → (flush_code (record s { out_buffer = set s.out_buffer (s.out_index / 8) byte })).outfile
      ≡ (flush_code s).outfile
unfolding flush_code
flush_code_loses_last s byte partial =
    let n = s.out_index / 8 in
    let one : n + 1 ≡ suc n = omega arith in
    let some_bits : (s.out_index == 0) ≡ false =
      ==_of_ne s.out_index 0 (λ e. partial (omega arith)) in
    let behind : drop (n + 1) (set s.out_buffer n byte) ≡ drop (n + 1) s.out_buffer =
      rw one (drop-set_same n s.out_buffer byte) in
    rw (some_bits, ==_of_ne (s.out_index % 8) 0 partial)
      (ap₂ (λ t u. (s.outfile ++ t) ++ take 1 u) (take-set_same n s.out_buffer byte) behind)

-- Bit `q` of the buffer, the highest bit of a byte first.
unfoldable pub out_bit : Output → ℕ → ℕ
out_bit s q = test_bit (get_or s.out_buffer (q / 8) 0) (7 - q % 8)

-- The bits of the current byte that are still to come are clear, and the buffer has 4096 bytes.
pub record IsReady (s : Output) : Type 0 where
  pub clear :
      s.out_index % 8 ≢ 0 → (q : ℕ) → s.out_index ≤ q → q / 8 ≡ s.out_index / 8 → out_bit s q ≡ 0
  pub size : length s.out_buffer ≡ 4096

-- A bit put at the index: those before it stay, and those behind it in its byte are clear.
record Put (s s' : Output) (bit : ℕ) : Type 0 where
  ready : IsReady s'
  index : s'.out_index ≡ s.out_index + 1
  here : out_bit s' s.out_index ≡ bit
  before : (q : ℕ) → q < s.out_index → out_bit s' q ≡ out_bit s q
  file : s'.outfile ≡ s.outfile

-- The byte that the index lies in is replaced by one with that bit set.
out_bit-mark :
    (s : Output) (q : ℕ)
    → s.out_index / 8 < length s.out_buffer
    → let old = get_or s.out_buffer (s.out_index / 8) 0 in
      out_bit
        (record s {
          out_buffer = set s.out_buffer (s.out_index / 8) (bit_or old (2 ^ (7 - s.out_index % 8)));
        })
        q
      ≡ (if q == s.out_index then 1 else out_bit s q)
unfolding out_bit
out_bit-mark s q inside =
    let i = s.out_index in
    let old = get_or s.out_buffer (i / 8) 0 in
    let p = 7 - i % 8 in
    let byte = bit_or old (2 ^ p) in
    let here = get_or-set_self s.out_buffer (i / 8) byte 0 inside in
    elim (ℕ_discrete q i) [
      | yes e ↦
          rw (e, ==_refl i)
            (ap (λ (b : ℕ). test_bit b p) here
              ∙ omega (arith, test_bit-or p old (2 ^ p), test_bit-pow_self p, test_bit-lt old p))
      | no ne ↦ rw (==_of_ne q i ne) (elim (ℕ_discrete (q / 8) (i / 8)) [
        | yes same ↦
            let k = 7 - q % 8 in
            rw same (
              ap (λ (b : ℕ). test_bit b k) here
              ∙ omega
                  (arith, test_bit-or k old (2 ^ p), test_bit-pow_ne p k (λ e. ne (omega arith))))
        | no other ↦
            ap (λ (b : ℕ). test_bit b (7 - q % 8))
              (get_or-set_ne s.out_buffer (i / 8) (q / 8) byte 0 (λ e. other (sym e)))
      ])
    ]

-- What `new_byte` leaves: the current byte is clear from the index on.
record Cleared (s s' : Output) : Type 0 where
  index : s'.out_index ≡ s.out_index
  file : s'.outfile ≡ s.outfile
  size : length s'.out_buffer ≡ 4096
  clear : (q : ℕ) → s.out_index ≤ q → q / 8 ≡ s.out_index / 8 → out_bit s' q ≡ 0
  before : (q : ℕ) → q < s.out_index → out_bit s' q ≡ out_bit s q

new_byte-Cleared : (s : Output) → IsReady s → s.out_index < 32768 → Cleared s (new_byte s)
unfolding new_byte out_bit
new_byte-Cleared s r room = elim (ℕ_discrete (s.out_index % 8) 0) [
  | yes e ↦
      let i = s.out_index / 8 in
      let fresh : get_or (set s.out_buffer i 0) i 0 ≡ 0 =
        get_or-set_self s.out_buffer i 0 0 (omega (arith, r.size)) in
      rw ((==_iff (s.out_index % 8) 0).1 e) (record {
        index = refl;
        file = refl;
        size = length-set s.out_buffer i 0 ∙ r.size;
        clear = λ q l same.
            rw same (ap (λ (b : ℕ). test_bit b (7 - q % 8)) fresh ∙ test_bit_zero (7 - q % 8));
        before = λ q l.
            ap (λ (b : ℕ). test_bit b (7 - q % 8))
              (get_or-set_ne s.out_buffer i (q / 8) 0 0 (λ p. omega arith));
      })
  | no ne ↦ rw (==_of_ne (s.out_index % 8) 0 ne) (record {
    index = refl;
    file = refl;
    size = r.size;
    clear = λ q l same. r.clear ne q l same;
    before = λ q l. refl;
  })
]

-- The last part of `buffer_bit`.
after_byte : Output → ℕ → Output
after_byte s1 bit =
    let old = get_or s1.out_buffer (s1.out_index / 8) 0 in
    let marked = set s1.out_buffer (s1.out_index / 8) (bit_or old (2 ^ (7 - s1.out_index % 8))) in
    record {
      out_buffer = if bit == 0 then s1.out_buffer else marked;
      out_index = s1.out_index + 1;
      outfile = s1.outfile;
    }

after_byte-Put :
    (s s1 : Output) (bit : ℕ)
    → Cleared s s1
    → s.out_index < 32768
    → (bit ≡ 0) ⊎ (bit ≡ 1)
    → Put s (after_byte s1 bit) bit
unfolding after_byte out_bit
after_byte-Put s s1 bit c room (inl zero_bit) = rw zero_bit (record {
  ready = record {
    clear = λ ne q l same. c.clear q (omega (arith, c.index)) (omega (arith, c.index));
    size = c.size;
  };
  index = ap (λ (n : ℕ). n + 1) c.index;
  here = c.clear s.out_index (omega arith) refl;
  before = c.before;
  file = c.file;
})
after_byte-Put s s1 bit c room (inr one_bit) =
    let mark = λ (q : ℕ). out_bit-mark s1 q (omega (arith, c.index, c.size)) in
    rw one_bit (record {
      ready = record {
        clear = λ ne q l same.
            mark q
            ∙ rw (==_of_ne q s1.out_index (λ e. omega arith))
                (c.clear q (omega (arith, c.index)) (omega (arith, c.index)));
        size = length-set s1.out_buffer (s1.out_index / 8) _ ∙ c.size;
      };
      index = ap (λ (n : ℕ). n + 1) c.index;
      here = mark s.out_index ∙ rw (c.index, ==_refl s.out_index) refl;
      before =
          λ q l. mark q ∙ rw (==_of_ne q s1.out_index (λ e. omega (arith, c.index))) (c.before q l);
      file = c.file;
    })

buffer_bit-Put :
    (s : Output) (bit : ℕ)
    → IsReady s
    → s.out_index < 32768
    → (bit ≡ 0) ⊎ (bit ≡ 1)
    → Put s (buffer_bit s bit) bit
unfolding buffer_bit write_full after_byte
buffer_bit-Put s bit r room b =
    let not_full : (s.out_index == 32768) ≡ false = ==_of_ne s.out_index 32768 (λ e. omega arith) in
    let same : write_full s ≡ s = rw not_full refl in
    subst (λ t. Put s (after_byte (new_byte t) bit) bit) (sym same)
      (after_byte-Put s (new_byte s) bit (new_byte-Cleared s r room) room b)

get_bit-cases : (code : BitVector) (i : ℕ) → (bv_get_bit code i ≡ 0) ⊎ (bv_get_bit code i ≡ 1)
get_bit-cases code i = elim (ℕ_discrete (bv_get_bit code i) 0) [
  | yes e ↦ inl e
  | no ne ↦
      inr
        (omega (arith, get_bit-test_bit code i, test_bit-lt (get_or code.vector (i / 8) 0) (i % 8)))
]

-- What the output holds after the bits below `i` of a code.
record Wrote (s s' : Output) (code : BitVector) (i : ℕ) : Type 0 where
  ready : IsReady s'
  index : s'.out_index ≡ s.out_index + i
  bits : (k : ℕ) → k < i → out_bit s' (s.out_index + k) ≡ bv_get_bit code (i - 1 - k)
  before : (q : ℕ) → q < s.out_index → out_bit s' q ≡ out_bit s q
  file : s'.outfile ≡ s.outfile

buffer_bits-Wrote :
    (i : ℕ) (code : BitVector) (s : Output)
    → IsReady s
    → s.out_index + i ≤ 32768
    → Wrote s (buffer_bits i code s) code i
unfolding buffer_bits
buffer_bits-Wrote zero code s r room = record {
  ready = r;
  index = omega arith;
  bits = λ k l. absurd (omega arith);
  before = λ q l. refl;
  file = refl;
}
buffer_bits-Wrote (suc i) code s r room =
    let bit = bv_get_bit code i in
    let one = buffer_bit-Put s bit r (omega arith) (get_bit-cases code i) in
    let s1 = buffer_bit s bit in
    let rest = buffer_bits-Wrote i code s1 one.ready (omega (arith, one.index)) in
    record {
      ready = rest.ready;
      index = omega (arith, rest.index, one.index);
      bits = λ k l. elim (ℕ_discrete k 0) [
        | yes e ↦
            let at : s.out_index + k ≡ s.out_index = omega arith in
            let top : suc i - 1 - k ≡ i = omega arith in
            rw (at, top) (rest.before s.out_index (omega (arith, one.index)) ∙ one.here)
        | no ne ↦
            let at : s.out_index + k ≡ s1.out_index + (k - 1) = omega (arith, one.index) in
            let place : suc i - 1 - k ≡ i - 1 - (k - 1) = omega arith in
            ap (out_bit (buffer_bits i code s1)) at
            ∙ rest.bits (k - 1) (omega arith)
            ∙ ap (bv_get_bit code) (sym place)
      ];
      before = λ q l. rest.before q (omega (arith, one.index)) ∙ one.before q l;
      file = rest.file ∙ one.file;
    }

-- When the code fits the rest of the buffer, `buffer_code` puts its bits behind those that are there,
-- the highest first, keeps those that are there, and moves the index by the code's length; nothing is
-- written to the file.
pub buffer_code_lem :
    (s : Output) (code : BitVector)
    → IsReady s
    → s.out_index + code.bit_length ≤ 32768
    → let s' = buffer_code s code in
      (s'.out_index ≡ s.out_index + code.bit_length)
      × ((k : ℕ)
          → k < code.bit_length
          → out_bit s' (s.out_index + k) ≡ bv_get_bit code (code.bit_length - 1 - k))
      × ((q : ℕ) → q < s.out_index → out_bit s' q ≡ out_bit s q)
      × (s'.outfile ≡ s.outfile)
      × IsReady s'
unfolding buffer_code
buffer_code_lem s code r room =
    let w = buffer_bits-Wrote code.bit_length code s r room in
    (w.index, w.bits, w.before, w.file, w.ready)
