-- ===== src/Runq/Bits.antt =====
-- The status words as one row of bits, one for each queue.
use native.Mathlib.Nat.{div-add-mod, mod-lt, div-lt_iff_lt-mul, mul_comm, one-le-pow}
use native.Mathlib.Decide.{ℕ_discrete, dec_lt}
use coding_projects.Prelude.{
  ℕ, ◌+◌, ◌-◌, ◌*◌, ◌/◌, ◌%◌, ◌^◌, ◌<◌, bit_and, bit_or, List, ◌≡◌, ◌≢◌, refl, sym, ap, ◌∙◌, arith,
  ◌==◌, if◌then◌else◌, length, get_or, set, length-set, get_or-set_self, get_or-set_ne, ==_of_ne,
  ==_refl, get_or_outside,
}
use coding_projects.Bits.{
  test_bit, test_bit-lt, test_bit-or, test_bit-and, test_bit-pow_self, test_bit-pow_ne,
  test_bit_not, two_pow_mono, bit_or-lt, bit_and-le,
}
use coding_projects.Runq.{Runq, runq_setbit, runq_clrbit, rq_nqs}
use coding_projects.Runq.Header.{Header}

module _ (h : Header) where
  open h use {rqb_bpw, rqb_len, rqb_word, rqb_bit, bpw_pow, word_div, bit_pow}

  -- The status bit of queue `pri`.
  unfoldable pub status_bit : List ℕ → ℕ → ℕ
  status_bit bits pri = test_bit (get_or bits (pri / rqb_bpw) 0) (pri % rqb_bpw)

  -- The status words: RQB_LEN of them, each of RQB_BPW bits.
  pub record IsStatus (bits : List ℕ) : Type 0 where
    pub words : length bits ≡ rqb_len
    pub fits : (i : ℕ) → get_or bits i 0 < 2 ^ rqb_bpw

  pub bpw_positive : 0 < rqb_bpw
  bpw_positive = rw bpw_pow (one-le-pow h.rqb_l2bpw 2 (omega arith))

  pub bit_fits : (pri : ℕ) → rqb_bit pri < 2 ^ rqb_bpw
  bit_fits pri = rw bit_pow (two_pow_mono (pri % rqb_bpw) rqb_bpw (mod-lt pri bpw_positive))

  pub word-lt : (pri : ℕ) → pri < rq_nqs h → pri / rqb_bpw < rqb_len
  word-lt pri l = (div-lt_iff_lt-mul bpw_positive).1 (rw mul_comm l)

  -- The same word and the same place in it make the same queue.
  same_queue : (p q : ℕ) → p / rqb_bpw ≡ q / rqb_bpw → p % rqb_bpw ≡ q % rqb_bpw → p ≡ q
  same_queue p q d m =
      sym (div-add-mod p rqb_bpw) ∙ (λ i. rqb_bpw * d i + m i) ∙ div-add-mod q rqb_bpw

  -- The bit of the word that a queue's bit lies in, after a write of a word.
  status_bit-set_other :
      (bits : List ℕ) (p q v : ℕ)
      → q / rqb_bpw ≢ p / rqb_bpw
      → status_bit (set bits (p / rqb_bpw) v) q ≡ status_bit bits q
  unfolding status_bit
  status_bit-set_other bits p q v ne =
      ap (λ (w : ℕ). test_bit w (q % rqb_bpw))
        (get_or-set_ne bits (p / rqb_bpw) (q / rqb_bpw) v 0 (λ e. ne (sym e)))

  status_bit-set_same :
      (bits : List ℕ) (p q v : ℕ)
      → p / rqb_bpw < length bits
      → q / rqb_bpw ≡ p / rqb_bpw
      → status_bit (set bits (p / rqb_bpw) v) q ≡ test_bit v (q % rqb_bpw)
  unfolding status_bit
  status_bit-set_same bits p q v inside same =
      ap (λ (i : ℕ). test_bit (get_or (set bits (p / rqb_bpw) v) i 0) (q % rqb_bpw)) same
      ∙ ap (λ (w : ℕ). test_bit w (q % rqb_bpw)) (get_or-set_self bits (p / rqb_bpw) v 0 inside)

  -- A write of a word that gives bit `p` the value `b` and keeps the word's other bits.
  write_bit :
      (bits : List ℕ) (p q v b : ℕ)
      → p / rqb_bpw < length bits
      → test_bit v (p % rqb_bpw) ≡ b
      → ((k : ℕ)
          → k < rqb_bpw
          → k ≢ p % rqb_bpw
          → test_bit v k ≡ test_bit (get_or bits (p / rqb_bpw) 0) k)
      → status_bit (set bits (p / rqb_bpw) v) q ≡ (if q == p then b else status_bit bits q)
  unfolding status_bit
  write_bit bits p q v b inside at_p others = elim (ℕ_discrete q p) [
    | yes e ↦
        status_bit-set_same bits p q v inside (ap (λ (n : ℕ). n / rqb_bpw) e)
        ∙ ap (λ (n : ℕ). test_bit v (n % rqb_bpw)) e
        ∙ at_p
        ∙ rw (e, ==_refl p) refl
    | no ne ↦ elim (ℕ_discrete (q / rqb_bpw) (p / rqb_bpw)) [
      | yes same ↦
          status_bit-set_same bits p q v inside same
          ∙ others (q % rqb_bpw) (mod-lt q bpw_positive) (λ m. ne (same_queue q p same m))
          ∙ ap (λ (i : ℕ). test_bit (get_or bits i 0) (q % rqb_bpw)) (sym same)
          ∙ rw (==_of_ne q p ne) refl
      | no other ↦ status_bit-set_other bits p q v other ∙ rw (==_of_ne q p ne) refl
    ]
  ]

  -- `runq_setbit` sets the bit of its queue and no other.
  pub setbit_lem :
      (rq : Runq) (p q : ℕ)
      → IsStatus rq.rqb_bits
      → p < rq_nqs h
      → status_bit (runq_setbit h rq p).rqb_bits q
        ≡ (if q == p then 1 else status_bit rq.rqb_bits q)
  unfolding runq_setbit
  setbit_lem rq p q ok l =
      let old = get_or rq.rqb_bits (p / rqb_bpw) 0 in
      let place = p % rqb_bpw in
      rw (word_div p, bit_pow p)
        (write_bit rq.rqb_bits p q (bit_or old (2 ^ place)) 1 (rw ok.words (word-lt p l))
          (omega (
            arith,
            test_bit-or place old (2 ^ place),
            test_bit-pow_self place,
            test_bit-lt old place,
          ))
          (λ k below ne.
            omega
              (arith, test_bit-or k old (2 ^ place), test_bit-pow_ne place k (λ e. ne (sym e)))))

  -- `runq_clrbit` clears the bit of its queue and no other.
  pub clrbit_lem :
      (rq : Runq) (p q : ℕ)
      → IsStatus rq.rqb_bits
      → p < rq_nqs h
      → status_bit (runq_clrbit h rq p).rqb_bits q
        ≡ (if q == p then 0 else status_bit rq.rqb_bits q)
  unfolding runq_clrbit
  clrbit_lem rq p q ok l =
      let old = get_or rq.rqb_bits (p / rqb_bpw) 0 in
      let place = p % rqb_bpw in
      let small : 2 ^ place < 2 ^ rqb_bpw = two_pow_mono place rqb_bpw (mod-lt p bpw_positive) in
      let mask = 2 ^ rqb_bpw - 1 - 2 ^ place in
      rw (word_div p, bit_pow p)
        (write_bit rq.rqb_bits p q (bit_and old mask) 0 (rw ok.words (word-lt p l))
          (omega (
            arith,
            test_bit-and place old mask,
            test_bit_not rqb_bpw place (2 ^ place) (mod-lt p bpw_positive) small,
            test_bit-pow_self place,
          ))
          (λ k below ne. omega (
            arith,
            test_bit-and k old mask,
            test_bit_not rqb_bpw k (2 ^ place) below small,
            test_bit-pow_ne place k (λ e. ne (sym e)),
            test_bit-lt old k,
          )))

  -- Both leave words of the right number and size.
  set-IsStatus :
      (bits : List ℕ) (i v : ℕ) → IsStatus bits → v < 2 ^ rqb_bpw → IsStatus (set bits i v)
  set-IsStatus bits i v ok small = record {
    words = length-set bits i v ∙ ok.words;
    fits = λ j. elim (ℕ_discrete i j) [
      | yes e ↦ elim (dec_lt i (length bits)) [
        | yes inside ↦ rw (← e, get_or-set_self bits i v 0 inside) small
        | no outside ↦
            rw (get_or_outside (set bits i v) j 0 (omega (arith, length-set bits i v)))
              (one-le-pow rqb_bpw 2 (omega arith))
      ]
      | no ne ↦ rw (get_or-set_ne bits i j v 0 ne) (ok.fits j)
    ];
  }

  pub setbit-IsStatus :
      (rq : Runq) (p : ℕ) → IsStatus rq.rqb_bits → IsStatus (runq_setbit h rq p).rqb_bits
  unfolding runq_setbit
  setbit-IsStatus rq p ok =
      set-IsStatus rq.rqb_bits (rqb_word p) _ ok
        (bit_or-lt rqb_bpw _ _ (ok.fits (rqb_word p)) (bit_fits p))

  pub clrbit-IsStatus :
      (rq : Runq) (p : ℕ) → IsStatus rq.rqb_bits → IsStatus (runq_clrbit h rq p).rqb_bits
  unfolding runq_clrbit
  clrbit-IsStatus rq p ok =
      let old = get_or rq.rqb_bits (rqb_word p) 0 in
      let mask = 2 ^ rqb_bpw - 1 - rqb_bit p in
      set-IsStatus rq.rqb_bits (rqb_word p) (bit_and old mask) ok
        (omega (arith, ok.fits (rqb_word p), bit_and-le rqb_bpw old mask (ok.fits (rqb_word p))))
