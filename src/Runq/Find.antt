-- ===== src/Runq/Find.antt =====
-- `runq_findbit` finds the first status bit that is set.
use native.Mathlib.Decide.{ℕ_discrete, dec_lt}
use native.Mathlib.Nat.{div-eq_of_lt, mod-eq_of_lt, add-div_right, add-mod_right}
use coding_projects.Prelude.{
  ℕ, suc, ◌+◌, ◌-◌, ◌*◌, ◌/◌, ◌%◌, ◌^◌, ◌<◌, Bool, true, false, Option, none, some, List, [], ◌∷◌,
  ◌≡◌, ◌≢◌, inl, inr, refl, ◌∙◌, arith, ◌==◌, get_or, Bool-cases, ==_of_ne,
}
use coding_projects.Bits.{test_bit, test_bit_zero, test_bit_high}
use coding_projects.Runq.{Runq, find_word, runq_findbit, check_words, runq_check}
use coding_projects.Runq.Header.{Header}
use coding_projects.Runq.Bits.{status_bit, IsStatus, bpw_positive}

module _ (h : Header) where
  open h use {rqb_bpw, rqb_ffs, bpw_pow, ffs_set, ffs_lowest}

  -- The result of a search from word `i` on: the first bit that is set, or none is.
  abbrev pub Found : List ℕ → ℕ → Option ℕ → Type 0
  Found ws i none = (q : ℕ) → status_bit h ws q ≡ 0
  Found ws i (some r) =
      (p : ℕ) × (r ≡ p + i * rqb_bpw)
      × (status_bit h ws p ≡ 1)
      × ((q : ℕ) → q < p → status_bit h ws q ≡ 0)

  pub status_bit-nil : (q : ℕ) → status_bit h [] q ≡ 0
  unfolding status_bit
  status_bit-nil q = test_bit_zero (q % rqb_bpw)

  -- The bits of the first word, and those behind it.
  pub status_bit_here :
      (w : ℕ) (ws : List ℕ) (q : ℕ) → q < rqb_bpw → status_bit h (w ∷ ws) q ≡ test_bit w q
  unfolding status_bit
  status_bit_here w ws q l = rw (div-eq_of_lt l, mod-eq_of_lt l) refl

  pub status_bit_behind :
      (w : ℕ) (ws : List ℕ) (q : ℕ) → status_bit h (w ∷ ws) (q + rqb_bpw) ≡ status_bit h ws q
  unfolding status_bit
  status_bit_behind w ws q =
      let e : q / rqb_bpw + 1 ≡ suc (q / rqb_bpw) = omega arith in
      rw (add-div_right q (bpw_positive h), add-mod_right q rqb_bpw, e) refl

  pub ffs-lt : (w : ℕ) → w ≢ 0 → w < 2 ^ rqb_bpw → rqb_ffs w < rqb_bpw
  ffs-lt w ne small = elim (dec_lt (rqb_ffs w) rqb_bpw) [
    | yes below ↦ below
    | no above ↦
        absurd (
          omega
            (arith, ffs_set w ne small, test_bit_high rqb_bpw (rqb_ffs w) w small (omega arith)))
  ]

  -- A word that is 0 moves the search to the next.
  skip_zero : (ws : List ℕ) (i : ℕ) (o : Option ℕ) → Found ws (i + 1) o → Found (0 ∷ ws) i o
  skip_zero ws i none all = λ q. elim (dec_lt q rqb_bpw) [
    | yes here ↦ status_bit_here 0 ws q here ∙ test_bit_zero q
    | no behind ↦
        let e : q ≡ (q - rqb_bpw) + rqb_bpw = omega arith in
        rw e (status_bit_behind 0 ws (q - rqb_bpw) ∙ all (q - rqb_bpw))
  ]
  skip_zero ws i (some r) (p, at, on, before) = (
    p + rqb_bpw,
    grind arith,
    status_bit_behind 0 ws p ∙ on,
    λ q below. elim (dec_lt q rqb_bpw) [
      | yes here ↦ status_bit_here 0 ws q here ∙ test_bit_zero q
      | no behind ↦
          let e : q ≡ (q - rqb_bpw) + rqb_bpw = omega arith in
          rw e (status_bit_behind 0 ws (q - rqb_bpw) ∙ before (q - rqb_bpw) (omega arith))
    ],
  )

  find_word-Found :
      (ws : List ℕ) (i : ℕ)
      → ((j : ℕ) → get_or ws j 0 < 2 ^ rqb_bpw)
      → Found ws i (find_word h i ws)
  unfolding find_word
  find_word-Found [] i fits = status_bit-nil
  find_word-Found (w ∷ ws) i fits = elim (ℕ_discrete w 0) [
    | yes e ↦
        rw e
          (skip_zero ws i (find_word h (i + 1) ws) (find_word-Found ws (i + 1) (λ j. fits (suc j))))
    | no ne ↦
        let inside = ffs-lt w ne (fits 0) in
        rw (==_of_ne w 0 ne) (
          rqb_ffs w,
          rw (← bpw_pow) refl,
          status_bit_here w ws (rqb_ffs w) inside ∙ ffs_set w ne (fits 0),
          λ q below. status_bit_here w ws q (omega arith) ∙ ffs_lowest w q below,
        )
  ]

  pub findbit-Found : (rq : Runq) → IsStatus h rq.rqb_bits → Found rq.rqb_bits 0 (runq_findbit h rq)
  unfolding runq_findbit
  findbit-Found rq ok = find_word-Found rq.rqb_bits 0 ok.fits

  abbrev pub is_some : Option ℕ → Bool
  is_some none = false
  is_some (some n) = true

  check_words-find : (ws : List ℕ) (i : ℕ) → check_words h ws ≡ is_some (find_word h i ws)
  unfolding check_words find_word
  check_words-find [] i = refl
  check_words-find (w ∷ ws) i = elim (Bool-cases (w == 0)) [
    | inl e ↦ rw e (check_words-find ws (i + 1))
    | inr ne ↦ rw ne refl
  ]

  -- `runq_check` answers whether `runq_findbit` finds a queue.
  pub check-findbit : (rq : Runq) → runq_check h rq ≡ is_some (runq_findbit h rq)
  unfolding runq_check runq_findbit
  check-findbit rq = check_words-find rq.rqb_bits 0
