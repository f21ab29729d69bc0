-- ===== src/Runq/Header.antt =====
-- What kern_switch_pq.c takes from sys/runq.h and the machine's header, which the repository does
-- not have: the sizes and macros of the status words, and what their comments promise.
use coding_projects.Prelude.{ℕ, ◌/◌, ◌%◌, ◌^◌, ◌<◌, ◌≡◌, ◌≢◌}
use coding_projects.Bits.{test_bit}

pub record Header : Type 0 where
  -- The bits of a status word, their number's logarithm, and the number of words.
  pub rqb_bpw : ℕ
  pub rqb_l2bpw : ℕ
  pub rqb_len : ℕ
  -- The number of priorities that share a queue.
  pub rq_ppq : ℕ
  -- The word and the bit of a queue, and the number of the lowest bit that is set.
  pub rqb_word : ℕ → ℕ
  pub rqb_bit : ℕ → ℕ
  pub rqb_ffs : ℕ → ℕ
  pub bpw_pow : rqb_bpw ≡ 2 ^ rqb_l2bpw
  pub ppq_pos : 0 < rq_ppq
  pub word_div : (pri : ℕ) → rqb_word pri ≡ pri / rqb_bpw
  pub bit_pow : (pri : ℕ) → rqb_bit pri ≡ 2 ^ (pri % rqb_bpw)
  pub ffs_set : (w : ℕ) → w ≢ 0 → w < 2 ^ rqb_bpw → test_bit w (rqb_ffs w) ≡ 1
  pub ffs_lowest : (w j : ℕ) → j < rqb_ffs w → test_bit w j ≡ 0
