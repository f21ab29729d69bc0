-- ===== src/Runq/Tests.antt =====
-- The amd64 sizes of the run queue, runs on them, and the theorems at these runs.
use native.Mathlib.Nat.{pow-suc}
use coding_projects.Prelude.{
  ℕ, zero, suc, ◌/◌, ◌%◌, ◌^◌, ◌<◌, true, false, some, [], ◌∷◌, ◌≡◌, ◌≢◌, refl, arith, ◌==◌,
  if◌then◌else◌, Bool-cases, inl, inr,
}
use coding_projects.Bits.{test_bit}
use coding_projects.Runq.{
  Thread, Runq, walk, insert_by_priority, user_level, enqueue, first, is_empty, remove, runq_init,
  runq_setbit, runq_clrbit, find_word, runq_findbit, find_masked, runq_findbit_from, add_at,
  runq_add, runq_check, check_words, prefer_cpu, choose_in, runq_choose, runq_choose_fuzz,
  runq_choose_from, runq_remove_idx,
}
use coding_projects.Runq.Fifo
use coding_projects.Runq.Header.{Header}
use coding_projects.Runq.Add.{insert_sorted, by_priority-insert_sorted, IsSorted, Placed}
use coding_projects.Runq.Valid.{IsValid, init-IsValid, add-IsValid, remove_idx-IsValid}
use coding_projects.Runq.Choose.{
  first_thread, first_queue, fuzz_choice, has_thread, choose_lem, check_lem, choose_fuzz_lem,
}
use coding_projects.Runq.Sorted.{queue_of, add-Placed, add_below_192-fifo}

-- The number of the lowest bit that is set, as `bsfq` gives it.
lowest : ℕ → ℕ → ℕ
lowest zero w = 0
lowest (suc n) w = let rest = suc (lowest n (w / 2)) in if w % 2 == 1 then 0 else rest

lowest_set : (n w : ℕ) → w ≢ 0 → w < 2 ^ n → test_bit w (lowest n w) ≡ 1
unfolding lowest test_bit
lowest_set zero w ne small = absurd (omega arith)
lowest_set (suc n) w ne small = elim (Bool-cases (w % 2 == 1)) [
  | inl odd ↦ rw odd (ground arith)
  | inr even ↦ rw even (lowest_set n (w / 2) (λ e. ne (ground arith)) (omega (arith, pow-suc 2 n)))
]

lowest_first : (n w j : ℕ) → j < lowest n w → test_bit w j ≡ 0
unfolding lowest test_bit
lowest_first zero w j l = absurd (omega arith)
lowest_first (suc n) w zero l = elim (Bool-cases (w % 2 == 1)) [
  | inl odd ↦ nothing_below (rw (odd, lowest) at l)
  | inr even ↦ ground arith
]
  where
    nothing_below : 0 < 0 → w % 2 ≡ 0
    nothing_below h = elim h [ ]
lowest_first (suc n) w (suc j) l = elim (Bool-cases (w % 2 == 1)) [
  | inl odd ↦ nothing_below (rw (odd, lowest) at l)
  | inr even ↦
      let l' : suc j < suc (lowest n (w / 2)) = rw (even, lowest) at l in
      lowest_first n (w / 2) j (omega arith)
]
  where
    nothing_below : suc j < 0 → test_bit (w / 2) j ≡ 0
    nothing_below h = elim h [ ]

abbrev amd64 : Header
amd64 = record {
  rqb_bpw = 64;
  rqb_l2bpw = 6;
  rqb_len = 1;
  rq_ppq = 4;
  rqb_word = λ pri. pri / 64;
  rqb_bit = λ pri. 2 ^ (pri % 64);
  rqb_ffs = lowest 64;
  bpw_pow = refl;
  ppq_pos = omega arith;
  word_div = λ pri. refl;
  bit_pow = λ pri. refl;
  ffs_set = lowest_set 64;
  ffs_lowest = lowest_first 64;
}

-- A thread of priority 200, in queue 50, and one of priority 203, in the same queue.
abbrev low : Thread
low = record { id = 1; td_priority = 203; td_lastcpu = 0; td_rqindex = 0 }

abbrev high : Thread
high = record { id = 2; td_priority = 200; td_lastcpu = 1; td_rqindex = 0 }

abbrev start : Runq
start = runq_init amd64

abbrev one : Runq
one = runq_add amd64 start low false

abbrev two : Runq
two = runq_add amd64 one high false

abbrev low_in : Thread
low_in = record low { td_rqindex = 50 }

abbrev high_in : Thread
high_in = record high { td_rqindex = 50 }

one-IsValid : IsValid amd64 one
one-IsValid = add-IsValid amd64 start low false (init-IsValid amd64) (omega arith)

two-IsValid : IsValid amd64 two
two-IsValid = add-IsValid amd64 one high false one-IsValid (omega arith)

runs :
    (runq_choose amd64 two ≡ some high_in)
    × (runq_choose_from amd64 two 51 ≡ some high_in)
    × (runq_choose_fuzz amd64 two 2 0 ≡ some low_in)
    × (runq_check amd64 start ≡ false)
    × ((runq_remove_idx amd64 one low_in (some 50)).1 ≡ some 51)
unfolding runq_choose runq_choose_from runq_choose_fuzz runq_check runq_remove_idx runq_findbit
    runq_findbit_from find_word find_masked runq_add add_at enqueue user_level insert_by_priority
    walk runq_setbit runq_clrbit runq_init lowest first is_empty remove prefer_cpu choose_in
    check_words
runs = (refl, refl, refl, refl, refl)

by_priority-insert_sorted_example :
    insert_by_priority high (low ∷ []) ≡ insert_sorted high (low ∷ [])
by_priority-insert_sorted_example = by_priority-insert_sorted high (low ∷ [])

add-IsValid_example : IsValid amd64 two
add-IsValid_example = add-IsValid amd64 one high false one-IsValid (omega arith)

remove_idx-IsValid_example : IsValid amd64 (runq_remove_idx amd64 two low_in (some 50)).0
remove_idx-IsValid_example = remove_idx-IsValid amd64 two low_in (some 50) two-IsValid (omega arith)

choose_lem_example : runq_choose amd64 two ≡ first_thread two.rq_queues
choose_lem_example = choose_lem amd64 two two-IsValid

check_lem_example : runq_check amd64 two ≡ has_thread (first_thread two.rq_queues)
check_lem_example = check_lem amd64 two two-IsValid

two_chooses : runq_choose amd64 two ≡ some high_in
two_chooses = runs.0

choose_fuzz_lem_example :
    runq_choose_fuzz amd64 two 2 0 ≡ fuzz_choice 2 0 (first_queue two.rq_queues)
choose_fuzz_lem_example = choose_fuzz_lem amd64 two 2 0 two-IsValid

user_fifty : user_level 50 ≡ true
unfolding user_level
user_fifty = refl

one-IsSorted : IsSorted (queue_of amd64 one high false one 50)
unfolding runq_add add_at enqueue user_level insert_by_priority walk runq_setbit runq_init
one-IsSorted = (tt, tt)

add-Placed_example :
    Placed high_in (queue_of amd64 one high false one 50) (queue_of amd64 one high false two 50)
    × ((q : ℕ) → q ≢ 50 → queue_of amd64 one high false two q ≡ queue_of amd64 one high false one q)
add-Placed_example =
    add-Placed amd64 one high false one-IsValid (omega arith) user_fifty one-IsSorted

abbrev timeshare : Thread
timeshare = record { id = 3; td_priority = 130; td_lastcpu = 0; td_rqindex = 0 }

add_below_192-fifo_example :
    runq_add amd64 two timeshare false ≡ Fifo.runq_add amd64 two timeshare false
add_below_192-fifo_example = add_below_192-fifo amd64 two timeshare false refl (omega arith)
