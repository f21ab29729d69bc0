-- ===== src/Runq.antt =====
-- The run queues of ThreadScheduler/kern_switch_pq.c, and of kern_switch_FIFO.c, which differs in
-- `runq_add` and `runq_add_pri` alone. A TAILQ is the list of its threads from the head on. The
-- KASSERTs are not part of a production kernel: where one matters, a theorem has it as a hypothesis.
-- The traces (CTR4, ...) are left out.
pub mod Header
pub mod Bits
pub mod Add
pub mod Find
pub mod Valid
pub mod Fifo
pub mod Sorted
pub mod Choose
mod Tests
use coding_projects.Prelude.{
  ℕ, zero, suc, ◌+◌, ◌-◌, ◌*◌, ◌/◌, ◌%◌, ◌^◌, bit_and, bit_or, Bool, true, false, not, ◌&&◌, ◌||◌,
  Option, none, some, List, [], ◌∷◌, ◌++◌, ltb, ◌==◌, if◌then◌else◌, length, get_or, set, drop,
  replicate,
}

-- The fields of `struct thread` that the run queues read or write.
pub record Thread : Type 0 where
  pub id : ℕ
  pub td_priority : ℕ
  pub td_lastcpu : ℕ
  pub td_rqindex : ℕ

-- `struct runq`: the words of `rq_status`, and `rq_queues`.
pub record Runq : Type 0 where
  pub rqb_bits : List ℕ
  pub rq_queues : List (List Thread)

unfoldable pub first : List Thread → Option Thread
first [] = none
first (td ∷ rest) = some td

unfoldable pub is_empty : List Thread → Bool
is_empty [] = true
is_empty (td ∷ rest) = false

-- TAILQ_REMOVE: a thread is known by its address, here its `id`. The caller's thread is on the queue, as
-- TAILQ_REMOVE presupposes; for any other the list stays as it is here, where the links of the thread
-- would be followed there.
pub remove : ℕ → List Thread → List Thread
remove id [] = []
remove id (td ∷ rest) = if td.id == id then rest else td ∷ remove id rest

-- The loop that puts a thread into a queue that is not empty: `temp` is the head of the list and
-- `temp_next` what stands behind it.
pub walk : Thread → Thread → List Thread → List Thread
walk td temp [] = if ltb td.td_priority temp.td_priority then td ∷ temp ∷ [] else temp ∷ td ∷ []
walk td temp (temp_next ∷ rest) =
    if ltb td.td_priority temp.td_priority
    then td ∷ temp ∷ temp_next ∷ rest
    else (if ltb td.td_priority temp_next.td_priority
        then temp ∷ td ∷ temp_next ∷ rest
        else temp ∷ walk td temp_next rest)

pub insert_by_priority : Thread → List Thread → List Thread
insert_by_priority td [] = td ∷ []
insert_by_priority td (temp ∷ rest) = walk td temp rest

pub insert_fifo : Bool → Thread → List Thread → List Thread
insert_fifo preempted td queue = if preempted then td ∷ queue else queue ++ (td ∷ [])

-- The test marked "user level threads".
pub user_level : ℕ → Bool
user_level pri = ltb 47 pri && ltb pri 80 || ltb 119 pri

-- Where a thread goes in its queue; `preempted` is `flags & SRQ_PREEMPTED`.
pub enqueue : Bool → Thread → ℕ → List Thread → List Thread
enqueue preempted td pri queue =
    if user_level pri then insert_by_priority td queue else insert_fifo preempted td queue

module _ (h : Header.Header) where
  open h use {rqb_bpw, rqb_len, rqb_l2bpw, rq_ppq, rqb_word, rqb_bit, rqb_ffs}

  abbrev pub rq_nqs : ℕ
  rq_nqs = rqb_bpw * rqb_len

  pub runq_init : Runq
  runq_init = record { rqb_bits = replicate rqb_len 0; rq_queues = replicate rq_nqs [] }

  pub runq_setbit : Runq → ℕ → Runq
  runq_setbit rq pri =
      let old = get_or rq.rqb_bits (rqb_word pri) 0 in
      record rq { rqb_bits = set rq.rqb_bits (rqb_word pri) (bit_or old (rqb_bit pri)) }

  -- `~RQB_BIT(pri)` is a word of RQB_BPW bits.
  pub runq_clrbit : Runq → ℕ → Runq
  runq_clrbit rq pri =
      let old = get_or rq.rqb_bits (rqb_word pri) 0 in
      record rq {
        rqb_bits = set rq.rqb_bits (rqb_word pri) (bit_and old (2 ^ rqb_bpw - 1 - rqb_bit pri));
      }

  -- The loop of `runq_findbit` at word `i`; `none` is the -1.
  pub find_word : ℕ → List ℕ → Option ℕ
  find_word i [] = none
  find_word i (w ∷ ws) =
      let rest = find_word (i + 1) ws in
      if w == 0 then rest else some (rqb_ffs w + i * 2 ^ rqb_l2bpw)

  pub runq_findbit : Runq → Option ℕ
  runq_findbit rq = find_word 0 rq.rqb_bits

  -- The loop of `runq_findbit_from` at word `i`, with the mask of the first word.
  pub find_masked : ℕ → ℕ → List ℕ → Option ℕ
  find_masked mask i [] = none
  find_masked mask i (w ∷ ws) =
      let rest = find_masked (2 ^ rqb_bpw - 1) (i + 1) ws in
      let m = bit_and w mask in if m == 0 then rest else some (rqb_ffs m + i * 2 ^ rqb_l2bpw)

  -- From `pri` to the end, then once more from the start. Behind a loop that has run the mask is -1,
  -- and the loop runs when `pri` is the index of a queue.
  pub runq_findbit_from : Runq → ℕ → Option ℕ
  runq_findbit_from rq pri =
      let all = 2 ^ rqb_bpw - 1 in
      let mask = all * 2 ^ bit_and pri (rqb_bpw - 1) % 2 ^ rqb_bpw in
      let ahead = find_masked mask (rqb_word pri) (drop (rqb_word pri) rq.rqb_bits) in
      elim ahead [
        | some p ↦ some p
        | none ↦ if pri == 0 then none else find_masked all 0 rq.rqb_bits
      ]

  abbrev queue : Runq → ℕ → List Thread
  queue rq pri = get_or rq.rq_queues pri []

  -- The part that `runq_add` and `runq_add_pri` share: the thread with its index set, the status bit,
  -- and the queue.
  pub add_at : Runq → Thread → ℕ → Bool → Runq
  add_at rq td pri preempted =
      let td' = record td { td_rqindex = pri } in
      let marked = runq_setbit rq pri in
      record marked { rq_queues = set rq.rq_queues pri (enqueue preempted td' pri (queue rq pri)) }

  pub runq_add : Runq → Thread → Bool → Runq
  runq_add rq td preempted = add_at rq td (td.td_priority / rq_ppq) preempted

  pub runq_add_pri : Runq → Thread → ℕ → Bool → Runq
  runq_add_pri rq td pri preempted = add_at rq td pri preempted

  pub check_words : List ℕ → Bool
  check_words [] = false
  check_words (w ∷ ws) = if w == 0 then check_words ws else true

  pub runq_check : Runq → Bool
  runq_check rq = check_words rq.rqb_bits

  -- The first of at most `count` threads that last ran on `cpu`.
  pub prefer_cpu : ℕ → ℕ → List Thread → Option Thread
  prefer_cpu zero cpu threads = none
  prefer_cpu (suc count) cpu [] = none
  prefer_cpu (suc count) cpu (td ∷ rest) =
      if td.td_lastcpu == cpu then some td else prefer_cpu count cpu rest

  -- The choice in a queue; `cpu` is `PCPU_GET(cpuid)`.
  pub choose_in : List Thread → ℕ → ℕ → Option Thread
  choose_in threads fuzz cpu =
      if ltb 1 fuzz
      then elim (prefer_cpu fuzz cpu threads) [ some td ↦ some td | none ↦ first threads ]
      else first threads

  pub runq_choose_fuzz : Runq → ℕ → ℕ → Option Thread
  runq_choose_fuzz rq fuzz cpu = elim (runq_findbit rq) [
    | none ↦ none
    | some pri ↦ choose_in (queue rq pri) fuzz cpu
  ]

  pub runq_choose : Runq → Option Thread
  runq_choose rq = elim (runq_findbit rq) [ none ↦ none | some pri ↦ first (queue rq pri) ]

  pub runq_choose_from : Runq → ℕ → Option Thread
  runq_choose_from rq idx = elim (runq_findbit_from rq idx) [
    | none ↦ none
    | some pri ↦ first (queue rq pri)
  ]

  -- The queue, and the index that `idx` points to, if it is given.
  pub runq_remove_idx : Runq → Thread → Option ℕ → Runq × Option ℕ
  runq_remove_idx rq td idx =
      let pri = td.td_rqindex in
      let left = remove td.id (queue rq pri) in
      let rq' = record rq { rq_queues = set rq.rq_queues pri left } in
      if is_empty left
      then (
        runq_clrbit rq' pri,
        elim idx [ none ↦ none | some i ↦ some (if i == pri then (pri + 1) % rq_nqs else i) ],
      )
      else (rq', idx)

  pub runq_remove : Runq → Thread → Runq
  runq_remove rq td = (runq_remove_idx rq td none).0
