-- ===== src/Runq/Choose.antt =====
-- What the run queue hands out: the head of the first queue that is not empty.
use coding_projects.Prelude.{
  ℕ, zero, suc, ◌<◌, Bool, true, false, Option, none, some, List, [], ◌∷◌, ◌≡◌, refl, sym, ◌∙◌,
  arith, get_or, Bool-cases, inl, inr, Option-cases, ltb, ◌==◌, subst, ap, take, ◌++◌,
  if◌then◌else◌,
}
use coding_projects.Runq.{
  Thread, Runq, first, is_empty, runq_findbit, runq_choose, runq_choose_fuzz, runq_check,
  prefer_cpu, choose_in,
}
use coding_projects.Runq.Header.{Header}
use coding_projects.Runq.Find.{Found, findbit-Found, check-findbit}
use coding_projects.Runq.Valid.{IsValid, mark}

-- The head of the first queue that holds a thread.
pub first_thread : List (List Thread) → Option Thread
first_thread [] = none
first_thread ([] ∷ queues) = first_thread queues
first_thread ((td ∷ rest) ∷ queues) = some td

mark_one : (queue : List Thread) → mark queue ≡ 1 → is_empty queue ≡ false
unfolding is_empty
mark_one [] e = absurd (omega arith)
mark_one (td ∷ rest) e = refl

mark_zero : (queue : List Thread) → mark queue ≡ 0 → queue ≡ []
unfolding is_empty
mark_zero [] e = refl
mark_zero (td ∷ rest) e = absurd (omega arith)

first_thread-nil :
    (queues : List (List Thread)) → ((q : ℕ) → get_or queues q [] ≡ []) → first_thread queues ≡ none
unfolding first_thread
first_thread-nil [] all = refl
first_thread-nil ([] ∷ queues) all = first_thread-nil queues (λ q. all (suc q))
first_thread-nil ((td ∷ rest) ∷ queues) all = cc (all 0)

first_thread_at :
    (queues : List (List Thread)) (p : ℕ)
    → is_empty (get_or queues p []) ≡ false
    → ((q : ℕ) → q < p → get_or queues q [] ≡ [])
    → first_thread queues ≡ first (get_or queues p [])
unfolding first_thread first is_empty
first_thread_at [] p full before = cc
first_thread_at ([] ∷ queues) zero full before = cc
first_thread_at ([] ∷ queues) (suc p) full before =
    first_thread_at queues p full (λ q l. before (suc q) (omega arith))
first_thread_at ((td ∷ rest) ∷ queues) zero full before = refl
first_thread_at ((td ∷ rest) ∷ queues) (suc p) full before = cc (before 0 (omega arith))

-- The first queue that holds a thread.
pub first_queue : List (List Thread) → List Thread
first_queue [] = []
first_queue ([] ∷ queues) = first_queue queues
first_queue ((td ∷ rest) ∷ queues) = td ∷ rest

first_queue-nil :
    (queues : List (List Thread)) → first_thread queues ≡ none → first_queue queues ≡ []
unfolding first_queue first_thread
first_queue-nil [] e = refl
first_queue-nil ([] ∷ queues) e = first_queue-nil queues e
first_queue-nil ((td ∷ rest) ∷ queues) e = cc

first_queue_at :
    (queues : List (List Thread)) (p : ℕ)
    → is_empty (get_or queues p []) ≡ false
    → ((q : ℕ) → q < p → get_or queues q [] ≡ [])
    → first_queue queues ≡ get_or queues p []
unfolding first_queue is_empty
first_queue_at [] p full before = cc
first_queue_at ([] ∷ queues) zero full before = cc
first_queue_at ([] ∷ queues) (suc p) full before =
    first_queue_at queues p full (λ q l. before (suc q) (omega arith))
first_queue_at ((td ∷ rest) ∷ queues) zero full before = refl
first_queue_at ((td ∷ rest) ∷ queues) (suc p) full before = cc (before 0 (omega arith))

-- The threads that last ran on a CPU.
pub of_cpu : ℕ → List Thread → List Thread
of_cpu cpu [] = []
of_cpu cpu (td ∷ threads) =
    if td.td_lastcpu == cpu then td ∷ of_cpu cpu threads else of_cpu cpu threads

-- The choice from a queue: a thread of the CPU among the first `fuzz`, if there is one, else the head.
pub fuzz_choice : ℕ → ℕ → List Thread → Option Thread
fuzz_choice fuzz cpu threads =
    if ltb 1 fuzz then first (of_cpu cpu (take fuzz threads) ++ threads) else first threads

fuzz_choice-nil : (fuzz cpu : ℕ) → fuzz_choice fuzz cpu [] ≡ none
unfolding fuzz_choice first of_cpu
fuzz_choice-nil zero cpu = refl
fuzz_choice-nil (suc fuzz) cpu = elim (Bool-cases (ltb 1 (suc fuzz))) [
  | inl e ↦ rw e refl
  | inr e ↦ rw e refl
]

abbrev pub has_thread : Option Thread → Bool
has_thread none = false
has_thread (some td) = true

first_of_full : (queue : List Thread) → is_empty queue ≡ false → has_thread (first queue) ≡ true
unfolding first is_empty
first_of_full [] e = sym e
first_of_full (td ∷ rest) e = refl

module _ (h : Header) where
  -- What `runq_findbit` has found, in terms of the queues.
  pub Chosen : Runq → Option ℕ → Type 0
  Chosen rq none = (first_thread rq.rq_queues ≡ none)
  Chosen rq (some pri) =
      (first_thread rq.rq_queues ≡ first (get_or rq.rq_queues pri []))
      × (is_empty (get_or rq.rq_queues pri []) ≡ false)
      × ((q : ℕ) → q < pri → get_or rq.rq_queues q [] ≡ [])

  Found-Chosen : (rq : Runq) (o : Option ℕ) → IsValid h rq → Found h rq.rqb_bits 0 o → Chosen rq o
  unfolding Chosen
  Found-Chosen rq none v all =
      first_thread-nil rq.rq_queues (λ q. mark_zero _ (sym (v.marks q) ∙ all q))
  Found-Chosen rq (some pri) v (p, at, on, before) =
      let e : pri ≡ p = omega arith in
      let full = mark_one (get_or rq.rq_queues p []) (sym (v.marks p) ∙ on) in
      let empty_before = λ (q : ℕ) (l : q < p).
        mark_zero (get_or rq.rq_queues q []) (sym (v.marks q) ∙ before q l) in
      rw e (first_thread_at rq.rq_queues p full empty_before, full, empty_before)

  pub findbit-Chosen : (rq : Runq) → IsValid h rq → Chosen rq (runq_findbit h rq)
  findbit-Chosen rq v = Found-Chosen rq (runq_findbit h rq) v (findbit-Found h rq v.status)

  -- On a valid run queue, `runq_choose` gives the first thread of the first queue that is not empty,
  -- and nothing when all are empty.
  pub choose_lem : (rq : Runq) → IsValid h rq → runq_choose h rq ≡ first_thread rq.rq_queues
  unfolding Chosen runq_choose
  choose_lem rq v = elim (Option-cases (runq_findbit h rq)) [
    | inl e ↦ rw (e, runq_choose) (sym (subst (Chosen rq) e (findbit-Chosen rq v)))
    | inr (pri, e) ↦ rw (e, runq_choose) (sym (subst (Chosen rq) e (findbit-Chosen rq v)).0)
  ]

  -- On a valid run queue, `runq_check` answers whether some queue holds a thread.
  pub check_lem :
      (rq : Runq) → IsValid h rq → runq_check h rq ≡ has_thread (first_thread rq.rq_queues)
  unfolding Chosen first is_empty
  check_lem rq v = check-findbit h rq ∙ elim (Option-cases (runq_findbit h rq)) [
    | inl e ↦ rw (e, subst (Chosen rq) e (findbit-Chosen rq v)) refl
    | inr (pri, e) ↦
        let c = subst (Chosen rq) e (findbit-Chosen rq v) in
        rw (e, c.0) (sym (first_of_full (get_or rq.rq_queues pri []) c.1))
  ]

  -- The search for the thread of a CPU, with another list to fall back on.
  prefer_cpu_lem :
      (count cpu : ℕ) (threads rest : List Thread)
      → first (of_cpu cpu (take count threads) ++ rest)
        ≡ (elim (prefer_cpu h count cpu threads) [ some td ↦ some td | none ↦ first rest ])
  unfolding prefer_cpu of_cpu first
  prefer_cpu_lem zero cpu threads rest = refl
  prefer_cpu_lem (suc count) cpu [] rest = refl
  prefer_cpu_lem (suc count) cpu (x ∷ xs) rest = elim (Bool-cases (x.td_lastcpu == cpu)) [
    | inl same ↦ rw same refl
    | inr other ↦ rw other (prefer_cpu_lem count cpu xs rest)
  ]

  choose_in_lem :
      (queue : List Thread) (fuzz cpu : ℕ) → choose_in h queue fuzz cpu ≡ fuzz_choice fuzz cpu queue
  unfolding choose_in fuzz_choice
  choose_in_lem queue fuzz cpu = elim (Bool-cases (ltb 1 fuzz)) [
    | inl fuzzy ↦ rw fuzzy (sym (prefer_cpu_lem fuzz cpu queue queue))
    | inr plain ↦ rw plain refl
  ]

  -- On a valid run queue, `runq_choose_fuzz` gives, from the first queue that is not empty, the first of
  -- the threads that last ran on this CPU among its first `fuzz` threads, if `fuzz` is greater than 1 and
  -- there is one, else the head of that queue; and nothing when all queues are empty.
  pub choose_fuzz_lem :
      (rq : Runq) (fuzz cpu : ℕ)
      → IsValid h rq
      → runq_choose_fuzz h rq fuzz cpu ≡ fuzz_choice fuzz cpu (first_queue rq.rq_queues)
  unfolding Chosen runq_choose_fuzz
  choose_fuzz_lem rq fuzz cpu v = elim (Option-cases (runq_findbit h rq)) [
    | inl e ↦
        let empty = first_queue-nil rq.rq_queues (subst (Chosen rq) e (findbit-Chosen rq v)) in
        rw (e, runq_choose_fuzz) (sym (ap (fuzz_choice fuzz cpu) empty ∙ fuzz_choice-nil fuzz cpu))
    | inr (pri, e) ↦
        let c = subst (Chosen rq) e (findbit-Chosen rq v) in
        rw (e, runq_choose_fuzz)
          (choose_in_lem (get_or rq.rq_queues pri []) fuzz cpu
            ∙ ap (fuzz_choice fuzz cpu) (sym (first_queue_at rq.rq_queues pri c.1 c.2)))
  ]
