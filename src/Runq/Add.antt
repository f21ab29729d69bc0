-- ===== src/Runq/Add.antt =====
-- How a thread enters a queue: the walk of kern_switch_pq.c against an insertion by priority.
use coding_projects.Prelude.{
  ℕ, ◌≤◌, ◌<◌, Bool, false, List, [], ◌∷◌, ◌++◌, ◌≡◌, refl, ap, ◌∙◌, arith, ltb, ltb→lt, ◌==◌,
  if◌then◌else◌, Bool-cases, inl, inr, All, All-append,
}
use coding_projects.Runq.{
  Thread, walk, insert_by_priority, insert_fifo, user_level, enqueue, is_empty, remove,
}

-- Before the first thread of greater priority number, so behind its equals.
pub insert_sorted : Thread → List Thread → List Thread
insert_sorted td [] = td ∷ []
insert_sorted td (x ∷ xs) =
    if ltb td.td_priority x.td_priority then td ∷ x ∷ xs else x ∷ insert_sorted td xs

walk-insert_sorted :
    (td temp : Thread) (rest : List Thread) → walk td temp rest ≡ insert_sorted td (temp ∷ rest)
unfolding walk insert_sorted
walk-insert_sorted td temp [] = refl
walk-insert_sorted td temp (next ∷ rest) = elim (Bool-cases (ltb td.td_priority temp.td_priority)) [
  | inl before ↦ rw before refl
  | inr behind ↦ elim (Bool-cases (ltb td.td_priority next.td_priority)) [
    | inl here ↦ rw (behind, here) refl
    | inr later ↦
        rw (behind, later)
          (ap (λ t. temp ∷ t) (walk-insert_sorted td next rest ∙ rw (later, insert_sorted) refl))
  ]
]

-- The loop over `temp` and `temp_next` puts a thread where an insertion by priority puts it: before
-- the first thread whose `td_priority` is greater, in any queue.
pub by_priority-insert_sorted :
    (td : Thread) (queue : List Thread) → insert_by_priority td queue ≡ insert_sorted td queue
unfolding insert_by_priority
by_priority-insert_sorted td [] = unfold insert_sorted in refl
by_priority-insert_sorted td (temp ∷ rest) = walk-insert_sorted td temp rest

-- In order of priority.
abbrev pub IsSorted : List Thread → Type 0
IsSorted [] = Unit {0}
IsSorted (x ∷ xs) = All (λ (t : Thread). x.td_priority ≤ t.td_priority) xs × IsSorted xs

-- A place in a queue for a thread: behind all that are at most its priority number, before the rest.
pub record Placed (td : Thread) (queue result : List Thread) : Type 0 where
  pub front : List Thread
  pub back : List Thread
  pub splits : queue ≡ front ++ back
  pub inserts : result ≡ front ++ (td ∷ back)
  pub front_le : All (λ (t : Thread). t.td_priority ≤ td.td_priority) front
  pub back_gt : All (λ (t : Thread). td.td_priority < t.td_priority) back
  pub sorted : IsSorted result

All-greater :
    (p q : ℕ) (xs : List Thread)
    → p < q
    → All (λ (t : Thread). q ≤ t.td_priority) xs
    → All (λ (t : Thread). p < t.td_priority) xs
All-greater p q [] h a = tt
All-greater p q (x ∷ xs) h a = (omega arith, All-greater p q xs h a.1)

All-at_least :
    (p : ℕ) (xs : List Thread)
    → All (λ (t : Thread). p < t.td_priority) xs
    → All (λ (t : Thread). p ≤ t.td_priority) xs
All-at_least p [] a = tt
All-at_least p (x ∷ xs) a = (omega arith, All-at_least p xs a.1)

pub All-insert_sorted :
    (P : Thread → Type 0) (td : Thread) (xs : List Thread)
    → P td
    → All P xs
    → All P (insert_sorted td xs)
unfolding insert_sorted
All-insert_sorted P td [] p a = (p, tt)
All-insert_sorted P td (x ∷ xs) p a = elim (Bool-cases (ltb td.td_priority x.td_priority)) [
  | inl before ↦ rw before (p, a)
  | inr behind ↦ rw behind (a.0, All-insert_sorted P td xs p a.1)
]

pub insert_sorted-Placed :
    (td : Thread) (queue : List Thread) → IsSorted queue → Placed td queue (insert_sorted td queue)
unfolding insert_sorted
insert_sorted-Placed td [] s = record {
  front = [];
  back = [];
  splits = refl;
  inserts = refl;
  front_le = tt;
  back_gt = tt;
  sorted = (tt, tt);
}
insert_sorted-Placed td (x ∷ xs) s = elim (Bool-cases (ltb td.td_priority x.td_priority)) [
  | inl before ↦
      let less = ltb→lt td.td_priority x.td_priority before in
      let greater = All-greater td.td_priority x.td_priority xs less s.0 in
      rw before (record {
        front = [];
        back = x ∷ xs;
        splits = refl;
        inserts = refl;
        front_le = tt;
        back_gt = (less, greater);
        sorted = ((omega arith, All-at_least td.td_priority xs greater), s);
      })
  | inr behind ↦
      let rest = insert_sorted-Placed td xs s.1 in
      rw behind (record {
        front = x ∷ rest.front;
        back = rest.back;
        splits = ap (λ t. x ∷ t) rest.splits;
        inserts = ap (λ t. x ∷ t) rest.inserts;
        front_le = (ground arith, rest.front_le);
        back_gt = rest.back_gt;
        sorted = (
          All-insert_sorted (λ t. x.td_priority ≤ t.td_priority) td xs (ground arith) s.0,
          rest.sorted,
        );
      })
]

-- Every way into a queue keeps what holds of all its threads, and leaves the queue with a thread.
pub enqueue-All :
    (P : Thread → Type 0) (preempted : Bool) (td : Thread) (pri : ℕ) (queue : List Thread)
    → P td
    → All P queue
    → All P (enqueue preempted td pri queue)
unfolding enqueue insert_fifo
enqueue-All P preempted td pri queue p a = elim (Bool-cases (user_level pri)) [
  | inl user ↦ rw (user, by_priority-insert_sorted td queue) (All-insert_sorted P td queue p a)
  | inr kernel ↦ elim (Bool-cases preempted) [
    | inl e ↦ rw (kernel, e) (p, a)
    | inr e ↦ rw (kernel, e) (All-append P queue (td ∷ []) a (p, tt))
  ]
]

insert_sorted_not_empty : (td : Thread) (xs : List Thread) → is_empty (insert_sorted td xs) ≡ false
unfolding insert_sorted is_empty
insert_sorted_not_empty td [] = refl
insert_sorted_not_empty td (x ∷ xs) = elim (Bool-cases (ltb td.td_priority x.td_priority)) [
  | inl before ↦ rw before refl
  | inr behind ↦ rw behind refl
]

append_not_empty : (xs : List Thread) (td : Thread) → is_empty (xs ++ (td ∷ [])) ≡ false
unfolding is_empty
append_not_empty [] td = refl
append_not_empty (x ∷ xs) td = refl

pub enqueue_not_empty :
    (preempted : Bool) (td : Thread) (pri : ℕ) (queue : List Thread)
    → is_empty (enqueue preempted td pri queue) ≡ false
unfolding enqueue insert_fifo
enqueue_not_empty preempted td pri queue = elim (Bool-cases (user_level pri)) [
  | inl user ↦ rw (user, by_priority-insert_sorted td queue) (insert_sorted_not_empty td queue)
  | inr kernel ↦ elim (Bool-cases preempted) [
    | inl e ↦ rw (kernel, e) (unfold is_empty in refl)
    | inr e ↦ rw (kernel, e) (append_not_empty queue td)
  ]
]

pub remove-All :
    (P : Thread → Type 0) (id : ℕ) (queue : List Thread) → All P queue → All P (remove id queue)
unfolding remove
remove-All P id [] a = tt
remove-All P id (x ∷ xs) a = elim (Bool-cases (x.id == id)) [
  | inl e ↦ rw e a.1
  | inr ne ↦ rw ne (a.0, remove-All P id xs a.1)
]

pub not_empty_of_remove :
    (id : ℕ) (queue : List Thread) → is_empty (remove id queue) ≡ false → is_empty queue ≡ false
unfolding remove is_empty
not_empty_of_remove id [] e = e
not_empty_of_remove id (x ∷ xs) e = refl
