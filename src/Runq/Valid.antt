-- ===== src/Runq/Valid.antt =====
-- The invariant of a run queue, kept by every operation.
use coding_projects.Prelude.{
  ℕ, ◌/◌, ◌%◌, ◌<◌, Bool, true, false, Option, List, [], ◌≡◌, refl, sym, ap, ◌∙◌, arith, ◌==◌,
  if◌then◌else◌, length, get_or, set, length-set, get_or-set_self, get_or-set_ne, get_or-replicate,
  length-replicate, replicate, Bool-cases, inl, inr, ==_of_ne, ==_refl, All, ==_iff, subst,
}
use native.Mathlib.Nat.{one-le-pow}
use native.Mathlib.Decide.{ℕ_discrete}
use coding_projects.Bits.{test_bit_zero}
use coding_projects.Runq.{
  Thread, Runq, rq_nqs, is_empty, remove, enqueue, runq_init, runq_setbit, runq_clrbit, add_at,
  runq_add, runq_add_pri, runq_remove_idx,
}
use coding_projects.Runq.Header.{Header}
use coding_projects.Runq.Bits.{
  status_bit, IsStatus, setbit_lem, clrbit_lem, setbit-IsStatus, clrbit-IsStatus,
}
use coding_projects.Runq.Add.{enqueue-All, enqueue_not_empty, remove-All, not_empty_of_remove}

-- The mark that a queue should have.
abbrev pub mark : List Thread → ℕ
mark queue = if is_empty queue then 0 else 1

-- Every status bit says whether its queue holds a thread, and each thread knows its queue.
pub record IsValid (h : Header) (rq : Runq) : Type 0 where
  pub status : IsStatus h rq.rqb_bits
  pub queues : length rq.rq_queues ≡ rq_nqs h
  pub marks : (q : ℕ) → status_bit h rq.rqb_bits q ≡ mark (get_or rq.rq_queues q [])
  pub indexed : (q : ℕ) → All (λ (t : Thread). t.td_rqindex ≡ q) (get_or rq.rq_queues q [])

-- The queues after one of them has been replaced.
queue_after :
    (queues : List (List Thread)) (pri q : ℕ) (queue : List Thread)
    → pri < length queues
    → get_or (set queues pri queue) q [] ≡ (if q == pri then queue else get_or queues q [])
queue_after queues pri q queue inside = elim (ℕ_discrete q pri) [
  | yes e ↦ rw (e, ==_refl pri) (get_or-set_self queues pri queue [] inside)
  | no ne ↦ rw (==_of_ne q pri ne) (get_or-set_ne queues pri q queue [] (λ e. ne (sym e)))
]

module _ (h : Header) where
  zeros-IsStatus : IsStatus h (replicate h.rqb_len 0)
  zeros-IsStatus = record {
    words = length-replicate {A = ℕ} h.rqb_len 0;
    fits = λ i. rw (get_or-replicate {A = ℕ} h.rqb_len i 0) (one-le-pow h.rqb_bpw 2 (omega arith));
  }

  status_bit_zeros : (q : ℕ) → status_bit h (replicate h.rqb_len 0) q ≡ 0
  unfolding status_bit
  status_bit_zeros q =
      rw (get_or-replicate {A = ℕ} h.rqb_len (q / h.rqb_bpw) 0) (test_bit_zero (q % h.rqb_bpw))

  -- `runq_init` gives a valid run queue.
  pub init-IsValid : IsValid h (runq_init h)
  unfolding runq_init is_empty
  init-IsValid = record {
    status = zeros-IsStatus;
    queues = length-replicate {A = List Thread} (rq_nqs h) [];
    marks = λ q.
        status_bit_zeros q ∙ sym (ap mark (get_or-replicate {A = List Thread} (rq_nqs h) q []));
    indexed = λ q. rw (get_or-replicate {A = List Thread} (rq_nqs h) q []) tt;
  }

  -- A run queue in which one queue and its bit have been replaced together.
  replaced :
      (rq rq' : Runq) (pri : ℕ) (queue : List Thread)
      → IsValid h rq
      → pri < rq_nqs h
      → IsStatus h rq'.rqb_bits
      → rq'.rq_queues ≡ set rq.rq_queues pri queue
      → ((q : ℕ)
          → status_bit h rq'.rqb_bits q
            ≡ (if q == pri then mark queue else status_bit h rq.rqb_bits q))
      → All (λ (t : Thread). t.td_rqindex ≡ pri) queue
      → IsValid h rq'
  replaced rq rq' pri queue v inside ok same bits all = record {
    status = ok;
    queues = ap length same ∙ length-set rq.rq_queues pri queue ∙ v.queues;
    marks = λ q. bits q ∙ elim (Bool-cases (q == pri)) [
      | inl e ↦ rw (after q, e) refl
      | inr ne ↦ rw (after q, ne) (v.marks q)
    ];
    indexed = λ q. elim (Bool-cases (q == pri)) [
      | inl e ↦
          let at : q ≡ pri = (==_iff q pri).0 e in
          rw (after q, e)
            (subst (λ (n : ℕ). All (λ (t : Thread). t.td_rqindex ≡ n) queue) (sym at) all)
      | inr ne ↦ rw (after q, ne) (v.indexed q)
    ];
  }
    where
      after :
          (q : ℕ)
          → get_or rq'.rq_queues q [] ≡ (if q == pri then queue else get_or rq.rq_queues q [])
      after q =
          ap (λ (t : List (List Thread)). get_or t q []) same
          ∙ queue_after rq.rq_queues pri q queue (rw v.queues inside)

  add_at-IsValid :
      (rq : Runq) (td : Thread) (pri : ℕ) (preempted : Bool)
      → IsValid h rq
      → pri < rq_nqs h
      → IsValid h (add_at h rq td pri preempted)
  unfolding add_at runq_setbit
  add_at-IsValid rq td pri preempted v inside =
      let td' = record td { td_rqindex = pri } in
      let old = get_or rq.rq_queues pri [] in
      replaced rq _ pri (enqueue preempted td' pri old) v inside (setbit-IsStatus h rq pri v.status)
        refl
        (λ q.
          setbit_lem h rq pri q v.status inside
          ∙ ap (λ (n : ℕ). if q == pri then n else status_bit h rq.rqb_bits q)
              (sym
                (ap (λ (b : Bool). if b then 0 else 1) (enqueue_not_empty preempted td' pri old))))
        (enqueue-All (λ t. t.td_rqindex ≡ pri) preempted td' pri old refl (v.indexed pri))

  -- `runq_add` keeps a run queue valid, for a thread whose priority has a queue.
  pub add-IsValid :
      (rq : Runq) (td : Thread) (preempted : Bool)
      → IsValid h rq
      → td.td_priority / h.rq_ppq < rq_nqs h
      → IsValid h (runq_add h rq td preempted)
  unfolding runq_add
  add-IsValid rq td preempted v inside =
      add_at-IsValid rq td (td.td_priority / h.rq_ppq) preempted v inside

  -- `runq_add_pri` keeps a run queue valid, for a queue that there is.
  pub add_pri-IsValid :
      (rq : Runq) (td : Thread) (pri : ℕ) (preempted : Bool)
      → IsValid h rq
      → pri < rq_nqs h
      → IsValid h (runq_add_pri h rq td pri preempted)
  unfolding runq_add_pri
  add_pri-IsValid rq td pri preempted v inside = add_at-IsValid rq td pri preempted v inside

  -- `runq_remove_idx` keeps a run queue valid, for a thread with the index of a queue: the status bit
  -- is cleared exactly when the last thread of its queue goes.
  pub remove_idx-IsValid :
      (rq : Runq) (td : Thread) (idx : Option ℕ)
      → IsValid h rq
      → td.td_rqindex < rq_nqs h
      → IsValid h (runq_remove_idx h rq td idx).0
  unfolding runq_remove_idx
  remove_idx-IsValid rq td idx v inside = elim (Bool-cases (is_empty left)) [
    | inl e ↦ rw e (
        replaced rq _ pri left v inside (clrbit-IsStatus h rq' pri v.status) (kept e)
          (λ q.
            clrbit_lem h rq' pri q v.status inside
            ∙ ap (λ (n : ℕ). if q == pri then n else status_bit h rq.rqb_bits q)
                (sym (ap (λ (b : Bool). if b then 0 else 1) e)))
          all)
    | inr ne ↦ rw ne (replaced rq rq' pri left v inside v.status refl (λ q. same_bits ne q) all)
  ]
    where
      pri : ℕ
      pri = td.td_rqindex

      left : List Thread
      left = remove td.id (get_or rq.rq_queues pri [])

      rq' : Runq
      rq' = record rq { rq_queues = set rq.rq_queues pri left }

      kept : is_empty left ≡ true → (runq_clrbit h rq' pri).rq_queues ≡ set rq.rq_queues pri left
      kept e = unfold runq_clrbit in refl

      all : All (λ (t : Thread). t.td_rqindex ≡ pri) left
      all = remove-All (λ t. t.td_rqindex ≡ pri) td.id (get_or rq.rq_queues pri []) (v.indexed pri)

      same_bits :
          is_empty left ≡ false
          → (q : ℕ)
          → status_bit h rq.rqb_bits q
            ≡ (if q == pri then mark left else status_bit h rq.rqb_bits q)
      same_bits ne q = elim (Bool-cases (q == pri)) [
        | inl e ↦ rw e (
            ap (status_bit h rq.rqb_bits) ((==_iff q pri).0 e)
            ∙ v.marks pri
            ∙ ap (λ (b : Bool). if b then 0 else 1)
                (not_empty_of_remove td.id (get_or rq.rq_queues pri []) ne ∙ sym ne))
        | inr other ↦ rw other refl
      ]
