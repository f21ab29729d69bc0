-- ===== src/Runq/Sorted.antt =====
-- The order of a queue after `runq_add`, and where it differs from first in, first out.
use coding_projects.Prelude.{
  ℕ, ◌/◌, ◌<◌, Bool, true, false, List, [], ◌≡◌, ◌≢◌, refl, sym, arith, get_or, get_or-set_self,
  get_or-set_ne,
}
use coding_projects.Runq.{Thread, Runq, rq_nqs, user_level, enqueue, add_at, runq_add}
use coding_projects.Runq.Header.{Header}
use coding_projects.Runq.Fifo
use coding_projects.Runq.Valid.{IsValid}
use coding_projects.Runq.Add.{IsSorted, Placed, insert_sorted-Placed, by_priority-insert_sorted}

module _ (h : Header) (rq : Runq) (td : Thread) (preempted : Bool) where
  -- The queue that `runq_add` chooses.
  abbrev pub index : ℕ
  index = td.td_priority / h.rq_ppq

  abbrev pub queue_of : Runq → ℕ → List Thread
  queue_of r q = get_or r.rq_queues q []

  -- On a valid run queue, for a thread whose priority has a queue that the code counts as one of user
  -- level threads and that is in order of priority: `runq_add` puts the thread, with its index set,
  -- behind all of at most its priority number and before all of a greater one, the queue stays in
  -- order, and no other queue changes.
  pub add-Placed :
      IsValid h rq
      → index < rq_nqs h
      → user_level index ≡ true
      → IsSorted (queue_of rq index)
      → Placed
          (record td { td_rqindex = index })
          (queue_of rq index)
          (queue_of (runq_add h rq td preempted) index)
        × ((q : ℕ) → q ≢ index → queue_of (runq_add h rq td preempted) q ≡ queue_of rq q)
  unfolding runq_add add_at enqueue
  add-Placed v inside user sorted =
      let td' = record td { td_rqindex = index } in
      let old = queue_of rq index in
      (
        rw
            (
              get_or-set_self rq.rq_queues index (enqueue preempted td' index old) []
                  (rw v.queues inside),
              user,
              by_priority-insert_sorted td' old,
            )
            (insert_sorted-Placed td' old sorted),
        λ q ne. get_or-set_ne rq.rq_queues index q _ [] (λ e. ne (sym e)),
      )

  -- With four priorities to a queue, as in sys/runq.h, `runq_add` of kern_switch_pq.c treats each
  -- thread of priority below 192 as `runq_add` of kern_switch_FIFO.c does: it is not put in order.
  pub add_below_192-fifo :
      h.rq_ppq ≡ 4
      → td.td_priority < 192
      → runq_add h rq td preempted ≡ Fifo.runq_add h rq td preempted
  unfolding runq_add add_at enqueue Fifo.runq_add user_level
  add_below_192-fifo four low =
      let kernel : user_level index ≡ false = rw four (ground arith) in rw kernel refl
