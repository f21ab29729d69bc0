-- ===== src/Runq/Fifo.antt =====
-- `runq_add` and `runq_add_pri` of ThreadScheduler/kern_switch_FIFO.c: the thread goes to the head of
-- its queue if it was preempted, else to the tail.
use coding_projects.Prelude.{ℕ, ◌/◌, Bool, [], get_or, set}
use coding_projects.Runq.{Thread, Runq, insert_fifo, runq_setbit}
use coding_projects.Runq.Header.{Header}

module _ (h : Header) where
  pub add_at : Runq → Thread → ℕ → Bool → Runq
  add_at rq td pri preempted =
      let td' = record td { td_rqindex = pri } in
      let marked = runq_setbit h rq pri in
      record marked {
        rq_queues = set rq.rq_queues pri (insert_fifo preempted td' (get_or rq.rq_queues pri []));
      }

  unfoldable pub runq_add : Runq → Thread → Bool → Runq
  unfolding add_at
  runq_add rq td preempted = add_at rq td (td.td_priority / h.rq_ppq) preempted

  unfoldable pub runq_add_pri : Runq → Thread → ℕ → Bool → Runq
  unfolding add_at
  runq_add_pri rq td pri preempted = add_at rq td pri preempted
