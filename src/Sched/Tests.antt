-- ===== src/Sched/Tests.antt =====
-- Runs of the interactivity score and of its theorems.
use coding_projects.Prelude.{◌+◌, ◌≤◌, arith}
use coding_projects.Sched.{
  TdSched, sched_interact_max, sched_slp_run_max, sched_interact_score, sched_interact_update,
}
use coding_projects.Sched.Interact.{interact_score_bound, interact_update_bound}

abbrev busy : TdSched
busy = record { ts_slptime = 98; ts_runtime = 99 }

interact_score_bound_example : sched_interact_score 60 busy ≤ sched_interact_max
interact_score_bound_example = interact_score_bound 60 busy

abbrev rested : TdSched
rested = record { ts_slptime = 20000000; ts_runtime = 12 }

interact_update_bound_example :
    ((sched_interact_update 1000 rested).ts_runtime + (sched_interact_update 1000 rested).ts_slptime
      ≤ sched_slp_run_max 1000 + 1)
    × ((sched_interact_update 1000 rested).ts_runtime
          + (sched_interact_update 1000 rested).ts_slptime
        ≤ rested.ts_runtime + rested.ts_slptime)
interact_update_bound_example = interact_update_bound 1000 rested (omega arith) (omega arith)
