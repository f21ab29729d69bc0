-- ===== src/Sched.antt =====
-- The interactivity score of ThreadScheduler/sched_ule_pri.c: what a thread has run and slept, in scaled
-- ticks. The arithmetic is that of unsigned integers of 32 bits.
pub mod Interact
mod Tests
use coding_projects.Prelude.{
  ℕ, ◌+◌, ◌-◌, ◌*◌, ◌/◌, ◌%◌, ◌^◌, max, Bool, ◌&&◌, ltb, leb, ◌==◌, if◌then◌else◌,
}

-- The two fields of `td_sched` that the score is made of.
pub record TdSched : Type 0 where
  pub ts_slptime : ℕ
  pub ts_runtime : ℕ

abbrev pub sched_interact_max : ℕ
sched_interact_max = 100

abbrev pub sched_interact_half : ℕ
sched_interact_half = sched_interact_max / 2

-- `hz * 5` ticks with ten bits of fraction; the product is an int, which holds it for `hz` up to 419430.
abbrev pub sched_slp_run_max : ℕ → ℕ
sched_slp_run_max hz = hz * 5 * 2 ^ 10

abbrev pub sched_slp_run_fork : ℕ → ℕ
sched_slp_run_fork hz = hz / 2 * 2 ^ 10

-- The first argument is the variable `sched_interact`.
pub sched_interact_score : ℕ → TdSched → ℕ
sched_interact_score sched_interact ts =
    let half = sched_interact_half in
    let run_div = max 1 (ts.ts_runtime / half) in
    let slp_div = max 1 (ts.ts_slptime / half) in
    if leb sched_interact half && leb ts.ts_slptime ts.ts_runtime
    then half
    else (if ltb ts.ts_slptime ts.ts_runtime
        then (half + (half + 2 ^ 32 - ts.ts_slptime / run_div)) % 2 ^ 32
        else (if ltb ts.ts_runtime ts.ts_slptime
            then ts.ts_runtime / slp_div
            else (if ts.ts_runtime == 0 then 0 else half)))

pub sched_interact_update : ℕ → TdSched → TdSched
sched_interact_update hz ts =
    let run_max = sched_slp_run_max hz in
    let sum = (ts.ts_runtime + ts.ts_slptime) % 2 ^ 32 in
    if ltb sum run_max
    then ts
    else (if ltb (run_max * 2) sum
        then (if ltb ts.ts_slptime ts.ts_runtime
            then record { ts_runtime = run_max; ts_slptime = 1 }
            else record { ts_slptime = run_max; ts_runtime = 1 })
        else (if ltb (run_max / 5 * 6) sum
            then record { ts_runtime = ts.ts_runtime / 2; ts_slptime = ts.ts_slptime / 2 }
            else record { ts_runtime = ts.ts_runtime / 5 * 4; ts_slptime = ts.ts_slptime / 5 * 4 }))

-- `sum` is a signed integer.
pub sched_interact_fork : ℕ → TdSched → TdSched
sched_interact_fork hz ts =
    let run_fork = sched_slp_run_fork hz in
    let sum = (ts.ts_runtime + ts.ts_slptime) % 2 ^ 32 in
    let ratio = sum / run_fork in
    if ltb run_fork sum && ltb sum (2 ^ 31)
    then record { ts_runtime = ts.ts_runtime / ratio; ts_slptime = ts.ts_slptime / ratio }
    else ts
