-- ===== src/Sched/Interact.antt =====
-- The bounds of the interactivity score and of the history that it is made of.
use native.Mathlib.Nat.{
  div-lt_iff_lt-mul, le-div_iff_mul-le, lt-div-mul-add, div-mul-le_self, add-mul, mul_comm,
  mul_assoc, mul-le-mul_right,
}
use coding_projects.Prelude.{
  ℕ, ◌+◌, ◌*◌, ◌/◌, ◌%◌, ◌^◌, ◌≤◌, ◌<◌, max, ◌&&◌, ltb, leb, ◌≡◌, arith, inl, inr, Bool-cases,
}
use coding_projects.Sched.{
  TdSched, sched_interact_max, sched_slp_run_max, sched_interact_score, sched_interact_update,
  sched_slp_run_fork, sched_interact_fork,
}

-- The shorter time, divided by a fiftieth of the longer one.
shorter_scaled : (short long : ℕ) → short < long → short / max 1 (long / 50) < 100
shorter_scaled short long less =
    (div-lt_iff_lt-mul {k = max 1 (long / 50)} {x = short} {y = 100} (omega arith)).1 (omega arith)

-- The score of a thread is at most `SCHED_INTERACT_MAX`, whatever the times are, and also where the
-- sleep time is subtracted in unsigned arithmetic.
pub interact_score_bound :
    (sched_interact : ℕ) (ts : TdSched)
    → sched_interact_score sched_interact ts ≤ sched_interact_max
unfolding sched_interact_score
interact_score_bound sched_interact ts =
    elim (Bool-cases (leb sched_interact 50 && leb ts.ts_slptime ts.ts_runtime)) [
      | inl quick ↦ rw quick (omega arith)
      | inr slow ↦ elim (Bool-cases (ltb ts.ts_slptime ts.ts_runtime)) [
        | inl ran ↦
            rw (slow, ran)
              (omega (arith, shorter_scaled ts.ts_slptime ts.ts_runtime (ground arith)))
        | inr not_ran ↦ elim (Bool-cases (ltb ts.ts_runtime ts.ts_slptime)) [
          | inl slept ↦
              rw (slow, not_ran, slept)
                (omega (arith, shorter_scaled ts.ts_runtime ts.ts_slptime (ground arith)))
          | inr same ↦ rw (slow, not_ran, same) (ground arith)
        ]
      ]
    ]

-- After `sched_interact_update` the times of a thread, whose sum has not wrapped around, come to at most
-- one tick more than `SCHED_SLP_RUN_MAX`, and to no more than before.
pub interact_update_bound :
    (hz : ℕ) (ts : TdSched)
    → 1 ≤ hz
    → ts.ts_runtime + ts.ts_slptime < 2 ^ 32
    → ((sched_interact_update hz ts).ts_runtime + (sched_interact_update hz ts).ts_slptime
        ≤ sched_slp_run_max hz + 1)
      × ((sched_interact_update hz ts).ts_runtime + (sched_interact_update hz ts).ts_slptime
          ≤ ts.ts_runtime + ts.ts_slptime)
unfolding sched_interact_update
interact_update_bound hz ts some_hz word = ground arith

-- Two numbers divided by the quotient of their sum.
scaled_back : (a b f : ℕ) → 1 ≤ f → f < a + b → a / ((a + b) / f) + b / ((a + b) / f) < 2 * f
scaled_back a b f positive more =
    let k = (a + b) / f in
    let some_k : 1 ≤ k = (le-div_iff_mul-le {k = f} {x = 1} {y = a + b} positive).1 (omega arith) in
    let parts : (a / k + b / k) * k ≤ a + b =
      omega (arith, add-mul (a / k) (b / k) k, div-mul-le_self a k, div-mul-le_self b k) in
    let low : a / k + b / k ≤ (a + b) / k =
      (le-div_iff_mul-le {k = k} {x = a / k + b / k} {y = a + b} some_k).1 parts in
    let less : a + b < k * f + f = lt-div-mul-add {a = a + b} {b = f} positive in
    let once : 1 * f ≤ k * f = mul-le-mul_right f some_k in
    let twice : 2 * f * k ≡ k * f + k * f = omega (arith, mul_assoc 2 f k, mul_comm f k) in
    let high : (a + b) / k < 2 * f =
      (div-lt_iff_lt-mul {k = k} {x = a + b} {y = 2 * f} some_k).1
        (omega (arith, less, once, twice)) in
    omega (arith, low, high)

-- After `sched_interact_fork` the times of a thread, whose sum is a signed integer, come to less than
-- twice `SCHED_SLP_RUN_FORK` or are as they were, no more than that.
pub interact_fork_bound :
    (hz : ℕ) (ts : TdSched)
    → 2 ≤ hz
    → ts.ts_runtime + ts.ts_slptime < 2 ^ 31
    → (sched_interact_fork hz ts).ts_runtime + (sched_interact_fork hz ts).ts_slptime
      < 2 * sched_slp_run_fork hz
unfolding sched_interact_fork
interact_fork_bound hz ts some_hz word =
    let a = ts.ts_runtime in
    let b = ts.ts_slptime in
    let f = sched_slp_run_fork hz in
    let whole : (a + b) % 2 ^ 32 ≡ a + b = omega arith in
    elim (Bool-cases (ltb f (a + b) && ltb (a + b) (2 ^ 31))) [
      | inl long ↦ rw (whole, long) (scaled_back a b f (omega arith) (ground arith))
      | inr short ↦ rw (whole, short) (ground arith)
    ]
