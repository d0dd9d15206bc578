-- ===== src/Scheduler/Reach.antt =====
-- Every state that scheduler/scheduler.c can reach, as a relation.
use entropy_os.Prelude.{ℕ, ◌≤◌, List, arith}
use entropy_os.Scheduler.Table.{Seconds, Sched, init, max_tasks}
use entropy_os.Scheduler.Run.{Call, step, run_all, run_once}
use entropy_os.Scheduler.Invariant.{IsValid, init-IsValid, occupied-le}
use entropy_os.Scheduler.Running.{step-IsValid, run_all-IsValid, run_once-IsValid}

module _ (c : Seconds) (body : ℕ → ℕ → c.Time → Sched c → List (Call c)) where
  -- The states after `scheduler_init` and any calls from outside and from the tasks that run.
  pub data Reach : Sched c → Type 0 where
    start : (s : Sched c) → Reach (init c s)
    calls : {s : Sched c} → Reach s → (k : Call c) → Reach (step c k s)
    frames : {s : Sched c} → Reach s → (dt : c.Time) → Reach (run_all c body dt s)
    turns : {s : Sched c} → Reach s → (dt : c.Time) → Reach (run_once c body dt s)

  Reach-IsValid' : {s : Sched c} → Reach s → IsValid c s
  Reach-IsValid' (start s) = init-IsValid c s
  Reach-IsValid' (calls r k) = step-IsValid c k _ (Reach-IsValid' r)
  Reach-IsValid' (frames r dt) = run_all-IsValid c body dt _ (Reach-IsValid' r)
  Reach-IsValid' (turns r dt) = run_once-IsValid c body dt _ (Reach-IsValid' r)

  -- In every state reached from `scheduler_init` by calls of the API, `scheduler_run_all` and
  -- `scheduler_run_once`, with tasks that make any calls of the API while they run: the table has
  -- 16 slots, the counter is the number of the slots in use and at most 16, the cursor is below 16,
  -- an empty slot has no function and every other has one, and only a sleeping task has time left.
  pub Reach-IsValid : {s : Sched c} → Reach s → IsValid c s × (s.task_count ≤ max_tasks)
  Reach-IsValid r =
      let v = Reach-IsValid' r in (v, omega (arith, occupied-le c _, v.counted, v.size))
