-- ===== src/Scheduler/Tests.antt =====
-- Runs of the scheduler's model, and its theorems at concrete tables.
use entropy_os.Prelude.{
  ℕ, suc, ◌+◌, ◌-◌, ◌<◌, ◌≤◌, ◌≡◌, refl, pos, negsuc, some, none, List, [], ◌∷◌, leb, arith,
}
use entropy_os.Scheduler.Table.{
  Seconds, Sched, init, add_task, add_fn, find_same, find_free, register, max_tasks, sched_strncpy,
  tick_sleep_timers, tick_task, set_priority, high,
}
use entropy_os.Scheduler.Run.{
  Call, adds, step, run_all, run_bands, run_band, run_task, call_fn, count_run, run_calls, run_loop,
}
use entropy_os.Scheduler.Invariant.{IsValid, init-IsValid, add_task-IsValid}
use entropy_os.Scheduler.Reach.{start, calls, Reach-IsValid}
use entropy_os.Scheduler.Add.{Outcome, add_task-Outcome, add_task-add_task}
use entropy_os.Scheduler.Fairness.{run_loop_fair}

abbrev millis : Seconds
millis = record { Time = ℕ; zero_time = 0; add = ◌+◌; sub = ◌-◌; le = leb }

abbrev idle : ℕ → ℕ → ℕ → Sched millis → List (Call millis)
idle f a dt s = []

abbrev blank : Sched millis
blank = init millis (record { tasks = []; task_count = 0; next_index = 0; ran = [] })

abbrev one_task : Sched millis
one_task = (add_task millis blank (some 7) 1).1

abbrev two_tasks : Sched millis
two_tasks = set_priority millis (pos 1) high (add_task millis one_task (some 8) 1).1

blank-IsValid : IsValid millis blank
blank-IsValid = init-IsValid millis _

one_task-IsValid : IsValid millis one_task
one_task-IsValid = add_task-IsValid millis blank (some 7) 1 blank-IsValid

-- The task of high priority runs first, though it is second in the table; the list is latest first.
run_all_order : (run_all millis idle 5 two_tasks).ran ≡ 0 ∷ 1 ∷ []
unfolding run_all run_bands run_band run_task call_fn count_run run_calls tick_sleep_timers
    tick_task set_priority add_task add_fn register find_same find_free init sched_strncpy
run_all_order = refl

add_null : (add_task millis blank none 3).0 ≡ negsuc 0
unfolding add_task
add_null = refl

Reach-IsValid_example :
    IsValid millis (step millis (adds (some 7) 1) blank)
    × ((step millis (adds (some 7) 1) blank).task_count ≤ max_tasks)
Reach-IsValid_example = Reach-IsValid millis idle (calls (start _) (adds (some 7) 1))

add_task-Outcome_example : Outcome millis one_task 9 2 (add_task millis one_task (some 9) 2)
add_task-Outcome_example = add_task-Outcome millis one_task 9 2 one_task-IsValid

one_task_id : (add_task millis blank (some 7) 1).0 ≡ pos 0
unfolding add_task add_fn find_same find_free init
one_task_id = refl

add_task-add_task_example : add_task millis one_task (some 7) 1 ≡ (pos 0, one_task)
add_task-add_task_example = add_task-add_task millis blank 7 1 blank-IsValid one_task_id

run_loop_fair_example :
    (n : ℕ) × (n < 16)
    × ((run_loop millis idle (suc n) one_task).ran ≡ 0 ∷ (run_loop millis idle n one_task).ran)
unfolding add_task add_fn register find_same find_free init
run_loop_fair_example =
    run_loop_fair millis idle (λ f a dt s. refl) one_task 0 one_task-IsValid (omega arith) refl
