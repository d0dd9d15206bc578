-- ===== src/Scheduler/Run.antt =====
-- scheduler/scheduler.c: the functions that run tasks. What a task does to the scheduler while it
-- runs is the list of the calls that it makes, which its function, argument and the state decide.
use entropy_os.Prelude.{
  ℕ, zero, suc, ◌+◌, ◌%◌, ◌^◌, ℤ, Bool, ◌&&◌, Option, none, some, List, [], ◌∷◌, ◌==◌,
  if◌then◌else◌,
}
use entropy_os.Scheduler.Table.{
  Seconds, Priority, low, normal, high, critical, prio_value, Task, Sched, is_ready, is_some,
  max_tasks, slot, put_slot, init, add_task, remove_task, set_priority, suspend, resume, sleep,
  remove_by_fn, tick_sleep_timers,
}

-- A call of the scheduler's API.
pub data Call (c : Seconds) : Type 0 where
  inits : Call c
  adds : Option ℕ → ℕ → Call c
  removes : ℤ → Call c
  sets_priority : ℤ → Priority → Call c
  suspends : ℤ → Call c
  resumes : ℤ → Call c
  sleeps : ℤ → c.Time → Call c
  removes_fn : Option ℕ → Call c

module _ (c : Seconds) where
  open c use {Time, add}

  unfoldable pub step : Call c → Sched c → Sched c
  step inits s = init c s
  step (adds f a) s = (add_task c s f a).1
  step (removes id) s = remove_task c id s
  step (sets_priority id p) s = set_priority c id p s
  step (suspends id) s = suspend c id s
  step (resumes id) s = resume c id s
  step (sleeps id t) s = sleep c id t s
  step (removes_fn f) s = remove_by_fn c f s

  unfoldable pub run_calls : List (Call c) → Sched c → Sched c
  run_calls [] s = s
  run_calls (k ∷ ks) s = run_calls ks (step k s)

module _ (c : Seconds) (body : ℕ → ℕ → c.Time → Sched c → List (Call c)) where
  open c use {Time, add}

  -- the two lines of `run_task` below the call
  unfoldable pub count_run : ℕ → Time → Sched c → Sched c
  count_run idx dt s = put_slot c s idx (record (slot c s idx) {
    run_count = ((slot c s idx).run_count + 1) % 2 ^ 64;
    total_time_s = add (slot c s idx).total_time_s dt;
  })

  unfoldable pub call_fn : Option ℕ → ℕ → Time → Sched c → Sched c
  call_fn none idx dt s = s
  call_fn (some f) idx dt s =
      run_calls c (body f (slot c s idx).arg dt s) (record s { ran = idx ∷ s.ran })

  -- `run_task`; its callers have tested that `fn` is not NULL.
  unfoldable pub run_task : ℕ → Time → Sched c → Sched c
  run_task idx dt s = count_run idx dt (call_fn (slot c s idx).fn idx dt s)

  abbrev pub is_runnable : Task c → Bool
  is_runnable t = is_ready t.state && is_some t.fn

  -- the inner loop of `scheduler_run_all`, with `n` rounds left; the cursor is read in each round.
  unfoldable pub run_band : ℕ → Priority → ℕ → Time → Sched c → Sched c
  run_band zero p i dt s = s
  run_band (suc n) p i dt s =
      let idx = (s.next_index + i) % max_tasks in
      run_band n p (i + 1) dt (
        if is_runnable (slot c s idx) && (prio_value (slot c s idx).prio == prio_value p)
        then run_task idx dt s
        else s)

  -- the outer loop
  unfoldable pub run_bands : Time → Sched c → Sched c
  run_bands dt s =
      let s3 = run_band max_tasks critical 0 dt s in
      let s2 = run_band max_tasks high 0 dt s3 in
      let s1 = run_band max_tasks normal 0 dt s2 in run_band max_tasks low 0 dt s1

  -- `scheduler_run_all`
  unfoldable pub run_all : Time → Sched c → Sched c
  run_all dt s =
      let s' = run_bands dt (tick_sleep_timers c dt s) in
      record s' { next_index = (s'.next_index + 1) % max_tasks }

  -- the scan of `scheduler_run_once`, which changes nothing, with `n` rounds left
  unfoldable pub find_ready : ℕ → ℕ → Sched c → Option ℕ
  find_ready zero i s = none
  find_ready (suc n) i s =
      let rest = find_ready n (i + 1) s in
      let idx = (s.next_index + i) % max_tasks in
      if is_runnable (slot c s idx) then some idx else rest

  unfoldable pub run_found : Option ℕ → Time → Sched c → Sched c
  run_found none dt s = s
  run_found (some idx) dt s = record (run_task idx dt s) { next_index = (idx + 1) % max_tasks }

  -- `scheduler_run_once`
  unfoldable pub run_once : Time → Sched c → Sched c
  run_once dt s = let s' = tick_sleep_timers c dt s in run_found (find_ready max_tasks 0 s') dt s'

  -- `n` rounds of `scheduler_run_loop`
  unfoldable pub run_loop : ℕ → Sched c → Sched c
  run_loop zero s = s
  run_loop (suc n) s = run_loop n (run_once c.zero_time s)
