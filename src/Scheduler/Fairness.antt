-- ===== src/Scheduler/Fairness.antt =====
-- The round robin of `scheduler_run_once` in scheduler/scheduler.c.
use entropy_os.Prelude.{
  ℕ, zero, suc, ◌+◌, ◌-◌, ◌%◌, ◌<◌, ◌≤◌, ◌≡◌, refl, ap, ◌∙◌, Bool, true, false, Option, none, some,
  List, [], ◌∷◌, map, arith, length, get_or, set, inl, inr, ◌⊎◌, Bool-cases, get_or-set_self,
  get_or-set_ne, Option-cases, ℕ_discrete,
}
use entropy_os.Scheduler.Table.{
  Seconds, is_some, Task, Sched, max_tasks, empty_task, slot, tick_task, tick_sleep_timers,
}
use entropy_os.Scheduler.Run.{
  Call, run_calls, count_run, call_fn, run_task, is_runnable, find_ready, run_found, run_once,
  run_loop,
}
use entropy_os.Scheduler.Invariant.{IsValid}
use entropy_os.Scheduler.Running.{run_once-IsValid, tick_sleep_timers-IsValid}

module _ (c : Seconds) (body : ℕ → ℕ → c.Time → Sched c → List (Call c)) where
  open c use {Time, zero_time}

  abbrev runnable : Sched c → ℕ → Bool
  runnable s i = is_runnable c body (slot c s i)

  -- how far a slot is ahead of the cursor
  abbrev ahead : Sched c → ℕ → ℕ
  ahead s j = (j + max_tasks - s.next_index) % max_tasks

  -- The scan finds a runnable slot that is no further ahead than any runnable slot.
  find_ready-least :
      (n i k : ℕ) (s : Sched c)
      → i ≤ k
      → k < i + n
      → runnable s ((s.next_index + k) % max_tasks) ≡ true
      → (m : ℕ) × (i ≤ m)
        × (m ≤ k)
        × (find_ready c body n i s ≡ some ((s.next_index + m) % max_tasks))
        × (runnable s ((s.next_index + m) % max_tasks) ≡ true)
  unfolding find_ready
  find_ready-least zero i k s lo hi r = absurd (omega arith)
  find_ready-least (suc n) i k s lo hi r =
      elim (Bool-cases (runnable s ((s.next_index + i) % max_tasks))) [
        | inl e ↦ (i, omega arith, lo, rw e, e)
        | inr e ↦
            let (m, lo', hi', f, r') = find_ready-least n (i + 1) k s (next_le e) (omega arith) r in
            (m, omega arith, hi', rw e f, r')
      ]
    where
      next_le : runnable s ((s.next_index + i) % max_tasks) ≡ false → i + 1 ≤ k
      next_le e = elim (ℕ_discrete i k) [ yes p ↦ absurd (clash (rw p at e)) | no p ↦ omega arith ]
        where
          clash : runnable s ((s.next_index + k) % max_tasks) ≡ false → ⊥
          clash e = cc

  get_or-map :
      (ts : List (Task c)) (dt : Time) (i : ℕ)
      → i < length ts
      → get_or (map (tick_task c dt) ts) i (empty_task c)
        ≡ tick_task c dt (get_or ts i (empty_task c))
  get_or-map [] dt i h = absurd (omega arith)
  get_or-map (t ∷ ts) dt zero h = refl
  get_or-map (t ∷ ts) dt (suc i) h = get_or-map ts dt i (omega arith)

  -- A runnable task stays so when the timers tick.
  tick_runnable :
      (dt : Time) (t : Task c)
      → is_runnable c body t ≡ true
      → is_runnable c body (tick_task c dt t) ≡ true
  unfolding tick_task
  tick_runnable dt t h = ground arith

  -- A list of tasks after a record has been replaced by one in the same condition.
  set-runnable :
      (s : Sched c) (i j : ℕ) (t : Task c)
      → i < length s.tasks
      → is_runnable c body t ≡ runnable s i
      → is_runnable c body (get_or (set s.tasks i t) j (empty_task c)) ≡ runnable s j
  set-runnable s i j t h e = elim (ℕ_discrete i j) [
    | yes p ↦ rw (← p, get_or-set_self s.tasks i t (empty_task c) h) e
    | no p ↦ rw (get_or-set_ne s.tasks i j t (empty_task c) p)
  ]

  some_fn : (t : Task c) → is_runnable c body t ≡ true → (f : ℕ) × (t.fn ≡ some f)
  some_fn t h = elim (Option-cases t.fn) [ inl e ↦ absurd (ground arith) | inr p ↦ p ]

  -- Tasks that make no call of the scheduler.
  abbrev pub IsPassive : Type 0
  IsPassive = (f a : ℕ) (dt : Time) (s : Sched c) → body f a dt s ≡ []

  module _ (passive : IsPassive) where
    call_fn_passive :
        (f : Option ℕ) (i : ℕ) (dt : Time) (s : Sched c)
        → is_some f ≡ true
        → call_fn c body f i dt s ≡ record s { ran = i ∷ s.ran }
    unfolding call_fn run_calls
    call_fn_passive none i dt s h = cc
    call_fn_passive (some f) i dt s h = rw (passive f (slot c s i).arg dt s, run_calls)

    run_task_passive :
        (i : ℕ) (dt : Time) (s : Sched c)
        → runnable s i ≡ true
        → run_task c body i dt s ≡ count_run c body i dt (record s { ran = i ∷ s.ran })
    unfolding run_task
    run_task_passive i dt s h = rw (call_fn_passive (slot c s i).fn i dt s (has_fn (slot c s i) h))
      where
        has_fn : (t : Task c) → is_runnable c body t ≡ true → is_some t.fn ≡ true
        has_fn t h = ground arith

    -- The slot `m` places ahead runs; another runnable slot further ahead is then nearer.
    found_turn :
        (t : Sched c) (j m k : ℕ) (dt : Time)
        → IsValid c t
        → j < max_tasks
        → runnable t j ≡ true
        → m ≤ k
        → k ≡ ahead t j
        → runnable t ((t.next_index + m) % max_tasks) ≡ true
        → let s' = run_found c body (some ((t.next_index + m) % max_tasks)) dt t in
          (s'.ran ≡ j ∷ t.ran) ⊎ ((runnable s' j ≡ true) × (ahead s' j < k))
    unfolding run_found count_run
    found_turn t j m k dt v h r lo e rm =
        rw (run_task_passive ((t.next_index + m) % max_tasks) dt t rm) (elim (ℕ_discrete m k) [
          | yes p ↦ inl (ap (λ i. i ∷ t.ran) (omega (arith, v.cursor)))
          | no p ↦ inr (
            set-runnable t ((t.next_index + m) % max_tasks) j _ (omega (arith, v.size)) refl ∙ r,
            omega (arith, v.cursor),
          )
        ])

    -- One turn with a runnable slot in the table: either that slot ran, or it is still runnable and
    -- nearer to the cursor.
    turn :
        (s : Sched c) (j : ℕ) (dt : Time)
        → IsValid c s
        → j < max_tasks
        → runnable s j ≡ true
        → let s' = run_once c body dt s in
          (s'.ran ≡ j ∷ s.ran) ⊎ ((runnable s' j ≡ true) × (ahead s' j < ahead s j))
    unfolding run_once tick_sleep_timers
    turn s j dt v h r =
        let (m, lo, hi, f, rm) =
          find_ready-least max_tasks 0 (ahead s j) t (omega arith) (omega arith) (rw back r') in
        rw f (found_turn t j m (ahead s j) dt w h r' hi refl rm)
      where
        t : Sched c
        t = tick_sleep_timers c dt s

        w : IsValid c t
        w = tick_sleep_timers-IsValid c dt s v

        r' : runnable t j ≡ true
        r' = rw (get_or-map s.tasks dt j (omega (arith, v.size))) (tick_runnable dt (slot c s j) r)

        back : (s.next_index + ahead s j) % max_tasks ≡ j
        back = omega (arith, v.cursor)

    served_within :
        (d : ℕ) (s : Sched c) (j : ℕ)
        → IsValid c s
        → j < max_tasks
        → runnable s j ≡ true
        → ahead s j ≤ d
        → (n : ℕ) × (n ≤ d) × ((run_loop c body (suc n) s).ran ≡ j ∷ (run_loop c body n s).ran)
    unfolding run_loop
    served_within zero s j v h r e = elim (turn s j zero_time v h r) [
      | inl p ↦ (0, omega arith, p)
      | inr p ↦ absurd (omega (arith, p.1))
    ]
    served_within (suc d) s j v h r e = elim (turn s j zero_time v h r) [
      | inl p ↦ (0, omega arith, p)
      | inr p ↦
          let (n, lt, q) =
            served_within d (run_once c body zero_time s) j (run_once-IsValid c body zero_time s v)
              h p.0 (omega (arith, p.1)) in
          (suc n, omega arith, q)
    ]

    -- `scheduler_run_loop` starves nobody: from a valid table, with tasks that make no call of the
    -- scheduler, a task that is ready runs in one of the first 16 turns.
    pub run_loop_fair :
        (s : Sched c) (j : ℕ)
        → IsValid c s
        → j < max_tasks
        → runnable s j ≡ true
        → (n : ℕ) × (n < 16) × ((run_loop c body (suc n) s).ran ≡ j ∷ (run_loop c body n s).ran)
    run_loop_fair s j v h r =
        let (n, lt, q) = served_within 15 s j v h r (omega arith) in (n, omega arith, q)
