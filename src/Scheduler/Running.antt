-- ===== src/Scheduler/Running.antt =====
-- The functions of scheduler/scheduler.c that run tasks keep the invariant, whatever calls the tasks make.
use entropy_os.Prelude.{
  ℕ, zero, suc, ◌+◌, ◌%◌, ◌<◌, ◌≡◌, refl, ◌∙◌, ◌≢◌, true, ◌&&◌, Option, none, some, List, [], ◌∷◌,
  map, arith, ◌==◌, length-map, if-elim, if-some, inl, inr,
}
use entropy_os.Scheduler.Table.{
  Seconds, Priority, critical, high, normal, low, prio_value, TaskState, empty, ready, sleeping,
  suspended, is_sleeping, Task, Sched, max_tasks, slot, tick_task, tick_sleep_timers,
}
use entropy_os.Scheduler.Run.{
  Call, inits, adds, removes, sets_priority, suspends, resumes, sleeps, removes_fn, step, run_calls,
  count_run, call_fn, run_task, is_runnable, run_band, run_bands, run_all, find_ready, run_found,
  run_once, run_loop,
}
use entropy_os.Scheduler.Invariant.{
  IsValid, IsSound, SoundAs, AllSound, occupied, weight, init-IsValid, add_task-IsValid,
  IsSound-get, IsValid-put_same,
}
use entropy_os.Scheduler.Slots.{
  remove_task-IsValid, set_priority-IsValid, suspend-IsValid, resume-IsValid, sleep-IsValid,
  remove_by_fn-IsValid,
}

module _ (c : Seconds) where
  open c use {Time, zero_time}

  -- Every call of the API keeps the invariant.
  pub step-IsValid : (k : Call c) (s : Sched c) → IsValid c s → IsValid c (step c k s)
  unfolding step
  step-IsValid inits s v = init-IsValid c s
  step-IsValid (adds f a) s v = add_task-IsValid c s f a v
  step-IsValid (removes id) s v = remove_task-IsValid c s id v
  step-IsValid (sets_priority id p) s v = set_priority-IsValid c s id p v
  step-IsValid (suspends id) s v = suspend-IsValid c s id v
  step-IsValid (resumes id) s v = resume-IsValid c s id v
  step-IsValid (sleeps id t) s v = sleep-IsValid c s id t v
  step-IsValid (removes_fn f) s v = remove_by_fn-IsValid c s f v

  pub run_calls-IsValid :
      (ks : List (Call c)) (s : Sched c) → IsValid c s → IsValid c (run_calls c ks s)
  unfolding run_calls
  run_calls-IsValid [] s v = v
  run_calls-IsValid (k ∷ ks) s v = run_calls-IsValid ks (step c k s) (step-IsValid k s v)

  tick_sound :
      (dt : Time) (st : TaskState) (f : Option ℕ) (left : Time)
      → SoundAs c st f left
      → is_sleeping st ≡ true
      → f ≢ none
  tick_sound dt sleeping f left h e = h
  tick_sound dt empty f left h e = cc
  tick_sound dt ready f left h e = cc
  tick_sound dt suspended f left h e = cc

  tick_sound_left :
      (dt : Time) (st : TaskState) (f : Option ℕ) (left : Time)
      → SoundAs c st f left
      → is_sleeping st ≡ true
      → SoundAs c st f (c.sub left dt)
  tick_sound_left dt sleeping f left h e = h
  tick_sound_left dt empty f left h e = cc
  tick_sound_left dt ready f left h e = cc
  tick_sound_left dt suspended f left h e = cc

  tick_weight : (st : TaskState) → is_sleeping st ≡ true → weight c st ≡ 1
  tick_weight st e = ground arith

  tick_task-IsSound :
      (dt : Time) (t : Task c)
      → IsSound c t
      → IsSound c (tick_task c dt t) × (weight c (tick_task c dt t).state ≡ weight c t.state)
  unfolding tick_task
  tick_task-IsSound dt t h =
      if-elim (λ (u : Task c). IsSound c u × (weight c u.state ≡ weight c t.state))
        (is_sleeping t.state)
        (λ e.
          let f = tick_sound dt t.state t.fn t.sleep_remaining h e in
          if-elim (λ (u : Task c). IsSound c u × (weight c u.state ≡ weight c t.state))
            (c.le (c.sub t.sleep_remaining dt) zero_time)
            (λ _. ((f, refl), omega (arith, tick_weight t.state e)))
            (λ _. (tick_sound_left dt t.state t.fn t.sleep_remaining h e, refl)))
        (λ _. (h, refl))

  tick_all-IsSound :
      (dt : Time) (ts : List (Task c))
      → AllSound c ts
      → AllSound c (map (tick_task c dt) ts)
        × (occupied c (map (tick_task c dt) ts) ≡ occupied c ts)
  tick_all-IsSound dt [] h = (tt, refl)
  tick_all-IsSound dt (t ∷ ts) h =
      let a = tick_task-IsSound dt t h.0 in
      let b = tick_all-IsSound dt ts h.1 in ((a.0, b.0), omega (arith, a.1, b.1))

  pub tick_sleep_timers-IsValid :
      (dt : Time) (s : Sched c) → IsValid c s → IsValid c (tick_sleep_timers c dt s)
  unfolding tick_sleep_timers
  tick_sleep_timers-IsValid dt s v = record {
    size = length-map s.tasks (tick_task c dt) ∙ v.size;
    counted = (tick_all-IsSound dt s.tasks v.sound).1 ∙ v.counted;
    cursor = v.cursor;
    sound = (tick_all-IsSound dt s.tasks v.sound).0;
  }

module _ (c : Seconds) (body : ℕ → ℕ → c.Time → Sched c → List (Call c)) where
  open c use {Time}

  call_fn-IsValid :
      (f : Option ℕ) (idx : ℕ) (dt : Time) (s : Sched c)
      → IsValid c s
      → IsValid c (call_fn c body f idx dt s)
  unfolding call_fn
  call_fn-IsValid none idx dt s v = v
  call_fn-IsValid (some f) idx dt s v =
      run_calls-IsValid c _ _
        (record { size = v.size; counted = v.counted; cursor = v.cursor; sound = v.sound })

  run_task-IsValid :
      (idx : ℕ) (dt : Time) (s : Sched c)
      → idx < max_tasks
      → IsValid c s
      → IsValid c (run_task c body idx dt s)
  unfolding run_task count_run
  run_task-IsValid idx dt s h v =
      let w = call_fn-IsValid (slot c s idx).fn idx dt s v in
      IsValid-put_same c _ idx _ w h (IsSound-get c _ idx w.sound) refl

  run_band-IsValid :
      (n : ℕ) (p : Priority) (i : ℕ) (dt : Time) (s : Sched c)
      → IsValid c s
      → IsValid c (run_band c body n p i dt s)
  unfolding run_band
  run_band-IsValid zero p i dt s v = v
  run_band-IsValid (suc n) p i dt s v =
      let idx = (s.next_index + i) % max_tasks in
      run_band-IsValid n p (i + 1) dt _ (
        if-elim (IsValid c)
          (is_runnable c body (slot c s idx) && (prio_value (slot c s idx).prio == prio_value p))
          (λ _. run_task-IsValid idx dt s (omega arith) v) (λ _. v))

  IsValid-cursor :
      (s : Sched c) (k : ℕ) → k < max_tasks → IsValid c s → IsValid c (record s { next_index = k })
  IsValid-cursor s k h v = record {
    size = v.size;
    counted = v.counted;
    cursor = h;
    sound = v.sound;
  }

  -- `scheduler_run_all` keeps the invariant, whatever calls the tasks make while they run.
  pub run_all-IsValid : (dt : Time) (s : Sched c) → IsValid c s → IsValid c (run_all c body dt s)
  unfolding run_all run_bands
  run_all-IsValid dt s v = IsValid-cursor _ _ (omega arith) (
      run_band-IsValid _ low _ _ _ (
        run_band-IsValid _ normal _ _ _ (
          run_band-IsValid _ high _ _ _
            (run_band-IsValid _ critical _ _ _ (tick_sleep_timers-IsValid c dt s v)))))

  find_ready-lt :
      (n i : ℕ) (s : Sched c) {idx : ℕ}
      → find_ready c body n i s ≡ some idx
      → (idx < max_tasks) × (is_runnable c body (slot c s idx) ≡ true)
  unfolding find_ready
  find_ready-lt zero i s h = cc
  find_ready-lt (suc n) i s h =
      elim (if-some (is_runnable c body (slot c s ((s.next_index + i) % max_tasks))) h) [
        | inl (e, p) ↦ rw (← p) (omega arith, e)
        | inr e ↦ find_ready-lt n (i + 1) s e
      ]

  run_found-IsValid :
      (o : Option ℕ) (dt : Time) (s : Sched c)
      → ((idx : ℕ) → o ≡ some idx → idx < max_tasks)
      → IsValid c s
      → IsValid c (run_found c body o dt s)
  unfolding run_found
  run_found-IsValid none dt s h v = v
  run_found-IsValid (some idx) dt s h v =
      IsValid-cursor _ _ (omega arith) (run_task-IsValid idx dt s (h idx refl) v)

  -- `scheduler_run_once` does too.
  pub run_once-IsValid : (dt : Time) (s : Sched c) → IsValid c s → IsValid c (run_once c body dt s)
  unfolding run_once
  run_once-IsValid dt s v =
      run_found-IsValid _ dt _ (λ idx e. (find_ready-lt _ _ _ e).0)
        (tick_sleep_timers-IsValid c dt s v)

  pub run_loop-IsValid : (n : ℕ) (s : Sched c) → IsValid c s → IsValid c (run_loop c body n s)
  unfolding run_loop
  run_loop-IsValid zero s v = v
  run_loop-IsValid (suc n) s v = run_loop-IsValid n _ (run_once-IsValid c.zero_time s v)
