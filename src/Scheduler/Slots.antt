-- ===== src/Scheduler/Slots.antt =====
-- The functions of scheduler/scheduler.c that change one slot keep the invariant.
use entropy_os.Prelude.{
  ℕ, zero, suc, ◌+◌, ◌<◌, ◌≡◌, refl, ◌≢◌, ℤ, pos, Bool, true, false, Option, none, some, List, [],
  ◌∷◌, arith, get_or, sym, ◌||◌, ◌&&◌, not, lt→ltb, if-elim,
}
use entropy_os.Scheduler.Table.{
  Seconds, TaskState, empty, ready, sleeping, suspended, is_empty, is_ready, is_sleeping,
  is_suspended, same_fn, Priority, Task, Sched, max_tasks, empty_task, slot, clear_slot,
  remove_task, set_priority, suspend, resume, sleep, remove_fn_from, remove_by_fn,
}
use entropy_os.Scheduler.Invariant.{
  IsValid, SoundAs, weight, occupied, IsSound-get, IsValid-put, IsValid-put_same, at_id-IsValid,
}

module _ (c : Seconds) where
  open c use {Time, zero_time}

  -- A slot that is in use has a function.
  in_use :
      (st : TaskState) (f : Option ℕ) (left : Time)
      → is_empty st ≡ false
      → SoundAs c st f left
      → (f ≢ none) × (weight c st ≡ 1)
  in_use empty f left e h = cc
  in_use ready f left e h = (h.0, refl)
  in_use sleeping f left e h = (h, refl)
  in_use suspended f left e h = (h.0, refl)

  ready_left :
      (st : TaskState) (f : Option ℕ) (left : Time)
      → is_ready st ≡ true
      → SoundAs c st f left
      → (is_empty st ≡ false) × (left ≡ zero_time)
  ready_left ready f left e h = (refl, h.1)
  ready_left empty f left e h = cc
  ready_left sleeping f left e h = cc
  ready_left suspended f left e h = cc

  waiting_in_use : (st : TaskState) → is_suspended st || is_sleeping st ≡ true → is_empty st ≡ false
  waiting_in_use st e = ground arith

  pub suspend-IsValid : (s : Sched c) (id : ℤ) → IsValid c s → IsValid c (suspend c id s)
  unfolding suspend
  suspend-IsValid s id v =
      at_id-IsValid c id _ s
        (λ i h.
          if-elim (IsValid c) (is_ready (slot c s i).state)
            (λ e.
              let old = IsSound-get c s.tasks i v.sound in
              let (used, left) = ready_left (slot c s i).state _ _ e old in
              let (f, w) = in_use (slot c s i).state _ _ used old in
              IsValid-put_same c s i _ v h (f, left) (sym w))
            (λ _. v))
        v

  pub resume-IsValid : (s : Sched c) (id : ℤ) → IsValid c s → IsValid c (resume c id s)
  unfolding resume
  resume-IsValid s id v =
      at_id-IsValid c id _ s
        (λ i h.
          if-elim (IsValid c) (is_suspended (slot c s i).state || is_sleeping (slot c s i).state)
            (λ e.
              let old = IsSound-get c s.tasks i v.sound in
              let (f, w) =
                in_use (slot c s i).state _ _ (waiting_in_use (slot c s i).state e) old in
              IsValid-put_same c s i _ v h (f, refl) (sym w))
            (λ _. v))
        v

  or_false : (a b : Bool) → (a || b) ≡ false → a ≡ false
  or_false a b e = ground arith

  pub sleep-IsValid : (s : Sched c) (id : ℤ) (t : Time) → IsValid c s → IsValid c (sleep c id t s)
  unfolding sleep
  sleep-IsValid s id t v =
      at_id-IsValid c id _ s
        (λ i h.
          if-elim (IsValid c) (is_empty (slot c s i).state || c.le t zero_time) (λ _. v)
            (λ e.
              let old = IsSound-get c s.tasks i v.sound in
              let (f, w) =
                in_use (slot c s i).state _ _ (or_false (is_empty (slot c s i).state) _ e) old in
              IsValid-put_same c s i _ v h f (sym w)))
        v

  pub set_priority-IsValid :
      (s : Sched c) (id : ℤ) (p : Priority) → IsValid c s → IsValid c (set_priority c id p s)
  unfolding set_priority
  set_priority-IsValid s id p v =
      at_id-IsValid c id _ s
        (λ i h.
          if-elim (IsValid c) (is_empty (slot c s i).state) (λ _. v)
            (λ e. IsValid-put_same c s i _ v h (IsSound-get c s.tasks i v.sound) refl))
        v

  -- Under the invariant an occupied slot means a positive count.
  occupied_pos :
      (xs : List (Task c)) (i : ℕ)
      → is_empty (get_or xs i (empty_task c)).state ≡ false
      → 0 < occupied c xs
  occupied_pos [] i e = cc
  occupied_pos (x ∷ xs) zero e = rw e (omega arith)
  occupied_pos (x ∷ xs) (suc i) e = omega (arith, occupied_pos xs i e)

  pub clear_slot-IsValid :
      (s : Sched c) (i : ℕ) → i < max_tasks → IsValid c s → IsValid c (clear_slot c i s)
  unfolding clear_slot
  clear_slot-IsValid s i h v =
      if-elim (IsValid c) (is_empty (slot c s i).state) (λ _. v)
        (λ e.
          let (_, w) = in_use (slot c s i).state _ _ e (IsSound-get c s.tasks i v.sound) in
          let some_used = occupied_pos s.tasks i e in
          IsValid-put c s i _ _ _ v h (refl, refl) v.cursor
            (rw (lt→ltb 0 s.task_count (omega (arith, some_used, v.counted)))
              (omega (arith, w, some_used, v.counted))))

  pub remove_task-IsValid : (s : Sched c) (id : ℤ) → IsValid c s → IsValid c (remove_task c id s)
  unfolding remove_task
  remove_task-IsValid s id v = at_id-IsValid c id _ s (λ i h. clear_slot-IsValid s i h v) v

  pub remove_fn_from-IsValid :
      (n i f : ℕ) (s : Sched c) → IsValid c s → IsValid c (remove_fn_from c n i f s)
  unfolding remove_fn_from
  remove_fn_from-IsValid zero i f s v = v
  remove_fn_from-IsValid (suc n) i f s v = remove_fn_from-IsValid n (i + 1) f _ (
      if-elim (IsValid c) (not (is_empty (slot c s i).state) && same_fn (slot c s i).fn f)
        (λ _. remove_task-IsValid s (pos i) v) (λ _. v))

  pub remove_by_fn-IsValid :
      (s : Sched c) (f : Option ℕ) → IsValid c s → IsValid c (remove_by_fn c f s)
  unfolding remove_by_fn
  remove_by_fn-IsValid s none v = v
  remove_by_fn-IsValid s (some f) v = remove_fn_from-IsValid max_tasks 0 f s v
