-- ===== src/Scheduler/Add.antt =====
-- `scheduler_add_task` of scheduler/scheduler.c: what it returns, and that it does not register twice.
use entropy_os.Prelude.{
  ℕ, zero, suc, ◌+◌, ◌-◌, ◌%◌, ◌<◌, ◌≤◌, ◌≡◌, refl, ap, sym, ◌∙◌, ℤ, pos, negsuc, Bool, true, false,
  ◌&&◌, not, none, some, List, [], ◌∷◌, arith, length, get_or, set, ◌==◌, inl, inr, Option-cases,
  if-some, if-none, ◌⊎◌, ℕ_discrete, Bool-cases, subst, ◌≢◌, get_or-set_self, get_or-set_ne,
  if◌then◌else◌,
}
use entropy_os.Scheduler.Table.{
  Seconds, TaskState, Priority, is_empty, same_fn, Task, Sched, max_tasks, empty_task, slot,
  find_same, find_free, new_task, register, add_fn, add_task,
}
use entropy_os.Scheduler.Invariant.{IsValid, occupied, find_free-lt}
use native.Mathlib.Nat.{sub_self, sub-zero, zero-add}

module _ (c : Seconds) where
  -- the test of the first loop
  abbrev matches : Task c → ℕ → ℕ → Bool
  matches t f a = not (is_empty t.state) && same_fn t.fn f && (t.arg == a)

  find_same-set :
      (xs : List (Task c)) (k i f a : ℕ)
      → find_same c xs i f a ≡ none
      → k < length xs
      → find_same c (set xs k (new_task c f a)) i f a ≡ some (i + k)
  unfolding find_same
  find_same-set [] k i f a h lt = absurd (omega arith)
  find_same-set (x ∷ xs) zero i f a h lt = ground arith
  find_same-set (x ∷ xs) (suc k) i f a h lt = ground (arith, find_same-set xs k (i + 1) f a)

  find_same_sound :
      (xs : List (Task c)) (i f a : ℕ) {j : ℕ}
      → find_same c xs i f a ≡ some j
      → (i ≤ j) × (j < i + length xs) × (matches (get_or xs (j - i) (empty_task c)) f a ≡ true)
  unfolding find_same
  find_same_sound [] i f a h = cc
  find_same_sound (x ∷ xs) i f a {j} h = elim (if-some (matches x f a) h) [
    | inl (e, p) ↦ rw (← p) (omega arith, omega arith, rw (sub_self i) e)
    | inr e ↦
        let (lo, hi, m) = find_same_sound xs (i + 1) f a e in
        (omega arith, omega arith, shifted lo m)
  ]
    where
      shifted :
          i + 1 ≤ j
          → matches (get_or xs (j - (i + 1)) (empty_task c)) f a ≡ true
          → matches (get_or (x ∷ xs) (j - i) (empty_task c)) f a ≡ true
      shifted lo m = let e : j - i ≡ suc (j - (i + 1)) = omega arith in rw e m

  find_free-none :
      (s : Sched c) (n i : ℕ)
      → find_free c s n i ≡ none
      → (k : ℕ) → i ≤ k
      → k < i + n
      → is_empty (slot c s ((s.next_index + k) % max_tasks)).state ≡ false
  unfolding find_free
  find_free-none s zero i h k lo hi = absurd (omega arith)
  find_free-none s (suc n) i h k lo hi =
      let (first, rest) =
        if-none (is_empty (slot c s ((s.next_index + i) % max_tasks)).state) _ h in
      elim (ℕ_discrete i k) [
        | yes e ↦ rw (← e) first
        | no ne ↦ find_free-none s n (i + 1) rest k (omega arith) (omega arith)
      ]

  all_in_use :
      (xs : List (Task c))
      → ((j : ℕ) → j < length xs → is_empty (get_or xs j (empty_task c)).state ≡ false)
      → occupied c xs ≡ length xs
  all_in_use [] h = refl
  all_in_use (x ∷ xs) h =
      rw (h 0 (omega arith)) (omega (arith, all_in_use xs (λ j lt. h (suc j) (omega arith))))

  full_count :
      (s : Sched c) → IsValid c s → find_free c s max_tasks 0 ≡ none → s.task_count ≡ max_tasks
  full_count s v h =
      let used = all_in_use s.tasks (λ j lt.
        let e : (s.next_index + (j + max_tasks - s.next_index) % max_tasks) % max_tasks ≡ j =
          omega (arith, v.cursor, v.size) in
        rw e at (
          find_free-none s max_tasks 0 h ((j + max_tasks - s.next_index) % max_tasks) (omega arith)
            (omega arith))) in
      omega (arith, used, v.counted, v.size)

  -- which branch of the code is taken
  abbrev Branch : Sched c → ℕ → ℕ → ℤ × Sched c → Type 0
  Branch s f a r =
      ((i : ℕ) × (i < max_tasks) × (matches (slot c s i) f a ≡ true) × (r ≡ (pos i, s)))
      ⊎ ((i : ℕ) × (find_same c s.tasks 0 f a ≡ none)
          × (find_free c s max_tasks 0 ≡ some i)
          × (r ≡ (pos i, register c s i f a)))
      ⊎ ((find_same c s.tasks 0 f a ≡ none) × (s.task_count ≡ max_tasks) × (r ≡ (negsuc 0, s)))

  add_task-Branch : (s : Sched c) (f a : ℕ) → IsValid c s → Branch s f a (add_task c s (some f) a)
  unfolding add_task add_fn
  add_task-Branch s f a v = elim (Option-cases (find_same c s.tasks 0 f a)) [
    | inr (i, e) ↦
        let (lo, hi, m) = find_same_sound s.tasks 0 f a e in
        inl (i, omega (arith, v.size), rw (sub-zero i) at m, rw (e, add_fn))
    | inl e ↦ elim (Option-cases (find_free c s max_tasks 0)) [
      | inl e' ↦ inr (inr (e, full_count s v e', rw (e, e', add_fn)))
      | inr (i, e') ↦ inr (inl (i, e, e', rw (e, e', add_fn)))
    ]
  ]

  find_same-none :
      (xs : List (Task c)) (i f a : ℕ)
      → find_same c xs i f a ≡ none
      → (k : ℕ) → k < length xs
      → matches (get_or xs k (empty_task c)) f a ≡ false
  unfolding find_same
  find_same-none [] i f a h k lt = absurd (omega (arith, lt))
  find_same-none (x ∷ xs) i f a h zero lt = (if-none (matches x f a) i h).0
  find_same-none (x ∷ xs) i f a h (suc k) lt =
      find_same-none xs (i + 1) f a (if-none (matches x f a) i h).1 k (omega (arith, lt))

  -- An empty slot is the first one from the cursor on.
  abbrev IsNearest : Sched c → ℕ → ℕ → Type 0
  IsNearest s i rounds =
      (i ≡ (s.next_index + rounds) % max_tasks)
      × (is_empty (slot c s i).state ≡ true)
      × ((k : ℕ) → k < rounds → is_empty (slot c s ((s.next_index + k) % max_tasks)).state ≡ false)

  find_free-IsNearest :
      (s : Sched c) (n from i : ℕ)
      → ((k : ℕ) → k < from → is_empty (slot c s ((s.next_index + k) % max_tasks)).state ≡ false)
      → find_free c s n from ≡ some i
      → (rounds : ℕ) × (rounds < from + n) × IsNearest s i rounds
  unfolding find_free
  find_free-IsNearest s zero from i before h = cc
  find_free-IsNearest s (suc n) from i before h =
      let idx = (s.next_index + from) % max_tasks in
      let rest = find_free c s n (from + 1) in
      elim (Bool-cases (is_empty (slot c s idx).state)) [
        | inl e ↦
            let got : some idx ≡ some i =
              ap (λ (t : Bool). if t then some idx else rest) (sym e) ∙ h in
            let here : idx ≡ i = cc got in
            (
              from,
              omega arith,
              (sym here, ap (λ (k : ℕ). is_empty (slot c s k).state) (sym here) ∙ e, before),
            )
        | inr e ↦
            let (m, lt, near) =
              find_free-IsNearest s n (from + 1) i (passed e)
                (ap (λ (t : Bool). if t then some idx else rest) (sym e) ∙ h) in
            (m, omega (arith, lt), near)
      ]
    where
      passed :
          is_empty (slot c s ((s.next_index + from) % max_tasks)).state ≡ false
          → (k : ℕ) → k < from + 1
          → is_empty (slot c s ((s.next_index + k) % max_tasks)).state ≡ false
      passed e k lt = elim (ℕ_discrete from k) [
        | yes here ↦
            ap (λ (x : ℕ). is_empty (slot c s ((s.next_index + x) % max_tasks)).state) (sym here)
            ∙ e
        | no ne ↦ before k (omega (arith, lt, ne))
      ]

  -- What a table is once a task was put into a slot: the slot holds the function and the argument,
  -- ready to run and with nothing counted, the other slots are as they were, the counter is one more,
  -- and the cursor is behind the slot.
  pub record Registered (s : Sched c) (f a i : ℕ) (t : Sched c) : Type 0 where
    pub fn : (slot c t i).fn ≡ some f
    pub arg : (slot c t i).arg ≡ a
    pub state : (slot c t i).state ≡ TaskState.ready
    pub prio : (slot c t i).prio ≡ Priority.normal
    pub sleep : (slot c t i).sleep_remaining ≡ c.zero_time
    pub runs : (slot c t i).run_count ≡ 0
    pub others : (k : ℕ) → k ≢ i → slot c t k ≡ slot c s k
    pub count : t.task_count ≡ s.task_count + 1
    pub cursor : t.next_index ≡ (i + 1) % 16
    pub ran : t.ran ≡ s.ran

  register-Registered :
      (s : Sched c) (f a i : ℕ) → i < length s.tasks → Registered s f a i (register c s i f a)
  unfolding register
  register-Registered s f a i lt =
      let e = get_or-set_self s.tasks i (new_task c f a) (empty_task c) lt in
      record {
        fn = ap (λ (t : Task c). t.fn) e;
        arg = ap (λ (t : Task c). t.arg) e;
        state = ap (λ (t : Task c). t.state) e;
        prio = ap (λ (t : Task c). t.prio) e;
        sleep = ap (λ (t : Task c). t.sleep_remaining) e;
        runs = ap (λ (t : Task c). t.run_count) e;
        others =
            λ k ne. get_or-set_ne s.tasks i k (new_task c f a) (empty_task c) (λ z. ne (sym z));
        count = refl;
        cursor = refl;
        ran = refl;
      }

  abbrev NoMatch : Sched c → ℕ → ℕ → Type 0
  NoMatch s f a = (j : ℕ) → j < 16 → matches (slot c s j) f a ≡ false

  -- What `scheduler_add_task` may do with a function that is not NULL.
  abbrev pub Outcome : Sched c → ℕ → ℕ → ℤ × Sched c → Type 0
  Outcome s f a r =
      ((i : ℕ) × (i < 16) × (matches (slot c s i) f a ≡ true) × (r ≡ (pos i, s)))
      ⊎ ((i : ℕ) × (i < 16)
          × NoMatch s f a
          × ((rounds : ℕ) × (rounds < 16) × IsNearest s i rounds)
          × (r.0 ≡ pos i)
          × Registered s f a i r.1)
      ⊎ (NoMatch s f a × (s.task_count ≡ 16) × (r ≡ (negsuc 0, s)))

  -- In a valid table `scheduler_add_task` of a function that is not NULL does one of three things. It
  -- returns a slot below 16 that already holds the function with the argument, and changes nothing. Or
  -- no slot holds them: it returns the first empty slot from the cursor on, which then holds them,
  -- ready, with the counter raised by one, the cursor behind it and the other slots as before; or
  -- all 16 slots are in use and it returns -1 and changes nothing.
  pub add_task-Outcome :
      (s : Sched c) (f a : ℕ) → IsValid c s → Outcome s f a (add_task c s (some f) a)
  add_task-Outcome s f a v =
      let absent : find_same c s.tasks 0 f a ≡ none → NoMatch s f a =
        λ e j lt. find_same-none s.tasks 0 f a e j (omega (arith, lt, v.size)) in
      elim (add_task-Branch s f a v) [
        | inl same ↦ inl same
        | inr (inr (e, full, r)) ↦ inr (inr (absent e, full, r))
        | inr (inl (i, e, free, r)) ↦
            let (lt, em) = find_free-lt c s _ _ free in
            inr (
              inl (
                i,
                lt,
                absent e,
                find_free-IsNearest s max_tasks 0 i (λ k z. absurd (omega (arith, z))) free,
                ap (λ (x : ℤ × Sched c). x.0) r,
                subst (λ (t : Sched c). Registered s f a i t)
                    (sym (ap (λ (x : ℤ × Sched c). x.1) r))
                    (register-Registered s f a i (omega (arith, lt, v.size))),
              ))
      ]

  add_same :
      (s : Sched c) (f a i : ℕ)
      → find_same c s.tasks 0 f a ≡ some i
      → add_task c s (some f) a ≡ (pos i, s)
  unfolding add_task add_fn
  add_same s f a i e = rw (e, add_fn)

  find_same-register :
      (s : Sched c) (f a i : ℕ)
      → find_same c s.tasks 0 f a ≡ none
      → i < length s.tasks
      → find_same c (register c s i f a).tasks 0 f a ≡ some i
  unfolding register
  find_same-register s f a i h lt = find_same-set s.tasks i 0 f a h lt ∙ ap some (zero-add i)

  -- Two answers for one call agree.
  answer :
      {r : ℤ × Sched c} {i j : ℤ} {t : Sched c}
      → r ≡ (j, t)
      → r.0 ≡ i
      → ◌≡◌ {A = ℤ × Sched c} (j, t) (i, t)
  answer {t = t} e h = ap (λ k. (k, t)) (sym (ap (λ r. r.0) e) ∙ h)

  refused : {r : ℤ × Sched c} {i : ℕ} {t : Sched c} → r ≡ (negsuc 0, t) → r.0 ≡ pos i → ⊥
  refused e h = cc (sym (ap (λ q. q.0) e) ∙ h)

  -- When `scheduler_add_task` has returned a slot, the same call again returns that slot and
  -- changes nothing.
  pub add_task-add_task :
      (s : Sched c) (f a : ℕ) {i : ℕ}
      → IsValid c s
      → (add_task c s (some f) a).0 ≡ pos i
      → add_task c (add_task c s (some f) a).1 (some f) a ≡ (pos i, (add_task c s (some f) a).1)
  add_task-add_task s f a {i} v h = elim (add_task-Branch s f a v) [
    | inl (j, lt, m, e) ↦ rw e (e ∙ answer e h)
    | inr (inl (j, new, free, e)) ↦
        let (lt, em) = find_free-lt c s _ _ free in
        rw e
          (add_same _ f a j (find_same-register s f a j new (omega (arith, v.size))) ∙ answer e h)
    | inr (inr (new, full, e)) ↦ absurd (refused e h)
  ]
