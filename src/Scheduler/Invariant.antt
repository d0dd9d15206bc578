-- ===== src/Scheduler/Invariant.antt =====
-- The invariant of the table of scheduler/scheduler.c, and what a change of one slot does to it.
use entropy_os.Prelude.{
  ◌≤◌, ℕ, zero, suc, ◌+◌, ◌%◌, ◌<◌, ◌≡◌, refl, ◌≢◌, ℤ, pos, negsuc, true, Option, none, some, List,
  [], ◌∷◌, arith, ltb, length, get_or, set, replicate, if◌then◌else◌, ◌∙◌, length-set, if-some,
  if-elim, ltb→lt, Option-cases, inl, inr,
}
use entropy_os.Scheduler.Table.{
  Seconds, TaskState, empty, ready, sleeping, suspended, is_empty, Task, Sched, max_tasks,
  empty_task, slot, put_slot, init, find_same, find_free, new_task, register, add_fn, add_task,
  at_id,
}

module _ (c : Seconds) where
  open c use {Time, zero_time}

  -- An empty slot has no function and any other has one; only a sleeping task has time left.
  abbrev pub SoundAs : TaskState → Option ℕ → Time → Type 0
  SoundAs empty f left = (f ≡ none) × (left ≡ zero_time)
  SoundAs ready f left = (f ≢ none) × (left ≡ zero_time)
  SoundAs sleeping f left = f ≢ none
  SoundAs suspended f left = (f ≢ none) × (left ≡ zero_time)

  abbrev pub IsSound : Task c → Type 0
  IsSound t = SoundAs t.state t.fn t.sleep_remaining

  abbrev pub AllSound : List (Task c) → Type 0
  AllSound [] = Unit {0}
  AllSound (t ∷ ts) = IsSound t × AllSound ts

  abbrev pub weight : TaskState → ℕ
  weight st = if is_empty st then 0 else 1

  abbrev pub occupied : List (Task c) → ℕ
  occupied [] = 0
  occupied (t ∷ ts) = weight t.state + occupied ts

  pub record IsValid (s : Sched c) : Type 0 where
    pub size : length s.tasks ≡ max_tasks
    pub counted : occupied s.tasks ≡ s.task_count
    pub cursor : s.next_index < max_tasks
    pub sound : AllSound s.tasks

  pub occupied-set :
      (xs : List (Task c)) (i : ℕ) (t : Task c)
      → i < length xs
      → occupied (set xs i t) + weight (get_or xs i (empty_task c)).state
        ≡ occupied xs + weight t.state
  occupied-set [] i t h = absurd (omega arith)
  occupied-set (x ∷ xs) zero t h = omega arith
  occupied-set (x ∷ xs) (suc i) t h = omega (arith, occupied-set xs i t (omega arith))

  pub AllSound-set :
      (xs : List (Task c)) (i : ℕ) (t : Task c) → AllSound xs → IsSound t → AllSound (set xs i t)
  AllSound-set [] i t h k = tt
  AllSound-set (x ∷ xs) zero t h k = (k, h.1)
  AllSound-set (x ∷ xs) (suc i) t h k = (h.0, AllSound-set xs i t h.1 k)

  pub IsSound-get :
      (xs : List (Task c)) (i : ℕ) → AllSound xs → IsSound (get_or xs i (empty_task c))
  IsSound-get [] i h = (refl, refl)
  IsSound-get (x ∷ xs) zero h = h.0
  IsSound-get (x ∷ xs) (suc i) h = IsSound-get xs i h.1

  -- One slot is replaced and the counter follows.
  pub IsValid-put :
      (s : Sched c) (i n k : ℕ) (t : Task c)
      → IsValid s
      → i < max_tasks
      → IsSound t
      → k < max_tasks
      → n + weight (slot c s i).state ≡ s.task_count + weight t.state
      → IsValid (record s { tasks = set s.tasks i t; task_count = n; next_index = k })
  IsValid-put s i n k t v h snd hk e = record {
    size = length-set s.tasks i t ∙ v.size;
    counted = omega (arith, occupied-set s.tasks i t (omega arith), v.counted, e);
    cursor = hk;
    sound = AllSound-set s.tasks i t v.sound snd;
  }

  AllSound-replicate : (n : ℕ) → AllSound (replicate n (empty_task c))
  AllSound-replicate zero = tt
  AllSound-replicate (suc n) = ((refl, refl), AllSound-replicate n)

  pub init-IsValid : (s : Sched c) → IsValid (init c s)
  unfolding init
  init-IsValid s = record {
    size = refl;
    counted = refl;
    cursor = omega arith;
    sound = AllSound-replicate max_tasks;
  }

  pub find_free-lt :
      (s : Sched c) (n i : ℕ) {idx : ℕ}
      → find_free c s n i ≡ some idx
      → (idx < max_tasks) × (is_empty (slot c s idx).state ≡ true)
  unfolding find_free
  find_free-lt s zero i h = cc
  find_free-lt s (suc n) i h =
      elim (if-some (is_empty (slot c s ((s.next_index + i) % max_tasks)).state) h) [
        | inl (e, p) ↦ rw (← p) (omega arith, e)
        | inr e ↦ find_free-lt s n (i + 1) e
      ]

  new_task-IsSound : (f a : ℕ) → IsSound (new_task c f a)
  new_task-IsSound f a = ((λ e. cc), refl)

  weight_empty : (st : TaskState) → is_empty st ≡ true → weight st ≡ 0
  weight_empty st e = rw e

  register-IsValid :
      (s : Sched c) (idx f a : ℕ)
      → IsValid s
      → idx < max_tasks
      → is_empty (slot c s idx).state ≡ true
      → IsValid (register c s idx f a)
  unfolding register
  register-IsValid s idx f a v h e =
      IsValid-put s idx _ _ (new_task c f a) v h (new_task-IsSound f a) (omega arith)
        (omega (arith, weight_empty (slot c s idx).state e))

  pub add_task-IsValid :
      (s : Sched c) (f : Option ℕ) (a : ℕ) → IsValid s → IsValid (add_task c s f a).1
  unfolding add_task add_fn
  add_task-IsValid s none a v = v
  add_task-IsValid s (some f) a v = elim (Option-cases (find_same c s.tasks 0 f a)) [
    | inr (i, e) ↦ rw (e, add_fn) v
    | inl e ↦ elim (Option-cases (find_free c s max_tasks 0)) [
      | inl e' ↦ rw (e, e', add_fn) v
      | inr (idx, e') ↦
          rw (e, e', add_fn)
            (register-IsValid s idx f a v (find_free-lt s _ _ e').0 (find_free-lt s _ _ e').1)
    ]
  ]

  pub at_id-IsValid :
      (id : ℤ) (g : ℕ → Sched c → Sched c) (s : Sched c)
      → ((i : ℕ) → i < max_tasks → IsValid (g i s))
      → IsValid s
      → IsValid (at_id c id g s)
  at_id-IsValid (negsuc n) g s h v = v
  at_id-IsValid (pos i) g s h v =
      if-elim IsValid (ltb i max_tasks) (λ e. h i (ltb→lt i max_tasks e)) (λ _. v)

  -- A slot is replaced by one that is as full as it was.
  pub IsValid-put_same :
      (s : Sched c) (i : ℕ) (t : Task c)
      → IsValid s
      → i < max_tasks
      → IsSound t
      → weight t.state ≡ weight (slot c s i).state
      → IsValid (put_slot c s i t)
  IsValid-put_same s i t v h snd e = IsValid-put s i _ _ t v h snd v.cursor (omega arith)

  pub occupied-le : (xs : List (Task c)) → occupied xs ≤ length xs
  occupied-le [] = omega arith
  occupied-le (x ∷ xs) = omega (arith, occupied-le xs, weight-le x.state)
    where
      weight-le : (st : TaskState) → weight st ≤ 1
      weight-le st = ground arith
