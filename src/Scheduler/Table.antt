-- ===== src/Scheduler/Table.antt =====
-- scheduler/scheduler.c: the task record, the table and the functions that change one slot of it.
use entropy_os.Prelude.{
  ℕ, zero, suc, ◌+◌, ◌-◌, ◌%◌, ℤ, pos, negsuc, Bool, true, false, ◌&&◌, ◌||◌, not, Option, none,
  some, List, [], ◌∷◌, map, ltb, ◌==◌, if◌then◌else◌, get_or, set, take, replicate,
}

-- `double`, as far as the scheduler computes with it.
pub record Seconds : Type 1 where
  pub Time : Type 0
  pub zero_time : Time
  pub add : Time → Time → Time
  pub sub : Time → Time → Time
  pub le : Time → Time → Bool

-- `task_priority_t`
pub data Priority : Type 0 where
  low normal high critical : Priority

abbrev pub prio_value : Priority → ℕ
prio_value low = 0
prio_value normal = 1
prio_value high = 2
prio_value critical = 3

-- `task_state_t`
pub data TaskState : Type 0 where
  empty ready sleeping suspended : TaskState

abbrev pub is_empty : TaskState → Bool
is_empty empty = true
is_empty _ = false

abbrev pub is_ready : TaskState → Bool
is_ready ready = true
is_ready _ = false

abbrev pub is_sleeping : TaskState → Bool
is_sleeping sleeping = true
is_sleeping _ = false

abbrev pub is_suspended : TaskState → Bool
is_suspended suspended = true
is_suspended _ = false

-- Function pointers and arguments are handles; `none` is the NULL function, 0 the NULL argument.
abbrev pub same_fn : Option ℕ → ℕ → Bool
same_fn none f = false
same_fn (some g) f = g == f

abbrev pub is_some {ℓ} : {A : Type ℓ} → Option A → Bool
is_some none = false
is_some (some a) = true

abbrev pub max_tasks : ℕ
max_tasks = 16

abbrev pub name_max : ℕ
name_max = 24

-- `id_valid`
abbrev pub id_valid : ℤ → Bool
id_valid (pos n) = ltb n max_tasks
id_valid (negsuc n) = false

-- `sched_strncpy`: the characters that end up before the terminator; the source has no NUL inside.
unfoldable pub sched_strncpy : Option (List ℕ) → ℕ → List ℕ
sched_strncpy none n = []
sched_strncpy (some src) n = take (n - 1) src

-- `task_entry_t` with its `task_stats_t`
pub record Task (c : Seconds) : Type 0 where
  pub fn : Option ℕ
  pub arg : ℕ
  pub state : TaskState
  pub prio : Priority
  pub sleep_remaining : c.Time
  pub run_count : ℕ
  pub total_time_s : c.Time
  pub name : List ℕ

-- The globals `g_tasks`, `g_task_count` and `g_next_index`, and the slots run so far, last first.
pub record Sched (c : Seconds) : Type 0 where
  pub tasks : List (Task c)
  pub task_count : ℕ
  pub next_index : ℕ
  pub ran : List ℕ

abbrev unnamed : List ℕ
unnamed = b'u' ∷ b'n' ∷ b'n' ∷ b'a' ∷ b'm' ∷ b'e' ∷ b'd' ∷ []

module _ (c : Seconds) where
  open c use {Time, zero_time, add, sub, le}

  -- one round of the loop of `scheduler_init`
  abbrev pub empty_task : Task c
  empty_task = record {
    fn = none;
    arg = 0;
    state = empty;
    prio = normal;
    sleep_remaining = zero_time;
    run_count = 0;
    total_time_s = zero_time;
    name = [];
  }

  abbrev pub slot : Sched c → ℕ → Task c
  slot s i = get_or s.tasks i empty_task

  abbrev pub put_slot : Sched c → ℕ → Task c → Sched c
  put_slot s i t = record s { tasks = set s.tasks i t }

  -- `scheduler_init`; what has been run is not forgotten.
  unfoldable pub init : Sched c → Sched c
  init s = record {
    tasks = replicate max_tasks empty_task;
    task_count = 0;
    next_index = 0;
    ran = s.ran;
  }

  -- the first loop of `scheduler_add_task`: an entry with the same function and argument
  unfoldable pub find_same : List (Task c) → ℕ → ℕ → ℕ → Option ℕ
  find_same [] i f a = none
  find_same (t ∷ ts) i f a =
      if not (is_empty t.state) && same_fn t.fn f && (t.arg == a)
      then some i
      else find_same ts (i + 1) f a

  -- the second loop: an empty slot, from the cursor on, with `n` rounds left
  unfoldable pub find_free : Sched c → ℕ → ℕ → Option ℕ
  find_free s zero i = none
  find_free s (suc n) i =
      let rest = find_free s n (i + 1) in
      let idx = (s.next_index + i) % max_tasks in
      if is_empty (slot s idx).state then some idx else rest

  abbrev pub new_task : ℕ → ℕ → Task c
  new_task f a = record {
    fn = some f;
    arg = a;
    state = ready;
    prio = normal;
    sleep_remaining = zero_time;
    run_count = 0;
    total_time_s = zero_time;
    name = sched_strncpy (some unnamed) name_max;
  }

  unfoldable pub register : Sched c → ℕ → ℕ → ℕ → Sched c
  register s idx f a = record s {
    tasks = set s.tasks idx (new_task f a);
    task_count = s.task_count + 1;
    next_index = (idx + 1) % max_tasks;
  }

  -- the part of `scheduler_add_task` below the test of `fn`
  unfoldable pub add_fn : Sched c → ℕ → ℕ → ℤ × Sched c
  add_fn s f a = elim (find_same s.tasks 0 f a) [
    | some i ↦ (pos i, s)
    | none ↦ elim (find_free s max_tasks 0) [
      | some idx ↦ (pos idx, register s idx f a)
      | none ↦ (negsuc 0, s)
    ]
  ]

  -- `scheduler_add_task`
  unfoldable pub add_task : Sched c → Option ℕ → ℕ → ℤ × Sched c
  add_task s none a = (negsuc 0, s)
  add_task s (some f) a = add_fn s f a

  -- a function that returns at once unless `id` is valid
  abbrev pub at_id : ℤ → (ℕ → Sched c → Sched c) → Sched c → Sched c
  at_id (pos i) g s = if ltb i max_tasks then g i s else s
  at_id (negsuc n) g s = s

  unfoldable pub clear_slot : ℕ → Sched c → Sched c
  clear_slot i s = if is_empty (slot s i).state then s else record s {
    tasks = set s.tasks i (record (slot s i) {
      fn = none;
      arg = 0;
      state = empty;
      prio = normal;
      sleep_remaining = zero_time;
      name = [];
    });
    task_count = if ltb 0 s.task_count then s.task_count - 1 else s.task_count;
  }

  -- `scheduler_remove_task`
  unfoldable pub remove_task : ℤ → Sched c → Sched c
  remove_task id s = at_id id clear_slot s

  -- `scheduler_set_priority`
  unfoldable pub set_priority : ℤ → Priority → Sched c → Sched c
  set_priority id p s =
      at_id id
        (λ i s.
          if is_empty (slot s i).state then s else put_slot s i (record (slot s i) { prio = p }))
        s

  -- `scheduler_suspend`
  unfoldable pub suspend : ℤ → Sched c → Sched c
  suspend id s =
      at_id id
        (λ i s.
          if is_ready (slot s i).state
          then put_slot s i (record (slot s i) { state = suspended })
          else s)
        s

  -- `scheduler_resume`
  unfoldable pub resume : ℤ → Sched c → Sched c
  resume id s =
      at_id id
        (λ i s.
          if is_suspended (slot s i).state || is_sleeping (slot s i).state
          then put_slot s i (record (slot s i) { sleep_remaining = zero_time; state = ready })
          else s)
        s

  -- `scheduler_sleep`
  unfoldable pub sleep : ℤ → Time → Sched c → Sched c
  sleep id seconds s =
      at_id id
        (λ i s.
          if is_empty (slot s i).state || le seconds zero_time
          then s
          else put_slot s i (record (slot s i) { sleep_remaining = seconds; state = sleeping }))
        s

  -- `scheduler_remove_by_fn`, with `n` slots left
  unfoldable pub remove_fn_from : ℕ → ℕ → ℕ → Sched c → Sched c
  remove_fn_from zero i f s = s
  remove_fn_from (suc n) i f s = remove_fn_from n (i + 1) f (
      if not (is_empty (slot s i).state) && same_fn (slot s i).fn f
      then remove_task (pos i) s
      else s)

  unfoldable pub remove_by_fn : Option ℕ → Sched c → Sched c
  remove_by_fn none s = s
  remove_by_fn (some f) s = remove_fn_from max_tasks 0 f s

  -- one round of `tick_sleep_timers`
  unfoldable pub tick_task : Time → Task c → Task c
  tick_task dt t =
      let left = sub t.sleep_remaining dt in
      if is_sleeping t.state
      then if le left zero_time
        then record t { sleep_remaining = zero_time; state = ready }
        else record t { sleep_remaining = left }
      else t

  unfoldable pub tick_sleep_timers : Time → Sched c → Sched c
  tick_sleep_timers dt s = record s { tasks = map (tick_task dt) s.tasks }
