-- ===== src/Ps2/Ring/Queue.antt =====
-- The rings of drivers/ps2/ps2.c are queues of at most 63 bytes.
use entropy_os.Prelude.{
  ℕ, zero, suc, ◌+◌, ◌-◌, ◌%◌, ◌<◌, ◌≤◌, ◌≡◌, refl, ap, sym, subst, Bool, true, false, ◌∙◌, Option,
  none, some, List, [], ◌∷◌, ◌++◌, length, length-append, length-set, get_or, get_or-set_self,
  get_or-set_ne, set, ltb, ◌==◌, ==_false, ==_true, if◌then◌else◌, if-elim, dec_lt, arith,
}
use entropy_os.Ps2.Ring.{ring_size, Ring, empty_ring, ring_push, ring_pop}

-- The bytes of a ring, the oldest first.
pub record Holds (r : Ring) (xs : List ℕ) : Type 0 where
  pub room : length r.buf ≡ 64
  pub head : r.head < 64
  pub tail : r.tail < 64
  pub count : length xs ≡ (r.head + 64 - r.tail) % 64
  pub at : (i : ℕ) → i < length xs → get_or r.buf ((r.tail + i) % 64) 0 ≡ get_or xs i 0

-- A queue that takes a byte unless it has 63.
abbrev pub enqueue : ℕ → List ℕ → List ℕ
enqueue byte xs = if ltb (length xs) 63 then xs ++ (byte ∷ []) else xs

abbrev pub dequeue : List ℕ → Option (ℕ × List ℕ)
dequeue [] = none
dequeue (x ∷ xs) = some (x, xs)

pub empty_ring-Holds : Holds empty_ring []
empty_ring-Holds = record {
  room = refl;
  head = omega arith;
  tail = omega arith;
  count = refl;
  at = λ i h. absurd (omega arith);
}

get_or_left : (xs ys : List ℕ) (i : ℕ) → i < length xs → get_or (xs ++ ys) i 0 ≡ get_or xs i 0
get_or_left [] ys i h = absurd (omega arith)
get_or_left (x ∷ xs) ys zero h = refl
get_or_left (x ∷ xs) ys (suc i) h = get_or_left xs ys i (omega arith)

get_or_end : (xs : List ℕ) (x : ℕ) → get_or (xs ++ (x ∷ [])) (length xs) 0 ≡ x
get_or_end [] x = refl
get_or_end (y ∷ xs) x = get_or_end xs x

push_at :
    (byte : ℕ) (r : Ring) (xs : List ℕ)
    → Holds r xs
    → ((r.head + 1) % 64 == r.tail) ≡ false
    → (i : ℕ) → i < length (xs ++ (byte ∷ []))
    → get_or (set r.buf r.head byte) ((r.tail + i) % 64) 0 ≡ get_or (xs ++ (byte ∷ [])) i 0
push_at byte r xs h free i lt =
    let long = length-append xs (byte ∷ []) in
    elim (dec_lt i (length xs)) [
      | yes before ↦
          get_or-set_ne r.buf r.head ((r.tail + i) % 64) byte 0
            (λ e. omega (arith, h.head, h.tail, h.count, before, e))
          ∙ h.at i before
          ∙ sym (get_or_left xs (byte ∷ []) i before)
      | no past ↦
          let last : i ≡ length xs = omega (arith, long) in
          let here : (r.tail + i) % 64 ≡ r.head = omega (arith, h.head, h.tail, h.count, last) in
          ap (λ (k : ℕ). get_or (set r.buf r.head byte) k 0) here
          ∙ get_or-set_self r.buf r.head byte 0 (omega (arith, h.head, h.room))
          ∙ sym (ap (λ (k : ℕ). get_or (xs ++ (byte ∷ [])) k 0) last ∙ get_or_end xs byte)
    ]

-- `ring_push` is `enqueue`.
pub ring_push-Holds :
    (byte : ℕ) (r : Ring) (xs : List ℕ) → Holds r xs → Holds (ring_push byte r) (enqueue byte xs)
unfolding ring_push
ring_push-Holds byte r xs h =
    if-elim (λ (r' : Ring). Holds r' (enqueue byte xs)) ((r.head + 1) % ring_size == r.tail)
      (λ full.
        subst (λ (ys : List ℕ). Holds r ys) (sym (kept (ground (arith, h.head, h.tail, h.count))))
          h)
      (λ free.
        subst
          (λ (ys : List ℕ).
            Holds (record r { buf = set r.buf r.head byte; head = (r.head + 1) % ring_size }) ys)
          (sym (taken (ground (arith, h.head, h.tail, h.count)))) (pushed free))
  where
    kept : length xs ≡ 63 → enqueue byte xs ≡ xs
    kept e = ground (arith, e)

    taken : length xs < 63 → enqueue byte xs ≡ xs ++ (byte ∷ [])
    taken e = ground (arith, e)

    pushed :
        ((r.head + 1) % 64 == r.tail) ≡ false
        → Holds
            (record r { buf = set r.buf r.head byte; head = (r.head + 1) % 64 })
            (xs ++ (byte ∷ []))
    pushed free = record {
      room = length-set r.buf r.head byte ∙ h.room;
      head = omega arith;
      tail = h.tail;
      count = ground (arith, h.head, h.tail, h.count, length-append xs (byte ∷ []));
      at = push_at byte r xs h free;
    }

-- The ring once its first byte is taken.
abbrev pub without_first : Ring → Ring
without_first r = record r { tail = (r.tail + 1) % 64 }

pub without_first-Holds :
    (r : Ring) (x : ℕ) (xs : List ℕ) → Holds r (x ∷ xs) → Holds (without_first r) xs
without_first-Holds r x xs h = record {
  room = h.room;
  head = h.head;
  tail = omega arith;
  count = omega (arith, h.head, h.tail, h.count);
  at = λ i lt.
      let here : ((r.tail + 1) % 64 + i) % 64 ≡ (r.tail + suc i) % 64 = omega arith in
      ap (λ (k : ℕ). get_or r.buf k 0) here ∙ h.at (suc i) (omega arith);
}

pub ring_pop-first :
    (r : Ring) (x : ℕ) (xs : List ℕ) → Holds r (x ∷ xs) → ring_pop r ≡ some (x, without_first r)
unfolding ring_pop
ring_pop-first r x xs h =
    let some_left : (r.tail == r.head) ≡ false =
      ==_false (λ e. omega (arith, h.head, h.tail, h.count, e)) in
    ap (λ (b : Bool). if b then none else some (get_or r.buf r.tail 0, without_first r)) some_left
    ∙ ap (λ (v : ℕ). some (v, without_first r)) first
  where
    first : get_or r.buf r.tail 0 ≡ x
    first =
        let here : r.tail ≡ (r.tail + 0) % 64 = omega (arith, h.tail) in
        ap (λ (k : ℕ). get_or r.buf k 0) here ∙ h.at 0 (omega arith)

pub ring_pop-empty : (r : Ring) → Holds r [] → ring_pop r ≡ none
unfolding ring_pop
ring_pop-empty r h =
    let empty : (r.tail == r.head) ≡ true = ==_true (omega (arith, h.head, h.tail, h.count)) in
    ap (λ (b : Bool). if b then none else some (get_or r.buf r.tail 0, without_first r)) empty

-- Two results of taking a byte that agree.
abbrev pub Popped : Option (ℕ × Ring) → Option (ℕ × List ℕ) → Type 0
Popped none none = Unit
Popped none (some q) = ⊥
Popped (some p) none = ⊥
Popped (some p) (some q) = (p.0 ≡ q.0) × Holds p.1 q.1

-- `ring_pop` is `dequeue`.
pub ring_pop-Popped : (r : Ring) (xs : List ℕ) → Holds r xs → Popped (ring_pop r) (dequeue xs)
ring_pop-Popped r [] h =
    subst (λ (o : Option (ℕ × Ring)). Popped o none) (sym (ring_pop-empty r h)) tt
ring_pop-Popped r (x ∷ xs) h =
    subst (λ (o : Option (ℕ × Ring)). Popped o (some (x, xs))) (sym (ring_pop-first r x xs h))
      (refl, without_first-Holds r x xs h)

-- A queue never has more than 63 bytes.
pub enqueue_bound : (byte : ℕ) (xs : List ℕ) → length xs ≤ 63 → length (enqueue byte xs) ≤ 63
enqueue_bound byte xs h =
    if-elim (λ (ys : List ℕ). length ys ≤ 63) (ltb (length xs) 63)
      (λ room. let e = length-append xs (byte ∷ []) in ground (arith, e)) (λ full. h)

pub Holds-bound : (r : Ring) (xs : List ℕ) → Holds r xs → length xs ≤ 63
Holds-bound r xs h = omega (arith, h.head, h.tail, h.count)
