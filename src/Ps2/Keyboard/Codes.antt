-- ===== src/Ps2/Keyboard/Codes.antt =====
-- The key that the polls of drivers/ps2/ps2.c, drivers/ps2/keyboard_ps2.c and drivers/hid/keyboard.c find.
use entropy_os.Prelude.{
  ℕ, zero, suc, ◌%◌, ◌<◌, ◌≤◌, ◌≡◌, refl, ap, sym, subst, ◌∙◌, Bool, true, false, Option, none,
  some, List, [], ◌∷◌, length, ◌==◌, if-elim, if◌then◌else◌, arith,
}
use entropy_os.Ps2.Ring.{Ring}
use entropy_os.Ps2.Ring.Queue.{
  Holds, Holds-bound, without_first, without_first-Holds, ring_pop-first, ring_pop-empty,
}
use entropy_os.Ps2.Controller.{Controller, Ps2, status_port}
use entropy_os.Ps2.Controller.Incoming.{IsQueue, arrive, arrive_bound, process_incoming-Drained}
use entropy_os.Ps2.Keyboard.{is_skipped, next_code, Keyboard, ps2_keyboard_poll, keyboard_task}

-- The first byte of a list that is a make code, and the bytes after it.
abbrev pub first_code : List ℕ → Option ℕ × List ℕ
first_code [] = (none, [])
first_code (b ∷ xs) = if is_skipped b then first_code xs else (some (b % 128), xs)

abbrev when_popped : ℕ → Ring → Option (ℕ × Ring) → Option (Option ℕ × Ring)
when_popped n r o = elim o [
  | none ↦ some (none, r)
  | some (b, r') ↦
      let rest = next_code n r' in if is_skipped b then rest else some (some (b % 128), r')
]

-- A search of a ring agrees with the one of a list.
pub record Coded (found : Option ℕ × List ℕ) (out : Option (Option ℕ × Ring)) : Type 0 where
  pub ring : Ring
  pub result : out ≡ some (found.0, ring)
  pub left : Holds ring found.1

either-Coded :
    (skip : Bool) (found found' : Option ℕ × List ℕ) (out out' : Option (Option ℕ × Ring))
    → Coded found out
    → Coded found' out'
    → Coded (if skip then found else found') (if skip then out else out')
either-Coded true found found' out out' d d' = d
either-Coded false found found' out out' d d' = d'

next_code-Coded :
    (n : ℕ) (r : Ring) (xs : List ℕ)
    → length xs < n
    → Holds r xs
    → Coded (first_code xs) (next_code n r)
unfolding next_code
next_code-Coded zero r xs fuel h = absurd (omega arith)
next_code-Coded (suc n) r [] fuel h = record {
  ring = r;
  result = ap (when_popped n r) (ring_pop-empty r h);
  left = h;
}
next_code-Coded (suc n) r (b ∷ xs) fuel h =
    let r' = without_first r in
    let h' = without_first-Holds r b xs h in
    let d =
      either-Coded (is_skipped b) (first_code xs) (some (b % 128), xs) (next_code n r')
        (some (some (b % 128), r')) (next_code-Coded n r' xs (omega arith) h')
        (record { ring = r'; result = refl; left = h' }) in
    record {
      ring = d.ring;
      result = ap (when_popped n r) (ring_pop-first r b xs h) ∙ d.result;
      left = d.left;
    }

module _ {c : Controller} (law : IsQueue c) where
  -- The outcome of a poll of the keyboard.
  pub record Keyed (ps : List (Bool × ℕ)) (ms ks : List ℕ) (out : Option (Option ℕ × Ps2 c))
      : Type 0 where
    pub after : Ps2 c
    pub result : out ≡ some ((first_code (arrive false ps ks)).0, after)
    pub pending : law.pending after.hw ≡ []
    pub mouse : Holds after.mouse (arrive true ps ms)
    pub kbd : Holds after.kbd (first_code (arrive false ps ks)).1

  abbrev finish : Ps2 c → Option (Option ℕ × Ring) → Option (Option ℕ × Ps2 c)
  finish p o = elim o [ none ↦ none | some (code, r) ↦ some (code, record p { kbd = r }) ]

  abbrev continue : ℕ → Option (Ps2 c) → Option (Option ℕ × Ps2 c)
  continue n o = elim o [ none ↦ none | some p ↦ finish p (next_code n p.kbd) ]

  -- On a controller as documented, with fuel for the bytes that wait and for a full ring, `ps2_keyboard_poll` of ps2.c ends. It
  -- returns the first make code among the bytes of the keyboard that were in the ring and that
  -- waited, takes no byte after it, and keeps those of the mouse in theirs.
  pub ps2_keyboard_poll-Keyed :
      (n : ℕ) (p : Ps2 c) (ps : List (Bool × ℕ)) (ms ks : List ℕ)
      → length ps < n
      → 64 ≤ n
      → law.pending p.hw ≡ ps
      → Holds p.mouse ms
      → Holds p.kbd ks
      → Keyed ps ms ks (ps2_keyboard_poll c n p)
  unfolding ps2_keyboard_poll
  ps2_keyboard_poll-Keyed n p ps ms ks fuel enough w hm hk =
      let d = process_incoming-Drained law n p ps ms ks fuel w hm hk in
      let short = arrive_bound false ps ks (Holds-bound p.kbd ks hk) in
      let r = next_code-Coded n d.after.kbd (arrive false ps ks) (omega arith) d.kbd in
      record {
        after = record d.after { kbd = r.ring };
        result = ap (continue n) d.result ∙ ap (finish d.after) r.result;
        pending = d.pending;
        mouse = d.mouse;
        kbd = r.left;
      }

  -- the code that is kept once a poll has found `found`
  abbrev pub latest : Option ℕ → ℕ → ℕ
  latest none last = last
  latest (some code) last = code

  -- The outcome of `keyboard_task`.
  pub record Typed (k : Keyboard c) (ps : List (Bool × ℕ)) (ms ks : List ℕ)
      (out : Option (Keyboard c)) : Type 0 where
    pub after : Keyboard c
    pub result : out ≡ some after
    pub last : after.last_scancode ≡ latest (first_code (arrive false ps ks)).0 k.last_scancode
    pub pending : law.pending after.ps2.hw ≡ []
    pub mouse : Holds after.ps2.mouse (arrive true ps ms)
    pub kbd : Holds after.ps2.kbd (first_code (arrive false ps ks)).1

  -- what is left of `keyboard_task` after the poll
  abbrev task_after : Keyboard c → Option (Option ℕ × Ps2 c) → Option (Keyboard c)
  task_after k o = elim o [
    | none ↦ none
    | some (some code, p) ↦ some (record { ps2 = p; last_scancode = code; poll_ctr = 0 })
    | some (none, p) ↦
        let ctr = suc k.poll_ctr in
        some (record {
          ps2 = if ctr % 200 == 0 then record p { hw = (c.inb status_port p.hw).1 } else p;
          last_scancode = k.last_scancode;
          poll_ctr = ctr;
        })
  ]

  task_after-Typed :
      (k : Keyboard c) (ps : List (Bool × ℕ)) (ms ks : List ℕ) (found : Option ℕ) (p : Ps2 c)
      → (first_code (arrive false ps ks)).0 ≡ found
      → law.pending p.hw ≡ []
      → Holds p.mouse (arrive true ps ms)
      → Holds p.kbd (first_code (arrive false ps ks)).1
      → Typed k ps ms ks (task_after k (some (found, p)))
  task_after-Typed k ps ms ks (some code) p e w hm hk = record {
    after = record { ps2 = p; last_scancode = code; poll_ctr = 0 };
    result = refl;
    last = sym (ap (λ (o : Option ℕ). latest o k.last_scancode) e);
    pending = w;
    mouse = hm;
    kbd = hk;
  }
  task_after-Typed k ps ms ks none p e w hm hk =
      let ctr = suc k.poll_ctr in
      let kept = sym (ap (λ (o : Option ℕ). latest o k.last_scancode) e) in
      if-elim
        (λ (q : Ps2 c).
          Typed k ps ms ks
            (some (record { ps2 = q; last_scancode = k.last_scancode; poll_ctr = ctr })))
        (ctr % 200 == 0)
        (λ log. record {
          after = record {
            ps2 = record p { hw = (c.inb status_port p.hw).1 };
            last_scancode = k.last_scancode;
            poll_ctr = ctr;
          };
          result = refl;
          last = kept;
          pending = law.status_keeps p.hw ∙ w;
          mouse = hm;
          kbd = hk;
        })
        (λ quiet. record {
          after = record { ps2 = p; last_scancode = k.last_scancode; poll_ctr = ctr };
          result = refl;
          last = kept;
          pending = w;
          mouse = hm;
          kbd = hk;
        })

  -- On a controller as documented, with fuel as for the poll, `keyboard_task` ends. The code that it keeps for the screens is the
  -- first make code that has come, and the one kept before when none has.
  pub keyboard_task-Typed :
      (n : ℕ) (k : Keyboard c) (ps : List (Bool × ℕ)) (ms ks : List ℕ)
      → length ps < n
      → 64 ≤ n
      → law.pending k.ps2.hw ≡ ps
      → Holds k.ps2.mouse ms
      → Holds k.ps2.kbd ks
      → Typed k ps ms ks (keyboard_task c n k)
  unfolding keyboard_task
  keyboard_task-Typed n k ps ms ks fuel enough w hm hk =
      let d = ps2_keyboard_poll-Keyed n k.ps2 ps ms ks fuel enough w hm hk in
      subst (λ (o : Option (Option ℕ × Ps2 c)). Typed k ps ms ks (task_after k o)) (sym d.result)
        (task_after-Typed k ps ms ks (first_code (arrive false ps ks)).0 d.after refl d.pending
          d.mouse d.kbd)
