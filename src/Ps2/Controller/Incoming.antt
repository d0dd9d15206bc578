-- ===== src/Ps2/Controller/Incoming.antt =====
-- What `ps2_process_incoming` of drivers/ps2/ps2.c makes of the bytes that wait in the controller.
use entropy_os.Prelude.{
  ℕ, zero, suc, ◌<◌, ◌≤◌, ◌≡◌, refl, sym, subst, ◌∙◌, Bool, true, false, Option, some, List, [],
  ◌∷◌, length, arith,
}
use entropy_os.Ps2.Ring.Queue.{Holds, enqueue, enqueue_bound, ring_push-Holds}
use entropy_os.Ps2.Controller.{
  Controller, Ps2, data_port, status_port, has_output, is_aux, demux, process_incoming,
}

-- What the i8042 documents of its ports: bytes of the keyboard and of the mouse wait in a queue; the
-- status says whether there is one and from where the first came, and reading the data port takes it.
pub record IsQueue (c : Controller) : Type 0 where
  pub pending : c.State → List (Bool × ℕ)
  pub status_keeps : (hw : c.State) → pending (c.inb status_port hw).1 ≡ pending hw
  pub status_empty : (hw : c.State) → pending hw ≡ [] → has_output (c.inb status_port hw).0 ≡ false
  pub status_ready :
      (hw : c.State) (aux : Bool) (byte : ℕ) (rest : List (Bool × ℕ))
      → pending hw ≡ (aux, byte) ∷ rest
      → (has_output (c.inb status_port hw).0 ≡ true) × (is_aux (c.inb status_port hw).0 ≡ aux)
  pub data_takes :
      (hw : c.State) (aux : Bool) (byte : ℕ) (rest : List (Bool × ℕ))
      → pending hw ≡ (aux, byte) ∷ rest
      → ((c.inb data_port hw).0 ≡ byte) × (pending (c.inb data_port hw).1 ≡ rest)

-- The bytes of the mouse (`true`) or of the keyboard put into a queue, in their order.
abbrev pub arrive : Bool → List (Bool × ℕ) → List ℕ → List ℕ
arrive from [] xs = xs
arrive true ((true, byte) ∷ ps) xs = arrive true ps (enqueue byte xs)
arrive true ((false, byte) ∷ ps) xs = arrive true ps xs
arrive false ((true, byte) ∷ ps) xs = arrive false ps xs
arrive false ((false, byte) ∷ ps) xs = arrive false ps (enqueue byte xs)

pub arrive_bound :
    (from : Bool) (ps : List (Bool × ℕ)) (xs : List ℕ)
    → length xs ≤ 63
    → length (arrive from ps xs) ≤ 63
arrive_bound from [] xs h = h
arrive_bound true ((true, byte) ∷ ps) xs h =
    arrive_bound true ps (enqueue byte xs) (enqueue_bound byte xs h)
arrive_bound true ((false, byte) ∷ ps) xs h = arrive_bound true ps xs h
arrive_bound false ((true, byte) ∷ ps) xs h = arrive_bound false ps xs h
arrive_bound false ((false, byte) ∷ ps) xs h =
    arrive_bound false ps (enqueue byte xs) (enqueue_bound byte xs h)

module _ {c : Controller} (law : IsQueue c) where
  -- The outcome of draining the controller.
  pub record Drained (p : Ps2 c) (ps : List (Bool × ℕ)) (ms ks : List ℕ) (out : Option (Ps2 c))
      : Type 0 where
    pub after : Ps2 c
    pub result : out ≡ some after
    pub pending : law.pending after.hw ≡ []
    pub mouse : Holds after.mouse (arrive true ps ms)
    pub kbd : Holds after.kbd (arrive false ps ks)
    pub abs_x : after.abs_x ≡ p.abs_x
    pub abs_y : after.abs_y ≡ p.abs_y

  -- One byte moves from the controller to its ring.
  step_true :
      (p : Ps2 c) (byte : ℕ) (ps : List (Bool × ℕ)) (ms ks : List ℕ) (out : Option (Ps2 c))
      → Drained (demux c true byte p) ps (enqueue byte ms) ks out
      → Drained p ((true, byte) ∷ ps) ms ks out
  unfolding demux
  step_true p byte ps ms ks out d = record {
    after = d.after;
    result = d.result;
    pending = d.pending;
    mouse = d.mouse;
    kbd = d.kbd;
    abs_x = d.abs_x;
    abs_y = d.abs_y;
  }

  step_false :
      (p : Ps2 c) (byte : ℕ) (ps : List (Bool × ℕ)) (ms ks : List ℕ) (out : Option (Ps2 c))
      → Drained (demux c false byte p) ps ms (enqueue byte ks) out
      → Drained p ((false, byte) ∷ ps) ms ks out
  unfolding demux
  step_false p byte ps ms ks out d = record {
    after = d.after;
    result = d.result;
    pending = d.pending;
    mouse = d.mouse;
    kbd = d.kbd;
    abs_x = d.abs_x;
    abs_y = d.abs_y;
  }

  with_hw-Drained :
      (p : Ps2 c) (hw : c.State) (ps : List (Bool × ℕ)) (ms ks : List ℕ) (out : Option (Ps2 c))
      → Drained (record p { hw = hw }) ps ms ks out
      → Drained p ps ms ks out
  with_hw-Drained p hw ps ms ks out d = record {
    after = d.after;
    result = d.result;
    pending = d.pending;
    mouse = d.mouse;
    kbd = d.kbd;
    abs_x = d.abs_x;
    abs_y = d.abs_y;
  }

  -- what is known of the rest of the loop
  abbrev Rest : ℕ → List (Bool × ℕ) → Type 0
  Rest n ps =
      (p : Ps2 c) (ms ks : List ℕ)
      → law.pending p.hw ≡ ps
      → Holds p.mouse ms
      → Holds p.kbd ks
      → Drained p ps ms ks (process_incoming c n p)

  byte_step :
      (n : ℕ) (p : Ps2 c) (aux : Bool) (byte : ℕ) (ps : List (Bool × ℕ)) (ms ks : List ℕ)
      → Rest n ps
      → law.pending p.hw ≡ ps
      → Holds p.mouse ms
      → Holds p.kbd ks
      → Drained p ((aux, byte) ∷ ps) ms ks (process_incoming c n (demux c aux byte p))
  unfolding demux
  byte_step n p true byte ps ms ks rest w hm hk =
      step_true p byte ps ms ks (process_incoming c n (demux c true byte p))
        (rest (demux c true byte p) (enqueue byte ms) ks w (ring_push-Holds byte p.mouse ms hm) hk)
  byte_step n p false byte ps ms ks rest w hm hk =
      step_false p byte ps ms ks (process_incoming c n (demux c false byte p))
        (rest (demux c false byte p) ms (enqueue byte ks) w hm (ring_push-Holds byte p.kbd ks hk))

  abbrev when : Bool → Option (Ps2 c) → Option (Ps2 c) → Option (Ps2 c)
  when b x y = elim b [ false ↦ x | true ↦ y ]

  -- On a controller as documented, with more fuel than bytes wait, `ps2_process_incoming` ends with none left, and each ring has got
  -- its bytes in their order, but for those that found it full; the position is as before.
  pub process_incoming-Drained :
      (n : ℕ) (p : Ps2 c) (ps : List (Bool × ℕ)) (ms ks : List ℕ)
      → length ps < n
      → law.pending p.hw ≡ ps
      → Holds p.mouse ms
      → Holds p.kbd ks
      → Drained p ps ms ks (process_incoming c n p)
  unfolding process_incoming
  process_incoming-Drained zero p ps ms ks fuel w hm hk = absurd (omega arith)
  process_incoming-Drained (suc n) p [] ms ks fuel w hm hk =
      let hw1 = (c.inb status_port p.hw).1 in
      let hw2 = (c.inb status_port hw1).1 in
      let r3 = c.inb data_port hw2 in
      subst
        (λ (b : Bool). Drained p [] ms ks (
          when b (some (record p { hw = hw1 })) (
            when (has_output (c.inb status_port hw1).0) (some (record p { hw = hw2 })) (
              process_incoming c n
                (demux c (is_aux (c.inb status_port hw1).0) r3.0 (record p { hw = r3.1 }))))))
        (sym (law.status_empty p.hw w))
        (record {
          after = record p { hw = hw1 };
          result = refl;
          pending = law.status_keeps p.hw ∙ w;
          mouse = hm;
          kbd = hk;
          abs_x = refl;
          abs_y = refl;
        })
  process_incoming-Drained (suc n) p ((aux, byte) ∷ ps) ms ks fuel w hm hk =
      let hw1 = (c.inb status_port p.hw).1 in
      let r2 = c.inb status_port hw1 in
      let r3 = c.inb data_port r2.1 in
      let p3 = record p { hw = r3.1 } in
      let w1 = law.status_keeps p.hw ∙ w in
      let w2 = law.status_keeps hw1 ∙ w1 in
      let (ready, _) = law.status_ready p.hw aux byte ps w in
      let (ready2, from) = law.status_ready hw1 aux byte ps w1 in
      let (same, w3) = law.data_takes r2.1 aux byte ps w2 in
      let d =
        byte_step n p3 aux byte ps ms ks
          (λ p' ms' ks'. process_incoming-Drained n p' ps ms' ks' (omega arith)) w3 hm hk in
      let d1 =
        subst
          (λ (b : Bool).
            Drained p3 ((aux, byte) ∷ ps) ms ks (process_incoming c n (demux c b byte p3)))
          (sym from) d in
      let d2 =
        subst
          (λ (b : ℕ).
            Drained p3 ((aux, byte) ∷ ps) ms ks (process_incoming c n (demux c (is_aux r2.0) b p3)))
          (sym same) d1 in
      let d3 =
        subst
          (λ (b : Bool). Drained p3 ((aux, byte) ∷ ps) ms ks (
            when b (some (record p { hw = r2.1 }))
              (process_incoming c n (demux c (is_aux r2.0) r3.0 p3))))
          (sym ready2) d2 in
      with_hw-Drained p r3.1 ((aux, byte) ∷ ps) ms ks
        (when (has_output (c.inb status_port p.hw).0) (some (record p { hw = hw1 })) (
          when (has_output r2.0) (some (record p { hw = r2.1 }))
            (process_incoming c n (demux c (is_aux r2.0) r3.0 p3))))
        (subst
          (λ (b : Bool). Drained p3 ((aux, byte) ∷ ps) ms ks (
            when b (some (record p { hw = hw1 })) (
              when (has_output r2.0) (some (record p { hw = r2.1 }))
                (process_incoming c n (demux c (is_aux r2.0) r3.0 p3)))))
          (sym ready) d3)
