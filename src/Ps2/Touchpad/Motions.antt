-- ===== src/Ps2/Touchpad/Motions.antt =====
-- The numbers that `touchpad_poll` of drivers/ps2/ps2.c reports, and the position it keeps.
use entropy_os.Prelude.{
  ◌≡◌, refl, subst, ◌+ℤ◌, ◌-ℤ◌, times, ℕ, zero, suc, Bool, true, false, Option, none, some, ℤ, pos,
  negsuc, if-elim, ◌≤ℤ◌, arith,
}
use entropy_os.Ps2.Ring.{Ring}
use entropy_os.Ps2.Controller.{
  Controller, Ps2, status_port, data_port, has_output, is_aux, demux, process_incoming,
}
use entropy_os.Ps2.Touchpad.{
  Motion, Event, no_motion, read_packets, cut, moved, report, touchpad_poll,
}

-- An integer cut to an interval: the nearest one in it.
pub record IsNearest (low high v w : ℤ) : Type 0 where
  pub from : low ≤ℤ w
  pub to : w ≤ℤ high
  pub inside : low ≤ℤ v → v ≤ℤ high → w ≡ v
  pub under : v ≤ℤ low → w ≡ low
  pub over : high ≤ℤ v → w ≡ high

moved-IsNearest : (v : ℤ) → IsNearest (pos 0) (pos 32767) v (moved v)
moved-IsNearest (pos n) = record {
  from = ground arith;
  to = ground arith;
  inside = λ h k. ground arith;
  under = λ h. ground arith;
  over = λ h. ground arith;
}
moved-IsNearest (negsuc n) = record {
  from = ground arith;
  to = ground arith;
  inside = λ h k. ground arith;
  under = λ h. ground arith;
  over = λ h. ground arith;
}

cut_bound : (x : ℤ) → (negsuc 127 ≤ℤ cut x) × (cut x ≤ℤ pos 127)
cut_bound (pos n) = (ground arith, ground arith)
cut_bound (negsuc n) = (ground arith, ground arith)

-- The moves fit an int8_t.
pub record IsEvent (e : Event) : Type 0 where
  pub dx_low : negsuc 127 ≤ℤ e.dx
  pub dx_high : e.dx ≤ℤ pos 127
  pub dy_low : negsuc 127 ≤ℤ e.dy
  pub dy_high : e.dy ≤ℤ pos 127

module _ (c : Controller) where
  -- The position is this one.
  pub record IsAt (x0 y0 : ℤ) (p : Ps2 c) : Type 0 where
    pub x : p.abs_x ≡ x0
    pub y : p.abs_y ≡ y0

  demux-IsAt :
      {x0 y0 : ℤ} (aux : Bool) (byte : ℕ) (p : Ps2 c)
      → IsAt x0 y0 p
      → IsAt x0 y0 (demux c aux byte p)
  unfolding demux
  demux-IsAt true byte p h = record { x = h.x; y = h.y }
  demux-IsAt false byte p h = record { x = h.x; y = h.y }

  abbrev IsAt? : ℤ → ℤ → Option (Ps2 c) → Type 0
  IsAt? x0 y0 none = Unit
  IsAt? x0 y0 (some p) = IsAt x0 y0 p

  both :
      (x0 y0 : ℤ) (b : Bool) (o o' : Option (Ps2 c))
      → IsAt? x0 y0 o
      → IsAt? x0 y0 o'
      → IsAt? x0 y0 (elim b [ false ↦ o | true ↦ o' ])
  both x0 y0 true o o' h h' = h'
  both x0 y0 false o o' h h' = h

  process_incoming-IsAt :
      (x0 y0 : ℤ) (n : ℕ) (p : Ps2 c) → IsAt x0 y0 p → IsAt? x0 y0 (process_incoming c n p)
  unfolding process_incoming
  process_incoming-IsAt x0 y0 zero p h = tt
  process_incoming-IsAt x0 y0 (suc n) p h =
      let hw1 = (c.inb status_port p.hw).1 in
      let (status, hw2) = c.inb status_port hw1 in
      let (byte, hw3) = c.inb data_port hw2 in
      let p3 : Ps2 c = record p { hw = hw3 } in
      let rest =
        process_incoming-IsAt x0 y0 n (demux c (is_aux status) byte p3)
          (demux-IsAt (is_aux status) byte p3 (record { x = h.x; y = h.y })) in
      let drained = process_incoming c n (demux c (is_aux status) byte p3) in
      let p2 : Ps2 c = record p { hw = hw2 } in
      both x0 y0 (has_output (c.inb status_port p.hw).0) (some (record p { hw = hw1 }))
        (elim (has_output status) [ false ↦ some p2 | true ↦ drained ])
        (record { x = h.x; y = h.y })
        (both x0 y0 (has_output status) (some p2) drained (record { x = h.x; y = h.y }) rest)

  -- what is claimed of a result, for the position before
  abbrev pub InRange : ℤ → ℤ → Option (Option Event × Ps2 c) → Type 0
  InRange x0 y0 none = Unit
  InRange x0 y0 (some (none, p)) = IsAt x0 y0 p
  InRange x0 y0 (some (some e, p)) =
      IsEvent e
      × IsNearest (pos 0) (pos 32767) (x0 +ℤ times 512 e.dx) p.abs_x
      × IsNearest (pos 0) (pos 32767) (y0 -ℤ times 512 e.dy) p.abs_y

  event : (m : Motion) → IsEvent (record { dx = cut m.dx; dy = cut m.dy; buttons = m.buttons })
  event m = record {
    dx_low = (cut_bound m.dx).0;
    dx_high = (cut_bound m.dx).1;
    dy_low = (cut_bound m.dy).0;
    dy_high = (cut_bound m.dy).1;
  }

  report-InRange : (m : Motion) (p : Ps2 c) → InRange p.abs_x p.abs_y (some (report c m p))
  unfolding report
  report-InRange m p =
      if-elim (λ (r : Option Event × Ps2 c). InRange p.abs_x p.abs_y (some r)) m.any
        (λ moves. (
          event m,
          moved-IsNearest (p.abs_x +ℤ times 512 (cut m.dx)),
          moved-IsNearest (p.abs_y -ℤ times 512 (cut m.dy)),
        ))
        (λ still. record { x = refl; y = refl })

  abbrev after_read : Option (Ring × Motion) → Ps2 c → Option (Option Event × Ps2 c)
  after_read o p = elim o [ none ↦ none | some (r, m) ↦ some (report c m (record p { mouse = r })) ]

  after_read-InRange :
      (o : Option (Ring × Motion)) (p : Ps2 c) → InRange p.abs_x p.abs_y (after_read o p)
  after_read-InRange none p = tt
  after_read-InRange (some (r, m)) p = report-InRange m (record p { mouse = r })

  after_drain :
      (x0 y0 : ℤ) (n : ℕ) (o : Option (Ps2 c))
      → IsAt? x0 y0 o
      → InRange x0 y0
          (elim o [ none ↦ none | some p ↦ after_read (read_packets n p.mouse no_motion) p ])
  after_drain x0 y0 n none h = tt
  after_drain x0 y0 n (some p) h =
      subst (λ (x : ℤ). InRange x y0 (after_read (read_packets n p.mouse no_motion) p)) h.x
        (subst (λ (y : ℤ). InRange p.abs_x y (after_read (read_packets n p.mouse no_motion) p)) h.y
          (after_read-InRange (read_packets n p.mouse no_motion) p))

  -- Whatever the hardware sends, when `touchpad_poll` of ps2.c returns an event its two moves fit an
  -- int8_t, and the position has become the one in [0, 32767] that is nearest to the old one with 512
  -- times the first move added and 512 times the second taken away; with no event the position is as before.
  pub touchpad_poll-InRange :
      (fuel : ℕ) (p : Ps2 c) → InRange p.abs_x p.abs_y (touchpad_poll c fuel p)
  unfolding touchpad_poll
  touchpad_poll-InRange fuel p =
      after_drain p.abs_x p.abs_y fuel (process_incoming c fuel p)
        (process_incoming-IsAt p.abs_x p.abs_y fuel p (record { x = refl; y = refl }))
