-- ===== src/Ps2/Touchpad/Poll.antt =====
-- `touchpad_poll` of drivers/ps2/ps2.c as a whole: from the bytes in the controller to the event.
use entropy_os.Prelude.{
  ℕ, ◌<◌, ◌≤◌, ◌≡◌, ap, ◌∙◌, Bool, true, false, Option, none, some, List, [], length, arith,
}
use entropy_os.Ps2.Ring.{Ring}
use entropy_os.Ps2.Ring.Queue.{Holds, Holds-bound}
use entropy_os.Ps2.Controller.{Controller, Ps2}
use entropy_os.Ps2.Controller.Incoming.{IsQueue, arrive, arrive_bound, process_incoming-Drained}
use entropy_os.Ps2.Touchpad.{Motion, Event, no_motion, read_packets, report, touchpad_poll}
use entropy_os.Ps2.Touchpad.Packets.{packets, leftover, read_packets-Packeted}

module _ {c : Controller} (law : IsQueue c) where
  -- The outcome of a poll: `before` is the state the event is made from.
  pub record Polled (p : Ps2 c) (ps : List (Bool × ℕ)) (ms ks : List ℕ)
      (out : Option (Option Event × Ps2 c)) : Type 0 where
    pub before : Ps2 c
    pub result : out ≡ some (report c (packets (arrive true ps ms) no_motion) before)
    pub pending : law.pending before.hw ≡ []
    pub mouse : Holds before.mouse (leftover (arrive true ps ms))
    pub kbd : Holds before.kbd (arrive false ps ks)
    pub abs_x : before.abs_x ≡ p.abs_x
    pub abs_y : before.abs_y ≡ p.abs_y

  abbrev finish : Ps2 c → Option (Ring × Motion) → Option (Option Event × Ps2 c)
  finish p o = elim o [ none ↦ none | some (r, m) ↦ some (report c m (record p { mouse = r })) ]

  abbrev continue : ℕ → Option (Ps2 c) → Option (Option Event × Ps2 c)
  continue n o = elim o [ none ↦ none | some p ↦ finish p (read_packets n p.mouse no_motion) ]

  -- On a controller as documented, with fuel for the bytes that wait and for 21 packets, `touchpad_poll` ends. It reports the
  -- bytes of the mouse by threes, those that were in the ring and then those that waited; up to two
  -- bytes are left for the next poll, and the bytes of the keyboard are kept in theirs.
  pub touchpad_poll-Polled :
      (n : ℕ) (p : Ps2 c) (ps : List (Bool × ℕ)) (ms ks : List ℕ)
      → length ps < n
      → 22 ≤ n
      → law.pending p.hw ≡ ps
      → Holds p.mouse ms
      → Holds p.kbd ks
      → Polled p ps ms ks (touchpad_poll c n p)
  unfolding touchpad_poll
  touchpad_poll-Polled n p ps ms ks fuel enough w hm hk =
      let d = process_incoming-Drained law n p ps ms ks fuel w hm hk in
      let short = arrive_bound true ps ms (Holds-bound p.mouse ms hm) in
      let r =
        read_packets-Packeted n d.after.mouse (arrive true ps ms) no_motion (omega arith) d.mouse in
      record {
        before = record d.after { mouse = r.ring };
        result = ap (continue n) d.result ∙ ap (finish d.after) r.result;
        pending = d.pending;
        mouse = r.left;
        kbd = d.kbd;
        abs_x = d.abs_x;
        abs_y = d.abs_y;
      }
