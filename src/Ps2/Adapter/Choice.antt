-- ===== src/Ps2/Adapter/Choice.antt =====
-- The choice of drivers/usb/touchpad_adapter.c makes no difference to the moves.
use entropy_os.Prelude.{
  ℕ, ◌<◌, ◌≤◌, ◌≡◌, refl, ap, sym, subst, ◌∙◌, Bool, true, false, Option, none, some, List, [], ◌∷◌,
  length, Bool-cases, inl, inr, ℤ, if◌then◌else◌, arith,
}
use entropy_os.Ps2.Ring.Queue.{Holds}
use entropy_os.Ps2.Controller.{Controller, Ps2}
use entropy_os.Ps2.Controller.Incoming.{IsQueue, arrive}
use entropy_os.Ps2.Touchpad.{Motion, Event, no_motion, cut, report}
use entropy_os.Ps2.Touchpad.Packets.{packets, leftover}
use entropy_os.Ps2.Touchpad.Poll.{touchpad_poll-Polled}
use entropy_os.Ps2.Adapter.{Input, poll_ps2, usb_hid_poll, usb_touchpad_poll}

-- What a poll leaves makes no packet.
packets-leftover : (xs : List ℕ) (m : Motion) → packets (leftover xs) m ≡ m
packets-leftover [] m = refl
packets-leftover (x ∷ []) m = refl
packets-leftover (x ∷ y ∷ []) m = refl
packets-leftover (x ∷ y ∷ z ∷ xs) m = packets-leftover xs m

leftover-leftover : (xs : List ℕ) → leftover (leftover xs) ≡ leftover xs
leftover-leftover [] = refl
leftover-leftover (x ∷ []) = refl
leftover-leftover (x ∷ y ∷ []) = refl
leftover-leftover (x ∷ y ∷ z ∷ xs) = leftover-leftover xs

-- the event that some motion makes
abbrev pub event_of : Motion → Option Event
event_of m =
    if m.any then some (record { dx = cut m.dx; dy = cut m.dy; buttons = m.buttons }) else none

module _ {c : Controller} (law : IsQueue c) where
  -- A result that is the event of the motion `m`, with `left` and `keys` in the rings.
  pub record Chosen (m : Motion) (left keys : List ℕ) (out : Option (Option Event × Input c))
      : Type 0 where
    pub after : Input c
    pub result : out ≡ some (event_of m, after)
    pub pending : law.pending after.ps2.hw ≡ []
    pub mouse : Holds after.ps2.mouse left
    pub kbd : Holds after.ps2.kbd keys

  abbrev with_ps2 : Input c → Option (Option Event × Ps2 c) → Option (Option Event × Input c)
  with_ps2 i o = elim o [ none ↦ none | some (e, p) ↦ some (e, record i { ps2 = p }) ]

  report-Chosen :
      (any : Bool) (dx dy : ℤ) (buttons : ℕ) (i : Input c) (p : Ps2 c) (left keys : List ℕ)
      → law.pending p.hw ≡ []
      → Holds p.mouse left
      → Holds p.kbd keys
      → let m : Motion = record { any = any; dx = dx; dy = dy; buttons = buttons } in
        Chosen m left keys (with_ps2 i (some (report c m p)))
  unfolding report
  report-Chosen false dx dy buttons i p left keys w hm hk = record {
    after = record i { ps2 = p };
    result = refl;
    pending = w;
    mouse = hm;
    kbd = hk;
  }
  report-Chosen true dx dy buttons i p left keys w hm hk =
      let m : Motion = record { any = true; dx = dx; dy = dy; buttons = buttons } in
      record {
        after = record i { ps2 = (report c m p).1 };
        result = refl;
        pending = w;
        mouse = hm;
        kbd = hk;
      }

  poll_ps2-Chosen :
      (n : ℕ) (i : Input c) (ps : List (Bool × ℕ)) (ms ks : List ℕ)
      → length ps < n
      → 22 ≤ n
      → law.pending i.ps2.hw ≡ ps
      → Holds i.ps2.mouse ms
      → Holds i.ps2.kbd ks
      → Chosen
          (packets (arrive true ps ms) no_motion)
          (leftover (arrive true ps ms))
          (arrive false ps ks)
          (poll_ps2 c n i)
  unfolding poll_ps2
  poll_ps2-Chosen n i ps ms ks fuel enough w hm hk =
      let d = touchpad_poll-Polled law n i.ps2 ps ms ks fuel enough w hm hk in
      let m = packets (arrive true ps ms) no_motion in
      subst
        (λ (o : Option (Option Event × Ps2 c)).
          Chosen m (leftover (arrive true ps ms)) (arrive false ps ks) (with_ps2 i o))
        (sym d.result)
        (report-Chosen m.any m.dx m.dy m.buttons i d.before (leftover (arrive true ps ms))
          (arrive false ps ks) d.pending d.mouse d.kbd)

  -- what `usb_touchpad_poll` does with the answer of `usb_hid_poll`
  abbrev fallback : ℕ → Option (Option Event × Input c) → Option (Option Event × Input c)
  fallback n o = elim o [
    | none ↦ none
    | some (some e, i) ↦ some (some e, i)
    | some (none, i) ↦ poll_ps2 c n i
  ]

  fallback-Chosen :
      (n : ℕ) (o : Option Event) (i : Input c) (xs ks : List ℕ)
      → 22 ≤ n
      → event_of (packets xs no_motion) ≡ o
      → law.pending i.ps2.hw ≡ []
      → Holds i.ps2.mouse (leftover xs)
      → Holds i.ps2.kbd ks
      → Chosen (packets xs no_motion) (leftover xs) ks (fallback n (some (o, i)))
  fallback-Chosen n (some e) i xs ks enough ev w hm hk = record {
    after = i;
    result = ap (λ (o : Option Event). some (o, i)) (sym ev);
    pending = w;
    mouse = hm;
    kbd = hk;
  }
  fallback-Chosen n none i xs ks enough ev w hm hk =
      let d = poll_ps2-Chosen n i [] (leftover xs) ks (omega arith) enough w hm hk in
      let none_too = ap event_of (packets-leftover xs no_motion) ∙ sym ev in
      record {
        after = d.after;
        result = d.result ∙ ap (λ (o : Option Event). some (o, d.after)) none_too;
        pending = d.pending;
        mouse = subst (Holds d.after.ps2.mouse) (leftover-leftover xs) d.mouse;
        kbd = d.kbd;
      }

  -- When the adapter was set up, in either way, and the controller is as documented, `usb_touchpad_poll`
  -- with fuel as for `touchpad_poll` reports what the packets of the
  -- PS/2 mouse say, and each of them once, though it may poll twice.
  pub usb_touchpad_poll-Chosen :
      (n : ℕ) (i : Input c) (ps : List (Bool × ℕ)) (ms ks : List ℕ)
      → length ps < n
      → 22 ≤ n
      → i.inited ≡ true
      → (i.using_usb ≡ true → i.hid_enabled ≡ true)
      → law.pending i.ps2.hw ≡ ps
      → Holds i.ps2.mouse ms
      → Holds i.ps2.kbd ks
      → Chosen
          (packets (arrive true ps ms) no_motion)
          (leftover (arrive true ps ms))
          (arrive false ps ks)
          (usb_touchpad_poll c n i)
  unfolding usb_touchpad_poll usb_hid_poll
  usb_touchpad_poll-Chosen n i ps ms ks fuel enough init usb w hm hk =
      let xs = arrive true ps ms in
      let Goal = Chosen (packets xs no_motion) (leftover xs) (arrive false ps ks) in
      let d = poll_ps2-Chosen n i ps ms ks fuel enough w hm hk in
      let hid : Option (Option Event × Input c) = elim i.hid_enabled [
        | false ↦ some (none, i)
        | true ↦ poll_ps2 c n i
      ] in
      subst
        (λ (b : Bool). Goal (elim b [
          | false ↦ some (none, i)
          | true ↦ elim i.using_usb [ false ↦ poll_ps2 c n i | true ↦ fallback n hid ]
        ]))
        (sym init)
        (elim (Bool-cases i.using_usb) [
          | inr off ↦
              subst (λ (b : Bool). Goal (elim b [ false ↦ poll_ps2 c n i | true ↦ fallback n hid ]))
                (sym off) d
          | inl on ↦
              let both =
                fallback-Chosen n (event_of (packets xs no_motion)) d.after xs (arrive false ps ks)
                  enough refl d.pending d.mouse d.kbd in
              let step =
                subst (λ (o : Option (Option Event × Input c)). Goal (fallback n o)) (sym d.result)
                  both in
              let enabled =
                subst
                  (λ (b : Bool).
                    Goal (fallback n (elim b [ false ↦ some (none, i) | true ↦ poll_ps2 c n i ])))
                  (sym (usb on)) step in
              subst (λ (b : Bool). Goal (elim b [ false ↦ poll_ps2 c n i | true ↦ fallback n hid ]))
                (sym on) enabled
        ])
