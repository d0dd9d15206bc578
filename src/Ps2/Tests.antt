-- ===== src/Ps2/Tests.antt =====
-- Runs of the PS/2 driver on a controller with a few bytes.
use entropy_os.Prelude.{
  pos, ℕ, ◌≡◌, refl, sym, subst, Bool, true, false, List, [], ◌∷◌, ◌==◌, if◌then◌else◌, arith,
}
use entropy_os.Ps2.Ring.{empty_ring, ring_push, ring_pop}
use entropy_os.Ps2.Ring.Queue.{
  Holds, empty_ring-Holds, enqueue, dequeue, Popped, ring_push-Holds, ring_pop-Popped,
}
use entropy_os.Ps2.Controller.{
  Controller, Ps2, status_port, has_output, is_aux, start, process_incoming,
}
use entropy_os.Ps2.Controller.Incoming.{IsQueue, arrive, Drained, process_incoming-Drained}
use entropy_os.Ps2.Touchpad.{no_motion, touchpad_poll}
use entropy_os.Ps2.Touchpad.Packets.{packets, leftover}
use entropy_os.Ps2.Touchpad.Motions.{InRange, touchpad_poll-InRange}
use entropy_os.Ps2.Touchpad.Poll.{Polled, touchpad_poll-Polled}
use entropy_os.Ps2.Keyboard.{Keyboard, keyboard_task, direct_poll, ps2_keyboard_poll}
use entropy_os.Ps2.Keyboard.Codes.{
  Keyed, Typed, ps2_keyboard_poll-Keyed, keyboard_task-Typed, first_code,
}
use entropy_os.Ps2.Keyboard.Direct.{Direct, bytes_of, direct_poll-Direct}
use entropy_os.Ps2.Stream.{Stream, stream_poll}
use entropy_os.Ps2.Stream.Packet.{Phase, run, Streamed, stream_poll-Streamed}
use entropy_os.Ps2.Adapter.{Input, usb_touchpad_poll}
use entropy_os.Ps2.Adapter.Choice.{Chosen, usb_touchpad_poll-Chosen}

abbrev Waiting : Type 0
Waiting = List (Bool × ℕ)

abbrev shown_status : Waiting → ℕ
shown_status [] = 0
shown_status ((true, byte) ∷ ps) = 33
shown_status ((false, byte) ∷ ps) = 1

abbrev taken : Waiting → ℕ × Waiting
taken [] = (0, [])
taken ((aux, byte) ∷ ps) = (byte, ps)

abbrev queue : Controller
queue = record {
  State = Waiting;
  inb = λ port s. if port == status_port then (shown_status s, s) else taken s;
  outb = λ port v s. s;
}

status_of_empty : (s : Waiting) → s ≡ [] → has_output (shown_status s) ≡ false
status_of_empty s e = subst (λ (s' : Waiting). has_output (shown_status s') ≡ false) (sym e) refl

status_of_first :
    (aux : Bool) (byte : ℕ) (rest : Waiting)
    → (has_output (shown_status ((aux, byte) ∷ rest)) ≡ true)
      × (is_aux (shown_status ((aux, byte) ∷ rest)) ≡ aux)
status_of_first true byte rest = (refl, refl)
status_of_first false byte rest = (refl, refl)

abbrev queue_law : IsQueue queue
queue_law = record {
  pending = λ s. s;
  status_keeps = λ s. refl;
  status_empty = status_of_empty;
  status_ready = λ s aux byte rest e.
      subst
        (λ (s' : Waiting). (has_output (shown_status s') ≡ true) × (is_aux (shown_status s') ≡ aux))
        (sym e) (status_of_first aux byte rest);
  data_takes = λ s aux byte rest e.
      subst (λ (s' : Waiting). ((taken s').0 ≡ byte) × ((taken s').1 ≡ rest)) (sym e) (refl, refl);
}

-- a packet, a key and half a packet
abbrev waiting : Waiting
waiting = (true, 9) ∷ (true, 5) ∷ (false, 30) ∷ (true, 250) ∷ (true, 8) ∷ []

abbrev begun : Ps2 queue
begun = start queue waiting

ring_push-Holds_example : Holds (ring_push 7 empty_ring) (enqueue 7 [])
ring_push-Holds_example = ring_push-Holds 7 empty_ring [] empty_ring-Holds

ring_pop-Popped_example : Popped (ring_pop (ring_push 7 empty_ring)) (dequeue (enqueue 7 []))
ring_pop-Popped_example =
    ring_pop-Popped (ring_push 7 empty_ring) (enqueue 7 [])
      (ring_push-Holds 7 empty_ring [] empty_ring-Holds)

process_incoming-Drained_example :
    Drained queue_law begun waiting [] [] (process_incoming queue 6 begun)
process_incoming-Drained_example =
    process_incoming-Drained queue_law 6 begun waiting [] [] (omega arith) refl empty_ring-Holds
      empty_ring-Holds

touchpad_poll-InRange_example : InRange queue (pos 16384) (pos 16384) (touchpad_poll queue 30 begun)
touchpad_poll-InRange_example = touchpad_poll-InRange queue 30 begun

touchpad_poll-Polled_example : Polled queue_law begun waiting [] [] (touchpad_poll queue 30 begun)
touchpad_poll-Polled_example =
    touchpad_poll-Polled queue_law 30 begun waiting [] [] (omega arith) (omega arith) refl
      empty_ring-Holds empty_ring-Holds

abbrev keys : Keyboard queue
keys = record { ps2 = begun; last_scancode = 0; poll_ctr = 0 }

ps2_keyboard_poll-Keyed_example : Keyed queue_law waiting [] [] (ps2_keyboard_poll queue 70 begun)
ps2_keyboard_poll-Keyed_example =
    ps2_keyboard_poll-Keyed queue_law 70 begun waiting [] [] (omega arith) (omega arith) refl
      empty_ring-Holds empty_ring-Holds

keyboard_task-Typed_example : Typed queue_law keys waiting [] [] (keyboard_task queue 70 keys)
keyboard_task-Typed_example =
    keyboard_task-Typed queue_law 70 keys waiting [] [] (omega arith) (omega arith) refl
      empty_ring-Holds empty_ring-Holds

direct_poll-Direct_example :
    Direct queue_law (first_code (bytes_of waiting)) (direct_poll queue 6 waiting)
direct_poll-Direct_example = direct_poll-Direct queue_law 6 waiting waiting (omega arith) refl

abbrev stream : Stream queue
stream = record {
  hw = waiting;
  assembly = record { packet = 0 ∷ 0 ∷ 0 ∷ []; packet_idx = 0 };
  abs_x = pos 16384;
  abs_y = pos 16384;
}

stream_poll-Streamed_example :
    Streamed queue_law stream
      (run (bytes_of waiting) (Phase.idle, no_motion))
      (stream_poll queue 6 stream)
stream_poll-Streamed_example =
    stream_poll-Streamed queue_law 6 stream waiting Phase.idle (omega arith) refl
      (record { room = refl; holds = refl })

abbrev input : Input queue
input = record { ps2 = begun; hid_enabled = true; inited = true; using_usb = true }

usb_touchpad_poll-Chosen_example :
    Chosen queue_law
      (packets (arrive true waiting []) no_motion)
      (leftover (arrive true waiting []))
      (arrive false waiting [])
      (usb_touchpad_poll queue 30 input)
usb_touchpad_poll-Chosen_example =
    usb_touchpad_poll-Chosen queue_law 30 input waiting [] [] (omega arith) (omega arith) refl
      (λ e. refl) refl empty_ring-Holds empty_ring-Holds
