-- ===== src/Ps2/Touchpad.antt =====
-- drivers/ps2/ps2.c: `touchpad_poll`, which makes packets of three bytes from the ring of the mouse.
pub mod Packets
pub mod Motions
pub mod Poll
use entropy_os.Prelude.{
  ◌-ℤ◌, times, clamp_up, ℕ, zero, suc, ◌+◌, ◌-◌, ◌*◌, ◌/◌, ◌%◌, Bool, true, false, Option, none,
  some, ◌==◌, if◌then◌else◌, ℤ, pos, negsuc, above, below, minus, ◌+ℤ◌, clamp,
}
use entropy_os.Ps2.Ring.{Ring, ring_pop, put_back}
use entropy_os.Ps2.Controller.{Controller, Ps2, process_incoming}

-- `any`, `total_dx`, `total_dy` and `last_buttons`
pub record Motion : Type 0 where
  pub any : Bool
  pub dx : ℤ
  pub dy : ℤ
  pub buttons : ℕ

abbrev pub no_motion : Motion
no_motion = record { any = false; dx = pos 0; dy = pos 0; buttons = 0 }

-- A byte whose sign is bit `bit` of the first one: `|= 0xFFFFFF00` takes 256 from it.
abbrev pub sign_extend : ℕ → ℕ → ℕ → ℤ
sign_extend b0 weight b = if b0 / weight % 2 == 1 then minus b 256 else pos b

-- what the loop does with a packet
unfoldable pub add_packet : ℕ → ℕ → ℕ → Motion → Motion
add_packet b0 b1 b2 m =
    if b0 / 8 % 2 == 1
    then record {
      any = true;
      dx = m.dx +ℤ sign_extend b0 16 b1;
      dy = m.dy +ℤ sign_extend b0 32 b2;
      buttons = b0 % 8;
    }
    else m

-- The bytes of a packet, or the ring with those put back that were taken from it.
pub data Fetch : Type 0 where
  short : Ring → Fetch
  packet : ℕ → ℕ → ℕ → Ring → Fetch

-- what happens once the third, the second, the first byte has been asked for
abbrev pub third : ℕ → ℕ → Ring → Option (ℕ × Ring) → Fetch
third b0 b1 r none = short (put_back 2 r)
third b0 b1 r (some (b2, r')) = packet b0 b1 b2 r'

abbrev pub second : ℕ → Ring → Option (ℕ × Ring) → Fetch
second b0 r none = short (put_back 1 r)
second b0 r (some (b1, r')) = third b0 b1 r' (ring_pop r')

abbrev pub first : Ring → Option (ℕ × Ring) → Fetch
first r none = short r
first r (some (b0, r')) = second b0 r' (ring_pop r')

unfoldable pub next_packet : Ring → Fetch
next_packet r = first r (ring_pop r)

-- the loop of `touchpad_poll`; `none` says that the fuel ran out.
unfoldable pub read_packets : ℕ → Ring → Motion → Option (Ring × Motion)
read_packets zero r m = none
read_packets (suc n) r m = elim (next_packet r) [
  | short r' ↦ some (r', m)
  | packet b0 b1 b2 r' ↦ read_packets n r' (add_packet b0 b1 b2 m)
]

-- the accumulated deltas, cut to what an int8_t holds
abbrev pub cut : ℤ → ℤ
cut = clamp (negsuc 127) (pos 127)

-- A new position, cut to [0, 32767]
abbrev pub moved : ℤ → ℤ
moved = clamp_up (pos 0) (pos 32767)

-- What `touchpad_poll` returns: 1 with its three results, or 0.
pub record Event : Type 0 where
  pub dx : ℤ
  pub dy : ℤ
  pub buttons : ℕ

module _ (c : Controller) where
  -- the half of `touchpad_poll` after the loop
  unfoldable pub report : Motion → Ps2 c → Option Event × Ps2 c
  report m p =
      if m.any
      then (
        some (record { dx = cut m.dx; dy = cut m.dy; buttons = m.buttons }),
        record p {
          abs_x = moved (p.abs_x +ℤ times 512 (cut m.dx));
          abs_y = moved (p.abs_y -ℤ times 512 (cut m.dy));
        },
      )
      else (none, p)

  -- `touchpad_poll`, with fuel for its two loops
  unfoldable pub touchpad_poll : ℕ → Ps2 c → Option (Option Event × Ps2 c)
  touchpad_poll fuel p = elim (process_incoming c fuel p) [
    | none ↦ none
    | some p1 ↦ elim (read_packets fuel p1.mouse no_motion) [
      | none ↦ none
      | some (r, m) ↦ some (report m (record p1 { mouse = r }))
    ]
  ]
