-- ===== src/Ps2/Stream.antt =====
-- drivers/touchpad.c: the other `touchpad_poll`, which makes packets as it reads the port.
pub mod Packet
use entropy_os.Prelude.{
  ◌-ℤ◌, times, ℤ, ℕ, zero, suc, ◌+◌, ◌*◌, ◌/◌, ◌%◌, Bool, true, false, not, ◌&&◌, Option, none,
  some, List, [], ◌∷◌, ◌==◌, ltb, set, get_or, if◌then◌else◌,
}
use entropy_os.Ps2.Controller.{
  Controller, data_port, status_port, has_output, with_mouse, send, send_mouse, wait_output,
}
use entropy_os.Ps2.Touchpad.{Motion, Event, no_motion, sign_extend, cut, moved}
use entropy_os.Prelude.{above, below, ◌+ℤ◌}

-- `packet` and `packet_idx`
pub record Assembly : Type 0 where
  pub packet : List ℕ
  pub packet_idx : ℕ

-- what the loop does with a byte
unfoldable pub take_byte : ℕ → Assembly × Motion → Assembly × Motion
take_byte b (a, m) =
    if (a.packet_idx == 0) && not (b / 8 % 2 == 1)
    then (a, m)
    else (let stored = set a.packet a.packet_idx b in
        if ltb (a.packet_idx + 1) 3
        then (record { packet = stored; packet_idx = a.packet_idx + 1 }, m)
        else (
          record { packet = stored; packet_idx = 0 },
          record {
            any = true;
            dx = m.dx +ℤ sign_extend (get_or stored 0 0) 16 (get_or stored 1 0);
            dy = m.dy +ℤ sign_extend (get_or stored 0 0) 32 (get_or stored 2 0);
            buttons = get_or stored 0 0 % 8;
          },
        ))

-- the static variables of the file, and the hardware
pub record Stream (c : Controller) : Type 0 where
  pub hw : c.State
  pub assembly : Assembly
  pub abs_x : ℤ
  pub abs_y : ℤ

module _ (c : Controller) where
  -- the loop of `touchpad_poll`; `none` says that the fuel ran out.
  unfoldable pub read_bytes : ℕ → c.State → Assembly × Motion → Option (c.State × Assembly × Motion)
  read_bytes zero hw am = none
  read_bytes (suc n) hw am =
      let (status, hw1) = c.inb status_port hw in
      elim (has_output status) [
        | false ↦ some (hw1, am.0, am.1)
        | true ↦ let (b, hw2) = c.inb data_port hw1 in read_bytes n hw2 (take_byte b am)
      ]

  unfoldable pub stream_report : Motion → Stream c → Option Event × Stream c
  stream_report m s =
      if m.any
      then (
        some (record { dx = cut m.dx; dy = cut m.dy; buttons = m.buttons }),
        record s {
          abs_x = moved (s.abs_x +ℤ times 512 (cut m.dx));
          abs_y = moved (s.abs_y -ℤ times 512 (cut m.dy));
        },
      )
      else (none, s)

  -- `touchpad_poll`
  unfoldable pub stream_poll : ℕ → Stream c → Option (Option Event × Stream c)
  stream_poll fuel s = elim (read_bytes fuel s.hw (s.assembly, no_motion)) [
    | none ↦ none
    | some (hw, a, m) ↦ some (stream_report m (record s { hw = hw; assembly = a }))
  ]

  unfoldable pub stream_configure : ℕ → ℕ → Stream c → c.State → Option (Bool × Stream c)
  stream_configure fuel cfg s hw = elim (send c fuel status_port 0x60 hw) [
    | none ↦ none
    | some hw1 ↦ elim (send c fuel data_port (with_mouse cfg) hw1) [
      | none ↦ none
      | some hw2 ↦ elim (send_mouse c fuel 0xF6 hw2) [
        | none ↦ none
        | some hw3 ↦ elim (send_mouse c fuel 0xF4 hw3) [
          | none ↦ none
          | some hw4 ↦
              some (true, record s { hw = hw4; assembly = record s.assembly { packet_idx = 0 } })
        ]
      ]
    ]
  ]

  -- `touchpad_init`; `none` says that the fuel ran out.
  unfoldable pub stream_init : ℕ → Stream c → Option (Bool × Stream c)
  stream_init fuel s = elim (send c fuel status_port 0xA8 s.hw) [
    | none ↦ none
    | some hw1 ↦ elim (send c fuel status_port 0x20 hw1) [
      | none ↦ none
      | some hw2 ↦
          let (ok, hw3) = wait_output c 100000 hw2 in
          elim ok [
            | false ↦ some (false, record s { hw = hw3 })
            | true ↦ let (cfg, hw4) = c.inb data_port hw3 in stream_configure fuel cfg s hw4
          ]
    ]
  ]
