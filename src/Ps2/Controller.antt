-- ===== src/Ps2/Controller.antt =====
-- drivers/ps2/ps2.c and drivers/ps2/ps2_diag.c: the controller's ports, and the bytes that arrive there.
-- The controller is hardware, and its ports are a parameter.
pub mod Incoming
use entropy_os.Prelude.{
  ℤ, pos, ℕ, zero, suc, ◌+◌, ◌*◌, ◌/◌, ◌%◌, ◌≡◌, Bool, true, false, not, Option, none, some, List,
  [], ◌∷◌, ◌==◌, if◌then◌else◌,
}
use entropy_os.Ps2.Ring.{Ring, empty_ring, ring_push}

-- `inb` and `outb`, on the hidden state of the hardware
pub record Controller : Type 1 where
  pub State : Type 0
  pub inb : ℕ → State → ℕ × State
  pub outb : ℕ → ℕ → State → State

abbrev pub data_port : ℕ
data_port = 0x60

-- `KBD_STATUS_PORT`; `KBD_CMD_PORT` is the same one.
abbrev pub status_port : ℕ
status_port = 0x64

-- `PS2_STATUS_OUTPUT_BUFFER`, `PS2_STATUS_INPUT_BUFFER` and `PS2_STATUS_AUX` in a status
abbrev pub has_output : ℕ → Bool
has_output v = v % 2 == 1

abbrev pub has_input : ℕ → Bool
has_input v = v / 2 % 2 == 1

abbrev pub is_aux : ℕ → Bool
is_aux v = v / 32 % 2 == 1

-- The static variables of the file and of ps2_diag.c, and the hardware.
pub record Ps2 (c : Controller) : Type 0 where
  pub hw : c.State
  pub mouse : Ring
  pub kbd : Ring
  pub packet_idx : ℕ
  pub abs_x : ℤ
  pub abs_y : ℤ
  pub mouse_bytes : ℕ
  pub kbd_bytes : ℕ

-- the configuration with the interrupt on, and the mouse not disabled
abbrev pub with_mouse : ℕ → ℕ
with_mouse cfg = cfg / 64 * 64 + cfg % 32 / 4 * 4 + 2 + cfg % 2

module _ (c : Controller) where
  -- the state at the start
  abbrev pub start : c.State → Ps2 c
  start hw = record {
    hw = hw;
    mouse = empty_ring;
    kbd = empty_ring;
    packet_idx = 0;
    abs_x = pos 16384;
    abs_y = pos 16384;
    mouse_bytes = 0;
    kbd_bytes = 0;
  }

  -- `ps2_wait_input`; `none` says that the fuel ran out.
  unfoldable pub wait_input : ℕ → c.State → Option c.State
  wait_input zero hw = none
  wait_input (suc n) hw =
      let (v, hw') = c.inb status_port hw in
      elim (has_input v) [ true ↦ wait_input n hw' | false ↦ some hw' ]

  -- `ps2_wait_output`
  unfoldable pub wait_output : ℕ → c.State → Bool × c.State
  wait_output zero hw = (false, hw)
  wait_output (suc timeout) hw =
      let (v, hw') = c.inb status_port hw in
      elim (has_output v) [ true ↦ (true, hw') | false ↦ wait_output timeout hw' ]

  -- a byte that came from the mouse or the keyboard, with the counter of ps2_diag.c
  unfoldable pub demux : Bool → ℕ → Ps2 c → Ps2 c
  demux true byte p = record p { mouse = ring_push byte p.mouse; mouse_bytes = p.mouse_bytes + 1 }
  demux false byte p = record p { kbd = ring_push byte p.kbd; kbd_bytes = p.kbd_bytes + 1 }

  -- `ps2_process_incoming`; `none` says that the fuel ran out.
  unfoldable pub process_incoming : ℕ → Ps2 c → Option (Ps2 c)
  process_incoming zero p = none
  process_incoming (suc n) p =
      let (ready, hw1) = c.inb status_port p.hw in
      elim (has_output ready) [
        | false ↦ some (record p { hw = hw1 })
        | true ↦
            let (status, hw2) = c.inb status_port hw1 in
            elim (has_output status) [
              | false ↦ some (record p { hw = hw2 })
              | true ↦
                  let (byte, hw3) = c.inb data_port hw2 in
                  process_incoming n (demux (is_aux status) byte (record p { hw = hw3 }))
            ]
      ]

  -- `ps2_get_and_clear_counters` with two addresses
  unfoldable pub get_and_clear_counters : Ps2 c → ℕ × ℕ × Ps2 c
  get_and_clear_counters p =
      (p.mouse_bytes, p.kbd_bytes, record p { mouse_bytes = 0; kbd_bytes = 0 })

  -- A command is written once the input buffer is clear.
  unfoldable pub send : ℕ → ℕ → ℕ → c.State → Option c.State
  send fuel port v hw = elim (wait_input fuel hw) [
    | none ↦ none
    | some hw' ↦ some (c.outb port v hw')
  ]

  -- A byte for the mouse, and its answer, which is not looked at.
  unfoldable pub send_mouse : ℕ → ℕ → c.State → Option c.State
  send_mouse fuel v hw = elim (send fuel status_port 0xD4 hw) [
    | none ↦ none
    | some hw1 ↦ elim (send fuel data_port v hw1) [
      | none ↦ none
      | some hw2 ↦ some (c.inb data_port (wait_output 100000 hw2).1).1
    ]
  ]

  -- the last half of `ps2_touchpad_init`
  unfoldable pub configure : ℕ → ℕ → Ps2 c → c.State → Option (Bool × Ps2 c)
  configure fuel cfg p hw = elim (send fuel status_port 0x60 hw) [
    | none ↦ none
    | some hw1 ↦ elim (send fuel data_port (with_mouse cfg) hw1) [
      | none ↦ none
      | some hw2 ↦ elim (send_mouse fuel 0xF6 hw2) [
        | none ↦ none
        | some hw3 ↦ elim (send_mouse fuel 0xF4 hw3) [
          | none ↦ none
          | some hw4 ↦ some (true, record p { hw = hw4; packet_idx = 0 })
        ]
      ]
    ]
  ]

  unfoldable pub read_config : ℕ → Ps2 c → c.State → Option (Bool × Ps2 c)
  read_config fuel p hw =
      let (ok, hw1) = wait_output 100000 hw in
      elim ok [
        | false ↦ some (false, record p { hw = hw1 })
        | true ↦ let (cfg, hw2) = c.inb data_port hw1 in configure fuel cfg p hw2
      ]

  -- `ps2_touchpad_init`; `none` says that the fuel ran out.
  unfoldable pub touchpad_init : ℕ → Ps2 c → Option (Bool × Ps2 c)
  touchpad_init fuel p = elim (send fuel status_port 0xA8 p.hw) [
    | none ↦ none
    | some hw1 ↦ elim (send fuel status_port 0x20 hw1) [
      | none ↦ none
      | some hw2 ↦ read_config fuel p hw2
    ]
  ]
