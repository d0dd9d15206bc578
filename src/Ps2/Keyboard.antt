-- ===== src/Ps2/Keyboard.antt =====
-- drivers/ps2/ps2.c: `ps2_keyboard_poll`; drivers/hid/keyboard.c: the last scancode, which the screens pull;
-- drivers/ps2/keyboard_ps2.c: the poll that reads the ports itself.
pub mod Codes
pub mod Direct
use entropy_os.Prelude.{
  ℕ, zero, suc, ◌/◌, ◌%◌, ◌*◌, Bool, true, false, ◌||◌, Option, none, some, ◌==◌, if◌then◌else◌,
}
use entropy_os.Ps2.Ring.{Ring, ring_pop}
use entropy_os.Ps2.Controller.{
  Controller, Ps2, process_incoming, data_port, status_port, has_output,
}

-- What both polls pass over: the prefix 0xE0, a break code, the answer 0xFA.
abbrev pub is_skipped : ℕ → Bool
is_skipped b = (b == 0xE0) || ((b / 128 % 2 == 1) || (b == 0xFA))

-- the loop of `ps2_keyboard_poll`; the outer `none` says that the fuel ran out.
unfoldable pub next_code : ℕ → Ring → Option (Option ℕ × Ring)
next_code zero r = none
next_code (suc n) r = elim (ring_pop r) [
  | none ↦ some (none, r)
  | some (b, r') ↦
      let rest = next_code n r' in if is_skipped b then rest else some (some (b % 128), r')
]

-- a keyboard's `g_last_scancode` beside the controller; 0 is none.
pub record Keyboard (c : Controller) : Type 0 where
  pub ps2 : Ps2 c
  pub last_scancode : ℕ
  pub poll_ctr : ℕ

module _ (c : Controller) where
  -- `ps2_keyboard_poll` of ps2.c
  unfoldable pub ps2_keyboard_poll : ℕ → Ps2 c → Option (Option ℕ × Ps2 c)
  ps2_keyboard_poll fuel p = elim (process_incoming c fuel p) [
    | none ↦ none
    | some p1 ↦ elim (next_code fuel p1.kbd) [
      | none ↦ none
      | some (code, r) ↦ some (code, record p1 { kbd = r })
    ]
  ]

  -- `ps2_keyboard_poll` of keyboard_ps2.c, on the ports alone
  unfoldable pub direct_poll : ℕ → c.State → Option (Option ℕ × c.State)
  direct_poll zero hw = none
  direct_poll (suc n) hw =
      let (status, hw1) = c.inb status_port hw in
      elim (has_output status) [
        | false ↦ some (none, hw1)
        | true ↦
            let (b, hw2) = c.inb data_port hw1 in
            let rest = direct_poll n hw2 in
            if is_skipped b then rest else some (some (b % 128), hw2)
      ]

  -- `keyboard_task`: every 200th poll with no key reads the status, for the log.
  unfoldable pub keyboard_task : ℕ → Keyboard c → Option (Keyboard c)
  keyboard_task fuel k = elim (ps2_keyboard_poll fuel k.ps2) [
    | none ↦ none
    | some (some code, p) ↦ some (record { ps2 = p; last_scancode = code; poll_ctr = 0 })
    | some (none, p) ↦
        let ctr = suc k.poll_ctr in
        some (record {
          ps2 = if ctr % 200 == 0 then record p { hw = (c.inb status_port p.hw).1 } else p;
          last_scancode = k.last_scancode;
          poll_ctr = ctr;
        })
  ]

  -- `keyboard_get_scancode_and_clear` with an address
  unfoldable pub get_scancode_and_clear : Keyboard c → Option ℕ × Keyboard c
  get_scancode_and_clear k =
      (if k.last_scancode == 0 then none else some k.last_scancode, record k { last_scancode = 0 })
