-- ===== src/Ps2/Adapter.antt =====
-- drivers/hid/hid.c and drivers/usb/touchpad_adapter.c, which choose where the moves of the cursor come
-- from. Whether there is an xHCI controller is a parameter.
pub mod Choice
use entropy_os.Prelude.{ℕ, Bool, true, false, Option, none, some}
use entropy_os.Ps2.Controller.{Controller, Ps2, touchpad_init}
use entropy_os.Ps2.Touchpad.{Event, touchpad_poll}

-- `g_hid_enabled`, `g_inited`, `g_using_usb`, and the state of the PS/2 driver
pub record Input (c : Controller) : Type 0 where
  pub ps2 : Ps2 c
  pub hid_enabled : Bool
  pub inited : Bool
  pub using_usb : Bool

module _ (c : Controller) (xhci_is_present : Bool) where
  -- `usb_hid_init`; `none` says that the fuel ran out, as in the rest.
  unfoldable pub usb_hid_init : ℕ → Input c → Option (Bool × Input c)
  usb_hid_init fuel i = elim xhci_is_present [
    | false ↦ some (false, i)
    | true ↦ elim (touchpad_init c fuel i.ps2) [
      | none ↦ none
      | some (_, p) ↦ some (true, record i { ps2 = p; hid_enabled = true })
    ]
  ]

  -- the PS/2 half of `usb_touchpad_init`
  unfoldable pub init_ps2 : ℕ → Input c → Option (Bool × Input c)
  init_ps2 fuel i = elim (touchpad_init c fuel i.ps2) [
    | none ↦ none
    | some (true, p) ↦ some (true, record i { ps2 = p; using_usb = false; inited = true })
    | some (false, p) ↦ some (false, record i { ps2 = p; inited = true })
  ]

  -- `usb_touchpad_init`
  unfoldable pub usb_touchpad_init : ℕ → Input c → Option (Bool × Input c)
  usb_touchpad_init fuel i = elim i.inited [
    | true ↦ some (true, i)
    | false ↦ elim xhci_is_present [
      | false ↦ init_ps2 fuel i
      | true ↦ elim (usb_hid_init fuel i) [
        | none ↦ none
        | some (true, i') ↦ some (true, record i' { using_usb = true; inited = true })
        | some (false, i') ↦ init_ps2 fuel i'
      ]
    ]
  ]

module _ (c : Controller) where
  -- `touchpad_poll` as the two files call it
  unfoldable pub poll_ps2 : ℕ → Input c → Option (Option Event × Input c)
  poll_ps2 fuel i = elim (touchpad_poll c fuel i.ps2) [
    | none ↦ none
    | some (e, p) ↦ some (e, record i { ps2 = p })
  ]

  -- `usb_hid_poll`
  unfoldable pub usb_hid_poll : ℕ → Input c → Option (Option Event × Input c)
  usb_hid_poll fuel i = elim i.hid_enabled [ false ↦ some (none, i) | true ↦ poll_ps2 fuel i ]

  -- `usb_touchpad_poll`
  unfoldable pub usb_touchpad_poll : ℕ → Input c → Option (Option Event × Input c)
  usb_touchpad_poll fuel i = elim i.inited [
    | false ↦ some (none, i)
    | true ↦ elim i.using_usb [
      | false ↦ poll_ps2 fuel i
      | true ↦ elim (usb_hid_poll fuel i) [
        | none ↦ none
        | some (some e, i') ↦ some (some e, i')
        | some (none, i') ↦ poll_ps2 fuel i'
      ]
    ]
  ]
