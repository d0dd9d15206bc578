-- ===== src/Pci.antt =====
-- drivers/pci/pci.c: the configuration space, searched for a device and for its capabilities. The two
-- ports are a parameter.
pub mod Express
pub mod Search
pub mod Capabilities
mod Tests
use entropy_os.Prelude.{
  ℕ, zero, suc, ◌+◌, ◌-◌, ◌*◌, ◌/◌, ◌%◌, ◌^◌, Bool, true, false, ◌&&◌, ◌||◌, Option, none, some,
  ◌==◌, ltb, if◌then◌else◌,
}

-- `outl` and `inl`, on the hidden state of the hardware
pub record Ports : Type 1 where
  pub State : Type 0
  pub outl : ℕ → ℕ → State → State
  pub inl : ℕ → State → ℕ × State

-- `PCI_CONFIG_ADDR` and `PCI_CONFIG_DATA`
abbrev pub address_port : ℕ
address_port = 0xCF8

abbrev pub data_port : ℕ
data_port = 0xCFC

-- The address of a register, for bytes of which the slot is below 32 and the function below 8: then
-- no two fields share a bit.
unfoldable pub config_address : ℕ → ℕ → ℕ → ℕ → ℕ
config_address bus slot func offset =
    2 ^ 31 + bus * 2 ^ 16 + slot * 2 ^ 11 + func * 2 ^ 8 + offset / 4 * 4

-- the value of an absent device, 0xFFFFFFFF
abbrev pub absent : ℕ
absent = 2 ^ 32 - 1

-- the test of `pci_find_device_by_class`
unfoldable pub has_class : ℕ → ℕ → ℕ → ℕ → Bool
has_class class_code subclass prog_if d2 =
    (d2 / 2 ^ 24 % 256 == class_code)
    && ((d2 / 2 ^ 16 % 256 == subclass) && (d2 / 2 ^ 8 % 256 == prog_if))

module _ (p : Ports) where
  -- `pci_config_read32`
  unfoldable pub config_read32 : ℕ → ℕ → ℕ → ℕ → p.State → ℕ × p.State
  config_read32 bus slot func offset s =
      p.inl data_port (p.outl address_port (config_address bus slot func offset) s)

  -- `pci_config_write32`
  unfoldable pub config_write32 : ℕ → ℕ → ℕ → ℕ → ℕ → p.State → p.State
  config_write32 bus slot func offset value s =
      p.outl data_port value (p.outl address_port (config_address bus slot func offset) s)

  -- the innermost loop of `pci_find_device_by_class`, with its number of rounds left
  unfoldable pub find_func : ℕ × ℕ × ℕ → ℕ → ℕ → ℕ → ℕ → p.State → Option (ℕ × ℕ × ℕ) × p.State
  find_func q zero bus slot func s = (none, s)
  find_func q (suc n) bus slot func s =
      let (d0, s1) = config_read32 bus slot func 0 s in
      elim (d0 == absent) [
        | true ↦ find_func q n bus slot (func + 1) s1
        | false ↦
            let (d2, s2) = config_read32 bus slot func 8 s1 in
            elim (has_class q.0 q.1 q.2 d2) [
              | true ↦ (some (bus, slot, func), s2)
              | false ↦ find_func q n bus slot (func + 1) s2
            ]
      ]

  unfoldable pub find_slot : ℕ × ℕ × ℕ → ℕ → ℕ → ℕ → p.State → Option (ℕ × ℕ × ℕ) × p.State
  find_slot q zero bus slot s = (none, s)
  find_slot q (suc n) bus slot s =
      let (r, s1) = find_func q 8 bus slot 0 s in
      elim r [ some x ↦ (some x, s1) | none ↦ find_slot q n bus (slot + 1) s1 ]

  unfoldable pub find_bus : ℕ × ℕ × ℕ → ℕ → ℕ → p.State → Option (ℕ × ℕ × ℕ) × p.State
  find_bus q zero bus s = (none, s)
  find_bus q (suc n) bus s =
      let (r, s1) = find_slot q 32 bus 0 s in
      elim r [ some x ↦ (some x, s1) | none ↦ find_bus q n (bus + 1) s1 ]

  -- `pci_find_device_by_class`; `none` is the result 0.
  unfoldable pub find_device_by_class : ℕ → ℕ → ℕ → p.State → Option (ℕ × ℕ × ℕ) × p.State
  find_device_by_class class_code subclass prog_if s =
      find_bus (class_code, subclass, prog_if) 256 0 s

  -- what `pci_get_bar` makes of the low half
  unfoldable pub bar_of : ℕ → ℕ → ℕ → ℕ → ℕ → p.State → ℕ × p.State
  bar_of bus slot func off low s =
      if (low == 0) || (low == absent)
      then (0, s)
      else if low % 2 == 1
      then (low / 4 * 4, s)
      else if low / 2 % 4 == 2
      then (let (high, s1) = config_read32 bus slot func (off + 4) s in
          (high * 2 ^ 32 + low / 16 * 16, s1))
      else (low / 16 * 16, s)

  -- `pci_get_bar` of an index that is not negative
  unfoldable pub get_bar : ℕ → ℕ → ℕ → ℕ → p.State → ℕ × p.State
  get_bar bus slot func index s =
      if ltb 5 index
      then (0, s)
      else (let (low, s1) = config_read32 bus slot func (0x10 + index * 4) s in
          bar_of bus slot func (0x10 + index * 4) low s1)

  -- the loop of `pci_device_has_pcie`; `none` says that the fuel ran out.
  unfoldable pub walk : ℕ → ℕ → ℕ → ℕ → ℕ → p.State → Option (Bool × p.State)
  walk zero bus slot func cap_ptr s = none
  walk (suc n) bus slot func cap_ptr s = elim (cap_ptr == 0) [
    | true ↦ some (false, s)
    | false ↦
        let (cap, s1) = config_read32 bus slot func (cap_ptr / 4 * 4) s in
        elim (cap % 256 == 0x10) [
          | true ↦ some (true, s1)
          | false ↦ walk n bus slot func (cap / 256 % 256) s1
        ]
  ]

  -- `pci_device_has_pcie`
  unfoldable pub device_has_pcie : ℕ → ℕ → ℕ → ℕ → p.State → Option (Bool × p.State)
  device_has_pcie fuel bus slot func s =
      let (d1, s1) = config_read32 bus slot func 4 s in
      elim (d1 / 2 ^ 16 % 2 ^ 16 / 16 % 2 == 1) [
        | false ↦ some (false, s1)
        | true ↦
            let (word, s2) = config_read32 bus slot func 0x34 s1 in
            walk fuel bus slot func (word % 256) s2
      ]
