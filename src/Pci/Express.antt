-- ===== src/Pci/Express.antt =====
-- drivers/pcie/pcie.c: the table of the devices that a scan of eight buses finds.
pub mod Shown
pub mod Table
pub mod Scan
use entropy_os.Prelude.{
  ℕ, zero, suc, ◌+◌, ◌*◌, ◌/◌, ◌%◌, ◌^◌, Bool, true, false, not, ◌&&◌, Option, none, some, List, [],
  ◌∷◌, ◌++◌, length, get_elem?, ◌==◌, ltb, leb, if◌then◌else◌,
}
use entropy_os.Pci.{Ports, absent, config_read32, get_bar}

-- `struct pcie_device`
pub record Device : Type 0 where
  pub bus : ℕ
  pub slot : ℕ
  pub func : ℕ
  pub vendor_id : ℕ
  pub device_id : ℕ
  pub class_code : ℕ
  pub subclass : ℕ
  pub prog_if : ℕ
  pub header_type : ℕ
  pub bar : List ℕ
  pub pcie_cap_offset : ℕ
  pub pcie_cap : List ℕ

-- `PCIE_MAX_DEVICES`
abbrev pub max_devices : ℕ
max_devices = 64

-- `g_devices`, as far as `g_device_count` says
abbrev pub Devices : Type 0
Devices = List Device

module _ (p : Ports) where
  -- the loop over the BARs, with the rounds left
  unfoldable pub read_bars : ℕ → ℕ → ℕ → ℕ → ℕ → p.State → List ℕ × p.State
  read_bars zero bus slot func i s = ([], s)
  read_bars (suc n) bus slot func i s =
      let (v, s1) = get_bar p bus slot func i s in
      let (vs, s2) = read_bars n bus slot func (i + 1) s1 in (v ∷ vs, s2)

  -- the loop over the words of the capability; `offset` is a byte in the code.
  unfoldable pub read_words : ℕ → ℕ → ℕ → ℕ → ℕ → p.State → List ℕ × p.State
  read_words zero bus slot func off s = ([], s)
  read_words (suc n) bus slot func off s =
      let (v, s1) = config_read32 p bus slot func (off % 256) s in
      let (vs, s2) = read_words n bus slot func (off + 4) s1 in (v ∷ vs, s2)

  -- the walk to the capability of PCI Express: its offset and its words, or zeros; the outer `none` says
  -- that the fuel ran out.
  unfoldable pub find_capability : ℕ → ℕ → ℕ → ℕ → ℕ → p.State → Option ((ℕ × List ℕ) × p.State)
  find_capability zero bus slot func cap_ptr s = none
  find_capability (suc n) bus slot func cap_ptr s = elim (cap_ptr == 0) [
    | true ↦ some ((0, 0 ∷ 0 ∷ 0 ∷ 0 ∷ []), s)
    | false ↦
        let (cap, s1) = config_read32 p bus slot func (cap_ptr / 4 * 4) s in
        elim (cap % 256 == 0x10) [
          | true ↦
              let (words, s2) = read_words 4 bus slot func (cap_ptr / 4 * 4) s1 in
              some ((cap_ptr, words), s2)
          | false ↦ find_capability n bus slot func (cap / 256 % 256) s1
        ]
  ]

  -- the entry of a device whose first and third words are given
  unfoldable pub add_device : ℕ → ℕ → ℕ → ℕ → ℕ → ℕ → Devices → p.State → Option (Devices × p.State)
  add_device fuel bus slot func d0 d2 ds s =
      let (hdr, s1) = config_read32 p bus slot func 0x0C s in
      let (bars, s2) = read_bars 6 bus slot func 0 s1 in
      let (word, s3) = config_read32 p bus slot func 0x34 s2 in
      elim (find_capability fuel bus slot func (word % 256) s3) [
        | none ↦ none
        | some (cap, s4) ↦ some (
          ds
              ++ (record {
                bus = bus;
                slot = slot;
                func = func;
                vendor_id = d0 % 2 ^ 16;
                device_id = d0 / 2 ^ 16 % 2 ^ 16;
                class_code = d2 / 2 ^ 24 % 256;
                subclass = d2 / 2 ^ 16 % 256;
                prog_if = d2 / 2 ^ 8 % 256;
                header_type = hdr / 2 ^ 16 % 256;
                bar = bars;
                pcie_cap_offset = cap.0;
                pcie_cap = cap.1;
              }
                  ∷ []),
          s4,
        )
      ]

  -- a round of the innermost loop of `pcie_init`
  unfoldable pub probe : ℕ → ℕ → ℕ → ℕ → Devices → p.State → Option (Devices × p.State)
  probe fuel bus slot func ds s =
      let (d0, s1) = config_read32 p bus slot func 0 s in
      elim (d0 == absent) [
        | true ↦ some (ds, s1)
        | false ↦
            let (d2, s2) = config_read32 p bus slot func 8 s1 in
            elim (leb max_devices (length ds)) [
              | true ↦ some (ds, s2)
              | false ↦ add_device fuel bus slot func d0 d2 ds s2
            ]
      ]

  unfoldable pub scan_func : ℕ → ℕ → ℕ → ℕ → ℕ → Devices → p.State → Option (Devices × p.State)
  scan_func fuel zero bus slot func ds s = some (ds, s)
  scan_func fuel (suc n) bus slot func ds s = elim (probe fuel bus slot func ds s) [
    | none ↦ none
    | some (ds', s') ↦ scan_func fuel n bus slot (func + 1) ds' s'
  ]

  unfoldable pub scan_slot : ℕ → ℕ → ℕ → ℕ → Devices → p.State → Option (Devices × p.State)
  scan_slot fuel zero bus slot ds s = some (ds, s)
  scan_slot fuel (suc n) bus slot ds s = elim (scan_func fuel 8 bus slot 0 ds s) [
    | none ↦ none
    | some (ds', s') ↦ scan_slot fuel n bus (slot + 1) ds' s'
  ]

  unfoldable pub scan_bus : ℕ → ℕ → ℕ → Devices → p.State → Option (Devices × p.State)
  scan_bus fuel zero bus ds s = some (ds, s)
  scan_bus fuel (suc n) bus ds s = elim (scan_slot fuel 32 bus 0 ds s) [
    | none ↦ none
    | some (ds', s') ↦ scan_bus fuel n (bus + 1) ds' s'
  ]

  -- `pcie_init`; `true` is the result 0, and `none` says that the fuel ran out.
  unfoldable pub init : ℕ → p.State → Option (Bool × Devices × p.State)
  init fuel s = elim (scan_bus fuel 8 0 [] s) [
    | none ↦ none
    | some (ds, s') ↦ some (ltb 0 (length ds), ds, s')
  ]

-- `pcie_is_present`
unfoldable pub is_present : Devices → Bool
is_present ds = ltb 0 (length ds)

-- `pcie_get_device` of an index that is not negative; `none` is the result -1.
unfoldable pub get_device : ℕ → Devices → Option Device
get_device idx ds = get_elem? ds idx

-- `pcie_find_device_by_class`; `none` is the result 0.
unfoldable pub find_in : ℕ → ℕ → ℕ → Devices → Option (ℕ × ℕ × ℕ)
find_in class_code subclass prog_if [] = none
find_in class_code subclass prog_if (d ∷ ds) =
    if (d.class_code == class_code) && ((d.subclass == subclass) && (d.prog_if == prog_if))
    then some (d.bus, d.slot, d.func)
    else find_in class_code subclass prog_if ds
