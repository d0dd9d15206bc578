-- ===== src/Pci/Express/Scan.antt =====
-- The scan of drivers/pcie/pcie.c as a whole, and the search of its table.
use entropy_os.Prelude.{
  ℕ, zero, suc, ◌+◌, ◌≤◌, ◌<◌, ◌≡◌, ◌∙◌, refl, ap, Bool, true, Option, none, some, [], length, ltb,
  arith,
}
use entropy_os.Pci.{Ports}
use entropy_os.Pci.Search.{IsConfig, is_device}
use entropy_os.Pci.Express.{Devices, probe, scan_func, scan_slot, scan_bus, init, find_in}
use entropy_os.Pci.Express.Shown.{AllShown, find_in-is_device}
use entropy_os.Pci.Express.Table.{Ends, Filled, probe-Filled}

module _ {p : Ports} (law : IsConfig p) (regs : ℕ → ℕ) where
  abbrev and_then :
      (Devices → p.State → Option (Devices × p.State))
      → Option (Devices × p.State)
      → Option (Devices × p.State)
  and_then rest o = elim o [ none ↦ none | some (ds, s) ↦ rest ds s ]

  -- what is known of the rest of a loop
  abbrev Continues : (Devices → p.State → Option (Devices × p.State)) → Type 0
  Continues rest =
      (ds : Devices) (s : p.State)
      → law.register s ≡ regs
      → length ds ≤ 64
      → AllShown regs ds
      → Filled law regs (rest ds s)

  and_then-Filled :
      (rest : Devices → p.State → Option (Devices × p.State)) (o : Option (Devices × p.State))
      → Filled law regs o
      → Continues rest
      → Filled law regs (and_then rest o)
  and_then-Filled rest o f k =
      let r = k f.devices f.after f.kept f.room f.shown in
      record {
        devices = r.devices;
        after = r.after;
        result = ap (and_then rest) f.result ∙ r.result;
        kept = r.kept;
        room = r.room;
        shown = r.shown;
      }

  scan_func-Filled :
      (fuel n bus slot func : ℕ)
      → Ends law regs fuel
      → slot < 32
      → func + n ≤ 8
      → Continues (scan_func p fuel n bus slot func)
  unfolding scan_func
  scan_func-Filled fuel zero bus slot func ends hs hf ds s e room h = record {
    devices = ds;
    after = s;
    result = refl;
    kept = e;
    room = room;
    shown = h;
  }
  scan_func-Filled fuel (suc n) bus slot func ends hs hf ds s e room h =
      and_then-Filled (scan_func p fuel n bus slot (func + 1)) (probe p fuel bus slot func ds s)
        (probe-Filled law regs fuel bus slot func ds s ends hs (omega (arith, hf)) e room h)
        (scan_func-Filled fuel n bus slot (func + 1) ends hs (omega (arith, hf)))

  scan_slot-Filled :
      (fuel n bus slot : ℕ)
      → Ends law regs fuel
      → slot + n ≤ 32
      → Continues (scan_slot p fuel n bus slot)
  unfolding scan_slot
  scan_slot-Filled fuel zero bus slot ends hs ds s e room h = record {
    devices = ds;
    after = s;
    result = refl;
    kept = e;
    room = room;
    shown = h;
  }
  scan_slot-Filled fuel (suc n) bus slot ends hs ds s e room h =
      and_then-Filled (scan_slot p fuel n bus (slot + 1)) (scan_func p fuel 8 bus slot 0 ds s)
        (scan_func-Filled fuel 8 bus slot 0 ends (omega (arith, hs)) (omega arith) ds s e room h)
        (scan_slot-Filled fuel n bus (slot + 1) ends (omega (arith, hs)))

  scan_bus-Filled : (fuel n bus : ℕ) → Ends law regs fuel → Continues (scan_bus p fuel n bus)
  unfolding scan_bus
  scan_bus-Filled fuel zero bus ends ds s e room h = record {
    devices = ds;
    after = s;
    result = refl;
    kept = e;
    room = room;
    shown = h;
  }
  scan_bus-Filled fuel (suc n) bus ends ds s e room h =
      and_then-Filled (scan_bus p fuel n (bus + 1)) (scan_slot p fuel 32 bus 0 ds s)
        (scan_slot-Filled fuel 32 bus 0 ends (omega arith) ds s e room h)
        (scan_bus-Filled fuel n (bus + 1) ends)

  -- The outcome of `pcie_init`.
  pub record Inited (out : Option (Bool × Devices × p.State)) : Type 0 where
    pub devices : Devices
    pub after : p.State
    pub result : out ≡ some (ltb 0 (length devices), devices, after)
    pub kept : law.register after ≡ regs
    pub room : length devices ≤ 64
    pub finds :
        (class_code subclass prog_if : ℕ) (x : ℕ × ℕ × ℕ)
        → find_in class_code subclass prog_if devices ≡ some x
        → is_device (class_code, subclass, prog_if) regs x.0 x.1 x.2 ≡ true

-- On ports as documented, and when the list of capabilities of each device that the registers show
-- ends and the fuel is more than it is long, `pcie_init` ends with a table of at most 64 devices and
-- changes no register; what `pcie_find_device_by_class` then finds is a place at which the registers
-- show a device of the class.
pub init-Inited :
    {p : Ports} (law : IsConfig p) (fuel : ℕ) (s : p.State)
    → Ends law (law.register s) fuel
    → Inited law (law.register s) (init p fuel s)
unfolding init
init-Inited {p} law fuel s ends =
    let f = scan_bus-Filled law (law.register s) fuel 8 0 ends [] s refl (omega arith) tt in
    record {
      devices = f.devices;
      after = f.after;
      result =
          ap
            (λ (o : Option (Devices × p.State)).
              elim o as (λ x. Option (Bool × Devices × p.State)) [
                | none ↦ none
                | some (ds, s') ↦ some (ltb 0 (length ds), ds, s')
              ])
            f.result;
      kept = f.kept;
      room = f.room;
      finds = λ c u i x e. find_in-is_device (law.register s) c u i f.devices x f.shown e;
    }
