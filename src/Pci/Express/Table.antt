-- ===== src/Pci/Express/Table.antt =====
-- What the table of drivers/pcie/pcie.c holds once `pcie_init` has filled it.
use entropy_os.Prelude.{
  ℕ, zero, suc, ◌+◌, ◌*◌, ◌/◌, ◌%◌, ◌^◌, ◌≤◌, ◌<◌, ◌≡◌, ◌≢◌, refl, ap, subst, sym, ◌∙◌, inl, inr,
  Bool, true, false, ◌||◌, Bool-cases, Option, none, some, List, [], ◌∷◌, ◌++◌, length,
  length-append, ◌==◌, ==_false, ltb, leb, if-elim, arith,
}
use entropy_os.Pci.{Ports, config_address, absent, config_read32, get_bar, bar_of}
use entropy_os.Pci.Express.Shown.{AllShown, AllShown-append}
use entropy_os.Pci.Search.{IsConfig}
use entropy_os.Pci.Capabilities.{Chain, first_pointer}
use entropy_os.Pci.Express.{
  Device, Devices, max_devices, read_bars, read_words, find_capability, add_device, probe,
}

module _ {p : Ports} (law : IsConfig p) (regs : ℕ → ℕ) where
  read_keeps :
      (bus slot func off : ℕ) (s : p.State)
      → law.register s ≡ regs
      → law.register (config_read32 p bus slot func off s).1 ≡ regs
  unfolding config_read32
  read_keeps bus slot func off s e = law.keeps s (config_address bus slot func off) ∙ e

  read_shows :
      (bus slot func off : ℕ) (s : p.State)
      → law.register s ≡ regs
      → (config_read32 p bus slot func off s).0 ≡ regs (config_address bus slot func off)
  unfolding config_read32
  read_shows bus slot func off s e =
      law.shows s (config_address bus slot func off)
      ∙ ap (λ (g : ℕ → ℕ). g (config_address bus slot func off)) e

  get_bar_keeps :
      (bus slot func i : ℕ) (s : p.State)
      → law.register s ≡ regs
      → law.register (get_bar p bus slot func i s).1 ≡ regs
  unfolding get_bar bar_of
  get_bar_keeps bus slot func i s e =
      let (low, s1) = config_read32 p bus slot func (0x10 + i * 4) s in
      let k = read_keeps bus slot func (0x10 + i * 4) s e in
      if-elim Kept (ltb 5 i) (λ _. e)
        (λ _.
          if-elim Kept ((low == 0) || (low == absent)) (λ _. k)
            (λ _.
              if-elim Kept (low % 2 == 1) (λ _. k)
                (λ _.
                  if-elim Kept (low / 2 % 4 == 2)
                    (λ _. read_keeps bus slot func (0x10 + i * 4 + 4) s1 k) (λ _. k))))
    where
      Kept : ℕ × p.State → Type 0
      Kept r = law.register r.1 ≡ regs

  read_bars_keeps :
      (n bus slot func i : ℕ) (s : p.State)
      → law.register s ≡ regs
      → law.register (read_bars p n bus slot func i s).1 ≡ regs
  unfolding read_bars
  read_bars_keeps zero bus slot func i s e = e
  read_bars_keeps (suc n) bus slot func i s e =
      read_bars_keeps n bus slot func (i + 1) (get_bar p bus slot func i s).1
        (get_bar_keeps bus slot func i s e)

  read_words_keeps :
      (n bus slot func off : ℕ) (s : p.State)
      → law.register s ≡ regs
      → law.register (read_words p n bus slot func off s).1 ≡ regs
  unfolding read_words
  read_words_keeps zero bus slot func off s e = e
  read_words_keeps (suc n) bus slot func off s e =
      read_words_keeps n bus slot func (off + 4) (config_read32 p bus slot func (off % 256) s).1
        (read_keeps bus slot func (off % 256) s e)

  -- A result with the registers as they were.
  pub record Ended {A : Type 0} (out : Option (A × p.State)) : Type 0 where
    pub value : A
    pub after : p.State
    pub result : out ≡ some (value, after)
    pub kept : law.register after ≡ regs

  either :
      {A : Type 0} (b : Bool) (x y : Option (A × p.State))
      → Ended x
      → Ended y
      → Ended (elim b [ true ↦ x | false ↦ y ])
  either true x y h k = h
  either false x y h k = k

  find_capability-Ended :
      (n bus slot func ptr : ℕ) (ptrs : List ℕ) (s : p.State)
      → length ptrs < n
      → Chain regs bus slot func ptr ptrs
      → law.register s ≡ regs
      → Ended (find_capability p n bus slot func ptr s)
  unfolding find_capability
  find_capability-Ended zero bus slot func ptr ptrs s fuel ch e = absurd (omega (arith, fuel))
  find_capability-Ended (suc n) bus slot func _ _ s fuel Chain.last e = record {
    value = (0, 0 ∷ 0 ∷ 0 ∷ 0 ∷ []);
    after = s;
    result = refl;
    kept = e;
  }
  find_capability-Ended (suc n) bus slot func _ _ s fuel (Chain.link ptr ptrs some_ptr ch) e =
      let r = config_read32 p bus slot func (ptr / 4 * 4) s in
      let k = read_keeps bus slot func (ptr / 4 * 4) s e in
      let v = read_shows bus slot func (ptr / 4 * 4) s e in
      let w = read_words p 4 bus slot func (ptr / 4 * 4) r.1 in
      let rest =
        find_capability-Ended n bus slot func
          (regs (config_address bus slot func (ptr / 4 * 4)) / 256 % 256) ptrs r.1
          (omega (arith, fuel)) ch k in
      let on =
        subst (λ (cap : ℕ). Ended (find_capability p n bus slot func (cap / 256 % 256) r.1)) (sym v)
          rest in
      let found : Ended (some ((ptr, w.0), w.1)) = record {
        value = (ptr, w.0);
        after = w.1;
        result = refl;
        kept = read_words_keeps 4 bus slot func (ptr / 4 * 4) r.1 k;
      } in
      subst
        (λ (b : Bool). Ended (elim b [
          | true ↦ some ((0, 0 ∷ 0 ∷ 0 ∷ 0 ∷ []), s)
          | false ↦ elim (r.0 % 256 == 0x10) [
            | true ↦ some ((ptr, w.0), w.1)
            | false ↦ find_capability p n bus slot func (r.0 / 256 % 256) r.1
          ]
        ]))
        (sym (==_false some_ptr))
        (either (r.0 % 256 == 0x10) (some ((ptr, w.0), w.1))
          (find_capability p n bus slot func (r.0 / 256 % 256) r.1) found on)

  -- The lists of capabilities of the devices end, and the fuel is enough for each.
  abbrev pub Ends : ℕ → Type 0
  Ends fuel =
      (bus slot func : ℕ)
      → slot < 32
      → func < 8
      → regs (config_address bus slot func 0) ≢ absent
      → (ptrs : List ℕ) × Chain regs bus slot func (first_pointer regs bus slot func) ptrs
        × (length ptrs < fuel)

  -- A table that is right, with the registers as they were.
  pub record Filled (out : Option (Devices × p.State)) : Type 0 where
    pub devices : Devices
    pub after : p.State
    pub result : out ≡ some (devices, after)
    pub kept : law.register after ≡ regs
    pub room : length devices ≤ 64
    pub shown : AllShown regs devices

  add_device-Filled :
      (fuel bus slot func d0 d2 : ℕ) (ds : Devices) (s : p.State)
      → Ends fuel
      → slot < 32
      → func < 8
      → regs (config_address bus slot func 0) ≢ absent
      → d2 ≡ regs (config_address bus slot func 8)
      → law.register s ≡ regs
      → length ds < 64
      → AllShown regs ds
      → Filled (add_device p fuel bus slot func d0 d2 ds s)
  unfolding add_device
  add_device-Filled fuel bus slot func d0 d2 ds s ends hs hf there class e room h =
      let hdr = config_read32 p bus slot func 0x0C s in
      let k1 = read_keeps bus slot func 0x0C s e in
      let bars = read_bars p 6 bus slot func 0 hdr.1 in
      let k2 = read_bars_keeps 6 bus slot func 0 hdr.1 k1 in
      let word = config_read32 p bus slot func 0x34 bars.1 in
      let k3 = read_keeps bus slot func 0x34 bars.1 k2 in
      let (ptrs, ch, short) = ends bus slot func hs hf there in
      let found =
        find_capability-Ended fuel bus slot func (first_pointer regs bus slot func) ptrs word.1
          short ch k3 in
      let r =
        subst (λ (w : ℕ). Ended (find_capability p fuel bus slot func (w % 256) word.1))
          (sym (read_shows bus slot func 0x34 bars.1 k2)) found in
      let entry : ℕ × List ℕ → Device = λ cap. record {
        bus = bus;
        slot = slot;
        func = func;
        vendor_id = d0 % 2 ^ 16;
        device_id = d0 / 2 ^ 16 % 2 ^ 16;
        class_code = d2 / 2 ^ 24 % 256;
        subclass = d2 / 2 ^ 16 % 256;
        prog_if = d2 / 2 ^ 8 % 256;
        header_type = hdr.0 / 2 ^ 16 % 256;
        bar = bars.0;
        pcie_cap_offset = cap.0;
        pcie_cap = cap.1;
      } in
      record {
        devices = ds ++ (entry r.value ∷ []);
        after = r.after;
        result =
            ap
              (λ (o : Option ((ℕ × List ℕ) × p.State)).
                elim o as (λ x. Option (Devices × p.State)) [
                  | none ↦ none
                  | some (cap, s4) ↦ some (ds ++ (entry cap ∷ []), s4)
                ])
              r.result;
        kept = r.kept;
        room = omega (arith, room, length-append ds (entry r.value ∷ []));
        shown = AllShown-append regs ds (entry r.value) h (record {
          slot = hs;
          func = hf;
          there = there;
          class_code = ap (λ (v : ℕ). v / 2 ^ 24 % 256) (sym class);
          subclass = ap (λ (v : ℕ). v / 2 ^ 16 % 256) (sym class);
          prog_if = ap (λ (v : ℕ). v / 2 ^ 8 % 256) (sym class);
        });
      }

  pub probe-Filled :
      (fuel bus slot func : ℕ) (ds : Devices) (s : p.State)
      → Ends fuel
      → slot < 32
      → func < 8
      → law.register s ≡ regs
      → length ds ≤ 64
      → AllShown regs ds
      → Filled (probe p fuel bus slot func ds s)
  unfolding probe
  probe-Filled fuel bus slot func ds s ends hs hf e room h =
      let r0 = config_read32 p bus slot func 0 s in
      let k1 = read_keeps bus slot func 0 s e in
      let v0 = read_shows bus slot func 0 s e in
      let r2 = config_read32 p bus slot func 8 r0.1 in
      let k2 = read_keeps bus slot func 8 r0.1 k1 in
      let v2 = read_shows bus slot func 8 r0.1 k1 in
      let full : Option (Devices × p.State) = some (ds, r2.1) in
      let added = add_device p fuel bus slot func r0.0 r2.0 ds r2.1 in
      let inner : Bool → Option (Devices × p.State) = λ b. elim b [ true ↦ full | false ↦ added ] in
      elim (Bool-cases (r0.0 == absent)) [
        | inl gone ↦
            subst
              (λ (b : Bool).
                Filled
                  (elim b [ true ↦ some (ds, r0.1) | false ↦ inner (leb max_devices (length ds)) ]))
              (sym gone)
              (record {
                devices = ds;
                after = r0.1;
                result = refl;
                kept = k1;
                room = room;
                shown = h;
              })
        | inr here ↦
            let there : regs (config_address bus slot func 0) ≢ absent =
              λ z. grind (arith, here, v0, z) in
            subst
              (λ (b : Bool).
                Filled
                  (elim b [ true ↦ some (ds, r0.1) | false ↦ inner (leb max_devices (length ds)) ]))
              (sym here)
              (elim (Bool-cases (leb max_devices (length ds))) [
                | inl no_room ↦
                    subst (λ (b : Bool). Filled (inner b)) (sym no_room)
                      (record {
                        devices = ds;
                        after = r2.1;
                        result = refl;
                        kept = k2;
                        room = room;
                        shown = h;
                      })
                | inr some_room ↦
                    let free : length ds < 64 = ground (arith, some_room) in
                    subst (λ (b : Bool). Filled (inner b)) (sym some_room)
                      (add_device-Filled fuel bus slot func r0.0 r2.0 ds r2.1 ends hs hf there v2 k2
                        free h)
              ])
      ]
