-- ===== src/Pci/Capabilities.antt =====
-- The walk along the capabilities of a device in drivers/pci/pci.c.
use entropy_os.Prelude.{
  ℕ, zero, suc, ◌*◌, ◌/◌, ◌%◌, ◌^◌, ◌<◌, ◌≡◌, ◌≢◌, refl, ap, subst, sym, ◌∙◌, Bool, true, false,
  ◌||◌, Option, some, List, [], ◌∷◌, length, ◌==◌, ==_false, arith,
}
use entropy_os.Pci.{
  Ports, address_port, data_port, config_address, config_read32, walk, device_has_pcie,
}
use entropy_os.Pci.Search.{IsConfig}

module _ (regs : ℕ → ℕ) (bus slot func : ℕ) where
  abbrev pub capability : ℕ → ℕ
  capability ptr = regs (config_address bus slot func (ptr / 4 * 4))

  -- The list of capabilities ends: its pointers, from one of them on.
  pub data Chain : ℕ → List ℕ → Type 0 where
    last : Chain 0 []
    link :
        (ptr : ℕ) (ptrs : List ℕ)
        → ptr ≢ 0
        → Chain (capability ptr / 256 % 256) ptrs
        → Chain ptr (ptr ∷ ptrs)

  -- whether one of them is that of PCI Express
  abbrev pub has_express : List ℕ → Bool
  has_express [] = false
  has_express (ptr ∷ ptrs) = (capability ptr % 256 == 0x10) || has_express ptrs

  -- the capability list bit of the status
  abbrev pub has_list : Bool
  has_list = regs (config_address bus slot func 4) / 2 ^ 16 % 2 ^ 16 / 16 % 2 == 1

  abbrev pub first_pointer : ℕ
  first_pointer = regs (config_address bus slot func 0x34) % 256

  -- the answer for a device with these capabilities
  abbrev pub is_express : List ℕ → Bool
  is_express ptrs = elim has_list [ false ↦ false | true ↦ has_express ptrs ]

module _ {p : Ports} (law : IsConfig p) (regs : ℕ → ℕ) (bus slot func : ℕ) where
  -- A result with the registers as they were.
  pub record Answered (answer : Bool) (out : Option (Bool × p.State)) : Type 0 where
    pub after : p.State
    pub result : out ≡ some (answer, after)
    pub kept : law.register after ≡ regs

  abbrev step : ℕ → Bool → ℕ → p.State → p.State → Option (Bool × p.State)
  step n stop cap s s1 = elim stop [
    | true ↦ some (false, s)
    | false ↦ elim (cap % 256 == 0x10) [
      | true ↦ some (true, s1)
      | false ↦ walk p n bus slot func (cap / 256 % 256) s1
    ]
  ]

  after_link :
      (hit : Bool) (answer : Bool) (s1 : p.State) (rest : Option (Bool × p.State))
      → law.register s1 ≡ regs
      → Answered answer rest
      → Answered (hit || answer) (elim hit [ true ↦ some (true, s1) | false ↦ rest ])
  after_link true answer s1 rest k h = record { after = s1; result = refl; kept = k }
  after_link false answer s1 rest k h = h

  walk-Answered :
      (n ptr : ℕ) (ptrs : List ℕ) (s : p.State)
      → length ptrs < n
      → Chain regs bus slot func ptr ptrs
      → law.register s ≡ regs
      → Answered (has_express regs bus slot func ptrs) (walk p n bus slot func ptr s)
  unfolding walk config_read32
  walk-Answered zero ptr ptrs s fuel ch e = absurd (omega (arith, fuel))
  walk-Answered (suc n) _ _ s fuel Chain.last e = record { after = s; result = refl; kept = e }
  walk-Answered (suc n) _ _ s fuel (Chain.link ptr ptrs some_ptr ch) e =
      let a = config_address bus slot func (ptr / 4 * 4) in
      let r = p.inl data_port (p.outl address_port a s) in
      let k = law.keeps s a ∙ e in
      let v = law.shows s a ∙ ap (λ (g : ℕ → ℕ). g a) e in
      let rest = walk-Answered n (regs a / 256 % 256) ptrs r.1 (omega (arith, fuel)) ch k in
      let Goal = Answered (has_express regs bus slot func (ptr ∷ ptrs)) in
      let here =
        after_link (regs a % 256 == 0x10) (has_express regs bus slot func ptrs) r.1
          (walk p n bus slot func (regs a / 256 % 256) r.1) k rest in
      let read = subst (λ (cap : ℕ). Goal (step n false cap s r.1)) (sym v) here in
      subst (λ (b : Bool). Goal (step n b r.0 s r.1)) (sym (==_false some_ptr)) read

-- On ports as documented, and with a list of capabilities that ends and more fuel than it is long,
-- `pci_device_has_pcie` ends: the answer is whether the status has the bit for a list and the list
-- has the capability of PCI Express. It changes no register.
pub device_has_pcie-Answered :
    {p : Ports} (law : IsConfig p) (n bus slot func : ℕ) (ptrs : List ℕ) (s : p.State)
    → length ptrs < n
    → Chain (law.register s) bus slot func (first_pointer (law.register s) bus slot func) ptrs
    → Answered law
        (law.register s)
        bus
        slot
        func
        (is_express (law.register s) bus slot func ptrs)
        (device_has_pcie p n bus slot func s)
unfolding device_has_pcie config_read32
device_has_pcie-Answered {p} law n bus slot func ptrs s fuel ch =
    let regs = law.register s in
    let a4 = config_address bus slot func 4 in
    let a34 = config_address bus slot func 0x34 in
    let r1 = p.inl data_port (p.outl address_port a4 s) in
    let r2 = p.inl data_port (p.outl address_port a34 r1.1) in
    let k1 = law.keeps s a4 in
    let k2 = law.keeps r1.1 a34 ∙ k1 in
    let v2 = law.shows r1.1 a34 ∙ ap (λ (g : ℕ → ℕ). g a34) k1 in
    let walked =
      walk-Answered law regs bus slot func n (first_pointer regs bus slot func) ptrs r2.1 fuel ch
        k2 in
    let read =
      subst
        (λ (w : ℕ).
          Answered law regs bus slot func (has_express regs bus slot func ptrs)
            (walk p n bus slot func (w % 256) r2.1))
        (sym v2) walked in
    subst
      (λ (d1 : ℕ).
        Answered law regs bus slot func (is_express regs bus slot func ptrs)
          (elim (d1 / 2 ^ 16 % 2 ^ 16 / 16 % 2 == 1) [
            | false ↦ some (false, r1.1)
            | true ↦ walk p n bus slot func (r2.0 % 256) r2.1
          ]))
      (sym (law.shows s a4))
      (either (has_list regs bus slot func) (walk p n bus slot func (r2.0 % 256) r2.1) r1.1 k1 read)
  where
    either :
        (b : Bool) (rest : Option (Bool × p.State)) (s1 : p.State)
        → law.register s1 ≡ law.register s
        → Answered law
            (law.register s)
            bus
            slot
            func
            (has_express (law.register s) bus slot func ptrs)
            rest
        → Answered law
            (law.register s)
            bus
            slot
            func
            (elim b [ false ↦ false | true ↦ has_express (law.register s) bus slot func ptrs ])
            (elim b [ false ↦ some (false, s1) | true ↦ rest ])
    either true rest s1 k h = h
    either false rest s1 k h = record { after = s1; result = refl; kept = k }
