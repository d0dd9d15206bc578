-- ===== src/Pci/Search.antt =====
-- What the search of drivers/pci/pci.c finds.
use entropy_os.Prelude.{
  ℕ, zero, suc, ◌+◌, ◌*◌, ◌/◌, ◌%◌, ◌≤◌, ◌<◌, ◌≡◌, refl, ap, ap₂, subst, sym, ◌∙◌, Bool, true,
  false, not, ◌&&◌, Option, none, some, dec_lt, ◌==◌, arith,
}
use entropy_os.Pci.{
  Ports, address_port, data_port, config_address, absent, has_class, config_read32, find_func,
  find_slot, find_bus, find_device_by_class,
}

-- What is documented of the ports: the data port shows the register whose address was written, and
-- reading changes no register.
pub record IsConfig (p : Ports) : Type 0 where
  pub register : p.State → ℕ → ℕ
  pub shows : (s : p.State) (a : ℕ) → (p.inl data_port (p.outl address_port a s)).0 ≡ register s a
  pub keeps :
      (s : p.State) (a : ℕ) → register (p.inl data_port (p.outl address_port a s)).1 ≡ register s

-- The registers say that a device of a class is there.
abbrev pub is_device : ℕ × ℕ × ℕ → (ℕ → ℕ) → ℕ → ℕ → ℕ → Bool
is_device q regs bus slot func =
    not (regs (config_address bus slot func 0) == absent)
    && has_class q.0 q.1 q.2 (regs (config_address bus slot func 8))

-- The device with a number, and the number of a device: buses first, then slots, then functions.
abbrev pub device_at : ℕ × ℕ × ℕ → (ℕ → ℕ) → ℕ → Bool
device_at q regs k = is_device q regs (k / 256) (k / 8 % 32) (k % 8)

abbrev pub number : ℕ × ℕ × ℕ → ℕ
number (bus, slot, func) = bus * 256 + slot * 8 + func

-- The first of `n` devices from `from` on that the registers show, or none.
abbrev pub First : ℕ × ℕ × ℕ → (ℕ → ℕ) → ℕ → ℕ → Option (ℕ × ℕ × ℕ) → Type 0
First q regs from n none = (k : ℕ) → from ≤ k → k < from + n → device_at q regs k ≡ false
First q regs from n (some x) =
    (from ≤ number x)
    × (number x < from + n)
    × (x.1 < 32)
    × (x.2 < 8)
    × (device_at q regs (number x) ≡ true)
    × ((k : ℕ) → from ≤ k → k < number x → device_at q regs k ≡ false)

-- One stretch behind another.
First-none :
    (q : ℕ × ℕ × ℕ) (regs : ℕ → ℕ) (from n next m all : ℕ) (o : Option (ℕ × ℕ × ℕ))
    → next ≡ from + n
    → all ≡ n + m
    → First q regs from n none
    → First q regs next m o
    → First q regs from all o
First-none q regs from n next m all none e t before after = λ k low high. elim (dec_lt k next) [
  | yes here ↦ before k low (omega (arith, e, here))
  | no there ↦ after k (omega (arith, there)) (omega (arith, e, t, high))
]
First-none q regs from n next m all (some x) e t before (low, high, s, f, hit, rest) =
    (omega (arith, e), omega (arith, e, t), s, f, hit, skipped)
  where
    skipped : (k : ℕ) → from ≤ k → k < number x → device_at q regs k ≡ false
    skipped k l h = elim (dec_lt k next) [
      | yes here ↦ before k l (omega (arith, e, here))
      | no there ↦ rest k (omega (arith, there)) h
    ]

First-some :
    (q : ℕ × ℕ × ℕ) (regs : ℕ → ℕ) (from n all : ℕ) (x : ℕ × ℕ × ℕ)
    → n ≤ all
    → First q regs from n (some x)
    → First q regs from all (some x)
First-some q regs from n all x t (low, high, s, f, hit, rest) =
    (low, omega (arith, t, high), s, f, hit, rest)

device_at-number :
    (q : ℕ × ℕ × ℕ) (regs : ℕ → ℕ) (bus slot func : ℕ)
    → slot < 32
    → func < 8
    → device_at q regs (number (bus, slot, func)) ≡ is_device q regs bus slot func
device_at-number q regs bus slot func hs hf =
    let b : (bus * 256 + slot * 8 + func) / 256 ≡ bus = omega (arith, hs, hf) in
    let s : (bus * 256 + slot * 8 + func) / 8 % 32 ≡ slot = omega (arith, hs, hf) in
    let f : (bus * 256 + slot * 8 + func) % 8 ≡ func = omega (arith, hs, hf) in
    let k = bus * 256 + slot * 8 + func in
    ap (λ (x : ℕ). is_device q regs x (k / 8 % 32) (k % 8)) b
    ∙ ap (λ (x : ℕ). is_device q regs bus x (k % 8)) s
    ∙ ap (λ (x : ℕ). is_device q regs bus slot x) f

nothing :
    (q : ℕ × ℕ × ℕ) (regs : ℕ → ℕ) (bus slot func : ℕ)
    → slot < 32
    → func < 8
    → is_device q regs bus slot func ≡ false
    → First q regs (number (bus, slot, func)) 1 none
nothing q regs bus slot func hs hf e = λ k low high.
    let here : k ≡ number (bus, slot, func) = omega (arith, low, high) in
    ap (device_at q regs) here ∙ device_at-number q regs bus slot func hs hf ∙ e

-- The search goes on after a device in the same way, whichever test it failed.
unrolled :
    {S : Type 0} (b0 b2 : Bool) (bus slot func : ℕ) (s1 s2 : S) (rest : S → Option (ℕ × ℕ × ℕ) × S)
    → (let r : Option (ℕ × ℕ × ℕ) × S = elim b0 [
      | true ↦ (none, s1)
      | false ↦ elim b2 [ true ↦ (some (bus, slot, func), s2) | false ↦ (none, s2) ]
    ] in
        ◌≡◌ {A = Option (ℕ × ℕ × ℕ) × S}
          (elim r.0 [ some x ↦ (some x, r.1) | none ↦ rest r.1 ])
          (elim b0 [
            | true ↦ rest s1
            | false ↦ elim b2 [ true ↦ (some (bus, slot, func), s2) | false ↦ rest s2 ]
          ]))
unrolled true b2 bus slot func s1 s2 rest = refl
unrolled false true bus slot func s1 s2 rest = refl
unrolled false false bus slot func s1 s2 rest = refl

module _ {p : Ports} (law : IsConfig p) (q : ℕ × ℕ × ℕ) (regs : ℕ → ℕ) where
  -- The outcome of a loop: the registers are as they were.
  pub record Scanned (from n : ℕ) (out : Option (ℕ × ℕ × ℕ) × p.State) : Type 0 where
    pub kept : law.register out.1 ≡ regs
    pub first : First q regs from n out.0

  -- what a loop makes of an inner one
  abbrev or_next :
      Option (ℕ × ℕ × ℕ) × p.State
      → (p.State → Option (ℕ × ℕ × ℕ) × p.State)
      → Option (ℕ × ℕ × ℕ) × p.State
  or_next r rest = elim r.0 [ some x ↦ (some x, r.1) | none ↦ rest r.1 ]

  or_next-Scanned :
      (from n next m all : ℕ) (r : Option (ℕ × ℕ × ℕ) × p.State)
      (rest : p.State → Option (ℕ × ℕ × ℕ) × p.State)
      → next ≡ from + n
      → all ≡ n + m
      → Scanned from n r
      → ((s : p.State) → law.register s ≡ regs → Scanned next m (rest s))
      → Scanned from all (or_next r rest)
  or_next-Scanned from n next m all (some x, s) rest e t h k = record {
    kept = h.kept;
    first = First-some q regs from n all x (omega (arith, t)) h.first;
  }
  or_next-Scanned from n next m all (none, s) rest e t h k =
      let r = k s h.kept in
      record {
        kept = r.kept;
        first = First-none q regs from n next m all (rest s).0 e t h.first r.first;
      }

  -- one device, as the innermost loop tests it
  abbrev one : ℕ → ℕ → ℕ → p.State → Option (ℕ × ℕ × ℕ) × p.State
  one bus slot func s =
      let (d0, s1) = config_read32 p bus slot func 0 s in
      elim (d0 == absent) [
        | true ↦ (none, s1)
        | false ↦
            let (d2, s2) = config_read32 p bus slot func 8 s1 in
            elim (has_class q.0 q.1 q.2 d2) [
              | true ↦ (some (bus, slot, func), s2)
              | false ↦ (none, s2)
            ]
      ]

  one_split :
      (b0 b2 : Bool) (bus slot func : ℕ) (s1 s2 : p.State)
      → slot < 32
      → func < 8
      → law.register s1 ≡ regs
      → law.register s2 ≡ regs
      → is_device q regs bus slot func ≡ (not b0 && b2)
      → Scanned (number (bus, slot, func)) 1 (elim b0 [
        | true ↦ (none, s1)
        | false ↦ elim b2 [ true ↦ (some (bus, slot, func), s2) | false ↦ (none, s2) ]
      ])
  one_split true b2 bus slot func s1 s2 hs hf k1 k2 e = record {
    kept = k1;
    first = nothing q regs bus slot func hs hf e;
  }
  one_split false false bus slot func s1 s2 hs hf k1 k2 e = record {
    kept = k2;
    first = nothing q regs bus slot func hs hf e;
  }
  one_split false true bus slot func s1 s2 hs hf k1 k2 e = record {
    kept = k2;
    first = (
      omega arith,
      omega arith,
      hs,
      hf,
      device_at-number q regs bus slot func hs hf ∙ e,
      λ k low high. absurd (omega (arith, low, high)),
    );
  }

  one-Scanned :
      (bus slot func : ℕ) (s : p.State)
      → slot < 32
      → func < 8
      → law.register s ≡ regs
      → Scanned (number (bus, slot, func)) 1 (one bus slot func s)
  unfolding config_read32
  one-Scanned bus slot func s hs hf e =
      let a0 = config_address bus slot func 0 in
      let a8 = config_address bus slot func 8 in
      let r0 = p.inl data_port (p.outl address_port a0 s) in
      let r8 = p.inl data_port (p.outl address_port a8 r0.1) in
      let k1 = law.keeps s a0 ∙ e in
      let k2 = law.keeps r0.1 a8 ∙ k1 in
      let v0 = law.shows s a0 ∙ ap (λ (g : ℕ → ℕ). g a0) e in
      let v8 = law.shows r0.1 a8 ∙ ap (λ (g : ℕ → ℕ). g a8) k1 in
      one_split (r0.0 == absent) (has_class q.0 q.1 q.2 r8.0) bus slot func r0.1 r8.1 hs hf k1 k2
        (ap₂ (λ (x y : ℕ). not (x == absent) && has_class q.0 q.1 q.2 y) (sym v0) (sym v8))

  find_func-Scanned :
      (n bus slot func : ℕ) (s : p.State)
      → slot < 32
      → func + n ≤ 8
      → law.register s ≡ regs
      → Scanned (number (bus, slot, func)) n (find_func p q n bus slot func s)
  unfolding find_func
  find_func-Scanned zero bus slot func s hs hf e = record {
    kept = e;
    first = λ k low high. absurd (omega (arith, low, high));
  }
  find_func-Scanned (suc n) bus slot func s hs hf e =
      let (d0, s1) = config_read32 p bus slot func 0 s in
      let (d2, s2) = config_read32 p bus slot func 8 s1 in
      subst (Scanned (number (bus, slot, func)) (suc n))
        (unrolled (d0 == absent) (has_class q.0 q.1 q.2 d2) bus slot func s1 s2
          (find_func p q n bus slot (func + 1)))
        (or_next-Scanned (number (bus, slot, func)) 1 (number (bus, slot, func + 1)) n (suc n)
          (one bus slot func s) (find_func p q n bus slot (func + 1)) (omega arith) (omega arith)
          (one-Scanned bus slot func s hs (omega (arith, hf)) e)
          (λ s' e'. find_func-Scanned n bus slot (func + 1) s' hs (omega (arith, hf)) e'))

  find_slot-Scanned :
      (n bus slot : ℕ) (s : p.State)
      → slot + n ≤ 32
      → law.register s ≡ regs
      → Scanned (number (bus, slot, 0)) (n * 8) (find_slot p q n bus slot s)
  unfolding find_slot
  find_slot-Scanned zero bus slot s h e = record {
    kept = e;
    first = λ k low high. absurd (omega (arith, low, high));
  }
  find_slot-Scanned (suc n) bus slot s h e =
      or_next-Scanned (number (bus, slot, 0)) 8 (number (bus, slot + 1, 0)) (n * 8) (suc n * 8)
        (find_func p q 8 bus slot 0 s) (find_slot p q n bus (slot + 1)) (omega arith) (omega arith)
        (find_func-Scanned 8 bus slot 0 s (omega (arith, h)) (omega arith) e)
        (λ s' e'. find_slot-Scanned n bus (slot + 1) s' (omega (arith, h)) e')

  find_bus-Scanned :
      (n bus : ℕ) (s : p.State)
      → law.register s ≡ regs
      → Scanned (number (bus, 0, 0)) (n * 256) (find_bus p q n bus s)
  unfolding find_bus
  find_bus-Scanned zero bus s e = record {
    kept = e;
    first = λ k low high. absurd (omega (arith, low, high));
  }
  find_bus-Scanned (suc n) bus s e =
      or_next-Scanned (number (bus, 0, 0)) 256 (number (bus + 1, 0, 0)) (n * 256) (suc n * 256)
        (find_slot p q 32 bus 0 s) (find_bus p q n (bus + 1)) (omega arith) (omega arith)
        (find_slot-Scanned 32 bus 0 s (omega arith) e) (λ s' e'. find_bus-Scanned n (bus + 1) s' e')

-- On ports as documented, `pci_find_device_by_class` returns the first of the 65536 places of the
-- bus at which the registers show a device of the class, buses first, then slots, then functions;
-- when it returns none, no place has one. It changes no register.
pub find_device_by_class-Scanned :
    {p : Ports} (law : IsConfig p) (class_code subclass prog_if : ℕ) (s : p.State)
    → Scanned law
        (class_code, subclass, prog_if)
        (law.register s)
        0
        65536
        (find_device_by_class p class_code subclass prog_if s)
unfolding find_device_by_class
find_device_by_class-Scanned {p} law class_code subclass prog_if s =
    find_bus-Scanned law (class_code, subclass, prog_if) (law.register s) 256 0 s refl
