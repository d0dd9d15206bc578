-- ===== src/Pci/Tests.antt =====
-- A configuration space with one device.
use entropy_os.Prelude.{
  ℕ, ◌+◌, ◌*◌, ◌/◌, ◌%◌, ◌^◌, ◌<◌, ◌≡◌, ◌≢◌, refl, subst, sym, List, [], ◌∷◌, length, ◌==◌,
  if◌then◌else◌, arith,
}
use entropy_os.Pci.{
  Ports, address_port, absent, config_address, find_device_by_class, device_has_pcie,
}
use entropy_os.Pci.Search.{IsConfig, Scanned, find_device_by_class-Scanned}
use entropy_os.Pci.Express.{init}
use entropy_os.Pci.Express.Table.{Ends}
use entropy_os.Pci.Express.Scan.{Inited, init-Inited}
use entropy_os.Pci.Capabilities.{
  Chain, first_pointer, Answered, is_express, device_has_pcie-Answered,
}

-- the registers of the device in slot 1: the class, the status, the first pointer, two capabilities
abbrev registers : ℕ → ℕ
registers a =
    if a == 0x80000800
    then 0x12345678
    else if a == 0x80000804
    then 0x00100000
    else if a == 0x80000808
    then 0x01060100
    else if a == 0x80000834
    then 0x40
    else if a == 0x80000840
    then 0x5005
    else if a == 0x80000850
    then 0x0010
    else absent

abbrev machine : Ports
machine = record {
  State = ℕ;
  outl = λ port v s. if port == address_port then v else s;
  inl = λ port s. (registers s, s);
}

abbrev machine_law : IsConfig machine
machine_law = record { register = λ s. registers; shows = λ s a. refl; keeps = λ s a. refl }

find_device_by_class-Scanned_example :
    Scanned machine_law (1, 6, 1) registers 0 65536 (find_device_by_class machine 1 6 1 0)
find_device_by_class-Scanned_example = find_device_by_class-Scanned machine_law 1 6 1 0

two_capabilities : Chain registers 0 1 0 0x40 (0x40 ∷ 0x50 ∷ [])
unfolding config_address
two_capabilities =
    Chain.link 0x40 (0x50 ∷ []) (λ e. omega (arith, e))
      (Chain.link 0x50 [] (λ e. omega (arith, e)) Chain.last)

device_has_pcie-Answered_example :
    Answered machine_law registers 0 1 0
      (is_express registers 0 1 0 (0x40 ∷ 0x50 ∷ []))
      (device_has_pcie machine 3 0 1 0 0)
unfolding config_address
device_has_pcie-Answered_example =
    device_has_pcie-Answered machine_law 3 0 1 0 (0x40 ∷ 0x50 ∷ []) 0 (omega arith) two_capabilities

only_one : (a : ℕ) → a % 256 ≡ 0 → registers a ≢ absent → a ≡ 0x80000800
only_one a whole there = ground (arith, whole, there)

-- The one device is at bus 0, slot 1, function 0.
the_place :
    (bus slot func : ℕ)
    → slot < 32
    → func < 8
    → registers (config_address bus slot func 0) ≢ absent
    → (bus ≡ 0) × (slot ≡ 1) × (func ≡ 0)
unfolding config_address
the_place bus slot func hs hf there =
    let a = 2 ^ 31 + bus * 2 ^ 16 + slot * 2 ^ 11 + func * 2 ^ 8 + 0 / 4 * 4 in
    let e = only_one a (omega arith) there in
    (omega (arith, e, hs, hf), omega (arith, e, hs, hf), omega (arith, e, hs, hf))

abbrev Listed : ℕ → ℕ → ℕ → Type 0
Listed bus slot func =
    (ptrs : List ℕ) × Chain registers bus slot func (first_pointer registers bus slot func) ptrs
    × (length ptrs < 3)

listed : Listed 0 1 0
unfolding config_address
listed = (0x40 ∷ 0x50 ∷ [], two_capabilities, omega arith)

machine-Ends : Ends machine_law registers 3
machine-Ends bus slot func hs hf there =
    let (b, s, f) = the_place bus slot func hs hf there in
    subst (λ (x : ℕ). Listed x slot func) (sym b)
      (subst (λ (x : ℕ). Listed 0 x func) (sym s) (subst (λ (x : ℕ). Listed 0 1 x) (sym f) listed))

init-Inited_example : Inited machine_law registers (init machine 3 0)
init-Inited_example = init-Inited machine_law 3 0 machine-Ends
