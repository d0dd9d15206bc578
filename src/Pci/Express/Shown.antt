-- ===== src/Pci/Express/Shown.antt =====
-- What an entry of the table of drivers/pcie/pcie.c stands for.
use entropy_os.Prelude.{
  ℕ, ◌/◌, ◌%◌, ◌^◌, ◌<◌, ◌≡◌, ◌≢◌, ap, subst, ◌∙◌, inl, inr, Bool, true, not, ◌&&◌, some, [], ◌∷◌,
  ◌++◌, ◌==◌, ==_false, if-some, arith,
}
use entropy_os.Pci.{config_address, absent, has_class}
use entropy_os.Pci.Search.{is_device}
use entropy_os.Pci.Express.{Device, Devices, find_in}

-- An entry stands for a device that the registers show, with its class.
pub record IsShown (regs : ℕ → ℕ) (d : Device) : Type 0 where
  pub slot : d.slot < 32
  pub func : d.func < 8
  pub there : regs (config_address d.bus d.slot d.func 0) ≢ absent
  pub class_code : regs (config_address d.bus d.slot d.func 8) / 2 ^ 24 % 256 ≡ d.class_code
  pub subclass : regs (config_address d.bus d.slot d.func 8) / 2 ^ 16 % 256 ≡ d.subclass
  pub prog_if : regs (config_address d.bus d.slot d.func 8) / 2 ^ 8 % 256 ≡ d.prog_if

abbrev pub AllShown : (ℕ → ℕ) → Devices → Type 0
AllShown regs [] = Unit
AllShown regs (d ∷ ds) = IsShown regs d × AllShown regs ds

pub AllShown-append :
    (regs : ℕ → ℕ) (ds : Devices) (d : Device)
    → AllShown regs ds
    → IsShown regs d
    → AllShown regs (ds ++ (d ∷ []))
AllShown-append regs [] d h k = (k, tt)
AllShown-append regs (e ∷ ds) d h k = (h.0, AllShown-append regs ds d h.1 k)

-- What the search of the table finds is such a device of the class that was asked for.
pub find_in-is_device :
    (regs : ℕ → ℕ) (c s i : ℕ) (ds : Devices) (x : ℕ × ℕ × ℕ)
    → AllShown regs ds
    → find_in c s i ds ≡ some x
    → is_device (c, s, i) regs x.0 x.1 x.2 ≡ true
unfolding find_in has_class
find_in-is_device regs c s i [] x h e = absurd (grind (arith, e))
find_in-is_device regs c s i (d ∷ ds) x h e =
    elim (if-some ((d.class_code == c) && ((d.subclass == s) && (d.prog_if == i)))
      {x = (d.bus, d.slot, d.func)} {y = x} {rest = find_in c s i ds} e) [
        | inr later ↦ find_in-is_device regs c s i ds x h.1 later
        | inl (hit, same) ↦
            subst (λ (y : ℕ × ℕ × ℕ). is_device (c, s, i) regs y.0 y.1 y.2 ≡ true) same
              (class_matches h.0 hit)
      ]
  where
    class_matches :
        IsShown regs d
        → ((d.class_code == c) && ((d.subclass == s) && (d.prog_if == i))) ≡ true
        → is_device (c, s, i) regs d.bus d.slot d.func ≡ true
    class_matches k hit =
        ap (λ (t : Bool). not t && has_class c s i (regs (config_address d.bus d.slot d.func 8)))
          (==_false k.there)
        ∙ ap
            (λ (v : ℕ).
              (v == c)
              && ((regs (config_address d.bus d.slot d.func 8) / 2 ^ 16 % 256 == s)
                  && (regs (config_address d.bus d.slot d.func 8) / 2 ^ 8 % 256 == i)))
            k.class_code
        ∙ ap
            (λ (v : ℕ).
              (d.class_code == c)
              && ((v == s) && (regs (config_address d.bus d.slot d.func 8) / 2 ^ 8 % 256 == i)))
            k.subclass
        ∙ ap (λ (v : ℕ). (d.class_code == c) && ((d.subclass == s) && (v == i))) k.prog_if
        ∙ hit
