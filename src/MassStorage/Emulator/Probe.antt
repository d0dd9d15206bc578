-- ===== src/MassStorage/Emulator/Probe.antt =====
-- The search for the last sector in drivers/usb/usb_host_xhci.c.
use entropy_os.Prelude.{ℕ, zero, suc, ◌*◌, ◌≤◌, ◌<◌, ◌≡◌, ltb}
use entropy_os.Block.{Blocks}
use entropy_os.MassStorage.Emulator.{Emulator, sata_reads}

-- the highest probe that `n` rounds lead to
abbrev doubled : ℕ → ℕ → ℕ
doubled zero probe = probe
doubled (suc n) probe = doubled n (probe * 2)

module _ (d : Blocks) (size : ℕ) (reads : (l : ℕ) → sata_reads d l ≡ ltb l size) where
  -- The end of the disk lies between the two.
  record IsBracket (out : ℕ × ℕ) : Type 0 where
    pub positive : 0 < out.1
    pub good : out.1 < size
    pub bad : size ≤ out.0
    pub order : out.1 < out.0
