-- ===== src/MassStorage/Emulator/Phases.antt =====
-- What the emulation of drivers/usb/usb_host_xhci.c remembers in each phase of a command, and how it takes one.
use entropy_os.Prelude.{
  ℕ, ◌+◌, ◌/◌, ◌%◌, ◌≤◌, ◌<◌, ◌≡◌, refl, ap, ap₂, sym, subst, Bool, true, false, ◌&&◌, List, [],
  ◌∷◌, length, get_or, leb, ◌==◌, if◌then◌else◌, arith,
}
use entropy_os.Block.{Blocks}
use entropy_os.MassStorage.{from_le32}
use entropy_os.MassStorage.Blocks.{span}
use entropy_os.MassStorage.Commands.{decode, IsWrapper}
use entropy_os.MassStorage.Device.{Phase, good_status}
use entropy_os.MassStorage.Emulator.{
  Emulator, bytes_from, finish, cdb_lba, cdb_count, take_command, take_data, bulk_out,
}
use entropy_os.MassStorage.Emulator.Sectors.{block_at, IsGood}

module _ (capacity : ℕ) where
  -- The emulation has been set up, and the sectors of the disk can be read and written.
  pub record IsHealthy (e : Emulator) : Type 0 where
    pub good : IsGood e.blocks capacity
    pub size : e.ms.block_size ≡ 512
    pub last : get_or e.ms.csw_buf 12 0 ≡ 0

  pub record IsSending (shown : List ℕ) (t : ℕ) (e : Emulator) : Type 0 where
    pub healthy : IsHealthy e
    pub valid : e.ms.cbw_valid ≡ true
    pub flags : e.ms.cbw_flags ≡ 0x80
    pub op : get_or e.ms.cbw_cdb 0 0 ≡ 0x28
    pub tag : e.ms.cbw_tag ≡ t
    pub bytes : shown ≡ span (block_at e.blocks) (cdb_lba e.ms) (cdb_count e.ms)
    pub within : cdb_lba e.ms + cdb_count e.ms ≤ capacity
    pub few : cdb_count e.ms < 65536

  pub record IsReceiving (l n t : ℕ) (e : Emulator) : Type 0 where
    pub healthy : IsHealthy e
    pub valid : e.ms.cbw_valid ≡ true
    pub flags : e.ms.cbw_flags ≡ 0
    pub op : get_or e.ms.cbw_cdb 0 0 ≡ 0x2A
    pub tag : e.ms.cbw_tag ≡ t
    pub lba : cdb_lba e.ms ≡ l
    pub count : cdb_count e.ms ≡ n
    pub within : cdb_lba e.ms + cdb_count e.ms ≤ capacity

  pub record IsAnswering (tag : ℕ) (e : Emulator) : Type 0 where
    pub healthy : IsHealthy e
    pub valid : e.ms.cbw_valid ≡ false
    pub waits : e.ms.expect_csw ≡ true
    pub csw : e.ms.csw_buf ≡ good_status tag

  abbrev pub At : Emulator → Phase → Type 0
  At e Phase.idle = IsHealthy e
  At e (Phase.sending bytes tag) = IsSending bytes tag e
  At e (Phase.receiving lba n tag) = IsReceiving lba n tag e
  At e (Phase.status tag) = IsAnswering tag e

  abbrev pub blocks_of : Emulator → ℕ → List ℕ
  blocks_of e = block_at e.blocks

  -- A call that succeeded, with its phase and its blocks.
  abbrev pub Step : {A : Type 0} → A → Phase → (ℕ → List ℕ) → A × Emulator → Type 0
  Step a ph f out = (out.0 ≡ a) × At out.1 ph × (blocks_of out.1 ≡ f)

  took :
      (ep : ℕ) (b : List ℕ) (e : Emulator)
      → IsWrapper b
      → bulk_out ep b e ≡ (true, record e { ms = take_command b e.ms })
  unfolding bulk_out
  took ep b e w =
      let test : (leb 31 (length b) && (from_le32 0 b == 0x43425355)) ≡ true = ground (arith, w) in
      ap (λ (t : Bool). if t then (true, record e { ms = take_command b e.ms }) else take_data b e)
        test

  pub finished :
      (e : Emulator) (d : Blocks) (tag : ℕ)
      → IsHealthy e
      → IsGood d capacity
      → e.ms.cbw_tag ≡ tag
      → IsAnswering tag (record e { blocks = d; ms = finish e.ms })
  unfolding finish
  finished e d tag h g t = record {
    healthy = record { good = g; size = h.size; last = h.last };
    valid = refl;
    waits = refl;
    csw =
        ap₂
          (λ (x y : ℕ).
            85
            ∷ 83
            ∷ 66
            ∷ 83
            ∷ x % 256
            ∷ x / 256 % 256
            ∷ x / 65536 % 256
            ∷ x / 16777216 % 256
            ∷ 0
            ∷ 0
            ∷ 0
            ∷ 0
            ∷ y
            ∷ [])
          t h.last;
  }

  pub took_read :
      (ep : ℕ) (b : List ℕ) (e : Emulator)
      → IsHealthy e
      → IsWrapper b
      → (decode b).op ≡ 0x28
      → (decode b).flags ≡ 0x80
      → (decode b).lba + (decode b).count ≤ capacity
      → (decode b).count < 65536
      → Step true
          (Phase.sending (span (blocks_of e) (decode b).lba (decode b).count) (decode b).tag)
          (blocks_of e)
          (bulk_out ep b e)
  unfolding take_command bytes_from
  took_read ep b e h w op flags within few =
      subst
        (λ (out : Bool × Emulator).
          Step true
            (Phase.sending (span (blocks_of e) (decode b).lba (decode b).count) (decode b).tag)
            (blocks_of e) out)
        (sym (took ep b e w))
        (
          refl,
          record {
            healthy = record { good = h.good; size = h.size; last = h.last };
            valid = refl;
            flags = flags;
            op = op;
            tag = refl;
            bytes = refl;
            within = within;
            few = few;
          },
          refl,
        )

  pub took_write :
      (ep : ℕ) (b : List ℕ) (e : Emulator)
      → IsHealthy e
      → IsWrapper b
      → (decode b).op ≡ 0x2A
      → (decode b).flags ≡ 0
      → (decode b).lba + (decode b).count ≤ capacity
      → Step true
          (Phase.receiving (decode b).lba (decode b).count (decode b).tag)
          (blocks_of e)
          (bulk_out ep b e)
  unfolding take_command bytes_from
  took_write ep b e h w op flags within =
      subst
        (λ (out : Bool × Emulator).
          Step true (Phase.receiving (decode b).lba (decode b).count (decode b).tag) (blocks_of e)
            out)
        (sym (took ep b e w))
        (
          refl,
          record {
            healthy = record { good = h.good; size = h.size; last = h.last };
            valid = refl;
            flags = flags;
            op = op;
            tag = refl;
            lba = refl;
            count = refl;
            within = within;
          },
          refl,
        )
