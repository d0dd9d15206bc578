-- ===== src/Block/Laws.antt =====
-- What the file systems above may know of the block layer of drivers/block/block.c.
use entropy_os.Prelude.{
  ℕ, ◌≡◌, refl, Bool, true, false, Option, none, some, Bytes, zeros, ◌==◌, if◌then◌else◌, arith,
}
use entropy_os.Block.{
  Backend, Blocks, backend_read, backend_write, read_from, block_read_sector, write_to,
  block_write_sector, flush_cache,
}

holds : Option Backend → Option Backend → ℕ → Bytes
holds (some dev) other lba = dev.sector lba
holds none (some dev) lba = dev.sector lba
holds none none lba = zeros

reads : Option Backend → Option Backend → ℕ → Bool
reads (some dev) other lba = dev.readable lba
reads none (some dev) lba = dev.readable lba
reads none none lba = false

writes : Option Backend → Option Backend → ℕ → Bool
writes (some dev) other lba = dev.writable lba
writes none (some dev) lba = dev.writable lba
writes none none lba = false

has_device : Option Backend → Option Backend → Bool
has_device none none = false
has_device (some dev) p = true
has_device none (some dev) = true

spoils : Option Backend → Option Backend → ℕ → Bytes → Bytes
spoils (some dev) other lba b = dev.spoiled lba b
spoils none (some dev) lba b = dev.spoiled lba b
spoils none none lba b = zeros

-- What a sector holds after a write that failed.
unfoldable pub torn : Blocks → ℕ → Bytes → Bytes
unfolding spoils holds has_device
torn d lba b = if has_device d.sata d.ms then spoils d.sata d.ms lba b else holds d.sata d.ms lba

-- What the device in use holds in a sector, and where it can be read and written.
unfoldable pub disk_at : Blocks → ℕ → Bytes
unfolding holds
disk_at d = holds d.sata d.ms

unfoldable pub can_read : Blocks → ℕ → Bool
unfolding reads
can_read d = reads d.sata d.ms

unfoldable pub can_write : Blocks → ℕ → Bool
unfolding writes
can_write d = writes d.sata d.ms

read_from_lem :
    (o p : Option Backend) (lba : ℕ)
    → read_from o p lba ≡ (if reads o p lba then some (holds o p lba) else none)
unfolding read_from backend_read reads holds
read_from_lem (some dev) p lba = refl
read_from_lem none (some dev) lba = refl
read_from_lem none none lba = refl

pub block_read_sector_lem :
    (d : Blocks) (lba : ℕ)
    → block_read_sector d lba ≡ (if can_read d lba then some (disk_at d lba) else none)
unfolding block_read_sector can_read disk_at
block_read_sector_lem d lba = read_from_lem d.sata d.ms lba

-- How the disk follows from the disk `d` by a write that was made or that failed.
pub record Wrote (d : Blocks) (lba : ℕ) (b : Bytes) (out : Bool × Blocks) : Type 0 where
  pub result : out.0 ≡ can_write d lba
  pub at :
      (l : ℕ)
      → disk_at out.1 l ≡ (
          if out.0
          then (if l == lba then b else disk_at d l)
          else (if l == lba then torn d lba b else disk_at d l))
  pub still_reads : (l : ℕ) → can_read out.1 l ≡ can_read d l
  pub still_writes : (l : ℕ) → can_write out.1 l ≡ can_write d l

write_to-Wrote :
    (o p : Option Backend) (d : Blocks) (lba : ℕ) (b : Bytes)
    → d.sata ≡ o
    → d.ms ≡ p
    → Wrote d lba b (write_to o p d lba b)
unfolding write_to backend_write can_write can_read disk_at reads writes holds torn spoils
    has_device
write_to-Wrote (some dev) p d lba b e f = record {
  result = ground arith;
  at = λ l. ground arith;
  still_reads = λ l. ground arith;
  still_writes = λ l. ground arith;
}
write_to-Wrote none (some dev) d lba b e f = record {
  result = ground arith;
  at = λ l. ground arith;
  still_reads = λ l. ground arith;
  still_writes = λ l. ground arith;
}
write_to-Wrote none none d lba b e f = record {
  result = ground arith;
  at = λ l. ground arith;
  still_reads = λ l. ground arith;
  still_writes = λ l. ground arith;
}

pub block_write_sector-Wrote :
    (d : Blocks) (lba : ℕ) (b : Bytes) → Wrote d lba b (block_write_sector d lba b)
unfolding block_write_sector
block_write_sector-Wrote d lba b = write_to-Wrote d.sata d.ms d lba b refl refl

pub flush_cache-disk_at : (d : Blocks) (l : ℕ) → disk_at (flush_cache d) l ≡ disk_at d l
unfolding flush_cache disk_at
flush_cache-disk_at d l = ground arith
