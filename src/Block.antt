-- ===== src/Block.antt =====
-- drivers/block/block.c: the block layer, which passes each request to the SATA disk if there is
-- one, and else to the USB mass-storage device. The two drivers are behind `Backend`.
pub mod Laws
use entropy_os.Prelude.{
  ℕ, ◌+◌, Bool, true, false, ◌||◌, Option, none, some, Bytes, ◌==◌, if◌then◌else◌,
}

-- A device as its driver shows it: what each sector holds, where a read or a write fails, and what a
-- sector holds after a write of some bytes that failed, which may have got to it in part or whole.
pub record Backend : Type 0 where
  pub sector : ℕ → Bytes
  pub readable : ℕ → Bool
  pub writable : ℕ → Bool
  pub spoiled : ℕ → Bytes → Bytes

-- The devices that are present, and how often the cache of the SATA disk was flushed.
pub record Blocks : Type 0 where
  pub sata : Option Backend
  pub ms : Option Backend
  pub flushes : ℕ

unfoldable pub backend_read : Backend → ℕ → Option Bytes
backend_read dev lba = if dev.readable lba then some (dev.sector lba) else none

unfoldable pub backend_write : Backend → ℕ → Bytes → Bool × Backend
backend_write dev lba b =
    if dev.writable lba
    then (true, record dev { sector = λ l. if l == lba then b else dev.sector l })
    else (false, record dev { sector = λ l. if l == lba then dev.spoiled lba b else dev.sector l })

abbrev is_present : Option Backend → Bool
is_present none = false
is_present (some dev) = true

-- `sata_is_present`
unfoldable pub sata_is_present : Blocks → Bool
sata_is_present d = is_present d.sata

-- `block_is_present`
unfoldable pub block_is_present : Blocks → Bool
block_is_present d = is_present d.sata || is_present d.ms

read_from : Option Backend → Option Backend → ℕ → Option Bytes
read_from (some dev) other lba = backend_read dev lba
read_from none (some dev) lba = backend_read dev lba
read_from none none lba = none

-- `block_read_sector`; `none` is the result -1.
unfoldable pub block_read_sector : Blocks → ℕ → Option Bytes
unfolding read_from backend_read
block_read_sector d lba = read_from d.sata d.ms lba

write_to : Option Backend → Option Backend → Blocks → ℕ → Bytes → Bool × Blocks
write_to (some dev) other d lba b =
    let (ok, dev') = backend_write dev lba b in (ok, record d { sata = some dev' })
write_to none (some dev) d lba b =
    let (ok, dev') = backend_write dev lba b in (ok, record d { ms = some dev' })
write_to none none d lba b = (false, d)

-- `block_write_sector`; `true` is the result 0.
unfoldable pub block_write_sector : Blocks → ℕ → Bytes → Bool × Blocks
unfolding write_to backend_write
block_write_sector d lba b = write_to d.sata d.ms d lba b

-- The loop of five cache flushes with which the file system ends a change.
unfoldable pub flush_cache : Blocks → Blocks
unfolding sata_is_present
flush_cache d = if sata_is_present d then record d { flushes = d.flushes + 5 } else d
