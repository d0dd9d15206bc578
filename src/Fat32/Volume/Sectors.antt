-- ===== src/Fat32/Volume/Sectors.antt =====
-- What a mounted volume of fs/fat32/fat32.c needs of its numbers and its disk, and reads and
-- writes of single sectors of it.
use entropy_os.Prelude.{
  ℕ, ◌+◌, ◌*◌, ◌<◌, ◌≤◌, ◌≡◌, ap, ◌∙◌, true, some, Bytes, ◌==◌, if◌then◌else◌, arith,
}
use entropy_os.Block.{Blocks, block_write_sector}
use entropy_os.Block.Laws.{
  disk_at, can_read, can_write, block_read_sector_lem, block_write_sector-Wrote,
}
use entropy_os.Fat32.Volume.{Volume, u32, u64, eoc, on_disk, read_sector, write_sector}

-- the first sector behind the volume
abbrev pub volume_end : Volume → ℕ
volume_end fs = fs.cluster_begin_lba + fs.total_clusters * fs.sectors_per_cluster

-- The numbers of `fat32_init` for a volume that a formatter made: the reserved sectors, the copies
-- of the table and the clusters follow one another, the table has an entry for each cluster, and
-- nothing passes 32 bits (64 bits on the disk).
pub record IsMounted (fs : Volume) : Type 0 where
  pub reserved : 8 ≤ fs.fat_begin_lba
  pub copies : 1 ≤ fs.num_fats
  pub tables : fs.fat_begin_lba + fs.num_fats * fs.fat_size ≤ fs.cluster_begin_lba
  pub entries : fs.total_clusters + 2 ≤ fs.fat_size * 128
  pub numbers : fs.total_clusters + 2 < eoc
  pub small : volume_end fs < u32
  pub placed : fs.partition_offset + u32 ≤ u64
  pub has_sectors : 1 ≤ fs.sectors_per_cluster

-- Every sector of the volume can be read and written.
pub record IsReliable (fs : Volume) : Type 0 where
  pub readable : (n : ℕ) → n < volume_end fs → can_read fs.disk (on_disk fs n) ≡ true
  pub writable : (n : ℕ) → n < volume_end fs → can_write fs.disk (on_disk fs n) ≡ true

abbrev pub sector_at : Volume → ℕ → Bytes
sector_at fs n = disk_at fs.disk (on_disk fs n)

abbrev pub with_disk : Volume → Blocks → Volume
with_disk fs d = record fs { disk = d }

-- the disk after a write
abbrev pub written : Blocks → ℕ → Bytes → Blocks
written d lba b = (block_write_sector d lba b).1

pub read_sector_ok :
    (fs : Volume) (n : ℕ)
    → can_read fs.disk (on_disk fs n) ≡ true
    → read_sector fs n ≡ some (sector_at fs n)
unfolding read_sector
read_sector_ok fs n h = rw (block_read_sector_lem fs.disk (on_disk fs n), h)

pub write_sector_ok :
    (fs : Volume) (n : ℕ) (b : Bytes)
    → can_write fs.disk (on_disk fs n) ≡ true
    → write_sector fs n b ≡ (true, with_disk fs (written fs.disk (on_disk fs n) b))
unfolding write_sector
write_sector_ok fs n b h =
    ap (λ ok. (ok, with_disk fs (written fs.disk (on_disk fs n) b)))
      ((block_write_sector-Wrote fs.disk (on_disk fs n) b).result ∙ h)

pub written-at :
    (d : Blocks) (lba : ℕ) (b : Bytes) (l : ℕ)
    → can_write d lba ≡ true
    → disk_at (written d lba b) l ≡ (if l == lba then b else disk_at d l)
written-at d lba b l h = let w = block_write_sector-Wrote d lba b in rw (w.at l, w.result, h)

pub written-reads :
    (d : Blocks) (lba : ℕ) (b : Bytes) (l : ℕ) → can_read (written d lba b) l ≡ can_read d l
written-reads d lba b l = (block_write_sector-Wrote d lba b).still_reads l

pub written-writes :
    (d : Blocks) (lba : ℕ) (b : Bytes) (l : ℕ) → can_write (written d lba b) l ≡ can_write d l
written-writes d lba b l = (block_write_sector-Wrote d lba b).still_writes l

-- Different sectors of a volume are different sectors of the disk.
pub on_disk-eq :
    {fs : Volume} (m n : ℕ)
    → IsMounted fs
    → m < u32
    → n < u32
    → (on_disk fs m == on_disk fs n) ≡ (m == n)
on_disk-eq {fs} m n v h k = ground (arith, v.placed)
