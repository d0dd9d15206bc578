-- ===== src/Fat32/Volume.antt =====
-- fs/fat32/fat32.c: the mounted volume, clusters, and the file allocation table on the disk.
pub mod Sectors
pub mod Table
pub mod Allocate
pub mod Chain
pub mod Cluster
use entropy_os.Prelude.{
  ℕ, zero, suc, ◌+◌, ◌-◌, ◌*◌, ◌/◌, ◌%◌, ◌^◌, Bool, true, false, ◌&&◌, not, Option, none, some,
  Bytes, zeros, overlay, get32, put32, ltb, leb, ◌==◌, if◌then◌else◌,
}
use entropy_os.Block.{Blocks, block_read_sector, block_write_sector}

abbrev pub u32 : ℕ
u32 = 2 ^ 32

abbrev pub u64 : ℕ
u64 = 2 ^ 64

-- `FAT32_EOC`
abbrev pub eoc : ℕ
eoc = 0x0FFFFFF8

-- the value of `g_free_clusters` that says that the count is not known
abbrev pub unknown : ℕ
unknown = 0xFFFFFFFF

-- `g_fs`, `g_partition_offset` and `g_free_clusters`, with the disk that they describe.
pub record Volume : Type 0 where
  pub fat_begin_lba : ℕ
  pub cluster_begin_lba : ℕ
  pub sectors_per_cluster : ℕ
  pub root_dir_cluster : ℕ
  pub fat_size : ℕ
  pub num_fats : ℕ
  pub total_clusters : ℕ
  pub initialized : Bool
  pub partition_offset : ℕ
  pub free_clusters : ℕ
  pub disk : Blocks

-- `fat32_set_partition_offset`
pub set_partition_offset : ℕ → Volume → Volume
set_partition_offset offset fs = record fs { partition_offset = offset }

-- `g_partition_offset + n`, in 64 bits
abbrev pub on_disk : Volume → ℕ → ℕ
on_disk fs n = (fs.partition_offset + n) % u64

-- A sector of the volume is read; `none` is the result -1.
unfoldable pub read_sector : Volume → ℕ → Option Bytes
read_sector fs n = block_read_sector fs.disk (on_disk fs n)

-- A sector of the volume is written; `true` is the result 0.
unfoldable pub write_sector : Volume → ℕ → Bytes → Bool × Volume
write_sector fs n b =
    let (ok, d) = block_write_sector fs.disk (on_disk fs n) b in (ok, record fs { disk = d })

-- `fat32_cluster_to_lba`, in 32 bits
abbrev pub cluster_to_lba : Volume → ℕ → ℕ
cluster_to_lba fs c = (fs.cluster_begin_lba + (c + u32 - 2) % u32 * fs.sectors_per_cluster) % u32

-- the loop of `fat32_read_cluster`, with `n` sectors left
unfoldable pub read_sectors : Volume → ℕ → ℕ → ℕ → Bytes → Option Bytes
read_sectors fs lba zero i buf = some buf
read_sectors fs lba (suc n) i buf = elim (read_sector fs (lba + i)) [
  | none ↦ none
  | some b ↦ read_sectors fs lba n (i + 1) (overlay buf (i * 512) 512 b)
]

-- `fat32_read_cluster` into a buffer
unfoldable pub read_cluster : Volume → ℕ → Bytes → Option Bytes
read_cluster fs c buf = read_sectors fs (cluster_to_lba fs c) fs.sectors_per_cluster 0 buf

-- the loop of `fat32_write_cluster`
unfoldable pub write_sectors : ℕ → ℕ → ℕ → Bytes → Volume → Bool × Volume
write_sectors lba zero i buf fs = (true, fs)
write_sectors lba (suc n) i buf fs =
    let (ok, fs') = write_sector fs (lba + i) (λ k. buf (i * 512 + k)) in
    elim ok [ true ↦ write_sectors lba n (i + 1) buf fs' | false ↦ (false, fs') ]

-- `fat32_write_cluster`
unfoldable pub write_cluster : Volume → ℕ → Bytes → Bool × Volume
write_cluster fs c buf = write_sectors (cluster_to_lba fs c) fs.sectors_per_cluster 0 buf fs

-- `cluster * 4`, its sector in the table, and its place in that sector
abbrev pub fat_offset : ℕ → ℕ
fat_offset c = c * 4 % u32

abbrev pub fat_sector : Volume → ℕ → ℕ
fat_sector fs c = (fs.fat_begin_lba + fat_offset c / 512) % u32

abbrev pub entry_offset : ℕ → ℕ
entry_offset c = fat_offset c % 512

-- what `fat32_get_next_cluster` makes of the sector that it read
unfoldable pub next_in : Option Bytes → ℕ → ℕ
next_in none c = eoc
next_in (some b) c = get32 b (entry_offset c) % 2 ^ 28

-- `fat32_get_next_cluster`: the low 28 bits of the entry
unfoldable pub get_next : Volume → ℕ → ℕ
get_next fs c = next_in (read_sector fs (fat_sector fs c)) c

-- the new sector of `fat32_set_next_cluster`: the high 4 bits of the entry stay
unfoldable pub set_entry : Bytes → ℕ → ℕ → Bytes
set_entry b c next =
    put32 b (entry_offset c) (get32 b (entry_offset c) / 2 ^ 28 * 2 ^ 28 + next % 2 ^ 28)

-- the second copy of the table
unfoldable pub write_backup : Volume → ℕ → Bytes → Bool × Volume
write_backup fs c b =
    if ltb 1 fs.num_fats
    then write_sector fs ((fat_sector fs c + fs.fat_size) % u32) b
    else (true, fs)

unfoldable pub write_entry : Option Bytes → Volume → ℕ → ℕ → Bool × Volume
write_entry none fs c next = (false, fs)
write_entry (some b) fs c next =
    let (ok, fs') = write_sector fs (fat_sector fs c) (set_entry b c next) in
    if ok then write_backup fs' c (set_entry b c next) else (false, fs')

-- `fat32_set_next_cluster`; `true` is the result 0.
unfoldable pub set_next : Volume → ℕ → ℕ → Bool × Volume
set_next fs c next = write_entry (read_sector fs (fat_sector fs c)) fs c next

abbrev pub count_down : Volume → Volume
count_down fs =
    if not (fs.free_clusters == unknown) && ltb 0 fs.free_clusters
    then record fs { free_clusters = fs.free_clusters - 1 }
    else fs

-- the loop of `fat32_allocate_cluster` from a cluster on, with `n` clusters left
unfoldable pub allocate_from : ℕ → ℕ → Volume → ℕ × Volume
allocate_from zero c fs = (0, fs)
allocate_from (suc n) c fs = elim (get_next fs c == 0) [
  | false ↦ allocate_from n (c + 1) fs
  | true ↦
      let (ok, fs') = set_next fs c eoc in
      elim ok [ true ↦ (c, count_down fs') | false ↦ allocate_from n (c + 1) fs' ]
]

-- `fat32_allocate_cluster`; 0 says that there was none. The bound of the loop is `total + 2` in 32 bits.
unfoldable pub allocate : Volume → ℕ × Volume
allocate fs = allocate_from ((fs.total_clusters + 2) % u32 - 2) 2 fs

-- `fat32_free_cluster`, which frees one cluster
unfoldable pub free_cluster : Volume → ℕ → Bool × Volume
free_cluster fs c =
    let (ok, fs') = set_next fs c 0 in
    (
      ok,
      if ok && not (fs'.free_clusters == unknown)
          then record fs' { free_clusters = (fs'.free_clusters + 1) % u32 }
          else fs',
    )

-- the test of each loop over a chain
abbrev pub in_chain : ℕ → Bool
in_chain c = leb 2 c && ltb c eoc

-- The loop of `fat32_write_file_in` and `fat32_delete_file` that frees a chain. Fuel bounds the
-- rounds; `none` says that it ran out.
unfoldable pub free_chain : ℕ → Volume → ℕ → Option Volume
free_chain zero fs c = none
free_chain (suc n) fs c = elim (in_chain c) [
  | false ↦ some fs
  | true ↦ free_chain n (free_cluster fs c).1 (get_next fs c)
]

-- four bytes of FSInfo, unless the value is not known
unfoldable pub set_info : Bytes → ℕ → ℕ → Bytes
set_info b off v = if v == unknown then b else put32 b off v

-- the four bytes that `fat32_update_fsinfo` and `fat32_init` look for
abbrev pub has_info : Bytes → Bool
has_info b = (b 0 == 0x52) && (b 1 == 0x52) && (b 2 == 0x61) && (b 3 == 0x41)

unfoldable pub update_sector : Option Bytes → Volume → ℕ → ℕ → Bool × Volume
update_sector none fs free_count next_free = (false, fs)
update_sector (some b) fs free_count next_free =
    let b' = set_info (set_info b 488 free_count) 492 next_free in
    let (ok, fs') = write_sector fs 1 b' in
    if has_info b
    then if ok then (true, (write_sector fs' 7 b').1) else (false, fs')
    else (false, fs)

-- `fat32_update_fsinfo`
unfoldable pub update_fsinfo : Volume → ℕ → ℕ → Bool × Volume
update_fsinfo fs free_count next_free = update_sector (read_sector fs 1) fs free_count next_free
