-- ===== src/Fat32/Format.antt =====
-- fs/fat32/fat32.c: formatting a partition, and mounting it.
pub mod Layout
use entropy_os.Prelude.{
  ℕ, zero, suc, ◌+◌, ◌-◌, ◌*◌, ◌/◌, ◌%◌, Bool, true, false, ◌&&◌, Option, none, some, List, [], ◌∷◌,
  Bytes, zeros, get16, get32, put8, put16, put32, put_bytes, ◌==◌, if◌then◌else◌, set, replicate,
  ◌>>=◌,
}
use entropy_os.Block.{block_is_present, flush_cache}
use entropy_os.Fat32.Volume.{Volume, u32, unknown, read_sector, write_sector, has_info}
use entropy_os.Fat32.Name.{upper, space}

abbrev pub reserved_sectors : ℕ
reserved_sectors = 32

-- `fat_size` of `fat32_format`, in 32 bits: two tables, eight sectors to a cluster
abbrev pub table_size : ℕ → ℕ
table_size total = ((total % u32 + u32 - reserved_sectors) % u32 + 1026 - 1) % u32 / 1026

-- the first sector behind the two tables
abbrev pub data_start : ℕ → ℕ
data_start total = (reserved_sectors + 2 * table_size total) % u32

-- `total_clusters` and `free_clusters` of `fat32_format`
abbrev pub cluster_count : ℕ → ℕ
cluster_count total = (total % u32 + u32 - data_start total) % u32 / 8

abbrev pub free_count : ℕ → ℕ
free_count total = (cluster_count total + u32 - 1) % u32

-- The label in capitals over 11 spaces, at most 11 characters of it.
unfoldable pub label_from : List ℕ → ℕ → List ℕ → List ℕ
label_from [] i out = out
label_from (x ∷ xs) i out = label_from xs (i + 1) (set out i (upper x))

abbrev no_name : List ℕ
no_name = b'N' ∷ b'O' ∷ space ∷ b'N' ∷ b'A' ∷ b'M' ∷ b'E' ∷ space ∷ space ∷ space ∷ space ∷ []

abbrev pub label_bytes : Option (List ℕ) → List ℕ
label_bytes none = no_name
label_bytes (some label) = label_from label 0 (replicate 11 space)

abbrev oem_name : List ℕ
oem_name = b'M' ∷ b'S' ∷ b'W' ∷ b'I' ∷ b'N' ∷ b'4' ∷ b'.' ∷ b'1' ∷ []

abbrev fs_type : List ℕ
fs_type = b'F' ∷ b'A' ∷ b'T' ∷ b'3' ∷ b'2' ∷ space ∷ space ∷ space ∷ []

-- the fields of `fat32_boot_sector_t` that are not 0, up to `total_sectors_32`
unfoldable pub boot_geometry : ℕ → Bytes → Bytes
boot_geometry total b =
    put32
      (put16
        (put16 (put8 (put8 (put16 (put8 (put16 b 11 512) 13 8) 14 reserved_sectors) 16 2) 21 0xF8)
          24 63)
        26 255)
      32 (total % u32)

-- the fields that only FAT32 has
unfoldable pub boot_fat32 : ℕ → Bytes → Bytes
boot_fat32 total b = put16 (put16 (put32 (put32 b 36 (table_size total)) 44 2) 48 1) 50 6

-- the boot sector of `fat32_format`
unfoldable pub boot_sector : ℕ → Option (List ℕ) → Bytes
boot_sector total label =
    put8
      (put8
        (put_bytes
          (put_bytes
            (put32
              (put8
                (put8
                  (boot_fat32 total (
                    boot_geometry total
                      (put_bytes (put_bytes zeros 0 (0xEB ∷ 0x58 ∷ 0x90 ∷ [])) 3 oem_name)))
                  64 0x80)
                66 0x29)
              67 0x12345678)
            71 (label_bytes label))
          82 fs_type)
        510 0x55)
      511 0xAA

-- the FSInfo sector; the hint for the next free cluster is 3
unfoldable pub info_sector : ℕ → Bytes
info_sector total =
    put8
      (put8
        (put32
          (put32
            (put_bytes (put_bytes zeros 0 (0x52 ∷ 0x52 ∷ 0x61 ∷ 0x41 ∷ [])) 484
              (0x72 ∷ 0x72 ∷ 0x41 ∷ 0x61 ∷ []))
            488 (free_count total))
          492 3)
        510 0x55)
      511 0xAA

-- the first sector of a table: two reserved entries and the end of the root directory
unfoldable pub first_table_sector : Bytes
first_table_sector = put32 (put32 (put32 zeros 0 0x0FFFFFF8) 4 0x0FFFFFFF) 8 0x0FFFFFFF

-- `n` sectors from `at` on are cleared.
unfoldable pub clear_sectors : ℕ → ℕ → Volume → Bool × Volume
clear_sectors zero at fs = (true, fs)
clear_sectors (suc n) at fs = write_sector fs at zeros >>= clear_sectors n (at + 1)

-- One round of the loop over the tables: the first sector is `b`, the rest is cleared.
unfoldable pub write_table : ℕ → ℕ → Bytes → Volume → Bool × Volume
write_table total at b fs = write_sector fs at b >>= clear_sectors (table_size total - 1) (at + 1)

-- The loop over the two tables. The buffer is cleared in the first round, so that the second table
-- starts with zeros.
unfoldable pub write_tables : ℕ → Volume → Bool × Volume
write_tables total fs =
    write_table total reserved_sectors first_table_sector fs
    >>= write_table total ((reserved_sectors + table_size total) % u32) zeros

-- the volume when all is written
abbrev formatted : ℕ → Volume → Bool × Volume
formatted total fs =
    (true, record fs { free_clusters = free_count total; disk = flush_cache fs.disk })

-- `fat32_format` with a block device
unfoldable pub format_disk : ℕ → Option (List ℕ) → Volume → Bool × Volume
format_disk total label fs = do
  fs ← write_sector fs 0 (boot_sector total label)
  fs ← write_sector fs 6 (boot_sector total label)
  fs ← write_sector fs 1 (info_sector total)
  fs ← write_tables total (write_sector fs 7 (info_sector total)).1
  fs ← clear_sectors 8 (data_start total) fs
  formatted total fs

-- `fat32_format`
unfoldable pub format : ℕ → Option (List ℕ) → Volume → Bool × Volume
format total label fs = elim (block_is_present fs.disk) [
  | false ↦ (false, fs)
  | true ↦ format_disk total label fs
]

-- the two bytes at the end of a boot sector
abbrev pub has_signature : Bytes → Bool
has_signature b = (b 510 == 0x55) && (b 511 == 0xAA)

-- the fields of `g_fs` from a boot sector
unfoldable pub mount : Bytes → Volume → Volume
mount b fs =
    let start = (get16 b 14 + b 16 * get32 b 36) % u32 in
    record fs {
      fat_begin_lba = get16 b 14;
      fat_size = get32 b 36;
      num_fats = b 16;
      sectors_per_cluster = b 13;
      root_dir_cluster = get32 b 44;
      cluster_begin_lba = start;
      total_clusters = (get32 b 32 + u32 - start) % u32 / b 13;
      initialized = true;
    }

-- the count of free clusters in FSInfo
unfoldable pub info_count : Option Bytes → ℕ
info_count none = unknown
info_count (some b) = if has_info b then get32 b 488 else unknown

unfoldable pub init_from : Option Bytes → Volume → Option (Bool × Volume)
init_from none fs = some (false, fs)
init_from (some b) fs = elim (has_signature b) [
  | false ↦ some (false, fs)
  | true ↦ elim (b 13 == 0) [
    | true ↦ none
    | false ↦
        let fs' = mount b fs in
        some (true, record fs' { free_clusters = info_count (read_sector fs' 1) })
  ]
]

-- `fat32_init`; `none` is the trap of a division by zero, for a boot sector with no sectors per cluster.
unfoldable pub init : Volume → Option (Bool × Volume)
init fs = elim (block_is_present fs.disk) [
  | false ↦ some (false, fs)
  | true ↦ init_from (read_sector fs 0) fs
]
