-- ===== src/Gpt/Create.antt =====
-- What `gpt_create_table` of fs/gpt/gpt.c leaves in memory and on the disk when it succeeds.
use entropy_os.Prelude.{
  ℕ, ◌+◌, ◌-◌, ◌%◌, ◌≡◌, ◌≢◌, true, ◌&&◌, some, List, replicate, ltb, leb, ◌==◌, if◌then◌else◌,
}
use entropy_os.Block.Laws.{disk_at}
use entropy_os.Gpt.Crc.{crc32}
use entropy_os.Gpt.Data.{max_partitions, Header, Entry, Gpt, zero_entry, array_bytes, seal_header}
use entropy_os.Gpt.Operations.{
  u64, header_sector, array_sector, protective_mbr, new_header, backup_header, verify,
}
use entropy_os.Gpt.Verify.{IsSized, full_crc}

abbrev no_partitions : List Entry
no_partitions = replicate max_partitions zero_entry

-- the header that is written to sector 1
primary : ℕ → List ℕ → Header
primary total guid =
    seal_header
      (record (new_header total guid) { partition_array_crc32 = crc32 (array_bytes no_partitions) })

-- A header as the one in the last sector, which says where the copy of the array should be.
abbrev pub as_backup : ℕ → Header → Header
as_backup total h = record h {
  current_lba = total - 1;
  backup_lba = 1;
  partition_entries_lba = total - 33;
}

-- the header in memory at the end
final : ℕ → List ℕ → Header
final total guid = record (backup_header total (primary total guid)) {
  current_lba = 1;
  backup_lba = (total + u64 - 1) % u64;
  partition_entries_lba = 2;
}

-- How a table that was created is left.
pub record Created (total : ℕ) (guid : List ℕ) (g g' : Gpt) : Type 0 where
  pub sized : IsSized g'.header
  pub first_usable : g'.header.first_usable_lba ≡ 34
  pub last_usable : g'.header.last_usable_lba ≡ total - 34
  pub empty : g'.partitions ≡ replicate max_partitions zero_entry
  pub initialized : g'.initialized ≡ true
  pub on_disk :
      (l : ℕ)
      → l ≢ total - 1
      → disk_at g'.disk l ≡ (
          if l == 0
          then protective_mbr total
          else if l == 1
          then header_sector (record g'.header { header_crc32 = full_crc g'.header })
          else if leb 2 l && ltb l 34
          then array_sector g'.partitions (l - 2)
          else disk_at g.disk l)
  pub verified : verify g' ≡ some (full_crc g'.header == full_crc (as_backup total g'.header))

-- the checksum of the final header with other addresses of a backup
backup_crc : ℕ → List ℕ → ℕ → ℕ → ℕ
backup_crc total guid n m =
    full_crc
      (record (final total guid) { current_lba = n; backup_lba = 1; partition_entries_lba = m })
