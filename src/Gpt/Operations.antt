-- ===== src/Gpt/Operations.antt =====
-- fs/gpt/gpt.c: the functions that read and write the partition table.
use entropy_os.Prelude.{
  ℕ, zero, suc, ◌+◌, ◌-◌, ◌*◌, ◌%◌, ◌^◌, Bool, true, false, not, ◌||◌, Option, none, some, List, [],
  ◌∷◌, Bytes, zeros, put_bytes, put8, put16, put32, same_bytes, set, get_or, get_elem?, take, drop,
  replicate, ltb, leb, ◌==◌, if◌then◌else◌, ◌>>=◌,
}
use entropy_os.Block.{block_is_present, block_write_sector}
use entropy_os.Gpt.Crc.{crc32}
use entropy_os.Gpt.Data.{
  max_partitions, Header, Entry, Gpt, efi_part, gpt_revision, zero_guid, zero_entry, header_bytes,
  array_bytes, header_crc, seal_header, generate_guid, to_units, from_units,
}

abbrev pub u64 : ℕ
u64 = 2 ^ 64

-- `block_write_sector` in the state of this file
unfoldable pub write_block : Gpt → ℕ → Bytes → Bool × Gpt
write_block g lba b = let (ok, d) = block_write_sector g.disk lba b in (ok, record g { disk = d })

-- The header as the first 92 bytes of a sector.
unfoldable pub header_sector : Header → Bytes
header_sector h = put_bytes zeros 0 (header_bytes h)

-- The `i`-th 512 bytes of `g_partitions`.
unfoldable pub array_sector : List Entry → ℕ → Bytes
array_sector es i = put_bytes zeros 0 (take 512 (drop (i * 512) (array_bytes es)))

-- The loop that writes `g_partitions` to the sectors from 2 on, with `n` sectors left.
unfoldable pub write_array : ℕ → ℕ → Gpt → Bool × Gpt
write_array zero i g = (true, g)
write_array (suc n) i g =
    write_block g (2 + i) (array_sector g.partitions i) >>= write_array n (i + 1)

-- the header with both checksums computed anew
unfoldable pub reseal : Gpt → Gpt
reseal g = record g {
  header =
      seal_header (record g.header { partition_array_crc32 = crc32 (array_bytes g.partitions) });
}

-- The end of `gpt_add_partition` and `gpt_delete_partition`: checksums, header and array.
unfoldable pub write_back : Gpt → Bool × Gpt
write_back g = let g' = reseal g in write_block g' 1 (header_sector g'.header) >>= write_array 32 0

-- the protective MBR of `gpt_create_table`
unfoldable pub protective_mbr : ℕ → Bytes
protective_mbr total =
    put16
      (put32 (put32 (put8 zeros 450 0xEE) 454 1) 458
        (if ltb 0xFFFFFFFF total then 0xFFFFFFFF else (total % 2 ^ 32 + 2 ^ 32 - 1) % 2 ^ 32))
      510 0xAA55

-- the GUID of the disk, given or made up, and the seed after that
unfoldable pub guid_or_random : Option (List ℕ) → ℕ → List ℕ × ℕ
guid_or_random none seed = generate_guid seed
guid_or_random (some guid) seed = (guid, seed)

-- the header of `gpt_create_table`, before the checksums
unfoldable pub new_header : ℕ → List ℕ → Header
new_header total guid = record {
  signature = efi_part;
  revision = gpt_revision;
  header_size = 92;
  header_crc32 = 0;
  reserved = 0;
  current_lba = 1;
  backup_lba = (total + u64 - 1) % u64;
  first_usable_lba = 34;
  last_usable_lba = (total + u64 - 34) % u64;
  disk_guid = guid;
  partition_entries_lba = 2;
  num_partition_entries = max_partitions;
  partition_entry_size = 128;
  partition_array_crc32 = 0;
}

-- the state of `gpt_create_table` before the primary header is written
unfoldable pub new_table : ℕ → Option (List ℕ) → Gpt → Gpt
new_table total guid g =
    let (disk_guid, seed) = guid_or_random guid g.seed in
    reseal (record g {
      header = new_header total disk_guid;
      partitions = replicate max_partitions zero_entry;
      seed = seed;
    })

-- the copy of the header for the last sector
unfoldable pub backup_header : ℕ → Header → Header
backup_header total h = seal_header (record h {
  current_lba = (total + u64 - 1) % u64;
  backup_lba = 1;
  partition_entries_lba = (total + u64 - 33) % u64;
})

-- The end of `gpt_create_table`: the backup header is written, which may fail, and three fields of the
-- header are set back.
unfoldable pub write_backup_header : ℕ → Gpt → Bool × Gpt
write_backup_header total g =
    let h = backup_header total g.header in
    let g' =
      (write_block (record g { header = h }) ((total + u64 - 1) % u64) (header_sector h)).1 in
    (
      true,
      record g' {
        header = record h {
          current_lba = 1;
          backup_lba = (total + u64 - 1) % u64;
          partition_entries_lba = 2;
        };
        initialized = true;
      },
    )

-- `gpt_create_table` with a block device
unfoldable pub create_on_disk : ℕ → Option (List ℕ) → Gpt → Bool × Gpt
create_on_disk total guid g = do
  g ← write_block g 0 (protective_mbr total)
  g ← write_block (new_table total guid g) 1 (header_sector (new_table total guid g).header)
  g ← write_array 32 0 g
  write_backup_header total g

-- `gpt_create_table`
unfoldable pub create_table : ℕ → Option (List ℕ) → Gpt → Bool × Gpt
create_table total guid g = elim (block_is_present g.disk) [
  | false ↦ (false, g)
  | true ↦ create_on_disk total guid g
]

-- `memcmp(type_guid, zero_guid, 16) == 0`
abbrev pub is_unused : Entry → Bool
is_unused e = same_bytes e.type_guid zero_guid

-- the loop of `gpt_add_partition` from an index on
unfoldable pub find_unused : List Entry → ℕ → Option ℕ
find_unused [] i = none
find_unused (e ∷ es) i = let rest = find_unused es (i + 1) in if is_unused e then some i else rest

-- the test of the range in `gpt_add_partition`
abbrev pub out_of_range : ℕ → ℕ → Header → Bool
out_of_range first last h =
    ltb first h.first_usable_lba || ltb h.last_usable_lba last || leb last first

-- the units of a name, if there is one
abbrev pub put_name : Option (List ℕ) → List ℕ → List ℕ
put_name none units = units
put_name (some xs) units = to_units xs 0 units

-- the entry of `gpt_add_partition`
unfoldable pub new_entry : ℕ → ℕ → List ℕ → List ℕ → Option (List ℕ) → Entry → Entry
new_entry first last type_guid guid name e = record {
  type_guid = type_guid;
  partition_guid = guid;
  first_lba = first;
  last_lba = last;
  attributes = 0;
  name = put_name name e.name;
}

-- `gpt_add_partition` with an index and a range that will do
unfoldable pub add_at : ℕ → ℕ → ℕ → List ℕ → Option (List ℕ) → Gpt → Bool × Gpt
add_at i first last type_guid name g =
    let (guid, seed) = generate_guid g.seed in
    let e = new_entry first last type_guid guid name (get_or g.partitions i zero_entry) in
    write_back (record g { partitions = set g.partitions i e; seed = seed })

unfoldable pub add_found : Option ℕ → ℕ → ℕ → List ℕ → Option (List ℕ) → Gpt → Bool × Gpt
add_found none first last type_guid name g = (false, g)
add_found (some i) first last type_guid name g = elim (out_of_range first last g.header) [
  | true ↦ (false, g)
  | false ↦ add_at i first last type_guid name g
]

-- `gpt_add_partition`
unfoldable pub add_partition : ℕ → ℕ → List ℕ → Option (List ℕ) → Gpt → Bool × Gpt
add_partition first last type_guid name g = elim g.initialized [
  | false ↦ (false, g)
  | true ↦ add_found (find_unused g.partitions 0) first last type_guid name g
]

-- `gpt_partition_info_t` of a valid entry
pub record Info : Type 0 where
  pub type_guid : List ℕ
  pub partition_guid : List ℕ
  pub first_lba : ℕ
  pub last_lba : ℕ
  pub attributes : ℕ
  pub name : List ℕ

-- The results of `gpt_get_partition`: -1, 0 with what it stored, or a name with no end, behind which
-- the code reads on.
pub data Got : Type 0 where
  refused : Got
  got : Info → Got
  overrun : Got

-- the result for an entry in use, with its name
unfoldable pub info_from : Option (List ℕ) → Entry → Got
info_from none e = overrun
info_from (some xs) e = got (record {
  type_guid = e.type_guid;
  partition_guid = e.partition_guid;
  first_lba = e.first_lba;
  last_lba = e.last_lba;
  attributes = e.attributes;
  name = xs;
})

-- `gpt_get_partition` of an entry
unfoldable pub info_of : Option Entry → Got
unfolding info_from
info_of none = refused
info_of (some e) = if is_unused e then refused else info_from (from_units 72 e.name) e

-- `gpt_get_partition`, with somewhere to store the information
unfoldable pub get_partition : ℕ → Gpt → Got
get_partition i g =
    if not g.initialized || leb max_partitions i
    then refused
    else info_of (get_elem? g.partitions i)

-- The calls of the callback by the loop of `gpt_list_partitions`; `none` says that a name had no end.
unfoldable pub list_from : List Entry → ℕ → Option (List (ℕ × Info))
list_from [] i = some []
list_from (e ∷ es) i =
    let rest = list_from es (i + 1) in
    elim (info_of (some e)) [
      | refused ↦ rest
      | got info ↦ elim rest [ none ↦ none | some xs ↦ some ((i, info) ∷ xs) ]
      | overrun ↦ none
    ]

-- `gpt_list_partitions` with a callback: the result and the calls
unfoldable pub list_partitions : Gpt → Bool × Option (List (ℕ × Info))
list_partitions g = if g.initialized then (true, list_from g.partitions 0) else (false, some [])

-- `gpt_delete_partition`
unfoldable pub delete_partition : ℕ → Gpt → Bool × Gpt
delete_partition i g = elim (not g.initialized || leb max_partitions i) [
  | true ↦ (false, g)
  | false ↦ write_back (record g { partitions = set g.partitions i zero_entry })
]

-- whether a checksum is the saved one
abbrev pub matches : Option ℕ → ℕ → Option Bool
matches none saved = none
matches (some crc) saved = some (crc == saved)

-- the second half of `gpt_verify`, after the checksum of the header
unfoldable pub verify_array : Option Bool → List Entry → Header → Option Bool
verify_array none es h = none
verify_array (some false) es h = some false
verify_array (some true) es h = some (crc32 (array_bytes es) == h.partition_array_crc32)

-- `gpt_verify`; `some true` is 0, and `none` says that the code reads memory behind the header.
unfoldable pub verify : Gpt → Option Bool
verify g =
    if g.initialized
    then verify_array (matches (header_crc g.header) g.header.header_crc32) g.partitions g.header
    else some false
