-- ===== src/Gpt/Tests.antt =====
-- Runs of the model of fs/gpt/gpt.c, and its theorems at a concrete disk.
use entropy_os.Prelude.{
  ℕ, subst, ◌<◌, ◌≡◌, refl, true, some, none, List, [], ◌∷◌, zeros, replicate, get_or, get_elem?,
  same_bytes, zero, suc, length, set, ap, sym, Option, arith,
}
use entropy_os.Block.{Blocks, block_write_sector}
use entropy_os.Gpt.Crc.{
  crc32_table, divide_bits, crc32, crc_from, crc_step, crc32_table-divide_bits,
}
use entropy_os.Gpt.Data.{max_partitions, Gpt, Entry, zero_entry, generate_guid, header_of, entry_of}
use entropy_os.Gpt.Operations.{
  write_block, header_sector, array_sector, write_array, reseal, write_back, new_header,
  find_unused, add_at, add_found, add_partition, delete_partition, get_partition, got,
}
use entropy_os.Gpt.Changes.{Stored, Added, add_partition-Added, delete_partition-Stored}
use entropy_os.Gpt.Encoding.{Fits, header_of-header_sector}
use entropy_os.Gpt.Entries.{entry_of-array_sector}
use entropy_os.Gpt.Entries
use entropy_os.Gpt.Names.{text_info, get_partition-add_partition}

-- the usual check value of CRC32, for "123456789"
crc32_check : crc32 (0x31 ∷ 0x32 ∷ 0x33 ∷ 0x34 ∷ 0x35 ∷ 0x36 ∷ 0x37 ∷ 0x38 ∷ 0x39 ∷ []) ≡ 0xCBF43926
unfolding crc32 crc_from crc_step
crc32_check = refl

crc32_table-divide_bits_example : get_or crc32_table 200 0 ≡ divide_bits 8 200
crc32_table-divide_bits_example = crc32_table-divide_bits 200 (omega arith)

abbrev perfect : Blocks
perfect = record {
  sata = some (record {
    sector = λ _. zeros;
    readable = λ _. true;
    writable = λ _. true;
    spoiled = λ _ b. b;
  });
  ms = none;
  flushes = 0;
}

abbrev some_guid : List ℕ
some_guid = replicate 16 7

-- a table with no partitions on a disk of 1000 sectors
abbrev start : Gpt
start = record {
  header = new_header 1000 some_guid;
  partitions = replicate max_partitions zero_entry;
  initialized = true;
  seed = 1;
  disk = perfect;
}

abbrev added : Gpt
added = (add_partition 100 200 some_guid (some (b'd' ∷ [])) start).1

adds : add_partition 100 200 some_guid (some (b'd' ∷ [])) start ≡ (true, added)
unfolding add_partition add_found add_at find_unused write_back write_block write_array
    block_write_sector new_header same_bytes reseal
adds = refl

add_partition-Added_example : Added 100 200 some_guid (some (b'd' ∷ [])) start added
unfolding new_header
add_partition-Added_example =
    add_partition-Added 100 200 some_guid (some (b'd' ∷ [])) start
      (record { signature = refl; disk_guid = refl; size = refl }) adds

deletes : delete_partition 5 start ≡ (true, (delete_partition 5 start).1)
unfolding delete_partition write_back write_block write_array block_write_sector new_header reseal
deletes = refl

delete_partition-Stored_example :
    (5 < max_partitions)
    × Stored start (delete_partition 5 start).1 (set start.partitions 5 zero_entry)
unfolding new_header
delete_partition-Stored_example =
    delete_partition-Stored 5 start (record { signature = refl; disk_guid = refl; size = refl })
      deletes

replicate_units :
    (n i : ℕ) {e : Entry} → get_elem? (replicate n zero_entry) i ≡ some e → length e.name ≡ 36
replicate_units zero i h = cc
replicate_units (suc n) zero h = ap (λ (o : Option Entry). units_of o) (sym h)
  where
    units_of : Option Entry → ℕ
    units_of none = 36
    units_of (some e) = length e.name
replicate_units (suc n) (suc i) h = replicate_units n i h

get_partition-add_partition_example :
    (i : ℕ) × (i < max_partitions)
    × (get_partition i added ≡ got (text_info 100 200 some_guid (generate_guid 1).0 (b'd' ∷ [])))
unfolding new_header same_bytes
get_partition-add_partition_example =
    get_partition-add_partition 100 200 some_guid (b'd' ∷ []) start
      (record { signature = refl; disk_guid = refl; size = refl })
      (record { count = refl; units = λ i h. replicate_units 128 i h }) refl
      (omega arith, omega arith, tt) (omega arith) adds

start-Fits : Fits start.header
unfolding new_header
start-Fits = omega arith

header_of-header_sector_example : header_of (header_sector start.header) ≡ start.header
header_of-header_sector_example = header_of-header_sector start.header start-Fits

-- an entry in use, with the name "d"
abbrev data_entry : Entry
data_entry = record {
  type_guid = some_guid;
  partition_guid = some_guid;
  first_lba = 100;
  last_lba = 200;
  attributes = 0;
  name = b'd' ∷ replicate 35 0;
}

pair-Fits :
    (k : ℕ) (e : Entry) → get_elem? (zero_entry ∷ data_entry ∷ []) k ≡ some e → Entries.Fits e
pair-Fits zero e h = subst OptionFits h zero_fits
  where
    OptionFits : Option Entry → Type 0
    OptionFits none = Unit
    OptionFits (some e) = Entries.Fits e

    zero_fits : Entries.Fits zero_entry
    zero_fits = omega arith
pair-Fits (suc zero) e h = subst OptionFits h data_fits
  where
    OptionFits : Option Entry → Type 0
    OptionFits none = Unit
    OptionFits (some e) = Entries.Fits e

    data_fits : Entries.Fits data_entry
    data_fits = omega arith
pair-Fits (suc (suc k)) e h = cc

entry_of-array_sector_example :
    entry_of (array_sector (zero_entry ∷ data_entry ∷ []) 0) 128 ≡ data_entry
entry_of-array_sector_example =
    entry_of-array_sector (zero_entry ∷ data_entry ∷ []) 0 1 data_entry pair-Fits (omega arith) refl
