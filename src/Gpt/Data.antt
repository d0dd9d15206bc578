-- ===== src/Gpt/Data.antt =====
-- fs/gpt/gpt.h and fs/gpt/gpt.c: the header and the entries of the table, as values and as bytes on
-- the disk, and the names of partitions.
use entropy_os.Prelude.{
  ℕ, zero, suc, ◌+◌, ◌*◌, ◌/◌, ◌%◌, ◌^◌, Bool, Option, none, some, List, [], ◌∷◌, ◌++◌, Bytes,
  bytes_at, get32, get16, set, get_or, replicate, take, ltb, leb, ◌==◌, if◌then◌else◌,
}
use entropy_os.Block.{Blocks}
use entropy_os.Gpt.Crc.{crc32}

abbrev pub max_partitions : ℕ
max_partitions = 128

-- `gpt_header_t`
pub record Header : Type 0 where
  pub signature : List ℕ
  pub revision : ℕ
  pub header_size : ℕ
  pub header_crc32 : ℕ
  pub reserved : ℕ
  pub current_lba : ℕ
  pub backup_lba : ℕ
  pub first_usable_lba : ℕ
  pub last_usable_lba : ℕ
  pub disk_guid : List ℕ
  pub partition_entries_lba : ℕ
  pub num_partition_entries : ℕ
  pub partition_entry_size : ℕ
  pub partition_array_crc32 : ℕ

-- `gpt_partition_entry_t`; the name has 36 units of 16 bits.
pub record Entry : Type 0 where
  pub type_guid : List ℕ
  pub partition_guid : List ℕ
  pub first_lba : ℕ
  pub last_lba : ℕ
  pub attributes : ℕ
  pub name : List ℕ

-- The static variables of the file, `seed` of `generate_guid` among them, with the disk.
pub record Gpt : Type 0 where
  pub header : Header
  pub partitions : List Entry
  pub initialized : Bool
  pub seed : ℕ
  pub disk : Blocks

-- `GPT_SIGNATURE`
abbrev pub efi_part : List ℕ
efi_part = b'E' ∷ b'F' ∷ b'I' ∷ b' ' ∷ b'P' ∷ b'A' ∷ b'R' ∷ b'T' ∷ []

-- `GPT_REVISION`
abbrev pub gpt_revision : ℕ
gpt_revision = 0x00010000

abbrev pub zero_guid : List ℕ
zero_guid = replicate 16 0

-- all bytes 0
abbrev pub zero_entry : Entry
zero_entry = record {
  type_guid = zero_guid;
  partition_guid = zero_guid;
  first_lba = 0;
  last_lba = 0;
  attributes = 0;
  name = replicate 36 0;
}

-- the `n` bytes of a number, the lowest first
unfoldable pub le : ℕ → ℕ → List ℕ
le zero v = []
le (suc n) v = v % 256 ∷ le n (v / 256)

-- lists of bytes one behind the other
abbrev pub joined : List (List ℕ) → List ℕ
joined [] = []
joined (xs ∷ xss) = xs ++ joined xss

-- the 92 bytes of `gpt_header_t`, which is packed
unfoldable pub header_bytes : Header → List ℕ
header_bytes h = joined (
    h.signature
    ∷ le 4 h.revision
    ∷ le 4 h.header_size
    ∷ le 4 h.header_crc32
    ∷ le 4 h.reserved
    ∷ le 8 h.current_lba
    ∷ le 8 h.backup_lba
    ∷ le 8 h.first_usable_lba
    ∷ le 8 h.last_usable_lba
    ∷ h.disk_guid
    ∷ le 8 h.partition_entries_lba
    ∷ le 4 h.num_partition_entries
    ∷ le 4 h.partition_entry_size
    ∷ le 4 h.partition_array_crc32
    ∷ [])

unfoldable pub units_bytes : List ℕ → List ℕ
units_bytes [] = []
units_bytes (u ∷ us) = le 2 u ++ units_bytes us

-- the 128 bytes of `gpt_partition_entry_t`, which is packed
unfoldable pub entry_bytes : Entry → List ℕ
entry_bytes e = joined (
    e.type_guid
    ∷ e.partition_guid
    ∷ le 8 e.first_lba
    ∷ le 8 e.last_lba
    ∷ le 8 e.attributes
    ∷ units_bytes e.name
    ∷ [])

-- the bytes of `g_partitions`
unfoldable pub array_bytes : List Entry → List ℕ
array_bytes [] = []
array_bytes (e ∷ es) = entry_bytes e ++ array_bytes es

unfoldable pub get64 : Bytes → ℕ → ℕ
get64 b off = get32 b off + 2 ^ 32 * get32 b (off + 4)

-- `memcpy` of a sector to `g_gpt_header`
unfoldable pub header_of : Bytes → Header
header_of b = record {
  signature = bytes_at b 0 8;
  revision = get32 b 8;
  header_size = get32 b 12;
  header_crc32 = get32 b 16;
  reserved = get32 b 20;
  current_lba = get64 b 24;
  backup_lba = get64 b 32;
  first_usable_lba = get64 b 40;
  last_usable_lba = get64 b 48;
  disk_guid = bytes_at b 56 16;
  partition_entries_lba = get64 b 72;
  num_partition_entries = get32 b 80;
  partition_entry_size = get32 b 84;
  partition_array_crc32 = get32 b 88;
}

unfoldable pub units_at : Bytes → ℕ → ℕ → List ℕ
units_at b off zero = []
units_at b off (suc n) = get16 b off ∷ units_at b (off + 2) n

-- `memcpy` of a part of a sector to an entry
unfoldable pub entry_of : Bytes → ℕ → Entry
entry_of b off = record {
  type_guid = bytes_at b off 16;
  partition_guid = bytes_at b (off + 16) 16;
  first_lba = get64 b (off + 32);
  last_lba = get64 b (off + 40);
  attributes = get64 b (off + 48);
  name = units_at b (off + 56) 36;
}

-- The CRC32 of the first `header_size` bytes of a header, its own field taken as 0. `none` says that
-- the code reads memory behind the header.
unfoldable pub header_crc : Header → Option ℕ
header_crc h =
    if leb h.header_size 92
    then some (crc32 (take h.header_size (header_bytes (record h { header_crc32 = 0 }))))
    else none

-- The header with the CRC32 of its 92 bytes put in.
unfoldable pub seal_header : Header → Header
seal_header h = record h { header_crc32 = crc32 (header_bytes (record h { header_crc32 = 0 })) }

-- `seed` after a step
abbrev next_seed : ℕ → ℕ
next_seed seed = (seed * 1103515245 + 12345) % 2 ^ 32

-- the loop of `generate_guid`, with `n` bytes left
unfoldable pub random_bytes : ℕ → ℕ → List ℕ × ℕ
random_bytes zero seed = ([], seed)
random_bytes (suc n) seed =
    let (rest, last) = random_bytes n (next_seed seed) in
    (next_seed seed / 65536 % 256 ∷ rest, last)

-- `generate_guid`; the bit operations keep the low 4 or 6 bits and set a high one.
unfoldable pub generate_guid : ℕ → List ℕ × ℕ
generate_guid seed =
    let (guid, last) = random_bytes 16 seed in
    let guid6 = set guid 6 (get_or guid 6 0 % 16 + 0x40) in
    (set guid6 8 (get_or guid6 8 0 % 64 + 0x80), last)

-- a `char`, which is signed, as a `uint16_t`
abbrev pub widen : ℕ → ℕ
widen x = if ltb x 128 then x else x + 0xFF00

-- `utf8_to_utf16le` with 36 units, from a unit on; a C string is the list of its bytes before the NUL.
unfoldable pub to_units : List ℕ → ℕ → List ℕ → List ℕ
to_units [] i out = set out i 0
to_units (x ∷ xs) i out =
    let rest = to_units xs (i + 1) (set out i (widen x)) in if ltb i 35 then rest else set out i 0

-- `utf16le_to_utf8` with `n` bytes left before the NUL; `none` says that it reads behind the name.
unfoldable pub from_units : ℕ → List ℕ → Option (List ℕ)
from_units n [] = none
from_units zero (u ∷ us) = some []
from_units (suc n) (u ∷ us) =
    let rest = from_units n us in
    if u == 0 then some [] else elim rest [ none ↦ none | some xs ↦ some (u % 256 ∷ xs) ]
