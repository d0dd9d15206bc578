-- ===== src/Gpt/Init.antt =====
-- fs/gpt/gpt.c: `gpt_init`, which reads the partition table.
use entropy_os.Prelude.{
  ℕ, zero, suc, ◌+◌, ◌*◌, ◌/◌, ◌%◌, ◌^◌, Bool, true, false, ◌&&◌, Option, none, some, List, Bytes,
  same_bytes, set, ltb, leb, ◌==◌, if◌then◌else◌,
}
use entropy_os.Block.{block_is_present, block_read_sector}
use entropy_os.Gpt.Data.{
  max_partitions, Header, Entry, Gpt, efi_part, gpt_revision, header_of, entry_of, header_crc,
}
use entropy_os.Gpt.Operations.{u64}

abbrev u32 : ℕ
u32 = 2 ^ 32

-- The inner loop: `n` entries of `size` bytes are left, the next is the `j`-th of the sector; `none`
-- says that the code reads behind the sector.
unfoldable pub copy_entries : ℕ → ℕ → ℕ → ℕ → ℕ → Bytes → List Entry → Option (List Entry)
copy_entries zero j size base count b es = some es
copy_entries (suc n) j size base count b es = elim (leb count ((base + j) % u32)) [
  | true ↦ some es
  | false ↦ elim (leb (j * size + 128) 512) [
    | false ↦ none
    | true ↦
        copy_entries n (j + 1) size base count b (set es ((base + j) % u32) (entry_of b (j * size)))
  ]
]

-- the entries of the `i`-th sector
unfoldable pub load_sector : ℕ → ℕ → Bytes → Gpt → Option (List Entry)
load_sector i count b g =
    let size = g.header.partition_entry_size in
    copy_entries (512 / size) 0 size (i * (512 / size) % u32) count b g.partitions

-- The outer loop, with `n` sectors left; behind it the table is initialized.
unfoldable pub load_array : ℕ → ℕ → ℕ → Gpt → Option (Bool × Gpt)
load_array zero i count g = some (true, record g { initialized = true })
load_array (suc n) i count g =
    elim (block_read_sector g.disk ((g.header.partition_entries_lba + i) % u64)) [
      | none ↦ some (false, g)
      | some b ↦ elim (load_sector i count b g) [
        | none ↦ none
        | some es ↦ load_array n (i + 1) count (record g { partitions = es })
      ]
    ]

-- `entries_to_read`
abbrev pub entries_to_read : Header → ℕ
entries_to_read h =
    if ltb max_partitions h.num_partition_entries then max_partitions else h.num_partition_entries

-- `sectors_needed`, in 32 bits
abbrev pub sectors_needed : Header → ℕ
sectors_needed h = (entries_to_read h * h.partition_entry_size % u32 + 511) % u32 / 512

-- A wrong checksum leaves the field at 0.
unfoldable pub check_crc : Option ℕ → Gpt → Option (Bool × Gpt)
check_crc none g = none
check_crc (some crc) g = elim (g.header.header_crc32 == crc) [
  | false ↦ some (false, record g { header = record g.header { header_crc32 = 0 } })
  | true ↦ load_array (sectors_needed g.header) 0 (entries_to_read g.header) g
]

-- The header is copied before it is looked at.
unfoldable pub load_header : Option Bytes → Gpt → Option (Bool × Gpt)
load_header none g = some (false, g)
load_header (some b) g =
    let g' = record g { header = header_of b } in
    elim (same_bytes g'.header.signature efi_part && (g'.header.revision == gpt_revision)) [
      | false ↦ some (false, g')
      | true ↦ check_crc (header_crc g'.header) g'
    ]

-- `gpt_init`; `none` says that the code reads memory behind the header or the sector.
unfoldable pub init : Gpt → Option (Bool × Gpt)
init g = elim (block_is_present g.disk) [
  | false ↦ some (false, g)
  | true ↦ load_header (block_read_sector g.disk 1) g
]
