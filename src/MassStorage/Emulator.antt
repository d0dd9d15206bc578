-- ===== src/MassStorage/Emulator.antt =====
-- drivers/usb/usb_host_xhci.c: the USB host's calls. The disk behind them is emulated on the block layer;
-- whether an xHCI controller answers is a parameter.
pub mod Sectors
pub mod Probe
pub mod Phases
pub mod Disk
use entropy_os.Prelude.{
  ℕ, zero, suc, ◌+◌, ◌-◌, ◌*◌, ◌/◌, ◌%◌, ◌^◌, Bool, true, false, ◌&&◌, ◌||◌, Option, none, some,
  List, [], ◌∷◌, ◌++◌, length, drop, ltb, leb, ◌==◌, if◌then◌else◌, get_or, Bytes, bytes_at,
}
use entropy_os.Block.{
  Blocks, Backend, sata_is_present, block_read_sector, block_write_sector, backend_read,
}
use entropy_os.MassStorage.{UsbHost, le32, be32, from_le32, from_be32}

-- `usbms`; the variables are 0 at the start.
pub record Usbms : Type 0 where
  pub cbw_tag : ℕ
  pub cbw_flags : ℕ
  pub cbw_cdb : List ℕ
  pub cbw_data_len : ℕ
  pub cbw_valid : Bool
  pub expect_csw : Bool
  pub csw_buf : List ℕ
  pub last_lba : ℕ
  pub block_size : ℕ

-- The file's variables with the block layer.
pub record Emulator : Type 0 where
  pub blocks : Blocks
  pub present : Bool
  pub ms : Usbms

-- Bytes of a buffer as they are copied out.
unfoldable pub bytes_from : ℕ → ℕ → List ℕ → List ℕ
bytes_from zero off b = []
bytes_from (suc n) off b = get_or b off 0 ∷ bytes_from n (off + 1) b

-- The status that is prepared for a command; the last of its 13 bytes is never written.
abbrev pub csw_for : ℕ → List ℕ → List ℕ
csw_for tag old = (0x55 ∷ 0x53 ∷ 0x42 ∷ 0x53 ∷ le32 tag) ++ (0 ∷ 0 ∷ 0 ∷ 0 ∷ get_or old 12 0 ∷ [])

-- A command is over: its status waits.
unfoldable pub finish : Usbms → Usbms
finish m = record m { csw_buf = csw_for m.cbw_tag m.csw_buf; expect_csw = true; cbw_valid = false }

-- the block address and the number of blocks in the command
abbrev pub cdb_lba : Usbms → ℕ
cdb_lba m = from_be32 2 m.cbw_cdb

abbrev pub cdb_count : Usbms → ℕ
cdb_count m = 256 * get_or m.cbw_cdb 7 0 + get_or m.cbw_cdb 8 0

-- the command that a buffer holds
unfoldable pub take_command : List ℕ → Usbms → Usbms
take_command b m = record m {
  cbw_valid = true;
  cbw_tag = from_le32 4 b;
  cbw_data_len = from_le32 8 b;
  cbw_flags = get_or b 12 0;
  cbw_cdb = bytes_from 16 15 b;
  expect_csw = false;
}

-- the loop that writes `n` sectors from an offset of the buffer on
unfoldable pub write_sectors : ℕ → ℕ → ℕ → ℕ → List ℕ → Blocks → Bool × Blocks
write_sectors zero lba off size buf d = (true, d)
write_sectors (suc n) lba off size buf d =
    let (ok, d') = block_write_sector d lba (λ k. get_or buf (off + k) 0) in
    elim ok [ false ↦ (false, d') | true ↦ write_sectors n (lba + 1) (off + size) size buf d' ]

-- The part of `usb_host_bulk_out` for data.
unfoldable pub take_data : List ℕ → Emulator → Bool × Emulator
take_data buf e =
    if e.ms.cbw_valid && ((e.ms.cbw_flags == 0) && (get_or e.ms.cbw_cdb 0 0 == 0x2A))
    then (let (ok, d) =
          write_sectors (cdb_count e.ms) (cdb_lba e.ms) 0 e.ms.block_size buf e.blocks in
        elim ok [
          | false ↦ (false, record e { blocks = d })
          | true ↦ (true, record e { blocks = d; ms = finish e.ms })
        ])
    else (true, e)

-- `usb_host_bulk_out` of a buffer that is not NULL
unfoldable pub bulk_out : ℕ → List ℕ → Emulator → Bool × Emulator
bulk_out ep buf e =
    if leb 31 (length buf) && (from_le32 0 buf == 0x43425355)
    then (true, record e { ms = take_command buf e.ms })
    else take_data buf e

-- The loop that reads `n` sectors, for blocks of 512 bytes, the size once the disk was found; `none` is a
-- sector that cannot be read.
unfoldable pub read_sectors : ℕ → ℕ → Blocks → Option (List ℕ)
read_sectors zero lba d = some []
read_sectors (suc n) lba d = elim (block_read_sector d lba) [
  | none ↦ none
  | some b ↦ elim (read_sectors n (lba + 1) d) [
    | none ↦ none
    | some rest ↦ some (bytes_at b 0 512 ++ rest)
  ]
]

-- The part of `usb_host_bulk_in` for the status.
unfoldable pub give_status : ℕ → Emulator → Option (List ℕ × ℕ) × Emulator
give_status len e =
    if e.ms.expect_csw && leb 13 len
    then (some (e.ms.csw_buf, 13), record e { ms = record e.ms { expect_csw = false } })
    else (some ([], 0), e)

-- READ CAPACITY
unfoldable pub give_capacity : ℕ → Emulator → Option (List ℕ × ℕ) × Emulator
give_capacity len e = if ltb len 8 then (none, e) else (
  some (be32 (e.ms.last_lba % 2 ^ 32) ++ be32 e.ms.block_size, 8),
  record e { ms = finish e.ms },
)

-- READ(10)
unfoldable pub give_blocks : ℕ → Emulator → Option (List ℕ × ℕ) × Emulator
give_blocks len e =
    let to_read = cdb_count e.ms * e.ms.block_size % 2 ^ 32 in
    if (get_or e.ms.cbw_cdb 2 0 / 128 % 2 == 1) || ltb len to_read
    then (none, e)
    else elim (read_sectors (cdb_count e.ms) (cdb_lba e.ms) e.blocks) [
      | none ↦ (none, e)
      | some bytes ↦ (some (bytes, to_read), record e { ms = finish e.ms })
    ]

-- `usb_host_bulk_in` into a buffer that is not NULL, with the bytes that it writes there. What a read
-- that failed had already written is left out.
unfoldable pub bulk_in : ℕ → ℕ → Emulator → Option (List ℕ × ℕ) × Emulator
bulk_in ep len e =
    let asked = e.ms.cbw_valid && (e.ms.cbw_flags / 128 % 2 == 1) in
    let op = get_or e.ms.cbw_cdb 0 0 in
    if asked && (op == 0x25)
    then give_capacity len e
    else if asked && (op == 0x28)
    then give_blocks len e
    else give_status len e

-- whether `sata_read_sector` reads a sector
unfoldable pub sata_reads : Blocks → ℕ → Bool
sata_reads d lba = elim d.sata [ none ↦ false | some dev ↦ dev.readable lba ]

-- the exponential search: the last sector that was read, and the next one to try
unfoldable pub grow : ℕ → ℕ → ℕ → Blocks → ℕ × ℕ
grow zero probe last_good d = (probe, last_good)
grow (suc n) probe last_good d =
    let rest = grow n (probe * 2) probe d in if sata_reads d probe then rest else (probe, last_good)

-- the binary search; its fuel is the length of the interval.
unfoldable pub bisect : ℕ → ℕ → ℕ → Blocks → ℕ
bisect zero lo hi d = lo
bisect (suc n) lo hi d =
    let mid = lo + (hi - lo + 1) / 2 in
    if ltb lo hi
    then elim (sata_reads d mid) [ true ↦ bisect n mid hi d | false ↦ bisect n lo (mid - 1) d ]
    else lo

-- `probe_sata_last_lba`
unfoldable pub probe_last_lba : Blocks → ℕ
probe_last_lba d =
    let (probe, last_good) = grow 30 (2 ^ 20) 0 d in
    if last_good == 0 then 0 else bisect (probe - 1 - last_good) last_good (probe - 1) d

-- `usb_host_find_mass_storage` with addresses for its results; what a call that failed wrote there is left out.
unfoldable pub find_mass_storage : Emulator → Option (ℕ × ℕ × ℕ) × Emulator
find_mass_storage e =
    if sata_is_present e.blocks
    then if e.ms.last_lba == 0
      then (let last = probe_last_lba e.blocks in
          (
            if last == 0 then none else some (1, 2, 0),
            record e { ms = record e.ms { last_lba = last; block_size = 512 } },
          ))
      else (some (1, 2, 0), e)
    else (none, e)

-- `usb_host_init`, for the results of `xhci_init_full` and `xhci_init`
unfoldable pub init : Bool → Bool → Emulator → Bool × Emulator
init full basic e = (true, record e { present = full || basic })

-- The calls that the driver makes.
abbrev pub host : Bool → Bool → UsbHost
host full basic = record {
  State = Emulator;
  init = init full basic;
  find_mass_storage = find_mass_storage;
  bulk_out = bulk_out;
  bulk_in = bulk_in;
}
