-- ===== src/MassStorage.antt =====
-- drivers/thumbdrive/mass_storage.c: a USB disk behind the bulk-only transport, over the calls of a USB
-- host. Emulator has those of drivers/usb/usb_host_xhci.c.
mod Tests
pub mod Commands
pub mod Emulator
pub mod Blocks
pub mod Device
pub mod Transfers
pub mod Refusals
use entropy_os.Prelude.{
  ℕ, zero, suc, ◌+◌, ◌-◌, ◌*◌, ◌/◌, ◌%◌, ◌^◌, Bool, true, false, not, ◌||◌, Option, none, some,
  List, [], ◌∷◌, ◌++◌, length, ltb, leb, ◌==◌, if◌then◌else◌, get_or, take, replicate,
}

-- The host's calls `usb_host_…`: 0 is `true` or `some`. A transfer to the host gives what the buffer then holds, and how
-- many bytes came.
pub record UsbHost : Type 1 where
  pub State : Type 0
  pub init : State → Bool × State
  pub find_mass_storage : State → Option (ℕ × ℕ × ℕ) × State
  pub bulk_out : ℕ → List ℕ → State → Bool × State
  pub bulk_in : ℕ → ℕ → State → Option (List ℕ × ℕ) × State

-- four bytes, the lowest or the highest first
abbrev pub le32 : ℕ → List ℕ
le32 v = v % 256 ∷ v / 256 % 256 ∷ v / 65536 % 256 ∷ v / 16777216 % 256 ∷ []

abbrev pub be32 : ℕ → List ℕ
be32 v = v / 16777216 % 256 ∷ v / 65536 % 256 ∷ v / 256 % 256 ∷ v % 256 ∷ []

abbrev pub from_le32 : ℕ → List ℕ → ℕ
from_le32 off b =
    get_or b off 0
    + 256 * get_or b (off + 1) 0
    + 65536 * get_or b (off + 2) 0
    + 16777216 * get_or b (off + 3) 0

abbrev pub from_be32 : ℕ → List ℕ → ℕ
from_be32 off b =
    16777216 * get_or b off 0
    + 65536 * get_or b (off + 1) 0
    + 256 * get_or b (off + 2) 0
    + get_or b (off + 3) 0

-- the 31 bytes of a `struct cbw`
unfoldable pub cbw : ℕ → ℕ → List ℕ → ℕ → List ℕ
cbw tag flags cdb data_len =
    le32 0x43425355
    ++ le32 tag
    ++ le32 data_len
    ++ (flags ∷ 0 ∷ length cdb ∷ cdb)
    ++ replicate (16 - length cdb) 0

-- the ten bytes of a command that reads or writes `count` blocks
unfoldable pub cdb10 : ℕ → ℕ → ℕ → List ℕ
cdb10 op lba count = (op ∷ 0 ∷ be32 lba) ++ (0 ∷ count / 256 % 256 ∷ count % 256 ∷ 0 ∷ [])

abbrev pub read_capacity : List ℕ
read_capacity = 0x25 ∷ 0 ∷ 0 ∷ 0 ∷ 0 ∷ 0 ∷ 0 ∷ 0 ∷ 0 ∷ 0 ∷ []

-- the static variables of the file, and the host
pub record Disk (u : UsbHost) : Type 0 where
  pub host : u.State
  pub ep_in : ℕ
  pub ep_out : ℕ
  pub interface : ℕ
  pub num_blocks : ℕ
  pub block_size : ℕ
  pub present : Bool

-- the tests of `recv_csw` once the transfer succeeded
unfoldable pub csw_valid : ℕ → List ℕ × ℕ → Bool
csw_valid tag (b, actual) =
    not (ltb actual 13 || (not (from_le32 0 b == 0x53425355) || not (from_le32 4 b == tag)))

module _ (u : UsbHost) where
  -- `send_cbw`
  unfoldable pub send_cbw : ℕ → ℕ → List ℕ → ℕ → Disk u → Bool × Disk u
  send_cbw tag flags cdb data_len d =
      if ltb 16 (length cdb)
      then (false, d)
      else (let (ok, h) = u.bulk_out d.ep_out (cbw tag flags cdb data_len) d.host in
          (ok, record d { host = h }))

  -- `recv_csw`
  unfoldable pub recv_csw : ℕ → Disk u → Bool × Disk u
  recv_csw tag d =
      let (got, h) = u.bulk_in d.ep_in 13 d.host in
      (elim got [ none ↦ false | some ba ↦ csw_valid tag ba ], record d { host = h })

  -- a transfer to the host of data
  unfoldable pub recv_data : ℕ → Disk u → Option (List ℕ × ℕ) × Disk u
  recv_data len d = let (got, h) = u.bulk_in d.ep_in len d.host in (got, record d { host = h })

  -- what `ms_init` takes from the eight bytes of the answer
  unfoldable pub set_capacity : List ℕ → Disk u → Disk u
  set_capacity bytes d =
      let block_len = from_be32 4 bytes in
      record d {
        num_blocks = from_be32 0 bytes + 1;
        block_size = if block_len == 0 then 512 else block_len;
        present = true;
      }

  -- `ms_init` once the device was found
  unfoldable pub init_found : Disk u → Bool × Disk u
  init_found d =
      let (sent, d1) = send_cbw 1 0x80 read_capacity 8 d in
      elim sent [
        | false ↦ (false, d1)
        | true ↦
            let (got, d2) = recv_data 8 d1 in
            elim got [
              | none ↦ (false, d2)
              | some (bytes, _) ↦
                  let (ok, d3) = recv_csw 1 d2 in
                  elim ok [ false ↦ (false, d3) | true ↦ (true, set_capacity bytes d3) ]
            ]
      ]

  -- `ms_init`
  unfoldable pub ms_init : Disk u → Bool × Disk u
  ms_init d = elim d.present [
    | true ↦ (true, d)
    | false ↦
        let (ok, h) = u.init d.host in
        elim ok [
          | false ↦ (false, record d { host = h })
          | true ↦
              let (found, h') = u.find_mass_storage h in
              elim found [
                | none ↦ (false, record d { host = h' })
                | some (i, o, n) ↦
                    init_found (record d { host = h'; ep_in = i; ep_out = o; interface = n })
              ]
        ]
  ]

  -- `data_len`, which is a uint32_t
  abbrev pub data_length : ℕ → Disk u → ℕ
  data_length count d = count * d.block_size % 2 ^ 32

  -- the transfers of `ms_read_blocks`; `none` is the result -1, else the buffer.
  unfoldable pub read_transfers : ℕ → ℕ → Disk u → Option (List ℕ) × Disk u
  read_transfers lba count d =
      let (sent, d1) = send_cbw 0xA5 0x80 (cdb10 0x28 lba count) (data_length count d) d in
      elim sent [
        | false ↦ (none, d1)
        | true ↦
            let (got, d2) = recv_data (data_length count d) d1 in
            elim got [
              | none ↦ (none, d2)
              | some (bytes, _) ↦
                  let (ok, d3) = recv_csw 0xA5 d2 in
                  elim ok [ false ↦ (none, d3) | true ↦ (some bytes, d3) ]
            ]
      ]

  -- `ms_read_blocks`
  unfoldable pub ms_read_blocks : ℕ → ℕ → Disk u → Option (List ℕ) × Disk u
  ms_read_blocks lba count d =
      if not d.present
      then (none, d)
      else if count == 0
      then (some [], d)
      else if not (lba / 2 ^ 32 == 0)
      then (none, d)
      else read_transfers lba count d

  -- the transfers of `ms_write_blocks`
  unfoldable pub write_transfers : ℕ → ℕ → List ℕ → Disk u → Bool × Disk u
  write_transfers lba count buf d =
      let (sent, d1) = send_cbw 0xB6 0 (cdb10 0x2A lba count) (data_length count d) d in
      elim sent [
        | false ↦ (false, d1)
        | true ↦
            let (ok, h) = u.bulk_out d1.ep_out buf d1.host in
            elim ok [
              | false ↦ (false, record d1 { host = h })
              | true ↦ recv_csw 0xB6 (record d1 { host = h })
            ]
      ]

  -- `ms_write_blocks` of a buffer, cut to the bytes that are sent
  unfoldable pub ms_write_blocks : ℕ → ℕ → List ℕ → Disk u → Bool × Disk u
  ms_write_blocks lba count buf d =
      if not d.present
      then (false, d)
      else if count == 0
      then (true, d)
      else if not (lba / 2 ^ 32 == 0)
      then (false, d)
      else write_transfers lba count (take (data_length count d) buf) d
