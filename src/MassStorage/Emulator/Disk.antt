-- ===== src/MassStorage/Emulator/Disk.antt =====
-- The emulated disk of drivers/usb/usb_host_xhci.c is what the driver of the USB disk relies on.
use entropy_os.Prelude.{
  ℕ, ◌+◌, ◌-◌, ◌*◌, ◌/◌, ◌%◌, ◌^◌, ◌≤◌, ◌<◌, ◌≡◌, ◌≢◌, refl, ap, ap₂, sym, subst, ◌∙◌, fun_ext,
  Bool, true, false, ◌&&◌, ◌||◌, Option, none, some, List, [], length, take, drop, get_or, ltb, leb,
  ◌==◌, if◌then◌else◌, arith,
}
use entropy_os.Block.{Blocks}
use entropy_os.Block.Laws.{disk_at}
use entropy_os.MassStorage.{Disk, from_le32, ms_read_blocks, ms_write_blocks}
use entropy_os.MassStorage.Transfers.{read_back}
use entropy_os.MassStorage.Blocks.{stored, length-span}
use entropy_os.MassStorage.Device.{IsDisk, Phase, good_status}
use entropy_os.MassStorage.Emulator.{
  Emulator, finish, cdb_lba, cdb_count, take_command, write_sectors, take_data, bulk_out,
  read_sectors, give_status, give_capacity, give_blocks, bulk_in, host,
}
use entropy_os.MassStorage.Emulator.Phases.{
  IsHealthy, IsSending, IsReceiving, IsAnswering, At, Step, blocks_of, finished, took_read,
  took_write,
}
use entropy_os.MassStorage.Emulator.Sectors.{
  block_at, length-bytes_at, read_sectors_lem, write_sectors-Stored,
}

module _ (capacity : ℕ) where
  answered :
      (ep tag : ℕ) (e : Emulator)
      → IsAnswering capacity tag e
      → Step capacity
          (some (good_status tag, 13))
          Phase.idle
          (blocks_of capacity e)
          (bulk_in ep 13 e)
  unfolding bulk_in give_status
  answered ep tag e h =
      let over = record e { ms = record e.ms { expect_csw = false } } in
      let status : bulk_in ep 13 e ≡ (some (good_status tag, 13), over) =
        ap (λ (v : Bool). asked v) h.valid
        ∙ ap₂ (λ (t : Bool) (x : List ℕ). if t then (some (x, 13), over) else (some ([], 0), e))
            waits h.csw in
      subst
        (λ (out : Option (List ℕ × ℕ) × Emulator).
          Step capacity (some (good_status tag, 13)) Phase.idle (blocks_of capacity e) out)
        (sym status)
        (refl, record { good = h.healthy.good; size = h.healthy.size; last = h.healthy.last }, refl)
    where
      asked : Bool → Option (List ℕ × ℕ) × Emulator
      asked v =
          let read = v && (e.ms.cbw_flags / 128 % 2 == 1) in
          let op = get_or e.ms.cbw_cdb 0 0 in
          if read && (op == 0x25)
          then give_capacity 13 e
          else if read && (op == 0x28)
          then give_blocks 13 e
          else give_status 13 e

      waits : (e.ms.expect_csw && leb 13 13) ≡ true
      waits = ap (λ (x : Bool). x && true) h.waits

  gave :
      (ep tag len : ℕ) (bytes : List ℕ) (e : Emulator)
      → capacity < 2 ^ 31
      → IsSending capacity bytes tag e
      → length bytes ≡ len
      → Step capacity
          (some (bytes, len))
          (Phase.status tag)
          (blocks_of capacity e)
          (bulk_in ep len e)
  unfolding bulk_in give_blocks
  gave ep tag len bytes e small h long =
      let n = cdb_count e.ms in
      let op = get_or e.ms.cbw_cdb 0 0 in
      let over = record e { ms = finish e.ms } in
      let asked : (e.ms.cbw_valid && (e.ms.cbw_flags / 128 % 2 == 1)) ≡ true =
        ap₂ (λ (v : Bool) (f : ℕ). v && (f / 128 % 2 == 1)) h.valid h.flags in
      let blocks : bulk_in ep len e ≡ give_blocks len e =
        ap₂ (λ (r : Bool) (o : ℕ). chosen len r o) asked h.op in
      let size : length bytes ≡ n * 512 =
        ap (λ (xs : List ℕ). length xs) h.bytes
        ∙ length-span 512 (blocks_of capacity e) (λ l. length-bytes_at (disk_at e.blocks l) 0 512)
            (cdb_lba e.ms) n in
      let total : n * e.ms.block_size % 2 ^ 32 ≡ len =
        ap (λ (k : ℕ). n * k % 2 ^ 32) h.healthy.size ∙ omega (arith, h.few, size, long) in
      let low : get_or e.ms.cbw_cdb 2 0 / 128 % 2 ≡ 0 = omega (arith, h.within, small) in
      let fits : ((get_or e.ms.cbw_cdb 2 0 / 128 % 2 == 1)
            || ltb len (n * e.ms.block_size % 2 ^ 32))
          ≡ false =
        ground (arith, low, total) in
      let read = read_sectors_lem n (cdb_lba e.ms) e.blocks capacity h.healthy.good h.within in
      let given : give_blocks len e ≡ (some (bytes, len), over) =
        ap
          (λ (t : Bool).
            if t
            then (none, e)
            else reading over (n * e.ms.block_size % 2 ^ 32)
                (read_sectors n (cdb_lba e.ms) e.blocks))
          fits
        ∙ ap₂ (λ (k : ℕ) (o : Option (List ℕ)). reading over k o) total
            (read ∙ ap (λ (xs : List ℕ). some xs) (sym h.bytes)) in
      subst
        (λ (out : Option (List ℕ × ℕ) × Emulator).
          Step capacity (some (bytes, len)) (Phase.status tag) (blocks_of capacity e) out)
        (sym (blocks ∙ given))
        (refl, finished capacity e e.blocks tag h.healthy h.healthy.good h.tag, refl)
    where
      chosen : ℕ → Bool → ℕ → Option (List ℕ × ℕ) × Emulator
      chosen len r o =
          if r && (o == 0x25)
          then give_capacity len e
          else if r && (o == 0x28)
          then give_blocks len e
          else give_status len e

      reading : Emulator → ℕ → Option (List ℕ) → Option (List ℕ × ℕ) × Emulator
      reading over k o = elim o [ none ↦ (none, e) | some bs ↦ (some (bs, k), over) ]

  received :
      (ep l n tag : ℕ) (bytes : List ℕ) (e : Emulator)
      → IsReceiving capacity l n tag e
      → length bytes ≡ n * 512
      → from_le32 0 bytes ≢ 0x43425355
      → Step capacity true
          (Phase.status tag)
          (stored 512 l n bytes (blocks_of capacity e))
          (bulk_out ep bytes e)
  unfolding bulk_out take_data
  received ep l n tag bytes e h long plain =
      let test : (leb 31 (length bytes) && (from_le32 0 bytes == 0x43425355)) ≡ false =
        ground (arith, plain) in
      let asked : (e.ms.cbw_valid && ((e.ms.cbw_flags == 0) && (get_or e.ms.cbw_cdb 0 0 == 0x2A)))
          ≡ true =
        ground (arith, h.valid, h.flags, h.op) in
      let w =
        write_sectors-Stored (cdb_count e.ms) (cdb_lba e.ms) 0 bytes e.blocks capacity
          h.healthy.good h.within (omega (arith, long, h.count)) in
      let out = write_sectors (cdb_count e.ms) (cdb_lba e.ms) 0 512 bytes e.blocks in
      let result : bulk_out ep bytes e ≡ (true, record e { blocks = out.1; ms = finish e.ms }) =
        ap
          (λ (t : Bool).
            if t then (true, record e { ms = take_command bytes e.ms }) else take_data bytes e)
          test
        ∙ ap
            (λ (t : Bool).
              if t
              then writing
                  (write_sectors (cdb_count e.ms) (cdb_lba e.ms) 0 e.ms.block_size bytes e.blocks)
              else (true, e))
            asked
        ∙ ap (λ (k : ℕ). writing (write_sectors (cdb_count e.ms) (cdb_lba e.ms) 0 k bytes e.blocks))
            h.healthy.size
        ∙ ap (λ (ok : Bool). writing (ok, out.1)) w.done in
      subst
        (λ (o : Bool × Emulator).
          Step capacity true (Phase.status tag) (stored 512 l n bytes (blocks_of capacity e)) o)
        (sym result)
        (
          refl,
          finished capacity e out.1 tag h.healthy w.good h.tag,
          fun_ext (λ x.
              w.at x
              ∙ ap
                  (λ (k : ℕ).
                    if leb (cdb_lba e.ms) x && ltb x (cdb_lba e.ms + cdb_count e.ms)
                    then take 512 (drop k bytes)
                    else block_at e.blocks x)
                  (from_start ((x - cdb_lba e.ms) * 512))
              ∙ ap₂
                  (λ (a b : ℕ).
                    if leb a x && ltb x (a + b)
                    then take 512 (drop ((x - a) * 512) bytes)
                    else block_at e.blocks x)
                  h.lba h.count),
        )
    where
      from_start : (k : ℕ) → 0 + k ≡ k
      from_start k = omega arith

      writing : Bool × Blocks → Bool × Emulator
      writing r = elim r.0 [
        | false ↦ (false, record e { blocks = r.1 })
        | true ↦ (true, record e { blocks = r.1; ms = finish e.ms })
      ]

-- With sectors that can be read and written, the emulation keeps to the interface.
abbrev host-IsDisk :
    (full basic : Bool) (ep_in ep_out capacity : ℕ)
    → capacity < 2 ^ 31
    → IsDisk (host full basic) ep_in ep_out 512 capacity
host-IsDisk full basic ep_in ep_out capacity small = record {
  blocks = λ e. block_at e.blocks;
  phase = At capacity;
  takes_read = λ s b h w op flags within few. took_read capacity ep_out b s h w op flags within few;
  takes_write = λ s b h w op flags within. took_write capacity ep_out b s h w op flags within;
  sends = λ s bytes tag len h long. gave capacity ep_in tag len bytes s small h long;
  receives =
      λ s lba n tag bytes h long plain. received capacity ep_out lba n tag bytes s h long plain;
  answers = λ s tag h. answered capacity ep_in tag s h;
  block_size = λ s l. length-bytes_at (disk_at s.blocks l) 0 512;
}

-- What one read after one write of the same blocks gives on a disk.
abbrev ReadsBack : (full basic : Bool) → ℕ → ℕ → List ℕ → Disk (host full basic) → Type 0
ReadsBack full basic lba count buf d =
    ((ms_write_blocks (host full basic) lba count buf d).0 ≡ true)
    × ((ms_read_blocks (host full basic) lba count
          (ms_write_blocks (host full basic) lba count buf d).1).0
        ≡ some (take (count * 512) buf))

-- On the emulated disk of usb_host_xhci.c, what `ms_write_blocks` has written is what `ms_read_blocks` of the
-- same blocks reads, and both succeed. The emulation has been set up, the sectors below a capacity less than
-- 2^31 can be read and written, the blocks lie below it and are fewer than 65536, they have 512 bytes each, and
-- the bytes do not start with the signature USBC.
pub ms_read_blocks-ms_write_blocks :
    (full basic : Bool) (d : Disk (host full basic)) (capacity lba count : ℕ) (buf : List ℕ)
    → IsHealthy capacity d.host
    → d.block_size ≡ 512
    → d.present ≡ true
    → capacity < 2 ^ 31
    → lba + count ≤ capacity
    → count < 65536
    → count * 512 ≤ length buf
    → from_le32 0 (take (count * 512) buf) ≢ 0x43425355
    → ((ms_write_blocks (host full basic) lba count buf d).0 ≡ true)
      × ((ms_read_blocks
            (host full basic)
            lba
            count
            (ms_write_blocks (host full basic) lba count buf d).1).0
          ≡ some (take (count * 512) buf))
ms_read_blocks-ms_write_blocks full basic d capacity lba count buf healthy size here small within
      few room plain =
    subst (λ (k : ℕ). ReadsBack full basic lba count buf (record d { block_size = k })) (sym size)
      (read_back (record d { block_size = 512 }) capacity
        (host-IsDisk full basic d.ep_in d.ep_out capacity small) lba count buf here healthy
        (omega (arith, small, within)) within few (omega (arith, few)) room plain)
