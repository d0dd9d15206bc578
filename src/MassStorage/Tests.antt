-- ===== src/MassStorage/Tests.antt =====
-- Runs of the USB disk's driver on the emulated disk of drivers/usb/usb_host_xhci.c.
use entropy_os.Prelude.{
  ℕ, ◌*◌, ◌^◌, ◌<◌, ◌≡◌, refl, true, false, none, some, List, [], ◌⊎◌, take, replicate, zeros,
  bytes_at, arith, ltb, ◌+◌,
}
use entropy_os.Block.{Backend, Blocks, block_read_sector}
use entropy_os.Block.Laws.{can_read, can_write}
use entropy_os.MassStorage.{
  Disk, read_transfers, send_cbw, recv_data, recv_csw, csw_valid, ms_read_blocks, ms_write_blocks,
  cbw, cdb10,
}
use entropy_os.MassStorage.Commands.{decode, decode-cbw}
use entropy_os.MassStorage.Emulator.{
  Emulator, host, bytes_from, take_command, finish, give_blocks, give_status, bulk_in, bulk_out,
  read_sectors, take_data,
}
use entropy_os.MassStorage.Emulator.Phases.{IsHealthy}
use entropy_os.MassStorage.Emulator.Disk.{ms_read_blocks-ms_write_blocks}
use entropy_os.MassStorage.Refusals.{Transferred, ms_read_blocks-Transferred}

-- a SATA disk whose sectors are all zeros
abbrev blank : Blocks
blank = record {
  sata = some (record {
    sector = λ _. zeros;
    readable = λ _. true;
    writable = λ _. true;
    spoiled = λ _ b. b;
  });
  ms = none;
  flushes = 0;
}

abbrev ready : Emulator
ready = record {
  blocks = blank;
  present = true;
  ms = record {
    cbw_tag = 1;
    cbw_flags = 0x80;
    cbw_cdb = [];
    cbw_data_len = 8;
    cbw_valid = false;
    expect_csw = false;
    csw_buf = [];
    last_lba = 99;
    block_size = 512;
  };
}

abbrev disk : Disk (host true false)
disk = record {
  host = ready;
  ep_in = 1;
  ep_out = 2;
  interface = 0;
  num_blocks = 100;
  block_size = 512;
  present = true;
}

ready-IsHealthy : IsHealthy 100 ready
unfolding can_read can_write
ready-IsHealthy = record {
  good = record { reads = λ l _. refl; writes = λ l _. refl };
  size = refl;
  last = refl;
}

abbrev sevens : List ℕ
sevens = replicate 512 7

ms_read_blocks-ms_write_blocks_example :
    ((ms_write_blocks (host true false) 5 1 sevens disk).0 ≡ true)
    × ((ms_read_blocks
          (host true false)
          5
          1
          (ms_write_blocks (host true false) 5 1 sevens disk).1).0
        ≡ some (take (1 * 512) sevens))
ms_read_blocks-ms_write_blocks_example =
    ms_read_blocks-ms_write_blocks true false disk 100 5 1 sevens ready-IsHealthy refl refl
      (omega arith) (omega arith) (omega arith) (omega arith) (λ e. omega (arith, e))

decode-cbw_example :
    decode (cbw 0xA5 0x80 (cdb10 0x28 70000 3) 1536)
    ≡ record { tag = 0xA5; transfer_length = 1536; flags = 0x80; op = 0x28; lba = 70000; count = 3 }
decode-cbw_example =
    decode-cbw 0xA5 0x80 0x28 70000 3 1536 (omega arith) (omega arith) (omega arith)

-- a read of one block that ended well
abbrev after_one : Disk (host true false)
after_one = (ms_read_blocks (host true false) 5 1 disk).1

one_block : ms_read_blocks (host true false) 5 1 disk ≡ (some (bytes_at zeros 0 512), after_one)
unfolding ms_read_blocks read_transfers send_cbw recv_data recv_csw cbw cdb10 csw_valid bytes_from
    take_command finish give_blocks give_status bulk_in bulk_out read_sectors take_data
    block_read_sector bytes_at
one_block = refl

ms_read_blocks-Transferred_example :
    (disk.present ≡ true)
    × ((◌≡◌ {A = ℕ} 1 0 × ◌≡◌ {A = List ℕ} (bytes_at zeros 0 512) [])
        ⊎ ((5 < 2 ^ 32) × Transferred (host true false) 5 1 disk (bytes_at zeros 0 512)))
ms_read_blocks-Transferred_example =
    ms_read_blocks-Transferred (host true false) 5 1 disk (bytes_at zeros 0 512) after_one one_block

-- the emulation before the first call, over a SATA disk of 2^20 + 500 sectors
abbrev half_gigabyte : Backend
half_gigabyte = record {
  sector = λ _. zeros;
  readable = λ l. ltb l (2 ^ 20 + 500);
  writable = λ _. true;
  spoiled = λ _ b. b;
}

abbrev fresh : Emulator
fresh = record ready {
  blocks = record { sata = some half_gigabyte; ms = none; flushes = 0 };
  ms = record ready.ms { last_lba = 0; block_size = 0 };
}
