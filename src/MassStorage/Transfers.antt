-- ===== src/MassStorage/Transfers.antt =====
-- What drivers/thumbdrive/mass_storage.c reads from a disk behind the interface and writes to it.
use entropy_os.Prelude.{
  ℕ, zero, suc, ◌+◌, ◌*◌, ◌/◌, ◌%◌, ◌^◌, ◌≤◌, ◌<◌, ◌≡◌, ◌≢◌, refl, ap, sym, subst, ◌∙◌, Bool, true,
  false, not, Option, none, some, List, [], length, take, length-take, fun_ext, ltb, ◌==◌, ==_true,
  ==_false, if◌then◌else◌, arith,
}
use entropy_os.MassStorage.{
  UsbHost, Disk, from_le32, cbw, cdb10, csw_valid, send_cbw, recv_csw, recv_data, data_length,
  read_transfers, ms_read_blocks, write_transfers, ms_write_blocks,
}
use entropy_os.MassStorage.Blocks.{span, stored, length-span, span-stored}
use entropy_os.MassStorage.Commands.{Command, decode, cbw-IsWrapper, decode-cbw}
use entropy_os.MassStorage.Device.{IsDisk, Phase, good_status}

module _ {u : UsbHost} (d : Disk u) (capacity : ℕ)
    (law : IsDisk u d.ep_in d.ep_out d.block_size capacity) where
  -- A result with the disk idle and certain blocks on it.
  pub record Done {A : Type 0} (a : A) (kept : ℕ → List ℕ) (out : A × Disk u) : Type 0 where
    pub host : u.State
    pub result : out ≡ (a, record d { host = host })
    pub idle : law.phase host Phase.idle
    pub blocks : law.blocks host ≡ kept

  abbrev at : u.State → Disk u
  at h = record d { host = h }

  sent :
      (tag flags len : ℕ) (cdb : List ℕ) (h : u.State)
      → ltb 16 (length cdb) ≡ false
      → (u.bulk_out d.ep_out (cbw tag flags cdb len) h).0 ≡ true
      → send_cbw u tag flags cdb len (at h)
        ≡ (true, at (u.bulk_out d.ep_out (cbw tag flags cdb len) h).1)
  unfolding send_cbw
  sent tag flags len cdb h short e =
      let out = u.bulk_out d.ep_out (cbw tag flags cdb len) h in
      ap (λ (b : Bool). if b then (false, at h) else (out.0, at out.1)) short
      ∙ ap (λ (ok : Bool). (ok, at out.1)) e

  answered :
      (tag : ℕ) (h : u.State)
      → csw_valid tag (good_status tag, 13) ≡ true
      → law.phase h (Phase.status tag)
      → recv_csw u tag (at h) ≡ (true, at (u.bulk_in d.ep_in 13 h).1)
  unfolding recv_csw
  answered tag h valid e =
      let r = u.bulk_in d.ep_in 13 h in
      let (got, _, _) = law.answers h tag e in
      ap
        (λ (o : Option (List ℕ × ℕ)).
          (elim o [ none ↦ false | some ba ↦ csw_valid tag ba ], at r.1))
        got
      ∙ ap (λ (b : Bool). (b, at r.1)) valid

  -- what `ms_read_blocks` does past its tests, transfer by transfer
  abbrev after_csw : List ℕ → Bool × Disk u → Option (List ℕ) × Disk u
  after_csw bytes r = elim r.0 [ false ↦ (none, r.1) | true ↦ (some bytes, r.1) ]

  abbrev after_data : Option (List ℕ × ℕ) × Disk u → Option (List ℕ) × Disk u
  after_data r = elim r.0 [
    | none ↦ (none, r.1)
    | some (bytes, _) ↦ after_csw bytes (recv_csw u 0xA5 r.1)
  ]

  abbrev after_read_cbw : ℕ → Bool × Disk u → Option (List ℕ) × Disk u
  after_read_cbw len r = elim r.0 [ false ↦ (none, r.1) | true ↦ after_data (recv_data u len r.1) ]

  exact_fields :
      (tag flags op lba count : ℕ)
      → tag < 2 ^ 32
      → lba < 2 ^ 32
      → count < 65536
      → decode (cbw tag flags (cdb10 op lba count) (data_length u count d)) ≡ record {
        tag = tag;
        transfer_length = data_length u count d;
        flags = flags;
        op = op;
        lba = lba;
        count = count;
      }
  exact_fields tag flags op lba count ht hl hc =
      let len = data_length u count d in
      let all : count % 65536 ≡ count = omega (arith, hc) in
      decode-cbw tag flags op lba count len ht hl (omega arith)
      ∙ ap
          (λ (k : ℕ). record {
            tag = tag;
            transfer_length = len;
            flags = flags;
            op = op;
            lba = lba;
            count = k;
          })
          all

  read_transfers-Done :
      (lba count : ℕ)
      → law.phase d.host Phase.idle
      → lba < 2 ^ 32
      → lba + count ≤ capacity
      → count < 65536
      → count * d.block_size < 2 ^ 32
      → Done
          (some (span (law.blocks d.host) lba count))
          (law.blocks d.host)
          (read_transfers u lba count d)
  unfolding read_transfers recv_data cdb10 csw_valid
  read_transfers-Done lba count idle hl cap hc hn =
      let len = data_length u count d in
      let bytes = span (law.blocks d.host) lba count in
      let long : length bytes ≡ len =
        length-span d.block_size (law.blocks d.host) (law.block_size d.host) lba count
        ∙ omega (arith, hn) in
      let fields = exact_fields 0xA5 0x80 0x28 lba count (omega arith) hl hc in
      let w = cbw 0xA5 0x80 (cdb10 0x28 lba count) len in
      let within = subst (λ (x : Command). x.lba + x.count ≤ capacity) (sym fields) cap in
      let (ok1, phase1, same1) =
        law.takes_read d.host w idle (cbw-IsWrapper 0xA5 0x80 0x28 lba count len)
          (ap (λ (x : Command). x.op) fields) (ap (λ (x : Command). x.flags) fields) within
          (subst (λ (x : Command). x.count < 65536) (sym fields) hc) in
      let h1 = (u.bulk_out d.ep_out w d.host).1 in
      let sending =
        subst
          (λ (x : Command).
            law.phase h1 (Phase.sending (span (law.blocks d.host) x.lba x.count) x.tag))
          fields phase1 in
      let (ok2, phase2, same2) = law.sends h1 bytes 0xA5 len sending long in
      let h2 = (u.bulk_in d.ep_in len h1).1 in
      let (_, phase3, same3) = law.answers h2 0xA5 phase2 in
      let h3 = (u.bulk_in d.ep_in 13 h2).1 in
      record {
        host = h3;
        result =
            ap (after_read_cbw len) (sent 0xA5 0x80 len (cdb10 0x28 lba count) d.host refl ok1)
            ∙ ap (λ (o : Option (List ℕ × ℕ)). after_data (o, at h2)) ok2
            ∙ ap (after_csw bytes) (answered 0xA5 h2 refl phase2);
        idle = phase3;
        blocks = same3 ∙ same2 ∙ same1;
      }

  abbrev after_bytes : Bool × Disk u → Bool × Disk u
  after_bytes r = elim r.0 [ false ↦ (false, r.1) | true ↦ recv_csw u 0xB6 r.1 ]

  abbrev after_write_cbw : List ℕ → Bool × Disk u → Bool × Disk u
  after_write_cbw buf r = elim r.0 [
    | false ↦ (false, r.1)
    | true ↦
        let (ok, h) = u.bulk_out r.1.ep_out buf r.1.host in
        elim ok [
          | false ↦ (false, record r.1 { host = h })
          | true ↦ recv_csw u 0xB6 (record r.1 { host = h })
        ]
  ]

  write_transfers-Done :
      (lba count : ℕ) (buf : List ℕ)
      → law.phase d.host Phase.idle
      → lba < 2 ^ 32
      → lba + count ≤ capacity
      → count < 65536
      → length buf ≡ count * d.block_size
      → from_le32 0 buf ≢ 0x43425355
      → Done true
          (stored d.block_size lba count buf (law.blocks d.host))
          (write_transfers u lba count buf d)
  unfolding write_transfers cdb10 csw_valid
  write_transfers-Done lba count buf idle hl cap hc long plain =
      let len = data_length u count d in
      let fields = exact_fields 0xB6 0 0x2A lba count (omega arith) hl hc in
      let w = cbw 0xB6 0 (cdb10 0x2A lba count) len in
      let within = subst (λ (x : Command). x.lba + x.count ≤ capacity) (sym fields) cap in
      let (ok1, phase1, same1) =
        law.takes_write d.host w idle (cbw-IsWrapper 0xB6 0 0x2A lba count len)
          (ap (λ (x : Command). x.op) fields) (ap (λ (x : Command). x.flags) fields) within in
      let h1 = (u.bulk_out d.ep_out w d.host).1 in
      let receiving =
        subst (λ (x : Command). law.phase h1 (Phase.receiving x.lba x.count x.tag)) fields phase1 in
      let (ok2, phase2, same2) = law.receives h1 lba count 0xB6 buf receiving long plain in
      let h2 = (u.bulk_out d.ep_out buf h1).1 in
      let (_, phase3, same3) = law.answers h2 0xB6 phase2 in
      record {
        host = (u.bulk_in d.ep_in 13 h2).1;
        result =
            ap (after_write_cbw buf) (sent 0xB6 0 len (cdb10 0x2A lba count) d.host refl ok1)
            ∙ ap (λ (ok : Bool). after_bytes (ok, at h2)) ok2
            ∙ answered 0xB6 h2 refl phase2;
        idle = phase3;
        blocks = same3 ∙ same2 ∙ ap (stored d.block_size lba count buf) same1;
      }

  -- the tests that both operations begin with
  past_tests :
      {A : Type 0} (lba count : ℕ) (x y z : A)
      → d.present ≡ true
      → lba < 2 ^ 32
      → (if not d.present
          then x
          else if count == 0
          then y
          else if not (lba / 2 ^ 32 == 0)
          then x
          else z)
        ≡ (if count == 0 then y else z)
  past_tests lba count x y z here small =
      let low : (lba / 2 ^ 32 == 0) ≡ true = ==_true (omega arith) in
      ap
        (λ (b : Bool).
          if not b then x else if count == 0 then y else if not (lba / 2 ^ 32 == 0) then x else z)
        here
      ∙ ap (λ (b : Bool). if count == 0 then y else if not b then x else z) low

  -- On a working disk that is idle, `ms_read_blocks` of blocks within it, of fewer than 65536 of
  -- them and of fewer than 2^32 bytes, returns what they hold and changes nothing.
  pub ms_read_blocks-Done :
      (lba count : ℕ)
      → d.present ≡ true
      → law.phase d.host Phase.idle
      → lba < 2 ^ 32
      → lba + count ≤ capacity
      → count < 65536
      → count * d.block_size < 2 ^ 32
      → Done
          (some (span (law.blocks d.host) lba count))
          (law.blocks d.host)
          (ms_read_blocks u lba count d)
  unfolding ms_read_blocks
  ms_read_blocks-Done lba zero here idle hl cap hc hn = record {
    host = d.host;
    result = past_tests lba 0 (none, d) (some [], d) (read_transfers u lba 0 d) here hl;
    idle = idle;
    blocks = refl;
  }
  ms_read_blocks-Done lba (suc k) here idle hl cap hc hn =
      let some_blocks : (suc k == 0) ≡ false = ==_false (λ e. omega (arith, e)) in
      let r = read_transfers u lba (suc k) d in
      let r' = read_transfers-Done lba (suc k) idle hl cap hc hn in
      record {
        host = r'.host;
        result =
            past_tests lba (suc k) (none, d) (some [], d) r here hl
            ∙ ap (λ (b : Bool). if b then (some [], d) else r) some_blocks
            ∙ r'.result;
        idle = r'.idle;
        blocks = r'.blocks;
      }

  unchanged : (size lba : ℕ) (bytes : List ℕ) (f : ℕ → List ℕ) → f ≡ stored size lba 0 bytes f
  unchanged size lba bytes f = fun_ext (λ l. ground arith)

  -- On a working disk that is idle, `ms_write_blocks` to blocks within it, of fewer than 65536 of
  -- them and of fewer than 2^32 bytes, succeeds; they then hold the bytes, and the others what they held.
  pub ms_write_blocks-Done :
      (lba count : ℕ) (buf : List ℕ)
      → d.present ≡ true
      → law.phase d.host Phase.idle
      → lba < 2 ^ 32
      → lba + count ≤ capacity
      → count < 65536
      → count * d.block_size < 2 ^ 32
      → count * d.block_size ≤ length buf
      → from_le32 0 (take (count * d.block_size) buf) ≢ 0x43425355
      → Done true
          (stored d.block_size lba count (take (count * d.block_size) buf) (law.blocks d.host))
          (ms_write_blocks u lba count buf d)
  unfolding ms_write_blocks
  ms_write_blocks-Done lba zero buf here idle hl cap hc hn room plain = record {
    host = d.host;
    result =
        past_tests lba 0 (false, d) (true, d)
          (write_transfers u lba 0 (take (data_length u 0 d) buf) d) here hl;
    idle = idle;
    blocks = unchanged d.block_size lba (take (0 * d.block_size) buf) (law.blocks d.host);
  }
  ms_write_blocks-Done lba (suc k) buf here idle hl cap hc hn room plain =
      let some_blocks : (suc k == 0) ≡ false = ==_false (λ e. omega (arith, e)) in
      let cut = take (suc k * d.block_size) buf in
      let r = write_transfers u lba (suc k) (take (data_length u (suc k) d) buf) d in
      let fits : data_length u (suc k) d ≡ suc k * d.block_size = omega (arith, hn) in
      let long : length cut ≡ suc k * d.block_size =
        length-take (suc k * d.block_size) buf ∙ omega (arith, room) in
      let r' = write_transfers-Done lba (suc k) cut idle hl cap hc long plain in
      record {
        host = r'.host;
        result =
            past_tests lba (suc k) (false, d) (true, d) r here hl
            ∙ ap (λ (b : Bool). if b then (true, d) else r) some_blocks
            ∙ ap (λ (n : ℕ). write_transfers u lba (suc k) (take n buf) d) fits
            ∙ r'.result;
        idle = r'.idle;
        blocks = r'.blocks;
      }

-- What `ms_write_blocks` has written to a working disk is what `ms_read_blocks` of the same blocks reads;
-- the blocks lie within the disk, are fewer than 65536, have fewer than 2^32 bytes, and do not start like a command.
pub read_back :
    {u : UsbHost} (d : Disk u) (capacity : ℕ)
    (law : IsDisk u d.ep_in d.ep_out d.block_size capacity) (lba count : ℕ) (buf : List ℕ)
    → d.present ≡ true
    → law.phase d.host Phase.idle
    → lba < 2 ^ 32
    → lba + count ≤ capacity
    → count < 65536
    → count * d.block_size < 2 ^ 32
    → count * d.block_size ≤ length buf
    → from_le32 0 (take (count * d.block_size) buf) ≢ 0x43425355
    → ((ms_write_blocks u lba count buf d).0 ≡ true)
      × ((ms_read_blocks u lba count (ms_write_blocks u lba count buf d).1).0
          ≡ some (take (count * d.block_size) buf))
read_back {u} d capacity law lba count buf here idle hl cap hc hn room plain =
    let w = ms_write_blocks-Done d capacity law lba count buf here idle hl cap hc hn room plain in
    let d' : Disk u = record d { host = w.host } in
    let r = ms_read_blocks-Done d' capacity law lba count here w.idle hl cap hc hn in
    let bytes = take (count * d.block_size) buf in
    let long : length bytes ≡ count * d.block_size =
      length-take (count * d.block_size) buf ∙ omega (arith, room) in
    let held =
      ap (λ (f : ℕ → List ℕ). span f lba count) w.blocks
      ∙ span-stored d.block_size lba count bytes (law.blocks d.host) long in
    (
      ap (λ (x : Bool × Disk u). x.0) w.result,
      ap (λ (x : Bool × Disk u). (ms_read_blocks u lba count x.1).0) w.result
          ∙ ap (λ (x : Option (List ℕ) × Disk u). x.0) r.result
          ∙ ap (λ (xs : List ℕ). some xs) held,
    )
