-- ===== src/Gpt/Disk.antt =====
-- What fs/gpt/gpt.c leaves on the disk: the header in sector 1, the entries in the sectors 2 to 33.
use entropy_os.Prelude.{
  ℕ, zero, suc, ◌+◌, ◌-◌, ◌≡◌, refl, ap, sym, ◌∙◌, Bool, true, false, ◌&&◌, List, Bytes, ltb, leb,
  ◌==◌, if◌then◌else◌, arith, bind_true,
}
use entropy_os.Block.Laws.{disk_at, block_write_sector-Wrote}
use entropy_os.Gpt.Data.{Entry, Gpt}
use entropy_os.Gpt.Operations.{
  write_block, header_sector, array_sector, write_array, reseal, write_back,
}

-- A step changed nothing but the disk, whose sectors are now `f`.
pub record Became (g g' : Gpt) (f : ℕ → Bytes) : Type 0 where
  pub header : g'.header ≡ g.header
  pub partitions : g'.partitions ≡ g.partitions
  pub initialized : g'.initialized ≡ g.initialized
  pub at : (l : ℕ) → disk_at g'.disk l ≡ f l

pub write_block-Became :
    (g : Gpt) (lba : ℕ) (b : Bytes) {g' : Gpt}
    → write_block g lba b ≡ (true, g')
    → Became g g' (λ l. if l == lba then b else disk_at g.disk l)
unfolding write_block
write_block-Became g lba b {g'} e = record {
  header = ap (λ (r : Bool × Gpt). r.1.header) (sym e);
  partitions = ap (λ (r : Bool × Gpt). r.1.partitions) (sym e);
  initialized = ap (λ (r : Bool × Gpt). r.1.initialized) (sym e);
  at = λ l.
      rw
        (
          ← (ap (λ (r : Bool × Gpt). r.1) e),
          (block_write_sector-Wrote g.disk lba b).at l,
          ap (λ (r : Bool × Gpt). r.0) e,
        )
        refl;
}

-- the disk with `n` sectors of the array from the `i`-th on
abbrev pub with_array : List Entry → ℕ → ℕ → (ℕ → Bytes) → ℕ → Bytes
with_array es n i f l = if leb (2 + i) l && ltb l (2 + i + n) then array_sector es (l - 2) else f l

pub write_array-Became :
    (n i : ℕ) (g : Gpt) {g' : Gpt}
    → write_array n i g ≡ (true, g')
    → Became g g' (with_array g.partitions n i (disk_at g.disk))
unfolding write_array
write_array-Became zero i g {g'} e = record {
  header = ap (λ (r : Bool × Gpt). r.1.header) (sym e);
  partitions = ap (λ (r : Bool × Gpt). r.1.partitions) (sym e);
  initialized = ap (λ (r : Bool × Gpt). r.1.initialized) (sym e);
  at = λ l. rw (none_written l, ← (ap (λ (r : Bool × Gpt). r.1) e)) refl;
}
  where
    none_written : (l : ℕ) → (leb (2 + i) l && ltb l (2 + i + 0)) ≡ false
    none_written l = ground arith
write_array-Became (suc n) i g {g'} e =
    let (g1, e1, r1) =
      bind_true (write_block g (2 + i) (array_sector g.partitions i)) (write_array n (i + 1)) e in
    let p = write_block-Became g (2 + i) (array_sector g.partitions i) e1 in
    let q = write_array-Became n (i + 1) g1 r1 in
    record {
      header = q.header ∙ p.header;
      partitions = q.partitions ∙ p.partitions;
      initialized = q.initialized ∙ p.initialized;
      at = λ l. q.at l ∙ rw (p.at l, p.partitions) (ground (arith, index_lem l));
    }
  where
    index_lem : (l : ℕ) → l ≡ 2 + i → l - 2 ≡ i
    index_lem l h = omega arith

-- the disk with a header and an array
abbrev pub with_table : Gpt → (ℕ → Bytes) → ℕ → Bytes
with_table g f l = if l == 1 then header_sector g.header else with_array g.partitions 32 0 f l

-- What `write_back` leaves when it succeeds.
pub write_back-Became :
    (g : Gpt) {g' : Gpt}
    → write_back g ≡ (true, g')
    → Became (reseal g) g' (with_table (reseal g) (disk_at g.disk))
unfolding write_back reseal
write_back-Became g {g'} e =
    let g0 = reseal g in
    let (g1, e1, r1) =
      bind_true (write_block g0 1 (header_sector g0.header)) (write_array 32 0) e in
    let p = write_block-Became g0 1 (header_sector g0.header) e1 in
    let q = write_array-Became 32 0 g1 r1 in
    record {
      header = q.header ∙ p.header;
      partitions = q.partitions ∙ p.partitions;
      initialized = q.initialized ∙ p.initialized;
      at = λ l. q.at l ∙ rw (p.at l, p.partitions) (ground arith);
    }
