-- ===== src/Fat32/Format/Layout.antt =====
-- What `fat32_format` of fs/fat32/fat32.c leaves on the disk when it returns 0.
use entropy_os.Prelude.{
  ℕ, zero, suc, ◌+◌, ◌-◌, ◌*◌, ◌<◌, ◌≤◌, ◌%◌, ◌≡◌, ◌≢◌, refl, ap, sym, ◌∙◌, Bool, true, false, ◌&&◌,
  ◌||◌, Option, List, Bytes, zeros, leb, ltb, ◌==◌, if◌then◌else◌, arith, ==_false, fun_ext, ◌>>=◌,
  bind_true, bind_assoc, guard_true,
}
use entropy_os.Block.{block_is_present}
use entropy_os.Block.Laws.{block_write_sector-Wrote, flush_cache-disk_at}
use entropy_os.Fat32.Volume.{Volume, u32, u64, on_disk, write_sector}
use entropy_os.Fat32.Volume.Sectors.{sector_at}
use entropy_os.Fat32.Format.{
  reserved_sectors, table_size, data_start, boot_sector, info_sector, first_table_sector,
  clear_sectors, write_table, write_tables, formatted, format_disk, format,
}

-- The volume `fs'` has the same place on the disk as `fs`, and its sectors are `f`.
pub record Became (fs fs' : Volume) (f : ℕ → Bytes) : Type 0 where
  pub place : fs'.partition_offset ≡ fs.partition_offset
  pub at : (l : ℕ) → l < u32 → sector_at fs' l ≡ f l

-- A volume on the disk is not wrapped round its end.
abbrev pub IsPlaced : Volume → Type 0
IsPlaced fs = fs.partition_offset + u32 ≤ u64

abbrev changed : Volume → ℕ → Bytes → ℕ → Bytes
changed fs n b l = if l == n then b else sector_at fs l

on_disk-eq_lem :
    (fs : Volume) (m n : ℕ)
    → IsPlaced fs
    → m < u32
    → n < u32
    → (on_disk fs m == on_disk fs n) ≡ (m == n)
on_disk-eq_lem fs m n v h k = ground arith

write_sector-Became :
    (fs : Volume) (n : ℕ) (b : Bytes) {fs' : Volume}
    → IsPlaced fs
    → n < u32
    → write_sector fs n b ≡ (true, fs')
    → Became fs fs' (changed fs n b)
unfolding write_sector
write_sector-Became fs n b {fs'} v h e = record {
  place = ap (λ (r : Bool × Volume). r.1.partition_offset) (sym e);
  at = λ l lt.
      rw
        (
          ← (ap (λ (r : Bool × Volume). r.1) e),
          (block_write_sector-Wrote fs.disk (on_disk fs n) b).at (on_disk fs l),
          ap (λ (r : Bool × Volume). r.0) e,
          on_disk-eq_lem fs l n v lt h,
        )
        refl;
}

-- `n` sectors from `at` on are cleared.
clear_sectors-Became :
    (n at : ℕ) (fs : Volume) {fs' : Volume}
    → IsPlaced fs
    → at + n ≤ u32
    → clear_sectors n at fs ≡ (true, fs')
    → Became fs fs' (λ l. if leb at l && ltb l (at + n) then zeros else sector_at fs l)
unfolding clear_sectors
clear_sectors-Became zero at fs {fs'} v h e = record {
  place = ap (λ (r : Bool × Volume). r.1.partition_offset) (sym e);
  at = λ l lt. rw (none_cleared l, ← (ap (λ (r : Bool × Volume). r.1) e)) refl;
}
  where
    none_cleared : (l : ℕ) → (leb at l && ltb l (at + 0)) ≡ false
    none_cleared l = ground arith
clear_sectors-Became (suc n) at fs {fs'} v h e =
    let (fs1, first, rest) = bind_true (write_sector fs at zeros) (clear_sectors n (at + 1)) e in
    let a = write_sector-Became fs at zeros v (omega arith) first in
    let b = clear_sectors-Became n (at + 1) fs1 (omega (arith, a.place)) (omega arith) rest in
    record { place = b.place ∙ a.place; at = λ l lt. b.at l lt ∙ rw (a.at l lt) (ground arith) }

write_sector_try :
    (fs : Volume) (n : ℕ) (b : Bytes)
    → IsPlaced fs
    → n < u32
    → ((write_sector fs n b).1.partition_offset ≡ fs.partition_offset)
      × ((l : ℕ) → l < u32 → l ≢ n → sector_at (write_sector fs n b).1 l ≡ sector_at fs l)
unfolding write_sector
write_sector_try fs n b v h = (
  refl,
  λ l lt ne.
      rw
        (
          (block_write_sector-Wrote fs.disk (on_disk fs n) b).at (on_disk fs l),
          on_disk-eq_lem fs l n v lt h,
          ==_false ne,
        )
        (ground arith),
)

table_size_bound : (total : ℕ) → table_size total ≤ 4186129
table_size_bound total = omega arith

table_size_pos : (total : ℕ) → 32 < total → total + 1000 < u32 → 1 ≤ table_size total
table_size_pos total h k = omega arith

write_table-Became :
    (total at : ℕ) (b : Bytes) (fs : Volume) {fs' : Volume}
    → IsPlaced fs
    → at + table_size total ≤ u32
    → at < u32
    → write_table total at b fs ≡ (true, fs')
    → Became fs fs' (λ l.
      if l == at
      then b
      else if leb at l && ltb l (at + table_size total)
      then zeros
      else sector_at fs l)
unfolding write_table
write_table-Became total at b fs {fs'} v h k e =
    let (fs1, first, rest) =
      bind_true (write_sector fs at b) (clear_sectors (table_size total - 1) (at + 1)) e in
    let p = write_sector-Became fs at b v k first in
    let q =
      clear_sectors-Became (table_size total - 1) (at + 1) fs1 (omega (arith, p.place))
        (omega arith) rest in
    record { place = q.place ∙ p.place; at = λ l lt. q.at l lt ∙ rw (p.at l lt) (ground arith) }

-- The sectors after both loops, when there are two tables of at least one sector.
write_tables-Became :
    (total : ℕ) (fs : Volume) {fs' : Volume}
    → IsPlaced fs
    → 1 ≤ table_size total
    → write_tables total fs ≡ (true, fs')
    → Became fs fs' (λ l.
      if l == 32
      then first_table_sector
      else if leb 32 l && ltb l (32 + 2 * table_size total)
      then zeros
      else sector_at fs l)
unfolding write_tables
write_tables-Became total fs {fs'} v pos e =
    let bound = table_size_bound total in
    let second : (reserved_sectors + table_size total) % u32 ≡ 32 + table_size total =
      omega (arith, bound) in
    let (fs1, first, rest) =
      bind_true (write_table total reserved_sectors first_table_sector fs)
        (write_table total ((reserved_sectors + table_size total) % u32) zeros) e in
    let p =
      write_table-Became total reserved_sectors first_table_sector fs v (omega (arith, bound))
        (omega arith) first in
    let q =
      write_table-Became total (32 + table_size total) zeros fs1 (omega (arith, p.place))
        (omega (arith, bound)) (omega (arith, bound)) (rw second at rest) in
    record {
      place = q.place ∙ p.place;
      at = λ l lt. q.at l lt ∙ rw (p.at l lt) (ground (arith, bound));
    }

-- What a volume holds when it is formatted, sector by sector, but for sector 7.
abbrev pub layout : ℕ → Option (List ℕ) → Volume → ℕ → Bytes
layout total label fs l =
    if (l == 0) || (l == 6)
    then boot_sector total label
    else if l == 1
    then info_sector total
    else if l == 32
    then first_table_sector
    else if leb 32 l && ltb l (data_start total + 8)
    then zeros
    else sector_at fs l

formatted-Became :
    (total : ℕ) (fs : Volume) {fs' : Volume}
    → formatted total fs ≡ (true, fs')
    → Became fs fs' (sector_at fs)
formatted-Became total fs {fs'} e = record {
  place = ap (λ (r : Bool × Volume). r.1.partition_offset) (sym e);
  at = λ l lt.
      rw (← (ap (λ (r : Bool × Volume). r.1) e)) (flush_cache-disk_at fs.disk (on_disk fs l));
}

-- the last steps of `format_disk`
last_steps : ℕ → Volume → Bool × Volume
last_steps total fs = clear_sectors 8 (data_start total) fs >>= formatted total

last_steps-Became :
    (total : ℕ) (fs : Volume) {fs' : Volume}
    → IsPlaced fs
    → last_steps total fs ≡ (true, fs')
    → Became fs fs' (λ l.
      if leb (data_start total) l && ltb l (data_start total + 8) then zeros else sector_at fs l)
unfolding last_steps
last_steps-Became total fs {fs'} v e =
    let bound = table_size_bound total in
    let (fs1, e1, r1) = bind_true (clear_sectors 8 (data_start total) fs) (formatted total) e in
    let p = clear_sectors-Became 8 (data_start total) fs v (omega (arith, bound)) e1 in
    let q = formatted-Became total fs1 r1 in
    record { place = q.place ∙ p.place; at = λ l lt. q.at l lt ∙ p.at l lt }

table_steps : ℕ → Volume → Bool × Volume
table_steps total fs =
    write_tables total (write_sector fs 7 (info_sector total)).1 >>= last_steps total

-- The tables and the root directory, after the boot sectors and FSInfo.
table_steps_lem :
    (total : ℕ) (fs : Volume) {fs' : Volume}
    → IsPlaced fs
    → 1 ≤ table_size total
    → table_steps total fs ≡ (true, fs')
    → (l : ℕ) → l < u32
    → l ≢ 7
    → sector_at fs' l ≡ (
        if l == 32
        then first_table_sector
        else if leb 32 l && ltb l (data_start total + 8)
        then zeros
        else sector_at fs l)
unfolding table_steps
table_steps_lem total fs {fs'} v pos e l lt ne =
    let bound = table_size_bound total in
    let (place, kept) = write_sector_try fs 7 (info_sector total) v (omega arith) in
    let (fs1, e1, r1) =
      bind_true (write_tables total (write_sector fs 7 (info_sector total)).1) (last_steps total)
        e in
    let p =
      write_tables-Became total (write_sector fs 7 (info_sector total)).1 (omega (arith, place)) pos
        e1 in
    let q = last_steps-Became total fs1 (omega (arith, place, p.place)) r1 in
    q.at l lt ∙ rw (p.at l lt, kept l lt ne) (ground (arith, bound))

boot_steps : ℕ → Option (List ℕ) → Volume → Bool × Volume
boot_steps total label fs = do
  fs ← write_sector fs 0 (boot_sector total label)
  fs ← write_sector fs 6 (boot_sector total label)
  write_sector fs 1 (info_sector total)

boot_steps-Became :
    (total : ℕ) (label : Option (List ℕ)) (fs : Volume) {fs' : Volume}
    → IsPlaced fs
    → boot_steps total label fs ≡ (true, fs')
    → Became fs fs' (λ l.
      if (l == 0) || (l == 6)
      then boot_sector total label
      else if l == 1
      then info_sector total
      else sector_at fs l)
unfolding boot_steps
boot_steps-Became total label fs {fs'} v e =
    let b = boot_sector total label in
    let (fs1, e1, r1) =
      bind_true (write_sector fs 0 b)
        (λ fs. write_sector fs 6 b >>= λ fs. write_sector fs 1 (info_sector total)) e in
    let (fs2, e2, r2) =
      bind_true (write_sector fs1 6 b) (λ fs. write_sector fs 1 (info_sector total)) r1 in
    let p1 = write_sector-Became fs 0 b v (omega arith) e1 in
    let p2 = write_sector-Became fs1 6 b (omega (arith, p1.place)) (omega arith) e2 in
    let p3 =
      write_sector-Became fs2 1 (info_sector total) (omega (arith, p1.place, p2.place))
        (omega arith) r2 in
    record {
      place = p3.place ∙ p2.place ∙ p1.place;
      at = λ l lt. p3.at l lt ∙ rw (p2.at l lt, p1.at l lt) (ground arith);
    }

format_disk_steps :
    (total : ℕ) (label : Option (List ℕ)) (fs : Volume)
    → format_disk total label fs ≡ (boot_steps total label fs >>= table_steps total)
unfolding format_disk boot_steps table_steps last_steps
format_disk_steps total label fs = sym (
    bind_assoc (write_sector fs 0 b) second (table_steps total)
    ∙ ap (λ (k : Volume → Bool × Volume). write_sector fs 0 b >>= k)
        (fun_ext (λ fs. bind_assoc (write_sector fs 6 b) third (table_steps total))))
  where
    b : Bytes
    b = boot_sector total label

    third : Volume → Bool × Volume
    third fs = write_sector fs 1 (info_sector total)

    second : Volume → Bool × Volume
    second fs = write_sector fs 6 b >>= third

-- When `fat32_format` succeeds on a partition of more than 32 sectors and less than 2^32 - 1000, it
-- has written the boot sector to 0 and 6, FSInfo to 1, the reserved entries to the first sector of
-- the first table, and zeros to the rest of both tables (the first sector of the second one
-- included) and to the eight sectors behind; but for sector 7 every other sector is as before.
pub format-layout :
    (total : ℕ) (label : Option (List ℕ)) (fs : Volume) {fs' : Volume}
    → IsPlaced fs
    → 32 < total
    → total + 1000 < u32
    → format total label fs ≡ (true, fs')
    → (l : ℕ) → l < u32
    → l ≢ 7
    → sector_at fs' l ≡ layout total label fs l
unfolding format
format-layout total label fs {fs'} v small big e l lt ne =
    let pos = table_size_pos total small big in
    let (fs1, e1, r1) = bind_true (boot_steps total label fs) (table_steps total) (
      sym (format_disk_steps total label fs)
      ∙ (guard_true (block_is_present fs.disk) (format_disk total label fs) fs e).1) in
    let p = boot_steps-Became total label fs v e1 in
    table_steps_lem total fs1 (omega (arith, p.place)) pos r1 l lt ne
    ∙ rw (p.at l lt) (ground arith)
