-- ===== src/Fat32/Volume/Table.antt =====
-- The file allocation table of fs/fat32/fat32.c as a map from clusters to clusters.
use entropy_os.Prelude.{
  ℕ, ◌+◌, ◌*◌, ◌/◌, ◌%◌, ◌^◌, ◌<◌, ◌≤◌, ◌≡◌, ◌≢◌, ap, ◌∙◌, true, Bytes, ◌&&◌, ◌||◌, ◌==◌, ltb,
  if◌then◌else◌, arith, get32, get32-put32, get32-put32_ne, inl, inr, ◌⊎◌, ℕ_discrete, Bool-cases,
  ltb→lt, ==_true, ==_false,
}
use entropy_os.Block.{Blocks}
use entropy_os.Fat32.Volume.{
  Volume, u32, on_disk, next_in, get_next, set_entry, set_next, write_entry, write_backup,
  fat_sector, fat_offset, entry_offset,
}
use entropy_os.Fat32.Volume.Sectors.{
  IsMounted, IsReliable, volume_end, sector_at, with_disk, written, read_sector_ok, write_sector_ok,
  written-at, written-reads, written-writes, on_disk-eq,
}

-- the clusters that the table has entries for
abbrev pub IsCluster : Volume → ℕ → Type 0
IsCluster fs c = c < fs.total_clusters + 2

abbrev pub backup_sector : Volume → ℕ → ℕ
backup_sector fs c = (fat_sector fs c + fs.fat_size) % u32

abbrev pub new_sector : Volume → ℕ → ℕ → Bytes
new_sector fs c v = set_entry (sector_at fs (fat_sector fs c)) c v

-- the disk after the entry of `c` was set, in both copies if there are two
pub table_disk : Volume → ℕ → ℕ → Blocks
table_disk fs c v =
    let d = written fs.disk (on_disk fs (fat_sector fs c)) (new_sector fs c v) in
    if ltb 1 fs.num_fats then written d (on_disk fs (backup_sector fs c)) (new_sector fs c v) else d

pub two_copies :
    (fs : Volume)
    → IsMounted fs
    → ltb 1 fs.num_fats ≡ true
    → fs.fat_begin_lba + 2 * fs.fat_size ≤ fs.cluster_begin_lba
two_copies fs v h = grind (arith, v.tables, ltb→lt)

pub one_copy : (fs : Volume) → IsMounted fs → fs.fat_begin_lba + fs.fat_size ≤ fs.cluster_begin_lba
one_copy fs v = grind (arith, v.tables, v.copies)

entry_place : (c : ℕ) → c < 2 ^ 28 → (fat_offset c / 512 ≡ c / 128) × (entry_offset c ≡ c % 128 * 4)
entry_place c h = omega arith

entries_apart :
    (c j : ℕ)
    → c < 2 ^ 28
    → j < 2 ^ 28
    → c / 128 ≡ j / 128
    → c ≢ j
    → (entry_offset j + 4 ≤ entry_offset c) ⊎ (entry_offset c + 4 ≤ entry_offset j)
entries_apart c j hc hj e ne = rw ((entry_place c hc).1, (entry_place j hj).1) (omega arith)

pub fat_sector_lem :
    (fs : Volume) (c : ℕ)
    → IsMounted fs
    → IsCluster fs c
    → (fat_sector fs c ≡ fs.fat_begin_lba + c / 128)
      × (entry_offset c ≡ c % 128 * 4)
      × (c / 128 < fs.fat_size)
fat_sector_lem fs c v h =
    let (sec, off) = entry_place c (omega (arith, v.numbers)) in
    (rw sec (omega (arith, v.small, one_copy fs v, v.entries)), off, omega (arith, v.entries))

set_entry-get :
    (b : Bytes) (c j v : ℕ)
    → c < 2 ^ 28
    → j < 2 ^ 28
    → c / 128 ≡ j / 128
    → get32 (set_entry b c v) (entry_offset j) % 2 ^ 28
      ≡ (if c == j then v % 2 ^ 28 else get32 b (entry_offset j) % 2 ^ 28)
unfolding set_entry
set_entry-get b c j v hc hj e = elim (ℕ_discrete c j) [
  | yes p ↦ rw (← p, get32-put32) (ground arith)
  | no p ↦
      rw (get32-put32_ne b (entry_offset c) _ (entry_offset j) (entries_apart c j hc hj e p))
        (ground arith)
]

backup_sector_lem :
    (fs : Volume) (c : ℕ)
    → IsMounted fs
    → IsCluster fs c
    → ltb 1 fs.num_fats ≡ true
    → backup_sector fs c ≡ fs.fat_begin_lba + fs.fat_size + c / 128
backup_sector_lem fs c m h two =
    let (sec, off, lt) = fat_sector_lem fs c m h in
    rw sec (omega (arith, two_copies fs m two, m.small))

backup-lt :
    (fs : Volume) (c : ℕ)
    → IsMounted fs
    → IsCluster fs c
    → ltb 1 fs.num_fats ≡ true
    → backup_sector fs c < volume_end fs
backup-lt fs c m h two =
    omega (arith, backup_sector_lem fs c m h two, two_copies fs m two, (fat_sector_lem fs c m h).2)

-- In a reliable volume `fat32_set_next_cluster` succeeds, and changes the disk only.
pub set_next_ok :
    (fs : Volume) (c v : ℕ)
    → IsMounted fs
    → IsReliable fs
    → IsCluster fs c
    → set_next fs c v ≡ (true, with_disk fs (table_disk fs c v))
unfolding set_next write_entry write_backup table_disk
set_next_ok fs c v m r h =
    let (sec, off, lt) = fat_sector_lem fs c m h in
    let first : fat_sector fs c < volume_end fs = omega (arith, one_copy fs m) in
    rw
      (
        read_sector_ok fs (fat_sector fs c) (r.readable _ first),
        write_entry,
        write_sector_ok fs (fat_sector fs c) (new_sector fs c v) (r.writable _ first),
      )
      (elim (Bool-cases (ltb 1 fs.num_fats)) [
        | inl two ↦ rw two (
            write_sector_ok _ (backup_sector fs c) (new_sector fs c v) (
              written-writes fs.disk _ (new_sector fs c v) _
              ∙ r.writable _ (backup-lt fs c m h two)))
        | inr one ↦ rw one
      ])

-- What a sector of the volume holds after the entry of `c` was set.
pub table_disk-at :
    (fs : Volume) (c v l : ℕ)
    → IsMounted fs
    → IsReliable fs
    → IsCluster fs c
    → l < volume_end fs
    → sector_at (with_disk fs (table_disk fs c v)) l ≡ (
        if l == fat_sector fs c || (ltb 1 fs.num_fats && l == backup_sector fs c)
        then new_sector fs c v
        else sector_at fs l)
unfolding table_disk
table_disk-at fs c v l m r h hl = elim (Bool-cases (ltb 1 fs.num_fats)) [
  | inl two ↦
      rw
        (
          two,
          written-at (written fs.disk (on_disk fs (fat_sector fs c)) (new_sector fs c v))
              (on_disk fs (backup_sector fs c)) (new_sector fs c v) (on_disk fs l)
              (written-writes fs.disk _ (new_sector fs c v) _
                ∙ r.writable _ (backup-lt fs c m h two)),
          written-at fs.disk (on_disk fs (fat_sector fs c)) (new_sector fs c v) (on_disk fs l)
              (r.writable _ first),
          on_disk-eq l (fat_sector fs c) m (omega (arith, m.small)) (omega (arith, m.small, first)),
          on_disk-eq l (backup_sector fs c) m (omega (arith, m.small))
              (omega (arith, m.small, backup-lt fs c m h two)),
        )
        (ground arith)
  | inr one ↦
      rw
        (
          one,
          written-at fs.disk (on_disk fs (fat_sector fs c)) (new_sector fs c v) (on_disk fs l)
              (r.writable _ first),
          on_disk-eq l (fat_sector fs c) m (omega (arith, m.small)) (omega (arith, m.small, first)),
        )
        (ground arith)
]
  where
    first : fat_sector fs c < volume_end fs
    first = omega (arith, fat_sector_lem fs c m h, one_copy fs m)

pub table_disk-IsReliable :
    (fs : Volume) (c v : ℕ) → IsReliable fs → IsReliable (with_disk fs (table_disk fs c v))
unfolding table_disk
table_disk-IsReliable fs c v r = elim (Bool-cases (ltb 1 fs.num_fats)) [
  | inl two ↦ rw two (record {
    readable = λ n h. written-reads _ _ _ _ ∙ written-reads _ _ _ _ ∙ r.readable n h;
    writable = λ n h. written-writes _ _ _ _ ∙ written-writes _ _ _ _ ∙ r.writable n h;
  })
  | inr one ↦ rw one (record {
    readable = λ n h. written-reads _ _ _ _ ∙ r.readable n h;
    writable = λ n h. written-writes _ _ _ _ ∙ r.writable n h;
  })
]

pub with_disk-IsMounted : (fs : Volume) (d : Blocks) → IsMounted fs → IsMounted (with_disk fs d)
with_disk-IsMounted fs d m = record {
  reserved = m.reserved;
  copies = m.copies;
  tables = m.tables;
  entries = m.entries;
  numbers = m.numbers;
  small = m.small;
  placed = m.placed;
  has_sectors = m.has_sectors;
}

get_next_ok :
    (fs : Volume) (j : ℕ)
    → IsMounted fs
    → IsReliable fs
    → IsCluster fs j
    → get_next fs j ≡ get32 (sector_at fs (fat_sector fs j)) (entry_offset j) % 2 ^ 28
unfolding get_next next_in
get_next_ok fs j m r h = rw (
  read_sector_ok fs (fat_sector fs j)
      (r.readable _ (omega (arith, fat_sector_lem fs j m h, one_copy fs m))),
  next_in,
)

-- The sectors that hold the entry of `j` in the first copy are written when they hold that of `c`.
touched :
    (fs : Volume) (c j : ℕ)
    → IsMounted fs
    → IsCluster fs c
    → IsCluster fs j
    → (fat_sector fs j == fat_sector fs c
        || (ltb 1 fs.num_fats && fat_sector fs j == backup_sector fs c))
      ≡ (c / 128 == j / 128)
touched fs c j m h k = elim (Bool-cases (ltb 1 fs.num_fats)) [
  | inl two ↦
      rw
        (
          two,
          backup_sector_lem fs c m h two,
          (fat_sector_lem fs c m h).0,
          (fat_sector_lem fs j m k).0,
        )
        (ground (arith, (fat_sector_lem fs j m k).2))
  | inr one ↦ rw (one, (fat_sector_lem fs c m h).0, (fat_sector_lem fs j m k).0) (ground arith)
]

-- In a reliable volume the entry that `fat32_set_next_cluster` set reads back as the low 28 bits of the
-- value, and `fat32_get_next_cluster` of every other cluster gives what it gave before.
pub get_next-set_next :
    (fs : Volume) (c v j : ℕ)
    → IsMounted fs
    → IsReliable fs
    → IsCluster fs c
    → IsCluster fs j
    → get_next (set_next fs c v).1 j ≡ (if c == j then v % 2 ^ 28 else get_next fs j)
get_next-set_next fs c v j m r h k =
    rw
      (
        set_next_ok fs c v m r h,
        get_next_ok (with_disk fs (table_disk fs c v)) j (with_disk-IsMounted fs _ m)
            (table_disk-IsReliable fs c v r) k,
        get_next_ok fs j m r k,
        table_disk-at fs c v (fat_sector fs j) m r h
            (omega (arith, fat_sector_lem fs j m k, one_copy fs m)),
        touched fs c j m h k,
      )
      (elim (ℕ_discrete (c / 128) (j / 128)) [
        | yes p ↦ rw (
          ==_true p,
          set_entry-get (sector_at fs (fat_sector fs c)) c j v (omega (arith, m.numbers))
              (omega (arith, m.numbers)) p,
          same_sector p,
        )
        | no p ↦ rw (==_false p, ==_false (λ (e : c ≡ j). p (ap (λ i. i / 128) e)))
      ])
  where
    same_sector : c / 128 ≡ j / 128 → fat_sector fs c ≡ fat_sector fs j
    same_sector p = omega (arith, (fat_sector_lem fs c m h).0, (fat_sector_lem fs j m k).0)
