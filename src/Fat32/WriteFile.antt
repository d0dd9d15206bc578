-- ===== src/Fat32/WriteFile.antt =====
-- fs/fat32/fat32.c: writing a file.
use entropy_os.Prelude.{
  ℕ, zero, suc, ◌+◌, ◌-◌, ◌*◌, ◌/◌, ◌%◌, Bool, true, false, ◌&&◌, ◌||◌, Option, none, some, List,
  Bytes, zeros, same_bytes, bytes_at, overlay, ltb, ◌==◌, if◌then◌else◌,
}
use entropy_os.Block.{flush_cache}
use entropy_os.Fat32.Volume.{
  Volume, u32, unknown, read_cluster, write_cluster, get_next, set_next, allocate, in_chain,
  free_chain, update_fsinfo,
}
use entropy_os.Fat32.Name.{name_to_fat}
use entropy_os.Fat32.Directory.{
  DirEntry, entry_at, put_entry, first_cluster, mark, deleted, attr_archive, entries_per_cluster,
  Scan, ended, hit, passed, Outcome, returned, no_fuel,
}
use entropy_os.Fat32.ReadFile.{cluster_bytes, smaller}

-- `entry_cluster`, `entry_index` and `write_dir_buffer`
pub record Slot : Type 0 where
  pub cluster : ℕ
  pub index : ℕ
  pub buffer : Bytes

abbrev pub is_free : ℕ → Bool
is_free m = m == 0 || m == deleted

-- the first free index seen so far
abbrev pub keep_first : Option ℕ → ℕ → Option ℕ
keep_first none i = some i
keep_first (some j) i = some j

-- The inner loop of the scan of `fat32_write_file_in`: the first free index, and how the loop ended.
unfoldable pub scan_slots : Bytes → ℕ → ℕ → List ℕ → Option ℕ → Option ℕ × Scan
scan_slots b zero i name first = (first, passed)
scan_slots b (suc n) i name first =
    let first' = if is_free (mark b i) then keep_first first i else first in
    let rest = scan_slots b n (i + 1) name first' in
    if mark b i == 0
    then (first', ended)
    else if mark b i == deleted
    then rest
    else if same_bytes (bytes_at b (i * 32) 11) name
    then (first', hit i)
    else rest

abbrev pub slot_of : ℕ → Bytes → Option ℕ → Option Slot
slot_of cur b none = none
slot_of cur b (some i) = some (record { cluster = cur; index = i; buffer = b })

-- A slot found in an earlier cluster is kept.
abbrev pub or_slot : Option Slot → Option Slot → Option Slot
or_slot (some s) t = some s
or_slot none t = t

-- How the scan of a directory ends: with the slot to use, and the first cluster of the file that it
-- holds if the name is there.
pub data Chosen : Type 0 where
  chosen : Option Slot → Option ℕ → Chosen
  unreadable : Chosen
  unfinished : Chosen

-- the scan of `fat32_write_file_in`
unfoldable pub find_slot : ℕ → Volume → ℕ → List ℕ → Option Slot → Chosen
find_slot zero fs cur name slot = unfinished
find_slot (suc n) fs cur name slot = elim (in_chain cur) [
  | false ↦ chosen slot none
  | true ↦ elim (read_cluster fs cur zeros) [
    | none ↦ unreadable
    | some b ↦
        let (first, scan) = scan_slots b (entries_per_cluster fs) 0 name none in
        let slot' = or_slot slot (slot_of cur b first) in
        elim scan [
          | ended ↦ chosen slot' none
          | hit i ↦
              chosen (some (record { cluster = cur; index = i; buffer = b }))
                (some (first_cluster (entry_at b i)))
          | passed ↦ find_slot n fs (get_next fs cur) name slot'
        ]
  ]
]

-- `memcmp(…) == 0` of two buffers, with `n` bytes left
unfoldable pub same_upto : ℕ → ℕ → Bytes → Bytes → Bool
same_upto zero i b d = true
same_upto (suc n) i b d = (b i == d i) && same_upto n (i + 1) b d

-- How the loop over the data ends: with the first and the last cluster, or an error.
pub data Stored : Type 0 where
  stored : ℕ → ℕ → Volume → Stored
  failed : Volume → Stored
  unstored : Stored

-- the new cluster goes behind the previous one, whatever comes of it
abbrev pub link : Volume → ℕ → ℕ → Volume
link fs prev c = if prev == 0 then fs else (set_next fs prev c).1

-- a cluster's worth of the data
abbrev pub chunk_buffer : Bytes → ℕ → ℕ → Bytes
chunk_buffer src pos chunk = overlay zeros 0 chunk (λ k. src (pos + k))

-- A cluster is written and read back.
unfoldable pub store_cluster : Volume → ℕ → Bytes → Bool × Volume
store_cluster fs c buf =
    let (ok, fs') = write_cluster fs c buf in
    elim ok [
      | false ↦ (false, fs')
      | true ↦ elim (read_cluster fs' c zeros) [
        | none ↦ (false, fs')
        | some v ↦ (same_upto (cluster_bytes fs') 0 v buf, fs')
      ]
    ]

-- the loop over the data, with `left` bytes to write from position `pos` on
unfoldable pub write_data : ℕ → Volume → Bytes → ℕ → ℕ → ℕ → ℕ → Stored
write_data zero fs src pos left first prev = unstored
write_data (suc n) fs src pos left first prev = elim (ltb 0 left) [
  | false ↦ stored first prev fs
  | true ↦
      let (c, fs1) = allocate fs in
      elim (ltb c 2) [
        | true ↦ failed fs1
        | false ↦
            let chunk = smaller left (cluster_bytes fs) in
            let (ok, fs2) = store_cluster (link fs1 prev c) c (chunk_buffer src pos chunk) in
            elim ok [
              | false ↦ failed fs2
              | true ↦
                  write_data n fs2 src (pos + chunk) (left - chunk)
                    (if first == 0 then c else first) c
            ]
      ]
]

abbrev pub file_entry : List ℕ → ℕ → ℕ → DirEntry
file_entry name first size = record {
  name = name;
  attr = attr_archive;
  first_cluster_hi = first / 65536 % 65536;
  first_cluster_lo = first % 65536;
  file_size = size;
}

-- A counted volume gets its FSInfo; then the disk's cache is flushed.
unfoldable pub finish : ℕ → Volume → Volume
finish next_free fs =
    let fs' =
      if fs.free_clusters == unknown then fs else (update_fsinfo fs fs.free_clusters next_free).1 in
    record fs' { disk = flush_cache fs'.disk }

-- the end of `fat32_write_file_in`, behind the loop over the data
unfoldable pub write_entry_back : Slot → List ℕ → ℕ → Stored → Outcome
write_entry_back slot name size unstored = no_fuel
write_entry_back slot name size (failed fs) = returned false fs
write_entry_back slot name size (stored first prev fs) =
    let (ok, fs') =
      write_cluster fs slot.cluster
        (put_entry slot.buffer slot.index (file_entry name first size)) in
    elim ok [ false ↦ returned false fs' | true ↦ returned true (finish ((prev + 1) % u32) fs') ]

-- `fat32_write_file_in` from the label `scan_done` on
unfoldable pub write_in_slot : ℕ → Volume → Option Slot → List ℕ → Bytes → ℕ → Outcome
write_in_slot fuel fs none name src size = returned false fs
write_in_slot fuel fs (some slot) name src size =
    write_entry_back slot name size (write_data fuel fs src 0 size 0 0)

-- the clusters of the file that is replaced, if there is one
abbrev pub free_old : ℕ → Volume → Option ℕ → Option Volume
free_old fuel fs none = some fs
free_old fuel fs (some c) = free_chain fuel fs c

-- `fat32_write_file_in`
unfoldable pub write_file_in : ℕ → Volume → ℕ → List ℕ → Bytes → ℕ → Outcome
write_file_in fuel fs parent filename src size = elim fs.initialized [
  | false ↦ returned false fs
  | true ↦ elim (find_slot fuel fs parent (name_to_fat filename) none) [
    | unreadable ↦ returned false fs
    | unfinished ↦ no_fuel
    | chosen slot old ↦ elim (free_old fuel fs old) [
      | none ↦ no_fuel
      | some fs' ↦ write_in_slot fuel fs' slot (name_to_fat filename) src size
    ]
  ]
]

-- `fat32_write_file`
unfoldable pub write_file : ℕ → Volume → List ℕ → Bytes → ℕ → Outcome
write_file fuel fs filename src size = write_file_in fuel fs fs.root_dir_cluster filename src size
