-- ===== src/Fat32/MakeDirectory.antt =====
-- fs/fat32/fat32.c: creating a directory.
use entropy_os.Prelude.{
  ℕ, zero, suc, ◌+◌, ◌*◌, ◌/◌, ◌%◌, Bool, true, false, ◌&&◌, ◌||◌, not, Option, none, some, List,
  Bytes, zeros, same_bytes, bytes_at, ltb, ◌==◌, if◌then◌else◌,
}
use entropy_os.Fat32.Volume.{
  Volume, u32, read_cluster, write_cluster, get_next, allocate, in_chain, free_cluster,
}
use entropy_os.Fat32.Name.{name_to_fat}
use entropy_os.Fat32.Directory.{
  DirEntry, put_entry, mark, deleted, attr_directory, dot_name, dotdot_name, entries_per_cluster,
  Scan, ended, hit, passed, Outcome, returned, no_fuel,
}
use entropy_os.Fat32.WriteFile.{Slot, is_free, keep_first, slot_of, or_slot, finish}

-- the entries "." and ".." at the start of a directory that is not the root
abbrev pub is_dot_entry : Bool → Bytes → ℕ → Bool
is_dot_entry in_root b i =
    not in_root
    && ((i == 0 && same_bytes (bytes_at b (i * 32) 11) dot_name)
        || (i == 1 && same_bytes (bytes_at b (i * 32) 11) dotdot_name))

-- the inner loop of the scan of `fat32_create_directory_in`
unfoldable pub scan_slots : Bool → Bytes → ℕ → ℕ → List ℕ → Option ℕ → Option ℕ × Scan
scan_slots in_root b zero i name first = (first, passed)
scan_slots in_root b (suc n) i name first =
    let skip = is_dot_entry in_root b i in
    let first' = if not skip && is_free (mark b i) then keep_first first i else first in
    let rest = scan_slots in_root b n (i + 1) name first' in
    if skip
    then rest
    else if mark b i == 0
    then (first', ended)
    else if mark b i == deleted
    then rest
    else if same_bytes (bytes_at b (i * 32) 11) name
    then (first', hit i)
    else rest

-- How the scan ends: with the slot to use, with the name found, or with an error.
pub data Place : Type 0 where
  place : Option Slot → Place
  exists : Place
  unreadable : Place
  unfinished : Place

-- the scan of `fat32_create_directory_in`
unfoldable pub find_place : ℕ → Volume → ℕ → List ℕ → Option Slot → Place
find_place zero fs cur name slot = unfinished
find_place (suc n) fs cur name slot = elim (in_chain cur) [
  | false ↦ place slot
  | true ↦ elim (read_cluster fs cur zeros) [
    | none ↦ unreadable
    | some b ↦
        let (first, scan) =
          scan_slots (cur == fs.root_dir_cluster) b (entries_per_cluster fs) 0 name none in
        let slot' = or_slot slot (slot_of cur b first) in
        elim scan [
          | ended ↦ place slot'
          | hit i ↦ exists
          | passed ↦ find_place n fs (get_next fs cur) name slot'
        ]
  ]
]

abbrev pub directory_entry : List ℕ → ℕ → DirEntry
directory_entry name c = record {
  name = name;
  attr = attr_directory;
  first_cluster_hi = c / 65536 % 65536;
  first_cluster_lo = c % 65536;
  file_size = 0;
}

-- the first cluster of the new directory `c`; the parent of a directory in the root is written 0
abbrev pub dot_entries : Volume → ℕ → ℕ → Bytes
dot_entries fs c parent =
    put_entry (put_entry zeros 0 (directory_entry dot_name c)) 1
      (directory_entry dotdot_name (if parent == fs.root_dir_cluster then 0 else parent))

-- the end of `fat32_create_directory_in`: the entry in the parent
unfoldable pub add_entry : Slot → List ℕ → ℕ → Volume → Outcome
add_entry slot name c fs =
    let (ok, fs') =
      write_cluster fs slot.cluster (put_entry slot.buffer slot.index (directory_entry name c)) in
    elim ok [ false ↦ returned false fs' | true ↦ returned true (finish ((c + 1) % u32) fs') ]

-- `fat32_create_directory_in` from the label `dir_scan_done` on
unfoldable pub make_in_slot : Volume → Option Slot → ℕ → List ℕ → Outcome
make_in_slot fs none parent name = returned false fs
make_in_slot fs (some slot) parent name =
    let (c, fs1) = allocate fs in
    elim (ltb c 2) [
      | true ↦ returned false fs1
      | false ↦
          let (ok, fs2) = write_cluster fs1 c (dot_entries fs1 c parent) in
          elim ok [
            | false ↦ returned false (free_cluster fs2 c).1
            | true ↦ add_entry slot name c fs2
          ]
    ]

-- `fat32_create_directory_in`
unfoldable pub create_directory_in : ℕ → Volume → ℕ → List ℕ → Outcome
create_directory_in fuel fs parent dirname = elim fs.initialized [
  | false ↦ returned false fs
  | true ↦ elim (find_place fuel fs parent (name_to_fat dirname) none) [
    | unreadable ↦ returned false fs
    | exists ↦ returned false fs
    | unfinished ↦ no_fuel
    | place slot ↦ make_in_slot fs slot parent (name_to_fat dirname)
  ]
]

-- `fat32_create_directory`
unfoldable pub create_directory : ℕ → Volume → List ℕ → Outcome
create_directory fuel fs dirname = create_directory_in fuel fs fs.root_dir_cluster dirname
