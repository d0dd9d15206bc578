-- ===== src/Fat32/Directory.antt =====
-- fs/fat32/fat32.c: directory entries, searching a directory, and deleting from it.
use entropy_os.Prelude.{
  ℕ, zero, suc, ◌+◌, ◌*◌, ◌/◌, ◌%◌, ℤ, pos, negsuc, Bool, true, false, ◌&&◌, not, Option, none,
  some, List, [], ◌∷◌, Bytes, zeros, get16, get32, put8, put16, put32, ◌||◌, ◌++◌, put_bytes,
  bytes_at, same_bytes, overlay, ◌==◌, if◌then◌else◌,
}
use entropy_os.Fat32.Volume.{
  Volume, unknown, read_cluster, write_cluster, get_next, in_chain, free_cluster, free_chain,
  update_fsinfo,
}
use entropy_os.Fat32.Name.{name_to_fat, shown_name, space, dot}

-- `fat32_dir_entry_t`, as far as the code reads it
pub record DirEntry : Type 0 where
  pub name : List ℕ
  pub attr : ℕ
  pub first_cluster_hi : ℕ
  pub first_cluster_lo : ℕ
  pub file_size : ℕ

-- `entries[i]` of a buffer
unfoldable pub entry_at : Bytes → ℕ → DirEntry
entry_at b i = record {
  name = bytes_at b (i * 32) 11;
  attr = b (i * 32 + 11);
  first_cluster_hi = get16 b (i * 32 + 20);
  first_cluster_lo = get16 b (i * 32 + 26);
  file_size = get32 b (i * 32 + 28);
}

-- The 32 bytes are cleared and these fields are set.
unfoldable pub put_entry : Bytes → ℕ → DirEntry → Bytes
put_entry b i e =
    let at = i * 32 in
    put32
      (put16
        (put16 (put8 (put_bytes (overlay b at 32 zeros) at e.name) (at + 11) e.attr) (at + 20)
          e.first_cluster_hi)
        (at + 26) e.first_cluster_lo)
      (at + 28) e.file_size

abbrev pub first_cluster : DirEntry → ℕ
first_cluster e = e.first_cluster_hi * 65536 + e.first_cluster_lo

-- `name[0]` of an entry
abbrev pub mark : Bytes → ℕ → ℕ
mark b i = b (i * 32)

abbrev pub deleted : ℕ
deleted = 0xE5

-- `attr & ATTR_VOLUME_ID`, and `attr & ATTR_DIRECTORY`
abbrev pub is_volume_id : ℕ → Bool
is_volume_id a = a / 8 % 2 == 1

abbrev pub is_directory : ℕ → Bool
is_directory a = a / 16 % 2 == 1

abbrev pub attr_directory : ℕ
attr_directory = 0x10

abbrev pub attr_archive : ℕ
attr_archive = 0x20

abbrev pub entries_per_cluster : Volume → ℕ
entries_per_cluster fs = fs.sectors_per_cluster * 512 / 32

-- What a scan of one cluster finds: the end mark, an entry at an index, or neither.
pub data Scan : Type 0 where
  ended : Scan
  hit : ℕ → Scan
  passed : Scan

abbrev pub matches : Bytes → ℕ → List ℕ → Bool
matches b i name =
    not (mark b i == deleted)
    && not (is_volume_id (b (i * 32 + 11)))
    && same_bytes (bytes_at b (i * 32) 11) name

-- the inner loop of `fat32_find_entry`, with `n` entries left
unfoldable pub scan_entries : Bytes → ℕ → ℕ → List ℕ → Scan
scan_entries b zero i name = passed
scan_entries b (suc n) i name =
    let rest = scan_entries b n (i + 1) name in
    if mark b i == 0 then ended else if matches b i name then hit i else rest

-- What `fat32_find_entry` returns: an entry with its cluster and index, or -1. `spinning` says that
-- the fuel ran out.
pub data Found : Type 0 where
  found : DirEntry → ℕ → ℕ → Found
  missing : Found
  spinning : Found

-- `fat32_find_entry`, from a cluster of the directory on
unfoldable pub find_entry : ℕ → Volume → ℕ → List ℕ → Found
find_entry zero fs cur name = spinning
find_entry (suc n) fs cur name = elim (in_chain cur) [
  | false ↦ missing
  | true ↦ elim (read_cluster fs cur zeros) [
    | none ↦ missing
    | some b ↦ elim (scan_entries b (entries_per_cluster fs) 0 name) [
      | ended ↦ missing
      | hit i ↦ found (entry_at b i) cur i
      | passed ↦ find_entry n fs (get_next fs cur) name
    ]
  ]
]

-- `fat32_find_directory`; 0 says that there is none, `none` that the fuel ran out.
unfoldable pub find_directory : ℕ → Volume → ℕ → List ℕ → Option ℕ
find_directory fuel fs parent dirname = elim (find_entry fuel fs parent (name_to_fat dirname)) [
  | found e c i ↦ some (if is_directory e.attr then first_cluster e else 0)
  | missing ↦ some 0
  | spinning ↦ none
]

-- `fat32_get_file_size_in`: the inner `none` is the result -1, the outer one says that the fuel ran out.
unfoldable pub get_file_size_in : ℕ → Volume → ℕ → List ℕ → Option (Option ℕ)
get_file_size_in fuel fs parent filename = elim fs.initialized [
  | false ↦ some none
  | true ↦ elim (find_entry fuel fs parent (name_to_fat filename)) [
    | found e c i ↦ some (some e.file_size)
    | missing ↦ some none
    | spinning ↦ none
  ]
]

abbrev pub dot_name : List ℕ
dot_name = dot ∷ space ∷ space ∷ space ∷ space ∷ space ∷ space ∷ space ∷ space ∷ space ∷ space ∷ []

abbrev pub dotdot_name : List ℕ
dotdot_name = dot ∷ dot ∷ space ∷ space ∷ space ∷ space ∷ space ∷ space ∷ space ∷ space ∷ space ∷ []

abbrev pub is_ignored : Bytes → ℕ → Bool
is_ignored b i =
    mark b i == deleted
    || same_bytes (bytes_at b (i * 32) 11) dot_name
    || same_bytes (bytes_at b (i * 32) 11) dotdot_name

-- the inner loop of `fat32_is_directory_empty`
unfoldable pub scan_empty : Bytes → ℕ → ℕ → Scan
scan_empty b zero i = passed
scan_empty b (suc n) i =
    let rest = scan_empty b n (i + 1) in
    if mark b i == 0 then ended else if is_ignored b i then rest else hit i

-- `fat32_is_directory_empty`: 1 for yes, 0 for no, -1 for an error; `none` if the fuel ran out
unfoldable pub is_directory_empty : ℕ → Volume → ℕ → Option ℤ
is_directory_empty zero fs cur = none
is_directory_empty (suc n) fs cur = elim (in_chain cur) [
  | false ↦ some (pos 1)
  | true ↦ elim (read_cluster fs cur zeros) [
    | none ↦ some (negsuc 0)
    | some b ↦ elim (scan_empty b (entries_per_cluster fs) 0) [
      | ended ↦ some (pos 1)
      | hit i ↦ some (pos 0)
      | passed ↦ is_directory_empty n fs (get_next fs cur)
    ]
  ]
]

-- What a function that changes the volume does: it ends with its result, 0 being `true`, or its
-- fuel runs out.
pub data Outcome : Type 0 where
  returned : Bool → Volume → Outcome
  no_fuel : Outcome

abbrev pub is_zero : ℤ → Bool
is_zero (pos n) = n == 0
is_zero (negsuc n) = false

-- the end of `fat32_delete_directory_in` and of `fat32_delete_file`: the entry is marked deleted
unfoldable pub mark_deleted : Volume → ℕ → ℕ → Outcome
mark_deleted fs c i = elim (read_cluster fs c zeros) [
  | none ↦ returned false fs
  | some b ↦
      let (ok, fs') = write_cluster fs c (put8 b (i * 32) deleted) in
      elim ok [
        | false ↦ returned false fs'
        | true ↦ returned true (
            if fs'.free_clusters == unknown
            then fs'
            else (update_fsinfo fs' fs'.free_clusters unknown).1)
      ]
]

-- `fat32_delete_directory_in`
unfoldable pub delete_directory_in : ℕ → Volume → ℕ → List ℕ → Outcome
delete_directory_in fuel fs parent dirname = elim fs.initialized [
  | false ↦ returned false fs
  | true ↦ elim (find_entry fuel fs parent (name_to_fat dirname)) [
    | missing ↦ returned false fs
    | spinning ↦ no_fuel
    | found e c i ↦ elim (is_directory e.attr) [
      | false ↦ returned false fs
      | true ↦ elim (is_directory_empty fuel fs (first_cluster e)) [
        | none ↦ no_fuel
        | some answer ↦ elim (is_zero answer) [
          | true ↦ returned false fs
          | false ↦ mark_deleted (free_cluster fs (first_cluster e)).1 c i
        ]
      ]
    ]
  ]
]

-- `fat32_delete_directory`
unfoldable pub delete_directory : ℕ → Volume → List ℕ → Outcome
delete_directory fuel fs dirname = delete_directory_in fuel fs fs.root_dir_cluster dirname

-- `fat32_delete_file`
unfoldable pub delete_file : ℕ → Volume → List ℕ → Outcome
delete_file fuel fs filename = elim fs.initialized [
  | false ↦ returned false fs
  | true ↦ elim (find_entry fuel fs fs.root_dir_cluster (name_to_fat filename)) [
    | missing ↦ returned false fs
    | spinning ↦ no_fuel
    | found e c i ↦ elim (free_chain fuel fs (first_cluster e)) [
      | none ↦ no_fuel
      | some fs' ↦ mark_deleted fs' c i
    ]
  ]
]

-- One call of the callback of `fat32_list_files`: name, size, and whether it is a directory.
pub record Listed : Type 0 where
  pub name : List ℕ
  pub size : ℕ
  pub is_dir : Bool

abbrev listed : DirEntry → Listed
listed e = record { name = shown_name e.name; size = e.file_size; is_dir = is_directory e.attr }

-- the inner loop of `fat32_list_files`: the calls made, and whether the end mark was met
unfoldable pub list_entries : Bytes → ℕ → ℕ → List Listed × Bool
list_entries b zero i = ([], false)
list_entries b (suc n) i =
    let (rest, end) = list_entries b n (i + 1) in
    if mark b i == 0
    then ([], true)
    else if mark b i == deleted || is_volume_id (b (i * 32 + 11))
    then (rest, end)
    else (listed (entry_at b i) ∷ rest, end)

append_listed : List Listed → Option (Bool × List Listed) → Option (Bool × List Listed)
append_listed xs none = none
append_listed xs (some (ok, ys)) = some (ok, xs ++ ys)

-- the loop of `fat32_list_files`: the result and the calls made; `none` if the fuel ran out
unfoldable pub list_from : ℕ → Volume → ℕ → Option (Bool × List Listed)
unfolding append_listed
list_from zero fs cur = none
list_from (suc n) fs cur = elim (in_chain cur) [
  | false ↦ some (true, [])
  | true ↦ elim (read_cluster fs cur zeros) [
    | none ↦ some (false, [])
    | some b ↦
        let (calls, end) = list_entries b (entries_per_cluster fs) 0 in
        elim end [
          | true ↦ some (true, calls)
          | false ↦ append_listed calls (list_from n fs (get_next fs cur))
        ]
  ]
]

-- `fat32_list_files`, with a callback
unfoldable pub list_files : ℕ → Volume → Option (Bool × List Listed)
list_files fuel fs =
    if fs.initialized then list_from fuel fs fs.root_dir_cluster else some (false, [])
