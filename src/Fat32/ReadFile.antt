-- ===== src/Fat32/ReadFile.antt =====
-- fs/fat32/fat32.c: reading a file and comparing it with bytes in memory.
use entropy_os.Prelude.{
  ℕ, zero, suc, ◌+◌, ◌-◌, ◌*◌, Bool, true, false, ◌&&◌, Option, none, some, List, Bytes, zeros,
  overlay, ltb, ◌==◌, if◌then◌else◌,
}
use entropy_os.Fat32.Volume.{Volume, read_cluster, get_next, in_chain}
use entropy_os.Fat32.Name.{name_to_fat}
use entropy_os.Fat32.Directory.{find_entry, found, missing, spinning, first_cluster}

abbrev pub cluster_bytes : Volume → ℕ
cluster_bytes fs = fs.sectors_per_cluster * 512

abbrev pub smaller : ℕ → ℕ → ℕ
smaller a b = if ltb a b then a else b

-- The loop of `fat32_read_file_in`: whether every cluster could be read, and the caller's buffer.
-- `none` says that the fuel ran out.
unfoldable pub read_from : ℕ → Volume → ℕ → ℕ → ℕ → Bytes → Option (Bool × Bytes)
read_from zero fs cluster left pos dest = none
read_from (suc n) fs cluster left pos dest = elim (in_chain cluster && ltb 0 left) [
  | false ↦ some (true, dest)
  | true ↦ elim (read_cluster fs cluster zeros) [
    | none ↦ some (false, dest)
    | some b ↦
        let chunk = smaller left (cluster_bytes fs) in
        read_from n fs (get_next fs cluster) (left - chunk) (pos + chunk) (overlay dest pos chunk b)
  ]
]

-- What `fat32_read_file_in` leaves: its result, 0 being `true`, the buffer, and `*bytes_read` if it
-- was set.
pub record ReadResult : Type 0 where
  pub ok : Bool
  pub buffer : Bytes
  pub bytes_read : Option ℕ

abbrev read_result : ℕ → Option (Bool × Bytes) → Option ReadResult
read_result n none = none
read_result n (some (ok, b)) =
    some (record { ok = ok; buffer = b; bytes_read = if ok then some n else none })

abbrev refused : Bytes → Option ReadResult
refused b = some (record { ok = false; buffer = b; bytes_read = none })

-- `fat32_read_file_in`
unfoldable pub read_file_in : ℕ → Volume → ℕ → List ℕ → Bytes → ℕ → Option ReadResult
read_file_in fuel fs parent filename buffer max_size = elim fs.initialized [
  | false ↦ refused buffer
  | true ↦ elim (find_entry fuel fs parent (name_to_fat filename)) [
    | missing ↦ refused buffer
    | spinning ↦ none
    | found e c i ↦
        let to_read = smaller e.file_size max_size in
        read_result to_read (read_from fuel fs (first_cluster e) to_read 0 buffer)
  ]
]

-- `fat32_read_file`
unfoldable pub read_file : ℕ → Volume → List ℕ → Bytes → ℕ → Option ReadResult
read_file fuel fs filename buffer max_size =
    read_file_in fuel fs fs.root_dir_cluster filename buffer max_size

-- the loop of `fat32_compare_file_in` over one chunk, with `n` bytes left
unfoldable pub first_difference : ℕ → ℕ → Bytes → Bytes → ℕ → Option ℕ
first_difference zero i b exp pos = none
first_difference (suc n) i b exp pos =
    let rest = first_difference n (i + 1) b exp pos in if b i == exp (pos + i) then rest else some i

-- How the loop over the clusters ends; a mismatch has the position of the chunk, the index in it, the
-- cluster and what it holds.
pub data Compared : Type 0 where
  equal : Compared
  unread : Compared
  differs : ℕ → ℕ → ℕ → Bytes → Compared
  unfinished : Compared

unfoldable pub compare_from : ℕ → Volume → ℕ → ℕ → ℕ → Bytes → Compared
compare_from zero fs cluster pos size exp = unfinished
compare_from (suc n) fs cluster pos size exp = elim (in_chain cluster && ltb pos size) [
  | false ↦ equal
  | true ↦ elim (read_cluster fs cluster zeros) [
    | none ↦ unread
    | some b ↦
        let chunk = smaller (size - pos) (cluster_bytes fs) in
        elim (first_difference chunk 0 b exp pos) [
          | some i ↦ differs pos i cluster b
          | none ↦ compare_from n fs (get_next fs cluster) (pos + chunk) size exp
        ]
  ]
]

-- `disk_snip`, `expected_snip` and `copied`
pub record Snips : Type 0 where
  pub disk : Bytes
  pub expected : Bytes
  pub copied : ℕ

-- The loop that fills the two snippets, started at offset `off` of the cluster in `b`.
unfoldable pub snip_from : ℕ → Volume → ℕ → Bytes → ℕ → ℕ → Bytes → ℕ → Snips → Option Snips
snip_from zero fs cur b off len exp start s = none
snip_from (suc n) fs cur b off len exp start s = elim (ltb s.copied len && in_chain cur) [
  | false ↦ some s
  | true ↦
      let count = smaller (cluster_bytes fs - off) (len - s.copied) in
      let s' : Snips = record {
        disk = overlay s.disk s.copied count (λ k. b (off + k));
        expected = overlay s.expected s.copied count (λ k. exp (start + s.copied + k));
        copied = s.copied + count;
      } in
      elim (ltb s'.copied len && in_chain (get_next fs cur)) [
        | false ↦ snip_from n fs (get_next fs cur) b 0 len exp start s'
        | true ↦ elim (read_cluster fs (get_next fs cur) b) [
          | none ↦ some s'
          | some b' ↦ snip_from n fs (get_next fs cur) b' 0 len exp start s'
        ]
      ]
]

-- the loop that clears the rest of the snippets
abbrev clear_rest : ℕ → Snips → Snips
clear_rest len s = record s {
  disk = overlay s.disk s.copied (len - s.copied) zeros;
  expected = overlay s.expected s.copied (len - s.copied) zeros;
}

-- What `fat32_compare_file_in` leaves: its result, `*mismatch_offset` if it was set, and the snippets.
pub record CompareResult : Type 0 where
  pub ok : Bool
  pub mismatch_offset : Option ℕ
  pub disk_snip : Bytes
  pub expected_snip : Bytes

abbrev mismatch : ℕ → ℕ → Option Snips → Option CompareResult
mismatch at len none = none
mismatch at len (some s) = some (record {
  ok = false;
  mismatch_offset = some at;
  disk_snip = (clear_rest len s).disk;
  expected_snip = (clear_rest len s).expected;
})

abbrev compare_plain : Bool → Option ℕ → Snips → Option CompareResult
compare_plain ok at s =
    some (record { ok = ok; mismatch_offset = at; disk_snip = s.disk; expected_snip = s.expected })

-- The end of `fat32_compare_file_in`, for a caller that passes all its pointers. With `snip_len` 0
-- no loop runs and the snippets stay as they were.
unfoldable pub compare_end : ℕ → Volume → ℕ → Bytes → ℕ → Snips → Compared → Option CompareResult
compare_end fuel fs size exp snip_len s equal = compare_plain true none s
compare_end fuel fs size exp snip_len s unread = compare_plain false none s
compare_end fuel fs size exp snip_len s unfinished = none
compare_end fuel fs size exp snip_len s (differs pos i cluster b) =
    let len = smaller snip_len (size - (pos + i)) in
    mismatch (pos + i) len (snip_from fuel fs cluster b i len exp (pos + i) s)

-- `fat32_compare_file_in`; `none` says that the fuel ran out.
unfoldable pub compare_file_in :
    ℕ → Volume → ℕ → List ℕ → Bytes → ℕ → Bytes → Bytes → ℕ → Option CompareResult
compare_file_in fuel fs parent filename exp exp_size disk_snip expected_snip snip_len =
    let s : Snips = record { disk = disk_snip; expected = expected_snip; copied = 0 } in
    elim fs.initialized [
      | false ↦ compare_plain false none s
      | true ↦ elim (find_entry fuel fs parent (name_to_fat filename)) [
        | missing ↦ compare_plain false none s
        | spinning ↦ none
        | found e c i ↦ elim (e.file_size == exp_size) [
          | false ↦ compare_plain false (some (smaller e.file_size exp_size)) s
          | true ↦
              compare_end fuel fs e.file_size exp snip_len s
                (compare_from fuel fs (first_cluster e) 0 e.file_size exp)
        ]
      ]
    ]
