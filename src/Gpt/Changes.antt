-- ===== src/Gpt/Changes.antt =====
-- What `gpt_add_partition` and `gpt_delete_partition` of fs/gpt/gpt.c do when they succeed.
use entropy_os.Prelude.{
  ℕ, zero, suc, ◌+◌, ◌<◌, ◌≤◌, ◌≡◌, refl, ap, sym, ◌∙◌, true, false, not, ◌||◌, Option, none, some,
  List, [], ◌∷◌, Bytes, set, get_or, get_elem?, leb, ◌==◌, if◌then◌else◌, if-some, inl, inr, arith,
  guard_true, guard_false,
}
use entropy_os.Block.Laws.{disk_at}
use entropy_os.Gpt.Data.{max_partitions, Header, Entry, Gpt, zero_entry, generate_guid}
use entropy_os.Gpt.Operations.{
  reseal, write_back, is_unused, find_unused, out_of_range, new_entry, add_at, add_found,
  add_partition, delete_partition, verify, header_sector,
}
use entropy_os.Gpt.Disk.{with_array, with_table, write_back-Became}
use entropy_os.Gpt.Verify.{IsSized, verify-reseal, verify_congr}

-- The state with other partitions: in memory, on the disk, and for `gpt_verify`.
pub record Stored (g g' : Gpt) (es : List Entry) : Type 0 where
  pub partitions : g'.partitions ≡ es
  pub initialized : g'.initialized ≡ true
  pub on_disk : (l : ℕ) → disk_at g'.disk l ≡ with_table g' (disk_at g.disk) l
  pub verified : verify g' ≡ some true

write_back-Stored :
    (g : Gpt) (es : List Entry) (seed : ℕ) {g' : Gpt}
    → IsSized g.header
    → g.initialized ≡ true
    → write_back (record g { partitions = es; seed = seed }) ≡ (true, g')
    → Stored g g' es
unfolding reseal
write_back-Stored g es seed {g'} s on e =
    let g1 = record g { partitions = es; seed = seed } in
    let b = write_back-Became g1 e in
    record {
      partitions = b.partitions;
      initialized = b.initialized ∙ on;
      on_disk = λ l.
          b.at l
          ∙ ap (λ (h : Header). table_of h es (disk_at g.disk) l) (sym b.header)
          ∙ ap (λ (es : List Entry). table_of g'.header es (disk_at g.disk) l) (sym b.partitions);
      verified =
          verify_congr (reseal g1) g' b.header b.partitions b.initialized ∙ verify-reseal g1 s on;
    }
  where
    table_of : Header → List Entry → (ℕ → Bytes) → ℕ → Bytes
    table_of h es f l = if l == 1 then header_sector h else with_array es 32 0 f l

find_unused_sound :
    (es : List Entry) (i : ℕ) {k : ℕ}
    → find_unused es i ≡ some k
    → (j : ℕ) × (k ≡ i + j) × ((e : Entry) × (get_elem? es j ≡ some e) × (is_unused e ≡ true))
unfolding find_unused
find_unused_sound [] i h = cc
find_unused_sound (e ∷ es) i h = elim (if-some (is_unused e) h) [
  | inl (p, q) ↦ (0, omega (arith, q), (e, refl, p))
  | inr q ↦ let (j, eq, rest) = find_unused_sound es (i + 1) q in (suc j, omega (arith, eq), rest)
]

-- What a partition that was added is like.
pub record Added (first last : ℕ) (type_guid : List ℕ) (name : Option (List ℕ)) (g g' : Gpt)
    : Type 0 where
  pub index : ℕ
  pub old : Entry
  pub was : get_elem? g.partitions index ≡ some old
  pub was_unused : is_unused old ≡ true
  pub above : g.header.first_usable_lba ≤ first
  pub ordered : first < last
  pub below : last ≤ g.header.last_usable_lba
  pub stored :
      Stored g g'
        (set g.partitions index (new_entry first last type_guid (generate_guid g.seed).0 name old))

get_or-get_elem? :
    (es : List Entry) (i : ℕ) (d : Entry) {e : Entry} → get_elem? es i ≡ some e → get_or es i d ≡ e
get_or-get_elem? [] i d h = cc
get_or-get_elem? (x ∷ es) zero d h = ground arith
get_or-get_elem? (x ∷ es) (suc i) d h = get_or-get_elem? es i d h

out_of_range-false :
    (first last : ℕ) (h : Header)
    → out_of_range first last h ≡ false
    → (h.first_usable_lba ≤ first) × (first < last) × (last ≤ h.last_usable_lba)
out_of_range-false first last h e = (ground arith, ground arith, ground arith)

add_found-Added :
    (i : Option ℕ) (first last : ℕ) (type_guid : List ℕ) (name : Option (List ℕ)) (g : Gpt)
    {g' : Gpt}
    → IsSized g.header
    → g.initialized ≡ true
    → find_unused g.partitions 0 ≡ i
    → add_found i first last type_guid name g ≡ (true, g')
    → Added first last type_guid name g g'
unfolding add_found add_at
add_found-Added none first last type_guid name g s on f e = cc
add_found-Added (some i) first last type_guid name g {g'} s on f e =
    let (j, eq, (old, was, unused)) = find_unused_sound g.partitions 0 f in
    let same : i ≡ j = omega (arith, eq) in
    let here : get_elem? g.partitions i ≡ some old = rw same was in
    let (ok, r) =
      guard_false (out_of_range first last g.header) (add_at i first last type_guid name g) g e in
    let (above, ordered, below) = out_of_range-false first last g.header ok in
    record {
      index = i;
      old = old;
      was = here;
      was_unused = unused;
      above = above;
      ordered = ordered;
      below = below;
      stored = rw (← (get_or-get_elem? g.partitions i zero_entry here)) (
          write_back-Stored g
            (set g.partitions i (
              new_entry first last type_guid (generate_guid g.seed).0 name
                (get_or g.partitions i zero_entry)))
            (generate_guid g.seed).1 s on r);
    }

-- When `gpt_add_partition` succeeds, it has put the partition into an entry that was not in use, and
-- the range lies between the first and the last usable sector; the other entries are as before. The
-- header in sector 1 and the entries in 2 to 33 are those in memory, every other sector is as
-- before, and `gpt_verify` passes.
pub add_partition-Added :
    (first last : ℕ) (type_guid : List ℕ) (name : Option (List ℕ)) (g : Gpt) {g' : Gpt}
    → IsSized g.header
    → add_partition first last type_guid name g ≡ (true, g')
    → Added first last type_guid name g g'
unfolding add_partition
add_partition-Added first last type_guid name g s e =
    let (on, r) =
      guard_true g.initialized (add_found (find_unused g.partitions 0) first last type_guid name g)
        g e in
    add_found-Added (find_unused g.partitions 0) first last type_guid name g s on refl r

-- When `gpt_delete_partition` succeeds, the entry is cleared and every other one is as before; the
-- header in sector 1 and the entries in 2 to 33 are those in memory, every other sector is as
-- before, and `gpt_verify` passes.
pub delete_partition-Stored :
    (i : ℕ) (g : Gpt) {g' : Gpt}
    → IsSized g.header
    → delete_partition i g ≡ (true, g')
    → (i < max_partitions) × Stored g g' (set g.partitions i zero_entry)
unfolding delete_partition
delete_partition-Stored i g s e =
    let (ok, r) =
      guard_false (not g.initialized || leb max_partitions i)
        (write_back (record g { partitions = set g.partitions i zero_entry })) g e in
    (ground arith, write_back-Stored g (set g.partitions i zero_entry) g.seed s (ground arith) r)
