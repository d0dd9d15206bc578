-- ===== src/Fat32/Volume/Cluster.antt =====
-- Whole clusters of fs/fat32/fat32.c: what `fat32_write_cluster` wrote, `fat32_read_cluster` reads.
use entropy_os.Prelude.{
  ℕ, zero, suc, ◌+◌, ◌-◌, ◌*◌, ◌/◌, ◌%◌, ◌<◌, ◌≤◌, ◌≡◌, refl, ◌⊎◌, ap, sym, ◌∙◌, Bool, true, false,
  ◌&&◌, Option, some, none, Bytes, overlay, ltb, leb, ◌==◌, if◌then◌else◌, arith,
}
use entropy_os.Block.{Blocks}
use entropy_os.Block.Laws.{disk_at, can_read, can_write}
use entropy_os.Fat32.Volume.{
  Volume, u32, on_disk, cluster_to_lba, read_sectors, read_cluster, write_sectors, write_cluster,
}
use entropy_os.Fat32.Volume.Sectors.{
  volume_end, IsMounted, IsReliable, sector_at, with_disk, written, read_sector_ok, write_sector_ok,
  written-at, written-reads, written-writes, on_disk-eq,
}
use entropy_os.Fat32.Volume.Table.{with_disk-IsMounted}

-- The disk `d` in place of that of `fs`: its sectors are `f`, and it fails where the old one does.
pub record Holds (fs : Volume) (d : Blocks) (f : ℕ → Bytes) : Type 0 where
  pub at : (l : ℕ) → l < u32 → disk_at d (on_disk fs l) ≡ f l
  pub reads : (l : ℕ) → can_read d l ≡ can_read fs.disk l
  pub writes : (l : ℕ) → can_write d l ≡ can_write fs.disk l

-- the sectors of a volume with `n` sectors of a buffer stored, the `i`-th at `lba + i` first
abbrev pub stored : Volume → ℕ → ℕ → ℕ → Bytes → ℕ → Bytes
stored fs lba n i buf l =
    if leb (lba + i) l && ltb l (lba + i + n)
    then (λ k. buf ((l - lba) * 512 + k))
    else sector_at fs l

stored_none : (l n : ℕ) (f g : Bytes) → (if leb n l && ltb l (n + 0) then f else g) ≡ g
stored_none l n f g = ground arith

stored_step :
    (l lba i n : ℕ) (f : ℕ → Bytes) (rest : Bytes)
    → (if leb (lba + (i + 1)) l && ltb l (lba + (i + 1) + n)
        then f (l - lba)
        else if l == lba + i
        then f i
        else rest)
      ≡ (if leb (lba + i) l && ltb l (lba + i + suc n) then f (l - lba) else rest)
stored_step l lba i n f rest = ground (arith, index_lem)
  where
    index_lem : l ≡ lba + i → l - lba ≡ i
    index_lem h = omega arith

write_sectors_ok :
    (n i lba : ℕ) (buf : Bytes) (fs : Volume)
    → IsMounted fs
    → lba + i + n ≤ u32
    → ((l : ℕ) → lba + i ≤ l → l < lba + i + n → can_write fs.disk (on_disk fs l) ≡ true)
    → (d : Blocks) × (write_sectors lba n i buf fs ≡ (true, with_disk fs d))
      × Holds fs d (stored fs lba n i buf)
unfolding write_sectors
write_sectors_ok zero i lba buf fs v fits ok = (
  fs.disk,
  refl,
  record {
    at = λ l lt. sym (stored_none l (lba + i) (λ k. buf ((l - lba) * 512 + k)) (sector_at fs l));
    reads = λ l. refl;
    writes = λ l. refl;
  },
)
write_sectors_ok (suc n) i lba buf fs v fits ok =
    let b : Bytes = λ k. buf (i * 512 + k) in
    let w = ok (lba + i) (omega arith) (omega arith) in
    let d1 = written fs.disk (on_disk fs (lba + i)) b in
    let fs1 = with_disk fs d1 in
    let (d, e, h) =
      write_sectors_ok n (i + 1) lba buf fs1 (with_disk-IsMounted fs d1 v) (omega arith)
        (λ l from to.
          written-writes fs.disk (on_disk fs (lba + i)) b (on_disk fs l)
          ∙ ok l (omega arith) (omega arith)) in
    (
      d,
      ap next (write_sector_ok fs (lba + i) b w) ∙ e,
      record {
        at = λ l lt.
            h.at l lt
            ∙ ap
                (λ (x : Bytes).
                  if leb (lba + (i + 1)) l && ltb l (lba + (i + 1) + n)
                  then (λ k. buf ((l - lba) * 512 + k))
                  else x)
                (written-at fs.disk (on_disk fs (lba + i)) b (on_disk fs l) w
                  ∙ ap (λ (t : Bool). if t then b else sector_at fs l)
                      (on_disk-eq l (lba + i) v lt (omega arith)))
            ∙ stored_step l lba i n (λ m k. buf (m * 512 + k)) (sector_at fs l);
        reads = λ l. h.reads l ∙ written-reads fs.disk (on_disk fs (lba + i)) b l;
        writes = λ l. h.writes l ∙ written-writes fs.disk (on_disk fs (lba + i)) b l;
      },
    )
  where
    next : Bool × Volume → Bool × Volume
    next r = elim r.0 [ true ↦ write_sectors lba n (i + 1) buf r.1 | false ↦ (false, r.1) ]

-- a buffer with `n` sectors of a volume read into it, the `i`-th first
abbrev pub loaded : Volume → ℕ → ℕ → ℕ → Bytes → Bytes
loaded fs lba n i buf k =
    if leb (i * 512) k && ltb k ((i + n) * 512)
    then sector_at fs (lba + k / 512) (k % 512)
    else buf k

loaded_step :
    (k lba i n r : ℕ) (f : ℕ → Bytes)
    → (if leb ((i + 1) * 512) k && ltb k ((i + 1 + n) * 512)
        then f (lba + k / 512) (k % 512)
        else if leb (i * 512) k && ltb k (i * 512 + 512)
        then f (lba + i) (k - i * 512)
        else r)
      ≡ (if leb (i * 512) k && ltb k ((i + suc n) * 512) then f (lba + k / 512) (k % 512) else r)
loaded_step k lba i n r f = ground (arith, index_lem, offset_lem)
  where
    index_lem : i * 512 ≤ k → k < i * 512 + 512 → k / 512 ≡ i
    index_lem h lt = omega arith

    offset_lem : i * 512 ≤ k → k < i * 512 + 512 → k % 512 ≡ k - i * 512
    offset_lem h lt = omega arith

loaded_none : (k i x r : ℕ) → (if leb (i * 512) k && ltb k ((i + 0) * 512) then x else r) ≡ r
loaded_none k i x r = ground arith

read_sectors_ok :
    (n i lba : ℕ) (buf : Bytes) (fs : Volume)
    → ((l : ℕ) → lba + i ≤ l → l < lba + i + n → can_read fs.disk (on_disk fs l) ≡ true)
    → (out : Bytes) × (read_sectors fs lba n i buf ≡ some out)
      × ((k : ℕ) → out k ≡ loaded fs lba n i buf k)
unfolding read_sectors overlay
read_sectors_ok zero i lba buf fs ok =
    (buf, refl, λ k. sym (loaded_none k i (sector_at fs (lba + k / 512) (k % 512)) (buf k)))
read_sectors_ok (suc n) i lba buf fs ok =
    let r = ok (lba + i) (omega arith) (omega arith) in
    let (out, e, h) =
      read_sectors_ok n (i + 1) lba (overlay buf (i * 512) 512 (sector_at fs (lba + i))) fs
        (λ l from to. ok l (omega arith) (omega arith)) in
    (
      out,
      ap next (read_sector_ok fs (lba + i) r) ∙ e,
      λ k. h k ∙ loaded_step k lba i n (buf k) (sector_at fs),
    )
  where
    next : Option Bytes → Option Bytes
    next none = none
    next (some b) = read_sectors fs lba n (i + 1) (overlay buf (i * 512) 512 b)

loaded_in :
    (k n x r : ℕ) → k < n * 512 → (if leb (0 * 512) k && ltb k ((0 + n) * 512) then x else r) ≡ x
loaded_in k n x r h = ground arith

stored_in :
    (l lba n : ℕ) (f g : Bytes)
    → lba ≤ l
    → l < lba + n
    → (if leb (lba + 0) l && ltb l (lba + 0 + n) then f else g) ≡ f
stored_in l lba n f g h k = ground arith

stored_out :
    (l lba n : ℕ) (f g : Bytes)
    → (l < lba) ⊎ (lba + n ≤ l)
    → (if leb (lba + 0) l && ltb l (lba + 0 + n) then f else g) ≡ g
stored_out l lba n f g h = ground arith

mul_step : (m t s : ℕ) → m < t → m * s + s ≤ t * s
mul_step m t s h = grind arith

-- Where a cluster lies.
cluster_end :
    (fs : Volume) (c : ℕ)
    → 2 ≤ c
    → c < fs.total_clusters + 2
    → fs.cluster_begin_lba + (c - 2) * fs.sectors_per_cluster + fs.sectors_per_cluster
      ≤ volume_end fs
cluster_end fs c low high =
    omega (arith, mul_step (c - 2) fs.total_clusters fs.sectors_per_cluster (omega arith))

cluster_to_lba_lem :
    (fs : Volume) (c : ℕ)
    → IsMounted fs
    → 2 ≤ c
    → c < fs.total_clusters + 2
    → cluster_to_lba fs c ≡ fs.cluster_begin_lba + (c - 2) * fs.sectors_per_cluster
cluster_to_lba_lem fs c v low high =
    let index : (c + u32 - 2) % u32 ≡ c - 2 = omega (arith, v.numbers) in
    ap (λ (m : ℕ). (fs.cluster_begin_lba + m * fs.sectors_per_cluster) % u32) index
    ∙ omega (arith, cluster_end fs c low high, v.small)

-- In a reliable mounted volume `fat32_write_cluster` of a cluster of it succeeds, and
-- `fat32_read_cluster` then gives the bytes that were written; every sector of the volume outside
-- the cluster is as before.
pub read_cluster-write_cluster :
    (fs : Volume) (c : ℕ) (buf old : Bytes)
    → IsMounted fs
    → IsReliable fs
    → 2 ≤ c
    → c < fs.total_clusters + 2
    → (d : Blocks) × (out : Bytes) × (write_cluster fs c buf ≡ (true, with_disk fs d))
      × (read_cluster (with_disk fs d) c old ≡ some out)
      × ((k : ℕ) → k < fs.sectors_per_cluster * 512 → out k ≡ buf k)
      × ((l : ℕ)
          → l < u32
          → (l < cluster_to_lba fs c) ⊎ (cluster_to_lba fs c + fs.sectors_per_cluster ≤ l)
          → sector_at (with_disk fs d) l ≡ sector_at fs l)
unfolding read_cluster write_cluster
read_cluster-write_cluster fs c buf old v r low high =
    let place = cluster_to_lba_lem fs c v low high in
    let end = cluster_end fs c low high in
    let lba = cluster_to_lba fs c in
    let (d, e, h) =
      write_sectors_ok fs.sectors_per_cluster 0 lba buf fs v (omega (arith, place, end, v.small))
        (λ l from to. r.writable l (omega (arith, place, end))) in
    let (out, f, k) =
      read_sectors_ok fs.sectors_per_cluster 0 lba old (with_disk fs d)
        (λ l from to. h.reads (on_disk fs l) ∙ r.readable l (omega (arith, place, end))) in
    (
      d,
      out,
      e,
      f,
      λ m lt.
          let here : m / 512 < fs.sectors_per_cluster = omega arith in
          let index : (lba + m / 512 - lba) * 512 + m % 512 ≡ m = omega arith in
          k m
          ∙ loaded_in m fs.sectors_per_cluster
              (sector_at (with_disk fs d) (lba + m / 512) (m % 512)) (old m) lt
          ∙ ap (λ (b : Bytes). b (m % 512))
              (h.at (lba + m / 512) (omega (arith, place, end, v.small))
                ∙ stored_in (lba + m / 512) lba fs.sectors_per_cluster
                    (λ j. buf ((lba + m / 512 - lba) * 512 + j)) (sector_at fs (lba + m / 512))
                    (omega arith) (omega arith))
          ∙ ap buf index,
      λ l lt outside.
          h.at l lt
          ∙ stored_out l lba fs.sectors_per_cluster (λ j. buf ((l - lba) * 512 + j))
              (sector_at fs l) outside,
    )
