-- ===== src/Fat32/Volume/Chain.antt =====
-- Chains of clusters in the table of fs/fat32/fat32.c, and the loop that frees one.
use entropy_os.Prelude.{
  ℕ, zero, suc, ◌%◌, ◌^◌, ◌<◌, ◌≤◌, ◌≡◌, refl, ◌∙◌, Bool, true, false, not, ◌&&◌, ◌||◌, ◌==◌,
  if◌then◌else◌, arith, some, List, [], ◌∷◌, length, if-elim, or_left, or_right,
}
use entropy_os.Fat32.Volume.{
  Volume, unknown, get_next, read_sector, set_next, free_cluster, in_chain, free_chain,
}
use entropy_os.Fat32.Volume.Sectors.{IsMounted, IsReliable}
use entropy_os.Fat32.Volume.Table.{
  IsCluster, set_next_ok, get_next-set_next, table_disk-IsReliable, with_disk-IsMounted,
}

abbrev pub elem : ℕ → List ℕ → Bool
elem j [] = false
elem j (x ∷ xs) = (x == j) || elem j xs

abbrev pub Distinct : List ℕ → Type 0
Distinct [] = Unit {0}
Distinct (x ∷ xs) = (elem x xs ≡ false) × Distinct xs

-- From `c` on the table lists the clusters, each of the volume, up to an end mark.
abbrev pub IsChain : Volume → ℕ → List ℕ → Type 0
IsChain fs c [] = in_chain c ≡ false
IsChain fs c (x ∷ xs) = (c ≡ x) × (2 ≤ x) × IsCluster fs x × IsChain fs (get_next fs x) xs

-- Two volumes that differ in the table only: `f` says what each entry became.
pub record Changed (fs fs' : Volume) (f : ℕ → ℕ) : Type 0 where
  pub mounted : IsMounted fs'
  pub reliable : IsReliable fs'
  pub clusters : fs'.total_clusters ≡ fs.total_clusters
  pub entry : (j : ℕ) → IsCluster fs j → get_next fs' j ≡ f j

with_count : Volume → ℕ → Volume
with_count fs n = record fs { free_clusters = n }

get_next-with_count : (fs : Volume) (n j : ℕ) → get_next (with_count fs n) j ≡ get_next fs j
unfolding get_next with_count read_sector
get_next-with_count fs n j = refl

with_count-IsMounted : (fs : Volume) (n : ℕ) → IsMounted fs → IsMounted (with_count fs n)
unfolding with_count
with_count-IsMounted fs n m = record {
  reserved = m.reserved;
  copies = m.copies;
  tables = m.tables;
  entries = m.entries;
  numbers = m.numbers;
  small = m.small;
  placed = m.placed;
  has_sectors = m.has_sectors;
}

with_count-IsReliable : (fs : Volume) (n : ℕ) → IsReliable fs → IsReliable (with_count fs n)
unfolding with_count
with_count-IsReliable fs n r = record { readable = r.readable; writable = r.writable }

with_count-Changed :
    {fs fs' : Volume} {f : ℕ → ℕ} (n : ℕ) → Changed fs fs' f → Changed fs (with_count fs' n) f
unfolding with_count
with_count-Changed {fs' = fs'} n h = record {
  mounted = with_count-IsMounted fs' n h.mounted;
  reliable = with_count-IsReliable fs' n h.reliable;
  clusters = h.clusters;
  entry = λ j k. get_next-with_count fs' n j ∙ h.entry j k;
}

pub set_next-Changed :
    (fs : Volume) (c v : ℕ)
    → IsMounted fs
    → IsReliable fs
    → IsCluster fs c
    → Changed fs (set_next fs c v).1 (λ j. if c == j then v % 2 ^ 28 else get_next fs j)
set_next-Changed fs c v m r h = record {
  mounted = rw (set_next_ok fs c v m r h) (with_disk-IsMounted fs _ m);
  reliable = rw (set_next_ok fs c v m r h) (table_disk-IsReliable fs c v r);
  clusters = rw (set_next_ok fs c v m r h);
  entry = λ j k. get_next-set_next fs c v j m r h k;
}

-- `fat32_free_cluster` marks its cluster free.
pub free_cluster-Changed :
    (fs : Volume) (c : ℕ)
    → IsMounted fs
    → IsReliable fs
    → IsCluster fs c
    → Changed fs (free_cluster fs c).1 (λ j. if c == j then 0 else get_next fs j)
unfolding free_cluster with_count
free_cluster-Changed fs c m r h =
    if-elim (λ v. Changed fs v (λ j. if c == j then 0 else get_next fs j))
      ((set_next fs c 0).0 && not ((set_next fs c 0).1.free_clusters == unknown))
      (λ _. with_count-Changed _ (set_next-Changed fs c 0 m r h))
      (λ _. set_next-Changed fs c 0 m r h)

-- A chain that does not meet `c` is the same after `c` was freed.
IsChain-free :
    {fs fs' : Volume} (c d : ℕ) (cs : List ℕ)
    → Changed fs fs' (λ j. if c == j then 0 else get_next fs j)
    → elem c cs ≡ false
    → IsChain fs d cs
    → IsChain fs' d cs
IsChain-free c d [] h away k = k
IsChain-free {fs} {fs'} c d (x ∷ xs) h away (e, two, lt, rest) = (
  e,
  two,
  rw h.clusters lt,
  rw (h.entry x lt, other x (or_left (x == c) (elem c xs) away))
      (IsChain-free c (get_next fs x) xs h (or_right (x == c) (elem c xs) away) rest),
)
  where
    other : (x : ℕ) → (x == c) ≡ false → (if c == x then 0 else get_next fs x) ≡ get_next fs x
    other x p = ground arith

in_chain-true : {fs : Volume} (c : ℕ) → IsMounted fs → 2 ≤ c → IsCluster fs c → in_chain c ≡ true
in_chain-true c m two lt = ground (arith, m.numbers)

free_chain_step :
    (n : ℕ) (fs : Volume) (c : ℕ)
    → in_chain c ≡ true
    → free_chain (suc n) fs c ≡ free_chain n (free_cluster fs c).1 (get_next fs c)
unfolding free_chain
free_chain_step n fs c e = rw (e, free_chain)

free_chain_stop :
    (n : ℕ) (fs : Volume) (c : ℕ) → in_chain c ≡ false → free_chain (suc n) fs c ≡ some fs
unfolding free_chain
free_chain_stop n fs c e = rw (e, free_chain)

-- In a reliable volume, with more fuel than the chain has clusters, the loop that frees a chain of
-- distinct clusters ends. Every cluster of the chain is then free, and every other cluster has the
-- entry that it had.
pub free_chain_lem :
    (fuel : ℕ) (fs : Volume) (c : ℕ) (cs : List ℕ)
    → IsMounted fs
    → IsReliable fs
    → IsChain fs c cs
    → Distinct cs
    → length cs < fuel
    → (fs' : Volume) × (free_chain fuel fs c ≡ some fs')
      × Changed fs fs' (λ j. if elem j cs then 0 else get_next fs j)
free_chain_lem zero fs c cs m r ch ds lt = absurd (omega arith)
free_chain_lem (suc n) fs c [] m r ch ds lt = (
  fs,
  free_chain_stop n fs c ch,
  record { mounted = m; reliable = r; clusters = refl; entry = λ j k. refl },
)
free_chain_lem (suc n) fs c (x ∷ xs) m r (e, two, k, rest) (new, ds) lt =
    let h = free_cluster-Changed fs x m r k in
    let (fs', run, ch) =
      free_chain_lem n (free_cluster fs x).1 (get_next fs x) xs h.mounted h.reliable
        (IsChain-free x (get_next fs x) xs h new rest) ds (omega arith) in
    (
      fs',
      rw (e, free_chain_step n fs x (in_chain-true x m two k)) run,
      record {
        mounted = ch.mounted;
        reliable = ch.reliable;
        clusters = ch.clusters ∙ h.clusters;
        entry = λ j q. ch.entry j (rw h.clusters q) ∙ rw (h.entry j q) (ground arith);
      },
    )
