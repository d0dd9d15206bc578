-- ===== src/Fat32/Tests.antt =====
-- Runs of the model of fs/fat32/fat32.c, and its theorems at a concrete volume.
use entropy_os.Prelude.{
  ℕ, Bytes, ◌%◌, ◌<◌, ◌≤◌, ◌⊎◌, ◌≡◌, refl, true, some, none, [], ◌∷◌, arith, get32, put32, zeros,
  if◌then◌else◌,
}
use entropy_os.Block.{Backend, Blocks, block_is_present, block_read_sector, block_write_sector}
use entropy_os.Block.Laws.{can_read, can_write}
use entropy_os.Fat32.Volume.{
  Volume, get_next, set_next, read_cluster, write_cluster, u32, read_sector, write_sector, next_in,
  allocate, free_chain,
}
use entropy_os.Fat32.Format.{format, format_disk, write_table, write_tables, clear_sectors}
use entropy_os.Fat32.Format.Layout.{format-layout}
use entropy_os.Fat32.Volume.Sectors.{IsMounted, IsReliable, sector_at, with_disk}
use entropy_os.Fat32.Volume.Table.{get_next-set_next}
use entropy_os.Fat32.Volume.Allocate.{Allocated, allocate-Allocated}
use entropy_os.Fat32.Volume.Cluster.{read_cluster-write_cluster}
use entropy_os.Fat32.Volume.Chain.{Changed, elem, IsChain, free_chain_lem}

abbrev perfect : Backend
perfect = record {
  sector = λ _. zeros;
  readable = λ _. true;
  writable = λ _. true;
  spoiled = λ _ b. b;
}

-- A volume of 100 clusters of one sector, with two tables of one sector.
abbrev small : Volume
small = record {
  fat_begin_lba = 32;
  cluster_begin_lba = 34;
  sectors_per_cluster = 1;
  root_dir_cluster = 2;
  fat_size = 1;
  num_fats = 2;
  total_clusters = 100;
  initialized = true;
  partition_offset = 2048;
  free_clusters = 99;
  disk = record { sata = some perfect; ms = none; flushes = 0 };
}

small-IsMounted : IsMounted small
small-IsMounted = omega arith

small-IsReliable : IsReliable small
unfolding can_read can_write
small-IsReliable = record { readable = λ n h. refl; writable = λ n h. refl }

get_next-set_next_example : get_next (set_next small 3 4).1 3 ≡ 4
get_next-set_next_example =
    get_next-set_next small 3 4 3 small-IsMounted small-IsReliable (omega arith) (omega arith)

allocate-Allocated_example : Allocated small 2 102 (allocate small)
allocate-Allocated_example = allocate-Allocated small small-IsMounted small-IsReliable

-- the table sector of a volume with the chain 3, 4
abbrev chained : Volume
chained = record small {
  disk = record {
    sata = some (record perfect { sector = λ _. put32 (put32 zeros 12 4) 16 0x0FFFFFFF });
    ms = none;
    flushes = 0;
  };
}

chained-IsReliable : IsReliable chained
unfolding can_read can_write
chained-IsReliable = record { readable = λ n h. refl; writable = λ n h. refl }

IsChain-of_two : IsChain chained 3 (3 ∷ 4 ∷ [])
unfolding get_next next_in read_sector block_read_sector get32 put32
IsChain-of_two = (refl, omega arith, omega arith, (refl, omega arith, omega arith, refl))

free_chain_lem_example :
    (fs' : Volume) × (free_chain 3 chained 3 ≡ some fs')
    × Changed chained fs' (λ j. if elem j (3 ∷ 4 ∷ []) then 0 else get_next chained j)
free_chain_lem_example =
    free_chain_lem 3 chained 3 (3 ∷ 4 ∷ []) (omega arith) chained-IsReliable IsChain-of_two
      (refl, (refl, tt)) (omega arith)

formats : format 5000 none small ≡ (true, (format 5000 none small).1)
unfolding format format_disk write_sector write_tables write_table clear_sectors block_is_present
    block_write_sector
formats = refl

-- The first sector of the second table, which starts at 37, holds zeros after formatting.
format-layout_example : sector_at (format 5000 none small).1 37 ≡ zeros
format-layout_example =
    format-layout 5000 none small (omega arith) (omega arith) (omega arith) formats 37 (omega arith)
      (omega arith)

read_cluster-write_cluster_example :
    (d : Blocks) × (out : Bytes) × (write_cluster small 3 (λ k. k % 256)
      ≡ (true, with_disk small d))
    × (read_cluster (with_disk small d) 3 zeros ≡ some out)
    × ((k : ℕ) → k < 512 → out k ≡ k % 256)
    × ((l : ℕ)
        → l < u32
        → (l < 35) ⊎ (36 ≤ l)
        → sector_at (with_disk small d) l ≡ sector_at small l)
read_cluster-write_cluster_example =
    read_cluster-write_cluster small 3 (λ k. k % 256) zeros small-IsMounted small-IsReliable
      (omega arith) (omega arith)
