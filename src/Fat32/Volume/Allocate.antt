-- ===== src/Fat32/Volume/Allocate.antt =====
-- `fat32_allocate_cluster` of fs/fat32/fat32.c.
use entropy_os.Prelude.{
  ℕ, zero, suc, ◌+◌, ◌-◌, ◌%◌, ◌<◌, ◌≤◌, ◌≡◌, ◌≢◌, refl, true, arith, inl, inr, ◌⊎◌, ℕ_discrete,
  ==_true, ==_false,
}
use entropy_os.Fat32.Volume.{
  Volume, u32, eoc, get_next, set_next, count_down, allocate_from, allocate,
}
use entropy_os.Fat32.Volume.Sectors.{IsMounted, IsReliable, with_disk}
use entropy_os.Fat32.Volume.Table.{table_disk, set_next_ok}

-- the volume after a cluster was taken
abbrev pub taken : Volume → ℕ → Volume
taken fs c = count_down (with_disk fs (table_disk fs c eoc))

-- What `fat32_allocate_cluster` may return.
abbrev pub Allocated : Volume → ℕ → ℕ → ℕ × Volume → Type 0
Allocated fs first end r =
    ((c : ℕ) × (first ≤ c)
      × (c < end)
      × (get_next fs c ≡ 0)
      × ((j : ℕ) → first ≤ j → j < c → get_next fs j ≢ 0)
      × (r ≡ (c, taken fs c)))
    ⊎ (((j : ℕ) → first ≤ j → j < end → get_next fs j ≢ 0) × (r ≡ (0, fs)))

allocate_hit :
    (n c : ℕ) (fs : Volume)
    → get_next fs c ≡ 0
    → set_next fs c eoc ≡ (true, with_disk fs (table_disk fs c eoc))
    → allocate_from (suc n) c fs ≡ (c, taken fs c)
unfolding allocate_from
allocate_hit n c fs p e = rw (==_true p, e, allocate_from) (rw e)

allocate_miss :
    (n c : ℕ) (fs : Volume)
    → get_next fs c ≢ 0
    → allocate_from (suc n) c fs ≡ allocate_from n (c + 1) fs
unfolding allocate_from
allocate_miss n c fs p = rw (==_false p, allocate_from)

allocate_from-Allocated :
    (n c : ℕ) (fs : Volume)
    → IsMounted fs
    → IsReliable fs
    → c + n ≡ fs.total_clusters + 2
    → Allocated fs c (fs.total_clusters + 2) (allocate_from n c fs)
unfolding allocate_from
allocate_from-Allocated zero c fs m r e = inr (λ j lo hi. absurd (omega arith), refl)
allocate_from-Allocated (suc n) c fs m r e = elim (ℕ_discrete (get_next fs c) 0) [
  | yes p ↦ inl (
    c,
    omega arith,
    omega arith,
    p,
    (λ j lo hi. absurd (omega arith)),
    allocate_hit n c fs p (set_next_ok fs c eoc m r (omega arith)),
  )
  | no p ↦ elim (allocate_from-Allocated n (c + 1) fs m r (omega arith)) [
    | inl q ↦
        let (d, lo, hi, free, before, out) = q in
        inl (
          d,
          omega arith,
          omega arith,
          free,
          (λ j lo' hi'. used p before j lo' hi'),
          rw (allocate_miss n c fs p) out,
        )
    | inr q ↦
        let (before, out) = q in
        inr ((λ j lo' hi'. used p before j lo' hi'), rw (allocate_miss n c fs p) out)
  ]
]
  where
    used :
        {d : ℕ}
        → get_next fs c ≢ 0
        → ((j : ℕ) → c + 1 ≤ j → j < d → get_next fs j ≢ 0)
        → (j : ℕ) → c ≤ j
        → j < d
        → get_next fs j ≢ 0
    used p before j lo hi = elim (ℕ_discrete c j) [
      | yes q ↦ rw (← q) p
      | no q ↦ before j (omega arith) hi
    ]

-- In a reliable volume `fat32_allocate_cluster` returns the first free cluster from 2 on, having
-- set its entry to the end mark and counted the free clusters down; or it returns 0 and changes
-- nothing, and then no cluster of the volume is free.
pub allocate-Allocated :
    (fs : Volume)
    → IsMounted fs
    → IsReliable fs
    → Allocated fs 2 (fs.total_clusters + 2) (allocate fs)
unfolding allocate
allocate-Allocated fs m r =
    rw rounds (allocate_from-Allocated fs.total_clusters 2 fs m r (omega arith))
  where
    rounds : (fs.total_clusters + 2) % u32 - 2 ≡ fs.total_clusters
    rounds = omega (arith, m.numbers)
