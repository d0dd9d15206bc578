-- ===== src/MassStorage/Emulator/Sectors.antt =====
-- The loops over sectors in drivers/usb/usb_host_xhci.c.
use entropy_os.Prelude.{
  ℕ, zero, suc, ◌+◌, ◌-◌, ◌*◌, ◌≤◌, ◌<◌, ◌≡◌, refl, ap, ap₂, sym, subst, ◌∙◌, Bool, true, false,
  ◌&&◌, Option, none, some, List, [], ◌∷◌, ◌++◌, length, take, drop, get_or, bytes_at, Bytes, ltb,
  leb, ◌==◌, ==_true, ==_false, ℕ_discrete, dec_lt, if◌then◌else◌, arith,
}
use entropy_os.Block.{Blocks, block_read_sector, block_write_sector}
use entropy_os.Block.Laws.{
  disk_at, torn, can_read, can_write, block_read_sector_lem, block_write_sector-Wrote,
}
use entropy_os.MassStorage.Blocks.{span}
use entropy_os.MassStorage.Emulator.{write_sectors, read_sectors}

-- What a sector of the device in use holds, as a list.
abbrev pub block_at : Blocks → ℕ → List ℕ
block_at d l = bytes_at (disk_at d l) 0 512

-- The sectors below a number can be read and written.
pub record IsGood (d : Blocks) (capacity : ℕ) : Type 0 where
  pub reads : (l : ℕ) → l < capacity → can_read d l ≡ true
  pub writes : (l : ℕ) → l < capacity → can_write d l ≡ true

pub length-bytes_at : (b : Bytes) (off n : ℕ) → length (bytes_at b off n) ≡ n
unfolding bytes_at
length-bytes_at b off zero = refl
length-bytes_at b off (suc n) = omega (arith, length-bytes_at b (off + 1) n)

bytes_at-ext :
    (a b : Bytes) → ((k : ℕ) → a k ≡ b k) → (off n : ℕ) → bytes_at a off n ≡ bytes_at b off n
unfolding bytes_at
bytes_at-ext a b h off zero = refl
bytes_at-ext a b h off (suc n) =
    ap₂ (λ (x : ℕ) (xs : List ℕ). x ∷ xs) (h off) (bytes_at-ext a b h (off + 1) n)

drop_step : (xs : List ℕ) (p : ℕ) → p < length xs → drop p xs ≡ get_or xs p 0 ∷ drop (p + 1) xs
drop_step [] p h = absurd (omega (arith, h))
drop_step (x ∷ xs) zero h = refl
drop_step (x ∷ xs) (suc p) h =
    let next : suc p + 1 ≡ suc (p + 1) = omega arith in
    drop_step xs p (omega (arith, h)) ∙ ap (λ (k : ℕ). get_or xs p 0 ∷ drop k (x ∷ xs)) (sym next)

-- The bytes of a buffer that are copied to a sector are a part of the list.
bytes_at-get_or :
    (xs : List ℕ) (off j n : ℕ)
    → off + j + n ≤ length xs
    → bytes_at (λ k. get_or xs (off + k) 0) j n ≡ take n (drop (off + j) xs)
unfolding bytes_at
bytes_at-get_or xs off j zero h = refl
bytes_at-get_or xs off j (suc n) h =
    let next : off + (j + 1) ≡ off + j + 1 = omega arith in
    ap (λ (ys : List ℕ). get_or xs (off + j) 0 ∷ ys)
      (bytes_at-get_or xs off (j + 1) n (omega (arith, h))
        ∙ ap (λ (k : ℕ). take n (drop k xs)) next)
    ∙ sym (ap (take (suc n)) (drop_step xs (off + j) (omega (arith, h))))

-- A loop that read its sectors.
pub read_sectors_lem :
    (n lba : ℕ) (d : Blocks) (capacity : ℕ)
    → IsGood d capacity
    → lba + n ≤ capacity
    → read_sectors n lba d ≡ some (span (block_at d) lba n)
unfolding read_sectors
read_sectors_lem zero lba d capacity g h = refl
read_sectors_lem (suc n) lba d capacity g h =
    let first : block_read_sector d lba ≡ some (disk_at d lba) =
      block_read_sector_lem d lba
      ∙ ap (λ (t : Bool). if t then some (disk_at d lba) else none)
          (g.reads lba (omega (arith, h))) in
    ap (λ (o : Option Bytes). with_first o (read_sectors n (lba + 1) d)) first
    ∙ ap (λ (o : Option (List ℕ)). with_first (some (disk_at d lba)) o)
        (read_sectors_lem n (lba + 1) d capacity g (omega (arith, h)))
  where
    with_first : Option Bytes → Option (List ℕ) → Option (List ℕ)
    with_first o r = elim o [
      | none ↦ none
      | some b ↦ elim r [ none ↦ none | some rest ↦ some (bytes_at b 0 512 ++ rest) ]
    ]

-- A loop that wrote its sectors: from `off` on, 512 bytes for each.
pub record Stored (n lba off : ℕ) (buf : List ℕ) (d : Blocks) (capacity : ℕ) (out : Bool × Blocks)
    : Type 0 where
  pub done : out.0 ≡ true
  pub good : IsGood out.1 capacity
  pub at :
      (l : ℕ)
      → block_at out.1 l ≡ (
          if leb lba l && ltb l (lba + n)
          then take 512 (drop (off + (l - lba) * 512) buf)
          else block_at d l)

pub write_sectors-Stored :
    (n lba off : ℕ) (buf : List ℕ) (d : Blocks) (capacity : ℕ)
    → IsGood d capacity
    → lba + n ≤ capacity
    → off + n * 512 ≤ length buf
    → Stored n lba off buf d capacity (write_sectors n lba off 512 buf d)
unfolding write_sectors
write_sectors-Stored zero lba off buf d capacity g h room = record {
  done = refl;
  good = g;
  at = λ l. ground arith;
}
write_sectors-Stored (suc n) lba off buf d capacity g h room =
    let b : Bytes = λ k. get_or buf (off + k) 0 in
    let w = block_write_sector-Wrote d lba b in
    let out = block_write_sector d lba b in
    let wrote : out.0 ≡ true = w.result ∙ g.writes lba (omega (arith, h)) in
    let good : IsGood out.1 capacity = record {
      reads = λ l lt. w.still_reads l ∙ g.reads l lt;
      writes = λ l lt. w.still_writes l ∙ g.writes l lt;
    } in
    let rest =
      write_sectors-Stored n (lba + 1) (off + 512) buf out.1 capacity good (omega (arith, h))
        (omega (arith, room)) in
    subst (Stored (suc n) lba off buf d capacity)
      (sym (ap (λ (ok : Bool). and_then ok out.1) wrote))
      (record {
        done = rest.done;
        good = rest.good;
        at = λ l. elim (ℕ_discrete l lba) [
          | yes e ↦
              let past : (leb (lba + 1) l && ltb l (lba + 1 + n)) ≡ false = ground (arith, e) in
              let inside : (leb lba l && ltb l (lba + suc n)) ≡ true = ground (arith, e) in
              let place : off + (l - lba) * 512 ≡ off + 0 = omega (arith, e) in
              rest.at l
              ∙ ap
                  (λ (t : Bool).
                    if t
                    then take 512 (drop (off + 512 + (l - (lba + 1)) * 512) buf)
                    else block_at out.1 l)
                  past
              ∙ first l (==_true e)
              ∙ bytes_at-get_or buf off 0 512 (omega (arith, room))
              ∙ sym (
                  ap
                    (λ (t : Bool).
                      if t then take 512 (drop (off + (l - lba) * 512) buf) else block_at d l)
                    inside
                  ∙ ap (λ (k : ℕ). take 512 (drop k buf)) place)
          | no ne ↦
              let same = other l (==_false ne) in
              elim (dec_lt lba l) [
                | yes past ↦
                    let place : off + 512 + (l - (lba + 1)) * 512 ≡ off + (l - lba) * 512 =
                      omega (arith, past) in
                    let test : (leb (lba + 1) l && ltb l (lba + 1 + n))
                        ≡ (leb lba l && ltb l (lba + suc n)) =
                      ground (arith, past) in
                    rest.at l
                    ∙ ap₂
                        (λ (t : Bool) (k : ℕ).
                          if t then take 512 (drop k buf) else block_at out.1 l)
                        test place
                    ∙ ap
                        (λ (ys : List ℕ).
                          if leb lba l && ltb l (lba + suc n)
                          then take 512 (drop (off + (l - lba) * 512) buf)
                          else ys)
                        same
                | no before ↦
                    let out1 : (leb (lba + 1) l && ltb l (lba + 1 + n)) ≡ false =
                      ground (arith, ne, before) in
                    let out2 : (leb lba l && ltb l (lba + suc n)) ≡ false =
                      ground (arith, ne, before) in
                    rest.at l
                    ∙ ap
                        (λ (t : Bool).
                          if t
                          then take 512 (drop (off + 512 + (l - (lba + 1)) * 512) buf)
                          else block_at out.1 l)
                        out1
                    ∙ same
                    ∙ sym (
                        ap
                          (λ (t : Bool).
                            if t then take 512 (drop (off + (l - lba) * 512) buf) else block_at d l)
                          out2)
              ]
        ];
      })
  where
    and_then : Bool → Blocks → Bool × Blocks
    and_then ok d' = elim ok [
      | false ↦ (false, d')
      | true ↦ write_sectors n (lba + 1) (off + 512) 512 buf d'
    ]

    changed :
        (l : ℕ) (t : Bool)
        → (l == lba) ≡ t
        → block_at (block_write_sector d lba (λ k. get_or buf (off + k) 0)).1 l
          ≡ (if t then bytes_at (λ k. get_or buf (off + k) 0) 0 512 else block_at d l)
    changed l t e =
        let b : Bytes = λ k. get_or buf (off + k) 0 in
        let w = block_write_sector-Wrote d lba b in
        let wrote = w.result ∙ g.writes lba (omega (arith, h)) in
        ap (λ (x : Bytes). bytes_at x 0 512)
          (w.at l
            ∙ ap
                (λ (ok : Bool).
                  if ok
                  then (if l == lba then b else disk_at d l)
                  else (if l == lba then torn d lba b else disk_at d l))
                wrote
            ∙ ap (λ (t' : Bool). if t' then b else disk_at d l) e)
        ∙ either t
      where
        either :
            (t' : Bool)
            → bytes_at (if t' then (λ k. get_or buf (off + k) 0) else disk_at d l) 0 512
              ≡ (if t' then bytes_at (λ k. get_or buf (off + k) 0) 0 512 else block_at d l)
        either true = refl
        either false = refl

    first :
        (l : ℕ)
        → (l == lba) ≡ true
        → block_at (block_write_sector d lba (λ k. get_or buf (off + k) 0)).1 l
          ≡ bytes_at (λ k. get_or buf (off + k) 0) 0 512
    first l e = changed l true e

    other :
        (l : ℕ)
        → (l == lba) ≡ false
        → block_at (block_write_sector d lba (λ k. get_or buf (off + k) 0)).1 l ≡ block_at d l
    other l e = changed l false e
