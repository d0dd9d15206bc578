-- ===== src/Gpt/Entries.antt =====
-- The entries of fs/gpt/gpt.c as bytes of the sectors from 2 on, and read back.
use entropy_os.Prelude.{
  ℕ, zero, suc, ◌+◌, ◌-◌, ◌*◌, ◌%◌, ◌^◌, ◌<◌, ◌≡◌, refl, ap, ap₂, sym, ◌∙◌, List, [], ◌∷◌, ◌++◌,
  zeros, Option, some, none, length, length-append, drop-append, drop-drop, drop-take, take_append,
  take, drop, get_elem?, get16, put_bytes, arith,
}
use mathlib.Core.List.{append_assoc}
use entropy_os.Gpt.Data.{Entry, le, units_bytes, entry_bytes, array_bytes, units_at, entry_of}
use entropy_os.Gpt.Operations.{array_sector}
use entropy_os.Gpt.Encoding.{IsBytes, sector_byte, drop_skip, length-le, field64, field_bytes}

-- Every unit of a name has 16 bits.
abbrev pub IsUnits : List ℕ → Type 0
IsUnits [] = Unit
IsUnits (u ∷ us) = (u < 2 ^ 16) × IsUnits us

-- The fields of an entry fit the widths that `gpt_partition_entry_t` gives them.
pub record Fits (e : Entry) : Type 0 where
  pub type_guid : length e.type_guid ≡ 16
  pub type_guid_bytes : IsBytes e.type_guid
  pub partition_guid : length e.partition_guid ≡ 16
  pub partition_guid_bytes : IsBytes e.partition_guid
  pub first_lba : e.first_lba < 2 ^ 64
  pub last_lba : e.last_lba < 2 ^ 64
  pub attributes : e.attributes < 2 ^ 64
  pub name : length e.name ≡ 36
  pub name_units : IsUnits e.name

get16-sector :
    (xs : List ℕ) (a u : ℕ) (rest : List ℕ)
    → u < 2 ^ 16
    → drop a xs ≡ le 2 u ++ rest
    → get16 (put_bytes zeros 0 xs) a ≡ u
unfolding get16 le
get16-sector xs a u rest lt h =
    rw (sector_byte xs a h, sector_byte xs (a + 1) (drop_skip xs a 1 (u % 256 ∷ []) h refl))
      (omega arith)

length-le_two : (u : ℕ) → length (le 2 u) ≡ 2
unfolding le
length-le_two u = refl

units_at-sector :
    (xs : List ℕ) (a : ℕ) (us rest : List ℕ)
    → IsUnits us
    → drop a xs ≡ units_bytes us ++ rest
    → units_at (put_bytes zeros 0 xs) a (length us) ≡ us
unfolding units_at units_bytes
units_at-sector xs a [] rest t h = refl
units_at-sector xs a (u ∷ us) rest (lt, t) h =
    let split = h ∙ append_assoc (le 2 u) (units_bytes us) rest in
    ap₂ (λ (x : ℕ) (xs : List ℕ). x ∷ xs) (get16-sector xs a u (units_bytes us ++ rest) lt split)
      (units_at-sector xs (a + 2) us rest t (drop_skip xs a 2 (le 2 u) split (length-le_two u)))

entry_append :
    (e : Entry) (rest : List ℕ)
    → entry_bytes e ++ rest
      ≡ e.type_guid
        ++ (e.partition_guid
            ++ (le 8 e.first_lba
                ++ (le 8 e.last_lba ++ (le 8 e.attributes ++ (units_bytes e.name ++ rest)))))
unfolding entry_bytes
entry_append e rest = simp append_assoc

at_sum : (xs : List ℕ) (m n : ℕ) (ys : List ℕ) → m ≡ n → drop m xs ≡ ys → drop n xs ≡ ys
at_sum xs m n ys e h = ap (λ (k : ℕ). drop k xs) (sym e) ∙ h

-- An entry whose fields fit their widths is read back from where its bytes are.
entry_of-sector :
    (xs : List ℕ) (a : ℕ) (e : Entry) (rest : List ℕ)
    → Fits e
    → drop a xs ≡ entry_bytes e ++ rest
    → entry_of (put_bytes zeros 0 xs) a ≡ e
unfolding entry_of
entry_of-sector xs a e rest f h =
    let units = units_bytes e.name ++ rest in
    let lbas = le 8 e.first_lba ++ (le 8 e.last_lba ++ (le 8 e.attributes ++ units)) in
    let (f1, d1) =
      field_bytes xs a 16 e.type_guid (e.partition_guid ++ lbas) f.type_guid f.type_guid_bytes
        (h ∙ entry_append e rest) in
    let (f2, d2) =
      field_bytes xs (a + 16) 16 e.partition_guid lbas f.partition_guid f.partition_guid_bytes d1 in
    let (f3, d3) =
      field64 xs (a + 32) e.first_lba (le 8 e.last_lba ++ (le 8 e.attributes ++ units)) f.first_lba
        (at_sum xs (a + 16 + 16) (a + 32) lbas (omega arith) d2) in
    let (f4, d4) = field64 xs (a + 40) e.last_lba (le 8 e.attributes ++ units) f.last_lba (
      at_sum xs (a + 32 + 8) (a + 40) (le 8 e.last_lba ++ (le 8 e.attributes ++ units))
        (omega arith) d3) in
    let (f5, d5) =
      field64 xs (a + 48) e.attributes units f.attributes
        (at_sum xs (a + 40 + 8) (a + 48) (le 8 e.attributes ++ units) (omega arith) d4) in
    let name =
      ap (units_at (put_bytes zeros 0 xs) (a + 56)) (sym f.name)
      ∙ units_at-sector xs (a + 56) e.name rest f.name_units
          (at_sum xs (a + 48 + 8) (a + 56) units (omega arith) d5) in
    rw (f1, f2, f3, f4, f5, name) refl

length-units_bytes : (us : List ℕ) → length (units_bytes us) ≡ 2 * length us
unfolding units_bytes
length-units_bytes [] = refl
length-units_bytes (u ∷ us) =
    omega (arith, length-append (le 2 u) (units_bytes us), length-le_two u, length-units_bytes us)

length-entry_bytes : (e : Entry) → Fits e → length (entry_bytes e) ≡ 128
unfolding entry_bytes
length-entry_bytes e f =
    simp (length-append, length-le, length-units_bytes, f.type_guid, f.partition_guid, f.name)

drop-array_bytes :
    (es : List Entry) (k : ℕ) (e : Entry)
    → ((i : ℕ) (e : Entry) → get_elem? es i ≡ some e → Fits e)
    → get_elem? es k ≡ some e
    → (rest : List ℕ) × (drop (k * 128) (array_bytes es) ≡ entry_bytes e ++ rest)
unfolding array_bytes
drop-array_bytes [] k e f h = cc
drop-array_bytes (x ∷ es) zero e f h =
    (array_bytes es, ap (λ (o : Option Entry). first_bytes o ++ array_bytes es) h)
  where
    first_bytes : Option Entry → List ℕ
    first_bytes none = []
    first_bytes (some e) = entry_bytes e
drop-array_bytes (x ∷ es) (suc k) e f h =
    let (rest, r) = drop-array_bytes es k e (λ i. f (suc i)) h in
    let next : suc k * 128 ≡ length (entry_bytes x) + k * 128 =
      omega (arith, length-entry_bytes x (f 0 x refl)) in
    (
      rest,
      ap (λ (n : ℕ). drop n (entry_bytes x ++ array_bytes es)) next
          ∙ drop-append (entry_bytes x) (array_bytes es) (k * 128)
          ∙ r,
    )

-- In an array of entries whose fields fit their widths, the entry with the index 4 * i + j, with j
-- below 4, is read back from the place j * 128 of the i-th sector.
pub entry_of-array_sector :
    (es : List Entry) (i j : ℕ) (e : Entry)
    → ((k : ℕ) (e : Entry) → get_elem? es k ≡ some e → Fits e)
    → j < 4
    → get_elem? es (4 * i + j) ≡ some e
    → entry_of (array_sector es i) (j * 128) ≡ e
unfolding array_sector
entry_of-array_sector es i j e fit lt h =
    let fits = fit (4 * i + j) e h in
    let bytes = array_bytes es in
    let (rest, r) = drop-array_bytes es (4 * i + j) e fit h in
    let place : i * 512 + j * 128 ≡ (4 * i + j) * 128 = omega arith in
    entry_of-sector (take 512 (drop (i * 512) bytes)) (j * 128) e
      (take (512 - j * 128 - length (entry_bytes e)) rest) fits
      (drop-take (drop (i * 512) bytes) (j * 128) 512
        ∙ ap (take (512 - j * 128))
            (drop-drop bytes (i * 512) (j * 128) ∙ ap (λ (n : ℕ). drop n bytes) place ∙ r)
        ∙ take_append (entry_bytes e) rest (512 - j * 128)
            (omega (arith, length-entry_bytes e fits)))
