-- ===== src/Gpt/Encoding.antt =====
-- The header of fs/gpt/gpt.c as bytes of a sector, and read back.
use entropy_os.Prelude.{
  ℕ, zero, suc, ◌+◌, ◌/◌, ◌%◌, ◌^◌, ◌<◌, ◌≡◌, refl, ap, ap₂, sym, ◌∙◌, List, [], ◌∷◌, ◌++◌, Bytes,
  zeros, length, drop, get32, put8, put_bytes, bytes_at, arith,
}
use entropy_os.Gpt.Data.{Header, le, header_bytes, get64, header_of}
use entropy_os.Gpt.Operations.{header_sector}

-- every element is a byte
abbrev pub IsBytes : List ℕ → Type 0
IsBytes [] = Unit
IsBytes (x ∷ xs) = (x < 256) × IsBytes xs

drop-tail : (xs : List ℕ) (a : ℕ) {y : ℕ} {ys : List ℕ} → drop a xs ≡ y ∷ ys → drop (suc a) xs ≡ ys
drop-tail [] zero h = cc
drop-tail [] (suc a) h = cc
drop-tail (x ∷ xs) zero h = cc
drop-tail (x ∷ xs) (suc a) h = drop-tail xs a h

-- A byte of a list that was copied to an offset.
put_bytes-drop :
    (b : Bytes) (xs : List ℕ) (off a : ℕ) {y : ℕ} {ys : List ℕ}
    → drop a xs ≡ y ∷ ys
    → put_bytes b off xs (off + a) ≡ y % 256
unfolding put_bytes put8
put_bytes-drop b [] off zero h = cc
put_bytes-drop b [] off (suc a) h = cc
put_bytes-drop b (x ∷ xs) off zero {y} h = ground arith
put_bytes-drop b (x ∷ xs) off (suc a) {y} h =
    ground (arith, put_bytes-drop b xs (off + 1) a h, ap (put_bytes b (off + 1) xs) next)
  where
    next : off + suc a ≡ off + 1 + a
    next = omega arith

pub sector_byte :
    (xs : List ℕ) (a : ℕ) {y : ℕ} {ys : List ℕ}
    → drop a xs ≡ y ∷ ys
    → put_bytes zeros 0 xs a ≡ y % 256
sector_byte xs a h =
    let start : a ≡ 0 + a = omega arith in
    ap (put_bytes zeros 0 xs) start ∙ put_bytes-drop zeros xs 0 a h

pub drop_skip :
    (xs : List ℕ) (a n : ℕ) (ys : List ℕ) {zs : List ℕ}
    → drop a xs ≡ ys ++ zs
    → length ys ≡ n
    → drop (a + n) xs ≡ zs
drop_skip xs a n [] {zs} h e =
    let here : a + n ≡ a = omega (arith, e) in ap (λ (k : ℕ). drop k xs) here ∙ h
drop_skip xs a n (y ∷ ys) {zs} h e =
    let here : a + n ≡ suc a + length ys = omega (arith, e) in
    ap (λ (k : ℕ). drop k xs) here ∙ drop_skip xs (suc a) (length ys) ys (drop-tail xs a h) refl

get32-sector :
    (xs : List ℕ) (a v : ℕ) (rest : List ℕ)
    → drop a xs ≡ le 4 v ++ rest
    → get32 (put_bytes zeros 0 xs) a ≡ v % 2 ^ 32
unfolding get32 le
get32-sector xs a v rest h =
    let v1 = v / 256 in
    let v2 = v1 / 256 in
    rw
      (
        sector_byte xs a h,
        sector_byte xs (a + 1) (drop_skip xs a 1 (v % 256 ∷ []) h refl),
        sector_byte xs (a + 2) (drop_skip xs a 2 (v % 256 ∷ v1 % 256 ∷ []) h refl),
        sector_byte xs (a + 3) (drop_skip xs a 3 (v % 256 ∷ v1 % 256 ∷ v2 % 256 ∷ []) h refl),
      )
      (omega arith)

get64-sector :
    (xs : List ℕ) (a v : ℕ) (rest : List ℕ)
    → drop a xs ≡ le 8 v ++ rest
    → v < 2 ^ 64
    → get64 (put_bytes zeros 0 xs) a ≡ v
unfolding get64 le
get64-sector xs a v rest h lt =
    let low = le 4 v in
    let high = le 4 (v / 256 / 256 / 256 / 256) in
    let p = get32-sector xs a v (high ++ rest) h in
    let q =
      get32-sector xs (a + 4) (v / 256 / 256 / 256 / 256) rest (drop_skip xs a 4 low h refl) in
    omega (arith, p, q)

bytes_at-sector :
    (xs : List ℕ) (a : ℕ) (ys rest : List ℕ)
    → drop a xs ≡ ys ++ rest
    → IsBytes ys
    → bytes_at (put_bytes zeros 0 xs) a (length ys) ≡ ys
unfolding bytes_at
bytes_at-sector xs a [] rest h t = refl
bytes_at-sector xs a (y ∷ ys) rest h (lt, t) =
    let here : y % 256 ≡ y = omega arith in
    ap₂ (λ (x : ℕ) (xs : List ℕ). x ∷ xs) (sector_byte xs a h ∙ here)
      (bytes_at-sector xs (a + 1) ys rest (drop_skip xs a 1 (y ∷ []) h refl) t)

-- The fields of a header fit the widths that `gpt_header_t` gives them.
pub record Fits (h : Header) : Type 0 where
  pub signature : length h.signature ≡ 8
  pub signature_bytes : IsBytes h.signature
  pub revision : h.revision < 2 ^ 32
  pub header_size : h.header_size < 2 ^ 32
  pub header_crc32 : h.header_crc32 < 2 ^ 32
  pub reserved : h.reserved < 2 ^ 32
  pub current_lba : h.current_lba < 2 ^ 64
  pub backup_lba : h.backup_lba < 2 ^ 64
  pub first_usable_lba : h.first_usable_lba < 2 ^ 64
  pub last_usable_lba : h.last_usable_lba < 2 ^ 64
  pub disk_guid : length h.disk_guid ≡ 16
  pub disk_guid_bytes : IsBytes h.disk_guid
  pub partition_entries_lba : h.partition_entries_lba < 2 ^ 64
  pub num_partition_entries : h.num_partition_entries < 2 ^ 32
  pub partition_entry_size : h.partition_entry_size < 2 ^ 32
  pub partition_array_crc32 : h.partition_array_crc32 < 2 ^ 32

pub length-le : (n v : ℕ) → length (le n v) ≡ n
unfolding le
length-le zero v = refl
length-le (suc n) v = ap suc (length-le n (v / 256))

-- A number of 32 or 64 bits, and what stands behind it.
field32 :
    (xs : List ℕ) (a v : ℕ) (rest : List ℕ)
    → v < 2 ^ 32
    → drop a xs ≡ le 4 v ++ rest
    → (get32 (put_bytes zeros 0 xs) a ≡ v) × (drop (a + 4) xs ≡ rest)
field32 xs a v rest lt h =
    let small : v % 2 ^ 32 ≡ v = omega arith in
    (get32-sector xs a v rest h ∙ small, drop_skip xs a 4 (le 4 v) h (length-le 4 v))

pub field64 :
    (xs : List ℕ) (a v : ℕ) (rest : List ℕ)
    → v < 2 ^ 64
    → drop a xs ≡ le 8 v ++ rest
    → (get64 (put_bytes zeros 0 xs) a ≡ v) × (drop (a + 8) xs ≡ rest)
field64 xs a v rest lt h =
    (get64-sector xs a v rest h lt, drop_skip xs a 8 (le 8 v) h (length-le 8 v))

pub field_bytes :
    (xs : List ℕ) (a n : ℕ) (ys rest : List ℕ)
    → length ys ≡ n
    → IsBytes ys
    → drop a xs ≡ ys ++ rest
    → (bytes_at (put_bytes zeros 0 xs) a n ≡ ys) × (drop (a + n) xs ≡ rest)
field_bytes xs a n ys rest len bytes h = (
  ap (bytes_at (put_bytes zeros 0 xs) a) (sym len) ∙ bytes_at-sector xs a ys rest h bytes,
  drop_skip xs a n ys h len,
)

-- A header whose fields fit their widths is read back from the sector that it was written to.
pub header_of-header_sector : (h : Header) → Fits h → header_of (header_sector h) ≡ h
unfolding header_of header_sector header_bytes
header_of-header_sector h f =
    let xs = header_bytes h in
    let array = le 4 h.partition_array_crc32 ++ [] in
    let entries = le 4 h.num_partition_entries ++ (le 4 h.partition_entry_size ++ array) in
    let guid = h.disk_guid ++ (le 8 h.partition_entries_lba ++ entries) in
    let usable = le 8 h.first_usable_lba ++ (le 8 h.last_usable_lba ++ guid) in
    let lbas = le 8 h.current_lba ++ (le 8 h.backup_lba ++ usable) in
    let crc = le 4 h.header_crc32 ++ (le 4 h.reserved ++ lbas) in
    let start = le 4 h.revision ++ (le 4 h.header_size ++ crc) in
    let (f1, d1) = field_bytes xs 0 8 h.signature start f.signature f.signature_bytes refl in
    let (f2, d2) = field32 xs 8 h.revision (le 4 h.header_size ++ crc) f.revision d1 in
    let (f3, d3) = field32 xs 12 h.header_size crc f.header_size d2 in
    let (f4, d4) = field32 xs 16 h.header_crc32 (le 4 h.reserved ++ lbas) f.header_crc32 d3 in
    let (f5, d5) = field32 xs 20 h.reserved lbas f.reserved d4 in
    let (f6, d6) = field64 xs 24 h.current_lba (le 8 h.backup_lba ++ usable) f.current_lba d5 in
    let (f7, d7) = field64 xs 32 h.backup_lba usable f.backup_lba d6 in
    let (f8, d8) =
      field64 xs 40 h.first_usable_lba (le 8 h.last_usable_lba ++ guid) f.first_usable_lba d7 in
    let (f9, d9) = field64 xs 48 h.last_usable_lba guid f.last_usable_lba d8 in
    let (f10, d10) =
      field_bytes xs 56 16 h.disk_guid (le 8 h.partition_entries_lba ++ entries) f.disk_guid
        f.disk_guid_bytes d9 in
    let (f11, d11) = field64 xs 72 h.partition_entries_lba entries f.partition_entries_lba d10 in
    let (f12, d12) =
      field32 xs 80 h.num_partition_entries (le 4 h.partition_entry_size ++ array)
        f.num_partition_entries d11 in
    let (f13, d13) = field32 xs 84 h.partition_entry_size array f.partition_entry_size d12 in
    let (f14, d14) = field32 xs 88 h.partition_array_crc32 [] f.partition_array_crc32 d13 in
    rw (f1, f2, f3, f4, f5, f6, f7, f8, f9, f10, f11, f12, f13, f14) refl
