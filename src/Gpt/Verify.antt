-- ===== src/Gpt/Verify.antt =====
-- When `gpt_verify` of fs/gpt/gpt.c answers 0: the checksums in memory.
use entropy_os.Prelude.{
  ℕ, zero, suc, ◌/◌, ◌≡◌, refl, ap, sym, ◌∙◌, Bool, true, false, Option, none, some, List, [], ◌∷◌,
  length, length-append, take, leb, ◌==◌, ==_true, if◌then◌else◌, arith,
}
use entropy_os.Gpt.Crc.{crc32}
use entropy_os.Gpt.Data.{Header, Entry, Gpt, le, header_bytes, array_bytes, header_crc, seal_header}
use entropy_os.Gpt.Operations.{reseal, verify, verify_array, matches}

-- A header of the 92 bytes of `gpt_header_t` that says so.
pub record IsSized (h : Header) : Type 0 where
  pub signature : length h.signature ≡ 8
  pub disk_guid : length h.disk_guid ≡ 16
  pub size : h.header_size ≡ 92

length-le : (n v : ℕ) → length (le n v) ≡ n
unfolding le
length-le zero v = refl
length-le (suc n) v = ap suc (length-le n (v / 256))

length-header_bytes : (h : Header) → IsSized h → length (header_bytes h) ≡ 92
unfolding header_bytes
length-header_bytes h s = simp (length-append, length-le, s.signature, s.disk_guid)

take-length_of : (xs : List ℕ) (n : ℕ) → length xs ≡ n → take n xs ≡ xs
take-length_of [] zero h = refl
take-length_of [] (suc n) h = refl
take-length_of (x ∷ xs) zero h = absurd (omega arith)
take-length_of (x ∷ xs) (suc n) h = ap (λ ys. x ∷ ys) (take-length_of xs n (omega arith))

-- the CRC32 of all bytes of a header, its own field taken as 0
abbrev pub full_crc : Header → ℕ
full_crc h = crc32 (header_bytes (record h { header_crc32 = 0 }))

crc32-take :
    (n : ℕ) (xs : List ℕ)
    → n ≡ 92
    → length xs ≡ 92
    → (if leb n 92 then some (crc32 (take n xs)) else none) ≡ some (crc32 xs)
crc32-take n xs e h = rw (e, take-length_of xs 92 h) refl

pub header_crc-IsSized : (h : Header) → IsSized h → header_crc h ≡ some (full_crc h)
unfolding header_crc
header_crc-IsSized h s =
    crc32-take h.header_size (header_bytes (record h { header_crc32 = 0 })) s.size (
      length-header_bytes (record h { header_crc32 = 0 })
        (record { signature = s.signature; disk_guid = s.disk_guid; size = s.size }))

verify_array_lem :
    (b : Bool) (es : List Entry) (h : Header)
    → h.partition_array_crc32 ≡ crc32 (array_bytes es)
    → verify_array (some b) es h ≡ some b
unfolding verify_array
verify_array_lem true es h array = ap some (==_true (sym array))
verify_array_lem false es h array = refl

-- what `verify` looks at
view : Header → List Entry → Bool → Option Bool
view h es on = if on then verify_array (matches (header_crc h) h.header_crc32) es h else some false

-- `verify` with the checksums as numbers
pub verify-IsSized :
    (g : Gpt)
    → IsSized g.header
    → g.initialized ≡ true
    → g.header.partition_array_crc32 ≡ crc32 (array_bytes g.partitions)
    → verify g ≡ some (full_crc g.header == g.header.header_crc32)
unfolding verify view
verify-IsSized g s on array =
    ap (view g.header g.partitions) on
    ∙ ap (λ (o : Option ℕ). verify_array (matches o g.header.header_crc32) g.partitions g.header)
        (header_crc-IsSized g.header s)
    ∙ verify_array_lem (full_crc g.header == g.header.header_crc32) g.partitions g.header array

-- A state with new checksums passes.
pub verify-reseal :
    (g : Gpt) → IsSized g.header → g.initialized ≡ true → verify (reseal g) ≡ some true
unfolding reseal seal_header
verify-reseal g s on =
    verify-IsSized (reseal g)
      (record { signature = s.signature; disk_guid = s.disk_guid; size = s.size }) on refl
    ∙ ap some (==_true refl)

-- `verify` looks at the header, the array and the flag.
pub verify_congr :
    (g g' : Gpt)
    → g'.header ≡ g.header
    → g'.partitions ≡ g.partitions
    → g'.initialized ≡ g.initialized
    → verify g' ≡ verify g
unfolding verify view
verify_congr g g' h p i =
    ap (λ (h : Header). view h g'.partitions g'.initialized) h
    ∙ ap (λ (es : List Entry). view g.header es g'.initialized) p
    ∙ ap (view g.header g.partitions) i
