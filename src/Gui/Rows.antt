-- ===== src/Gui/Rows.antt =====
-- gui/helpers.c: rows of pixels that are filled and copied, two pixels at a time where the address
-- allows it, and the colours of a pixel.
pub mod Laws
use entropy_os.Prelude.{
  ℕ, zero, suc, ◌+◌, ◌-◌, ◌*◌, ◌/◌, ◌%◌, ◌^◌, Bool, true, false, ◌&&◌, ◌==◌, if◌then◌else◌,
}

-- Pixels of 32 bits by their index.
abbrev pub Pixels : Type 0
Pixels = ℕ → ℕ

abbrev pub set_pixel : Pixels → ℕ → ℕ → Pixels
set_pixel m i v k = if k == i then v else m k

-- whether the pixel at an index can be accessed as the first half of 64 bits
abbrev pub is_aligned : ℕ → ℕ → Bool
is_aligned base off = (base + 4 * off) % 8 == 0

-- `d64[j] = v` for the row that starts at `off`
unfoldable pub store64 : ℕ → ℕ → ℕ → Pixels → Pixels
store64 off j v m =
    set_pixel (set_pixel m (off + 2 * j) (v % 2 ^ 32)) (off + 2 * j + 1) (v / 2 ^ 32)

-- `s64[j]` for the row that starts at `off`
unfoldable pub load64 : Pixels → ℕ → ℕ → ℕ
load64 m off j = m (off + 2 * j) + 2 ^ 32 * m (off + 2 * j + 1)

-- The two loops over 64-bit words in `fill_row` and `row_copy`: `v j` is what is stored in the
-- `j`-th word. The first loop stores four words in each of `n` rounds.
unfoldable pub store_quads : ℕ → (ℕ → ℕ) → ℕ → ℕ → Pixels → Pixels
store_quads off v zero j m = m
store_quads off v (suc n) j m = store_quads off v n (j + 4) (
    store64 off (j + 3) (v (j + 3))
      (store64 off (j + 2) (v (j + 2)) (store64 off (j + 1) (v (j + 1)) (store64 off j (v j) m))))

unfoldable pub store_words : ℕ → (ℕ → ℕ) → ℕ → ℕ → Pixels → Pixels
store_words off v zero j m = m
store_words off v (suc n) j m = store_words off v n (j + 1) (store64 off j (v j) m)

-- the last loop, over single pixels from the `i`-th on
unfoldable pub store_pixels : ℕ → (ℕ → ℕ) → ℕ → ℕ → Pixels → Pixels
store_pixels off v zero i m = m
store_pixels off v (suc n) i m = store_pixels off v n (i + 1) (set_pixel m (off + i) (v i))

-- `n / 2` words, the most of them in rounds of four
unfoldable pub store_all_words : ℕ → (ℕ → ℕ) → ℕ → Pixels → Pixels
store_all_words off v n m =
    store_words off v (n / 2 % 4) (n / 2 / 4 * 4) (store_quads off v (n / 2 / 4) 0 m)

-- `fill_row` of `n` pixels at the index `off` of a buffer whose address is `base`
unfoldable pub fill_row : ℕ → ℕ → ℕ → ℕ → Pixels → Pixels
fill_row base off color n m =
    if is_aligned base off
    then store_pixels off (λ _. color) (n % 2) (n / 2 * 2)
        (store_all_words off (λ _. color * 2 ^ 32 + color) n m)
    else store_pixels off (λ _. color) n 0 m

-- `row_copy` of `n` pixels from the index `from` of `src`; the buffers are different ones.
unfoldable pub row_copy : ℕ → ℕ → ℕ → Pixels → ℕ → ℕ → Pixels → Pixels
row_copy base off src_base src from n m =
    if is_aligned base off && is_aligned src_base from
    then store_pixels off (λ i. src (from + i)) (n % 2) (n / 2 * 2)
        (store_all_words off (load64 src from) n m)
    else store_pixels off (λ i. src (from + i)) n 0 m

-- `pack_pixel`; `true` is `PixelRedGreenBlueReserved8BitPerColor`.
unfoldable pub pack_pixel : Bool → ℕ → ℕ → ℕ → ℕ
pack_pixel true r g b = r + 2 ^ 8 * g + 2 ^ 16 * b
pack_pixel false r g b = b + 2 ^ 8 * g + 2 ^ 16 * r

-- `unpack_pixel_rgb`: red, green and blue
unfoldable pub unpack_pixel_rgb : Bool → ℕ → ℕ × ℕ × ℕ
unpack_pixel_rgb true px = (px % 256, px / 2 ^ 8 % 256, px / 2 ^ 16 % 256)
unpack_pixel_rgb false px = (px / 2 ^ 16 % 256, px / 2 ^ 8 % 256, px % 256)

-- `blend_chan`, and the macro `BLEND`, for bytes
unfoldable pub blend_chan : ℕ → ℕ → ℕ → ℕ
blend_chan src dst a = let x = src * a + dst * (255 - a) in (x + x / 2 ^ 8 + 0x80) / 2 ^ 8 % 256
