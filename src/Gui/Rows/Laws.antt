-- ===== src/Gui/Rows/Laws.antt =====
-- The rows of gui/helpers.c, pixel by pixel.
use entropy_os.Prelude.{
  ℕ, zero, suc, ◌+◌, ◌-◌, ◌*◌, ◌/◌, ◌%◌, ◌^◌, ◌<◌, ◌≤◌, ◌≡◌, refl, ap, ap₂, sym, ◌∙◌, ◌&&◌, leb,
  ltb, if◌then◌else◌, if-elim, arith,
}
use entropy_os.Gui.Rows.{
  Pixels, set_pixel, is_aligned, store64, load64, store_quads, store_words, store_pixels,
  store_all_words, fill_row, row_copy,
}

-- A row of pixels in place of those of a buffer.
abbrev pub with_row : ℕ → ℕ → (ℕ → ℕ) → Pixels → Pixels
with_row off n w m k = if leb off k && ltb k (off + n) then w (k - off) else m k

-- The words `v` hold the pixels `w`, two each.
abbrev Halves : (ℕ → ℕ) → (ℕ → ℕ) → Type 0
Halves v w = (j : ℕ) → (v j % 2 ^ 32 ≡ w (2 * j)) × (v j / 2 ^ 32 ≡ w (2 * j + 1))

-- pixels `a` to `b` of a row
abbrev part : ℕ → ℕ → ℕ → (ℕ → ℕ) → Pixels → Pixels
part off a b w m k = if leb (off + a) k && ltb k (off + b) then w (k - off) else m k

store64_lem :
    (off j : ℕ) (v w : ℕ → ℕ) (m : Pixels) (k : ℕ)
    → Halves v w
    → store64 off j (v j) m k ≡ part off (2 * j) (2 * j + 2) w m k
unfolding store64
store64_lem off j v w m k h = ground (arith, h j, low, high)
  where
    low : k ≡ off + 2 * j → w (k - off) ≡ w (2 * j)
    low e = let i : k - off ≡ 2 * j = omega arith in ap w i

    high : k ≡ off + 2 * j + 1 → w (k - off) ≡ w (2 * j + 1)
    high e = let i : k - off ≡ 2 * j + 1 = omega arith in ap w i

part_join :
    (off a b c : ℕ) (w : ℕ → ℕ) (m : Pixels) (k : ℕ)
    → a ≤ b
    → b ≤ c
    → part off b c w (part off a b w m) k ≡ part off a c w m k
part_join off a b c w m k h g = ground arith

part_none : (off a : ℕ) (w : ℕ → ℕ) (m : Pixels) (k : ℕ) → m k ≡ part off a (a + 0) w m k
part_none off a w m k = ground arith

-- A part of a row after another, when the first was written in some way.
part_step :
    (off a b c : ℕ) (w : ℕ → ℕ) (m m' : Pixels) (k : ℕ)
    → a ≤ b
    → b ≤ c
    → m' k ≡ part off a b w m k
    → part off b c w m' k ≡ part off a c w m k
part_step off a b c w m m' k h g e =
    ap (λ (x : ℕ). if leb (off + b) k && ltb k (off + c) then w (k - off) else x) e
    ∙ part_join off a b c w m k h g

set_pixel_lem :
    (off i : ℕ) (w : ℕ → ℕ) (m : Pixels) (k : ℕ)
    → set_pixel m (off + i) (w i) k ≡ part off i (i + 1) w m k
set_pixel_lem off i w m k = ground (arith, here)
  where
    here : k ≡ off + i → w (k - off) ≡ w i
    here e = let j : k - off ≡ i = omega arith in ap w j

store_pixels_lem :
    (off : ℕ) (w : ℕ → ℕ) (n i : ℕ) (m : Pixels) (k : ℕ)
    → store_pixels off w n i m k ≡ part off i (i + n) w m k
unfolding store_pixels
store_pixels_lem off w zero i m k = part_none off i w m k
store_pixels_lem off w (suc n) i m k =
    let next : i + 1 + n ≡ i + suc n = omega arith in
    store_pixels_lem off w n (i + 1) (set_pixel m (off + i) (w i)) k
    ∙ part_step off i (i + 1) (i + 1 + n) w m (set_pixel m (off + i) (w i)) k (omega arith)
        (omega arith) (set_pixel_lem off i w m k)
    ∙ ap (λ (c : ℕ). part off i c w m k) next

store_words_lem :
    (off : ℕ) (v w : ℕ → ℕ) (n j : ℕ) (m : Pixels) (k : ℕ)
    → Halves v w
    → store_words off v n j m k ≡ part off (2 * j) (2 * (j + n)) w m k
unfolding store_words
store_words_lem off v w zero j m k h =
    let same : 2 * j + 0 ≡ 2 * (j + 0) = omega arith in
    part_none off (2 * j) w m k ∙ ap (λ (c : ℕ). part off (2 * j) c w m k) same
store_words_lem off v w (suc n) j m k h =
    let start : 2 * (j + 1) ≡ 2 * j + 2 = omega arith in
    let end : 2 * (j + 1 + n) ≡ 2 * (j + suc n) = omega arith in
    let m1 = store64 off j (v j) m in
    store_words_lem off v w n (j + 1) m1 k h
    ∙ ap₂ (λ (b c : ℕ). part off b c w m1 k) start end
    ∙ part_step off (2 * j) (2 * j + 2) (2 * (j + suc n)) w m m1 k (omega arith) (omega arith)
        (store64_lem off j v w m k h)

-- Four words in a round are four rounds of one word.
store_quads-store_words :
    (off : ℕ) (v : ℕ → ℕ) (n j : ℕ) (m : Pixels)
    → store_quads off v n j m ≡ store_words off v (n * 4) j m
unfolding store_quads store_words
store_quads-store_words off v zero j m = refl
store_quads-store_words off v (suc n) j m =
    let four : suc n * 4 ≡ suc (suc (suc (suc (n * 4)))) = omega arith in
    let two : j + 1 + 1 ≡ j + 2 = omega arith in
    let three : j + 1 + 1 + 1 ≡ j + 3 = omega arith in
    let last : j + 1 + 1 + 1 + 1 ≡ j + 4 = omega arith in
    store_quads-store_words off v n (j + 4) (third (j + 2) (j + 3))
    ∙ sym (
        ap (λ (c : ℕ). store_words off v c j m) four
        ∙ ap (λ (a : ℕ). store_words off v (n * 4) (j + 1 + 1 + 1 + 1) (third a (j + 1 + 1 + 1)))
            two
        ∙ ap (λ (b : ℕ). store_words off v (n * 4) (j + 1 + 1 + 1 + 1) (third (j + 2) b)) three
        ∙ ap (λ (c : ℕ). store_words off v (n * 4) c (third (j + 2) (j + 3))) last)
  where
    third : ℕ → ℕ → Pixels
    third a b =
        store64 off b (v b)
          (store64 off a (v a) (store64 off (j + 1) (v (j + 1)) (store64 off j (v j) m)))

store_all_words_lem :
    (off : ℕ) (v w : ℕ → ℕ) (n : ℕ) (m : Pixels) (k : ℕ)
    → Halves v w
    → store_all_words off v n m k ≡ part off 0 (n / 2 * 2) w m k
unfolding store_all_words
store_all_words_lem off v w n m k h =
    let quads = n / 2 / 4 in
    let end : 2 * (quads * 4 + n / 2 % 4) ≡ n / 2 * 2 = omega arith in
    let middle : 2 * (0 + quads * 4) ≡ 2 * (quads * 4) = omega arith in
    store_words_lem off v w (n / 2 % 4) (quads * 4) (store_quads off v quads 0 m) k h
    ∙ part_step off 0 (2 * (quads * 4)) (2 * (quads * 4 + n / 2 % 4)) w m
        (store_quads off v quads 0 m) k (omega arith) (omega arith)
        (ap (λ (p : Pixels). p k) (store_quads-store_words off v quads 0 m)
          ∙ store_words_lem off v w (quads * 4) 0 m k h
          ∙ ap (λ (c : ℕ). part off 0 c w m k) middle)
    ∙ ap (λ (c : ℕ). part off 0 c w m k) end

part_all : (off n : ℕ) (w : ℕ → ℕ) (m : Pixels) (k : ℕ) → part off 0 n w m k ≡ with_row off n w m k
part_all off n w m k = ground arith

-- The words and the pixel that is left, if there is one.
words_and_tail :
    (off : ℕ) (v w : ℕ → ℕ) (n : ℕ) (m : Pixels) (k : ℕ)
    → Halves v w
    → store_pixels off w (n % 2) (n / 2 * 2) (store_all_words off v n m) k ≡ with_row off n w m k
words_and_tail off v w n m k h =
    let end : n / 2 * 2 + n % 2 ≡ n = omega arith in
    store_pixels_lem off w (n % 2) (n / 2 * 2) (store_all_words off v n m) k
    ∙ part_step off 0 (n / 2 * 2) (n / 2 * 2 + n % 2) w m (store_all_words off v n m) k
        (omega arith) (omega arith) (store_all_words_lem off v w n m k h)
    ∙ ap (λ (c : ℕ). part off 0 c w m k) end
    ∙ part_all off n w m k

-- `fill_row` sets the `n` pixels of the row, and no other, to the colour of 32 bits, whatever the address.
pub fill_row_lem :
    (base off color n : ℕ) (m : Pixels) (k : ℕ)
    → color < 2 ^ 32
    → fill_row base off color n m k ≡ with_row off n (λ _. color) m k
unfolding fill_row
fill_row_lem base off color n m k h =
    if-elim (λ (p : Pixels). p k ≡ with_row off n (λ _. color) m k) (is_aligned base off)
      (λ _.
        words_and_tail off (λ _. color * 2 ^ 32 + color) (λ _. color) n m k
          (λ j. (omega arith, omega arith)))
      (λ _. single)
  where
    single : store_pixels off (λ _. color) n 0 m k ≡ with_row off n (λ _. color) m k
    single = store_pixels_lem off (λ _. color) n 0 m k ∙ ground arith

-- `row_copy` copies the `n` pixels of the row, of 32 bits each, and changes no other, whatever the addresses.
pub row_copy_lem :
    (base off src_base : ℕ) (src : Pixels) (from n : ℕ) (m : Pixels) (k : ℕ)
    → ((i : ℕ) → src i < 2 ^ 32)
    → row_copy base off src_base src from n m k ≡ with_row off n (λ i. src (from + i)) m k
unfolding row_copy load64
row_copy_lem base off src_base src from n m k h =
    if-elim (λ (p : Pixels). p k ≡ with_row off n (λ i. src (from + i)) m k)
      (is_aligned base off && is_aligned src_base from)
      (λ _. words_and_tail off (load64 src from) (λ i. src (from + i)) n m k halves) (λ _. single)
  where
    single :
        store_pixels off (λ i. src (from + i)) n 0 m k ≡ with_row off n (λ i. src (from + i)) m k
    single = store_pixels_lem off (λ i. src (from + i)) n 0 m k ∙ ground arith

    halves : Halves (load64 src from) (λ i. src (from + i))
    halves j =
        let place : from + 2 * j + 1 ≡ from + (2 * j + 1) = omega arith in
        let small = h (from + 2 * j) in (omega (arith, small), omega (arith, small, ap src place))
