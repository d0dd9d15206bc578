-- ===== src/Gui/Console/Safe.antt =====
-- Text of gui/console.c stays on the screen.
use entropy_os.Prelude.{
  ℕ, zero, suc, ◌+◌, ◌*◌, ◌%◌, ◌<◌, ◌≤◌, ◌≡◌, ◌⊎◌, refl, ap, subst, ◌∙◌, Bool, true, false, ◌&&◌,
  Option, none, some, List, [], ◌∷◌, leb, ltb, ◌==◌, if◌then◌else◌, if-elim, get_or, arith,
}
use entropy_os.Gui.Rows.{Pixels, set_pixel, fill_row}
use entropy_os.Gui.Rows.Laws.{fill_row_lem}
use entropy_os.Gui.Fonts.{Font, font8x16_get, is_set}
use entropy_os.Gui.Screen.{Screen, u32, target, target_base, stride}
use entropy_os.Gui.Screen.Boxes.{row_test, IsScreen, put_target-target, pack_pixel-lt}
use entropy_os.Gui.Console.{
  Canvas, palette, rgb_of, clipped_width, fill_background, draw_columns, draw_glyph,
  draw_glyph_or_none, draw_char, text_from, pixel_of, text_with_pos,
}

off_screen :
    (w h x y px n y' : ℕ)
    → (w ≤ x) ⊎ (h ≤ y)
    → px + n ≤ w
    → y' < h
    → (leb px x && ltb x (px + n) && (y == y')) ≡ false
off_screen w h x y px n y' out k l = ground arith

not_pixel :
    (k i color q : ℕ) → (leb i k && ltb k (i + 1)) ≡ false → (if k == i then color else q) ≡ q
not_pixel k i color q h = ground arith

module _ (s : Screen) (v : IsScreen s) (narrow : s.width + 10 < u32) where
  fits : s.width ≤ stride s
  fits = ground (arith, v.fits)

  -- No pixel beside or below the screen differs.
  Same : Pixels → Pixels → Type 0
  Same m m' =
      (x y : ℕ)
      → x < stride s
      → (s.width ≤ x) ⊎ (s.height ≤ y)
      → m' (y * stride s + x) ≡ m (y * stride s + x)

  Same-trans : (a b c : Pixels) → Same a b → Same b c → Same a c
  unfolding Same
  Same-trans a b c h k x y lt out = k x y lt out ∙ h x y lt out

  clipped_lem : (px : ℕ) → px < s.width → px + clipped_width px s.width ≤ s.width
  clipped_lem px h = ground (arith, narrow)

  row-Same :
      (color px y' : ℕ) (m : Pixels)
      → color < u32
      → y' < s.height
      → (clipped_width px s.width == 0) ≡ false
      → Same m (fill_row (target_base s) (y' * stride s + px) color (clipped_width px s.width) m)
  unfolding Same
  row-Same color px y' m small on wide x y lt out =
      let inner : px < s.width = ground arith in
      let end = clipped_lem px inner in
      let test =
        row_test y y' x px (clipped_width px s.width) (stride s) lt (omega (arith, end, fits)) in
      fill_row_lem (target_base s) (y' * stride s + px) color (clipped_width px s.width) m
        (y * stride s + x) small
      ∙ ap (λ (b : Bool). if b then color else m (y * stride s + x))
          (test ∙ off_screen s.width s.height x y px (clipped_width px s.width) y' out end on)

  pixel-Same :
      (color px y' : ℕ) (m : Pixels)
      → y' < s.height
      → px < s.width
      → Same m (set_pixel m (y' * stride s + px) color)
  unfolding Same
  pixel-Same color px y' m on inner x y lt out =
      let test = row_test y y' x px 1 (stride s) lt (omega (arith, fits)) in
      not_pixel (y * stride s + x) (y' * stride s + px) color (m (y * stride s + x))
        (test ∙ off_screen s.width s.height x y px 1 y' out (omega arith) on)

  Same-refl : (m : Pixels) → Same m m
  unfolding Same
  Same-refl m x y lt out = refl

  background-Same :
      (color : ℕ)
      → color < u32
      → (px y' n : ℕ) (m : Canvas) → Same m.pixels (fill_background s color px y' n m).pixels
  unfolding fill_background
  background-Same color small px y' zero m = Same-refl m.pixels
  background-Same color small px y' (suc n) m =
      if-elim (λ (r : Canvas). Same m.pixels r.pixels) (leb s.height y') (λ _. Same-refl m.pixels)
        (λ on.
          Same-trans m.pixels m1.pixels (fill_background s color px ((y' + 1) % u32) n m1).pixels
            (if-elim (λ (r : Canvas). Same m.pixels r.pixels) (clipped_width px s.width == 0)
              (λ _. Same-refl m.pixels)
              (λ wide. row-Same color px y' m.pixels small (ground arith) wide))
            (background-Same color small px ((y' + 1) % u32) n m1))
    where
      m1 : Canvas
      m1 = if clipped_width px s.width == 0 then m else record {
        pixels =
            fill_row (target_base s) (y' * stride s + px) color (clipped_width px s.width) m.pixels;
        dirty = true;
      }

  columns-Same :
      (color bits px y' : ℕ)
      → y' < s.height
      → (n gx : ℕ) (m : Pixels) → Same m (draw_columns s color bits px y' gx n m)
  unfolding draw_columns
  columns-Same color bits px y' on zero gx m = Same-refl m
  columns-Same color bits px y' on (suc n) gx m =
      if-elim (Same m) (ltb (px + gx) s.width)
        (λ inner.
          Same-trans m m1 (draw_columns s color bits px y' (gx + 1) n m1)
            (if-elim (Same m) (is_set bits gx) (λ _. set-Same (ground arith)) (λ _. Same-refl m))
            (columns-Same color bits px y' on n (gx + 1) m1))
        (λ _. Same-refl m)
    where
      m1 : Pixels
      m1 = if is_set bits gx then set_pixel m (y' * stride s + px + gx) color else m

      set-Same : px + gx < s.width → Same m (set_pixel m (y' * stride s + px + gx) color)
      set-Same h =
          let place : y' * stride s + (px + gx) ≡ y' * stride s + px + gx = omega arith in
          subst (λ (i : ℕ). Same m (set_pixel m i color)) place
            (pixel-Same color (px + gx) y' m on h)

  glyph-Same :
      (color px : ℕ) (rows : List ℕ) (y' : ℕ) (m : Pixels)
      → Same m (draw_glyph s color px y' rows m)
  unfolding draw_glyph
  glyph-Same color px [] y' m = Same-refl m
  glyph-Same color px (bits ∷ rows) y' m =
      if-elim (Same m) (leb s.height y') (λ _. Same-refl m)
        (λ on.
          if-elim (Same m) (leb s.width px) (λ _. Same-refl m)
            (λ _.
              Same-trans m (draw_columns s color bits px y' 0 8 m)
                (draw_glyph s color px ((y' + 1) % u32) rows
                  (draw_columns s color bits px y' 0 8 m))
                (columns-Same color bits px y' (ground arith) 8 0 m)
                (glyph-Same color px rows ((y' + 1) % u32)
                  (draw_columns s color bits px y' 0 8 m))))

  glyph_or_none-Same :
      (color px y' : ℕ) (rows : Option (List ℕ)) (m : Canvas)
      → Same m.pixels (draw_glyph_or_none s color px y' rows m).pixels
  unfolding draw_glyph_or_none
  glyph_or_none-Same color px y' none m = Same-refl m.pixels
  glyph_or_none-Same color px y' (some rows) m = glyph-Same color px rows y' m.pixels

  module _ (font : Font) (fg bg : ℕ) (small : bg < u32) where
    char-Same : (px py c : ℕ) (m : Canvas) → Same m.pixels (draw_char s font fg bg px py c m).pixels
    unfolding draw_char
    char-Same px py c m =
        let m1 = fill_background s bg px py 16 m in
        Same-trans m.pixels m1.pixels
          (draw_glyph_or_none s fg px py (font8x16_get font c) m1).pixels
          (background-Same bg small px py 16 m)
          (glyph_or_none-Same fg px py (font8x16_get font c) m1)

    text_from-Same :
        (start : ℕ) (str : List ℕ) (px py : ℕ) (m : Canvas)
        → Same m.pixels (text_from s font fg bg start str px py m).pixels
    unfolding text_from
    text_from-Same start [] px py m = Same-refl m.pixels
    text_from-Same start (c ∷ cs) px py m =
        if-elim Goal (c == b'\n')
          (λ _.
            if-elim Goal (ltb s.height ((py + 16) % u32 + 16)) (λ _. Same-refl m.pixels)
              (λ _. text_from-Same start cs start ((py + 16) % u32) m))
          (λ _.
            if-elim Goal (ltb s.height (py' + 16)) (λ _. Same-refl m.pixels)
              (λ _.
                Same-trans m.pixels m1.pixels
                  (text_from s font fg bg start cs ((px' + 10) % u32) py' m1).pixels
                  (char-Same px' py' c m) (text_from-Same start cs ((px' + 10) % u32) py' m1)))
      where
        Goal : Canvas → Type 0
        Goal r = Same m.pixels r.pixels

        px' : ℕ
        px' = if leb s.width px then start else px

        py' : ℕ
        py' = if leb s.width px then (py + 16) % u32 else py

        m1 : Canvas
        m1 = draw_char s font fg bg px' py' c m

IsRgb : ℕ × ℕ × ℕ → Type 0
IsRgb c = (c.0 < 256) × (c.1 < 256) × (c.2 < 256)

AllRgb : List (ℕ × ℕ × ℕ) → Type 0
unfolding IsRgb
AllRgb [] = Unit
AllRgb (c ∷ cs) = IsRgb c × AllRgb cs

get_or-IsRgb :
    (cs : List (ℕ × ℕ × ℕ)) (i : ℕ) (d : ℕ × ℕ × ℕ) → AllRgb cs → IsRgb d → IsRgb (get_or cs i d)
unfolding AllRgb
get_or-IsRgb [] i d h k = k
get_or-IsRgb (c ∷ cs) zero d (h, hs) k = h
get_or-IsRgb (c ∷ cs) (suc i) d (h, hs) k = get_or-IsRgb cs i d hs k

pixel_of-lt : (s : Screen) (c : ℕ) (d : ℕ × ℕ × ℕ) → IsRgb d → pixel_of s c d < u32
unfolding pixel_of rgb_of AllRgb IsRgb
pixel_of-lt s c d h =
    let (r, g, b) = get_or-IsRgb (palette d) c d (omega (arith, h)) h in
    pack_pixel-lt s.is_rgb (get_or (palette d) c d).0 (get_or (palette d) c d).1
      (get_or (palette d) c d).2 r g b

-- On a screen narrower than 2^32 - 10 pixels `text_with_pos` changes no pixel beside or below it, wherever the text is put, whatever its
-- characters and whatever the glyphs.
pub text_with_pos_safe :
    (col row fg bg : ℕ) (font : Font) (str : List ℕ) (s : Screen) (x y : ℕ)
    → IsScreen s
    → s.width + 10 < u32
    → x < stride s
    → (s.width ≤ x) ⊎ (s.height ≤ y)
    → target (text_with_pos col row fg bg font str s) (y * stride s + x)
      ≡ target s (y * stride s + x)
unfolding text_with_pos Same IsRgb
text_with_pos_safe col row fg bg font str s x y v narrow lt out =
    let start : Canvas = record { pixels = target s; dirty = s.dirty } in
    let fore = pixel_of s fg (0xFF, 0xFF, 0xFF) in
    let back = pixel_of s bg (0, 0, 0) in
    let m = text_from s font fore back (col % u32) str (col % u32) (row % u32) start in
    ap (λ (p : Pixels). p (y * stride s + x)) (put_target-target s m.pixels m.dirty)
    ∙ text_from-Same s v narrow font fore back (pixel_of-lt s bg (0, 0, 0) (omega arith))
        (col % u32) str (col % u32) (row % u32) start x y lt out
