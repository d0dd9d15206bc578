-- ===== src/Gui/Screen/Boxes.antt =====
-- Which pixels the boxes of gui/helpers.c change, and to what.
use entropy_os.Prelude.{
  ℕ, zero, suc, ◌+◌, ◌-◌, ◌*◌, ◌/◌, ◌%◌, ◌^◌, ◌<◌, ◌≤◌, ◌≡◌, refl, ap, ap₂, sym, ◌∙◌, Bool, true,
  false, ◌&&◌, ◌||◌, leb, ltb, ◌==◌, if◌then◌else◌, if-elim, ◌⊎◌, inl, inr, arith,
}
use entropy_os.Gui.Rows.{Pixels, set_pixel, fill_row, pack_pixel}
use entropy_os.Gui.Rows.Laws.{fill_row_lem}
use entropy_os.Gui.Screen.{
  Screen, u32, uses_back, target, target_base, stride, put_target, clip, paint_rows, fill_box,
  draw_box, blend_pixel, blend_row, blend_box, draw_box_rgba,
}

pub mul_step : (m t s : ℕ) → m < t → m * s + s ≤ t * s
mul_step m t s h = grind arith

trichotomy : (a b : ℕ) → (a ≡ b) ⊎ ((a < b) ⊎ (b < a))
trichotomy a b = ground arith

-- a test of a pixel by its column and row
abbrev pub inside : ℕ → ℕ → ℕ → ℕ → ℕ → ℕ → Bool
inside x0 x1 y0 y1 x y = leb x0 x && ltb x x1 && (leb y0 y && ltb y y1)

-- A pixel lies in a stretch of a row just when it is of that row and its column is in the stretch.
pub row_test :
    (y y' x x0 span w : ℕ)
    → x < w
    → x0 + span ≤ w
    → (leb (y' * w + x0) (y * w + x) && ltb (y * w + x) (y' * w + x0 + span))
      ≡ (leb x0 x && ltb x (x0 + span) && (y == y'))
row_test y y' x x0 span w h k = elim (trichotomy y y') [
  | inl e ↦ let same = ap (λ (a : ℕ). a * w) e in ground (arith, same)
  | inr (inl lt) ↦ let far = mul_step y y' w lt in ground (arith, far)
  | inr (inr lt) ↦ let far = mul_step y' y w lt in ground (arith, far)
]

-- How a painter of rows acts: `g` is applied to the pixels of the stretch.
abbrev pub Paints : (ℕ → Pixels → Pixels) → ℕ → (ℕ → ℕ) → Type 0
Paints paint span g =
    (off : ℕ) (m : Pixels) (k : ℕ)
    → paint off m k ≡ (if leb off k && ltb k (off + span) then g (m k) else m k)

rows_step :
    (x x0 x1 y y' n px : ℕ) (g : ℕ → ℕ) (row : Bool)
    → row ≡ (leb x0 x && ltb x x1 && (y == y'))
    → (if inside x0 x1 (y' + 1) (y' + 1 + n) x y
        then g (if row then g px else px)
        else if row
        then g px
        else px)
      ≡ (if inside x0 x1 y' (y' + suc n) x y then g px else px)
rows_step x x0 x1 y y' n px g row e = ground arith

paint_rows_lem :
    (paint : ℕ → Pixels → Pixels) (span : ℕ) (g : ℕ → ℕ) (w x0 n y' : ℕ) (m : Pixels) (x y : ℕ)
    → Paints paint span g
    → x < w
    → x0 + span ≤ w
    → paint_rows paint w x0 n y' m (y * w + x)
      ≡ (if inside x0 (x0 + span) y' (y' + n) x y then g (m (y * w + x)) else m (y * w + x))
unfolding paint_rows
paint_rows_lem paint span g w x0 zero y' m x y p h k = ground arith
paint_rows_lem paint span g w x0 (suc n) y' m x y p h k =
    paint_rows_lem paint span g w x0 n (y' + 1) (paint (y' * w + x0) m) x y p h k
    ∙ ap (λ (px : ℕ). if inside x0 (x0 + span) (y' + 1) (y' + 1 + n) x y then g px else px)
        (p (y' * w + x0) m (y * w + x))
    ∙ rows_step x x0 (x0 + span) y y' n (m (y * w + x)) g
        (leb (y' * w + x0) (y * w + x) && ltb (y * w + x) (y' * w + x0 + span))
        (row_test y y' x x0 span w h k)

-- The numbers of a screen: rows of the frame buffer hold its width, and its size has 32 bits.
pub record IsScreen (s : Screen) : Type 0 where
  pub fits : s.width ≤ s.pitch
  pub width : s.width < u32
  pub height : s.height < u32

stride_fits : (s : Screen) → IsScreen s → s.width ≤ stride s
stride_fits s v = ground (arith, v.fits)

put_target_cases :
    (b : Bool) (s : Screen) (m : Pixels) (d : Bool)
    → uses_back s ≡ b
    → target (record (if b then record s { back = m } else record s { frame = m }) { dirty = d })
      ≡ m
put_target_cases true s m d e = ap (λ (b : Bool). if b then m else s.frame) e
put_target_cases false s m d e = ap (λ (b : Bool). if b then s.back else m) e

pub put_target-target :
    (s : Screen) (m : Pixels) (d : Bool) → target (record (put_target s m) { dirty = d }) ≡ m
unfolding put_target
put_target-target s m d = put_target_cases (uses_back s) s m d refl

-- the end of a side of a box on a screen
abbrev pub side_end : ℕ → ℕ → ℕ → ℕ
side_end x0 w size = if ltb size (x0 + w) then size else x0 + w

span_lem :
    (x0 w size : ℕ)
    → x0 < size
    → size < u32
    → x0 + w < u32
    → x0 + (clip x0 w size + u32 - x0) % u32 ≡ side_end x0 w size
span_lem x0 w size h k l = ground arith

rows_lem :
    (y0 h size : ℕ) → y0 < size → y0 + h < u32 → y0 + (clip y0 h size - y0) ≡ side_end y0 h size
rows_lem y0 h size l k = ground arith

side_end-le : (x0 w size : ℕ) → x0 < size → side_end x0 w size ≤ size
side_end-le x0 w size h = ground arith

-- whether a pixel lies in a box and on the screen
abbrev pub in_box : ℕ → ℕ → ℕ → ℕ → Screen → ℕ → ℕ → Bool
in_box x0 y0 w h s x y = inside x0 (x0 + w) y0 (y0 + h) x y && (ltb x s.width && ltb y s.height)

inside-in_box :
    (x0 y0 w h : ℕ) (s : Screen) (x y : ℕ)
    → x0 < s.width
    → y0 < s.height
    → inside x0 (side_end x0 w s.width) y0 (side_end y0 h s.height) x y ≡ in_box x0 y0 w h s x y
inside-in_box x0 y0 w h s x y left top = ground arith

not-in_box :
    (x0 y0 w h : ℕ) (s : Screen) (x y : ℕ)
    → (leb s.width x0 || leb s.height y0) ≡ true
    → in_box x0 y0 w h s x y ≡ false
not-in_box x0 y0 w h s x y e = ground arith

module _ (x0 y0 w h : ℕ) (s : Screen) (x y : ℕ) where
  abbrev old : ℕ
  old = target s (y * stride s + x)

  abbrev row_span : ℕ
  row_span = (clip x0 w s.width + u32 - x0) % u32

  -- What a box of painted rows leaves in the buffer that is drawn to.
  box_lem :
      (paint : ℕ → Pixels → Pixels) (g : ℕ → ℕ) (d : Bool)
      → IsScreen s
      → Paints paint row_span g
      → x0 < s.width
      → y0 < s.height
      → x0 + w < u32
      → y0 + h < u32
      → x < stride s
      → target
          (record (put_target s
            (paint_rows paint (stride s) x0 (clip y0 h s.height - y0) y0 (target s))) { dirty = d })
          (y * stride s + x)
        ≡ (if in_box x0 y0 w h s x y then g old else old)
  box_lem paint g d v p left top right bottom lt =
      let end = span_lem x0 w s.width left v.width right in
      let rows = clip y0 h s.height - y0 in
      let low = rows_lem y0 h s.height top bottom in
      ap (λ (m : Pixels). m (y * stride s + x))
        (put_target-target s (paint_rows paint (stride s) x0 rows y0 (target s)) d)
      ∙ paint_rows_lem paint row_span g (stride s) x0 rows y0 (target s) x y p lt
          (omega (arith, end, side_end-le x0 w s.width left, stride_fits s v))
      ∙ ap₂ (λ (a b : ℕ). if inside x0 a y0 b x y then g old else old) end low
      ∙ ap (λ (b : Bool). if b then g old else old) (inside-in_box x0 y0 w h s x y left top)

  outside_lem :
      (n : ℕ)
      → (leb s.width x0 || leb s.height y0) ≡ true
      → old ≡ (if in_box x0 y0 w h s x y then n else old)
  outside_lem n e = ap (λ (b : Bool). if b then n else old) (sym (not-in_box x0 y0 w h s x y e))

  fill_box_lem :
      (color : ℕ)
      → IsScreen s
      → color < u32
      → x0 < s.width
      → y0 < s.height
      → x0 + w < u32
      → y0 + h < u32
      → x < stride s
      → target (fill_box x0 y0 row_span (clip y0 h s.height) color s) (y * stride s + x)
        ≡ (if in_box x0 y0 w h s x y then color else old)
  unfolding fill_box
  fill_box_lem color v small left top right bottom lt =
      box_lem (λ off. fill_row (target_base s) off color row_span) (λ _. color)
        (s.dirty || ltb y0 (clip y0 h s.height)) v
        (λ off m k. fill_row_lem (target_base s) off color row_span m k small) left top right bottom
        lt

  -- `draw_box` whose sides do not pass 32 bits sets just the pixels of the screen inside the box to
  -- the colour: every other pixel of the buffer that is drawn to, those behind the screen included,
  -- is as before.
  pub draw_box_lem :
      (color : ℕ)
      → IsScreen s
      → x0 + w < u32
      → y0 + h < u32
      → color < u32
      → x < stride s
      → target (draw_box x0 y0 w h color s) (y * stride s + x)
        ≡ (if in_box x0 y0 w h s x y then color else old)
  unfolding draw_box
  draw_box_lem color v right bottom small lt =
      if-elim
        (λ (r : Screen).
          target r (y * stride s + x) ≡ (if in_box x0 y0 w h s x y then color else old))
        (leb s.width x0 || leb s.height y0) (outside_lem color)
        (λ e. fill_box_lem color v small (ground arith) (ground arith) right bottom lt)

blend_row-Paints :
    (is_rgb : Bool) (rgba n : ℕ) → Paints (blend_row is_rgb rgba n) n (blend_pixel is_rgb rgba)
unfolding blend_row
blend_row-Paints is_rgb rgba zero off m k = ground arith
blend_row-Paints is_rgb rgba (suc n) off m k =
    blend_row-Paints is_rgb rgba n (off + 1) (set_pixel m off (blend_pixel is_rgb rgba (m off))) k
    ∙ ground (arith, here)
  where
    here : k ≡ off → blend_pixel is_rgb rgba (m off) ≡ blend_pixel is_rgb rgba (m k)
    here e = ap (λ (j : ℕ). blend_pixel is_rgb rgba (m j)) (sym e)

pub pack_pixel-lt :
    (is_rgb : Bool) (r g b : ℕ) → r < 256 → g < 256 → b < 256 → pack_pixel is_rgb r g b < u32
unfolding pack_pixel
pack_pixel-lt true r g b h k l = omega arith
pack_pixel-lt false r g b h k l = omega arith

-- What a colour with alpha makes of a pixel.
abbrev pub over : Bool → ℕ → ℕ → ℕ
over is_rgb rgba px =
    if rgba % 256 == 0
    then px
    else if rgba % 256 == 255
    then pack_pixel is_rgb (rgba / 2 ^ 24 % 256) (rgba / 2 ^ 16 % 256) (rgba / 2 ^ 8 % 256)
    else blend_pixel is_rgb rgba px

-- The three ways that an alpha can go.
alpha_cases :
    (a b c : Bool) (s f m : Screen) (k p q r : ℕ)
    → target s k ≡ p
    → target f k ≡ (if c then q else p)
    → target m k ≡ (if c then r else p)
    → target (if a then s else if b then f else m) k
      ≡ (if c then (if a then p else if b then q else r) else p)
alpha_cases true b true s f m k p q r h i j = h
alpha_cases true b false s f m k p q r h i j = h
alpha_cases false true c s f m k p q r h i j = i
alpha_cases false false c s f m k p q r h i j = j

module _ (x0 y0 w h : ℕ) (s : Screen) (x y : ℕ) where
  -- `draw_box_rgba` whose sides do not pass 32 bits changes just the pixels of the screen inside the
  -- box: with alpha 0 not at all, with alpha 255 to the colour, and else to the blended colour.
  pub draw_box_rgba_lem :
      (rgba : ℕ)
      → IsScreen s
      → x0 + w < u32
      → y0 + h < u32
      → x < stride s
      → target (draw_box_rgba x0 y0 w h rgba s) (y * stride s + x) ≡ (
          if in_box x0 y0 w h s x y
          then over s.is_rgb rgba (target s (y * stride s + x))
          else target s (y * stride s + x))
  unfolding draw_box_rgba blend_box
  draw_box_rgba_lem rgba v right bottom lt =
      if-elim Goal (leb s.width x0 || leb s.height y0)
        (outside_lem x0 y0 w h s x y (over s.is_rgb rgba (target s (y * stride s + x))))
        (λ e.
          alpha_cases (rgba % 256 == 0) (rgba % 256 == 255) (in_box x0 y0 w h s x y) s
            (fill_box x0 y0 span (clip y0 h s.height) color s)
            (blend_box x0 y0 span (clip y0 h s.height) rgba s) (y * stride s + x)
            (target s (y * stride s + x)) color
            (blend_pixel s.is_rgb rgba (target s (y * stride s + x))) refl
            (fill_box_lem x0 y0 w h s x y color v
              (pack_pixel-lt s.is_rgb (rgba / 2 ^ 24 % 256) (rgba / 2 ^ 16 % 256)
                (rgba / 2 ^ 8 % 256) (omega arith) (omega arith) (omega arith))
              (ground arith) (ground arith) right bottom lt)
            (box_lem x0 y0 w h s x y (blend_row s.is_rgb rgba span) (blend_pixel s.is_rgb rgba) true
              v (blend_row-Paints s.is_rgb rgba span) (ground arith) (ground arith) right bottom
              lt))
    where
      Goal : Screen → Type 0
      Goal r = target r (y * stride s + x) ≡ (
          if in_box x0 y0 w h s x y
          then over s.is_rgb rgba (target s (y * stride s + x))
          else target s (y * stride s + x))

      color : ℕ
      color = pack_pixel s.is_rgb (rgba / 2 ^ 24 % 256) (rgba / 2 ^ 16 % 256) (rgba / 2 ^ 8 % 256)

      span : ℕ
      span = (clip x0 w s.width + u32 - x0) % u32
