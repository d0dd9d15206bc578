-- ===== src/Gui/Screen/Blit.antt =====
-- What `blit_backbuffer` of gui/helpers.c leaves in the frame buffer.
use entropy_os.Prelude.{
  ℕ, zero, suc, ◌+◌, ◌-◌, ◌*◌, ◌<◌, ◌≤◌, ◌≡◌, refl, ap, ◌∙◌, Bool, true, false, ◌&&◌, leb, ltb,
  ◌==◌, if◌then◌else◌, if-elim, Bool-cases, ltb→lt, ==_iff, inl, inr, arith,
}
use entropy_os.Gui.Rows.{Pixels, row_copy}
use entropy_os.Gui.Rows.Laws.{row_copy_lem}
use entropy_os.Gui.Screen.{Screen, u32, copy_rows, blit_backbuffer}
use entropy_os.Gui.Screen.Boxes.{row_test}

if_congr :
    (b : Bool) (p p' q : ℕ) → (b ≡ true → p ≡ p') → (if b then p else q) ≡ (if b then p' else q)
if_congr true p p' q h = h refl
if_congr false p p' q h = refl

mul_mono : (a b w : ℕ) → a ≤ b → w * a ≤ b * w
mul_mono a b w h = grind arith

mul_below : (a b w : ℕ) → a < b → a * w + w ≤ w * b
mul_below a b w h = grind arith

-- The pixels of a picture, as one long row.
grid_test :
    (x y w h : ℕ)
    → x < w
    → (leb 0 (y * w + x) && ltb (y * w + x) (0 + w * h)) ≡ (ltb x w && ltb y h)
grid_test x y w h lt = elim (Bool-cases (ltb y h)) [
  | inl e ↦ let far = mul_below y h w (ltb→lt y h e) in ground (arith, far)
  | inr e ↦ let far = mul_mono h y w (ground arith) in ground (arith, far)
]

module _ (s : Screen) (x y : ℕ) (small : (i : ℕ) → s.back i < u32) (fits : s.back_width ≤ s.pitch)
    (column : x < s.pitch) where
  shown : ℕ
  shown = s.back (y * s.back_width + x)

  row_step :
      (y' n px : ℕ) (row : Bool)
      → row ≡ (leb 0 x && ltb x (0 + s.back_width) && (y == y'))
      → (if ltb x s.back_width && (leb (y' + 1) y && ltb y (y' + 1 + n))
          then shown
          else if row
          then shown
          else px)
        ≡ (if ltb x s.back_width && (leb y' y && ltb y (y' + suc n)) then shown else px)
  row_step y' n px row e = ground arith

  -- one row of the loop
  row_lem :
      (y' : ℕ) (m : Pixels)
      → row_copy s.frame_base
          (y' * s.pitch)
          s.back_base
          s.back
          (y' * s.back_width)
          s.back_width
          m
          (y * s.pitch + x)
        ≡ (if leb 0 x && ltb x (0 + s.back_width) && (y == y') then shown else m (y * s.pitch + x))
  unfolding shown
  row_lem y' m =
      row_copy_lem s.frame_base (y' * s.pitch) s.back_base s.back (y' * s.back_width) s.back_width m
        (y * s.pitch + x) small
      ∙ ap
          (λ (b : Bool).
            if b
            then s.back (y' * s.back_width + (y * s.pitch + x - y' * s.pitch))
            else m (y * s.pitch + x))
          (shape ∙ row_test y y' x 0 s.back_width s.pitch column (omega (arith, fits)))
      ∙ if_congr (leb 0 x && ltb x (0 + s.back_width) && (y == y'))
          (s.back (y' * s.back_width + (y * s.pitch + x - y' * s.pitch))) shown
          (m (y * s.pitch + x)) here
    where
      shape :
          (leb (y' * s.pitch) (y * s.pitch + x)
            && ltb (y * s.pitch + x) (y' * s.pitch + s.back_width))
          ≡ (leb (y' * s.pitch + 0) (y * s.pitch + x)
              && ltb (y * s.pitch + x) (y' * s.pitch + 0 + s.back_width))
      shape = ground arith

      here :
          (leb 0 x && ltb x (0 + s.back_width) && (y == y')) ≡ true
          → s.back (y' * s.back_width + (y * s.pitch + x - y' * s.pitch))
            ≡ s.back (y * s.back_width + x)
      here t =
          let e : y ≡ y' = ground arith in
          let p = ap (λ (a : ℕ). a * s.pitch) e in
          let q = ap (λ (a : ℕ). a * s.back_width) e in
          let i : y' * s.back_width + (y * s.pitch + x - y' * s.pitch) ≡ y * s.back_width + x =
            omega (arith, p, q) in
          ap s.back i

  copy_rows_lem :
      (n y' : ℕ) (m : Pixels)
      → copy_rows s n y' m (y * s.pitch + x) ≡ (
          if ltb x s.back_width && (leb y' y && ltb y (y' + n)) then shown else m (y * s.pitch + x))
  unfolding copy_rows
  copy_rows_lem zero y' m = ground arith
  copy_rows_lem (suc n) y' m =
      let m1 =
        row_copy s.frame_base (y' * s.pitch) s.back_base s.back (y' * s.back_width) s.back_width
          m in
      copy_rows_lem n (y' + 1) m1
      ∙ ap
          (λ (px : ℕ).
            if ltb x s.back_width && (leb (y' + 1) y && ltb y (y' + 1 + n)) then shown else px)
          (row_lem y' m)
      ∙ row_step y' n (m (y * s.pitch + x)) (leb 0 x && ltb x (0 + s.back_width) && (y == y')) refl

  all_lem :
      s.pitch ≡ s.back_width
      → row_copy s.frame_base 0 s.back_base s.back 0
          (s.back_width * s.back_height)
          s.frame
          (y * s.pitch + x)
        ≡ (if ltb x s.back_width && ltb y s.back_height then shown else s.frame (y * s.pitch + x))
  unfolding shown
  all_lem e =
      row_copy_lem s.frame_base 0 s.back_base s.back 0 (s.back_width * s.back_height) s.frame
        (y * s.pitch + x) small
      ∙ ap
          (λ (w : ℕ).
            if leb 0 (y * w + x) && ltb (y * w + x) (0 + s.back_width * s.back_height)
            then s.back (0 + (y * w + x - 0))
            else s.frame (y * s.pitch + x))
          e
      ∙ ap
          (λ (b : Bool).
            if b then s.back (0 + (y * s.back_width + x - 0)) else s.frame (y * s.pitch + x))
          (grid_test x y s.back_width s.back_height (omega (arith, e)))
      ∙ ap
          (λ (i : ℕ).
            if ltb x s.back_width && ltb y s.back_height
            then s.back i
            else s.frame (y * s.pitch + x))
          start
    where
      start : 0 + (y * s.back_width + x - 0) ≡ y * s.back_width + x
      start = omega arith

  -- `blit_backbuffer` copies the back buffer to the frame buffer pixel by pixel, whatever the length
  -- of the rows there, and changes no pixel of the frame buffer beside or below the picture.
  pub blit_backbuffer_lem :
      s.has_back ≡ true
      → (blit_backbuffer s).frame (y * s.pitch + x) ≡ (
          if ltb x s.back_width && ltb y s.back_height
          then s.back (y * s.back_width + x)
          else s.frame (y * s.pitch + x))
  unfolding blit_backbuffer shown
  blit_backbuffer_lem on =
      ap (λ (b : Bool). (if b then blitted else s).frame (y * s.pitch + x)) on
      ∙ if-elim
          (λ (m : Pixels). m (y * s.pitch + x) ≡ (
            if ltb x s.back_width && ltb y s.back_height
            then s.back (y * s.back_width + x)
            else s.frame (y * s.pitch + x)))
          (s.pitch == s.back_width) (λ e. all_lem ((==_iff s.pitch s.back_width).0 e)) (λ e. rows)
    where
      blitted : Screen
      blitted = record s {
        frame =
            if s.pitch == s.back_width
            then row_copy s.frame_base 0 s.back_base s.back 0 (s.back_width * s.back_height) s.frame
            else copy_rows s s.back_height 0 s.frame;
        dirty = false;
      }

      rows : copy_rows s s.back_height 0 s.frame (y * s.pitch + x) ≡ (
          if ltb x s.back_width && ltb y s.back_height
          then s.back (y * s.back_width + x)
          else s.frame (y * s.pitch + x))
      rows = copy_rows_lem s.back_height 0 s.frame ∙ ground arith
