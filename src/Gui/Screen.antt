-- ===== src/Gui/Screen.antt =====
-- gui/helpers.c: the screen and its back buffer, and what is drawn on them. `gop` is not NULL and
-- has a mode.
pub mod Boxes
pub mod Blit
use entropy_os.Prelude.{
  ℕ, zero, suc, ◌+◌, ◌-◌, ◌*◌, ◌/◌, ◌%◌, ◌^◌, Bool, true, false, ◌&&◌, ◌||◌, ltb, leb, ◌==◌,
  if◌then◌else◌,
}
use entropy_os.Gui.Rows.{
  Pixels, set_pixel, fill_row, row_copy, pack_pixel, unpack_pixel_rgb, blend_chan,
}

abbrev pub u32 : ℕ
u32 = 2 ^ 32

-- `gop->Mode` with the frame buffer, and the static variables of the file. The addresses of the
-- buffers are multiples of 4.
pub record Screen : Type 0 where
  pub width : ℕ
  pub height : ℕ
  pub pitch : ℕ
  pub is_rgb : Bool
  pub is_blt_only : Bool
  pub frame : Pixels
  pub frame_base : ℕ
  pub back : Pixels
  pub back_base : ℕ
  pub has_back : Bool
  pub back_width : ℕ
  pub back_height : ℕ
  pub dirty : Bool

abbrev pub max_width : ℕ
max_width = 1920

abbrev pub max_height : ℕ
max_height = 1200

-- `init_backbuffer`
unfoldable pub init_backbuffer : Screen → Screen
init_backbuffer s =
    if leb s.width max_width && leb s.height max_height
    then record s { has_back = true; back_width = s.width; back_height = s.height }
    else record s { has_back = false; back_width = 0; back_height = 0 }

-- the test with which each function chooses the back buffer
abbrev pub uses_back : Screen → Bool
uses_back s = s.has_back && (s.back_width == s.width) && (s.back_height == s.height)

-- the buffer that is drawn to, its address and the length of its rows
abbrev pub target : Screen → Pixels
target s = if uses_back s then s.back else s.frame

abbrev pub target_base : Screen → ℕ
target_base s = if uses_back s then s.back_base else s.frame_base

abbrev pub stride : Screen → ℕ
stride s = if uses_back s then s.back_width else s.pitch

unfoldable pub put_target : Screen → Pixels → Screen
put_target s m = if uses_back s then record s { back = m } else record s { frame = m }

-- `put_pixel`; the index has 32 bits. Only a pixel of the back buffer makes the frame dirty.
unfoldable pub put_pixel : ℕ → ℕ → ℕ → Screen → Screen
put_pixel x y color s =
    if leb s.width x || leb s.height y
    then s
    else if uses_back s
    then record s {
      back = set_pixel s.back ((y * s.back_width % u32 + x) % u32) color;
      dirty = true;
    }
    else record s { frame = set_pixel s.frame ((y * s.pitch % u32 + x) % u32) color }

-- the end of a side of a box: `x0 + w` in 32 bits, at most the size of the screen
abbrev pub clip : ℕ → ℕ → ℕ → ℕ
clip x0 w size = if ltb size ((x0 + w) % u32) then size else (x0 + w) % u32

-- The loop over the rows from `y` on, with `n` rows left: `paint` changes the pixels from an index on.
unfoldable pub paint_rows : (ℕ → Pixels → Pixels) → ℕ → ℕ → ℕ → ℕ → Pixels → Pixels
paint_rows paint width x0 zero y m = m
paint_rows paint width x0 (suc n) y m =
    paint_rows paint width x0 n (y + 1) (paint (y * width + x0) m)

-- a box of one colour; each row makes the frame dirty
unfoldable pub fill_box : ℕ → ℕ → ℕ → ℕ → ℕ → Screen → Screen
fill_box x0 y0 span y1 color s =
    let paint = λ (off : ℕ). fill_row (target_base s) off color span in
    let s' = put_target s (paint_rows paint (stride s) x0 (y1 - y0) y0 (target s)) in
    record s' { dirty = s.dirty || ltb y0 y1 }

-- `draw_box`; the length of a row is `x1 - x0` in 32 bits.
unfoldable pub draw_box : ℕ → ℕ → ℕ → ℕ → ℕ → Screen → Screen
draw_box x0 y0 w h color s =
    if leb s.width x0 || leb s.height y0
    then s
    else fill_box x0 y0 ((clip x0 w s.width + u32 - x0) % u32) (clip y0 h s.height) color s

-- `clear_screen_fb`
unfoldable pub clear_screen_fb : ℕ → ℕ → ℕ → Screen → Screen
clear_screen_fb r g b s =
    if s.is_blt_only then s else fill_box 0 0 s.width s.height (pack_pixel s.is_rgb r g b) s

-- one pixel of a box that is blended: the colour has 8 bits each of red, green, blue and alpha
unfoldable pub blend_pixel : Bool → ℕ → ℕ → ℕ
blend_pixel is_rgb rgba px =
    let a = rgba % 256 in
    let (r, g, b) = unpack_pixel_rgb is_rgb px in
    pack_pixel is_rgb (blend_chan (rgba / 2 ^ 24 % 256) r a) (blend_chan (rgba / 2 ^ 16 % 256) g a)
      (blend_chan (rgba / 2 ^ 8 % 256) b a)

-- the inner loop of `draw_box_rgba`, with `n` pixels left
unfoldable pub blend_row : Bool → ℕ → ℕ → ℕ → Pixels → Pixels
blend_row is_rgb rgba zero off m = m
blend_row is_rgb rgba (suc n) off m =
    blend_row is_rgb rgba n (off + 1) (set_pixel m off (blend_pixel is_rgb rgba (m off)))

-- the part of `draw_box_rgba` for an alpha other than 0 and 255
unfoldable pub blend_box : ℕ → ℕ → ℕ → ℕ → ℕ → Screen → Screen
blend_box x0 y0 span y1 rgba s =
    let paint = λ (off : ℕ). blend_row s.is_rgb rgba span off in
    let s' = put_target s (paint_rows paint (stride s) x0 (y1 - y0) y0 (target s)) in
    record s' { dirty = true }

-- `draw_box_rgba`
unfoldable pub draw_box_rgba : ℕ → ℕ → ℕ → ℕ → ℕ → Screen → Screen
draw_box_rgba x0 y0 w h rgba s =
    let span = (clip x0 w s.width + u32 - x0) % u32 in
    let y1 = clip y0 h s.height in
    if leb s.width x0 || leb s.height y0
    then s
    else if rgba % 256 == 0
    then s
    else if rgba % 256 == 255
    then fill_box x0 y0 span y1
        (pack_pixel s.is_rgb (rgba / 2 ^ 24 % 256) (rgba / 2 ^ 16 % 256) (rgba / 2 ^ 8 % 256)) s
    else blend_box x0 y0 span y1 rgba s

-- the loop of `blit_backbuffer` from row `y` on, with `n` rows left
unfoldable pub copy_rows : Screen → ℕ → ℕ → Pixels → Pixels
copy_rows s zero y m = m
copy_rows s (suc n) y m =
    copy_rows s n (y + 1)
      (row_copy s.frame_base (y * s.pitch) s.back_base s.back (y * s.back_width) s.back_width m)

-- `blit_backbuffer`
unfoldable pub blit_backbuffer : Screen → Screen
blit_backbuffer s =
    if s.has_back
    then record s {
      frame =
          if s.pitch == s.back_width
          then row_copy s.frame_base 0 s.back_base s.back 0 (s.back_width * s.back_height) s.frame
          else copy_rows s s.back_height 0 s.frame;
      dirty = false;
    }
    else s
