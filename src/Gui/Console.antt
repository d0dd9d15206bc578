-- ===== src/Gui/Console.antt =====
-- gui/console.c: text on the screen, and the ring of log lines.
pub mod Log
pub mod Safe
use entropy_os.Prelude.{
  ℕ, zero, suc, ◌+◌, ◌-◌, ◌*◌, ◌/◌, ◌%◌, ◌^◌, Bool, true, false, Option, none, some, List, [], ◌∷◌,
  get_or, set, take, replicate, ltb, leb, ◌==◌, if◌then◌else◌,
}
use entropy_os.Gui.Rows.{Pixels, set_pixel, fill_row, pack_pixel}
use entropy_os.Gui.Fonts.{Font, font8x16_get, is_set}
use entropy_os.Gui.Screen.{Screen, u32, uses_back, target, target_base, stride, put_target}

-- The pixels that are drawn to, and whether the frame is dirty.
pub record Canvas : Type 0 where
  pub pixels : Pixels
  pub dirty : Bool

-- The colours of the two `switch` statements, which differ in the default.
abbrev pub palette : ℕ × ℕ × ℕ → List (ℕ × ℕ × ℕ)
palette d =
    (0, 0, 0)
    ∷ (0, 0, 0xAA)
    ∷ (0, 0xAA, 0)
    ∷ (0, 0xAA, 0xAA)
    ∷ (0xAA, 0, 0)
    ∷ (0xAA, 0, 0xAA)
    ∷ (0xAA, 0x55, 0)
    ∷ (0xCC, 0xCC, 0xCC)
    ∷ d
    ∷ d
    ∷ d
    ∷ d
    ∷ d
    ∷ d
    ∷ d
    ∷ (0xFF, 0xFF, 0xFF)
    ∷ []

unfoldable pub rgb_of : ℕ → ℕ × ℕ × ℕ → ℕ × ℕ × ℕ
rgb_of c d = get_or (palette d) c d

unfoldable pub pixel_of : Screen → ℕ → ℕ × ℕ × ℕ → ℕ
pixel_of s c d = let (r, g, b) = rgb_of c d in pack_pixel s.is_rgb r g b

-- the width of a character's background, 10 pixels unless the screen ends
abbrev pub clipped_width : ℕ → ℕ → ℕ
clipped_width px width =
    if ltb px width then if ltb width ((px + 10) % u32) then width - px else 10 else 0

-- the loop over the rows of the background, with `n` rows left; a row that is filled makes the frame
-- dirty.
unfoldable pub fill_background : Screen → ℕ → ℕ → ℕ → ℕ → Canvas → Canvas
fill_background s bg px y zero m = m
fill_background s bg px y (suc n) m =
    let row = fill_row (target_base s) (y * stride s + px) bg (clipped_width px s.width) m.pixels in
    let m' = if clipped_width px s.width == 0 then m else record { pixels = row; dirty = true } in
    let rest = fill_background s bg px ((y + 1) % u32) n m' in if leb s.height y then m else rest

-- the loop over the columns of a row of a glyph, with `n` columns left
unfoldable pub draw_columns : Screen → ℕ → ℕ → ℕ → ℕ → ℕ → ℕ → Pixels → Pixels
draw_columns s fg bits px y gx zero m = m
draw_columns s fg bits px y gx (suc n) m =
    let m' = if is_set bits gx then set_pixel m (y * stride s + px + gx) fg else m in
    let rest = draw_columns s fg bits px y (gx + 1) n m' in
    if ltb (px + gx) s.width then rest else m

-- the loop over the rows of a glyph
unfoldable pub draw_glyph : Screen → ℕ → ℕ → ℕ → List ℕ → Pixels → Pixels
draw_glyph s fg px y [] m = m
draw_glyph s fg px y (bits ∷ rows) m =
    let rest = draw_glyph s fg px ((y + 1) % u32) rows (draw_columns s fg bits px y 0 8 m) in
    if leb s.height y then m else if leb s.width px then m else rest

-- The glyph, if the font has it.
unfoldable pub draw_glyph_or_none : Screen → ℕ → ℕ → ℕ → Option (List ℕ) → Canvas → Canvas
draw_glyph_or_none s fg px y none m = m
draw_glyph_or_none s fg px y (some rows) m = record m {
  pixels = draw_glyph s fg px y rows m.pixels;
}

-- one character: the background and the glyph
unfoldable pub draw_char : Screen → Font → ℕ → ℕ → ℕ → ℕ → ℕ → Canvas → Canvas
draw_char s font fg bg px py c m =
    draw_glyph_or_none s fg px py (font8x16_get font c) (fill_background s bg px py 16 m)

-- The loop of `text_with_pos` over the characters, at a place on the screen. The test that a line
-- ends above the bottom of the screen is made in 64 bits.
unfoldable pub text_from : Screen → Font → ℕ → ℕ → ℕ → List ℕ → ℕ → ℕ → Canvas → Canvas
text_from s font fg bg start [] px py m = m
text_from s font fg bg start (c ∷ cs) px py m =
    let below = (py + 16) % u32 in
    let at_newline = text_from s font fg bg start cs start below m in
    let px' = if leb s.width px then start else px in
    let py' = if leb s.width px then below else py in
    let after_char =
      text_from s font fg bg start cs ((px' + 10) % u32) py' (draw_char s font fg bg px' py' c m) in
    if c == b'\n'
    then if ltb s.height (below + 16) then m else at_newline
    else if ltb s.height (py' + 16)
    then m
    else after_char

-- `text_with_pos` with a string
unfoldable pub text_with_pos : ℕ → ℕ → ℕ → ℕ → Font → List ℕ → Screen → Screen
text_with_pos col row fg bg font str s =
    let m =
      text_from s font (pixel_of s fg (0xFF, 0xFF, 0xFF)) (pixel_of s bg (0, 0, 0)) (col % u32) str
        (col % u32) (row % u32) (record { pixels = target s; dirty = s.dirty }) in
    record (put_target s m.pixels) { dirty = m.dirty }

-- `s_logs`, of each line the string up to its NUL, with `s_logs_next` and `s_logs_count`
pub record Logs : Type 0 where
  pub lines : List (List ℕ)
  pub next : ℕ
  pub count : ℕ

abbrev pub max_lines : ℕ
max_lines = 64

abbrev pub max_line_length : ℕ
max_line_length = 160

-- the static variables at the start
abbrev pub no_logs : Logs
no_logs = record { lines = replicate max_lines []; next = 0; count = 0 }

-- `text`
unfoldable pub text : List ℕ → Logs → Logs
text str l = record {
  lines = set l.lines l.next (take (max_line_length - 1) str);
  next = (l.next + 1) % max_lines;
  count = if ltb l.count max_lines then l.count + 1 else l.count;
}

-- The loop of `console_render_history` with `n` lines left: the place of each line and the line. The
-- ring is read from the oldest line on.
unfoldable pub history_from : Logs → ℕ → ℕ → List (ℕ × List ℕ)
history_from l i zero = []
history_from l i (suc n) =
    let start = (l.next + max_lines - l.count) % max_lines in
    (40 + i * 18, get_or l.lines ((start + i) % max_lines) []) ∷ history_from l (i + 1) n

unfoldable pub draw_history : Font → List (ℕ × List ℕ) → Screen → Screen
draw_history font [] s = s
draw_history font ((y, str) ∷ calls) s = draw_history font calls (text_with_pos 8 y 15 0 font str s)

-- `console_render_history`
unfoldable pub console_render_history : Font → Logs → Screen → Screen
console_render_history font l s = draw_history font (history_from l 0 l.count) s
