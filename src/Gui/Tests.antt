-- ===== src/Gui/Tests.antt =====
-- Runs of the model of gui/helpers.c, gui/fonts.c and gui/console.c, and its theorems at a small screen.
use entropy_os.Prelude.{◌+◌, ◌*◌, ◌≡◌, inr, refl, true, false, [], ◌∷◌, replicate, arith}
use entropy_os.Gui.Rows.{fill_row, row_copy}
use entropy_os.Gui.Rows.Laws.{with_row, fill_row_lem, row_copy_lem}
use entropy_os.Gui.Fonts.{Font}
use entropy_os.Gui.Screen.{Screen, target, draw_box, draw_box_rgba, blit_backbuffer}
use entropy_os.Gui.Screen.Boxes.{IsScreen, over, draw_box_lem, draw_box_rgba_lem}
use entropy_os.Gui.Screen.Blit.{blit_backbuffer_lem}
use entropy_os.Gui.Console.{no_logs, console_render_history, text_with_pos}
use entropy_os.Gui.Console.Log.{log_all, draw_lines, console_render_history-log_all}
use entropy_os.Gui.Console.Safe.{text_with_pos_safe}

-- A screen of 20 columns and 40 rows, whose frame buffer has rows of 24 pixels.
abbrev small : Screen
small = record {
  width = 20;
  height = 40;
  pitch = 24;
  is_rgb = false;
  is_blt_only = false;
  frame = λ _. 0;
  frame_base = 0x1000;
  back = λ _. 7;
  back_base = 0x2000;
  has_back = true;
  back_width = 20;
  back_height = 40;
  dirty = false;
}

abbrev no_font : Font
no_font = record { glyphs = replicate 96 []; present = replicate 96 false }

small-IsScreen : IsScreen small
small-IsScreen = omega arith

fill_row_lem_example : fill_row 4 3 5 7 (λ _. 0) 9 ≡ with_row 3 7 (λ _. 5) (λ _. 0) 9
fill_row_lem_example = fill_row_lem 4 3 5 7 (λ _. 0) 9 (omega arith)

row_copy_lem_example : row_copy 8 2 16 (λ _. 9) 4 11 (λ _. 0) 5 ≡ with_row 2 11 (λ _. 9) (λ _. 0) 5
row_copy_lem_example = row_copy_lem 8 2 16 (λ _. 9) 4 11 (λ _. 0) 5 (λ i. omega arith)

draw_box_lem_example : target (draw_box 15 30 10 20 0xFF small) (35 * 20 + 18) ≡ 0xFF
draw_box_lem_example =
    draw_box_lem 15 30 10 20 small 18 35 0xFF small-IsScreen (omega arith) (omega arith)
      (omega arith) (omega arith)

draw_box_rgba_lem_example :
    target (draw_box_rgba 15 30 10 20 0x10203080 small) (35 * 20 + 18) ≡ over false 0x10203080 7
draw_box_rgba_lem_example =
    draw_box_rgba_lem 15 30 10 20 small 18 35 0x10203080 small-IsScreen (omega arith) (omega arith)
      (omega arith)

blit_backbuffer_lem_example : (blit_backbuffer small).frame (3 * 24 + 5) ≡ 7
blit_backbuffer_lem_example =
    blit_backbuffer_lem small 5 3 (λ i. omega arith) (omega arith) (omega arith) refl

console_render_history-log_all_example :
    console_render_history no_font (log_all ((b'a' ∷ []) ∷ (b'b' ∷ []) ∷ []) no_logs) small
    ≡ draw_lines no_font 40 ((b'a' ∷ []) ∷ (b'b' ∷ []) ∷ []) small
console_render_history-log_all_example =
    console_render_history-log_all no_font ((b'a' ∷ []) ∷ (b'b' ∷ []) ∷ []) small

text_with_pos_safe_example :
    target (text_with_pos 5 38 15 0 no_font (b'a' ∷ []) small) (41 * 20 + 3)
    ≡ target small (41 * 20 + 3)
text_with_pos_safe_example =
    text_with_pos_safe 5 38 15 0 no_font (b'a' ∷ []) small 3 41 small-IsScreen (omega arith)
      (omega arith) (inr (omega arith))
