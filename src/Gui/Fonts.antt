-- ===== src/Gui/Fonts.antt =====
-- gui/fonts.c: the table of glyphs, and how a glyph is read from a picture of it. The pictures
-- themselves, which `fonts_init` registers, are data that is left out.
use entropy_os.Prelude.{
  ℕ, zero, suc, ◌+◌, ◌-◌, ◌*◌, ◌/◌, ◌%◌, ◌^◌, Bool, true, false, ◌||◌, Option, none, some, List, [],
  ◌∷◌, get_or, set, ltb, ◌==◌, if◌then◌else◌,
}

-- `ascii_font` and `ascii_present`: 96 glyphs of 16 rows, for the characters 32 to 127
pub record Font : Type 0 where
  pub glyphs : List (List ℕ)
  pub present : List Bool

-- one bit of a row
abbrev pub pixel_bit : ℕ → ℕ
pixel_bit ch = if ch == b'#' then 1 else 0

-- The loop of `parse_line` with `n` characters left; `none` says that it reads behind the end of the
-- string. The end itself counts as a '.'.
unfoldable pub parse_from : ℕ → ℕ → List ℕ → Option ℕ
parse_from zero v xs = some v
parse_from (suc zero) v [] = some (v * 2 % 256)
parse_from (suc (suc n)) v [] = none
parse_from (suc n) v (x ∷ xs) = parse_from n (v * 2 % 256 + pixel_bit x) xs

-- `parse_line`; `none` is the null pointer, for which every pixel is a '.'.
unfoldable pub parse_line : Option (List ℕ) → Option ℕ
parse_line none = some 0
parse_line (some xs) = parse_from 8 0 xs

-- the rows of a glyph
unfoldable pub parse_lines : List (Option (List ℕ)) → Option (List ℕ)
parse_lines [] = some []
parse_lines (l ∷ ls) =
    let rest = parse_lines ls in
    elim (parse_line l) [
      | none ↦ none
      | some v ↦ elim rest [ none ↦ none | some vs ↦ some (v ∷ vs) ]
    ]

-- `font8x16_register_from_text` with 16 lines: the result is -1 for `false`
unfoldable pub register_from_text : ℕ → List (Option (List ℕ)) → Font → Option (Bool × Font)
register_from_text c lines f =
    if ltb c 32 || ltb 127 c then some (false, f) else elim (parse_lines lines) [
      | none ↦ none
      | some rows ↦ some (
        true,
        record { glyphs = set f.glyphs (c - 32) rows; present = set f.present (c - 32) true },
      )
    ]

-- `font8x16_get`
unfoldable pub font8x16_get : Font → ℕ → Option (List ℕ)
font8x16_get f c =
    if ltb c 32 || ltb 127 c
    then none
    else if get_or f.present (c - 32) false
    then some (get_or f.glyphs (c - 32) [])
    else none

-- whether the pixel in a column of a row of a glyph is set: `bits & (0x80 >> gx)`
abbrev pub is_set : ℕ → ℕ → Bool
is_set bits gx = bits / 2 ^ (7 - gx) % 2 == 1
