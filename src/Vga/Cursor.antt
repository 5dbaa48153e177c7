-- ===== src/Vga/Cursor.antt =====
-- The cursor stays on the screen, and `put_char` writes nothing behind it.
use binbows_dos.Common.{
  ℕ, suc, ◌+◌, ◌-◌, ◌*◌, ◌≤◌, ◌<◌, ◌≡◌, ◌≢◌, refl, ◌⊎◌, List, [], ◌∷◌, arith, ap, ◌∙◌,
}
use binbows_dos.Common.Bits.{bit_or_fields}
use binbows_dos.Vga.{
  Console, vga_width, vga_height, blank, write_cell, scroll_screen, cell_of, place_char, wrap_line,
  scroll_if_below, put_char, put_chars,
}
use binbows_dos.Vga.Screen.{OnScreen, tab_stop, scroll_screen_lem}

-- The cursor of `place_char` is at most one column behind the line, on the line or the next.
place_char_cursor :
    (c : ℕ) (s : Console)
    → OnScreen s
    → ((place_char c s).cursor_row ≤ vga_height)
      × ((place_char c s).cursor_col ≤ vga_width)
      × (((place_char c s).cursor_row < vga_height) ⊎ ((place_char c s).cursor_col ≡ 0))
unfolding place_char write_cell
place_char_cursor c s h = ground (arith, tab_stop s.cursor_col)

-- After any character the cursor is on the screen, if it was before.
pub put_char-OnScreen : (c : ℕ) (s : Console) → OnScreen s → OnScreen (put_char c s)
unfolding put_char wrap_line scroll_if_below
put_char-OnScreen c s h = ground (arith, place_char_cursor c s)

place_char_behind :
    (c : ℕ) (s : Console) (j : ℕ) → OnScreen s → 2000 ≤ j → (place_char c s).cells j ≡ s.cells j
unfolding place_char write_cell
place_char_behind c s j h l = ground arith

wrap_line_cells : (t : Console) (j : ℕ) → (wrap_line t).cells j ≡ t.cells j
unfolding wrap_line
wrap_line_cells t j = ground arith

-- No character writes a cell behind the screen.
pub put_char_behind :
    (c : ℕ) (s : Console) (j : ℕ) → OnScreen s → 2000 ≤ j → (put_char c s).cells j ≡ s.cells j
unfolding put_char scroll_if_below
put_char_behind c s j h l = ground (
  arith,
  place_char_behind c s j,
  wrap_line_cells (place_char c s) j,
  (scroll_screen_lem (wrap_line (place_char c s))).0 j,
)

pub put_chars-OnScreen : (cs : List ℕ) (s : Console) → OnScreen s → OnScreen (put_chars cs s)
unfolding put_chars
put_chars-OnScreen [] s h = h
put_chars-OnScreen (c ∷ cs) s h = put_chars-OnScreen cs (put_char c s) (put_char-OnScreen c s h)

pub put_chars_behind :
    (cs : List ℕ) (s : Console) (j : ℕ)
    → OnScreen s
    → 2000 ≤ j
    → (put_chars cs s).cells j ≡ s.cells j
unfolding put_chars
put_chars_behind [] s j h l = refl
put_chars_behind (c ∷ cs) s j h l =
    put_chars_behind cs (put_char c s) j (put_char-OnScreen c s h) l ∙ put_char_behind c s j h l

-- A character that is not a control character.
abbrev pub IsPlain : ℕ → Type 0
IsPlain c = (c ≢ b'\n') × (c ≢ b'\r') × (c ≢ b'\t') × (c ≢ 8)

-- A plain character before the last column is written at the cursor, which moves on by one.
pub put_char_plain :
    (c : ℕ) (s : Console)
    → OnScreen s
    → IsPlain c
    → s.cursor_col + 1 < vga_width
    → put_char c s ≡ record (write_cell (s.cursor_row * vga_width + s.cursor_col) (cell_of c) s) {
      cursor_col = s.cursor_col + 1;
    }
unfolding put_char place_char wrap_line scroll_if_below write_cell
put_char_plain c s h p l = ground arith

-- An ASCII character keeps its byte and gets VGA_COLOR.
pub cell_of_ascii : (c : ℕ) → c < 128 → cell_of c ≡ 0x0f00 + c
unfolding cell_of
cell_of_ascii c h = ground (arith, bit_or_fields 8 0x0f c)

-- The console that is scrolled.
abbrev below : Console → Console
below s = record s { cursor_col = 0; cursor_row = s.cursor_row + 1 }

newline_scrolls :
    (s : Console)
    → OnScreen s
    → s.cursor_row ≡ vga_height - 1
    → put_char b'\n' s
      ≡ record (scroll_screen (below s)) { cursor_row = vga_height - 1; cursor_col = 0 }
unfolding put_char place_char wrap_line scroll_if_below
newline_scrolls s h e = ground arith

next_line : (row col : ℕ) → row * vga_width + col + vga_width ≡ suc row * vga_width + col
next_line row col = omega arith

-- A newline on the last line scrolls: every line moves up by one, the last becomes blank and the
-- cursor stands at its start.
newline_at_bottom :
    (s : Console)
    → OnScreen s
    → s.cursor_row ≡ vga_height - 1
    → ((put_char b'\n' s).cursor_row ≡ 24)
      × ((put_char b'\n' s).cursor_col ≡ 0)
      × ((row col : ℕ)
          → row < 24
          → col < vga_width
          → (put_char b'\n' s).cells (row * vga_width + col) ≡ s.cells (suc row * vga_width + col))
      × ((col : ℕ) → col < vga_width → (put_char b'\n' s).cells (24 * vga_width + col) ≡ blank)
newline_at_bottom s h e = rw (newline_scrolls s h e) (
  refl,
  refl,
  λ row col r c. ground (
    arith,
    (scroll_screen_lem (below s)).0 (row * vga_width + col),
    ap s.cells (next_line row col),
  ),
  λ col c. ground (arith, (scroll_screen_lem (below s)).0 (24 * vga_width + col)),
)
