-- ===== src/Vga/Line.antt =====
-- `print` of a line of plain text, and what it tells the hardware about the cursor.
use binbows_dos.Common.{
  ℕ, zero, suc, ◌+◌, ◌*◌, ◌/◌, ◌%◌, ◌^◌, ◌≤◌, ◌<◌, ◌≡◌, refl, ◌⊎◌, bit_and, some, ◌++◌, List, [],
  ◌∷◌, arith, All, length, get_elem?,
}
use binbows_dos.Common.Bits.{bit_and_mask}
use binbows_dos.Vga.{
  Console, vga_width, vga_height, write_cell, set_cursor, cell_of, put_chars, print,
}
use binbows_dos.Vga.Screen.{OnScreen}
use binbows_dos.Vga.Cursor.{IsPlain, put_char_plain, cell_of_ascii}

abbrev pub IsPlainAscii : ℕ → Type 0
IsPlainAscii c = IsPlain c × (c < 128)

-- The text `cs` stands from the cell `p` on with VGA_COLOR, and no other cell has changed.
pub record Written (p : ℕ) (cs : List ℕ) (s s' : Console) : Type 0 where
  pub row : s'.cursor_row ≡ s.cursor_row
  pub col : s'.cursor_col ≡ s.cursor_col + length cs
  pub inside : (i c : ℕ) → get_elem? cs i ≡ some c → s'.cells (p + i) ≡ 0x0f00 + c
  pub outside : (j : ℕ) → (j < p) ⊎ (p + length cs ≤ j) → s'.cells j ≡ s.cells j

-- The console after a plain character.
abbrev moved : ℕ → Console → Console
moved c s = record (write_cell (s.cursor_row * vga_width + s.cursor_col) (cell_of c) s) {
  cursor_col = s.cursor_col + 1;
}

Written-cons :
    (c : ℕ) (cs : List ℕ) (s s' : Console) (p : ℕ)
    → p ≡ s.cursor_row * vga_width + s.cursor_col
    → c < 128
    → Written (p + 1) cs (moved c s) s'
    → Written p (c ∷ cs) s s'
unfolding write_cell
Written-cons c cs s s' p at ascii w = record {
  row = w.row;
  col = omega (arith, w.col);
  inside = cells_inside;
  outside = λ j o. ground (arith, w.outside j);
}
  where
    cells_inside : (i d : ℕ) → get_elem? (c ∷ cs) i ≡ some d → s'.cells (p + i) ≡ 0x0f00 + d
    cells_inside zero d e = ground (arith, w.outside p, cell_of_ascii c ascii)
    cells_inside (suc i) d e =
        let e' : p + suc i ≡ p + 1 + i = omega arith in rw e' (w.inside i d e)

put_chars-Written :
    (cs : List ℕ) (s : Console) (p : ℕ)
    → p ≡ s.cursor_row * vga_width + s.cursor_col
    → OnScreen s
    → All IsPlainAscii cs
    → s.cursor_col + length cs < vga_width
    → Written p cs s (put_chars cs s)
unfolding put_chars write_cell
put_chars-Written [] s p at h plain room = record {
  row = refl;
  col = omega arith;
  inside = λ i c e. cc;
  outside = λ j o. refl;
}
put_chars-Written (c ∷ cs) s p at h plain room = rw (put_char_plain c s h plain.0.0 (omega arith)) (
    Written-cons c cs s _ p at plain.0.1
      (put_chars-Written cs (moved c s) (p + 1) (omega arith) (omega arith) plain.1 (omega arith)))

-- Plain ASCII text that fits what is left of the line is printed from the cursor on in VGA_COLOR;
-- no other cell changes, and the cursor moves on by its length.
pub print-Written :
    (cs : List ℕ) (s : Console)
    → OnScreen s
    → All IsPlainAscii cs
    → s.cursor_col + length cs < vga_width
    → Written (s.cursor_row * vga_width + s.cursor_col) cs s (print cs s)
unfolding print set_cursor
print-Written cs s h plain room =
    let w = put_chars-Written cs s (s.cursor_row * vga_width + s.cursor_col) refl h plain room in
    record { row = w.row; col = w.col; inside = w.inside; outside = w.outside }

-- The cursor position that `set_cursor` sends: the low byte to index 0x0f, then the high byte to
-- index 0x0e, of the cell's index.
pub set_cursor_sent :
    (row col : ℕ) (s : Console)
    → row < vga_height
    → col < vga_width
    → (lo : ℕ) × (hi : ℕ) × (lo < 256)
      × (hi * 256 + lo ≡ row * vga_width + col)
      × ((set_cursor row col s).ports
          ≡ (((s.ports ++ (0x3d4, 0x0f) ∷ []) ++ (0x3d5, lo) ∷ []) ++ (0x3d4, 0x0e) ∷ [])
            ++ (0x3d5, hi) ∷ [])
unfolding set_cursor
set_cursor_sent row col s r c =
    let position : ℕ = (row * vga_width + col) % 2 ^ 16 in
    let low : bit_and position 0xff ≡ position % 256 = bit_and_mask 8 position in
    let high : bit_and (position / 2 ^ 8) 0xff ≡ position / 2 ^ 8 % 256 =
      bit_and_mask 8 (position / 2 ^ 8) in
    (
      position % 256 % 256,
      position / 2 ^ 8 % 256 % 256,
      omega arith,
      omega arith,
      rw (low, high) refl,
    )
