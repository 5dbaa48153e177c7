-- ===== src/Vga/Screen.antt =====
-- What `scroll_screen` and `clear_screen` do to the cells.
use binbows_dos.Common.{
  ℕ, zero, suc, ◌+◌, ◌-◌, ◌*◌, ◌/◌, ◌%◌, ◌^◌, ◌<◌, ◌≡◌, refl, bit_and, ◌&&◌, arith, ltb, leb,
  if◌then◌else◌, ◌∙◌,
}
use binbows_dos.Common.Bits.{bit_and_shifted, bit_and_mask}
use binbows_dos.Vga.{
  Console, vga_width, vga_height, blank, write_cell, set_cursor, clear_loop, clear_screen,
  move_loop, scroll_screen,
}

abbrev pub OnScreen : Console → Type 0
OnScreen s = (s.cursor_row < vga_height) × (s.cursor_col < vga_width)

clear_loop_cells :
    (left i : ℕ) (s : Console) (j : ℕ)
    → (clear_loop left i s).cells j ≡ (if leb i j && ltb j (i + left) then blank else s.cells j)
unfolding clear_loop write_cell
clear_loop_cells zero i s j = ground arith
clear_loop_cells (suc left) i s j =
    ground (arith, clear_loop_cells left (i + 1) (write_cell i blank s) j)

-- The loops leave all but the cells alone.
abbrev SameCursor : Console → Console → Type 0
SameCursor s s' =
    (s'.cursor_row ≡ s.cursor_row) × (s'.cursor_col ≡ s.cursor_col) × (s'.ports ≡ s.ports)

clear_loop-SameCursor : (left i : ℕ) (s : Console) → SameCursor s (clear_loop left i s)
unfolding clear_loop write_cell
clear_loop-SameCursor zero i s = (refl, refl, refl)
clear_loop-SameCursor (suc left) i s = clear_loop-SameCursor left (i + 1) (write_cell i blank s)

move_loop_cells :
    (left i : ℕ) (s : Console) (j : ℕ)
    → (move_loop left i s).cells j
      ≡ (if leb i j && ltb j (i + left) then s.cells (j + vga_width) else s.cells j)
unfolding move_loop write_cell
move_loop_cells zero i s j = ground arith
move_loop_cells (suc left) i s j =
    ground (arith, move_loop_cells left (i + 1) (write_cell i (s.cells (i + vga_width)) s) j)

move_loop-SameCursor : (left i : ℕ) (s : Console) → SameCursor s (move_loop left i s)
unfolding move_loop write_cell
move_loop-SameCursor zero i s = (refl, refl, refl)
move_loop-SameCursor (suc left) i s =
    move_loop-SameCursor left (i + 1) (write_cell i (s.cells (i + vga_width)) s)

-- `scroll_screen` moves each line up by one, clears the last line, and leaves every cell behind the
-- screen, the cursor and the ports as they were.
pub scroll_screen_lem :
    (s : Console)
    → ((j : ℕ)
        → (scroll_screen s).cells j ≡ (
            if ltb j 1920
            then s.cells (j + vga_width)
            else if ltb j 2000
            then blank
            else s.cells j))
      × (((scroll_screen s).cursor_row ≡ s.cursor_row)
          × ((scroll_screen s).cursor_col ≡ s.cursor_col)
          × ((scroll_screen s).ports ≡ s.ports))
unfolding scroll_screen
scroll_screen_lem s = (
  λ j. ground (arith, clear_loop_cells 80 1920 (move_loop 1920 0 s) j, move_loop_cells 1920 0 s j),
  (let moved = move_loop 1920 0 s in
      let a = clear_loop-SameCursor 80 1920 moved in
      let b = move_loop-SameCursor 1920 0 s in (a.0 ∙ b.0, a.1 ∙ b.1, a.2 ∙ b.2)),
)

-- `clear_screen` blanks the 2000 cells of the screen and no other, and homes the cursor.
pub clear_screen_lem :
    (s : Console)
    → ((j : ℕ) → (clear_screen s).cells j ≡ (if ltb j 2000 then blank else s.cells j))
      × ((clear_screen s).cursor_row ≡ 0)
      × ((clear_screen s).cursor_col ≡ 0)
unfolding clear_screen set_cursor
clear_screen_lem s = ((λ j. ground (arith, clear_loop_cells 2000 0 s j)), refl, refl)

pub tab_stop : (col : ℕ) → col < 80 → bit_and (col + 4) 0xffff_fffc ≡ (col + 4) / 4 * 4
tab_stop col h =
    let e : (col + 4) / 4 * 2 ^ 2 + (col + 4) % 4 ≡ col + 4 = omega arith in
    rw (← e) (
      omega (
        arith,
        bit_and_shifted 2 ((col + 4) / 4) ((col + 4) % 4) (2 ^ 30 - 1) (omega arith),
        bit_and_mask 30 ((col + 4) / 4),
      ))
