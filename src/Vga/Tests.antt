-- ===== src/Vga/Tests.antt =====
-- Runs of the console at concrete screens.
use binbows_dos.Common.{
  none, ◌-◌, ◌^◌, ℕ, ◌+◌, ◌%◌, ◌≤◌, ◌<◌, ◌≡◌, refl, inr, some, List, [], ◌∷◌, arith, length, false,
  true,
}
use binbows_dos.Vga.{Console, put_char, print, number_text, digits_loop, digit_char}
use binbows_dos.Vga.{printf, word}
use binbows_dos.Vga.Format.{rendered, shown, int_text}
use binbows_dos.Vga.Printf.{console_of, print_rendered, printf-rendered}
use binbows_dos.Vga.Returns.{
  Item, literal, string, signed, hexadecimal, format_of, args_of, items_text, printf-items_text,
}
use binbows_dos.Vga.Screen.{OnScreen}
use binbows_dos.Vga.Cursor.{put_char-OnScreen, put_char_behind}
use binbows_dos.Vga.Line.{Written, print-Written}
use binbows_dos.Vga.Number.{value_from, number_text_lem}

-- A screen whose cell `i` shows the character `i % 10`, and behind which other memory lies.
abbrev screen : ℕ → ℕ → Console
screen row col = record {
  cells = λ i. 0x0f30 + i % 10;
  cursor_row = row;
  cursor_col = col;
  ports = [];
}

put_char-OnScreen_example : OnScreen (put_char b'\t' (screen 24 78))
put_char-OnScreen_example = put_char-OnScreen b'\t' (screen 24 78) (omega arith, omega arith)

put_char_behind_example : (put_char b'z' (screen 24 79)).cells 2000 ≡ 0x0f30
put_char_behind_example =
    put_char_behind b'z' (screen 24 79) 2000 (omega arith, omega arith) (omega arith)

print-Written_example :
    Written 165 (b'O' ∷ b'K' ∷ []) (screen 2 5) (print (b'O' ∷ b'K' ∷ []) (screen 2 5))
print-Written_example =
    print-Written (b'O' ∷ b'K' ∷ []) (screen 2 5) (omega arith, omega arith)
      (
        ((omega arith, omega arith, omega arith, omega arith), omega arith),
        (((omega arith, omega arith, omega arith, omega arith), omega arith), tt),
      )
      (omega arith)

number_text_lem_example :
    (t : List ℕ) × (number_text false 16 0xbeef ≡ some t)
    × (value_from 16 0 t ≡ 0xbeef)
    × (0 < length t)
    × (length t ≤ 8)
number_text_lem_example = number_text_lem false 16 0xbeef (inr refl) (omega arith)

-- Runs.
beef_text : number_text true 16 0xbeef ≡ some (b'B' ∷ b'E' ∷ b'E' ∷ b'F' ∷ [])
unfolding number_text digits_loop digit_char
beef_text = refl

printf-rendered_example :
    console_of (printf (b'n' ∷ b'=' ∷ b'%' ∷ b'd' ∷ b'!' ∷ []) (word 0xffff_fff6 ∷ []) (screen 0 0))
    ≡ some (print (b'n' ∷ b'=' ∷ b'-' ∷ b'1' ∷ b'0' ∷ b'!' ∷ []) (screen 0 0))
unfolding print_rendered rendered shown int_text number_text digits_loop digit_char
printf-rendered_example =
    printf-rendered (b'n' ∷ b'=' ∷ b'%' ∷ b'd' ∷ b'!' ∷ []) (word 0xffff_fff6 ∷ []) (screen 0 0)

-- `v=%d%s %X`
abbrev sample_items : List Item
sample_items =
    literal b'v'
    ∷ literal b'='
    ∷ signed (2 ^ 32 - 5)
    ∷ string none
    ∷ literal b' '
    ∷ hexadecimal true 0xbeef
    ∷ []

printf-items_text_example :
    (t : List ℕ) × (n : ℕ) × (items_text sample_items ≡ some t)
    × (printf (format_of sample_items) (args_of sample_items) (screen 2 5)
        ≡ some (n, print t (screen 2 5)))
printf-items_text_example = printf-items_text sample_items (screen 2 5) (
  (λ e. omega arith),
  ((λ e. omega arith), (omega arith, (tt, ((λ e. omega arith), (omega arith, tt))))),
)
