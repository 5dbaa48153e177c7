-- ===== src/Vga.antt =====
-- The console of src/vga.c: the text cells from 0xB8000 on, the cursor, and what is sent to the
-- VGA ports. A `char` is its byte; as an `int` it is sign-extended (-m32, signed `char`).
pub mod Screen
pub mod Cursor
pub mod Line
pub mod Number
pub mod Format
pub mod Printf
pub mod Returns
mod Tests
use binbows_dos.Common.{
  ℕ, zero, suc, ◌+◌, ◌-◌, ◌*◌, ◌/◌, ◌%◌, ◌^◌, bit_and, bit_or, Bool, true, false, not, ◌&&◌, ◌||◌,
  Option, none, some, ◌>>=◌, List, [], ◌∷◌, ltb, leb, ◌==◌, if◌then◌else◌,
}
use binbows_dos.Io.{Sent, outb}

abbrev pub vga_width : ℕ
vga_width = 80

abbrev pub vga_height : ℕ
vga_height = 25

abbrev pub vga_color : ℕ
vga_color = 0x0f

-- `cells` gives each 16-bit cell of VGA_MEMORY by its index.
pub record Console : Type 0 where
  pub cells : ℕ → ℕ
  pub cursor_row : ℕ
  pub cursor_col : ℕ
  pub ports : Sent

unfoldable pub write_cell : ℕ → ℕ → Console → Console
write_cell i v s = record s { cells = λ j. if i == j then v else s.cells j }

unfoldable pub set_cursor : ℕ → ℕ → Console → Console
set_cursor row col s =
    let position = (row * vga_width + col) % 2 ^ 16 in
    record {
      cells = s.cells;
      cursor_row = row;
      cursor_col = col;
      ports =
          outb 0x3d5 (bit_and (position / 2 ^ 8) 0xff)
            (outb 0x3d4 0x0e (outb 0x3d5 (bit_and position 0xff) (outb 0x3d4 0x0f s.ports)));
    }

-- `(VGA_COLOR << 8) | ' '`
abbrev pub blank : ℕ
blank = 0x0f20

-- `for (i = …; i < …; i++) vga[i] = blank;` with the rounds left and the index.
pub clear_loop : ℕ → ℕ → Console → Console
clear_loop zero i s = s
clear_loop (suc left) i s = clear_loop left (i + 1) (write_cell i blank s)

unfoldable pub clear_screen : Console → Console
clear_screen s = set_cursor 0 0 (clear_loop (vga_width * vga_height) 0 s)

-- `for (i = 0; …; i++) vga[i] = vga[i + VGA_WIDTH];`
pub move_loop : ℕ → ℕ → Console → Console
move_loop zero i s = s
move_loop (suc left) i s = move_loop left (i + 1) (write_cell i (s.cells (i + vga_width)) s)

unfoldable pub scroll_screen : Console → Console
scroll_screen s =
    clear_loop vga_width (vga_width * (vga_height - 1))
      (move_loop (vga_width * (vga_height - 1)) 0 s)

-- `(VGA_COLOR << 8) | c` cut to 16 bits; `c` is promoted to `int` with its sign.
unfoldable pub cell_of : ℕ → ℕ
cell_of c = bit_or (vga_color * 2 ^ 8) (if ltb c 128 then c else 0xff00 + c)

-- The chain of tests on the character.
unfoldable pub place_char : ℕ → Console → Console
place_char c s =
    if c == b'\n'
    then record s { cursor_col = 0; cursor_row = s.cursor_row + 1 }
    else if c == b'\r'
    then record s { cursor_col = 0 }
    else if c == b'\t'
    then record s { cursor_col = bit_and (s.cursor_col + 4) 0xffff_fffc }
    else if c == 8
    then (if ltb 0 s.cursor_col then record s { cursor_col = s.cursor_col - 1 } else s)
    else (let s1 = write_cell (s.cursor_row * vga_width + s.cursor_col) (cell_of c) s in
        record s1 { cursor_col = s1.cursor_col + 1 })

unfoldable pub wrap_line : Console → Console
wrap_line s =
    if leb vga_width s.cursor_col
    then record s { cursor_col = 0; cursor_row = s.cursor_row + 1 }
    else s

unfoldable pub scroll_if_below : Console → Console
scroll_if_below s =
    if leb vga_height s.cursor_row
    then record (scroll_screen s) { cursor_row = vga_height - 1; cursor_col = 0 }
    else s

unfoldable pub put_char : ℕ → Console → Console
put_char c s = scroll_if_below (wrap_line (place_char c s))

-- A C string is the list of its bytes, without the final 0.
unfoldable pub put_chars : List ℕ → Console → Console
put_chars [] s = s
put_chars (c ∷ cs) s = put_chars cs (put_char c s)

unfoldable pub print : List ℕ → Console → Console
print str s = let s1 = put_chars str s in set_cursor s1.cursor_row s1.cursor_col s1

-- "(null)"
abbrev pub null_text : List ℕ
null_text = b'(' ∷ b'n' ∷ b'u' ∷ b'l' ∷ b'l' ∷ b')' ∷ []

abbrev pub text_of : Option (List ℕ) → List ℕ
text_of none = null_text
text_of (some str) = str

-- `none` is NULL.
unfoldable pub print_str : Option (List ℕ) → Console → Console
print_str str s = put_chars (text_of str) s

unfoldable pub strlen : List ℕ → ℕ
strlen [] = 0
strlen (c ∷ cs) = suc (strlen cs)

-- `"0123456789abcdef"[d]`, or with the upper-case letters.
unfoldable pub digit_char : Bool → ℕ → ℕ
digit_char upper d = if ltb d 10 then 48 + d else (if upper then 55 + d else 87 + d)

-- `while (num > 0) { buffer[i++] = …; num /= base; }` on fuel; the last digit stored comes first.
unfoldable pub digits_loop : ℕ → Bool → ℕ → ℕ → List ℕ → Option (List ℕ)
digits_loop zero upper base num buffer = none
digits_loop (suc fuel) upper base num buffer =
    let rest = digits_loop fuel upper base (num / base) (digit_char upper (num % base) ∷ buffer) in
    if num == 0 then some buffer else rest

-- The digits of a 32-bit number, as they are put: 33 rounds are enough.
unfoldable pub number_text : Bool → ℕ → ℕ → Option (List ℕ)
number_text upper base num = if num == 0 then some (48 ∷ []) else digits_loop 33 upper base num []

pub put_text : Option (List ℕ) → Console → Option Console
put_text none s = none
put_text (some str) s = some (put_chars str s)

unfoldable pub print_uint : ℕ → Console → Option Console
print_uint num s = put_text (number_text false 10 num) s

unfoldable pub print_hex : ℕ → Bool → Console → Option Console
print_hex num uppercase s = put_text (number_text uppercase 16 num) s

-- An `int` is its bit pattern. `-num` wraps at INT_MIN, which stays negative: then no digit is put.
unfoldable pub print_int : ℕ → Console → Option Console
print_int num s =
    if num == 0
    then some (put_char 48 s)
    else if leb (2 ^ 31) num
    then (let s1 = put_char 45 s in
        let negated = (2 ^ 32 - num) % 2 ^ 32 in
        if leb (2 ^ 31) negated then some s1 else put_text (number_text false 10 negated) s1)
    else put_text (number_text false 10 num) s

-- `for (i = 7; i >= 0; i--) { buffer[i] = digits[addr & 0xF]; addr >>= 4; }` with the rounds left.
pub pointer_loop : ℕ → ℕ → List ℕ → List ℕ
pointer_loop zero addr buffer = buffer
pointer_loop (suc left) addr buffer =
    pointer_loop left (addr / 2 ^ 4) (digit_char false (bit_and addr 0xf) ∷ buffer)

unfoldable pub print_ptr : ℕ → Console → Console
print_ptr addr s = put_chars (pointer_loop 8 addr []) (put_char b'x' (put_char 48 s))

-- An argument of `printf`: a 32-bit word or a string.
pub data Arg : Type 0 where
  word : ℕ → Arg
  text : Option (List ℕ) → Arg

-- `va_arg`; reading another kind of argument than was passed is undefined.
abbrev pub word_arg : List Arg → Option (ℕ × List Arg)
word_arg (word w ∷ args) = some (w, args)
word_arg (text t ∷ args) = none
word_arg [] = none

abbrev pub text_arg : List Arg → Option (Option (List ℕ) × List Arg)
text_arg (text t ∷ args) = some (t, args)
text_arg (word w ∷ args) = none
text_arg [] = none

-- The characters counted, the arguments left and the console.
abbrev pub Progress : Type 0
Progress = ℕ × List Arg × Console

-- The `switch` on the character behind a `%`.
unfoldable pub conversion : ℕ → ℕ → List Arg → Console → Option Progress
conversion c written args s =
    if c == b'c'
    then (do (w, rest) ← word_arg args; some (written + 1, rest, put_char (w % 256) s))
    else if c == b's'
    then (do (t, rest) ← text_arg args; some (written + strlen (text_of t), rest, print_str t s))
    else if c == b'd' || c == b'i'
    then (do (w, rest) ← word_arg args; s' ← print_int w s; some (written + 1, rest, s'))
    else if c == b'u'
    then (do (w, rest) ← word_arg args; s' ← print_uint w s; some (written + 1, rest, s'))
    else if c == b'x'
    then (do (w, rest) ← word_arg args; s' ← print_hex w false s; some (written + 1, rest, s'))
    else if c == b'X'
    then (do (w, rest) ← word_arg args; s' ← print_hex w true s; some (written + 1, rest, s'))
    else if c == b'p'
    then (do (w, rest) ← word_arg args; some (written + 10, rest, print_ptr w s))
    else if c == b'%'
    then some (written + 1, args, put_char b'%' s)
    else some (written + 2, args, put_char c (put_char b'%' s))

-- The loop over the format. A `%` just before the end makes `format++` step over the final 0, and
-- what the loop then reads is undefined: `none`.
pub printf_loop : List ℕ → ℕ → List Arg → Console → Option Progress
printf_loop [] written args s = some (written, args, s)
printf_loop (c ∷ []) written args s =
    if c == b'%' then none else some (written + 1, args, put_char c s)
printf_loop (c ∷ d ∷ cs) written args s = elim (c == b'%') [
  | true ↦ (do (written', rest, s') ← conversion d written args s; printf_loop cs written' rest s')
  | false ↦ printf_loop (d ∷ cs) (written + 1) args (put_char c s)
]

unfoldable pub printf : List ℕ → List Arg → Console → Option (ℕ × Console)
printf format args s = do
  (written, _, s1) ← printf_loop format 0 args s
  some (written, set_cursor s1.cursor_row s1.cursor_col s1)
