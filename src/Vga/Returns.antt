-- ===== src/Vga/Returns.antt =====
-- `printf` on formats that are written item by item.
use binbows_dos.Common.{
  ℕ, ◌-◌, ◌%◌, ◌^◌, ◌<◌, ◌≡◌, ◌≢◌, refl, inl, inr, Bool, true, false, Option, none, some, ◌>>=◌,
  List, [], ◌∷◌, ◌++◌, leb, ◌==◌, if◌then◌else◌, ap, ◌∙◌, Bool-cases, arith, All, ne→==,
}
use binbows_dos.Vga.{Console, number_text, Arg, word, text, text_of, pointer_loop, print, printf}
use binbows_dos.Vga.Format.{shown, rendered, int_text}
use binbows_dos.Vga.Number.{number_text_lem}
use binbows_dos.Vga.Printf.{console_of, print_rendered, printf-rendered}

-- A character of the text, or a conversion with its argument.
pub data Item : Type 0 where
  literal : ℕ → Item
  percent : Item
  char_of : ℕ → Item
  string : Option (List ℕ) → Item
  signed : ℕ → Item
  unsigned : ℕ → Item
  hexadecimal : Bool → ℕ → Item
  pointer : ℕ → Item

-- The format of the items, and the arguments that belong to it.
unfoldable pub format_of : List Item → List ℕ
format_of [] = []
format_of (literal c ∷ items) = c ∷ format_of items
format_of (percent ∷ items) = b'%' ∷ b'%' ∷ format_of items
format_of (char_of w ∷ items) = b'%' ∷ b'c' ∷ format_of items
format_of (string t ∷ items) = b'%' ∷ b's' ∷ format_of items
format_of (signed w ∷ items) = b'%' ∷ b'd' ∷ format_of items
format_of (unsigned w ∷ items) = b'%' ∷ b'u' ∷ format_of items
format_of (hexadecimal upper w ∷ items) = b'%' ∷ (if upper then b'X' else b'x') ∷ format_of items
format_of (pointer w ∷ items) = b'%' ∷ b'p' ∷ format_of items

unfoldable pub args_of : List Item → List Arg
args_of [] = []
args_of (literal c ∷ items) = args_of items
args_of (percent ∷ items) = args_of items
args_of (char_of w ∷ items) = word w ∷ args_of items
args_of (string t ∷ items) = text t ∷ args_of items
args_of (signed w ∷ items) = word w ∷ args_of items
args_of (unsigned w ∷ items) = word w ∷ args_of items
args_of (hexadecimal upper w ∷ items) = word w ∷ args_of items
args_of (pointer w ∷ items) = word w ∷ args_of items

-- The text of one item, and of all of them.
unfoldable pub item_text : Item → Option (List ℕ)
item_text (literal c) = some (c ∷ [])
item_text percent = some (b'%' ∷ [])
item_text (char_of w) = some (w % 256 ∷ [])
item_text (string t) = some (text_of t)
item_text (signed w) = int_text w
item_text (unsigned w) = number_text false 10 w
item_text (hexadecimal upper w) = number_text upper 16 w
item_text (pointer w) = some (48 ∷ b'x' ∷ pointer_loop 8 w [])

unfoldable pub items_text : List Item → Option (List ℕ)
items_text [] = some []
items_text (item ∷ items) = do t ← item_text item; ts ← items_text items; some (t ++ ts)

-- A literal is no `%`, and a number is a word of 32 bits.
abbrev pub IsItem : Item → Type 0
IsItem (literal c) = c ≢ b'%'
IsItem percent = Unit
IsItem (char_of w) = Unit
IsItem (string t) = Unit
IsItem (signed w) = w < 2 ^ 32
IsItem (unsigned w) = w < 2 ^ 32
IsItem (hexadecimal upper w) = w < 2 ^ 32
IsItem (pointer w) = Unit

int_text-some : (w : ℕ) → w < 2 ^ 32 → (t : List ℕ) × (int_text w ≡ some t)
unfolding int_text
int_text-some w small = elim (Bool-cases (w == 0)) [
  | inl e ↦ (48 ∷ [], rw e refl)
  | inr e ↦ elim (Bool-cases (leb (2 ^ 31) w)) [
    | inl f ↦ elim (Bool-cases (leb (2 ^ 31) ((2 ^ 32 - w) % 2 ^ 32))) [
      | inl g ↦ (45 ∷ [], rw (e, f, g) refl)
      | inr g ↦
          let (t, done, _, _, _) =
            number_text_lem false 10 ((2 ^ 32 - w) % 2 ^ 32) (inl refl) (omega arith) in
          (45 ∷ t, rw (e, f, g, done) refl)
    ]
    | inr f ↦
        let (t, done, _, _, _) = number_text_lem false 10 w (inl refl) small in (t, rw (e, f) done)
  ]
]

item_text-some : (item : Item) → IsItem item → (t : List ℕ) × (item_text item ≡ some t)
unfolding item_text
item_text-some (literal c) h = (_, refl)
item_text-some percent h = (_, refl)
item_text-some (char_of w) h = (_, refl)
item_text-some (string t) h = (_, refl)
item_text-some (signed w) h = int_text-some w h
item_text-some (unsigned w) h =
    let (t, done, _, _, _) = number_text_lem false 10 w (inl refl) h in (t, done)
item_text-some (hexadecimal upper w) h =
    let (t, done, _, _, _) = number_text_lem upper 16 w (inr refl) h in (t, done)
item_text-some (pointer w) h = (_, refl)

items_text-some :
    (items : List Item) → All IsItem items → (t : List ℕ) × (items_text items ≡ some t)
unfolding items_text
items_text-some [] h = ([], refl)
items_text-some (item ∷ items) h =
    let (t, done) = item_text-some item h.0 in
    let (ts, rest) = items_text-some items h.1 in (t ++ ts, rw (done, rest) refl)

rendered_literal :
    (c : ℕ) (cs : List ℕ) (args : List Arg)
    → c ≢ b'%'
    → rendered (c ∷ cs) args ≡ (do ts ← rendered cs args; some (c ∷ ts))
unfolding rendered
rendered_literal c [] args h = rw (ne→== c b'%' h) refl
rendered_literal c (d ∷ cs) args h = rw (rendered, ne→== c b'%' h) refl

-- The text of one argument, then that of the rest.
word_then :
    (o : Option (List ℕ)) (rest : List Arg) (r : List Arg → Option (List ℕ))
    → (do (t, args) ← (do t ← o; some (t, rest)); ts ← r args; some (t ++ ts))
      ≡ (do t ← o; ts ← r rest; some (t ++ ts))
word_then none rest r = refl
word_then (some t) rest r = refl

rendered-items_text :
    (items : List Item)
    → All IsItem items
    → rendered (format_of items) (args_of items) ≡ items_text items
unfolding rendered shown format_of args_of items_text item_text
rendered-items_text [] h = refl
rendered-items_text (literal c ∷ items) h =
    rendered_literal c (format_of items) (args_of items) h.0
    ∙ ap (λ o. (do ts ← o; some (c ∷ ts))) (rendered-items_text items h.1)
rendered-items_text (percent ∷ items) h = rw (← rendered-items_text items h.1) refl
rendered-items_text (char_of w ∷ items) h = rw (← rendered-items_text items h.1) refl
rendered-items_text (string t ∷ items) h = rw (← rendered-items_text items h.1) refl
rendered-items_text (signed w ∷ items) h =
    rw (← rendered-items_text items h.1)
      (word_then (int_text w) (args_of items) (rendered (format_of items)))
rendered-items_text (unsigned w ∷ items) h =
    rw (← rendered-items_text items h.1)
      (word_then (number_text false 10 w) (args_of items) (rendered (format_of items)))
rendered-items_text (hexadecimal true w ∷ items) h =
    rw (← rendered-items_text items h.1)
      (word_then (number_text true 16 w) (args_of items) (rendered (format_of items)))
rendered-items_text (hexadecimal false w ∷ items) h =
    rw (← rendered-items_text items h.1)
      (word_then (number_text false 16 w) (args_of items) (rendered (format_of items)))
rendered-items_text (pointer w ∷ items) h = rw (← rendered-items_text items h.1) refl

console_of-some :
    (r : Option (ℕ × Console)) (s : Console) → console_of r ≡ some s → (n : ℕ) × (r ≡ some (n, s))
unfolding console_of
console_of-some none s e = cc
console_of-some (some (n, s')) s e = (n, cc)

-- For every list of items, a literal being no `%` and a number a word of 32 bits, `printf` of the
-- items' format and arguments returns, and leaves the console as `print` does of their texts one after
-- the other.
pub printf-items_text :
    (items : List Item) (s : Console)
    → All IsItem items
    → (t : List ℕ) × (n : ℕ) × (items_text items ≡ some t)
      × (printf (format_of items) (args_of items) s ≡ some (n, print t s))
unfolding print_rendered
printf-items_text items s h =
    let (t, e) = items_text-some items h in
    let (n, done) = console_of-some (printf (format_of items) (args_of items) s) (print t s) (
      printf-rendered (format_of items) (args_of items) s
      ∙ rw (rendered-items_text items h, e) refl) in
    (t, n, e, done)
