-- ===== src/Vga/Format.antt =====
-- `printf` as the printing of a text that the format and the arguments alone give.
use binbows_dos.Common.{
  ℕ, ◌+◌, ◌-◌, ◌%◌, ◌^◌, ◌≡◌, refl, Bool, true, false, ◌||◌, Option, none, some, ◌>>=◌, List, [],
  ◌∷◌, ◌++◌, leb, ◌==◌, if◌then◌else◌, ap, ◌∙◌,
}
use binbows_dos.Vga.{
  Console, put_char, put_chars, text_of, print_str, number_text, put_text, print_uint, print_hex,
  print_int, pointer_loop, print_ptr, Arg, word, text, word_arg, text_arg, Progress, conversion,
}

-- The text of a signed number, given by its bit pattern.
unfoldable pub int_text : ℕ → Option (List ℕ)
int_text w =
    if w == 0
    then some (48 ∷ [])
    else if leb (2 ^ 31) w
    then (let negated = (2 ^ 32 - w) % 2 ^ 32 in
        if leb (2 ^ 31) negated
        then some (45 ∷ [])
        else (do digits ← number_text false 10 negated; some (45 ∷ digits)))
    else number_text false 10 w

-- The text of one conversion, and the arguments behind it.
unfoldable pub shown : ℕ → List Arg → Option (List ℕ × List Arg)
shown c args =
    if c == b'c'
    then (do (w, rest) ← word_arg args; some (w % 256 ∷ [], rest))
    else if c == b's'
    then (do (t, rest) ← text_arg args; some (text_of t, rest))
    else if c == b'd' || c == b'i'
    then (do (w, rest) ← word_arg args; t ← int_text w; some (t, rest))
    else if c == b'u'
    then (do (w, rest) ← word_arg args; t ← number_text false 10 w; some (t, rest))
    else if c == b'x'
    then (do (w, rest) ← word_arg args; t ← number_text false 16 w; some (t, rest))
    else if c == b'X'
    then (do (w, rest) ← word_arg args; t ← number_text true 16 w; some (t, rest))
    else if c == b'p'
    then (do (w, rest) ← word_arg args; some (48 ∷ b'x' ∷ pointer_loop 8 w [], rest))
    else if c == b'%'
    then some (b'%' ∷ [], args)
    else some (b'%' ∷ c ∷ [], args)

-- The text of a format; `none` if it ends in a `%`, or an argument is missing or of another kind.
unfoldable pub rendered : List ℕ → List Arg → Option (List ℕ)
rendered [] args = some []
rendered (c ∷ []) args = if c == b'%' then none else some (c ∷ [])
rendered (c ∷ d ∷ cs) args = elim (c == b'%') [
  | true ↦ (do (t, rest) ← shown d args; ts ← rendered cs rest; some (t ++ ts))
  | false ↦ (do ts ← rendered (d ∷ cs) args; some (c ∷ ts))
]

-- What is left of a conversion without the count.
unfoldable pub uncounted : Option Progress → Option (List Arg × Console)
uncounted none = none
uncounted (some (_, rest, s)) = some (rest, s)

unfoldable pub put_shown : Option (List ℕ × List Arg) → Console → Option (List Arg × Console)
put_shown none s = none
put_shown (some (t, rest)) s = some (rest, put_chars t s)

-- A test that both sides make.
branch :
    (b : Bool) (x y : Option Progress) (x' y' : Option (List ℕ × List Arg)) (s : Console)
    → uncounted x ≡ put_shown x' s
    → uncounted y ≡ put_shown y' s
    → uncounted (if b then x else y) ≡ put_shown (if b then x' else y') s
branch true x y x' y' s e e' = e
branch false x y x' y' s e e' = e'

-- A text that is put, or none.
text_case :
    (o : Option (List ℕ)) (n : ℕ) (rest : List Arg) (s : Console)
    → uncounted (put_text o s >>= λ s'. some (n, rest, s'))
      ≡ put_shown (o >>= λ t. some (t, rest)) s
unfolding uncounted put_shown put_text
text_case none n rest s = refl
text_case (some t) n rest s = refl

put_text_branch :
    (b : Bool) (x y : Option Console) (x' y' : Option (List ℕ)) (s : Console)
    → x ≡ put_text x' s
    → y ≡ put_text y' s
    → (if b then x else y) ≡ put_text (if b then x' else y') s
put_text_branch true x y x' y' s e e' = e
put_text_branch false x y x' y' s e e' = e'

minus_sign :
    (o : Option (List ℕ)) (s : Console)
    → put_text o (put_char 45 s) ≡ put_text (do digits ← o; some (45 ∷ digits)) s
unfolding put_text put_chars
minus_sign none s = refl
minus_sign (some t) s = refl

print_int-int_text : (w : ℕ) (s : Console) → print_int w s ≡ put_text (int_text w) s
unfolding print_int int_text put_text put_chars
print_int-int_text w s = put_text_branch (w == 0) _ _ _ _ s refl (
    put_text_branch (leb (2 ^ 31) w) _ _ _ _ s
      (put_text_branch (leb (2 ^ 31) ((2 ^ 32 - w) % 2 ^ 32)) _ _ _ _ s refl (minus_sign _ s)) refl)

-- Conversions of a word.
word_case :
    (args : List Arg) (put : ℕ → Console → Option Console) (text_for : ℕ → Option (List ℕ)) (n : ℕ)
    (s : Console)
    → ((w : ℕ) → put w s ≡ put_text (text_for w) s)
    → uncounted (word_arg args >>= λ (w, rest). (put w s >>= λ s'. some (n, rest, s')))
      ≡ put_shown (word_arg args >>= λ (w, rest). (text_for w >>= λ t. some (t, rest))) s
unfolding uncounted put_shown
word_case [] put text_for n s same = refl
word_case (text t ∷ args) put text_for n s same = refl
word_case (word w ∷ args) put text_for n s same =
    ap (λ o. uncounted (o >>= λ s'. some (n, args, s'))) (same w) ∙ text_case (text_for w) n args s

char_case :
    (args : List Arg) (n : ℕ) (s : Console)
    → uncounted (word_arg args >>= λ (w, rest). some (n, rest, put_char (w % 256) s))
      ≡ put_shown (word_arg args >>= λ (w, rest). some (w % 256 ∷ [], rest)) s
unfolding uncounted put_shown put_chars
char_case [] n s = refl
char_case (text t ∷ args) n s = refl
char_case (word w ∷ args) n s = refl

string_case :
    (args : List Arg) (n : Option (List ℕ) → ℕ) (s : Console)
    → uncounted (text_arg args >>= λ (t, rest). some (n t, rest, print_str t s))
      ≡ put_shown (text_arg args >>= λ (t, rest). some (text_of t, rest)) s
unfolding uncounted put_shown print_str
string_case [] n s = refl
string_case (text t ∷ args) n s = refl
string_case (word w ∷ args) n s = refl

pointer_case :
    (args : List Arg) (n : ℕ) (s : Console)
    → uncounted (word_arg args >>= λ (w, rest). some (n, rest, print_ptr w s))
      ≡ put_shown (word_arg args >>= λ (w, rest). some (48 ∷ b'x' ∷ pointer_loop 8 w [], rest)) s
unfolding uncounted put_shown print_ptr put_chars
pointer_case [] n s = refl
pointer_case (text t ∷ args) n s = refl
pointer_case (word w ∷ args) n s = refl

-- A conversion puts the text that is shown, and leaves the same arguments.
pub conversion-shown :
    (c n : ℕ) (args : List Arg) (s : Console)
    → uncounted (conversion c n args s) ≡ put_shown (shown c args) s
unfolding conversion shown
conversion-shown c n args s = branch (c == b'c') _ _ _ _ s (char_case args (n + 1) s) (
    branch (c == b's') _ _ _ _ s (string_case args _ s) (
      branch (c == b'd' || c == b'i') _ _ _ _ s
        (word_case args print_int int_text (n + 1) s (λ w. print_int-int_text w s))
        (branch (c == b'u') _ _ _ _ s
          (word_case args print_uint (number_text false 10) (n + 1) s uint)
          (branch (c == b'x') _ _ _ _ s
            (word_case args (λ w. print_hex w false) (number_text false 16) (n + 1) s lower)
            (branch (c == b'X') _ _ _ _ s
              (word_case args (λ w. print_hex w true) (number_text true 16) (n + 1) s upper)
              (branch (c == b'p') _ _ _ _ s (pointer_case args (n + 10) s)
                (branch (c == b'%') _ _ _ _ s one two)))))))
  where
    uint : (w : ℕ) → print_uint w s ≡ put_text (number_text false 10 w) s
    uint w = unfold print_uint in refl

    lower : (w : ℕ) → print_hex w false s ≡ put_text (number_text false 16 w) s
    lower w = unfold print_hex in refl

    upper : (w : ℕ) → print_hex w true s ≡ put_text (number_text true 16 w) s
    upper w = unfold print_hex in refl

    one : uncounted (some (n + 1, args, put_char b'%' s)) ≡ put_shown (some (b'%' ∷ [], args)) s
    one = unfold uncounted put_shown put_chars in refl

    two :
        uncounted (some (n + 2, args, put_char c (put_char b'%' s)))
        ≡ put_shown (some (b'%' ∷ c ∷ [], args)) s
    two = unfold uncounted put_shown put_chars in refl
