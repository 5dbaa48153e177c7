-- ===== src/Vga/Printf.antt =====
-- `printf` prints the text of its format.
use binbows_dos.Common.{
  ℕ, ◌+◌, ◌≡◌, refl, inl, inr, Option, none, some, ◌>>=◌, List, [], ◌∷◌, ◌++◌, ◌==◌, ap, ◌∙◌,
  Bool-cases,
}
use binbows_dos.Vga.{
  Console, set_cursor, put_char, put_chars, print, Arg, Progress, conversion, printf_loop, printf,
}
use binbows_dos.Vga.Format.{shown, rendered, uncounted, put_shown, conversion-shown}

put_chars-append :
    (xs ys : List ℕ) (s : Console) → put_chars ys (put_chars xs s) ≡ put_chars (xs ++ ys) s
unfolding put_chars
put_chars-append [] ys s = refl
put_chars-append (x ∷ xs) ys s = put_chars-append xs ys (put_char x s)

-- The console after the loop.
loop_console : Option Progress → Option Console
loop_console none = none
loop_console (some (_, _, s)) = some s

put_all : Option (List ℕ) → Console → Option Console
put_all none s = none
put_all (some t) s = some (put_chars t s)

-- A character in front of a text is put first.
put_all-cons :
    (c : ℕ) (o : Option (List ℕ)) (s : Console)
    → put_all o (put_char c s) ≡ put_all (do ts ← o; some (c ∷ ts)) s
unfolding put_all put_chars
put_all-cons c none s = refl
put_all-cons c (some ts) s = refl

put_all-append :
    (t : List ℕ) (o : Option (List ℕ)) (s : Console)
    → put_all o (put_chars t s) ≡ put_all (do ts ← o; some (t ++ ts)) s
unfolding put_all
put_all-append t none s = refl
put_all-append t (some ts) s = ap some (put_chars-append t ts s)

-- What follows a conversion, given what the rest of the format puts.
rest_of : List ℕ → Option (List Arg × Console) → Option Console
rest_of cs none = none
rest_of cs (some (rest, s)) = put_all (rendered cs rest) s

after_conversion :
    (cs : List ℕ) (p : Option Progress)
    → ((n : ℕ) (rest : List Arg) (s : Console)
        → loop_console (printf_loop cs n rest s) ≡ put_all (rendered cs rest) s)
    → loop_console (p >>= λ (n, rest, s). printf_loop cs n rest s) ≡ rest_of cs (uncounted p)
unfolding loop_console rest_of uncounted
after_conversion cs none ih = refl
after_conversion cs (some (n, rest, s)) ih = ih n rest s

after_shown :
    (cs : List ℕ) (q : Option (List ℕ × List Arg)) (s : Console)
    → rest_of cs (put_shown q s)
      ≡ put_all (do (t, rest) ← q; ts ← rendered cs rest; some (t ++ ts)) s
unfolding rest_of put_shown put_all
after_shown cs none s = refl
after_shown cs (some (t, rest)) s = put_all-append t (rendered cs rest) s

printf_loop-rendered :
    (format : List ℕ) (n : ℕ) (args : List Arg) (s : Console)
    → loop_console (printf_loop format n args s) ≡ put_all (rendered format args) s
unfolding printf_loop rendered loop_console put_all put_chars
printf_loop-rendered [] n args s = refl
printf_loop-rendered (c ∷ []) n args s = elim (Bool-cases (c == b'%')) [
  | inl e ↦ rw e refl
  | inr e ↦ rw e refl
]
printf_loop-rendered (c ∷ d ∷ cs) n args s = elim (Bool-cases (c == b'%')) [
  | inl e ↦
      rw (loop_console, put_all, e)
        (after_conversion cs (conversion d n args s) (printf_loop-rendered cs)
          ∙ ap (rest_of cs) (conversion-shown d n args s)
          ∙ after_shown cs (shown d args) s)
  | inr e ↦
      rw (loop_console, put_all, e)
        (printf_loop-rendered (d ∷ cs) (n + 1) args (put_char c s)
          ∙ put_all-cons c (rendered (d ∷ cs) args) s)
]

-- The console that `printf` leaves, without the count.
unfoldable pub console_of : Option (ℕ × Console) → Option Console
console_of none = none
console_of (some (_, s)) = some s

unfoldable pub print_rendered : Option (List ℕ) → Console → Option Console
print_rendered none s = none
print_rendered (some t) s = some (print t s)

at_end : Option Console → Option Console
at_end none = none
at_end (some s) = some (set_cursor s.cursor_row s.cursor_col s)

at_end-loop_console :
    (p : Option Progress)
    → console_of (p >>= λ (n, _, s). some (n, set_cursor s.cursor_row s.cursor_col s))
      ≡ at_end (loop_console p)
unfolding loop_console at_end console_of
at_end-loop_console none = refl
at_end-loop_console (some p) = refl

at_end-put_all : (o : Option (List ℕ)) (s : Console) → at_end (put_all o s) ≡ print_rendered o s
unfolding at_end put_all print_rendered print
at_end-put_all none s = refl
at_end-put_all (some t) s = refl

-- `printf` prints the text that its format and arguments render to, and is undefined where they
-- render to none.
pub printf-rendered :
    (format : List ℕ) (args : List Arg) (s : Console)
    → console_of (printf format args s) ≡ print_rendered (rendered format args) s
unfolding printf
printf-rendered format args s =
    at_end-loop_console (printf_loop format 0 args s)
    ∙ ap at_end (printf_loop-rendered format 0 args s)
    ∙ at_end-put_all (rendered format args) s
