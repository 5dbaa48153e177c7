-- ===== src/Serial/Text.antt =====
-- The text of a format of `serial_printf`, described without the port.
use binbows_dos.Common.{
  ℕ, zero, suc, ◌+◌, ◌-◌, ◌/◌, ◌%◌, ◌^◌, ◌≤◌, ◌≡◌, Bool, true, false, ◌||◌, Option, none, some,
  ◌>>=◌, List, [], ◌∷◌, ◌++◌, leb, ◌==◌, if◌then◌else◌, Bool-cases, inl, inr, arith,
}
use binbows_dos.Vga.{Arg, word_arg, text_arg, text_of, number_text, digits_loop, digit_char}
use binbows_dos.Serial.{buffer_digits}

-- A signed number, given by its bit pattern.
unfoldable pub signed_text : ℕ → Option (List ℕ)
signed_text w =
    if leb (2 ^ 31) w
    then (do digits ← number_text false 10 ((2 ^ 32 - w) % 2 ^ 32); some (45 ∷ digits))
    else number_text false 10 w

-- A text for each word that is read.
abbrev pub word_shown : (ℕ → Option (List ℕ)) → List Arg → Option (List ℕ × List Arg)
word_shown text_for args = do (w, rest) ← word_arg args; t ← text_for w; some (t, rest)

abbrev pub pointer_digits : ℕ → Option (List ℕ)
pointer_digits w = do digits ← number_text false 16 w; some (48 ∷ b'x' ∷ digits)

-- The text of one conversion, and the arguments behind it.
unfoldable pub serial_shown : ℕ → List Arg → Option (List ℕ × List Arg)
serial_shown c args =
    if c == b's'
    then (do (t, rest) ← text_arg args; some (text_of t, rest))
    else if c == b'c'
    then word_shown (λ w. some (w % 256 ∷ [])) args
    else if c == b'd' || c == b'i'
    then word_shown signed_text args
    else if c == b'u'
    then word_shown (number_text false 10) args
    else if c == b'x'
    then word_shown (number_text false 16) args
    else if c == b'X'
    then word_shown (number_text true 16) args
    else if c == b'p'
    then word_shown pointer_digits args
    else if c == b'%'
    then some (b'%' ∷ [], args)
    else some (b'%' ∷ c ∷ [], args)

-- The text of a format; `none` if an argument is missing or of another kind.
unfoldable pub serial_rendered : List ℕ → List Arg → Option (List ℕ)
serial_rendered [] args = some []
serial_rendered (c ∷ []) args = some (if c == b'%' then [] else c ∷ [])
serial_rendered (c ∷ f ∷ cs) args = elim (c == b'%') [
  | true ↦ (do (t, rest) ← serial_shown f args; ts ← serial_rendered cs rest; some (t ++ ts))
  | false ↦ (do ts ← serial_rendered (f ∷ cs) args; some (c ∷ ts))
]

-- A buffer with room for the digits gets those that the console's routine finds.
pub buffer_digits-digits_loop :
    (room fuel : ℕ) (upper : Bool) (base num : ℕ) (buf t : List ℕ)
    → fuel ≤ room + 1
    → digits_loop fuel upper base num buf ≡ some t
    → buffer_digits room upper base num buf ≡ t
unfolding buffer_digits digits_loop
buffer_digits-digits_loop room zero upper base num buf t h e = cc
buffer_digits-digits_loop zero (suc zero) upper base num buf t h e = elim (Bool-cases (num == 0)) [
  | inl z ↦ let e' : some buf ≡ some t = rw z at e in cc
  | inr z ↦ let e' : ◌≡◌ {A = Option (List ℕ)} none (some t) = rw z at e in cc
]
buffer_digits-digits_loop zero (suc (suc fuel)) upper base num buf t h e = absurd (omega arith)
buffer_digits-digits_loop (suc room) (suc fuel) upper base num buf t h e =
    elim (Bool-cases (num == 0)) [
      | inl z ↦ let e' : some buf ≡ some t = rw z at e in rw z cc
      | inr z ↦ rw z (
          buffer_digits-digits_loop room fuel upper base (num / base)
            (digit_char upper (num % base) ∷ buf) t (omega arith) (rw z at e))
    ]
