-- ===== src/Exceptions/HexLine.antt =====
-- Lines of a format that show words in hexadecimal.
use binbows_dos.Common.{
  ℕ, ◌<◌, ◌^◌, ◌≡◌, refl, ap, Bool, true, false, inr, Option, none, some, ◌>>=◌, List, [], ◌∷◌,
  ◌++◌, ◌==◌, if◌then◌else◌, All,
}
use binbows_dos.Vga.{Arg, word, number_text}
use binbows_dos.Vga.Number.{number_text_lem}
use binbows_dos.Vga.Format.{rendered, shown}

-- The digits that `%X` puts.
abbrev pub text_or_empty : Option (List ℕ) → List ℕ
text_or_empty none = []
text_or_empty (some t) = t

unfoldable pub hex_text : ℕ → List ℕ
hex_text w = text_or_empty (number_text true 16 w)

text_there : (o : Option (List ℕ)) (t : List ℕ) → o ≡ some t → o ≡ some (text_or_empty o)
text_there none t e = cc
text_there (some u) t e = refl

hex_text_lem : (w : ℕ) → w < 2 ^ 32 → number_text true 16 w ≡ some (hex_text w)
unfolding hex_text
hex_text_lem w h =
    let (t, done, _, _, _) = number_text_lem true 16 w (inr refl) h in
    text_there (number_text true 16 w) t done

-- A text without a percent sign.
abbrev pub plain : List ℕ → Bool
plain [] = true
plain (c ∷ cs) = if c == b'%' then false else plain cs

rendered-cons :
    (c : ℕ) (cs : List ℕ) (args : List Arg) (t : List ℕ)
    → (c == b'%') ≡ false
    → rendered cs args ≡ some t
    → rendered (c ∷ cs) args ≡ some (c ∷ t)
unfolding rendered
rendered-cons c [] args t e h = rw e (ap (λ (o : Option (List ℕ)). o >>= λ ts. some (c ∷ ts)) h)
rendered-cons c (d ∷ cs) args t e h =
    rw (rendered, e) (ap (λ (o : Option (List ℕ)). o >>= λ ts. some (c ∷ ts)) h)

pub rendered-plain :
    (p cs : List ℕ) (args : List Arg) (t : List ℕ)
    → plain p ≡ true
    → rendered cs args ≡ some t
    → rendered (p ++ cs) args ≡ some (p ++ t)
rendered-plain [] cs args t e h = h
rendered-plain (c ∷ p) cs args t e h =
    let (here, rest) = plain_parts (c == b'%') (plain p) e in
    rendered-cons c (p ++ cs) args (p ++ t) here (rendered-plain p cs args t rest h)
  where
    plain_parts : (b d : Bool) → (if b then false else d) ≡ true → (b ≡ false) × (d ≡ true)
    plain_parts true d e = cc
    plain_parts false d e = (refl, e)

rendered_hex :
    (w : ℕ) (cs : List ℕ) (args : List Arg) (t : List ℕ)
    → w < 2 ^ 32
    → rendered cs args ≡ some t
    → rendered (b'%' ∷ b'X' ∷ cs) (word w ∷ args) ≡ some (hex_text w ++ t)
unfolding rendered shown
rendered_hex w cs args t small h = rw (hex_text_lem w small, h) refl

-- A line that shows words in hexadecimal, each behind its label.
abbrev pub hex_format : List (List ℕ × ℕ) → List ℕ
hex_format [] = b'\n' ∷ []
hex_format ((label, w) ∷ xs) = label ++ (b'%' ∷ b'X' ∷ hex_format xs)

abbrev pub hex_args : List (List ℕ × ℕ) → List Arg
hex_args [] = []
hex_args ((label, w) ∷ xs) = word w ∷ hex_args xs

abbrev pub hex_line : List (List ℕ × ℕ) → List ℕ
hex_line [] = b'\n' ∷ []
hex_line ((label, w) ∷ xs) = label ++ (hex_text w ++ hex_line xs)

pub rendered-hex_line :
    (xs : List (List ℕ × ℕ))
    → All (λ (x : List ℕ × ℕ). (plain x.0 ≡ true) × (x.1 < 2 ^ 32)) xs
    → rendered (hex_format xs) (hex_args xs) ≡ some (hex_line xs)
rendered-hex_line [] h = unfold rendered in refl
rendered-hex_line ((label, w) ∷ xs) ((e, small), h) =
    rendered-plain label _ _ _ e
      (rendered_hex w (hex_format xs) (hex_args xs) (hex_line xs) small (rendered-hex_line xs h))
