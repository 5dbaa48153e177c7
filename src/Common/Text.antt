-- ===== src/Common/Text.antt =====
-- C strings written as texts.
use Prim.Native.Nat.{ℕ}
use Prim.Native.Char.{code}
use Prim.Native.String.{String, [], ◌∷◌}
use mathlib.Core.List.{List, [] as []ᴸ, ◌∷◌ as ◌∷ᴸ◌}

-- The bytes of an ASCII text.
abbrev pub chars : String → List ℕ
chars [] = []ᴸ
chars (c ∷ s) = code c ∷ᴸ chars s
