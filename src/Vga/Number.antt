-- ===== src/Vga/Number.antt =====
-- The digits that the number routines put denote the number.

use native.Mathlib.Nat.{pow-zero, pow-suc, div-add-mod', mod-lt, div-lt_iff_lt-mul}
use binbows_dos.Common.{
  ℕ, zero, suc, ◌+◌, ◌-◌, ◌*◌, ◌/◌, ◌%◌, ◌^◌, ◌≤◌, ◌<◌, ◌≡◌, ◌≢◌, refl, ◌⊎◌, inl, inr, bit_and,
  Bool, true, false, some, List, [], ◌∷◌, arith, ◌==◌, ltb, if◌then◌else◌, ap, ◌∙◌, length,
  Bool-cases, ==_iff, ==→ne, sym,
}
use binbows_dos.Common.Bits.{bit_and_mask}
use binbows_dos.Vga.{digit_char, digits_loop, number_text, pointer_loop}

-- What a character stands for as a digit.
unfoldable pub digit_value : ℕ → ℕ
digit_value c = if ltb c 58 then c - 48 else (if ltb c 71 then c - 55 else c - 87)

-- The number that digits denote in a base, behind those that denote `acc`.
unfoldable pub value_from : ℕ → ℕ → List ℕ → ℕ
value_from base acc [] = acc
value_from base acc (c ∷ cs) = value_from base (acc * base + digit_value c) cs

digit_value-digit_char : (upper : Bool) (d : ℕ) → d < 16 → digit_value (digit_char upper d) ≡ d
unfolding digit_value digit_char
digit_value-digit_char true d h = ground arith
digit_value-digit_char false d h = ground arith

digit_back :
    (upper : Bool) (base num : ℕ)
    → 1 < base
    → base ≤ 16
    → num / base * base + digit_value (digit_char upper (num % base)) ≡ num
digit_back upper base num lo hi =
    let digit_small : num % base < base = mod-lt num (omega arith) in
    rw (digit_value-digit_char upper (num % base) (omega arith)) (div-add-mod' num base)

-- The loop ends with the digits of `num` in front of the buffer.
digits_loop_lem :
    (k fuel : ℕ) (upper : Bool) (base num : ℕ) (buffer : List ℕ)
    → 1 < base
    → base ≤ 16
    → num < base ^ k
    → k < fuel
    → (t : List ℕ) × (digits_loop fuel upper base num buffer ≡ some t)
      × (value_from base 0 t ≡ value_from base num buffer)
      × (length t ≤ k + length buffer)
unfolding digits_loop value_from
digits_loop_lem k zero upper base num buffer lo hi small enough = absurd (omega arith)
digits_loop_lem zero (suc fuel) upper base num buffer lo hi small enough =
    let e : num ≡ 0 = omega (arith, pow-zero base) in rw e (buffer, refl, refl, omega arith)
digits_loop_lem (suc k) (suc fuel) upper base num buffer lo hi small enough =
    elim (Bool-cases (num == 0)) [
      | inl e ↦ (buffer, rw e refl, rw ((==_iff num 0).0 e) refl, omega arith)
      | inr e ↦
          let fewer : num / base < base ^ k =
            (div-lt_iff_lt-mul (omega arith)).1 (rw (← pow-suc base k) small) in
          let (t, done, denotes, short) =
            digits_loop_lem k fuel upper base (num / base) (digit_char upper (num % base) ∷ buffer)
              lo hi fewer (omega arith) in
          (
            t,
            rw e done,
            denotes ∙ ap (λ v. value_from base v buffer) (digit_back upper base num lo hi),
            omega arith,
          )
    ]

-- The text of a 32-bit number in base 10 or 16 denotes it, and fits the buffer: it has ten
-- characters at most, or eight.
pub number_text_lem :
    (upper : Bool) (base num : ℕ)
    → (base ≡ 10) ⊎ (base ≡ 16)
    → num < 2 ^ 32
    → (t : List ℕ) × (number_text upper base num ≡ some t)
      × (value_from base 0 t ≡ num)
      × (0 < length t)
      × (length t ≤ (if base == 10 then 10 else 8))
unfolding number_text value_from
number_text_lem upper base num which small = elim (Bool-cases (num == 0)) [
  | inl e ↦ rw (e, (==_iff num 0).0 e) (48 ∷ [], refl, zero_text base, omega arith, ground arith)
  | inr e ↦ rw e (
      let (t, done, denotes, short) =
        digits_loop_lem (if base == 10 then 10 else 8) 33 upper base num [] (omega arith)
          (omega arith) (fits which) (ground arith) in
      (t, done, denotes, nonempty t denotes (==→ne num 0 e), omega arith))
]
  where
    zero_text : (b : ℕ) → value_from b 0 (48 ∷ []) ≡ 0
    zero_text b = unfold value_from digit_value in omega arith

    fits : (base ≡ 10) ⊎ (base ≡ 16) → num < base ^ (if base == 10 then 10 else 8)
    fits (inl e) = rw e (omega arith)
    fits (inr e) = rw e (omega arith)

    nonempty : (t : List ℕ) → value_from base 0 t ≡ num → num ≢ 0 → 0 < length t
    nonempty [] d ne = absurd (ne (sym (unfold value_from in d)))
    nonempty (c ∷ cs) d ne = omega arith

-- One round of the pointer's loop stores the last hexadecimal digit.
pointer_digit : (addr : ℕ) → digit_char false (bit_and addr 0xf) ≡ digit_char false (addr % 16)
pointer_digit addr = ap (digit_char false) (bit_and_mask 4 addr)

pointer_loop_lem :
    (left addr : ℕ) (buffer : List ℕ)
    → addr < 16 ^ left
    → (value_from 16 0 (pointer_loop left addr buffer) ≡ value_from 16 addr buffer)
      × (length (pointer_loop left addr buffer) ≡ left + length buffer)
unfolding pointer_loop value_from
pointer_loop_lem zero addr buffer small = (
  ap (λ v. value_from 16 v buffer) (let e : addr ≡ 0 = omega (arith, pow-zero 16) in sym e),
  omega arith,
)
pointer_loop_lem (suc left) addr buffer small =
    let fewer : addr / 16 < 16 ^ left =
      (div-lt_iff_lt-mul (omega arith)).1 (rw (← pow-suc 16 left) small) in
    let (denotes, long) =
      pointer_loop_lem left (addr / 16) (digit_char false (bit_and addr 0xf) ∷ buffer) fewer in
    (
      denotes
          ∙ ap (λ v. value_from 16 v buffer)
              (ap (λ d. addr / 16 * 16 + digit_value d) (pointer_digit addr)
                ∙ digit_back false 16 addr (omega arith) (omega arith)),
      omega arith,
    )

-- The digits of a pointer are eight, and denote its 32-bit value.
pub pointer_text :
    (addr : ℕ)
    → addr < 2 ^ 32
    → (value_from 16 0 (pointer_loop 8 addr []) ≡ addr) × (length (pointer_loop 8 addr []) ≡ 8)
unfolding value_from
pointer_text addr small = pointer_loop_lem 8 addr [] (omega arith)
