-- ===== src/Exceptions/Report.antt =====
-- What the report of an exception prints.
use binbows_dos.Common.{
  ℕ, ◌<◌, ◌^◌, ◌≡◌, refl, ap, ◌∙◌, true, Option, none, some, ◌>>=◌, List, [], ◌∷◌, ◌++◌, chars,
  lt→ltb, get_elem?, get_elem?-some,
}
use binbows_dos.Vga.{Console, Arg, text, printf, print}
use binbows_dos.Vga.Format.{rendered, shown}
use binbows_dos.Vga.Printf.{printf-rendered, console_of, print_rendered}
use binbows_dos.Exceptions.{Regs, exception_messages, say, report, fault_handler}
use binbows_dos.Exceptions.HexLine.{plain, hex_line, rendered-plain, rendered-hex_line}

say-console_of : (p : Option (ℕ × Console)) → (p >>= λ (_, s). some s) ≡ console_of p
unfolding console_of
say-console_of none = refl
say-console_of (some (n, s)) = refl

say-print :
    (format : List ℕ) (args : List Arg) (t : List ℕ) (s : Console)
    → rendered format args ≡ some t
    → say format args s ≡ some (print t s)
unfolding say print_rendered
say-print format args t s e =
    say-console_of (printf format args s) ∙ printf-rendered format args s ∙ rw e refl

rendered_string :
    (t : List ℕ)
    → rendered (chars "Exception: %s\n") (text (some t) ∷ [])
      ≡ some (chars "Exception: " ++ (t ++ chars "\n"))
rendered_string t =
    rendered-plain (chars "Exception: ") (chars "%s\n") (text (some t) ∷ []) (t ++ chars "\n") refl
      (unfold rendered shown in refl)

rendered_text : (p : List ℕ) → plain p ≡ true → rendered (p ++ []) [] ≡ some (p ++ [])
rendered_text p e = rendered-plain p [] [] [] e (unfold rendered in refl)

say_then :
    (format : List ℕ) (args : List Arg) (t : List ℕ) (s : Console) (k : Console → Option Console)
    → rendered format args ≡ some t
    → (say format args s >>= k) ≡ k (print t s)
say_then format args t s k e = ap (λ o. o >>= k) (say-print format args t s e)

-- Texts printed one after the other.
unfoldable pub print_all : List (List ℕ) → Console → Console
print_all [] s = s
print_all (t ∷ ts) s = print_all ts (print t s)

-- The registers with their labels, in the lines of the dump.
abbrev code_line : Regs → List (List ℕ × ℕ)
code_line r =
    (chars "  EIP: 0x", r.eip) ∷ (chars "  CS: 0x", r.cs) ∷ (chars "  EFLAGS: 0x", r.eflags) ∷ []

abbrev general_line : Regs → List (List ℕ × ℕ)
general_line r =
    (chars "  EAX: 0x", r.eax)
    ∷ (chars "  EBX: 0x", r.ebx)
    ∷ (chars "  ECX: 0x", r.ecx)
    ∷ (chars "  EDX: 0x", r.edx)
    ∷ []

abbrev index_line : Regs → List (List ℕ × ℕ)
index_line r =
    (chars "  ESI: 0x", r.esi)
    ∷ (chars "  EDI: 0x", r.edi)
    ∷ (chars "  EBP: 0x", r.ebp)
    ∷ (chars "  ESP: 0x", r.esp)
    ∷ []

abbrev segment_line : Regs → List (List ℕ × ℕ)
segment_line r =
    (chars "  DS: 0x", r.ds)
    ∷ (chars "  ES: 0x", r.es)
    ∷ (chars "  FS: 0x", r.fs)
    ∷ (chars "  GS: 0x", r.gs)
    ∷ []

-- The texts of a report.
unfoldable pub report_texts : List ℕ → Regs → List (List ℕ)
report_texts message r =
    chars "\n*** EXCEPTION ***\n"
    ∷ (chars "Exception: " ++ (message ++ chars "\n"))
    ∷ hex_line ((chars "Error Code: 0x", r.err_code) ∷ [])
    ∷ chars "\n"
    ∷ chars "Register Dump:\n"
    ∷ hex_line (code_line r)
    ∷ hex_line (general_line r)
    ∷ hex_line (index_line r)
    ∷ hex_line (segment_line r)
    ∷ chars "\n*** SYSTEM HALTED ***\n"
    ∷ []

-- The words that are shown have 32 bits.
abbrev pub IsWords : Regs → Type 0
IsWords r =
    (r.err_code < 2 ^ 32)
    × ((r.eip < 2 ^ 32) × (r.cs < 2 ^ 32) × (r.eflags < 2 ^ 32))
    × ((r.eax < 2 ^ 32) × (r.ebx < 2 ^ 32) × (r.ecx < 2 ^ 32) × (r.edx < 2 ^ 32))
    × ((r.esi < 2 ^ 32) × (r.edi < 2 ^ 32) × (r.ebp < 2 ^ 32) × (r.esp < 2 ^ 32))
    × ((r.ds < 2 ^ 32) × (r.es < 2 ^ 32) × (r.fs < 2 ^ 32) × (r.gs < 2 ^ 32))

report-print_all :
    (message : List ℕ) (r : Regs) (s : Console)
    → IsWords r
    → report message r s ≡ some (print_all (report_texts message r) s)
unfolding report print_all report_texts
report-print_all message r s
      (w, (a1, a2, a3), (b1, b2, b3, b4), (c1, c2, c3, c4), (d1, d2, d3, d4)) =
    say_then _ _ _ s _ (rendered_text (chars "\n*** EXCEPTION ***\n") refl)
    ∙ say_then _ _ _ _ _ (rendered_string message)
    ∙ say_then _ _ _ _ _
        (rendered-hex_line ((chars "Error Code: 0x", r.err_code) ∷ []) ((refl, w), tt))
    ∙ say_then _ _ _ _ _ (rendered_text (chars "\n") refl)
    ∙ say_then _ _ _ _ _ (rendered_text (chars "Register Dump:\n") refl)
    ∙ say_then _ _ _ _ _
        (rendered-hex_line (code_line r) ((refl, a1), ((refl, a2), ((refl, a3), tt))))
    ∙ say_then _ _ _ _ _ (
        rendered-hex_line (general_line r)
          ((refl, b1), ((refl, b2), ((refl, b3), ((refl, b4), tt)))))
    ∙ say_then _ _ _ _ _ (
        rendered-hex_line (index_line r) ((refl, c1), ((refl, c2), ((refl, c3), ((refl, c4), tt)))))
    ∙ say_then _ _ _ _ _ (
        rendered-hex_line (segment_line r)
          ((refl, d1), ((refl, d2), ((refl, d3), ((refl, d4), tt)))))
    ∙ say-print _ _ _ _ (rendered_text (chars "\n*** SYSTEM HALTED ***\n") refl)

-- For an exception below 32 and registers of 32 bits, `fault_handler` prints the texts of the report,
-- with the exception's message and each register in upper-case hexadecimal, and ends in the loop that
-- halts.
pub fault_handler-report_texts :
    (r : Regs) (s : Console)
    → IsWords r
    → r.int_no < 32
    → (message : List ℕ) × (get_elem? exception_messages r.int_no ≡ some message)
      × (fault_handler r s ≡ some (true, print_all (report_texts message r) s))
unfolding fault_handler
fault_handler-report_texts r s words small =
    let (message, there) = get_elem?-some exception_messages r.int_no small in
    (message, there, rw (lt→ltb r.int_no 32 small, there, report-print_all message r s words) refl)
