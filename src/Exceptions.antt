-- ===== src/Exceptions.antt =====
-- The exceptions of src/idt/exceptions.c: their gates and the report of one on the console.
pub mod Gates
pub mod HexLine
pub mod Report
mod Tests
use binbows_dos.Common.{
  ℕ, zero, suc, ltb, if◌then◌else◌, Bool, true, false, Option, none, some, ◌>>=◌, List, [], ◌∷◌,
  chars, get_elem?,
}
use binbows_dos.Idt.{Idt, idt_set_gate}
use binbows_dos.Vga.{Console, Arg, word, text, printf}

-- `struct regs`, words of 32 bits.
pub record Regs : Type 0 where
  pub gs : ℕ
  pub fs : ℕ
  pub es : ℕ
  pub ds : ℕ
  pub edi : ℕ
  pub esi : ℕ
  pub ebp : ℕ
  pub esp : ℕ
  pub ebx : ℕ
  pub edx : ℕ
  pub ecx : ℕ
  pub eax : ℕ
  pub int_no : ℕ
  pub err_code : ℕ
  pub eip : ℕ
  pub cs : ℕ
  pub eflags : ℕ
  pub useresp : ℕ
  pub ss : ℕ

-- The array `exception_messages`.
abbrev pub exception_messages : List (List ℕ)
exception_messages =
    chars "Division By Zero"
    ∷ chars "Debug"
    ∷ chars "Non Maskable Interrupt"
    ∷ chars "Breakpoint"
    ∷ chars "Into Detected Overflow"
    ∷ chars "Out of Bounds"
    ∷ chars "Invalid Opcode"
    ∷ chars "No Coprocessor"
    ∷ chars "Double Fault"
    ∷ chars "Coprocessor Segment Overrun"
    ∷ chars "Bad TSS"
    ∷ chars "Segment Not Present"
    ∷ chars "Stack Fault"
    ∷ chars "General Protection Fault"
    ∷ chars "Page Fault"
    ∷ chars "Reserved"
    ∷ chars "Floating Point Exception"
    ∷ chars "Alignment Check"
    ∷ chars "Machine Check"
    ∷ chars "SIMD Floating-Point Exception"
    ∷ chars "Virtualization Exception"
    ∷ chars "Reserved"
    ∷ chars "Reserved"
    ∷ chars "Reserved"
    ∷ chars "Reserved"
    ∷ chars "Reserved"
    ∷ chars "Reserved"
    ∷ chars "Reserved"
    ∷ chars "Reserved"
    ∷ chars "Reserved"
    ∷ chars "Security Exception"
    ∷ chars "Reserved"
    ∷ []

-- A call of `printf` whose result is not used.
unfoldable pub say : List ℕ → List Arg → Console → Option Console
say format args s = do (_, s1) ← printf format args s; some s1

-- The report of an exception, with its message.
unfoldable pub report : List ℕ → Regs → Console → Option Console
report message r s = do
  s ← say (chars "\n*** EXCEPTION ***\n") [] s
  s ← say (chars "Exception: %s\n") (text (some message) ∷ []) s
  s ← say (chars "Error Code: 0x%X\n") (word r.err_code ∷ []) s
  s ← say (chars "\n") [] s
  s ← say (chars "Register Dump:\n") [] s
  s ←
      say (chars "  EIP: 0x%X  CS: 0x%X  EFLAGS: 0x%X\n")
        (word r.eip ∷ word r.cs ∷ word r.eflags ∷ []) s
  s ←
      say (chars "  EAX: 0x%X  EBX: 0x%X  ECX: 0x%X  EDX: 0x%X\n")
        (word r.eax ∷ word r.ebx ∷ word r.ecx ∷ word r.edx ∷ []) s
  s ←
      say (chars "  ESI: 0x%X  EDI: 0x%X  EBP: 0x%X  ESP: 0x%X\n")
        (word r.esi ∷ word r.edi ∷ word r.ebp ∷ word r.esp ∷ []) s
  s ←
      say (chars "  DS: 0x%X  ES: 0x%X  FS: 0x%X  GS: 0x%X\n")
        (word r.ds ∷ word r.es ∷ word r.fs ∷ word r.gs ∷ []) s
  say (chars "\n*** SYSTEM HALTED ***\n") [] s

-- Whether it ends in the loop that halts, and the console at that point; `none` if undefined.
unfoldable pub fault_handler : Regs → Console → Option (Bool × Console)
fault_handler r s =
    if ltb r.int_no 32
    then (do
      message ← get_elem? exception_messages r.int_no
      s1 ← report message r s
      some (true, s1))
    else some (false, s)

-- `isr` gives the addresses of the assembler stubs isr0 … isr31.
unfoldable pub exceptions_install : (ℕ → ℕ) → Idt → Idt
exceptions_install isr t =
    let t = idt_set_gate 0 (isr 0) 0x08 0x8e t in
    let t = idt_set_gate 1 (isr 1) 0x08 0x8e t in
    let t = idt_set_gate 2 (isr 2) 0x08 0x8e t in
    let t = idt_set_gate 3 (isr 3) 0x08 0x8e t in
    let t = idt_set_gate 4 (isr 4) 0x08 0x8e t in
    let t = idt_set_gate 5 (isr 5) 0x08 0x8e t in
    let t = idt_set_gate 6 (isr 6) 0x08 0x8e t in
    let t = idt_set_gate 7 (isr 7) 0x08 0x8e t in
    let t = idt_set_gate 8 (isr 8) 0x08 0x8e t in
    let t = idt_set_gate 9 (isr 9) 0x08 0x8e t in
    let t = idt_set_gate 10 (isr 10) 0x08 0x8e t in
    let t = idt_set_gate 11 (isr 11) 0x08 0x8e t in
    let t = idt_set_gate 12 (isr 12) 0x08 0x8e t in
    let t = idt_set_gate 13 (isr 13) 0x08 0x8e t in
    let t = idt_set_gate 14 (isr 14) 0x08 0x8e t in
    let t = idt_set_gate 15 (isr 15) 0x08 0x8e t in
    let t = idt_set_gate 16 (isr 16) 0x08 0x8e t in
    let t = idt_set_gate 17 (isr 17) 0x08 0x8e t in
    let t = idt_set_gate 18 (isr 18) 0x08 0x8e t in
    let t = idt_set_gate 19 (isr 19) 0x08 0x8e t in
    let t = idt_set_gate 20 (isr 20) 0x08 0x8e t in
    let t = idt_set_gate 21 (isr 21) 0x08 0x8e t in
    let t = idt_set_gate 22 (isr 22) 0x08 0x8e t in
    let t = idt_set_gate 23 (isr 23) 0x08 0x8e t in
    let t = idt_set_gate 24 (isr 24) 0x08 0x8e t in
    let t = idt_set_gate 25 (isr 25) 0x08 0x8e t in
    let t = idt_set_gate 26 (isr 26) 0x08 0x8e t in
    let t = idt_set_gate 27 (isr 27) 0x08 0x8e t in
    let t = idt_set_gate 28 (isr 28) 0x08 0x8e t in
    let t = idt_set_gate 29 (isr 29) 0x08 0x8e t in
    let t = idt_set_gate 30 (isr 30) 0x08 0x8e t in idt_set_gate 31 (isr 31) 0x08 0x8e t
