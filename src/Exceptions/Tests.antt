-- ===== src/Exceptions/Tests.antt =====
-- A divide error, and the gates for stubs that lie 16 bytes apart.
use binbows_dos.Common.{ℕ, ◌≡◌, arith, some, true, get_elem?, List, []}
use binbows_dos.Vga.{Console}
use binbows_dos.Exceptions.{Regs, exception_messages, fault_handler}
use binbows_dos.Exceptions.Report.{print_all, report_texts, fault_handler-report_texts}

abbrev regs : Regs
regs = record {
  gs = 16;
  fs = 16;
  es = 16;
  ds = 16;
  edi = 1;
  esi = 2;
  ebp = 3;
  esp = 0xffff_fff0;
  ebx = 4;
  edx = 5;
  ecx = 6;
  eax = 7;
  int_no = 14;
  err_code = 2;
  eip = 0x10_0000;
  cs = 8;
  eflags = 0x202;
  useresp = 0;
  ss = 0;
}

abbrev console : Console
console = record { cells = λ j. 0; cursor_row = 3; cursor_col = 0; ports = [] }

fault_handler-report_texts_example :
    (message : List ℕ) × (get_elem? exception_messages 14 ≡ some message)
    × (fault_handler regs console ≡ some (true, print_all (report_texts message regs) console))
fault_handler-report_texts_example =
    fault_handler-report_texts regs console
      (
        omega arith,
        (omega arith, omega arith, omega arith),
        (omega arith, omega arith, omega arith, omega arith),
        (omega arith, omega arith, omega arith, omega arith),
        (omega arith, omega arith, omega arith, omega arith),
      )
      (omega arith)
