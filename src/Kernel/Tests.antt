-- ===== src/Kernel/Tests.antt =====
-- The kernel on a bus without drives that keeps a log of what is written.
use binbows_dos.Common.{◌+◌, ◌^◌, ◌%◌, [], ◌∷◌, List, ℕ, ◌≡◌, refl, none, true, arith}
use binbows_dos.Io.{Bus}
use binbows_dos.Alloc.Span.{Span}
use binbows_dos.Gdt.{GdtEntry}
use binbows_dos.Idt.{IdtEntry}
use binbows_dos.Ide.Sample.{primary_channels, found_drives}
use binbows_dos.Kernel.{Kernel, idle}
use binbows_dos.Kernel.Start.{Wired, prepare-Wired}
use binbows_dos.Kernel.Idle.{signalled, timer_interrupts, idle-Wired}

abbrev logging : Bus
logging = record {
  Device = List (ℕ × ℕ);
  read = λ port d. (0xff, d);
  write = λ port v d. (port, v) ∷ d;
  read_word = λ port d. (0xffff, d);
  write_word = λ port w d. (port, w) ∷ d;
}

abbrev no_segment : GdtEntry
no_segment = record {
  limit_low = 0;
  base_low = 0;
  base_middle = 0;
  access = 0;
  granularity = 0;
  base_high = 0;
}

abbrev no_gate : IdtEntry
no_gate = record { base_low = 0; sel = 0; always0 = 0; flags = 0; base_high = 0 }

abbrev loaded : Kernel logging
loaded = record {
  heap = record { mem = λ q. 0; free_list_head = 0; interrupts = true };
  gdt = record { entries = λ j. no_segment; gp = record { limit = 0; base = 0 } };
  idtp = record { limit = 0; base = 0 };
  idt = λ j. no_gate;
  handlers = λ j. none;
  driver = record {
    channels = primary_channels;
    devices = λ j. record (found_drives j) { reserved = 0; size = 0 };
    ide_buf = λ q. 0;
    device = ([], 0);
  };
}

-- The kernel as it is set up.
abbrev set_up : (k' : Kernel logging) × Wired logging (λ n. 0x10_1000) (λ n. 0x10_2000) k'
set_up =
    let (k', _, _, _, wired, _, _) =
      prepare-Wired logging 0x10_4000 0x10_5000 (λ n. 0x10_1000) (λ n. 0x10_2000) loaded
        (λ n. omega arith) (λ n. omega arith) (λ j. refl) in
    (k', wired)

idle-Wired_example :
    ((idle logging (0 ∷ 14 ∷ 0 ∷ []) set_up.0).driver.device.0
      ≡ signalled logging (0 ∷ 14 ∷ 0 ∷ []) set_up.0.driver.device.0)
    × ((idle logging (0 ∷ 14 ∷ 0 ∷ []) set_up.0).driver.device.1 % 2 ^ 64
        ≡ (set_up.0.driver.device.1 + timer_interrupts (0 ∷ 14 ∷ 0 ∷ [])) % 2 ^ 64)
    × Wired logging (λ n. 0x10_1000) (λ n. 0x10_2000) (idle logging (0 ∷ 14 ∷ 0 ∷ []) set_up.0)
idle-Wired_example =
    idle-Wired logging (λ n. 0x10_1000) (λ n. 0x10_2000) (0 ∷ 14 ∷ 0 ∷ []) set_up.0
      (omega arith, (omega arith, (omega arith, tt))) set_up.1
