-- ===== src/Idt.antt =====
-- The interrupt descriptors and the dispatch of src/idt/idt.c. `idt_load` (assembler) and the message
-- of `install_irq_handler` are left out.
pub mod Gates
pub mod Dispatch
mod Tests
use binbows_dos.Common.{
  ℕ, zero, suc, ◌+◌, ◌-◌, ◌*◌, ◌/◌, ◌%◌, ◌^◌, bit_and, ◌&&◌, Option, none, some, ltb, leb, ◌==◌,
  if◌then◌else◌,
}
use binbows_dos.Io.{Bus, out_byte}
use binbows_dos.Pic.{pic_enable_irq}

pub record IdtEntry : Type 0 where
  pub base_low : ℕ
  pub sel : ℕ
  pub always0 : ℕ
  pub flags : ℕ
  pub base_high : ℕ

-- The array `idt` by its index.
abbrev pub Idt : Type 0
Idt = ℕ → IdtEntry

unfoldable pub idt_set_gate : ℕ → ℕ → ℕ → ℕ → Idt → Idt
idt_set_gate num base sel flags t =
    let entry : IdtEntry = record {
      base_low = bit_and base 0xffff;
      sel = sel;
      always0 = 0;
      flags = flags;
      base_high = bit_and (base / 2 ^ 16) 0xffff;
    } in
    λ j. if num == j then entry else t j

-- `for (i = 0; i < 256; i++) idt_set_gate(i, 0, 0, 0);` with the rounds left and the index.
pub clear_gates : ℕ → ℕ → Idt → Idt
clear_gates zero i t = t
clear_gates (suc left) i t = clear_gates left (i + 1) (idt_set_gate i 0 0 0 t)

pub record IdtPtr : Type 0 where
  pub limit : ℕ
  pub base : ℕ

-- `sizeof(struct idt_entry)`
abbrev idt_entry_size : ℕ
idt_entry_size = 8

-- `table` is the address of the array; the result is `idtp` and the array.
unfoldable pub idt_install : ℕ → Idt → IdtPtr × Idt
idt_install table t =
    (record { limit = idt_entry_size * 256 - 1; base = table }, clear_gates 256 0 t)

-- The ports that `irq_install` writes.
unfoldable pub irq_install_ports : (bus : Bus) → bus.Device → bus.Device
irq_install_ports bus d =
    let d = out_byte bus 0x20 0x11 d in
    let d = out_byte bus 0xa0 0x11 d in
    let d = out_byte bus 0x21 0x20 d in
    let d = out_byte bus 0xa1 0x28 d in
    let d = out_byte bus 0x21 0x04 d in
    let d = out_byte bus 0xa1 0x02 d in
    let d = out_byte bus 0x21 0x01 d in
    let d = out_byte bus 0xa1 0x01 d in let d = out_byte bus 0x21 0x0 d in out_byte bus 0xa1 0x0 d

-- The gates that `irq_install` sets; `irq` gives the addresses of the assembler stubs irq0 … irq15.
unfoldable pub irq_install_gates : (ℕ → ℕ) → Idt → Idt
irq_install_gates irq t =
    let t = idt_set_gate 32 (irq 0) 0x08 0x8e t in
    let t = idt_set_gate 33 (irq 1) 0x08 0x8e t in
    let t = idt_set_gate 34 (irq 2) 0x08 0x8e t in
    let t = idt_set_gate 35 (irq 3) 0x08 0x8e t in
    let t = idt_set_gate 36 (irq 4) 0x08 0x8e t in
    let t = idt_set_gate 37 (irq 5) 0x08 0x8e t in
    let t = idt_set_gate 38 (irq 6) 0x08 0x8e t in
    let t = idt_set_gate 39 (irq 7) 0x08 0x8e t in
    let t = idt_set_gate 40 (irq 8) 0x08 0x8e t in
    let t = idt_set_gate 41 (irq 9) 0x08 0x8e t in
    let t = idt_set_gate 42 (irq 10) 0x08 0x8e t in
    let t = idt_set_gate 43 (irq 11) 0x08 0x8e t in
    let t = idt_set_gate 44 (irq 12) 0x08 0x8e t in
    let t = idt_set_gate 45 (irq 13) 0x08 0x8e t in
    let t = idt_set_gate 46 (irq 14) 0x08 0x8e t in idt_set_gate 47 (irq 15) 0x08 0x8e t

unfoldable pub irq_install : (bus : Bus) → (ℕ → ℕ) → Idt × bus.Device → Idt × bus.Device
irq_install bus irq (t, d) = (irq_install_gates irq t, irq_install_ports bus d)

-- The array `irq_handlers`; `none` is NULL. A handler acts on the devices.
abbrev pub Handlers : Bus → Type 0
Handlers bus = ℕ → Option (bus.Device → bus.Device)

-- `n` is the bit pattern of the `int`: a negative one passes the test, and the array is then written
-- out of its bounds, which is undefined.
unfoldable pub install_irq_handler :
    (bus : Bus)
    → ℕ
    → Option (bus.Device → bus.Device)
    → Handlers bus × bus.Device
    → Option (Handlers bus × bus.Device)
install_irq_handler bus n handler (handlers, d) =
    if leb (2 ^ 31) n
    then none
    else if ltb n 16
    then some ((λ j. if n == j then handler else handlers j), pic_enable_irq bus (n % 256) d)
    else some (handlers, d)

unfoldable pub call_handler :
    (bus : Bus) → Option (bus.Device → bus.Device) → bus.Device → bus.Device
call_handler bus none d = d
call_handler bus (some handler) d = handler d

-- `int_no` is the field of `regs`, an unsigned 32-bit word.
unfoldable pub irq_handler : (bus : Bus) → ℕ → Handlers bus → bus.Device → bus.Device
irq_handler bus int_no handlers d =
    let irq = (int_no + 2 ^ 32 - 32) % 2 ^ 32 in
    let d1 = if ltb irq (2 ^ 31) && ltb irq 16 then call_handler bus (handlers irq) d else d in
    let d2 = if leb 40 int_no then out_byte bus 0xa0 0x20 d1 else d1 in out_byte bus 0x20 0x20 d2
