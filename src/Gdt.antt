-- ===== src/Gdt.antt =====
-- The segment descriptors of src/gdt/gdt.c. The assembler routine `gdt_flush`, which loads the table's
-- register, is left out.
mod Tests
pub mod Gates
use binbows_dos.Common.{ℕ, ◌+◌, ◌-◌, ◌*◌, ◌/◌, ◌%◌, ◌^◌, bit_and, bit_or, ◌==◌, if◌then◌else◌}

pub record GdtEntry : Type 0 where
  pub limit_low : ℕ
  pub base_low : ℕ
  pub base_middle : ℕ
  pub access : ℕ
  pub granularity : ℕ
  pub base_high : ℕ

pub record GdtPtr : Type 0 where
  pub limit : ℕ
  pub base : ℕ

-- The array `gdt` by its index, and `gp`.
pub record Gdt : Type 0 where
  pub entries : ℕ → GdtEntry
  pub gp : GdtPtr

-- `base` and `limit` are 32-bit words, `access` and `gran` bytes.
unfoldable pub gdt_set_gate : ℕ → ℕ → ℕ → ℕ → ℕ → Gdt → Gdt
gdt_set_gate num base limit access gran t =
    let granularity = bit_and (limit / 2 ^ 16) 0x0f in
    let entry : GdtEntry = record {
      limit_low = bit_and limit 0xffff;
      base_low = bit_and base 0xffff;
      base_middle = bit_and (base / 2 ^ 16) 0xff;
      access = access;
      granularity = bit_or granularity (bit_and gran 0xf0);
      base_high = bit_and (base / 2 ^ 24) 0xff;
    } in
    record t { entries = λ j. if num == j then entry else t.entries j }

-- `sizeof(struct gdt_entry)`
abbrev gdt_entry_size : ℕ
gdt_entry_size = 8

-- `table` is the address of the array.
unfoldable pub gdt_install : ℕ → Gdt → Gdt
gdt_install table t =
    let t = record t { gp = record { limit = gdt_entry_size * 3 - 1; base = table } } in
    let t = gdt_set_gate 0 0 0 0 0 t in
    let t = gdt_set_gate 1 0 0xffff_ffff 0x9a 0xcf t in gdt_set_gate 2 0 0xffff_ffff 0x92 0xcf t
