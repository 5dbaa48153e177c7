-- ===== src/Pic.antt =====
-- The interrupt controllers of src/interrupts/pic.c, on the bus of includes/commands.h.
pub mod Masks
mod Tests
use binbows_dos.Common.{ℕ, ◌-◌, ◌%◌, ◌^◌, bit_and, bit_or, ltb, leb, if◌then◌else◌}
use binbows_dos.Io.{Bus, out_byte}

abbrev pub pic1_command : ℕ
pic1_command = 0x20

abbrev pub pic1_data : ℕ
pic1_data = 0x21

abbrev pub pic2_command : ℕ
pic2_command = 0xa0

abbrev pub pic2_data : ℕ
pic2_data = 0xa1

abbrev pub pic_eoi : ℕ
pic_eoi = 0x20

unfoldable pub pic_send_eoi : (bus : Bus) → ℕ → bus.Device → bus.Device
pic_send_eoi bus irq d =
    let d = if leb 8 irq then out_byte bus pic2_command pic_eoi d else d in
    out_byte bus pic1_command pic_eoi d

-- `ICW1_INIT | ICW1_ICW4` is 0x11.
unfoldable pub pic_remap : (bus : Bus) → ℕ → ℕ → bus.Device → bus.Device
pic_remap bus offset1 offset2 d =
    let d = out_byte bus pic1_command (bit_or 0x10 0x01) d in
    let d = out_byte bus pic2_command (bit_or 0x10 0x01) d in
    let d = out_byte bus pic1_data offset1 d in
    let d = out_byte bus pic2_data offset2 d in
    let d = out_byte bus pic1_data 4 d in
    let d = out_byte bus pic2_data 2 d in
    let d = out_byte bus pic1_data 0x01 d in
    let d = out_byte bus pic2_data 0x01 d in
    let d = out_byte bus pic1_data 0 d in out_byte bus pic2_data 0 d

unfoldable pub pic_disable : (bus : Bus) → bus.Device → bus.Device
pic_disable bus d = out_byte bus pic2_data 0xff (out_byte bus pic1_data 0xff d)

-- The data port and the bit of an interrupt line.
abbrev line_port : ℕ → ℕ
line_port irq = if ltb irq 8 then pic1_data else pic2_data

abbrev line_bit : ℕ → ℕ
line_bit irq = if ltb irq 8 then irq else irq - 8

-- `inb(port) | (1 << IRQline)`, cut to a byte. `line` is a `uint8_t`.
unfoldable pub irq_set_mask : (bus : Bus) → ℕ → bus.Device → bus.Device
irq_set_mask bus line d =
    let (mask, d) = bus.read (line_port line) d in
    out_byte bus (line_port line) (bit_or mask (2 ^ line_bit line)) d

-- `inb(port) & ~(1 << IRQline)`, cut to a byte.
unfoldable pub irq_clear_mask : (bus : Bus) → ℕ → bus.Device → bus.Device
irq_clear_mask bus line d =
    let (mask, d) = bus.read (line_port line) d in
    out_byte bus (line_port line) (bit_and mask (0xffff_ffff - 2 ^ line_bit line)) d

unfoldable pub pic_enable_irq : (bus : Bus) → ℕ → bus.Device → bus.Device
pic_enable_irq bus irq d =
    let (mask, d) = bus.read (line_port irq) d in
    out_byte bus (line_port irq) (bit_and mask (0xffff_ffff - 2 ^ line_bit irq)) d
