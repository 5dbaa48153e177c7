-- ===== src/Lib.antt =====
-- Binbows DOS: a 32-bit kernel in C (built with -m32), of which this library models the parts
-- below.
--
-- `kmain` (src/main.c) sets up the descriptor tables and the interrupts, gives the allocator one
-- region of memory, probes the disks, and formats and mounts the Elixir file system. All parts put
-- their messages on the VGA console; the drivers and the interrupt code act on I/O ports; the file
-- system takes its structures from the allocator.
--
-- Common      names of the library passed on, Boolean tests, lists and options, `&` and `|` as
--             arithmetic (Common.Bits), `int` results (Common.Int), what holds of an optional result
--             (Common.Ensures).
-- Memory      src/mem.c: memset_page, memcpy, memset, memmove, memcmp, over memory as a function
--             from addresses to bytes. Fill, Copy, Compare: what each does. Words: 32-bit fields.
-- Alloc       src/mem.c: init_allocator_region, kmalloc, kfree and insert_free_block_sorted, with
--             the headers (includes/mem.h) in the memory itself. Span, Chain: the free list as a
--             list of spans, and its form in memory. FirstFit, Search, Take, Kmalloc: allocation.
--             Place, Merge, Link, Insert, Kfree: release and coalescing. Payload, Release, Pair,
--             Bytes, Room: what the users of a block may do. Region, Align: the rest.
-- Io          includes/commands.h: outb, as a log or on a bus whose devices are a parameter; insw
--             and outsw on that bus. Ports: its other port instructions. Mmio: the accesses to
--             memory-mapped registers.
-- Vga         src/vga.c: set_cursor, clear_screen, scroll_screen, put_char, print, printf and the
--             number routines. Screen, Cursor, Line: cells and cursor. Number: the digits.
--             Format, Printf: the text that a format renders to, and printf against it. Returns:
--             formats that are written item by item.
-- Gdt         src/gdt/gdt.c: gdt_set_gate, gdt_install.
-- Pic         src/interrupts/pic.c: PIC_sendEOI, PIC_remap, pic_disable, IRQ_set_mask,
--             IRQ_clear_mask, pic_enable_irq. Masks: the bits.
-- Idt         src/idt/idt.c: idt_set_gate, idt_install, irq_install (Gates); install_irq_handler,
--             irq_handler (Dispatch).
-- Exceptions  src/idt/exceptions.c: exceptions_install (Gates), fault_handler (Report).
-- Timer       src/interrupts/timer.c and includes/timer.h: on_irq0, timer_wait, init_timer (Wait).
-- Serial      src/serial.c: serial_read, serial_write, the printing routines and serial_init. Uart:
--             the interface of the transmitter. Text: what a format renders to. Printf: what is sent.
-- Ide         src/drivers/ide and includes/ide.h. The access to registers (ide_pio.c), ide_polling
--             and the transfers of sectors (ide_rw.c). Reg, Sr, Cmd: the constants. Probe: detection
--             (ide.c, ide_identify.c); Probe.Secondary: the drives of the second channel. Ata: the
--             interface of a drive. Command, Polling, Sector: the steps of a transfer. Read, Write,
--             Store, RoundTrip: whole transfers. ReadError: a read that the drive refuses. NextFree:
--             find_next_free_lba. Sample: a disk that follows the interface.
-- Elixir      src/fs/sb.c: create_super (Geometry: the layout of a drive; Small: drives
--             too small for one); src/fs/create_bitmap.c: create_bitmap, and the count of
--             elixir_read_bitmap (Bitmap). Disk: elixir_format and elixir_mount (src/fs/elixir.c),
--             elixir_write_bitmap, elixir_read_bitmap and create_file (src/fs/create_file.c), over
--             the allocator and the driver. Mount: elixir_mount on a drive of the interface.
--             Superblock, BitmapMemory, MakeBitmap, GiveBack, Format: elixir_format on such a drive.
--             Remount: a mount behind a format. CountMemory, ReadMemory, ReadBitmap: elixir_read_bitmap
--             on it. FreshBitmap: after a format. NewFile: create_file.
-- Kernel      src/main.c: kmain on the definitions of the parts above. Start: the set-up before the
--             drives are looked for. Diskless: the way to the loop on a board without drives. Idle:
--             interrupts in the loop.
--
-- Numbers are naturals. A fixed-width value keeps its wrap-around written out; an `int` that may be
-- negative is its bit pattern, or an integer for memcmp. A pointer is its address, NULL is 0.
--
-- The `while` loops of the allocator run on fuel, one unit for each round: `none` means that it ran
-- out. More fuel than the free list has blocks is enough. The loop that takes a number's digits has
-- fuel 33, more than the digits of a 32-bit number in any base from 2 on. All `for` loops are
-- recursions on the rounds left.
--
-- A wait for a device runs on fuel too, one unit for each read of its status. A device that follows
-- the interface Ide.Ata or Serial.Uart is busy for at most `latency` reads, and more fuel than this
-- is enough. The outer loop of ide_write_sectors_counted has fuel for its rounds: one for every 256
-- sectors, and one more for the test that ends it. `timer_wait_ms(1)` waits for no tick, so the
-- driver's calls of it are left out.
--
-- The interface Ide.Ata says what a drive does with registers and commands on an idle channel only,
-- as the ATA standard does: nothing is known of a command that comes while BSY or DRQ is set. A sector
-- is sound if it exists and can be read and written. The driver breaks the standard in two places.
-- Behind the last sector of a write it sends the command that empties the cache without a wait, so
-- writes are looked at on drives that are `Prompt`, which have taken over that sector by then. And
-- it identifies a drive a second time while the data of the first IDENTIFY are waiting, so nothing
-- is said here of the drives that ide_initialize finds behind the primary channel, and of kmain only
-- on a board without drives.
--
-- Messages that the allocator, the drivers, the file system and install_irq_handler print are left
-- out. The interrupt flag is a field of the allocator's state. `va_list` is a list of words and
-- strings. Parameters are the devices behind the ports, the addresses of the assembler stubs and of
-- the tables, the interrupts that come during a wait, and the drives that the disk driver has
-- found.
--
-- Not modelled: the barriers of includes/commands.h, which only order accesses; interrupts that
-- come while kmain sets up the drives. The arrays of the kernel are taken to lie apart from the
-- heap, though the linker script puts the kernel at the heap's address. The assembler files have no
-- C semantics.
pub mod Common
pub mod Memory
pub mod Alloc
pub mod Io
pub mod Vga
pub mod Gdt
pub mod Pic
pub mod Timer
pub mod Idt
pub mod Exceptions
pub mod Serial
pub mod Ide
pub mod Elixir
pub mod Kernel
