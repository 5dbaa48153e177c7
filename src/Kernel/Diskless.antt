-- ===== src/Kernel/Diskless.antt =====
-- `kmain` on a board without drives: both channels float.
use binbows_dos.Common.{ℕ, ◌<◌, ◌≡◌}
use binbows_dos.Io.{Bus}
use binbows_dos.Alloc.Span.{Span}
use binbows_dos.Ide.{Channels, reg_port}
use binbows_dos.Ide.Reg
use binbows_dos.Kernel.{Kernel}

-- The status of a channel that no drive is on reads as 0xff.
abbrev Floats : (bus : Bus) → Channels → Type 0
Floats bus channels =
    (c : ℕ) (d : bus.Device) → c < 2 → (bus.read (reg_port (channels c) Reg.status) d).0 ≡ 0xff
