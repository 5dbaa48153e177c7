-- ===== src/Elixir/FreshBitmap.antt =====
-- `elixir_read_bitmap` after `elixir_format`.
use binbows_dos.Common.{ℕ, ◌+◌, ◌≡◌, Option, some, List}
use binbows_dos.Memory.{load32}
use binbows_dos.Alloc.{State}
use binbows_dos.Alloc.FirstFit.{Below}
use binbows_dos.Alloc.Span.{Span}
use binbows_dos.Ide.Ata.{Ata}
use binbows_dos.Elixir.Disk.{failure}
use binbows_dos.Elixir.Format.{format_space}
use binbows_dos.Elixir.ReadBitmap.{read_space}

-- The two calls one after the other. The format fails, or the read does, each for want of a free
-- block with room; or both return 0, and the structure behind the pointer at `bb_out` counts all
-- sectors as free.
pub data Fresh (size bb_out : ℕ) (xs : List Span) {D : Type 0} (format : Option (ℕ × State × D))
    (read : State → D → Option (ℕ × State × D)) : Type 0 where
  format_failed :
      (s' : State) (d' : D)
      → format ≡ some (failure, s', d')
      → Below (format_space size) xs
      → Fresh size bb_out xs format read
  read_failed :
      (s' s'' : State) (d' d'' : D)
      → format ≡ some (0, s', d')
      → read s' d' ≡ some (failure, s'', d'')
      → Below (read_space size) xs
      → Fresh size bb_out xs format read
  all_free :
      (bb : ℕ) (s' s'' : State) (d' d'' : D)
      → format ≡ some (0, s', d')
      → read s' d' ≡ some (0, s'', d'')
      → load32 s''.mem bb_out ≡ bb
      → load32 s''.mem (bb + 8) ≡ size
      → load32 s''.mem (bb + 4) ≡ 0
      → load32 s''.mem bb ≡ size
      → Fresh size bb_out xs format read
