-- ===== src/Alloc/Bytes.antt =====
-- `kmalloc` leaves bytes in memory.
use binbows_dos.Common.{
  ℕ, zero, suc, ◌+◌, ◌%◌, ◌^◌, ◌≡◌, Bool, false, some, arith, leb, ◌==◌, Bool-cases, inl, inr,
}
use binbows_dos.Common.Ensures.{
  Ensures, Ensures-if, Ensures-none, Ensures-pure, Ensures-then, Ensures-some,
}
use binbows_dos.Memory.{Memory, IsBytes, store32, memset_page, memset}
use binbows_dos.Memory.Fill.{memset_lem, memset_page_lem}
use binbows_dos.Alloc.{
  State, Slot, head_slot, next_slot, get_slot, set_slot, take_block, search_loop, finish,
  save_and_cli, kmalloc, request, size_at,
}
use binbows_dos.Alloc.Kmalloc.{restore_flags_lem}

pub store32-IsBytes : (a v : ℕ) (m : Memory) → IsBytes m → IsBytes (store32 a v m)
unfolding store32
store32-IsBytes a v m h q = ground (arith, h q)

pub memset-IsBytes : (a v n : ℕ) (m : Memory) → IsBytes m → IsBytes (memset a v n m)
memset-IsBytes a v n m h q = ground (arith, h q, memset_lem a v n m q)

memset_page-IsBytes : (a v n : ℕ) (m : Memory) → IsBytes m → IsBytes (memset_page a v n m)
memset_page-IsBytes a v n m h q = ground (arith, h q, memset_page_lem a v n m q)

set_slot-IsBytes : (cur : Slot) (v : ℕ) (s : State) → IsBytes s.mem → IsBytes (set_slot cur v s).mem
set_slot-IsBytes head_slot v s h = h
set_slot-IsBytes (next_slot b) v s h = store32-IsBytes (b + 4) v s.mem h

take_block-IsBytes :
    (cur : Slot) (block size : ℕ) (s : State)
    → IsBytes s.mem
    → IsBytes (take_block cur block size s).mem
unfolding take_block
take_block-IsBytes cur block size s h =
    elim (Bool-cases (leb ((size + 8 + 16) % 2 ^ 32) (size_at s block))) [
      | inl e ↦ rw e (
          store32-IsBytes block _ _
            (set_slot-IsBytes cur _ _ (store32-IsBytes _ _ _ (store32-IsBytes _ _ _ h))))
      | inr e ↦ rw e (set_slot-IsBytes cur _ s h)
    ]

abbrev BytesLeft : ℕ × State → Type 0
BytesLeft (p, s) = IsBytes s.mem

search_loop-IsBytes :
    (fuel : ℕ) (cur : Slot) (size : ℕ) (s : State)
    → IsBytes s.mem
    → Ensures BytesLeft (search_loop fuel cur size s)
unfolding search_loop
search_loop-IsBytes zero cur size s h = Ensures-none BytesLeft
search_loop-IsBytes (suc fuel) cur size s h =
    Ensures-if BytesLeft (get_slot s cur == 0) _ _ (Ensures-pure BytesLeft (0, s) h) (
      Ensures-if BytesLeft (leb size (size_at s (get_slot s cur))) _ _
        (Ensures-pure BytesLeft _ (take_block-IsBytes cur (get_slot s cur) size s h))
        (search_loop-IsBytes fuel (next_slot (get_slot s cur)) size s h))

finish-IsBytes :
    (flags : Bool) (size : ℕ) (found : ℕ × State)
    → BytesLeft found
    → BytesLeft (finish flags size found)
unfolding finish
finish-IsBytes flags size (block, s) h =
    let same = (restore_flags_lem flags s).0 in
    elim (Bool-cases (block == 0)) [
      | inl e ↦ rw e (rw same h)
      | inr e ↦ rw e (memset_page-IsBytes _ 0 size _ (rw same h))
    ]

pub kmalloc-IsBytes :
    (fuel size p : ℕ) (s s1 : State)
    → kmalloc fuel size s ≡ some (p, s1)
    → IsBytes s.mem
    → IsBytes s1.mem
unfolding kmalloc save_and_cli
kmalloc-IsBytes fuel size p s s1 e h =
    Ensures-some BytesLeft _ (p, s1) e
      (Ensures-if BytesLeft (size == 0) _ _ (Ensures-pure BytesLeft (0, s) h) (
        Ensures-if BytesLeft (s.free_list_head == 0) _ _ (Ensures-pure BytesLeft (0, s) h) (
          Ensures-then BytesLeft BytesLeft _ _
            (search_loop-IsBytes fuel head_slot (request size) (record s { interrupts = false }) h)
            (λ found b.
              Ensures-pure BytesLeft _ (finish-IsBytes s.interrupts (request size) found b)))))
