-- ===== src/Alloc.antt =====
-- The allocator of src/mem.c: a free list, sorted by address, whose headers (`free_list_block`:
-- `size`, then `next`) stand in the memory that the list manages. Arithmetic on `size_t` and on
-- pointers wraps at 2 ^ 32 (-m32). A `while` loop runs on fuel, one unit for each round.
-- The messages that the functions print are left out.
pub mod Align
pub mod Span
pub mod Chain
pub mod FirstFit
pub mod Take
pub mod Search
pub mod Kmalloc
pub mod Place
pub mod Merge
pub mod Link
pub mod Insert
pub mod Kfree
pub mod Payload
pub mod Release
pub mod Bytes
pub mod Pair
pub mod Room
pub mod Region
mod Tests
use binbows_dos.Common.{
  ℕ, zero, suc, ◌+◌, ◌-◌, ◌*◌, ◌/◌, ◌%◌, ◌^◌, bit_and, Bool, true, false, not, ◌||◌, ◌&&◌, Option,
  none, some, ◌>>=◌, ltb, leb, ◌==◌, if◌then◌else◌,
}
use binbows_dos.Memory.{Memory, load32, store32, memset_page}

abbrev pub min_alloc_size : ℕ
min_alloc_size = 16

abbrev pub align_size : ℕ
align_size = 8

-- sizeof(free_list_block)
abbrev pub header_size : ℕ
header_size = 8

-- The memory, `free_list_head` (0 is NULL) and the interrupt flag of EFLAGS.
pub record State : Type 0 where
  pub mem : Memory
  pub free_list_head : ℕ
  pub interrupts : Bool

-- A `free_list_block **`: the list's head, or the `next` field of the block at an address.
pub data Slot : Type 0 where
  head_slot : Slot
  next_slot : ℕ → Slot

abbrev pub size_at : State → ℕ → ℕ
size_at s block = load32 s.mem block

abbrev pub next_at : State → ℕ → ℕ
next_at s block = load32 s.mem (block + 4)

abbrev pub set_size : ℕ → ℕ → State → State
set_size block v s = record s { mem = store32 block v s.mem }

abbrev pub set_next : ℕ → ℕ → State → State
set_next block v s = record s { mem = store32 (block + 4) v s.mem }

-- `*cur`
abbrev pub get_slot : State → Slot → ℕ
get_slot s head_slot = s.free_list_head
get_slot s (next_slot block) = next_at s block

-- `*cur = v`
abbrev pub set_slot : Slot → ℕ → State → State
set_slot head_slot v s = record s { free_list_head = v }
set_slot (next_slot block) v s = set_next block v s

-- The flags that it returns hold the interrupt flag; `cli` clears it.
unfoldable pub save_and_cli : State → Bool × State
save_and_cli s = (s.interrupts, record s { interrupts = false })

unfoldable pub restore_flags : Bool → State → State
restore_flags flags s = if flags then record s { interrupts = true } else s

-- `~x` on 32 bits.
abbrev not32 : ℕ → ℕ
not32 x = 2 ^ 32 - 1 - x

unfoldable pub align_up : ℕ → ℕ → ℕ
align_up size alignment =
    bit_and (((size + alignment) % 2 ^ 32 + 2 ^ 32 - 1) % 2 ^ 32)
      (not32 ((alignment + 2 ^ 32 - 1) % 2 ^ 32))

-- The first byte behind the block, as `(uint8_t*)block + sizeof(free_list_block) + block->size`.
unfoldable pub block_end : State → ℕ → ℕ
block_end s block = (block + header_size + size_at s block) % 2 ^ 32

-- `while (*cur && *cur < block) cur = &(*cur)->next;`
unfoldable pub find_place : ℕ → State → Slot → ℕ → Option Slot
find_place zero s cur block = none
find_place (suc fuel) s cur block =
    let rest = find_place fuel s (next_slot (get_slot s cur)) block in
    if not (get_slot s cur == 0) && ltb (get_slot s cur) block then rest else some cur

-- Coalescing forward.
unfoldable pub merge_next : ℕ → State → State
merge_next block s =
    if not (next_at s block == 0) && block_end s block == next_at s block
    then (let s1 =
          set_size block ((size_at s block + header_size + size_at s (next_at s block)) % 2 ^ 32)
            s in
        set_next block (next_at s1 (next_at s1 block)) s1)
    else s

-- `while (prev && prev->next != block) prev = prev->next;`
unfoldable pub find_prev : ℕ → State → ℕ → ℕ → Option ℕ
find_prev zero s prev block = none
find_prev (suc fuel) s prev block =
    let rest = find_prev fuel s (next_at s prev) block in
    if not (prev == 0) && not (next_at s prev == block) then rest else some prev

-- Coalescing backward.
unfoldable pub merge_prev : ℕ → ℕ → State → State
merge_prev prev block s =
    if not (prev == 0) && block_end s prev == block
    then (let s1 = set_size prev ((size_at s prev + header_size + size_at s block) % 2 ^ 32) s in
        set_next prev (next_at s1 block) s1)
    else s

-- `if (cur != &free_list_head) { … }`
unfoldable pub merge_back : ℕ → Slot → ℕ → State → Option State
merge_back fuel head_slot block s = some s
merge_back fuel (next_slot _) block s = do
  prev ← find_prev fuel s s.free_list_head block
  some (merge_prev prev block s)

-- The block is linked in at `cur`, and coalesced on both sides.
unfoldable pub link_block : ℕ → Slot → ℕ → State → Option State
link_block fuel cur block s =
    merge_back fuel cur block
      (merge_next block (set_slot cur block (set_next block (get_slot s cur) s)))

unfoldable pub insert_free_block_sorted : ℕ → ℕ → State → Option State
insert_free_block_sorted fuel block s =
    if block == 0
    then some s
    else do cur ← find_place fuel s head_slot block; link_block fuel cur block s

unfoldable pub init_allocator_region : ℕ → ℕ → State → State
init_allocator_region region_base region_size s =
    let aligned_start = align_up region_base align_size in
    let offset = (aligned_start + 2 ^ 32 - region_base) % 2 ^ 32 in
    if leb region_size ((header_size + offset) % 2 ^ 32)
    then s
    else (let left = (region_size + 2 ^ 32 - offset) % 2 ^ 32 in
        let s1 = record s { free_list_head = aligned_start } in
        set_next aligned_start 0
          (set_size aligned_start ((left + 2 ^ 32 - header_size) % 2 ^ 32) s1))

-- The block is taken out of the list at `current`: split where the rest holds another block.
unfoldable pub take_block : Slot → ℕ → ℕ → State → State
take_block current block size s =
    if leb ((size + header_size + min_alloc_size) % 2 ^ 32) (size_at s block)
    then (let new_block = (block + header_size + size) % 2 ^ 32 in
        let left = (size_at s block + 2 ^ 32 + 2 ^ 32 - size - header_size) % 2 ^ 32 in
        let s1 = set_size new_block left s in
        let s2 = set_next new_block (next_at s1 block) s1 in
        set_size block size (set_slot current new_block s2))
    else set_slot current (next_at s block) s

-- The loop of `kmalloc`: the block that fits, or NULL, and the state in which it ends.
unfoldable pub search_loop : ℕ → Slot → ℕ → State → Option (ℕ × State)
search_loop zero current size s = none
search_loop (suc fuel) current size s =
    let block = get_slot s current in
    let rest = search_loop fuel (next_slot block) size s in
    if block == 0
    then some (0, s)
    else (if leb size (size_at s block)
        then some (block, take_block current block size s)
        else rest)

-- The size that `kmalloc` looks for.
unfoldable pub request : ℕ → ℕ
request size =
    let aligned = align_up size align_size in
    if ltb aligned min_alloc_size then min_alloc_size else aligned

-- What follows the loop: the flags are restored, and a block's payload is cleared.
unfoldable pub finish : Bool → ℕ → ℕ × State → ℕ × State
finish flags size (block, s) =
    if block == 0
    then (0, restore_flags flags s)
    else (let s1 = restore_flags flags s in
        let result = (block + header_size) % 2 ^ 32 in
        (result, record s1 { mem = memset_page result 0 size s1.mem }))

unfoldable pub kmalloc : ℕ → ℕ → State → Option (ℕ × State)
kmalloc fuel size s =
    if size == 0
    then some (0, s)
    else (if s.free_list_head == 0
        then some (0, s)
        else (let (flags, s1) = save_and_cli s in
            do
              found ← search_loop fuel head_slot (request size) s1
              some (finish flags (request size) found)))

unfoldable pub kfree : ℕ → ℕ → State → Option State
kfree fuel ptr s =
    if ptr == 0
    then some s
    else (let block = (ptr + 2 ^ 32 - header_size) % 2 ^ 32 in
        let (flags, s1) = save_and_cli s in
        do s2 ← insert_free_block_sorted fuel block s1; some (restore_flags flags s2))
