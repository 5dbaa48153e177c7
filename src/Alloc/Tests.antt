-- ===== src/Alloc/Tests.antt =====
-- Runs of the allocator on a small region, and the theorems at that region.
use binbows_dos.Common.{
  ℕ, ◌%◌, ◌≤◌, ◌≡◌, refl, true, Option, none, some, [], ◌∷◌, List, arith, ◌>>=◌,
}
use binbows_dos.Memory.{load32, store32, memset_page}
use binbows_dos.Memory.Words.{load32-store32}
use binbows_dos.Alloc.{
  State, init_allocator_region, kmalloc, kfree, align_up, request, save_and_cli, restore_flags,
  search_loop, take_block, finish, insert_free_block_sorted, find_place, find_prev, link_block,
  merge_next, merge_prev, merge_back, block_end,
}
use binbows_dos.Alloc.Align.{request_bounds, request_wraps}
use binbows_dos.Alloc.Span.{Span}
use binbows_dos.Alloc.Kmalloc.{Holds, Allocated, kmalloc-Allocated}
use binbows_dos.Alloc.Kfree.{Live, Freed, kfree-Freed, kfree-kmalloc}
use binbows_dos.Alloc.Region.{init-Holds}

abbrev blank : State
blank = record { mem = λ q. 0xff; free_list_head = 0; interrupts = true }

-- 128 bytes from 0x1001 on.
abbrev start : State
start = init_allocator_region 0x1001 128 blank

abbrev start_spans : List Span
start_spans = (0x1008, 113) ∷ []

-- Two blocks are taken, and the first is freed and taken again.
scenario : Option (ℕ × ℕ × ℕ × ℕ)
unfolding kmalloc kfree align_up request save_and_cli restore_flags search_loop take_block finish
    insert_free_block_sorted find_place find_prev link_block merge_next merge_prev merge_back
    block_end init_allocator_region load32 store32 memset_page
scenario = do
  (p, s) ← kmalloc 9 10 start
  (q, s) ← kmalloc 9 20 s
  s ← kfree 9 p s
  (r, s) ← kmalloc 9 16 s
  s ← kfree 9 q s
  s ← kfree 9 r s
  some (p, q, r, load32 s.mem s.free_list_head)

scenario_runs : scenario ≡ some (0x1010, 0x1028, 0x1010, 113)
unfolding scenario
scenario_runs = refl

init-Holds_example : Holds 0x1001 0x1081 start_spans start
init-Holds_example =
    init-Holds 0x1001 128 blank (omega arith) (omega arith) (omega arith) (omega arith)

start-Holds : Holds 0x1001 0x1081 start_spans start
start-Holds = init-Holds 0x1001 128 blank (omega arith) (omega arith) (omega arith) (omega arith)

kmalloc-Allocated_example : Allocated 0x1001 0x1081 10 start_spans start (kmalloc 2 10 start)
kmalloc-Allocated_example =
    kmalloc-Allocated 0x1001 0x1081 10 start_spans start 2 start-Holds (omega arith) (omega arith)

-- The state after `kmalloc(10)`.
granted_state : State
unfolding scenario
granted_state = elim (kmalloc 2 10 start) [ some (p, s) ↦ s | none ↦ start ]

granted_run : kmalloc 2 10 start ≡ some (0x1010, granted_state)
unfolding granted_state
granted_run = refl

granted_ne : ¬ (◌≡◌ {A = ℕ} 0x1010 0)
granted_ne = omega arith

kfree-kmalloc_example :
    (s2 : State) × (kfree 2 0x1010 granted_state ≡ some s2)
    × Holds 0x1001 0x1081 start_spans s2
    × (s2.interrupts ≡ start.interrupts)
kfree-kmalloc_example =
    kfree-kmalloc 0x1001 0x1081 10 0x1010 2 start_spans start granted_state start-Holds
      (omega arith) (omega arith) granted_run granted_ne

-- One block of 32 bytes is in use and nothing is free.
abbrev full : State
full = record { mem = store32 0x2000 32 (λ q. 0); free_list_head = 0; interrupts = true }

full-Holds : Holds 0x1000 0x3000 [] full
full-Holds = record {
  low = omega arith;
  high = omega arith;
  spaced = tt;
  chain = refl;
  aligned = tt;
}

full-Live : Live 0x1000 0x3000 [] full (0x2000, 32)
full-Live = record {
  low = omega arith;
  high = omega arith;
  aligned = refl;
  apart = tt;
  held = load32-store32 0x2000 32 (λ q. 0) (omega arith);
}

kfree-Freed_example :
    (s' : State) × (kfree 1 0x2008 full ≡ some s') × Freed 0x1000 0x3000 [] full (0x2000, 32) s'
kfree-Freed_example =
    kfree-Freed 0x1000 0x3000 0x2000 32 1 [] full full-Holds full-Live (omega arith)

request_bounds_example :
    (21 ≤ request 21)
    × (16 ≤ request 21)
    × (request 21 % 8 ≡ 0)
    × ((n : ℕ) → 21 ≤ n → 16 ≤ n → n % 8 ≡ 0 → request 21 ≤ n)
request_bounds_example = request_bounds 21 (omega arith)

request_wraps_example : request 0xffff_ffff ≡ 16
request_wraps_example = request_wraps 0xffff_ffff (omega arith) (omega arith)
