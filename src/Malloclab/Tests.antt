-- ===== src/Malloclab/Tests.antt =====
-- The theorems about memlib.c and the range list of mdriver.c at concrete heaps, and short tests.
use sysprog2021s.Prelude.{
  ◌+◌, ◌*◌, ◌-◌, ◌^◌, inl, inr, ◌≡◌, ◌≢◌, refl, ◌⊎◌, some, List, [], ◌∷◌, arith,
}
use sysprog2021s.Malloclab.Memlib.{Memory, max_heap, mem_init, mem_sbrk, mem_heap_lo, mem_heap_hi}
use sysprog2021s.Malloclab.Memlib.Areas.{
  IsHeap, IsArea, sbrk_all, AreAdjacent, sbrk_all-AreAdjacent,
}
use sysprog2021s.Malloclab.Ranges.{Range, accepted, overlapping, find_overlap, add_range}
use sysprog2021s.Malloclab.Ranges.Checks.{AllClear, IsBlock, add_range-IsBlock}
use sysprog2021s.Malloclab.Ranges.Runs.{
  AllSound, Event, extend, add, remove, handle_all, handle_all-AllSound,
}

-- A heap that begins at 4096 with 1024 bytes in use.
abbrev heap : Memory
heap = record { start_brk = 4096; brk = 5120; max_addr = 4096 + max_heap }

heap_initial : mem_init (some 4096) ≡ some (record heap { brk = 4096 })
unfolding mem_init
heap_initial = refl

heap-IsHeap : IsHeap heap
heap-IsHeap = record {
  begins = omega arith;
  above = omega arith;
  below = omega arith;
  extent = refl;
  low = omega arith;
}

-- A heap in the upper half of the address space, and a request that does not fit.
abbrev upper : Memory
upper = record { start_brk = 3 * 2 ^ 30; brk = 3 * 2 ^ 30 + 8; max_addr = 3 * 2 ^ 30 + max_heap }

upper-IsArea : IsArea upper
upper-IsArea = record {
  above = omega arith;
  below = omega arith;
  extent = refl;
  mapped = omega arith;
}

sbrk_all-AreAdjacent_example :
    let (areas, m') = sbrk_all (16 ∷ 2 ^ 31 ∷ 2 ^ 29 ∷ []) upper in
    IsArea m' × AreAdjacent (3 * 2 ^ 30 + 8) areas m'.brk
sbrk_all-AreAdjacent_example =
    sbrk_all-AreAdjacent (16 ∷ 2 ^ 31 ∷ 2 ^ 29 ∷ []) upper upper-IsArea
      (inr (omega arith), (inl (omega arith), (inr (omega arith), tt)))

sbrk_grants : (sbrk_all (16 ∷ 2 ^ 31 ∷ 4096 ∷ []) heap).0 ≡ (5120, 16) ∷ (5136, 4096) ∷ []
unfolding sbrk_all mem_sbrk
sbrk_grants = refl

abbrev block : Range
block = record { lo = 4112; hi = 4127 }

add_range-IsBlock_example :
    let (verdict, ranges') = add_range heap (block ∷ []) 4128 8 in
    let hi = 4128 + (8 - 1) in
    ((verdict ≡ accepted)
      × (ranges' ≡ record { lo = 4128; hi = hi } ∷ block ∷ [])
      × (IsBlock heap 4128 8 × AllClear 4128 hi (block ∷ [])))
    ⊎ ((verdict ≢ accepted)
        × (ranges' ≡ block ∷ [])
        × ¬ (IsBlock heap 4128 8 × AllClear 4128 hi (block ∷ [])))
add_range-IsBlock_example =
    add_range-IsBlock heap (block ∷ []) 4128 8 heap-IsHeap (omega arith) (omega arith) (omega arith)

add_range_rejects : (add_range heap (block ∷ []) 4120 64).0 ≡ overlapping block
unfolding add_range find_overlap mem_heap_lo mem_heap_hi
add_range_rejects = refl

abbrev events : List Event
events = add 4112 16 ∷ extend 64 ∷ add 5120 64 ∷ remove 4112 ∷ []

handle_all-AllSound_example :
    let (m', ranges') = handle_all events heap [] in IsHeap m' × AllSound m' ranges'
handle_all-AllSound_example = handle_all-AllSound events heap [] (ground arith) heap-IsHeap tt
