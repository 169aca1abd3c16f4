-- ===== src/Malloclab/Implicit/Tests.antt =====
-- The theorems about mm_implicit.c at concrete heaps, and short tests.
use sysprog2021s.Prelude.{
  ℕ, ◌+◌, ◌-◌, ◌^◌, ◌≤◌, ◌<◌, ◌≡◌, ◌≢◌, refl, ◌⊎◌, true, none, some, List, [], ◌∷◌, ◌==◌,
  if◌then◌else◌, arith,
}
use sysprog2021s.Malloclab.Memlib.{max_heap}
use sysprog2021s.Malloclab.Memlib.Areas.{IsHeap}
use sysprog2021s.Malloclab.Words.{Words, put}
use sysprog2021s.Malloclab.Blocks.{Block, stamp}
use sysprog2021s.Malloclab.Live.{free, full, live, first_fit}
use sysprog2021s.Malloclab.Implicit.{Heap, mm_init, mm_malloc, mm_free, mm_realloc}
use sysprog2021s.Malloclab.Implicit.Heaps.{IsHeapOf, view, mm_free-IsHeapOf}
use sysprog2021s.Malloclab.Implicit.Init.{mm_init-IsHeapOf}
use sysprog2021s.Malloclab.Implicit.Malloc.{IsAllocated, mm_malloc-IsAllocated}
use sysprog2021s.Malloclab.Implicit.Overflow.{mm_malloc-wrap}
use sysprog2021s.Malloclab.Implicit.Realloc.{IsMoved, mm_realloc-IsMoved}

abbrev empty : Heap
empty = record {
  memory = record { start_brk = 4096; brk = 4096; max_addr = 4096 + max_heap };
  word = λ p. 0;
  heap_listp = 0;
}

empty-IsHeap : IsHeap empty.memory
empty-IsHeap = record {
  begins = omega arith;
  above = omega arith;
  below = omega arith;
  extent = refl;
  low = omega arith;
}

mm_init-IsHeapOf_example :
    let (ok, h') = mm_init empty in (ok ≡ true) × IsHeapOf h' (full 8 ∷ free 4096 ∷ [])
mm_init-IsHeapOf_example = mm_init-IsHeapOf empty empty-IsHeap refl refl

-- The prologue, a live block of 16 bytes at 4112, one of 24 bytes at 4128, and a free one.
abbrev blocks : List Block
blocks = full 8 ∷ full 16 ∷ full 24 ∷ free 64 ∷ []

abbrev words : Words
words =
    stamp (stamp (stamp (stamp (put 4212 1 (λ p. 0)) 4100 (full 8)) 4108 (full 16)) 4124 (full 24))
      4148 (free 64)

abbrev heap : Heap
heap = record {
  memory = record { start_brk = 4096; brk = 4216; max_addr = 4096 + max_heap };
  word = words;
  heap_listp = 4104;
}

heap-IsHeapOf : IsHeapOf heap blocks
unfolding stamp put
heap-IsHeapOf = record {
  memory = record {
    begins = omega arith;
    above = omega arith;
    below = omega arith;
    extent = refl;
    low = omega arith;
  };
  begins = refl;
  aligned = refl;
  sized = omega arith;
  tiles = omega arith;
  epilogue = refl;
}

live_at_4112 : view heap blocks 4112 ≡ some 16
unfolding live
live_at_4112 = refl

live_at_4128 : view heap blocks 4128 ≡ some 24
unfolding live
live_at_4128 = refl

fits : first_fit 8 4100 blocks ≢ 0
unfolding first_fit
fits = omega arith

mm_free-IsHeapOf_example :
    (bs' : List Block) × (IsHeapOf (mm_free 4112 heap) bs'
      × ((a : ℕ)
          → view (mm_free 4112 heap) bs' a ≡ (if a == 4112 then none else view heap blocks a)))
mm_free-IsHeapOf_example =
    mm_free-IsHeapOf heap blocks 4112 16 heap-IsHeapOf live_at_4112 (omega arith)

mm_malloc-IsAllocated_example :
    (r : ℕ × Heap) × ((mm_malloc 20 heap ≡ some r)
      × (28 ≤ 32)
      × (32 < 36)
      × IsAllocated heap blocks 32 r)
mm_malloc-IsAllocated_example =
    mm_malloc-IsAllocated heap blocks 20 heap-IsHeapOf (omega arith) (omega arith)

mm_malloc-wrap_example :
    (ptr : ℕ) × (h' : Heap) × (bs' : List Block) × (s : ℕ) × ((mm_malloc (2 ^ 32 - 1) heap
        ≡ some (ptr, h'))
      × (ptr ≢ 0)
      × IsHeapOf h' bs'
      × (view h' bs' ptr ≡ some s)
      × (s < 24))
mm_malloc-wrap_example =
    mm_malloc-wrap heap blocks (2 ^ 32 - 1) heap-IsHeapOf (omega arith) (omega arith) fits

mm_realloc-IsMoved_example :
    (bsize : ℕ) × (r : ℕ × Heap) × ((mm_realloc 4112 100 heap ≡ some r)
      × (100 + 8 ≤ bsize)
      × (((r.0 ≡ 0) × (r.1 ≡ heap)) ⊎ IsMoved heap blocks bsize 4112 r.0 r.1))
mm_realloc-IsMoved_example =
    mm_realloc-IsMoved heap blocks 4112 100 16 heap-IsHeapOf live_at_4112 (omega arith)
      (omega arith) (omega arith)
