-- ===== src/Malloclab/Explicit/Tests.antt =====
-- The theorems about malloclab-handout/src/mm.c at a concrete heap, and short tests.
use mathlib.Core.List.Memᴰ
use mathlib.Core.Path.{sym}
use sysprog2021s.Prelude.{
  ℕ, ◌+◌, ◌-◌, ◌^◌, ◌≤◌, ◌<◌, ◌≡◌, ◌⊎◌, inl, inr, refl, true, none, some, List, [], ◌∷◌, ◌==◌,
  if◌then◌else◌, arith,
}
use sysprog2021s.Malloclab.Memlib.{max_heap, mem_sbrk, mem_heapsize}
use sysprog2021s.Malloclab.Memlib.Areas.{IsHeap}
use sysprog2021s.Malloclab.Words.{Words, put}
use sysprog2021s.Malloclab.Blocks.{Block, stamp}
use sysprog2021s.Malloclab.Live.{free, full, live}
use sysprog2021s.Malloclab.Explicit.{
  Heap, allocate, mm_malloc, shrink, set_root, cut_out, mm_init, mm_free, mm_realloc, extend_heap,
  add_block, empty_list, place, divide, mark, coalesce, join_next, join_prev, join_both, cut_root,
  cut_inner, give_back, grow, resize, find_fit,
}
use sysprog2021s.Malloclab.Explicit.FreeList.{IsFreeList}
use sysprog2021s.Malloclab.Explicit.Hands.{IsFull}
use sysprog2021s.Malloclab.Explicit.Frees.{IsListedHeap, view, mm_free-IsListedHeap}
use sysprog2021s.Malloclab.Explicit.Init.{mm_init-IsListedHeap}
use sysprog2021s.Malloclab.Explicit.Malloc.{IsServed, mm_malloc-IsServed, mm_malloc-apart}
use sysprog2021s.Malloclab.Explicit.Moves.{IsResized}
use sysprog2021s.Malloclab.Explicit.Realloc.{mm_realloc-IsResized}
use sysprog2021s.Malloclab.Explicit.Unlink.{remove, cut_out-IsFreeList}

-- The free blocks 4200, of 16 bytes, and 4400, of 64 bytes; the prologue is at 4104.
abbrev words : Words
words =
    put 4200 4400
      (put 4400 4104 (put 4404 4200 (put 4108 4400 (put 4196 16 (put 4396 64 (λ p. 0))))))

abbrev heap : Heap
heap = record {
  memory = record { start_brk = 4096; brk = 4600; max_addr = 4096 + max_heap };
  word = words;
  prol_bp = 4104;
  root_bp = 4200;
}

heap-IsFreeList : IsFreeList heap (4200 ∷ 4400 ∷ [])
unfolding put
heap-IsFreeList = record { linked = omega arith; apart = omega arith }

cut_out-IsFreeList_example : IsFreeList (cut_out 4400 heap) (remove 4400 (4200 ∷ 4400 ∷ []))
cut_out-IsFreeList_example =
    cut_out-IsFreeList heap (4200 ∷ 4400 ∷ []) 4400 heap-IsFreeList (Memᴰ.tail (Memᴰ.head refl))

abbrev empty : Heap
empty = record {
  memory = record { start_brk = 4096; brk = 4096; max_addr = 4096 + max_heap };
  word = λ p. 0;
  prol_bp = 0;
  root_bp = 0;
}

empty-IsHeap : IsHeap empty.memory
empty-IsHeap = record {
  begins = omega arith;
  above = omega arith;
  below = omega arith;
  extent = refl;
  low = omega arith;
}

mm_init-IsListedHeap_example :
    let (ok, h') = mm_init empty in (ok ≡ true) × IsListedHeap h' (full 16 ∷ free 4096 ∷ [])
mm_init-IsListedHeap_example = mm_init-IsListedHeap empty empty-IsHeap refl refl

-- The prologue, live blocks of 16 bytes at 4120 and of 24 bytes at 4136, and a free one at 4160.
abbrev blocks : List Block
blocks = full 16 ∷ full 16 ∷ full 24 ∷ free 64 ∷ []

abbrev tagged : Words
tagged =
    stamp (stamp (stamp (stamp (put 4220 1 (λ p. 0)) 4100 (full 16)) 4116 (full 16)) 4132 (full 24))
      4156 (free 64)

abbrev busy : Heap
busy = record {
  memory = record { start_brk = 4096; brk = 4224; max_addr = 4096 + max_heap };
  word = put 4160 4104 (put 4164 0 (put 4108 4160 tagged));
  prol_bp = 4104;
  root_bp = 4160;
}

busy-IsFull : IsFull busy blocks (4160 ∷ [])
unfolding stamp put
busy-IsFull = record {
  state = record {
    tiled = record {
      memory = record {
        begins = omega arith;
        above = omega arith;
        below = omega arith;
        extent = refl;
        low = omega arith;
      };
      prologue = refl;
      aligned = refl;
      sized = omega arith;
      tiles = omega arith;
      epilogue = refl;
      roomy = omega arith;
      anchor = inl (refl, refl);
    };
    list = record { linked = omega arith; apart = omega arith };
    sound = λ x i. elim (Memᴰ.cases_cons i) [
      | inl e ↦ inr (inr (inr (inl (sym e, refl))))
      | inr none_left ↦ elim none_left [ ]
    ];
  };
  listed = λ x i. Memᴰ.head (ground (arith, i));
}

live_at_4136 : view busy blocks 4136 ≡ some 24
unfolding live
live_at_4136 = refl

mm_free-IsListedHeap_example :
    (bs' : List Block) × (IsListedHeap (mm_free 4136 busy) bs'
      × ((a : ℕ)
          → view (mm_free 4136 busy) bs' a ≡ (if a == 4136 then none else view busy blocks a)))
mm_free-IsListedHeap_example =
    mm_free-IsListedHeap busy blocks 4136 24 (4160 ∷ [], busy-IsFull) live_at_4136 (omega arith)

mm_malloc-IsServed_example :
    (r : ℕ × Heap) × ((mm_malloc 40 busy ≡ some r)
      × (48 ≤ 48)
      × (48 < 56)
      × IsServed busy blocks 48 r)
mm_malloc-IsServed_example =
    mm_malloc-IsServed busy blocks 40 (4160 ∷ [], busy-IsFull) (omega arith) (omega arith)

served : mm_malloc 40 busy ≡ some (4160, place 4160 48 busy)
unfolding mm_malloc find_fit stamp put mem_heapsize allocate
served = refl

mm_malloc-apart_example :
    (4096 + 8 ≤ 4160)
    × (4160 + 40 + 4 ≤ (place 4160 48 busy).memory.brk - 4)
    × ((4136 - 4 + 24 ≤ 4160 - 4) ⊎ (4160 + 40 + 4 ≤ 4136 - 4))
mm_malloc-apart_example =
    mm_malloc-apart busy (place 4160 48 busy) blocks 40 4160 4136 24 (4160 ∷ [], busy-IsFull)
      (omega arith) (omega arith) served (omega arith) live_at_4136

mm_realloc-IsResized_example :
    (bsize : ℕ) × (r : ℕ × Heap) × ((mm_realloc 4136 50 busy ≡ some r)
      × (58 ≤ bsize)
      × (((r.0 ≡ 0) × (r.1 ≡ busy)) ⊎ IsResized busy blocks bsize 4136 r.0 r.1))
mm_realloc-IsResized_example =
    mm_realloc-IsResized busy blocks 4136 50 24 (4160 ∷ [], busy-IsFull) live_at_4136 (omega arith)
      (omega arith) (omega arith)

-- Within 32 of 2^32 the test for a smaller block wraps: the block of 24 bytes is said to have nearly
-- 2^32 now.
wraps : mm_realloc 4136 (2 ^ 32 - 24) busy ≡ some (4136, shrink 4136 24 (2 ^ 32 - 16) busy)
unfolding mm_realloc resize stamp put
wraps = refl

-- After `mm_init`, the first block of 40 bytes is at the start of the area of 4096 bytes, and the
-- rest of the area is the root.
first_place : let (fit, h) = allocate 48 4120 (mm_init empty).1 in (fit ≡ 4120) × (h.root_bp ≡ 4168)
unfolding allocate mm_init mem_sbrk extend_heap add_block empty_list place divide mark coalesce
    join_next join_prev join_both cut_out cut_root cut_inner set_root put
first_place = (refl, refl)

abbrev placed : Heap
placed = (allocate 48 4120 (mm_init empty).1).1

-- It then grows in place to 100 bytes, into the free block behind it.
grows_in_place : mm_realloc 4120 100 placed ≡ some (4120, grow 4120 4096 112 placed)
unfolding mm_realloc resize allocate mm_init mem_sbrk extend_heap add_block empty_list place divide
    mark coalesce join_next join_prev join_both cut_out cut_root cut_inner set_root put
grows_in_place = refl

-- Freed, it is one block with the rest again.
joins_again :
    let h = grow 4120 4096 112 placed in (h.root_bp ≡ 4232) × ((mm_free 4120 h).root_bp ≡ 4120)
unfolding allocate mm_init mem_sbrk extend_heap add_block empty_list place divide mark coalesce
    join_next join_prev join_both cut_out cut_root cut_inner set_root put grow mm_free give_back
joins_again = (refl, refl)
