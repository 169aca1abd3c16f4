-- ===== src/Malloclab/Implicit/Overflow.antt =====
-- Sizes near 2^32 in malloclab-handout/mm_implicit.c.
use mathlib.Core.Path.{subst, sym}
use sysprog2021s.Prelude.{
  ℕ, ◌+◌, ◌-◌, ◌≤◌, ◌<◌, ◌^◌, ◌≡◌, ◌≢◌, refl, ap, ◌∙◌, false, some, List, [], ◌∷◌, ◌==◌, arith,
}
use sysprog2021s.Malloclab.Memlib.{mem_heapsize}
use sysprog2021s.Malloclab.Words.{dsize, add_size, align}
use sysprog2021s.Malloclab.Blocks.{Block}
use sysprog2021s.Malloclab.Live
use sysprog2021s.Malloclab.Live.{
  live, first_fit, place_at, append_free, last_at, size_at, IsFitAt, AllLarge,
}
use sysprog2021s.Malloclab.Implicit.{Heap, find_fit, place, allocate, mm_malloc}
use sysprog2021s.Malloclab.Implicit.Blocks.{AreTiles-AllLarge, AreTiles-length, find_fit-first_fit}
use sysprog2021s.Malloclab.Implicit.Heaps.{IsHeapOf, view}
use sysprog2021s.Malloclab.Implicit.Grants.{place-IsHeapOf}
use sysprog2021s.Malloclab.Implicit.Malloc.{mm_malloc-allocate, allocate-place}

size_at-lt : (q p : ℕ) (bs : List Block) → size_at q 8 p bs < 24
unfolding size_at
size_at-lt q p [] = omega arith
size_at-lt q p (b ∷ bs) = ground (arith, size_at-lt q (p + b.size) bs)

-- A size of 2^32 - 7 or more wraps to a block of 8 bytes: where any free block exists, `mm_malloc`
-- returns an address that holds a live block of fewer than 24 bytes in the heap that results, which
-- is well formed.
pub mm_malloc-wrap :
    (h : Heap) (bs : List Block) (size : ℕ)
    → IsHeapOf h bs
    → 2 ^ 32 ≤ size + 7
    → size < 2 ^ 32
    → first_fit 8 (h.memory.start_brk + 4) bs ≢ 0
    → (ptr : ℕ) × (h' : Heap) × (bs' : List Block) × (s : ℕ) × ((mm_malloc size h ≡ some (ptr, h'))
        × (ptr ≢ 0)
        × IsHeapOf h' bs'
        × (view h' bs' ptr ≡ some s)
        × (s < 24))
unfolding mem_heapsize
mm_malloc-wrap h bs size v huge small n =
    let p : ℕ = h.memory.start_brk + 4 in
    let end : ℕ = h.memory.brk - 4 in
    let fit = first_fit 8 p bs in
    let eight : 8 ≡ add_size (align size) dsize = omega arith in
    let fits = Live.first_fit-IsFitAt 8 p bs n in
    let sizes = AreTiles-AllLarge h.word p end bs v.tiles in
    let walk : find_fit (mem_heapsize h.memory) 8 h.heap_listp h.word ≡ some fit =
      subst (λ q. find_fit (mem_heapsize h.memory) 8 q h.word ≡ some fit) (omega (arith, v.begins))
        (find_fit-first_fit (mem_heapsize h.memory) 8 h.word p end bs v.tiles v.epilogue
          (omega (arith, v.sized, AreTiles-length h.word p end bs v.tiles))) in
    let found =
      mm_malloc-allocate h size fit (omega arith) (
        subst (λ b. find_fit (mem_heapsize h.memory) b h.heap_listp h.word ≡ some fit) eight
          walk) in
    let done = subst (λ b. mm_malloc size h ≡ some (allocate b fit h)) (sym eight) found in
    let other : (fit == 0) ≡ false = ground (arith, n) in
    (
      fit,
      record h { word = place fit 8 h.word },
      place_at fit 8 p bs,
      size_at fit 8 p bs,
      (
        done ∙ ap some (allocate-place h 8 fit other),
        n,
        place-IsHeapOf h bs fit 8 v fits refl (omega arith),
        ground (arith, (Live.live-place_at fit fit 8 p bs sizes (omega arith) fits).1),
        size_at-lt fit p bs,
      ),
    )
