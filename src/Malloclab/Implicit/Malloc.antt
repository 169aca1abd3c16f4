-- ===== src/Malloclab/Implicit/Malloc.antt =====
-- `mm_malloc` of malloclab-handout/mm_implicit.c as the insertion into a map of live blocks.
use mathlib.Core.Path.{subst, sym}
use sysprog2021s.Prelude.{
  ℕ, ◌+◌, ◌-◌, ◌*◌, ◌/◌, ◌%◌, ◌≤◌, ◌<◌, ◌^◌, ◌≡◌, ◌≢◌, refl, ap, ◌∙◌, true, false, not, none, some,
  List, [], ◌∷◌, ◌==◌, if◌then◌else◌, ◌⊎◌, inl, inr, arith, Bool-cases,
}
use sysprog2021s.Prelude.Fallible.{◌>>=◌}
use sysprog2021s.Malloclab.Memlib.{mem_sbrk, mem_heapsize}
use sysprog2021s.Malloclab.Words.{dsize, wsize, chunksize, add_size, align, max}
use sysprog2021s.Malloclab.Blocks.{Block}
use sysprog2021s.Malloclab.Live
use sysprog2021s.Malloclab.Live.{
  live, first_fit, place_at, append_free, last_at, size_at, IsFitAt, AllLarge,
}
use sysprog2021s.Malloclab.Implicit.{
  Heap, extend_heap, find_fit, place, place_in, allocate, mm_malloc,
}
use sysprog2021s.Malloclab.Implicit.Blocks.{AreTiles-length, find_fit-first_fit}
use sysprog2021s.Malloclab.Implicit.Heaps.{IsHeapOf, IsExtended, extend_heap-IsExtended}
use sysprog2021s.Malloclab.Implicit.Grants.{IsGranted, place-IsGranted, extended-IsGranted}

-- What `allocate` makes of the result of the search.
abbrev pub IsAllocated : Heap → List Block → ℕ → ℕ × Heap → Type 0
IsAllocated h bs bsize (ptr, h') =
    ((ptr ≡ 0)
      × (h' ≡ h)
      × (first_fit bsize (h.memory.start_brk + 4) bs ≡ 0)
      × ((mem_sbrk (max bsize chunksize) h.memory).0 ≡ none))
    ⊎ IsGranted h bs bsize ptr h'

last_at-le : (p : ℕ) (bs : List Block) → p + 4 ≤ last_at p bs
unfolding last_at
last_at-le p [] = omega arith
last_at-le p (a ∷ []) = omega arith
last_at-le p (a ∷ b ∷ bs) = omega (arith, last_at-le (p + a.size) (b ∷ bs))

place_in-IsAllocated :
    (h : Heap) (bs : List Block) (bsize : ℕ) (r : ℕ × Heap)
    → first_fit bsize (h.memory.start_brk + 4) bs ≡ 0
    → bsize % 8 ≡ 0
    → 8 ≤ bsize
    → IsExtended (max bsize chunksize) h bs r
    → IsAllocated h bs bsize (place_in bsize r)
unfolding place_in
place_in-IsAllocated h bs bsize (bp, h') no_fit aligned large (inl (refused, null, same)) =
    let test : (bp == 0) ≡ true = ground arith in rw test (inl (refl, same, no_fit, refused))
place_in-IsAllocated h bs bsize (bp, h') no_fit aligned large (inr (v, at, start)) =
    let test : (bp == 0) ≡ false = ground (arith, last_at-le (h.memory.start_brk + 4) bs) in
    let fits : bsize ≤ max bsize chunksize = ground arith in
    rw test (
      inr (extended-IsGranted h h' bs (max bsize chunksize) bp bsize v at start aligned large fits))

allocate-extend :
    (h : Heap) (bsize fit : ℕ)
    → (fit == 0) ≡ true
    → allocate bsize fit h ≡ place_in bsize (extend_heap (max bsize chunksize / 4) h)
unfolding allocate
allocate-extend h bsize fit e =
    ap
      (λ b.
        if not b
        then (fit, record h { word = place fit bsize h.word })
        else place_in bsize (extend_heap (max bsize chunksize / wsize) h))
      e

pub allocate-place :
    (h : Heap) (bsize fit : ℕ)
    → (fit == 0) ≡ false
    → allocate bsize fit h ≡ (fit, record h { word = place fit bsize h.word })
unfolding allocate
allocate-place h bsize fit e =
    ap
      (λ b.
        if not b
        then (fit, record h { word = place fit bsize h.word })
        else place_in bsize (extend_heap (max bsize chunksize / wsize) h))
      e

pub mm_malloc-allocate :
    (h : Heap) (size fit : ℕ)
    → size ≢ 0
    → find_fit (mem_heapsize h.memory) (add_size (align size) dsize) h.heap_listp h.word ≡ some fit
    → mm_malloc size h ≡ some (allocate (add_size (align size) dsize) fit h)
unfolding mm_malloc
mm_malloc-allocate h size fit n walk =
    let some_size : (size == 0) ≡ false = ground arith in
    let bsize : ℕ = add_size (align size) dsize in
    let search = find_fit (mem_heapsize h.memory) bsize h.heap_listp h.word in
    ap (λ b. if b then some (0, h) else search >>= (λ fit. some (allocate bsize fit h))) some_size
    ∙ ap (λ o. o >>= (λ fit. some (allocate bsize fit h))) walk

allocate-IsAllocated :
    (h : Heap) (bs : List Block) (bsize : ℕ)
    → IsHeapOf h bs
    → bsize % 8 ≡ 0
    → 8 ≤ bsize
    → bsize < 2 ^ 32
    → IsAllocated h bs bsize (allocate bsize (first_fit bsize (h.memory.start_brk + 4) bs) h)
unfolding allocate
allocate-IsAllocated h bs bsize v aligned large small =
    let p : ℕ = h.memory.start_brk + 4 in
    let fit = first_fit bsize p bs in
    elim (Bool-cases (fit == 0)) [
      | inl none_fits ↦
          let words : ℕ = max bsize chunksize / 4 in
          let bytes : words * 4 ≡ max bsize chunksize = ground arith in
          let extended : IsExtended (max bsize chunksize) h bs (extend_heap words h) =
            subst (λ n. IsExtended n h bs (extend_heap words h)) bytes
              (extend_heap-IsExtended words h bs v (ground arith) (ground arith) (ground arith)) in
          subst (λ r. IsAllocated h bs bsize r) (sym (allocate-extend h bsize fit none_fits))
            (place_in-IsAllocated h bs bsize (extend_heap words h) (ground arith) aligned large
              extended)
      | inr fits ↦
          subst (λ r. IsAllocated h bs bsize r) (sym (allocate-place h bsize fit fits))
            (inr (
              place-IsGranted h bs fit bsize v
                (Live.first_fit-IsFitAt bsize p bs (λ e. absurd (ground (arith, e)))) aligned
                large))
    ]

-- On a well-formed heap, `mm_malloc` of a size that is not 0 and at least 16 below 2^32 ends. The
-- block wanted has `bsize` bytes, the size and 8 bytes for header and footer, rounded up to a
-- multiple of 8. It returns NULL and changes nothing, only where no free block has `bsize` bytes and
-- `mem_sbrk` refuses the larger of `bsize` and 4096; or it returns an aligned address that held no live block, and now holds one
-- of at least `bsize` bytes, while no other entry of the map changes.
pub mm_malloc-IsAllocated :
    (h : Heap) (bs : List Block) (size : ℕ)
    → IsHeapOf h bs
    → size ≢ 0
    → size + 16 < 2 ^ 32
    → let bsize = add_size (align size) dsize in
      (r : ℕ × Heap) × ((mm_malloc size h ≡ some r)
        × (size + 8 ≤ bsize)
        × (bsize < size + 16)
        × IsAllocated h bs bsize r)
unfolding mm_malloc mem_heapsize
mm_malloc-IsAllocated h bs size v n small =
    let p : ℕ = h.memory.start_brk + 4 in
    let bsize : ℕ = add_size (align size) dsize in
    let walk : find_fit (mem_heapsize h.memory) bsize h.heap_listp h.word
        ≡ some (first_fit bsize p bs) =
      subst (λ q. find_fit (mem_heapsize h.memory) bsize q h.word ≡ some (first_fit bsize p bs))
        (omega (arith, v.begins))
        (find_fit-first_fit (mem_heapsize h.memory) bsize h.word p (h.memory.brk - 4) bs v.tiles
          v.epilogue
          (omega (arith, v.sized, AreTiles-length h.word p (h.memory.brk - 4) bs v.tiles))) in
    (
      allocate bsize (first_fit bsize p bs) h,
      (
        mm_malloc-allocate h size (first_fit bsize p bs) n walk,
        omega arith,
        omega arith,
        allocate-IsAllocated h bs bsize v (omega arith) (omega arith) (omega arith),
      ),
    )
