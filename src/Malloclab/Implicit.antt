-- ===== src/Malloclab/Implicit.antt =====
-- malloclab-handout/mm_implicit.c: an allocator that walks over all blocks of the heap. NULL is 0,
-- and a result `none` is a walk that did not end.
pub mod Joins
mod Tests
pub mod Realloc
pub mod Init
pub mod Malloc
pub mod Grants
pub mod Overflow
pub mod Heaps
pub mod Extend
pub mod Blocks
use sysprog2021s.Prelude.{
  ℕ, zero, suc, ◌+◌, ◌-◌, ◌*◌, ◌/◌, ◌%◌, ◌^◌, Bool, true, false, ◌&&◌, ◌||◌, not, Option, none,
  some, ltb, leb, ◌==◌, if◌then◌else◌,
}
use sysprog2021s.Prelude.Fallible.{◌>>=◌}
use sysprog2021s.Malloclab.Memlib.{Memory, mem_sbrk, mem_heapsize}
use sysprog2021s.Malloclab.Words.{
  memcpy, Words, wsize, dsize, chunksize, add_size, sub_size, align, max, pack, put, get_size,
  get_alloc, hdrp, ftrp, next_blkp, prev_blkp,
}

-- The memory system, its words, and `heap_listp`.
pub record Heap : Type 0 where
  pub memory : Memory
  pub word : Words
  pub heap_listp : ℕ

-- The three cases of `coalesce` that join blocks: the block that results, and the words.
unfoldable pub join_both : (bp : ℕ) → Words → ℕ × Words
join_both bp w =
    let size =
      add_size (get_size (hdrp bp) w)
        (add_size (get_size (hdrp (prev_blkp bp w)) w) (get_size (ftrp (next_blkp bp w) w) w)) in
    let w1 = put (hdrp (prev_blkp bp w)) (pack size false) w in
    let w2 = put (ftrp (next_blkp bp w1) w1) (pack size false) w1 in (prev_blkp bp w2, w2)

unfoldable pub join_next : (bp : ℕ) → Words → ℕ × Words
join_next bp w =
    let size = add_size (get_size (hdrp bp) w) (get_size (ftrp (next_blkp bp w) w) w) in
    let w1 = put (hdrp bp) (pack size false) w in (bp, put (ftrp bp w1) (pack size false) w1)

unfoldable pub join_prev : (bp : ℕ) → Words → ℕ × Words
join_prev bp w =
    let size = add_size (get_size (hdrp bp) w) (get_size (hdrp (prev_blkp bp w)) w) in
    let w1 = put (ftrp bp w) (pack size false) w in
    let w2 = put (hdrp (prev_blkp bp w1)) (pack size false) w1 in (prev_blkp bp w2, w2)

unfoldable pub coalesce : (bp : ℕ) → Words → ℕ × Words
coalesce bp w =
    let prev_alloc = get_alloc (ftrp (prev_blkp bp w) w) w in
    let next_alloc = get_alloc (hdrp (next_blkp bp w)) w in
    if not prev_alloc && not next_alloc
    then join_both bp w
    else if prev_alloc && not next_alloc
    then join_next bp w
    else if not prev_alloc && next_alloc
    then join_prev bp w
    else (bp, w)

-- `PUT(HDRP(bp), PACK(size, alloc)); PUT(FTRP(bp), PACK(size, alloc));`
unfoldable pub mark : (bp size : ℕ) (alloc : Bool) → Words → Words
mark bp size alloc w =
    let w1 = put (hdrp bp) (pack size alloc) w in put (ftrp bp w1) (pack size alloc) w1

-- An even number of words, in bytes.
abbrev pub even_bytes : (words : ℕ) → ℕ
even_bytes words = if words % 2 == 0 then words * wsize % 2 ^ 32 else (words + 1) * wsize % 2 ^ 32

-- The part of `extend_heap` behind `mem_sbrk`, which gave `bp`.
unfoldable pub add_block : (bp size : ℕ) → Heap → ℕ × Heap
add_block bp size h =
    let w1 = mark bp size false h.word in
    let w2 = put (hdrp (next_blkp bp w1)) (pack 0 true) w1 in
    let (bp, w) = coalesce bp w2 in (bp, record h { word = w })

unfoldable pub extend_by : (size : ℕ) → Heap → ℕ × Heap
extend_by size h =
    let (answer, memory) = mem_sbrk size h.memory in
    elim answer [
      | none ↦ (0, record h { memory = memory })
      | some bp ↦ add_block bp size (record h { memory = memory })
    ]

unfoldable pub extend_heap : (words : ℕ) → Heap → ℕ × Heap
extend_heap words h = extend_by (even_bytes words) h

-- The prologue and the epilogue that `mm_init` writes.
unfoldable pub empty_list : (p : ℕ) → Words → Words
empty_list p w =
    let w1 = put p 0 w in
    let w2 = put (p + 1 * wsize) (pack dsize true) w1 in
    let w3 = put (p + 2 * wsize) (pack dsize true) w2 in put (p + 3 * wsize) (pack 0 true) w3

-- What `mm_init` does with the memory that it is given at `p`.
unfoldable pub init_at : (p : ℕ) → Memory → Heap → Bool × Heap
init_at p memory h =
    let (bp, h) =
      extend_heap (chunksize / wsize)
        (record { memory = memory; word = empty_list p h.word; heap_listp = p + 2 * wsize }) in
    (not (bp == 0), h)

-- Whether it succeeds: the result is 0 or -1.
unfoldable pub mm_init : Heap → Bool × Heap
mm_init h =
    let (answer, memory) = mem_sbrk (4 * wsize) h.memory in
    elim answer [
      | none ↦ (false, record h { memory = memory; heap_listp = 2 ^ 32 - 1 })
      | some p ↦ init_at p memory h
    ]

-- The loop of `find_fit`, from block `bp` on.
unfoldable pub find_fit : (fuel bsize bp : ℕ) → Words → Option ℕ
find_fit zero bsize bp w = none
find_fit (suc fuel) bsize bp w =
    let later = find_fit fuel bsize (next_blkp bp w) w in
    if get_size (hdrp bp) w == 0
    then some 0
    else if not (get_alloc (hdrp bp) w) && leb bsize (get_size (hdrp bp) w)
    then some bp
    else later

unfoldable pub split : (bp initsize bsize : ℕ) → Words → Words
split bp initsize bsize w =
    let w1 = mark bp bsize true w in mark (next_blkp bp w1) (sub_size initsize bsize) false w1

unfoldable pub place : (bp bsize : ℕ) → Words → Words
place bp bsize w =
    let initsize = get_size (hdrp bp) w in
    if ltb (sub_size initsize bsize) (2 * dsize)
    then mark bp initsize true w
    else split bp initsize bsize w

-- What `mm_malloc` does with the result of `extend_heap`.
unfoldable pub place_in : (bsize : ℕ) → ℕ × Heap → ℕ × Heap
place_in bsize (bp, h) = if bp == 0 then (0, h) else (bp, record h { word = place bp bsize h.word })

-- What follows the search: `fit` is its result.
unfoldable pub allocate : (bsize fit : ℕ) → Heap → ℕ × Heap
allocate bsize fit h =
    if not (fit == 0)
    then (fit, record h { word = place fit bsize h.word })
    else place_in bsize (extend_heap (max bsize chunksize / wsize) h)

-- The heap has no more blocks than bytes, which is fuel enough.
unfoldable pub mm_malloc : (size : ℕ) → Heap → Option (ℕ × Heap)
mm_malloc size h =
    let bsize = add_size (align size) dsize in
    if size == 0
    then some (0, h)
    else find_fit (mem_heapsize h.memory) bsize h.heap_listp h.word
      >>= (λ fit. some (allocate bsize fit h))

unfoldable pub release : (bp : ℕ) → Words → Words
release bp w = (coalesce bp (mark bp (get_size (hdrp bp) w) false w)).1

unfoldable pub mm_free : (ptr : ℕ) → Heap → Heap
mm_free ptr h = if ptr == 0 then h else record h { word = release ptr h.word }

unfoldable pub move : (ptr newptr size : ℕ) → Heap → Heap
move ptr newptr size h =
    let copysize = get_size (hdrp ptr) h.word in
    let copysize = if ltb size copysize then size else copysize in
    mm_free ptr (record h { word = memcpy newptr ptr copysize h.word })

-- What `mm_realloc` does with the result of `mm_malloc`.
unfoldable pub move_in : (ptr size : ℕ) → ℕ × Heap → ℕ × Heap
move_in ptr size (newptr, h) = if newptr == 0 then (0, h) else (newptr, move ptr newptr size h)

-- `ptr` is not NULL, which the code does not ask.
unfoldable pub mm_realloc : (ptr size : ℕ) → Heap → Option (ℕ × Heap)
mm_realloc ptr size h = mm_malloc size h >>= (λ r. some (move_in ptr size r))
