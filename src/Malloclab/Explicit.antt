-- ===== src/Malloclab/Explicit.antt =====
-- malloclab-handout/src/mm.c: an allocator with an explicit list of free blocks, the last one freed
-- first, and a `realloc` that uses free neighbours. NULL is 0, and a result `none` is a walk that
-- did not end.
pub mod FreeList
pub mod States
pub mod Hands
pub mod Coalesced
pub mod Joins
pub mod Frees
pub mod Windows
pub mod Opens
pub mod Choices
pub mod Roots
pub mod Placements
pub mod Realloc
pub mod InPlace
pub mod Moves
pub mod Views
pub mod Resizes
pub mod Init
pub mod Malloc
pub mod Grants
pub mod Extensions
pub mod Searches
pub mod Divides
pub mod Backward
pub mod Stamps
pub mod Merges
mod Tests
pub mod Unlink
pub mod Fits
use sysprog2021s.Prelude.{
  ℕ, zero, suc, ◌+◌, ◌-◌, ◌*◌, ◌/◌, ◌%◌, ◌^◌, Bool, true, false, ◌&&◌, ◌||◌, not, Option, none,
  some, ltb, leb, ◌==◌, if◌then◌else◌,
}
use sysprog2021s.Prelude.Fallible.{◌>>=◌}
use sysprog2021s.Malloclab.Memlib.{Memory, mem_sbrk, mem_heapsize}
use sysprog2021s.Malloclab.Words.{
  Words, wsize, dsize, chunksize, add_size, sub_size, align, max, pack, put, get_size, get_alloc,
  memcpy, hdrp, ftrp, next_blkp, prev_blkp,
}

abbrev pub min_bsize : ℕ
min_bsize = 2 * dsize

-- The memory system, its words, and the two globals.
pub record Heap : Type 0 where
  pub memory : Memory
  pub word : Words
  pub prol_bp : ℕ
  pub root_bp : ℕ

abbrev pub write : (p val : ℕ) → Heap → Heap
write p val h = record h { word = put p val h.word }

abbrev pub succp : ℕ → ℕ
succp bp = bp

abbrev pub predp : ℕ → ℕ
predp bp = bp + wsize

-- It returns `bp` in both cases.
unfoldable pub set_root : (bp : ℕ) → Heap → Heap
set_root bp h =
    let h1 = write (predp h.root_bp) bp h in
    let h2 = write (succp bp) h1.root_bp h1 in
    let h3 = write (predp bp) 0 h2 in if bp == h.root_bp then h else record h3 { root_bp = bp }

unfoldable pub cut_root : (bp : ℕ) → Heap → Heap
cut_root bp h =
    let root_bp = h.word (succp bp) in write (predp root_bp) 0 (record h { root_bp = root_bp })

unfoldable pub cut_inner : (bp : ℕ) → Heap → Heap
cut_inner bp h =
    let h1 = write (succp (h.word (predp bp))) (h.word (succp bp)) h in
    write (predp (h1.word (succp bp))) (h1.word (predp bp)) h1

unfoldable pub cut_out : (bp : ℕ) → Heap → Heap
cut_out bp h = if bp == h.root_bp then cut_root bp h else cut_inner bp h

-- `PUT(HDRP(bp), PACK(size, alloc)); PUT(FTRP(bp), PACK(size, alloc));`
unfoldable pub mark : (bp size : ℕ) (alloc : Bool) → Heap → Heap
mark bp size alloc h =
    let h1 = write (hdrp bp) (pack size alloc) h in write (ftrp bp h1.word) (pack size alloc) h1

-- The cases of `coalesce`: the block that results, and the heap.
unfoldable pub join_next : (bp : ℕ) → Heap → ℕ × Heap
join_next bp h =
    let h1 = cut_out (next_blkp bp h.word) h in
    let size =
      add_size (get_size (hdrp bp) h.word)
        (get_size (ftrp (next_blkp bp h1.word) h1.word) h1.word) in
    (bp, mark bp size false h1)

unfoldable pub join_prev : (bp : ℕ) → Heap → ℕ × Heap
join_prev bp h =
    let h1 = cut_out (prev_blkp bp h.word) h in
    let size =
      add_size (get_size (hdrp bp) h.word) (get_size (hdrp (prev_blkp bp h1.word)) h1.word) in
    let h2 = write (ftrp bp h1.word) (pack size false) h1 in
    let h3 = write (hdrp (prev_blkp bp h2.word)) (pack size false) h2 in (prev_blkp bp h3.word, h3)

unfoldable pub join_both : (bp : ℕ) → Heap → ℕ × Heap
join_both bp h =
    let h1 = cut_out (prev_blkp bp h.word) h in
    let h2 = cut_out (next_blkp bp h1.word) h1 in
    let size = add_size (get_size (hdrp bp) h.word) (
      add_size (get_size (hdrp (prev_blkp bp h2.word)) h2.word)
        (get_size (ftrp (next_blkp bp h2.word) h2.word) h2.word)) in
    let h3 = write (hdrp (prev_blkp bp h2.word)) (pack size false) h2 in
    let h4 = write (ftrp (next_blkp bp h3.word) h3.word) (pack size false) h3 in
    (prev_blkp bp h4.word, h4)

unfoldable pub coalesce : (bp : ℕ) → Heap → ℕ × Heap
coalesce bp h =
    let prev_alloc = get_alloc (ftrp (prev_blkp bp h.word) h.word) h.word in
    let next_alloc = get_alloc (hdrp (next_blkp bp h.word)) h.word in
    if prev_alloc && next_alloc
    then (bp, h)
    else if prev_alloc && not next_alloc
    then join_next bp h
    else if not prev_alloc && next_alloc
    then join_prev bp h
    else join_both bp h

-- `set_root(coalesce(bp))`
unfoldable pub give_back : (bp : ℕ) → Heap → Heap
give_back bp h = let (bp, h) = coalesce bp h in set_root bp h

abbrev pub even_bytes : (words : ℕ) → ℕ
even_bytes words = if words % 2 == 0 then words * wsize % 2 ^ 32 else (words + 1) * wsize % 2 ^ 32

-- The part of `extend_heap` behind `mem_sbrk`, which gave `bp`.
unfoldable pub add_block : (bp size : ℕ) → Heap → ℕ × Heap
add_block bp size h =
    let h1 = mark bp size false h in
    let h2 = write (hdrp (next_blkp bp h1.word)) (pack 0 true) h1 in
    let (bp, h3) = coalesce bp h2 in (bp, set_root bp h3)

unfoldable pub extend_heap : (words : ℕ) → Heap → ℕ × Heap
extend_heap words h =
    let (answer, memory) = mem_sbrk (even_bytes words) h.memory in
    elim answer [
      | none ↦ (0, record h { memory = memory })
      | some bp ↦ add_block bp (even_bytes words) (record h { memory = memory })
    ]

-- The prologue and the epilogue that `mm_init` writes at `p`.
unfoldable pub empty_list : (p : ℕ) → Heap → Heap
empty_list p h =
    let h1 = write p 0 h in
    let prol_bp = p + 2 * wsize in
    let h2 = mark prol_bp min_bsize true h1 in
    let h3 = write (succp prol_bp) 0 h2 in
    let h4 = write (predp prol_bp) (next_blkp prol_bp h3.word) h3 in
    let h5 = write (hdrp (next_blkp prol_bp h4.word)) (pack 0 true) h4 in
    record h5 { prol_bp = prol_bp; root_bp = prol_bp }

-- Whether it succeeds: the result is 0 or -1.
unfoldable pub mm_init : Heap → Bool × Heap
mm_init h =
    let (answer, memory) = mem_sbrk (6 * wsize) h.memory in
    elim answer [
      | none ↦ (false, record h { memory = memory; prol_bp = 2 ^ 32 - 1 })
      | some p ↦
          let (bp, h) =
            extend_heap (chunksize / wsize) (empty_list p (record h { memory = memory })) in
          (not (bp == 0), h)
    ]

-- The loop of `find_fit`, from the free block `bp` on.
unfoldable pub find_fit : (fuel bsize bp prol_bp : ℕ) → Words → Option ℕ
find_fit zero bsize bp prol_bp w = if bp == prol_bp then some 0 else none
find_fit (suc fuel) bsize bp prol_bp w =
    let later = find_fit fuel bsize (w (succp bp)) prol_bp w in
    if bp == prol_bp then some 0 else if leb bsize (get_size (hdrp bp) w) then some bp else later

-- The block `bp` becomes a used one of `bsize` bytes, and the rest behind it a free one.
unfoldable pub divide : (bp initsize bsize : ℕ) → Heap → Heap
divide bp initsize bsize h =
    let rest = pack (sub_size initsize bsize) false in
    let h1 = mark bp bsize true h in
    let h2 = write (hdrp (next_blkp bp h1.word)) rest h1 in
    write (ftrp (next_blkp bp h2.word) h2.word) rest h2

-- `set_root(NEXT_BLKP(bp))`
abbrev set_root_behind : (bp : ℕ) → Heap → Heap
set_root_behind bp h = set_root (next_blkp bp h.word) h

-- `set_root(coalesce(NEXT_BLKP(bp)))`
abbrev give_back_behind : (bp : ℕ) → Heap → Heap
give_back_behind bp h = give_back (next_blkp bp h.word) h

-- Both branches of the last test make the remainder the root.
unfoldable pub place : (bp bsize : ℕ) → Heap → Heap
place bp bsize h =
    let initsize = get_size (hdrp bp) h.word in
    let h1 = cut_out bp h in
    if ltb initsize (add_size bsize min_bsize)
    then mark bp initsize true h1
    else set_root_behind bp (divide bp initsize bsize h1)

-- What `mm_malloc` does with the result of `extend_heap`.
unfoldable pub place_in : (bsize : ℕ) → ℕ × Heap → ℕ × Heap
place_in bsize (bp, h) = if bp == 0 then (0, h) else (bp, place bp bsize h)

unfoldable pub allocate : (bsize fit : ℕ) → Heap → ℕ × Heap
allocate bsize fit h =
    if not (fit == 0)
    then (fit, place fit bsize h)
    else place_in bsize (extend_heap (max bsize chunksize / wsize) h)

-- The list has no more blocks than the heap has bytes, which is fuel enough.
unfoldable pub mm_malloc : (size : ℕ) → Heap → Option (ℕ × Heap)
mm_malloc size h =
    let bsize = add_size (align size) dsize in
    if size == 0
    then some (0, h)
    else find_fit (mem_heapsize h.memory) bsize h.root_bp h.prol_bp h.word
      >>= (λ fit. some (allocate bsize fit h))

unfoldable pub mm_free : (ptr : ℕ) → Heap → Heap
mm_free ptr h =
    if ptr == 0 then h else give_back ptr (mark ptr (get_size (hdrp ptr) h.word) false h)

-- The cases of `mm_realloc` that stay in place, or move into the free block before.
unfoldable pub shrink : (ptr oldbsize newbsize : ℕ) → Heap → Heap
shrink ptr oldbsize newbsize h = give_back_behind ptr (divide ptr oldbsize newbsize h)

unfoldable pub grow_back : (ptr totalbsize newbsize : ℕ) → Heap → ℕ × Heap
grow_back ptr totalbsize newbsize h =
    let newptr = prev_blkp ptr h.word in
    let h1 = cut_out newptr h in
    let h2 = record h1 { word = memcpy newptr ptr (sub_size newbsize dsize) h1.word } in
    (newptr, give_back_behind newptr (divide newptr totalbsize newbsize h2))

unfoldable pub grow : (ptr totalbsize newbsize : ℕ) → Heap → Heap
grow ptr totalbsize newbsize h =
    let h1 = cut_out (next_blkp ptr h.word) h in
    set_root_behind ptr (divide ptr totalbsize newbsize h1)

-- The last case, with the result of `mm_malloc`.
unfoldable pub move_in : (ptr oldbsize newbsize : ℕ) → ℕ × Heap → ℕ × Heap
move_in ptr oldbsize newbsize (newptr, h) =
    let copysize = sub_size (if ltb oldbsize newbsize then oldbsize else newbsize) dsize in
    if newptr == 0
    then (0, h)
    else (newptr, mm_free ptr (record h { word = memcpy newptr ptr copysize h.word }))

-- The part of `mm_realloc` behind its exceptional cases.
unfoldable pub resize : (ptr size : ℕ) → Heap → Option (ℕ × Heap)
resize ptr size h =
    let oldbsize = get_size (hdrp ptr) h.word in
    let newbsize = add_size (align size) dsize in
    let prevsize = get_size (ftrp (prev_blkp ptr h.word) h.word) h.word in
    let nextsize = get_size (ftrp (next_blkp ptr h.word) h.word) h.word in
    let prev_alloc = get_alloc (ftrp (prev_blkp ptr h.word) h.word) h.word in
    let next_alloc = get_alloc (hdrp (next_blkp ptr h.word)) h.word in
    let wanted = add_size newbsize min_bsize in
    if leb wanted oldbsize
    then some (ptr, shrink ptr oldbsize newbsize h)
    else if oldbsize == newbsize
    then some (ptr, h)
    else if not prev_alloc && leb wanted (add_size oldbsize prevsize)
    then some (grow_back ptr (add_size oldbsize prevsize) newbsize h)
    else if not next_alloc && leb wanted (add_size oldbsize nextsize)
    then some (ptr, grow ptr (add_size oldbsize nextsize) newbsize h)
    else mm_malloc size h >>= (λ r. some (move_in ptr oldbsize newbsize r))

unfoldable pub mm_realloc : (ptr size : ℕ) → Heap → Option (ℕ × Heap)
mm_realloc ptr size h =
    if ptr == 0
    then mm_malloc size h
    else if size == 0
    then some (0, mm_free ptr h)
    else resize ptr size h
