-- ===== src/Malloclab/Explicit/Malloc.antt =====
-- `mm_malloc` of malloclab-handout/src/mm.c as the insertion into a map of live blocks.
use mathlib.Core.Path.{subst, sym, ◌∙◌}
use sysprog2021s.Prelude.{
  ℕ, ◌+◌, ◌-◌, ◌*◌, ◌/◌, ◌%◌, ◌≤◌, ◌<◌, ◌^◌, ◌≡◌, ◌≢◌, refl, ap, true, false, none, some, List, [],
  ◌∷◌, ◌==◌, ◌⊎◌, inl, inr, arith,
}
use sysprog2021s.Prelude.Fallible.{◌>>=◌}
use sysprog2021s.Malloclab.Memlib.{mem_sbrk, mem_heapsize}
use sysprog2021s.Malloclab.Words.{dsize, chunksize, add_size, align, max}
use sysprog2021s.Malloclab.Blocks.{Block}
use sysprog2021s.Malloclab.Live
use sysprog2021s.Malloclab.Live.{
  free, live, placed, place_at, append_free, last_at, size_at, IsFitAt, AllLarge,
}
use sysprog2021s.Malloclab.Implicit.Blocks.{AreTiles-length}
use sysprog2021s.Malloclab.Implicit.Init.{live-inside, live-apart}
use sysprog2021s.Malloclab.Explicit.{
  Heap, place, place_in, allocate, extend_heap, find_fit, mm_malloc,
}
use sysprog2021s.Malloclab.Explicit.Hands.{IsFull}
use sysprog2021s.Malloclab.Explicit.Fits.{first_block, find_fit-first_block}
use sysprog2021s.Malloclab.Explicit.Frees.{IsListedHeap, view, AllRoomy-AllLarge}
use sysprog2021s.Malloclab.Explicit.Searches.{
  IsAt-IsFitAt, IsFitAt-IsAt, first_block-cases, length-free,
}
use sysprog2021s.Malloclab.Explicit.Grants.{
  IsGranted, IsExtended, place-IsGranted, extended-IsGranted, extend_heap-IsExtended,
}

-- What `allocate` makes of the result of the search.
abbrev pub IsServed : Heap → List Block → ℕ → ℕ × Heap → Type 0
IsServed h bs bsize (ptr, h') =
    ((ptr ≡ 0)
      × (h' ≡ h)
      × ((q : ℕ) → ¬ IsFitAt q bsize (h.memory.start_brk + 4) bs)
      × ((mem_sbrk (max bsize chunksize) h.memory).0 ≡ none))
    ⊎ IsGranted h bs bsize ptr h'

last_at-le : (p : ℕ) (bs : List Block) → p + 4 ≤ last_at p bs
unfolding last_at
last_at-le p [] = omega arith
last_at-le p (a ∷ []) = omega arith
last_at-le p (a ∷ b ∷ bs) = omega (arith, last_at-le (p + a.size) (b ∷ bs))

place_in-IsServed :
    (h : Heap) (bs : List Block) (bsize : ℕ) (r : ℕ × Heap)
    → ((q : ℕ) → ¬ IsFitAt q bsize (h.memory.start_brk + 4) bs)
    → bsize % 8 ≡ 0
    → 16 ≤ bsize
    → IsExtended (max bsize chunksize) h bs r
    → IsServed h bs bsize (place_in bsize r)
unfolding place_in
place_in-IsServed h bs bsize (bp, h') no_fit aligned large (inl (refused, null, same)) =
    let test : (bp == 0) ≡ true = ground arith in rw test (inl (refl, same, no_fit, refused))
place_in-IsServed h bs bsize (bp, h') no_fit aligned large (inr (v, at, memory)) =
    let test : (bp == 0) ≡ false = ground (arith, last_at-le (h.memory.start_brk + 4) bs) in
    let fits : bsize ≤ max bsize chunksize = ground arith in
    rw test (
      inr (
        extended-IsGranted h h' bs (max bsize chunksize) bp bsize v at
          (ap (λ m. m.start_brk) memory) aligned large fits))

allocate-extend :
    (h : Heap) (bsize : ℕ)
    → allocate bsize 0 h ≡ place_in bsize (extend_heap (max bsize chunksize / 4) h)
unfolding allocate
allocate-extend h bsize = refl

allocate-place :
    (h : Heap) (bsize fit : ℕ)
    → (fit == 0) ≡ false
    → allocate bsize fit h ≡ (fit, place fit bsize h)
unfolding allocate
allocate-place h bsize fit e = rw e refl

-- The search finds a block that is large enough, or there is none.
abbrev IsFittest : Heap → List Block → (bsize fit : ℕ) → Type 0
IsFittest h bs bsize fit =
    IsFitAt fit bsize (h.memory.start_brk + 4) bs
    ⊎ ((fit ≡ 0) × ((q : ℕ) → ¬ IsFitAt q bsize (h.memory.start_brk + 4) bs))

first_block-IsFittest :
    (h : Heap) (bs : List Block) (fs : List ℕ) (bsize : ℕ)
    → IsFull h bs fs
    → IsFittest h bs bsize (first_block bsize h.word fs)
first_block-IsFittest h bs fs bsize v =
    let p : ℕ = h.memory.start_brk + 4 in
    let end : ℕ = h.memory.brk - 4 in
    let fit = first_block bsize h.word fs in
    elim (first_block-cases bsize h.word fs) [
      | inl (i, le) ↦
          inl (IsAt-IsFitAt h.word fit bsize p end bs v.state.tiled.tiles (v.state.sound fit i) le)
      | inr (null, small) ↦ inr (
        null,
        λ q f.
            let (at, le) = IsFitAt-IsAt h.word q bsize p end bs v.state.tiled.tiles f in
            absurd (omega (arith, le, small q (v.listed q at))),
      )
    ]

allocate-IsServed :
    (h : Heap) (bs : List Block) (bsize fit : ℕ)
    → IsListedHeap h bs
    → IsFittest h bs bsize fit
    → bsize % 8 ≡ 0
    → 16 ≤ bsize
    → bsize < 2 ^ 32
    → IsServed h bs bsize (allocate bsize fit h)
allocate-IsServed h bs bsize fit v (inl f) aligned large small =
    let sizes = AllRoomy-AllLarge bs v.1.state.tiled.roomy in
    let below = Live.IsFitAt-below fit bsize (h.memory.start_brk + 4) bs sizes f in
    subst (IsServed h bs bsize) (sym (allocate-place h bsize fit (ground arith)))
      (inr (place-IsGranted h bs fit bsize v f aligned large))
allocate-IsServed h bs bsize fit v (inr (null, no_fit)) aligned large small =
    let words : ℕ = max bsize chunksize / 4 in
    let bytes : words * 4 ≡ max bsize chunksize = ground arith in
    let extended : IsExtended (max bsize chunksize) h bs (extend_heap words h) =
      subst (λ n. IsExtended n h bs (extend_heap words h)) bytes
        (extend_heap-IsExtended words h bs v (ground arith) (ground arith) (ground arith)) in
    subst (IsServed h bs bsize)
      (sym (ap (λ fit. allocate bsize fit h) null ∙ allocate-extend h bsize))
      (place_in-IsServed h bs bsize (extend_heap words h) no_fit aligned large extended)

-- The fuel is enough, since the blocks fill the heap and each has at least 8 bytes.
find_fit-ends :
    (h : Heap) (bs : List Block) (fs : List ℕ) (bsize : ℕ)
    → IsFull h bs fs
    → find_fit (mem_heapsize h.memory) bsize h.root_bp h.prol_bp h.word
      ≡ some (first_block bsize h.word fs)
unfolding mem_heapsize
find_fit-ends h bs fs bsize v =
    let p : ℕ = h.memory.start_brk + 4 in
    let t = v.state.tiled in
    let few = length-free p h.prol_bp bs fs t.roomy v.state.list.apart v.state.sound in
    find_fit-first_block h fs (h.memory.brk - h.memory.start_brk) bsize v.state.list
      (omega (arith, few, AreTiles-length h.word p (h.memory.brk - 4) bs t.tiles, t.sized))

mm_malloc-allocate :
    (h : Heap) (size fit : ℕ)
    → size ≢ 0
    → find_fit (mem_heapsize h.memory) (add_size (align size) dsize) h.root_bp h.prol_bp h.word
      ≡ some fit
    → mm_malloc size h ≡ some (allocate (add_size (align size) dsize) fit h)
unfolding mm_malloc
mm_malloc-allocate h size fit n walk =
    let some_size : (size == 0) ≡ false = ground arith in
    rw some_size (ap (λ o. o >>= (λ fit. some (allocate (add_size (align size) dsize) fit h))) walk)

-- It ends, with what `allocate` makes of a block of this size.
pub mm_malloc_ends :
    (h : Heap) (bs : List Block) (size : ℕ)
    → IsListedHeap h bs
    → size ≢ 0
    → size + 16 < 2 ^ 32
    → (r : ℕ × Heap) × ((mm_malloc size h ≡ some r) × IsServed h bs (add_size (align size) dsize) r)
mm_malloc_ends h bs size (fs, v) n small =
    let bsize : ℕ = add_size (align size) dsize in
    let fit = first_block bsize h.word fs in
    (
      allocate bsize fit h,
      (
        mm_malloc-allocate h size fit n (find_fit-ends h bs fs bsize v),
        allocate-IsServed h bs bsize fit (fs, v) (first_block-IsFittest h bs fs bsize v)
            (omega arith) (omega arith) (omega arith),
      ),
    )

-- On a heap whose blocks fill it and whose list has all free ones, `mm_malloc` of a size that is not
-- 0 and at least 16 below 2^32 ends. The block wanted has `bsize` bytes, the size and 8 bytes for
-- header and footer, rounded up to a multiple of 8. It returns NULL and changes nothing, only where
-- no free block has `bsize` bytes and `mem_sbrk` refuses the larger of `bsize` and 4096; or it
-- returns an aligned address that held no live block, and now holds one of at least `bsize` bytes,
-- while no other entry of the map changes; the blocks again fill the heap, and all free ones are in
-- the list.
pub mm_malloc-IsServed :
    (h : Heap) (bs : List Block) (size : ℕ)
    → IsListedHeap h bs
    → size ≢ 0
    → size + 16 < 2 ^ 32
    → let bsize = add_size (align size) dsize in
      (r : ℕ × Heap) × ((mm_malloc size h ≡ some r)
        × (size + 8 ≤ bsize)
        × (bsize < size + 16)
        × IsServed h bs bsize r)
mm_malloc-IsServed h bs size v n small =
    let (r, (done, allocated)) = mm_malloc_ends h bs size v n small in
    (r, (done, omega arith, omega arith, allocated))

some-injective {ℓ} : {A : Type ℓ} (x y : A) → some x ≡ some y → x ≡ y
some-injective x y e = ap (λ o. elim o [ none ↦ x | some z ↦ z ]) e

-- On a heap whose blocks fill it and whose list has all free ones, where `mm_malloc` of a size that
-- is not 0 and at least 16 below 2^32 returns an address other than NULL: the bytes from the header
-- before the address to the end of the footer behind the payload, `size` + 8 or more, lie inside the
-- heap that results, and overlap no block that was live.
pub mm_malloc-apart :
    (h h' : Heap) (bs : List Block) (size ptr a s : ℕ)
    → IsListedHeap h bs
    → size ≢ 0
    → size + 16 < 2 ^ 32
    → mm_malloc size h ≡ some (ptr, h')
    → ptr ≢ 0
    → view h bs a ≡ some s
    → (h.memory.start_brk + 8 ≤ ptr)
      × (ptr + size + 4 ≤ h'.memory.brk - 4)
      × ((a - 4 + s ≤ ptr - 4) ⊎ (ptr + size + 4 ≤ a - 4))
mm_malloc-apart h h' bs size ptr a s v n small done' some_block e =
    let bsize : ℕ = add_size (align size) dsize in
    let (r, (done, served)) = mm_malloc_ends h bs size v n small in
    let same : r ≡ (ptr, h') = some-injective r (ptr, h') (sym done ∙ done') in
    elim (subst (IsServed h bs bsize) same served) [
      | inl (null, kept, no_fit, refused) ↦ absurd (some_block null)
      | inr g ↦
          let p : ℕ = h'.memory.start_brk + 4 in
          let end : ℕ = h'.memory.brk - 4 in
          let tiles = g.heap.1.state.tiled.tiles in
          let here : live ptr p g.blocks ≡ some g.size = ground (arith, g.added ptr) in
          let other : (a == ptr) ≡ false = ground (arith, e, g.new) in
          let there : live a p g.blocks ≡ some s = g.added a ∙ rw other e in
          let inside = live-inside h'.word ptr g.size p end g.blocks tiles here in
          let inside' = live-inside h'.word a s p end g.blocks tiles there in
          let apart : (a < ptr) ⊎ (ptr < a) = ground arith in
          let start = g.start in
          let large : size + 8 ≤ g.size = omega (arith, g.large) in
          (
            omega (arith, inside, start),
            omega (arith, inside, large),
            elim apart [
              | inl lt ↦ inl (
                  omega (
                    arith,
                    inside',
                    live-apart h'.word a s ptr g.size p end g.blocks tiles there here lt,
                  ))
              | inr lt ↦ inr (
                  omega (
                    arith,
                    inside,
                    large,
                    live-apart h'.word ptr g.size a s p end g.blocks tiles here there lt,
                  ))
            ],
          )
    ]
