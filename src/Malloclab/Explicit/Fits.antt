-- ===== src/Malloclab/Explicit/Fits.antt =====
-- The search of malloclab-handout/src/mm.c for a free block.
use sysprog2021s.Prelude.{
  ℕ, zero, suc, ◌≤◌, ◌≡◌, ◌≢◌, some, List, [], ◌∷◌, leb, if◌then◌else◌, arith, length,
}
use sysprog2021s.Malloclab.Words.{Words, get_size, hdrp}
use sysprog2021s.Malloclab.Explicit.{Heap, find_fit}
use sysprog2021s.Malloclab.Explicit.FreeList.{AreLinked, AllOther, AllApart, IsFreeList}

-- The first block of a list with at least `bsize` bytes, or NULL.
unfoldable pub first_block : (bsize : ℕ) → Words → List ℕ → ℕ
first_block bsize w [] = 0
first_block bsize w (b ∷ bs) = if leb bsize (get_size (hdrp b) w) then b else first_block bsize w bs

AllOther-last : (b prol : ℕ) (bs : List ℕ) → AllOther b prol bs → b ≢ prol
AllOther-last b prol [] o = o
AllOther-last b prol (c ∷ bs) o = AllOther-last b prol bs o.1

find_fit-linked :
    (fuel bsize : ℕ) (w : Words) (pred bp prol : ℕ) (bs : List ℕ)
    → AreLinked w pred bp prol bs
    → AllApart prol bs
    → length bs ≤ fuel
    → find_fit fuel bsize bp prol w ≡ some (first_block bsize w bs)
unfolding find_fit first_block
find_fit-linked zero bsize w pred bp prol [] l v enough = ground arith
find_fit-linked zero bsize w pred bp prol (b ∷ bs) l v enough = ground arith
find_fit-linked (suc fuel) bsize w pred bp prol [] l v enough = ground arith
find_fit-linked (suc fuel) bsize w pred bp prol (b ∷ bs) l v enough =
    let ne = AllOther-last b prol bs v.1 in
    let rest = find_fit-linked fuel bsize w b (w b) prol bs l.2 v.2 (omega arith) in ground arith

-- On a well-formed list of free blocks, with at least as much fuel as the list has blocks, the
-- search ends, with the first block of the list that is large enough, and with NULL when none is.
pub find_fit-first_block :
    (h : Heap) (bs : List ℕ) (fuel bsize : ℕ)
    → IsFreeList h bs
    → length bs ≤ fuel
    → find_fit fuel bsize h.root_bp h.prol_bp h.word ≡ some (first_block bsize h.word bs)
find_fit-first_block h bs fuel bsize v enough =
    find_fit-linked fuel bsize h.word 0 h.root_bp h.prol_bp bs v.linked v.apart enough
