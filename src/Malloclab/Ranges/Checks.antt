-- ===== src/Malloclab/Ranges/Checks.antt =====
-- Which blocks `add_range` of malloclab-handout/src/mdriver.c accepts.
use sysprog2021s.Prelude.{
  ℕ, ◌+◌, ◌-◌, ◌^◌, ◌%◌, ◌≤◌, ◌<◌, ◌≡◌, ◌≢◌, refl, none, List, [], ◌∷◌, ◌⊎◌, inl, arith,
}
use sysprog2021s.Malloclab.Memlib.{Memory, mem_heap_lo, mem_heap_hi}
use sysprog2021s.Malloclab.Memlib.Areas.{IsHeap}
use sysprog2021s.Malloclab.Ranges.{Range, accepted, find_overlap, add_range}

-- Two ranges of addresses share none.
abbrev pub IsApart : (lo hi : ℕ) → Range → Type 0
IsApart lo hi p = (hi < p.lo) ⊎ (p.hi < lo)

-- Each range shares no address with `lo` to `hi`, or lies strictly inside.
abbrev pub AllClear : (lo hi : ℕ) → List Range → Type 0
AllClear lo hi [] = Unit {0}
AllClear lo hi (p ∷ rest) = (IsApart lo hi p ⊎ ((lo < p.lo) × (p.hi < hi))) × AllClear lo hi rest

-- What the driver asks of a block.
pub record IsBlock (m : Memory) (lo size : ℕ) : Type 0 where
  pub nonempty : size ≢ 0
  pub aligned : lo % 8 ≡ 0
  pub from : m.start_brk ≤ lo
  pub to : lo + size ≤ m.brk

abbrev pub AllOrdered : List Range → Type 0
AllOrdered [] = Unit {0}
AllOrdered (p ∷ rest) = (p.lo ≤ p.hi) × AllOrdered rest

find_overlap-AllClear :
    (lo hi : ℕ) (ranges : List Range)
    → lo ≤ hi
    → AllOrdered ranges
    → ((find_overlap lo hi ranges ≡ none) × AllClear lo hi ranges)
      ⊎ ((find_overlap lo hi ranges ≢ none) × ¬ (AllClear lo hi ranges))
unfolding find_overlap
find_overlap-AllClear lo hi [] le o = inl (refl, tt)
find_overlap-AllClear lo hi (p ∷ rest) le o = ground (arith, find_overlap-AllClear lo hi rest le)

-- `add_range` accepts a block exactly if it is not empty, aligned to 8 bytes and inside the heap,
-- and each recorded block either shares no address with it or lies strictly inside it. An accepted
-- block is recorded first in the list; otherwise the list stays as it is.
pub add_range-IsBlock :
    (m : Memory) (ranges : List Range) (lo size : ℕ)
    → IsHeap m
    → AllOrdered ranges
    → lo < 2 ^ 32
    → size < 2 ^ 31
    → let (verdict, ranges') = add_range m ranges lo size in
      let hi = lo + (size - 1) in
      ((verdict ≡ accepted)
        × (ranges' ≡ record { lo = lo; hi = hi } ∷ ranges)
        × (IsBlock m lo size × AllClear lo hi ranges))
      ⊎ ((verdict ≢ accepted) × (ranges' ≡ ranges) × ¬ (IsBlock m lo size × AllClear lo hi ranges))
unfolding add_range mem_heap_lo mem_heap_hi
add_range-IsBlock m ranges lo size h o w s =
    ground (arith, find_overlap-AllClear lo (lo + (size - 1)) ranges)

-- A block that strictly contains the only recorded block is accepted, although the two overlap.
add_range-overlap :
    (m : Memory) (p : Range) (lo size : ℕ)
    → IsHeap m
    → p.lo ≤ p.hi
    → IsBlock m lo size
    → lo < p.lo
    → p.hi < lo + (size - 1)
    → size < 2 ^ 31
    → add_range m (p ∷ []) lo size ≡ (accepted, record { lo = lo; hi = lo + (size - 1) } ∷ p ∷ [])
unfolding add_range find_overlap mem_heap_lo mem_heap_hi
add_range-overlap m p lo size h le b below above s = ground arith
