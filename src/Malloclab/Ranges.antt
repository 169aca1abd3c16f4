-- ===== src/Malloclab/Ranges.antt =====
-- The range list of malloclab-handout/src/mdriver.c, by which the test driver checks each block
-- that an allocator hands out.
pub mod Checks
pub mod Runs
use sysprog2021s.Prelude.{
  ℕ, ◌+◌, ◌-◌, ◌^◌, ◌%◌, Bool, ◌&&◌, ◌||◌, not, Option, none, some, List, [], ◌∷◌, ltb, leb, ◌==◌,
  if◌then◌else◌,
}
use sysprog2021s.Malloclab.Memlib.{Memory, add_address, mem_heap_lo, mem_heap_hi}

-- `struct range_t`; the list is a list of these.
pub record Range : Type 0 where
  pub lo : ℕ
  pub hi : ℕ

abbrev pub alignment : ℕ
alignment = 8

abbrev pub is_aligned : ℕ → Bool
is_aligned p = p % 2 ^ 32 % alignment == 0

-- What `add_range` says: the assertion that failed, an error, or that the block is accepted.
pub data Verdict : Type 0 where
  aborted not_aligned outside_heap accepted : Verdict
  overlapping : Range → Verdict

abbrev pub touches : (lo hi : ℕ) → Range → Bool
touches lo hi p = leb p.lo lo && leb lo p.hi || leb p.lo hi && leb hi p.hi

-- The loop of `add_range`.
unfoldable pub find_overlap : (lo hi : ℕ) → List Range → Option Range
find_overlap lo hi [] = none
find_overlap lo hi (p ∷ rest) = if touches lo hi p then some p else find_overlap lo hi rest

-- `size` is not negative; the node that is added is always granted.
unfoldable pub add_range : Memory → List Range → (lo size : ℕ) → Verdict × List Range
unfolding find_overlap
add_range m ranges lo size =
    let hi = add_address lo (size - 1) in
    if size == 0
    then (aborted, ranges)
    else if not (is_aligned lo)
    then (not_aligned, ranges)
    else if ltb lo (mem_heap_lo m)
        || ltb (mem_heap_hi m) lo
        || (ltb hi (mem_heap_lo m) || ltb (mem_heap_hi m) hi)
    then (outside_heap, ranges)
    else elim (find_overlap lo hi ranges) [
      | some p ↦ (overlapping p, ranges)
      | none ↦ (accepted, record { lo = lo; hi = hi } ∷ ranges)
    ]

unfoldable pub remove_range : (lo : ℕ) → List Range → List Range
remove_range lo [] = []
remove_range lo (p ∷ rest) = if p.lo == lo then rest else p ∷ remove_range lo rest

unfoldable pub clear_ranges : List Range → List Range
clear_ranges ranges = []
