-- ===== src/Malloclab/Ranges/Runs.antt =====
-- The range list of malloclab-handout/src/mdriver.c while a trace is run.
use sysprog2021s.Prelude.{ℕ, ◌^◌, ◌%◌, ◌≤◌, ◌<◌, ◌≡◌, List, [], ◌∷◌, arith}
use sysprog2021s.Malloclab.Memlib.{Memory, mem_sbrk}
use sysprog2021s.Malloclab.Memlib.Areas.{IsHeap, mem_sbrk-IsHeap}
use sysprog2021s.Malloclab.Ranges.{Range, add_range, remove_range, clear_ranges}
use sysprog2021s.Malloclab.Ranges.Checks.{AllClear, AllOrdered, add_range-IsBlock}

-- What happens while a trace is run: the allocator asks for memory, or the driver records a block
-- or takes a record back.
pub data Event : Type 0 where
  extend : (incr : ℕ) → Event
  add : (lo size : ℕ) → Event
  remove : (lo : ℕ) → Event
  clear : Event

unfoldable pub handle : Event → Memory → List Range → Memory × List Range
handle (extend incr) m ranges = ((mem_sbrk incr m).1, ranges)
handle (add lo size) m ranges = (m, (add_range m ranges lo size).1)
handle (remove lo) m ranges = (m, remove_range lo ranges)
handle clear m ranges = (m, clear_ranges ranges)

unfoldable pub handle_all : List Event → Memory → List Range → Memory × List Range
handle_all [] m ranges = (m, ranges)
handle_all (e ∷ es) m ranges = let (m', ranges') = handle e m ranges in handle_all es m' ranges'

-- An address and a size of an `int` that is not negative.
abbrev pub IsEvent : Event → Type 0
IsEvent (add lo size) = (lo < 2 ^ 32) × (size < 2 ^ 31)
IsEvent _ = Unit {0}

abbrev pub AllEvents : List Event → Type 0
AllEvents [] = Unit {0}
AllEvents (e ∷ es) = IsEvent e × AllEvents es

-- Each record is aligned and inside the heap, and each older one that it meets lies strictly
-- inside it.
abbrev pub AllSound : Memory → List Range → Type 0
AllSound m [] = Unit {0}
AllSound m (p ∷ rest) =
    (p.lo % 8 ≡ 0)
    × (m.start_brk ≤ p.lo)
    × (p.lo ≤ p.hi)
    × (p.hi < m.brk)
    × AllClear p.lo p.hi rest
    × AllSound m rest

AllSound-AllOrdered : (m : Memory) (ranges : List Range) → AllSound m ranges → AllOrdered ranges
AllSound-AllOrdered m [] a = tt
AllSound-AllOrdered m (p ∷ rest) a = ground (arith, AllSound-AllOrdered m rest)

remove_range-AllClear :
    (lo hi q : ℕ) (ranges : List Range)
    → AllClear lo hi ranges
    → AllClear lo hi (remove_range q ranges)
unfolding remove_range
remove_range-AllClear lo hi q [] a = tt
remove_range-AllClear lo hi q (p ∷ rest) a = ground (arith, remove_range-AllClear lo hi q rest)

remove_range-AllSound :
    (m : Memory) (q : ℕ) (ranges : List Range)
    → AllSound m ranges
    → AllSound m (remove_range q ranges)
unfolding remove_range
remove_range-AllSound m q [] a = tt
remove_range-AllSound m q (p ∷ rest) a =
    ground (arith, remove_range-AllSound m q rest, remove_range-AllClear p.lo p.hi q rest)

-- The heap may only grow.
AllSound-le :
    (m m' : Memory) (ranges : List Range)
    → m'.start_brk ≡ m.start_brk
    → m.brk ≤ m'.brk
    → AllSound m ranges
    → AllSound m' ranges
AllSound-le m m' [] e le a = tt
AllSound-le m m' (p ∷ rest) e le a = ground (arith, AllSound-le m m' rest)

mem_sbrk-le :
    (incr : ℕ) (m : Memory)
    → IsHeap m
    → ((mem_sbrk incr m).1.start_brk ≡ m.start_brk) × (m.brk ≤ (mem_sbrk incr m).1.brk)
unfolding mem_sbrk
mem_sbrk-le incr m h = ground (arith, mem_sbrk-IsHeap incr m h)

handle-AllSound :
    (e : Event) (m : Memory) (ranges : List Range)
    → IsEvent e
    → IsHeap m
    → AllSound m ranges
    → IsHeap (handle e m ranges).0 × AllSound (handle e m ranges).0 (handle e m ranges).1
unfolding handle clear_ranges
handle-AllSound (extend incr) m ranges v h a = ground (
  arith,
  mem_sbrk-IsHeap incr m h,
  mem_sbrk-le incr m h,
  AllSound-le m (mem_sbrk incr m).1 ranges,
)
handle-AllSound (add lo size) m ranges v h a =
    ground (arith, add_range-IsBlock m ranges lo size h (AllSound-AllOrdered m ranges a))
handle-AllSound (remove lo) m ranges v h a = (h, remove_range-AllSound m lo ranges a)
handle-AllSound clear m ranges v h a = (h, tt)

-- However the allocator and the driver go on, every recorded block is aligned and inside the heap,
-- and shares no address with an older record but one that lies strictly inside it.
pub handle_all-AllSound :
    (events : List Event) (m : Memory) (ranges : List Range)
    → AllEvents events
    → IsHeap m
    → AllSound m ranges
    → let (m', ranges') = handle_all events m ranges in IsHeap m' × AllSound m' ranges'
unfolding handle_all
handle_all-AllSound [] m ranges v h a = (h, a)
handle_all-AllSound (e ∷ es) m ranges v h a =
    let sound = handle-AllSound e m ranges v.0 h a in
    handle_all-AllSound es (handle e m ranges).0 (handle e m ranges).1 v.1 sound.0 sound.1
