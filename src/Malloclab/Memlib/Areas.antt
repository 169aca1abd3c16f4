-- ===== src/Malloclab/Memlib/Areas.antt =====
-- The areas that `mem_sbrk` of malloclab-handout/src/memlib.c hands out.
use mathlib.Core.Path.{subst, sym}
use sysprog2021s.Prelude.{
  ℕ, ◌+◌, ◌^◌, ◌≤◌, ◌<◌, ◌≡◌, ◌≢◌, refl, none, some, List, [], ◌∷◌, ◌⊎◌, arith,
}
use sysprog2021s.Malloclab.Memlib.{Memory, max_heap, mem_sbrk}

-- A heap that ends below 2^31, so that no sum of an address and a size wraps. The `malloc` of
-- `mem_init` does not promise that: the theorems that assume it say so by this record.
pub record IsHeap (m : Memory) : Type 0 where
  pub begins : m.start_brk ≢ 0
  pub above : m.start_brk ≤ m.brk
  pub below : m.brk ≤ m.max_addr
  pub extent : m.max_addr ≡ m.start_brk + max_heap
  pub low : m.max_addr < 2 ^ 31

-- Requests in a row, with the areas that were granted: address and size.
unfoldable pub sbrk_all : List ℕ → Memory → List (ℕ × ℕ) × Memory
sbrk_all [] m = ([], m)
sbrk_all (incr ∷ rest) m =
    let (answer, m') = mem_sbrk incr m in
    let (areas, m'') = sbrk_all rest m' in
    elim answer [ none ↦ (areas, m'') | some p ↦ ((p, incr) ∷ areas, m'') ]

-- The areas lie one behind the other, from `lo` up to `hi`.
abbrev pub AreAdjacent : ℕ → List (ℕ × ℕ) → ℕ → Type 0
AreAdjacent lo [] hi = lo ≡ hi
AreAdjacent lo ((p, n) ∷ rest) hi = (p ≡ lo) × AreAdjacent (lo + n) rest hi

pub mem_sbrk-IsHeap :
    (incr : ℕ) (m : Memory)
    → IsHeap m
    → IsHeap (mem_sbrk incr m).1
      × ((((mem_sbrk incr m).0 ≡ none) × ((mem_sbrk incr m).1 ≡ m))
          ⊎ (((mem_sbrk incr m).0 ≡ some m.brk) × ((mem_sbrk incr m).1.brk ≡ m.brk + incr)))
unfolding mem_sbrk
mem_sbrk-IsHeap incr m h = ground (arith)

-- The block that `mem_init` got, anywhere in the address space, with the break inside it.
pub record IsArea (m : Memory) : Type 0 where
  pub above : m.start_brk ≤ m.brk
  pub below : m.brk ≤ m.max_addr
  pub extent : m.max_addr ≡ m.start_brk + max_heap
  pub mapped : m.max_addr < 2 ^ 32

-- Each request is negative, or its sum with the largest legal address does not wrap.
abbrev pub NoneWraps : (max_addr : ℕ) → List ℕ → Type 0
NoneWraps max_addr [] = Unit {0}
NoneWraps max_addr (incr ∷ rest) =
    ((2 ^ 31 ≤ incr) ⊎ (max_addr + incr < 2 ^ 32)) × NoneWraps max_addr rest

mem_sbrk-IsArea :
    (incr : ℕ) (m : Memory)
    → IsArea m
    → (2 ^ 31 ≤ incr) ⊎ (m.max_addr + incr < 2 ^ 32)
    → let (answer, m') = mem_sbrk incr m in
      IsArea m'
      × (m'.max_addr ≡ m.max_addr)
      × (((answer ≡ none) × (m' ≡ m)) ⊎ ((answer ≡ some m.brk) × (m'.brk ≡ m.brk + incr)))
unfolding mem_sbrk
mem_sbrk-IsArea incr m h fits = ground (arith)

-- Over any sequence of requests of which each is negative or small enough that its sum with the
-- largest legal address does not wrap, as every one is where the heap ends below 2^31: the break
-- stays inside the block that `mem_init` got, and the areas that `mem_sbrk` hands out in a row lie
-- one behind the other, from the old break up to the new one: they do not overlap, and there is no
-- gap.
pub sbrk_all-AreAdjacent :
    (requests : List ℕ) (m : Memory)
    → IsArea m
    → NoneWraps m.max_addr requests
    → let (areas, m') = sbrk_all requests m in IsArea m' × AreAdjacent m.brk areas m'.brk
unfolding sbrk_all
sbrk_all-AreAdjacent [] m h fits = (h, refl)
sbrk_all-AreAdjacent (incr ∷ rest) m h (fit, fits) =
    let m' = (mem_sbrk incr m).1 in
    let (kept, same, step) = mem_sbrk-IsArea incr m h fit in
    let later = sbrk_all-AreAdjacent rest m' kept (subst (λ x. NoneWraps x rest) (sym same) fits) in
    ground (arith, step, later)

-- A request that is not negative, and with which the break would run past the end of the address
-- space, is granted if what it wraps to is no more than the largest legal address, and moves the
-- break down.
mem_sbrk-wrap :
    (incr : ℕ) (m : Memory)
    → incr < 2 ^ 31
    → m.brk < 2 ^ 32
    → 2 ^ 32 ≤ m.brk + incr
    → m.brk + incr ≤ m.max_addr + 2 ^ 32
    → ((mem_sbrk incr m).0 ≡ some m.brk) × ((mem_sbrk incr m).1.brk < m.brk)
unfolding mem_sbrk
mem_sbrk-wrap incr m small low past fits = ground arith
