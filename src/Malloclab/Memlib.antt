-- ===== src/Malloclab/Memlib.antt =====
-- malloclab-handout/src/memlib.c: a heap with a break that only grows. An address is a number
-- below 2^32, as the Makefile builds for 32 bits, and an `int` is given by its 32 bits.
pub mod Areas
use sysprog2021s.Prelude.{
  ℕ, ◌+◌, ◌-◌, ◌*◌, ◌^◌, ◌%◌, ◌≤◌, ◌<◌, ◌≡◌, Bool, ◌||◌, Option, none, some, List, [], ◌∷◌, ltb,
  leb, if◌then◌else◌,
}

-- `mem_start_brk`, `mem_brk` and `mem_max_addr`.
pub record Memory : Type 0 where
  pub start_brk : ℕ
  pub brk : ℕ
  pub max_addr : ℕ

abbrev pub max_heap : ℕ
max_heap = 20 * 2 ^ 20

abbrev pub add_address : ℕ → ℕ → ℕ
add_address p n = (p + n) % 2 ^ 32

-- The argument is what `malloc` gives; without a block the program ends.
unfoldable pub mem_init : Option ℕ → Option Memory
mem_init none = none
mem_init (some block) =
    some (record { start_brk = block; brk = block; max_addr = add_address block max_heap })

unfoldable pub mem_reset_brk : Memory → Memory
mem_reset_brk m = record m { brk = m.start_brk }

abbrev pub is_negative : ℕ → Bool
is_negative incr = leb (2 ^ 31) incr

-- `none` is the result -1.
unfoldable pub mem_sbrk : (incr : ℕ) → Memory → Option ℕ × Memory
mem_sbrk incr m =
    if is_negative incr || ltb m.max_addr (add_address m.brk incr)
    then (none, m)
    else (some m.brk, record m { brk = add_address m.brk incr })

unfoldable pub mem_heap_lo : Memory → ℕ
mem_heap_lo m = m.start_brk

-- `mem_brk - 1`; an empty heap at address 0 would wrap.
unfoldable pub mem_heap_hi : Memory → ℕ
mem_heap_hi m = add_address m.brk (2 ^ 32 - 1)

unfoldable pub mem_heapsize : Memory → ℕ
mem_heapsize m = m.brk - m.start_brk
