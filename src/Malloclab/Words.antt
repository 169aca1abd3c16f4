-- ===== src/Malloclab/Words.antt =====
-- The macros that the allocators of malloclab-handout share: words of memory, headers and footers.
-- A word of 4 bytes is read and written at its address. Sizes are a `size_t` of 32 bits and wrap;
-- arithmetic on pointers does not, since C defines it only inside the heap.
use sysprog2021s.Prelude.{
  ℕ, ◌+◌, ◌-◌, ◌*◌, ◌%◌, ◌^◌, Bool, ◌&&◌, ◌==◌, ltb, if◌then◌else◌, leb, not,
}

abbrev pub Words : Type 0
Words = ℕ → ℕ

abbrev pub wsize : ℕ
wsize = 4

abbrev pub dsize : ℕ
dsize = 8

abbrev pub chunksize : ℕ
chunksize = 2 ^ 12

abbrev pub add_size : ℕ → ℕ → ℕ
add_size m n = (m + n) % 2 ^ 32

abbrev pub sub_size : ℕ → ℕ → ℕ
sub_size m n = (m + (2 ^ 32 - n)) % 2 ^ 32

-- `((size) + (ALIGNMENT-1)) & ~0x7`
abbrev pub align : ℕ → ℕ
align size = add_size size 7 - add_size size 7 % 8

abbrev pub max : ℕ → ℕ → ℕ
max x y = if ltb y x then x else y

-- `size | alloc`, where `alloc` is 0 or 1.
abbrev pub pack : ℕ → Bool → ℕ
pack size alloc = if alloc && size % 2 == 0 then size + 1 else size

unfoldable pub put : ℕ → ℕ → Words → Words
put p val w q = if q == p then val else w q

-- `GET(p) & ~0x7` and `GET(p) & 0x1`
abbrev pub get_size : ℕ → Words → ℕ
get_size p w = w p - w p % 8

abbrev pub get_alloc : ℕ → Words → Bool
get_alloc p w = w p % 2 == 1

abbrev pub hdrp : ℕ → ℕ
hdrp bp = bp - wsize

abbrev pub ftrp : ℕ → Words → ℕ
ftrp bp w = bp + get_size (hdrp bp) w - dsize

abbrev pub next_blkp : ℕ → Words → ℕ
next_blkp bp w = bp + get_size (bp - wsize) w

abbrev pub prev_blkp : ℕ → Words → ℕ
prev_blkp bp w = bp - get_size (bp - dsize) w

-- `memcpy` between addresses that are multiples of 4: whole words, and the first `n % 4` bytes of
-- one more. It reads the memory as it was, so it is `memmove` also where the areas overlap.
unfoldable pub memcpy : (dst src n : ℕ) → Words → Words
memcpy dst src n w q =
    let last = dst + n - n % 4 in
    let part = 2 ^ (8 * (n % 4)) in
    let whole = w (src + (q - dst)) in
    if leb dst q && ltb q last
    then whole
    else if q == last && not (n % 4 == 0)
    then whole % part + (w q - w q % part)
    else w q
