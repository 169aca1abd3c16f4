-- ===== src/Malloclab/Implicit/Heaps.antt =====
-- malloclab-handout/mm_implicit.c as an implementation of a map of live blocks.
use mathlib.Core.Path.{subst, sym}
use sysprog2021s.Prelude.{
  ℕ, ◌+◌, ◌-◌, ◌*◌, ◌%◌, ◌≤◌, ◌<◌, ◌^◌, ◌≡◌, ◌≢◌, refl, ap, ◌∙◌, true, false, Option, none, some,
  List, [], ◌∷◌, ◌==◌, if◌then◌else◌, ◌⊎◌, inl, inr, arith, Bool-cases,
}
use sysprog2021s.Malloclab.Memlib.{Memory, mem_sbrk}
use sysprog2021s.Malloclab.Memlib.Areas.{IsHeap, mem_sbrk-IsHeap}
use sysprog2021s.Malloclab.Words.{Words, put, pack, hdrp, next_blkp}
use sysprog2021s.Malloclab.Blocks.{Block, AreTiles, AreTiles-at, stamp}
use sysprog2021s.Malloclab.Live
use sysprog2021s.Malloclab.Live.{
  free, full, join, live, first_fit, free_at, place_at, append_free, last_at, size_at, IsUsedAt,
  IsFitAt, AllLarge,
}
use sysprog2021s.Malloclab.Implicit.{
  Heap, mark, coalesce, add_block, even_bytes, extend_by, extend_heap, mm_free,
}
use sysprog2021s.Malloclab.Implicit.Blocks.{
  AreTiles-AllLarge, release-AreTiles, mark-stamp, next_blkp-stamp,
}
use sysprog2021s.Malloclab.Implicit.Extend.{grown, grown-coalesce}

-- The heap stands for these blocks: they fill it, from the prologue to the epilogue.
pub record IsHeapOf (h : Heap) (bs : List Block) : Type 0 where
  pub memory : IsHeap h.memory
  pub begins : h.heap_listp ≡ h.memory.start_brk + 8
  pub aligned : h.memory.start_brk % 8 ≡ 0
  pub sized : h.memory.start_brk + 16 ≤ h.memory.brk
  pub tiles : AreTiles h.word (h.memory.start_brk + 4) bs (h.memory.brk - 4)
  pub epilogue : h.word (h.memory.brk - 4) ≡ 1

-- The size of the live block at an address.
abbrev pub view : Heap → List Block → ℕ → Option ℕ
view h bs a = live a (h.memory.start_brk + 4) bs

pub live-IsUsedAt :
    (q p s : ℕ) (bs : List Block) → AllLarge bs → live q p bs ≡ some s → q ≢ p + 4 → IsUsedAt q p bs
unfolding live
live-IsUsedAt q p s [] l e n = absurd (ground arith)
live-IsUsedAt q p s (a ∷ []) l e n = absurd (ground arith)
live-IsUsedAt q p s (a ∷ b ∷ bs) l e n =
    let later = Live.live-below q (p + a.size + b.size) bs in
    elim (Bool-cases (q == p + a.size + 4)) [
      | inl here ↦ inl (ground arith, ground (arith, later))
      | inr other ↦ inr (live-IsUsedAt q (p + a.size) s (b ∷ bs) l.1 (ground arith) (ground arith))
    ]

-- `mm_free` of a live block other than the prologue removes it from the map, changes nothing else
-- in it, and leaves a well-formed heap.
pub mm_free-IsHeapOf :
    (h : Heap) (bs : List Block) (ptr s : ℕ)
    → IsHeapOf h bs
    → view h bs ptr ≡ some s
    → ptr ≢ h.heap_listp
    → (bs' : List Block) × (IsHeapOf (mm_free ptr h) bs'
        × ((a : ℕ) → view (mm_free ptr h) bs' a ≡ (if a == ptr then none else view h bs a)))
unfolding mm_free
mm_free-IsHeapOf h bs ptr s v e n =
    let p : ℕ = h.memory.start_brk + 4 in
    let end : ℕ = h.memory.brk - 4 in
    let large = AreTiles-AllLarge h.word p end bs v.tiles in
    let u = live-IsUsedAt ptr p s bs large e (omega (arith, v.begins)) in
    let below = Live.IsUsedAt-below ptr p bs large u in
    let (tiles, last, same) =
      release-AreTiles h.word ptr p end bs v.tiles u (omega (arith, v.epilogue))
        (omega (arith, v.memory.below, v.memory.low)) in
    let some_block : (ptr == 0) ≡ false = ground arith in
    rw some_block (
      free_at ptr p bs,
      (
        record {
          memory = v.memory;
          begins = v.begins;
          aligned = v.aligned;
          sized = v.sized;
          tiles = tiles;
          epilogue = omega (arith, last, v.epilogue);
        },
        λ a. Live.live-free_at a ptr p bs large u,
      ),
    )

-- The words that `extend_heap` joins.
pub extended-grown :
    (w : Words) (end n : ℕ)
    → n % 8 ≡ 0
    → 8 ≤ n
    → put
        (hdrp (next_blkp (end + 4) (mark (end + 4) n false w)))
        (pack 0 true)
        (mark (end + 4) n false w)
      ≡ grown w end n
unfolding grown
extended-grown w end n aligned large =
    let marked = mark-stamp w end n false aligned large in
    let next = next_blkp-stamp w end n false aligned large in
    ap (λ w'. put (hdrp (next_blkp (end + 4) w')) 1 w') marked
    ∙ ap (λ q. put (hdrp q) 1 (stamp w end (free n))) next
    ∙ ap (λ q. put q 1 (stamp w end (free n))) (omega arith)

pub AreTiles-nonempty :
    (w : Words) (p end : ℕ) (bs : List Block) → AreTiles w p bs end → p < end → bs ≢ []
AreTiles-nonempty w p end [] t lt e = omega (arith, t)
AreTiles-nonempty w p end (b ∷ bs) t lt e = ground (arith, e)

-- Where `mem_sbrk` gave `n` bytes behind the heap, they become a free block behind the last one.
add_block-IsHeapOf :
    (n : ℕ) (h : Heap) (memory : Memory) (bs : List Block)
    → IsHeapOf h bs
    → n % 8 ≡ 0
    → 8 ≤ n
    → IsHeap memory
    → memory.brk ≡ h.memory.brk + n
    → memory.start_brk ≡ h.memory.start_brk
    → let (bp, h') = add_block h.memory.brk n (record h { memory = memory }) in
      IsHeapOf h' (append_free n bs)
      × (bp ≡ last_at (h.memory.start_brk + 4) bs)
      × (h'.memory.start_brk ≡ h.memory.start_brk)
unfolding add_block
add_block-IsHeapOf n h memory bs v aligned large m grew same_start =
    let p : ℕ = h.memory.start_brk + 4 in
    let end : ℕ = h.memory.brk - 4 in
    let at_end : end + 4 ≡ h.memory.brk = omega (arith, v.sized) in
    let nonempty : bs ≢ [] =
      λ e. absurd (AreTiles-nonempty h.word p end bs v.tiles (omega (arith, v.sized)) e) in
    let (tiles, one, same, at) =
      grown-coalesce h.word p end n bs v.tiles nonempty aligned large
        (omega (arith, m.below, m.low)) in
    let words = ap (λ w'. coalesce (end + 4) w') (extended-grown h.word end n aligned large) in
    let h' = record h { memory = memory } in
    let result : add_block h.memory.brk n h' ≡ (
      (coalesce (end + 4) (grown h.word end n)).0,
      record h' { word = (coalesce (end + 4) (grown h.word end n)).1 },
    ) =
      ap (λ q. add_block q n h') (sym at_end) ∙ ap (λ c. (c.0, record h' { word = c.1 })) words in
    let start : p ≡ memory.start_brk + 4 = omega (arith, same_start) in
    let stop : end + n ≡ memory.brk - 4 = omega (arith, at_end, grew) in
    let w' = (coalesce (end + 4) (grown h.word end n)).1 in
    subst
      (λ r.
        IsHeapOf r.1 (append_free n bs)
        × (r.0 ≡ last_at p bs)
        × (r.1.memory.start_brk ≡ h.memory.start_brk))
      (sym result)
      (
        record {
          memory = m;
          begins = omega (arith, v.begins, same_start);
          aligned = omega (arith, v.aligned, same_start);
          sized = omega (arith, v.sized, same_start, grew);
          tiles =
              subst (λ e. AreTiles w' (memory.start_brk + 4) (append_free n bs) e) stop
                (AreTiles-at w' p (memory.start_brk + 4) (end + n) (append_free n bs) start tiles);
          epilogue = subst (λ e. w' e ≡ 1) stop one;
        },
        at,
        same_start,
      )

mem_sbrk-start : (incr : ℕ) (m : Memory) → (mem_sbrk incr m).1.start_brk ≡ m.start_brk
unfolding mem_sbrk
mem_sbrk-start incr m = ground arith

-- An extension puts a free block behind the last one, or fails and changes nothing.
abbrev pub IsExtended : ℕ → Heap → List Block → ℕ × Heap → Type 0
IsExtended n h bs (bp, h') =
    (((mem_sbrk n h.memory).0 ≡ none) × (bp ≡ 0) × (h' ≡ h))
    ⊎ (IsHeapOf h' (append_free n bs)
        × (bp ≡ last_at (h.memory.start_brk + 4) bs)
        × (h'.memory.start_brk ≡ h.memory.start_brk))

extend_by-IsExtended :
    (n : ℕ) (h : Heap) (bs : List Block)
    → IsHeapOf h bs
    → n % 8 ≡ 0
    → 8 ≤ n
    → IsExtended n h bs (extend_by n h)
unfolding extend_by
extend_by-IsExtended n h bs v aligned large =
    let (m, answer) = mem_sbrk-IsHeap n h.memory v.memory in
    elim answer [
      | inl (refused, kept) ↦
          inl (refused, rw (refused, extend_by) refl, rw (refused, kept, extend_by) refl)
      | inr (given, grew) ↦ inr (
          rw (given, extend_by)
            (add_block-IsHeapOf n h (mem_sbrk n h.memory).1 bs v aligned large m grew
              (mem_sbrk-start n h.memory)))
    ]

pub extend_heap-IsExtended :
    (words : ℕ) (h : Heap) (bs : List Block)
    → IsHeapOf h bs
    → words % 2 ≡ 0
    → words ≢ 0
    → words < 2 ^ 30
    → IsExtended (words * 4) h bs (extend_heap words h)
unfolding extend_heap
extend_heap-IsExtended words h bs v even some_words few =
    let bytes : words * 4 ≡ even_bytes words = ground arith in
    subst (λ n. IsExtended (words * 4) h bs (extend_by n h)) bytes
      (extend_by-IsExtended (words * 4) h bs v (omega arith) (omega arith))
