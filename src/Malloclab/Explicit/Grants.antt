-- ===== src/Malloclab/Explicit/Grants.antt =====
-- A block that malloclab-handout/src/mm.c takes for a request, as an insertion into the map of live
-- blocks.
use mathlib.Core.Path.{subst, sym, ◌∙◌}
use sysprog2021s.Prelude.{
  ◌||◌, ℕ, ◌+◌, ◌-◌, ◌*◌, ◌%◌, ◌≤◌, ◌<◌, ◌^◌, ◌≡◌, ◌≢◌, refl, ap, Option, none, some, List, ◌∷◌,
  ◌++◌, ◌==◌, ltb, if◌then◌else◌, ◌⊎◌, inl, inr, arith, Bool-cases,
}
use sysprog2021s.Malloclab.Memlib.{Memory, mem_sbrk, is_negative, add_address}
use sysprog2021s.Malloclab.Memlib.Areas.{IsHeap}
use sysprog2021s.Malloclab.Blocks.{Block}
use sysprog2021s.Malloclab.Live
use sysprog2021s.Malloclab.Live.{
  free, live, placed, place_at, append_free, last_at, size_at, IsFitAt, AllLarge,
}
use sysprog2021s.Malloclab.Places.{end_of}
use sysprog2021s.Malloclab.Implicit.Grants.{IsFitAt-aligned}
use sysprog2021s.Malloclab.Explicit.{Heap, place, add_block, even_bytes, extend_heap}
use sysprog2021s.Malloclab.Explicit.Hands.{IsFull}
use sysprog2021s.Malloclab.Explicit.Frees.{IsListedHeap, view, AllRoomy-AllLarge}
use sysprog2021s.Malloclab.Explicit.Placements.{place-IsFull}
use sysprog2021s.Malloclab.Explicit.Searches.{IsFitAt-IsFound}
use sysprog2021s.Malloclab.Explicit.Extensions.{longer, add_block-IsListedHeap}

-- A block of at least `bsize` bytes became live at `ptr`, and nothing else changed in the map.
pub record IsGranted (h : Heap) (bs : List Block) (bsize ptr : ℕ) (h' : Heap) : Type 0 where
  pub blocks : List Block
  pub size : ℕ
  pub heap : IsListedHeap h' blocks
  pub start : h'.memory.start_brk ≡ h.memory.start_brk
  pub large : bsize ≤ size
  pub aligned : ptr % 8 ≡ 0
  pub not_null : ptr ≢ 0
  pub new : view h bs ptr ≡ none
  pub added : (a : ℕ) → view h' blocks a ≡ (if a == ptr then some size else view h bs a)

pub place-IsGranted :
    (h : Heap) (bs : List Block) (q bsize : ℕ)
    → IsListedHeap h bs
    → IsFitAt q bsize (h.memory.start_brk + 4) bs
    → bsize % 8 ≡ 0
    → 16 ≤ bsize
    → IsGranted h bs bsize q (place q bsize h)
place-IsGranted h bs q bsize (fs, v) f aligned large =
    let p : ℕ = h.memory.start_brk + 4 in
    let end : ℕ = h.memory.brk - 4 in
    let sizes = AllRoomy-AllLarge bs v.state.tiled.roomy in
    let found = IsFitAt-IsFound q bsize p bs sizes f in
    let v' : IsFull h (found.front ++ (free found.size ∷ found.rest)) fs =
      subst (λ bs. IsFull h bs fs) found.split v in
    let now =
      place-IsFull h found.front found.size found.rest fs bsize v' aligned large found.fits in
    let (heap, memory) : IsListedHeap (place q bsize h) (place_at q bsize p bs)
        × ((place q bsize h).memory ≡ h.memory) =
      subst
        (λ q'.
          IsListedHeap (place q' bsize h) (place_at q bsize p bs)
          × ((place q' bsize h).memory ≡ h.memory))
        found.at
        (subst
          (λ bs'.
            IsListedHeap (place (end_of p found.front + 4) bsize h) bs'
            × ((place (end_of p found.front + 4) bsize h).memory ≡ h.memory))
          (sym found.result) now) in
    let start = ap (λ m. m.start_brk) memory in
    record {
      blocks = place_at q bsize p bs;
      size = size_at q bsize p bs;
      heap = heap;
      start = start;
      large = Live.size_at-le q bsize p bs f sizes;
      aligned =
          IsFitAt-aligned h.word q bsize p end bs v.state.tiled.tiles f
            (omega (arith, v.state.tiled.aligned));
      not_null = λ e. absurd (omega (arith, e, Live.IsFitAt-below q bsize p bs sizes f));
      new = (Live.live-place_at q q bsize p bs sizes (omega arith) f).0;
      added = λ a.
          ap (λ s. live a (s + 4) (place_at q bsize p bs)) start
          ∙ (Live.live-place_at a q bsize p bs sizes (omega arith) f).1;
    }

-- The same after an extension, which does not change the map.
pub extended-IsGranted :
    (h h' : Heap) (bs : List Block) (n q bsize : ℕ)
    → IsListedHeap h' (append_free n bs)
    → q ≡ last_at (h.memory.start_brk + 4) bs
    → h'.memory.start_brk ≡ h.memory.start_brk
    → bsize % 8 ≡ 0
    → 16 ≤ bsize
    → bsize ≤ n
    → IsGranted h bs bsize q (place q bsize h')
extended-IsGranted h h' bs n q bsize v at start aligned large fits =
    let p : ℕ = h.memory.start_brk + 4 in
    let fit : IsFitAt q bsize (h'.memory.start_brk + 4) (append_free n bs) =
      subst (λ x. IsFitAt x bsize (h'.memory.start_brk + 4) (append_free n bs)) (sym at)
        (subst (λ s. IsFitAt (last_at p bs) bsize (s + 4) (append_free n bs)) (sym start)
          (Live.last_at-IsFitAt bsize n p bs fits)) in
    let g = place-IsGranted h' (append_free n bs) q bsize v fit aligned large in
    let view_same : (a : ℕ) → view h' (append_free n bs) a ≡ view h bs a =
      λ a. ap (λ s. live a (s + 4) (append_free n bs)) start ∙ Live.live-append_free a n p bs in
    record {
      blocks = g.blocks;
      size = g.size;
      heap = g.heap;
      start = g.start ∙ start;
      large = g.large;
      aligned = g.aligned;
      not_null = g.not_null;
      new = sym (view_same q) ∙ g.new;
      added = λ a. g.added a ∙ ap (λ v. if a == q then some g.size else v) (view_same a);
    }

-- An extension puts a free block behind the last one, or fails and changes nothing.
abbrev pub IsExtended : ℕ → Heap → List Block → ℕ × Heap → Type 0
IsExtended n h bs (bp, h') =
    (((mem_sbrk n h.memory).0 ≡ none) × (bp ≡ 0) × (h' ≡ h))
    ⊎ (IsListedHeap h' (append_free n bs)
        × (bp ≡ last_at (h.memory.start_brk + 4) bs)
        × (h'.memory ≡ longer n h.memory))

mem_sbrk-longer :
    (n : ℕ) (m : Memory)
    → IsHeap m
    → (mem_sbrk n m ≡ (none, m)) ⊎ ((mem_sbrk n m ≡ (some m.brk, longer n m)) × IsHeap (longer n m))
unfolding mem_sbrk
mem_sbrk-longer n m v = elim (Bool-cases (is_negative n || ltb m.max_addr (add_address m.brk n))) [
  | inl refused ↦ inl (rw refused refl)
  | inr granted ↦
      let brk : add_address m.brk n ≡ m.brk + n = ground arith in
      inr (
        rw granted (ap (λ b. (some m.brk, record m { brk = b })) brk),
        record {
          begins = v.begins;
          above = omega (arith, v.above);
          below = ground (arith, v.below, v.low);
          extent = v.extent;
          low = v.low;
        },
      )
]

-- What `extend_heap` does with the answer of `mem_sbrk`.
abbrev pub answered : (size : ℕ) → Heap → Option ℕ × Memory → ℕ × Heap
answered size h (answer, memory) = elim answer [
  | none ↦ (0, record h { memory = memory })
  | some bp ↦ add_block bp size (record h { memory = memory })
]

answered-IsExtended :
    (n : ℕ) (h : Heap) (bs : List Block)
    → IsListedHeap h bs
    → n % 8 ≡ 0
    → 16 ≤ n
    → IsExtended n h bs (answered n h (mem_sbrk n h.memory))
answered-IsExtended n h bs (fs, v) n8 large =
    elim (mem_sbrk-longer n h.memory v.state.tiled.memory) [
      | inl e ↦
          subst (λ r. IsExtended n h bs (answered n h r)) (sym e)
            (inl (ap (λ r. r.0) e, refl, refl))
      | inr (e, more) ↦
          subst (λ r. IsExtended n h bs (answered n h r)) (sym e)
            (inr (add_block-IsListedHeap h n bs fs v more n8 large))
    ]

pub extend_heap-IsExtended :
    (words : ℕ) (h : Heap) (bs : List Block)
    → IsListedHeap h bs
    → words % 2 ≡ 0
    → 4 ≤ words
    → words < 2 ^ 30
    → IsExtended (words * 4) h bs (extend_heap words h)
unfolding extend_heap
extend_heap-IsExtended words h bs v even some_words few =
    let bytes : words * 4 ≡ even_bytes words = ground arith in
    subst (λ n. IsExtended (words * 4) h bs (answered n h (mem_sbrk n h.memory))) bytes
      (answered-IsExtended (words * 4) h bs v (omega arith) (omega arith))
