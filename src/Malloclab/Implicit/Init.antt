-- ===== src/Malloclab/Implicit/Init.antt =====
-- `mm_init` of malloclab-handout/mm_implicit.c, and where live blocks lie.
use mathlib.Core.Path.{subst, sym}
use sysprog2021s.Prelude.{
  ℕ, ◌+◌, ◌-◌, ◌*◌, ◌%◌, ◌≤◌, ◌<◌, ◌≡◌, ◌≢◌, refl, ap, ◌∙◌, true, none, some, List, [], ◌∷◌, inl,
  inr, arith,
}
use sysprog2021s.Malloclab.Memlib.{Memory, mem_sbrk}
use sysprog2021s.Malloclab.Memlib.Areas.{IsHeap, mem_sbrk-IsHeap}
use sysprog2021s.Malloclab.Words.{Words, put, wsize}
use sysprog2021s.Malloclab.Blocks.{Block, AreTiles, AreTiles-le}
use sysprog2021s.Malloclab.Live.{live, free, full, append_free, last_at}
use sysprog2021s.Malloclab.Implicit.{Heap, empty_list, init_at, mm_init}
use sysprog2021s.Malloclab.Implicit.Heaps.{IsHeapOf, extend_heap-IsExtended}

-- A live block lies inside the heap.
pub live-inside :
    (w : Words) (a s p end : ℕ) (bs : List Block)
    → AreTiles w p bs end
    → live a p bs ≡ some s
    → (p + 4 ≤ a) × (a + s ≤ end + 4)
unfolding live
live-inside w a s p end [] t e = absurd (ground arith)
live-inside w a s p end (b ∷ bs) t e =
    ground (arith, AreTiles-le w (p + b.size) end bs t.1, live-inside w a s (p + b.size) end bs t.1)

-- So two live blocks do not overlap.
pub live-apart :
    (w : Words) (a s b t p end : ℕ) (bs : List Block)
    → AreTiles w p bs end
    → live a p bs ≡ some s
    → live b p bs ≡ some t
    → a < b
    → a + s ≤ b
unfolding live
live-apart w a s b t p end [] tiles e f lt = absurd (ground arith)
live-apart w a s b t p end (c ∷ bs) tiles e f lt = ground (
  arith,
  live-apart w a s b t (p + c.size) end bs tiles.1,
  live-inside w b t (p + c.size) end bs tiles.1,
  live-inside w a s (p + c.size) end bs tiles.1,
)

empty_list-AreTiles :
    (p : ℕ) (w : Words)
    → AreTiles (empty_list p w) (p + 4) (full 8 ∷ []) (p + 12) × (empty_list p w (p + 12) ≡ 1)
unfolding empty_list put
empty_list-AreTiles p w = ground arith

some-none : {n : ℕ} → some n ≢ none
some-none e = cc

-- A request that the heap has room for is granted.
pub mem_sbrk-granted :
    (n : ℕ) (m : Memory)
    → IsHeap m
    → m.brk + n ≤ m.max_addr
    → mem_sbrk n m ≡ (some m.brk, record m { brk = m.brk + n })
unfolding mem_sbrk
mem_sbrk-granted n m h room = ground arith

init_at-IsHeapOf :
    (h : Heap) (m : Memory)
    → IsHeap m
    → m.brk ≡ m.start_brk + 16
    → m.start_brk % 8 ≡ 0
    → let (ok, h') = init_at m.start_brk m h in (ok ≡ true) × IsHeapOf h' (full 8 ∷ free 4096 ∷ [])
unfolding init_at append_free last_at
init_at-IsHeapOf h m v at aligned =
    let h1 : Heap = record {
      memory = m;
      word = empty_list m.start_brk h.word;
      heap_listp = m.start_brk + 2 * wsize;
    } in
    let (tiles, one) = empty_list-AreTiles m.start_brk h.word in
    let end : m.start_brk + 12 ≡ m.brk - 4 = omega arith in
    let base : IsHeapOf h1 (full 8 ∷ []) = record {
      memory = v;
      begins = omega arith;
      aligned = aligned;
      sized = omega (arith, at);
      tiles = subst (λ e. AreTiles h1.word (m.start_brk + 4) (full 8 ∷ []) e) end tiles;
      epilogue = subst (λ e. h1.word e ≡ 1) end one;
    } in
    let granted = mem_sbrk-granted 4096 m v (omega (arith, at, v.extent)) in
    elim (extend_heap-IsExtended 1024 h1 (full 8 ∷ []) base refl (omega arith) (omega arith)) [
      | inl (refused, null, same) ↦ absurd (some-none (sym (ap (λ r. r.0) granted) ∙ refused))
      | inr (grown, bp, start) ↦ (ground (arith, bp), grown)
    ]

-- From an empty memory system `mm_init` succeeds, and makes a heap of the prologue and one free
-- block of 4096 bytes.
pub mm_init-IsHeapOf :
    (h : Heap)
    → IsHeap h.memory
    → h.memory.brk ≡ h.memory.start_brk
    → h.memory.start_brk % 8 ≡ 0
    → let (ok, h') = mm_init h in (ok ≡ true) × IsHeapOf h' (full 8 ∷ free 4096 ∷ [])
unfolding mm_init
mm_init-IsHeapOf h m empty aligned =
    let granted = mem_sbrk-granted 16 h.memory m (omega (arith, empty, m.extent)) in
    let m' : Memory = record h.memory { brk = h.memory.brk + 16 } in
    let after = ap (λ r. r.1) granted in
    let v : IsHeap m' = subst IsHeap after (mem_sbrk-IsHeap 16 h.memory m).0 in
    let started = init_at-IsHeapOf h m' v (omega (arith, empty)) aligned in
    let initial =
      subst
        (λ p. ((init_at p m' h).0 ≡ true) × IsHeapOf (init_at p m' h).1 (full 8 ∷ free 4096 ∷ []))
        (sym empty) started in
    rw (granted, mm_init)
      (subst
        (λ m.
          ((init_at h.memory.brk m h).0 ≡ true)
          × IsHeapOf (init_at h.memory.brk m h).1 (full 8 ∷ free 4096 ∷ []))
        (sym after) initial)
