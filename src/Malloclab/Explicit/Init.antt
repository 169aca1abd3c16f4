-- ===== src/Malloclab/Explicit/Init.antt =====
-- `mm_init` of malloclab-handout/src/mm.c, and what the map of live blocks promises.
use mathlib.Core.List.{Memᴰ}
use mathlib.Core.Path.{subst, sym, ◌∙◌}
use sysprog2021s.Prelude.{
  ℕ, ◌+◌, ◌-◌, ◌%◌, ◌≤◌, ◌^◌, ◌≡◌, ◌≢◌, refl, ap, Bool, true, false, not, Option, none, some, [],
  ◌∷◌, ◌==◌, inl, inr, arith,
}
use sysprog2021s.Malloclab.Memlib.{Memory}
use sysprog2021s.Malloclab.Memlib.Areas.{IsHeap}
use sysprog2021s.Malloclab.Live.{free}
use sysprog2021s.Malloclab.Explicit.{Heap, add_block, extend_heap}
use sysprog2021s.Malloclab.Explicit.Frees.{IsListedHeap}
use sysprog2021s.Malloclab.Explicit.Extensions.{longer}
use sysprog2021s.Malloclab.Words.{put}
use sysprog2021s.Malloclab.Live.{full}
use sysprog2021s.Malloclab.Implicit.Init.{mem_sbrk-granted}
use sysprog2021s.Malloclab.Explicit.{mm_init, empty_list, mark, set_root, coalesce}
use sysprog2021s.Malloclab.Explicit.FreeList.{IsList}
use sysprog2021s.Malloclab.Explicit.States.{IsTiled}
use sysprog2021s.Malloclab.Explicit.Roots.{set_root-IsState, set_root-frame}
use sysprog2021s.Malloclab.Explicit.Extensions.{grown_heap, IsTiled-grown, add_block-grown}
use sysprog2021s.Malloclab.Explicit.Grants.{answered}
use sysprog2021s.Malloclab.Implicit.Extend.{grown-lem}
use sysprog2021s.Malloclab.Explicit.Merges

-- The prologue, which `empty_list` links to the address behind it.
empty_list-IsTiled :
    (h : Heap) (m : Memory)
    → IsHeap m
    → m.brk ≡ m.start_brk + 24
    → m.start_brk % 8 ≡ 0
    → let h' = empty_list m.start_brk (record h { memory = m }) in
      IsTiled h' (full 16 ∷ []) × IsList (m.start_brk + 24) h' []
unfolding empty_list mark put
empty_list-IsTiled h m v at aligned =
    let p : ℕ = m.start_brk in
    let h' = empty_list p (record h { memory = m }) in
    let words : (h'.word (p + 4) ≡ 17)
        × (h'.word (p + 16) ≡ 17)
        × (h'.word (p + 20) ≡ 1)
        × (h'.word (p + 12) ≡ p + 24) =
      ground arith in
    let end : p + 20 ≡ m.brk - 4 = omega arith in
    (
      record {
        memory = v;
        prologue = refl;
        aligned = aligned;
        sized = omega (arith, at);
        tiles = (
          (words.0, subst (λ q. h'.word q ≡ 17) (omega arith) words.1, refl, omega arith),
          omega arith,
        );
        epilogue = subst (λ q. h'.word q ≡ 1) end words.2;
        roomy = (omega arith, tt);
        anchor = inl (omega arith, refl);
      },
      record {
        linked = (refl, subst (λ q. h'.word q ≡ p + 24) (omega arith) words.3);
        apart = omega arith;
      },
    )

-- Behind the prologue alone, the new block is the only free one.
begun-IsListedHeap :
    (h : Heap) (n pred : ℕ)
    → IsTiled h (full 16 ∷ [])
    → IsList pred h []
    → IsHeap (longer n h.memory)
    → n % 8 ≡ 0
    → 16 ≤ n
    → let (bp, h') = add_block h.memory.brk n (record h { memory = longer n h.memory }) in
      IsListedHeap h' (full 16 ∷ free n ∷ []) × (bp ≢ 0)
begun-IsListedHeap h n pred t l more n8 large =
    let p : ℕ = h.memory.start_brk + 4 in
    let end : ℕ = h.memory.brk - 4 in
    let h2 = grown_heap n h in
    let t2 = IsTiled-grown h n (full 16 ∷ []) t more n8 large in
    let tiles = t2.tiles in
    let at : p + 16 ≡ end = t.tiles.1 in
    let odd : h2.word (p + 16 + n) % 2 ≡ 1 =
      subst (λ q. h2.word q % 2 ≡ 1) (sym tiles.1.1) (omega (arith, t2.epilogue)) in
    let joined : coalesce (p + 16 + 4) h2 ≡ (p + 16 + 4, h2) =
      Merges.coalesce-used h2 p 16 (p + 16) n refl tiles.0 tiles.1.0 odd in
    let result : add_block h.memory.brk n (record h { memory = longer n h.memory })
        ≡ (p + 16 + 4, set_root (p + 16 + 4) h2) =
      add_block-grown h n (full 16 ∷ []) t more n8 large
      ∙ ap (λ (x : ℕ). let (bp, h3) = coalesce (x + 4) h2 in (bp, set_root bp h3)) (sym at)
      ∙ ap (λ r. let (bp, h3) = r in (bp, set_root bp h3)) joined in
    let (tile, last, same) = grown-lem h.word end n n8 (omega arith) in
    let kept = same (h.prol_bp + 4) (omega arith) (omega (arith, t.prologue, at)) in
    let l2 : IsList pred h2 [] = record {
      linked = (l.linked.0, kept ∙ l.linked.1);
      apart = l.apart;
    } in
    let state =
      set_root-IsState pred h2 (full 16 ∷ free n ∷ []) [] (p + 16 + 4) t2 l2 (λ x i. elim i [ ])
        (inr (inl (omega arith, refl))) (omega (arith, t.aligned)) (λ i. elim i [ ])
        (λ e. omega (arith, e, t.prologue)) in
    subst (λ r. IsListedHeap r.1 (full 16 ∷ free n ∷ []) × (r.0 ≢ 0)) (sym result)
      (
        (
          (p + 16 + 4) ∷ [],
          record {
            state = state;
            listed =
                λ x i. Memᴰ.head (ground (arith, i, t.tiles, (set_root-frame h2 (p + 16 + 4)).0));
          },
        ),
        λ e. omega (arith, e),
      )

longer-IsHeap : (n : ℕ) (m : Memory) → IsHeap m → m.brk + n ≤ m.max_addr → IsHeap (longer n m)
longer-IsHeap n m v room = record {
  begins = v.begins;
  above = omega (arith, v.above);
  below = room;
  extent = v.extent;
  low = v.low;
}

-- What `mm_init` does behind `mem_sbrk`, which gave `p`.
abbrev begun : (p : ℕ) → Heap → Bool × Heap
begun p h = let (bp, h') = extend_heap 1024 (empty_list p h) in (not (bp == 0), h')

begun_at-IsListedHeap :
    (h : Heap) (m : Memory)
    → IsHeap m
    → m.brk ≡ m.start_brk + 24
    → m.start_brk % 8 ≡ 0
    → let (ok, h') = begun m.start_brk (record h { memory = m }) in
      (ok ≡ true) × IsListedHeap h' (full 16 ∷ free 4096 ∷ [])
unfolding extend_heap empty_list mark
begun_at-IsListedHeap h m v at aligned =
    let h1 = empty_list m.start_brk (record h { memory = m }) in
    let (tiled, list) = empty_list-IsTiled h m v at aligned in
    let room : m.brk + 4096 ≤ m.max_addr = omega (arith, at, v.extent) in
    let granted = mem_sbrk-granted 4096 m v room in
    let (heap, ne) =
      begun-IsListedHeap h1 4096 (m.start_brk + 24) tiled list (longer-IsHeap 4096 m v room) refl
        (omega arith) in
    subst
      (λ a.
        let (bp, h') = answered 4096 h1 a in
        (not (bp == 0) ≡ true) × IsListedHeap h' (full 16 ∷ free 4096 ∷ []))
      (sym granted) (ground (arith, ne), heap)

-- What `mm_init` does with the answer of `mem_sbrk`.
abbrev initialised : Heap → Option ℕ × Memory → Bool × Heap
initialised h (answer, memory) = elim answer [
  | none ↦ (false, record h { memory = memory; prol_bp = 2 ^ 32 - 1 })
  | some p ↦ begun p (record h { memory = memory })
]

-- From an empty memory system `mm_init` succeeds; the prologue and one free block of 4096 bytes
-- fill the heap, and the list holds that block.
pub mm_init-IsListedHeap :
    (h : Heap)
    → IsHeap h.memory
    → h.memory.brk ≡ h.memory.start_brk
    → h.memory.start_brk % 8 ≡ 0
    → let (ok, h') = mm_init h in (ok ≡ true) × IsListedHeap h' (full 16 ∷ free 4096 ∷ [])
unfolding mm_init
mm_init-IsListedHeap h v empty aligned =
    let room : h.memory.brk + 24 ≤ h.memory.max_addr = omega (arith, empty, v.extent) in
    let m = longer 24 h.memory in
    let started =
      begun_at-IsListedHeap h m (longer-IsHeap 24 h.memory v room) (omega (arith, empty)) aligned in
    subst
      (λ a.
        let (ok, h') = initialised h a in (ok ≡ true) × IsListedHeap h' (full 16 ∷ free 4096 ∷ []))
      (sym (mem_sbrk-granted 24 h.memory v room))
      (subst
        (λ p.
          let (ok, h') = begun p (record h { memory = m }) in
          (ok ≡ true) × IsListedHeap h' (full 16 ∷ free 4096 ∷ []))
        (sym empty) started)
