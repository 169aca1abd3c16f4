-- ===== src/Malloclab/Implicit/Realloc.antt =====
-- `mm_realloc` of malloclab-handout/mm_implicit.c on the map of live blocks.
use sysprog2021s.Prelude.{
  ℕ, ◌+◌, ◌-◌, ◌%◌, ◌≤◌, ◌<◌, ◌^◌, ◌≡◌, ◌≢◌, refl, ap, true, false, ◌&&◌, none, some, List, [], ◌∷◌,
  ◌==◌, ltb, if◌then◌else◌, ◌⊎◌, inl, inr, arith, Bool-cases,
}
use sysprog2021s.Prelude.Fallible.{◌>>=◌}
use sysprog2021s.Malloclab.Words.{memcpy, Words, add_size, align, dsize, get_size, hdrp}
use sysprog2021s.Malloclab.Blocks.{Block, AreTiles, AreTiles-le, AreTiles-IsSame}
use sysprog2021s.Malloclab.Live.{live}
use sysprog2021s.Malloclab.Implicit.{Heap, move, move_in, mm_realloc}
use sysprog2021s.Malloclab.Implicit.Heaps.{IsHeapOf, view, mm_free-IsHeapOf}
use sysprog2021s.Malloclab.Implicit.Init.{live-inside}
use sysprog2021s.Malloclab.Implicit.Grants.{IsGranted}
use sysprog2021s.Malloclab.Implicit.Malloc.{IsAllocated, mm_malloc-IsAllocated}

-- Only the payload of the block at `a` changes.
abbrev IsPayload : Words → Words → ℕ → ℕ → Type 0
IsPayload w w' a s = (q : ℕ) → (q < a) ⊎ (a + s ≤ q + 8) → w' q ≡ w q

payload-AreTiles :
    (w w' : Words) (a s p end : ℕ) (bs : List Block)
    → AreTiles w p bs end
    → live a p bs ≡ some s
    → IsPayload w w' a s
    → AreTiles w' p bs end × (w' end ≡ w end)
unfolding live
payload-AreTiles w w' a s p end [] t e same = absurd (ground arith)
payload-AreTiles w w' a s p end (b ∷ bs) t e same =
    let le = AreTiles-le w (p + b.size) end bs t.1 in
    elim (Bool-cases (a == p + 4 && b.used)) [
      | inl here ↦
          let at : a ≡ p + 4 = ground arith in
          let size : s ≡ b.size = ground arith in
          let header = same p (inl (omega arith)) in
          let footer = same (p + b.size - 4) (inr (omega (arith, t.0))) in
          let rest =
            AreTiles-IsSame w w' (p + b.size) end bs t.1
              (λ q from to. same q (inr (omega (arith, from)))) in
          ((ground (arith, header, footer), rest), same end (inr (omega arith)))
      | inr later ↦
          let e' : live a (p + b.size) bs ≡ some s = ground arith in
          let inside = live-inside w a s (p + b.size) end bs t.1 e' in
          let header = same p (inl (omega (arith, inside))) in
          let footer = same (p + b.size - 4) (inl (omega (arith, inside, t.0))) in
          let (rest, last) = payload-AreTiles w w' a s (p + b.size) end bs t.1 e' same in
          ((ground (arith, header, footer), rest), last)
    ]

pub memcpy-IsPayload :
    (w : Words) (dst src n s : ℕ)
    → s % 8 ≡ 0
    → n + 8 ≤ s
    → dst % 8 ≡ 0
    → (q : ℕ) → (q < dst) ⊎ (dst + s ≤ q + 8)
    → memcpy dst src n w q ≡ w q
unfolding memcpy
memcpy-IsPayload w dst src n s aligned fits a q (inl below) = ground arith
memcpy-IsPayload w dst src n s aligned fits a q (inr above) = ground arith

pub live-aligned :
    (w : Words) (a s p end : ℕ) (bs : List Block)
    → AreTiles w p bs end
    → live a p bs ≡ some s
    → (s % 8 ≡ 0) × (8 ≤ s)
unfolding live
live-aligned w a s p end [] t e = absurd (ground arith)
live-aligned w a s p end (b ∷ bs) t e = ground (arith, live-aligned w a s (p + b.size) end bs t.1)

-- A copy into the payload of a live block keeps the heap.
memcpy-IsHeapOf :
    (h : Heap) (bs : List Block) (dst src n s : ℕ)
    → IsHeapOf h bs
    → view h bs dst ≡ some s
    → n + 8 ≤ s
    → dst % 8 ≡ 0
    → IsHeapOf (record h { word = memcpy dst src n h.word }) bs
memcpy-IsHeapOf h bs dst src n s v e fits aligned =
    let p : ℕ = h.memory.start_brk + 4 in
    let end : ℕ = h.memory.brk - 4 in
    let (eighth, large) = live-aligned h.word dst s p end bs v.tiles e in
    let (tiles, last) =
      payload-AreTiles h.word (memcpy dst src n h.word) dst s p end bs v.tiles e
        (memcpy-IsPayload h.word dst src n s eighth fits aligned) in
    record {
      memory = v.memory;
      begins = v.begins;
      aligned = v.aligned;
      sized = v.sized;
      tiles = tiles;
      epilogue = omega (arith, last, v.epilogue);
    }

-- A block of at least `bsize` bytes took the place of the one at `ptr`.
pub record IsMoved (h : Heap) (bs : List Block) (bsize ptr newptr : ℕ) (h' : Heap) : Type 0 where
  pub blocks : List Block
  pub size : ℕ
  pub heap : IsHeapOf h' blocks
  pub large : bsize ≤ size
  pub aligned : newptr % 8 ≡ 0
  pub new : view h bs newptr ≡ none
  pub moved :
      (a : ℕ)
      → view h' blocks a
        ≡ (if a == ptr then none else if a == newptr then some size else view h bs a)

move-IsMoved :
    (h : Heap) (bs : List Block) (bsize ptr newptr size s : ℕ) (h' : Heap)
    → IsHeapOf h bs
    → view h bs ptr ≡ some s
    → ptr ≢ h.heap_listp
    → size + 8 ≤ bsize
    → IsGranted h bs bsize newptr h'
    → IsMoved h bs bsize ptr newptr (move ptr newptr size h')
unfolding move
move-IsMoved h bs bsize ptr newptr size s h' v e n fits g =
    let copysize : ℕ =
      (if ltb size (get_size (hdrp ptr) h'.word) then size else get_size (hdrp ptr) h'.word) in
    let few : copysize ≤ size = ground arith in
    let here : view h' g.blocks newptr ≡ some g.size = ground (arith, g.added newptr) in
    let there : view h' g.blocks ptr ≡ some s = ground (arith, g.added ptr, g.new) in
    let copied =
      memcpy-IsHeapOf h' g.blocks newptr ptr copysize g.size g.heap here
        (omega (arith, g.large, few)) g.aligned in
    let (blocks, (heap, freed)) =
      mm_free-IsHeapOf (record h' { word = memcpy newptr ptr copysize h'.word }) g.blocks ptr s
        copied there (omega (arith, g.heap.begins, v.begins, g.start)) in
    record {
      blocks = blocks;
      size = g.size;
      heap = heap;
      large = g.large;
      aligned = g.aligned;
      new = g.new;
      moved = λ a. ground (arith, freed a, g.added a);
    }

move_in-IsMoved :
    (h : Heap) (bs : List Block) (bsize ptr size s : ℕ) (r : ℕ × Heap)
    → IsHeapOf h bs
    → view h bs ptr ≡ some s
    → ptr ≢ h.heap_listp
    → size + 8 ≤ bsize
    → IsAllocated h bs bsize r
    → let (newptr, h') = move_in ptr size r in
      ((newptr ≡ 0) × (h' ≡ h)) ⊎ IsMoved h bs bsize ptr newptr h'
unfolding move_in
move_in-IsMoved h bs bsize ptr size s (q, h') v e n fits (inl (null, same, no_fit, refused)) =
    let test : (q == 0) ≡ true = ground arith in rw test (inl (refl, same))
move_in-IsMoved h bs bsize ptr size s (q, h') v e n fits (inr g) =
    let test : (q == 0) ≡ false = ground (arith, g.not_null) in
    rw test (inr (move-IsMoved h bs bsize ptr q size s h' v e n fits g))

-- On a well-formed heap, `mm_realloc` of a live block other than the prologue, to a size that is not
-- 0 and does not overflow, ends. It returns NULL and changes nothing, or a new block large enough
-- takes the place of the old one in the map; no other entry changes.
pub mm_realloc-IsMoved :
    (h : Heap) (bs : List Block) (ptr size s : ℕ)
    → IsHeapOf h bs
    → view h bs ptr ≡ some s
    → ptr ≢ h.heap_listp
    → size ≢ 0
    → size + 16 < 2 ^ 32
    → (bsize : ℕ) × (r : ℕ × Heap) × ((mm_realloc ptr size h ≡ some r)
        × (size + 8 ≤ bsize)
        × (((r.0 ≡ 0) × (r.1 ≡ h)) ⊎ IsMoved h bs bsize ptr r.0 r.1))
unfolding mm_realloc
mm_realloc-IsMoved h bs ptr size s v e n nz small =
    let bsize : ℕ = add_size (align size) dsize in
    let (r, (done, fits, near, result)) = mm_malloc-IsAllocated h bs size v nz small in
    (
      bsize,
      move_in ptr size r,
      (
        ap (λ o. o >>= (λ r. some (move_in ptr size r))) done,
        fits,
        move_in-IsMoved h bs bsize ptr size s r v e n fits result,
      ),
    )
