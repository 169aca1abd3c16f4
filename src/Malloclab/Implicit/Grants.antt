-- ===== src/Malloclab/Implicit/Grants.antt =====
-- A block that mm_implicit.c takes for a request, as an insertion into the map of live blocks.
use mathlib.Core.Path.{subst, sym}
use sysprog2021s.Prelude.{
  ℕ, ◌+◌, ◌-◌, ◌%◌, ◌≤◌, ◌≡◌, ◌≢◌, refl, ap, ◌∙◌, none, some, List, [], ◌∷◌, ◌==◌, if◌then◌else◌,
  inl, inr, arith,
}
use sysprog2021s.Malloclab.Words.{Words}
use sysprog2021s.Malloclab.Blocks.{Block, AreTiles}
use sysprog2021s.Malloclab.Live
use sysprog2021s.Malloclab.Live.{
  live, first_fit, place_at, append_free, last_at, size_at, IsFitAt, AllLarge,
}
use sysprog2021s.Malloclab.Implicit.{Heap, place}
use sysprog2021s.Malloclab.Implicit.Blocks.{AreTiles-AllLarge, place-AreTiles}
use sysprog2021s.Malloclab.Implicit.Heaps.{IsHeapOf, view}

-- A block of at least `bsize` bytes became live at `ptr`, and nothing else changed in the map.
pub record IsGranted (h : Heap) (bs : List Block) (bsize ptr : ℕ) (h' : Heap) : Type 0 where
  pub blocks : List Block
  pub size : ℕ
  pub heap : IsHeapOf h' blocks
  pub start : h'.memory.start_brk ≡ h.memory.start_brk
  pub large : bsize ≤ size
  pub aligned : ptr % 8 ≡ 0
  pub not_null : ptr ≢ 0
  pub new : view h bs ptr ≡ none
  pub added : (a : ℕ) → view h' blocks a ≡ (if a == ptr then some size else view h bs a)

pub IsFitAt-aligned :
    (w : Words) (q bsize p end : ℕ) (bs : List Block)
    → AreTiles w p bs end
    → IsFitAt q bsize p bs
    → (p + 4) % 8 ≡ 0
    → q % 8 ≡ 0
IsFitAt-aligned w q bsize p end [] t f a = absurd f
IsFitAt-aligned w q bsize p end (b ∷ bs) t (inl (e, u, le)) a = omega (arith, e)
IsFitAt-aligned w q bsize p end (b ∷ bs) t (inr f) a =
    IsFitAt-aligned w q bsize (p + b.size) end bs t.1 f (omega (arith, t.0))

pub place-IsHeapOf :
    (h : Heap) (bs : List Block) (q bsize : ℕ)
    → IsHeapOf h bs
    → IsFitAt q bsize (h.memory.start_brk + 4) bs
    → bsize % 8 ≡ 0
    → 8 ≤ bsize
    → IsHeapOf
        (record h { word = place q bsize h.word })
        (place_at q bsize (h.memory.start_brk + 4) bs)
place-IsHeapOf h bs q bsize v f aligned large =
    let p : ℕ = h.memory.start_brk + 4 in
    let end : ℕ = h.memory.brk - 4 in
    let (tiles, last, same) =
      place-AreTiles h.word q bsize p end bs v.tiles f aligned large
        (omega (arith, v.memory.below, v.memory.low)) in
    record {
      memory = v.memory;
      begins = v.begins;
      aligned = v.aligned;
      sized = v.sized;
      tiles = tiles;
      epilogue = omega (arith, last, v.epilogue);
    }

pub place-IsGranted :
    (h : Heap) (bs : List Block) (q bsize : ℕ)
    → IsHeapOf h bs
    → IsFitAt q bsize (h.memory.start_brk + 4) bs
    → bsize % 8 ≡ 0
    → 8 ≤ bsize
    → IsGranted h bs bsize q (record h { word = place q bsize h.word })
place-IsGranted h bs q bsize v f aligned large =
    let p : ℕ = h.memory.start_brk + 4 in
    let end : ℕ = h.memory.brk - 4 in
    let sizes = AreTiles-AllLarge h.word p end bs v.tiles in
    record {
      blocks = place_at q bsize p bs;
      size = size_at q bsize p bs;
      heap = place-IsHeapOf h bs q bsize v f aligned large;
      start = refl;
      large = Live.size_at-le q bsize p bs f sizes;
      aligned = IsFitAt-aligned h.word q bsize p end bs v.tiles f (omega (arith, v.aligned));
      not_null = λ e. absurd (omega (arith, e, Live.IsFitAt-below q bsize p bs sizes f));
      new = (Live.live-place_at q q bsize p bs sizes large f).0;
      added = λ a. (Live.live-place_at a q bsize p bs sizes large f).1;
    }

-- The same after an extension, which does not change the map.
pub extended-IsGranted :
    (h h' : Heap) (bs : List Block) (n q bsize : ℕ)
    → IsHeapOf h' (append_free n bs)
    → q ≡ last_at (h.memory.start_brk + 4) bs
    → h'.memory.start_brk ≡ h.memory.start_brk
    → bsize % 8 ≡ 0
    → 8 ≤ bsize
    → bsize ≤ n
    → IsGranted h bs bsize q (record h' { word = place q bsize h'.word })
extended-IsGranted h h' bs n q bsize v at start aligned large fits =
    let p : ℕ = h.memory.start_brk + 4 in
    let fit : IsFitAt q bsize (h'.memory.start_brk + 4) (append_free n bs) =
      subst (λ x. IsFitAt x bsize (h'.memory.start_brk + 4) (append_free n bs)) (sym at)
        (subst (λ s. IsFitAt (last_at p bs) bsize (s + 4) (append_free n bs)) (sym start)
          (Live.last_at-IsFitAt bsize n p bs fits)) in
    let g = place-IsGranted h' (append_free n bs) q bsize v fit aligned large in
    let view_same : (a : ℕ) → view h' (append_free n bs) a ≡ view h bs a =
      λ a. ap (λ s. live a (s + 4) (append_free n bs)) start ∙ Live.live-append_free a n p bs in
    record {
      blocks = g.blocks;
      size = g.size;
      heap = g.heap;
      start = g.start ∙ start;
      large = g.large;
      aligned = g.aligned;
      not_null = g.not_null;
      new = sym (view_same q) ∙ g.new;
      added = λ a. g.added a ∙ ap (λ v. if a == q then some g.size else v) (view_same a);
    }
