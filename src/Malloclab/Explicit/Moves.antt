-- ===== src/Malloclab/Explicit/Moves.antt =====
-- The last case of `mm_realloc` of malloclab-handout/src/mm.c: the block moves to a new one.
use mathlib.Core.Path.{subst, sym, ◌∙◌}
use sysprog2021s.Prelude.{
  ◌&&◌, ℕ, ◌+◌, ◌-◌, ◌%◌, ◌≤◌, ◌<◌, ◌^◌, ◌≡◌, ◌≢◌, refl, ap, true, false, none, some, List, [], ◌∷◌,
  ◌++◌, ◌==◌, ltb, if◌then◌else◌, ◌⊎◌, inl, inr, arith, Bool-cases,
}
use sysprog2021s.Malloclab.Words.{memcpy, dsize, sub_size}
use sysprog2021s.Malloclab.Blocks.{Block}
use sysprog2021s.Malloclab.Live.{full, live}
use sysprog2021s.Malloclab.Places.{IsAt, end_of, AllRoomy-split, AreTiles-split}
use sysprog2021s.Malloclab.Implicit.Realloc.{memcpy-IsPayload}
use sysprog2021s.Malloclab.Explicit.{Heap, move_in, mm_free}
use sysprog2021s.Malloclab.Explicit.States.{rewritten}
use sysprog2021s.Malloclab.Explicit.Hands.{IsFull}
use sysprog2021s.Malloclab.Explicit.Frees.{IsListedHeap, view, mm_free-IsListedHeap}
use sysprog2021s.Malloclab.Explicit.Windows.{replaced-IsState}
use sysprog2021s.Malloclab.Explicit.Opens.{used-IsOpen}
use sysprog2021s.Malloclab.Explicit.Grants.{IsGranted}
use sysprog2021s.Malloclab.Explicit.Malloc.{IsServed}

-- A block of at least `bsize` bytes took the place of the one at `ptr`, or is that one.
pub record IsResized (h : Heap) (bs : List Block) (bsize ptr newptr : ℕ) (h' : Heap) : Type 0 where
  pub blocks : List Block
  pub size : ℕ
  pub heap : IsListedHeap h' blocks
  pub large : bsize ≤ size
  pub aligned : newptr % 8 ≡ 0
  pub new : (newptr ≡ ptr) ⊎ (view h bs newptr ≡ none)
  pub moved :
      (a : ℕ)
      → view h' blocks a
        ≡ (if a == newptr then some size else if a == ptr then none else view h bs a)

-- Where a live block lies.
record IsLiveAt (q p s : ℕ) (bs : List Block) : Type 0 where
  front : List Block
  rest : List Block
  split : bs ≡ front ++ (full s ∷ rest)
  at : end_of p front + 4 ≡ q

live-IsLiveAt : (q p s : ℕ) (bs : List Block) → live q p bs ≡ some s → IsLiveAt q p s bs
unfolding live
live-IsLiveAt q p s [] e = absurd (ground arith)
live-IsLiveAt q p s (b ∷ bs) e = elim (Bool-cases (q == p + 4 && b.used)) [
  | inl here ↦
      let used : b.used ≡ true = ground arith in
      let size : b.size ≡ s = ground arith in
      record {
        front = [];
        rest = bs;
        split = ap (λ u. record { size = b.size; used = u } ∷ bs) used ∙ ap (λ n. full n ∷ bs) size;
        at = ground arith;
      }
  | inr later ↦
      let f = live-IsLiveAt q (p + b.size) s bs (ground arith) in
      record { front = b ∷ f.front; rest = f.rest; split = ap (λ bs. b ∷ bs) f.split; at = f.at }
]

IsAt-live : (x p : ℕ) (bs : List Block) → IsAt x true p bs → live x p bs ≢ none
unfolding live
IsAt-live x p [] i e = absurd i
IsAt-live x p (b ∷ bs) i e = ground (arith, IsAt-live x (p + b.size) bs)

-- A copy into the payload of a block in use keeps the heap.
copied-IsFull :
    (h : Heap) (front : List Block) (s : ℕ) (rest : List Block) (fs : List ℕ) (src n : ℕ)
    → IsFull h (front ++ (full s ∷ rest)) fs
    → let m = end_of (h.memory.start_brk + 4) front in
      m + 4 ≢ h.prol_bp
      → (m + 4) % 8 ≡ 0
      → n + 8 ≤ s
      → IsFull (rewritten h (memcpy (m + 4) src n h.word) h.root_bp) (front ++ (full s ∷ rest)) fs
copied-IsFull h front s rest fs src n v ne aligned fits =
    let p : ℕ = h.memory.start_brk + 4 in
    let m : ℕ = end_of p front in
    let mid = full s ∷ [] in
    let w' = memcpy (m + 4) src n h.word in
    let (t1, t2) =
      AreTiles-split h.word p (h.memory.brk - 4) front (mid ++ rest) v.state.tiled.tiles in
    let same = memcpy-IsPayload h.word (m + 4) src n s (omega (arith, t2.0)) fits aligned in
    let o =
      used-IsOpen h front s mid rest fs v refl (λ i. ground (arith, i, ne))
        (λ x i. ground (arith, i)) in
    let header = same m (inl (omega arith)) in
    let footer = same (m + s - 4) (inr (omega (arith, t2.0))) in
    record {
      state =
          replaced-IsState h w' s front mid mid rest fs v.state
            (λ q out. same q (omega (arith, out, t2.0)))
            ((header ∙ t2.0.0, footer ∙ t2.0.1, t2.0.2, t2.0.3), refl)
            ((AllRoomy-split front (mid ++ rest) v.state.tiled.roomy).1.0, tt) refl refl o.anchor
            o.clear;
      listed = v.listed;
    }

-- The same at a live block of the map.
copied-IsListedHeap :
    (h : Heap) (bs : List Block) (dst src n s : ℕ)
    → IsListedHeap h bs
    → view h bs dst ≡ some s
    → dst ≢ h.prol_bp
    → dst % 8 ≡ 0
    → n + 8 ≤ s
    → IsListedHeap (rewritten h (memcpy dst src n h.word) h.root_bp) bs
copied-IsListedHeap h bs dst src n s (fs, v) e ne aligned fits =
    let p : ℕ = h.memory.start_brk + 4 in
    let f = live-IsLiveAt dst p s bs e in
    let v' : IsFull h (f.front ++ (full s ∷ f.rest)) fs = subst (λ bs. IsFull h bs fs) f.split v in
    let copied =
      copied-IsFull h f.front s f.rest fs src n v' (λ same. ne (sym f.at ∙ same))
        (subst (λ x. x % 8 ≡ 0) (sym f.at) aligned) fits in
    (
      fs,
      subst (λ bs. IsFull (rewritten h (memcpy dst src n h.word) h.root_bp) bs fs) (sym f.split)
          (subst
            (λ x.
              IsFull (rewritten h (memcpy x src n h.word) h.root_bp) (f.front ++ (full s ∷ f.rest))
                fs)
            f.at copied),
    )

module _ (h : Heap) (bs : List Block) (bsize ptr s : ℕ) (v : IsListedHeap h bs)
    (e : view h bs ptr ≡ some s) (ne : ptr ≢ h.prol_bp) (big : 8 ≤ bsize)
    (small : bsize < 2 ^ 32) where
  -- What `mm_realloc` does behind a `mm_malloc` that did not fail.
  moved-IsResized :
      (newptr : ℕ) (h' : Heap)
      → s < 2 ^ 32
      → 8 ≤ s
      → IsGranted h bs bsize newptr h'
      → let copysize = sub_size (if ltb s bsize then s else bsize) dsize in
        IsResized h bs bsize ptr newptr
          (mm_free ptr (record h' { word = memcpy newptr ptr copysize h'.word }))
  moved-IsResized newptr h' low some_bytes g =
      let least : ℕ = (if ltb s bsize then s else bsize) in
      let copysize : ℕ = sub_size least 8 in
      let few : copysize + 8 ≤ bsize = ground arith in
      let here : view h' g.blocks newptr ≡ some g.size = ground (arith, g.added newptr) in
      let there : view h' g.blocks ptr ≡ some s = ground (arith, g.added ptr, g.new) in
      let prol : newptr ≢ h'.prol_bp = λ same.
        IsAt-live newptr (h.memory.start_brk + 4) bs
          (subst (λ x. IsAt x true (h.memory.start_brk + 4) bs)
            (omega (arith, same, g.heap.1.state.tiled.prologue, g.start, v.1.state.tiled.prologue))
            v.1.state.tiled.anchor)
          g.new in
      let copied =
        copied-IsListedHeap h' g.blocks newptr ptr copysize g.size g.heap here prol g.aligned
          (omega (arith, g.large, few)) in
      let (blocks, (heap, freed)) =
        mm_free-IsListedHeap (record h' { word = memcpy newptr ptr copysize h'.word }) g.blocks ptr
          s copied there
          (omega (arith, g.heap.1.state.tiled.prologue, g.start, v.1.state.tiled.prologue)) in
      record {
        blocks = blocks;
        size = g.size;
        heap = heap;
        large = g.large;
        aligned = g.aligned;
        new = inr g.new;
        moved = λ a. ground (arith, freed a, g.added a, e, g.new);
      }

  pub move_in-IsResized :
      (r : ℕ × Heap)
      → s < 2 ^ 32
      → 8 ≤ s
      → IsServed h bs bsize r
      → let (newptr, h') = move_in ptr s bsize r in
        ((newptr ≡ 0) × (h' ≡ h)) ⊎ IsResized h bs bsize ptr newptr h'
  unfolding move_in
  move_in-IsResized (q, h') low some_bytes (inl (null, same, no_fit, refused)) =
      let test : (q == 0) ≡ true = ground arith in rw test (inl (refl, same))
  move_in-IsResized (q, h') low some_bytes (inr g) =
      let test : (q == 0) ≡ false = ground (arith, g.not_null) in
      rw test (inr (moved-IsResized q h' low some_bytes g))
