-- ===== src/Malloclab/Explicit/InPlace.antt =====
-- `mm_realloc` of malloclab-handout/src/mm.c on the map of live blocks: the cases that stay in place,
-- or move into the free block before.
use mathlib.Core.Path.{subst, sym, ◌∙◌}
use sysprog2021s.Prelude.{
  ℕ, ◌+◌, ◌-◌, ◌%◌, ◌≤◌, ◌≡◌, ◌≢◌, refl, ap, Bool, true, false, none, some, List, ◌∷◌, ◌++◌, ◌==◌,
  if◌then◌else◌, ◌⊎◌, inl, inr, arith,
}
use sysprog2021s.Malloclab.Blocks.{Block}
use sysprog2021s.Malloclab.Live
use sysprog2021s.Malloclab.Live.{free, full, join_front, live, AllLarge}
use sysprog2021s.Malloclab.Places.{IsAt, IsAt-aligned, IsAt-back, end_of, AllRoomy-split}
use sysprog2021s.Malloclab.Explicit.{Heap, shrink, grow, grow_back}
use sysprog2021s.Malloclab.Explicit.Hands.{IsFull}
use sysprog2021s.Malloclab.Explicit.Frees.{IsListedHeap, AllRoomy-AllLarge}
use sysprog2021s.Malloclab.Explicit.Resizes.{
  shrink-IsListedHeap, grow-IsListedHeap, grow_back-IsListedHeap,
}
use sysprog2021s.Malloclab.Explicit.Views.{
  live-append, live-changed, live-shrunk, live-grown, live-grown_back,
}
use sysprog2021s.Malloclab.Explicit.Moves.{IsResized}

-- The blocks `ys` became the blocks `ys'`, the first of which is the result.
made-IsResized :
    (h h' : Heap) (front ys ys' : List Block) (u : Bool) (fs : List ℕ) (nb r : ℕ)
    → IsFull h (front ++ ys) fs
    → IsListedHeap h' (front ++ ys') × (h'.memory ≡ h.memory)
    → let p = h.memory.start_brk + 4 in
      let m = end_of p front in
      IsAt (m + 4) u m ys
      → m + 4 ≤ r
      → (m + 4 ≡ r) ⊎ (live (m + 4) m ys ≡ none)
      → ((a : ℕ)
          → live a m ys' ≡ (if a == m + 4 then some nb else if a == r then none else live a m ys))
      → IsResized h (front ++ ys) nb r (m + 4) h'
made-IsResized h h' front ys ys' u fs nb r v (heap, memory) at le new changed =
    let p : ℕ = h.memory.start_brk + 4 in
    let m : ℕ = end_of p front in
    let (r1, r2) = AllRoomy-split front ys v.state.tiled.roomy in
    let large = AllRoomy-AllLarge front r1 in
    let start = ap (λ m. m.start_brk) memory in
    record {
      blocks = front ++ ys';
      size = nb;
      heap = heap;
      large = omega arith;
      aligned =
          IsAt-aligned h.word (m + 4) u p (h.memory.brk - 4) (front ++ ys) v.state.tiled.tiles
            (IsAt-back (m + 4) u p front ys at) (omega (arith, v.state.tiled.aligned));
      new = elim new [
        | inl same ↦ inl same
        | inr absent ↦ inr (ground (arith, live-append (m + 4) p front ys large, absent))
      ];
      moved = λ a.
          ap (λ s. live a (s + 4) (front ++ ys')) start
          ∙ live-changed a p (m + 4) r nb front ys ys' large (omega arith) le (changed a);
    }

module _ (h : Heap) (front : List Block) (s nb : ℕ) (rest : List Block) (fs : List ℕ)
    (b8 : nb % 8 ≡ 0) (large : 16 ≤ nb) where
  pub shrink-IsResized :
      let m = end_of (h.memory.start_brk + 4) front in
      let bs = front ++ (full s ∷ rest) in
      IsFull h bs fs
      → m + 4 ≢ h.prol_bp
      → nb + 16 ≤ s
      → IsResized h bs nb (m + 4) (m + 4) (shrink (m + 4) s nb h)
  shrink-IsResized v ne fits =
      let m : ℕ = end_of (h.memory.start_brk + 4) front in
      made-IsResized h (shrink (m + 4) s nb h) front (full s ∷ rest)
        (full nb ∷ join_front (s - nb) rest) true fs nb (m + 4) v
        (shrink-IsListedHeap h front s nb rest fs b8 large v ne fits) (inl (refl, refl))
        (omega arith) (inl refl) (λ a. live-shrunk a m s nb rest fits)

  pub grow-IsResized :
      (k : ℕ)
      → let m = end_of (h.memory.start_brk + 4) front in
        let bs = front ++ (full s ∷ free k ∷ rest) in
        IsFull h bs fs
        → m + 4 ≢ h.prol_bp
        → nb + 16 ≤ s + k
        → IsResized h bs nb (m + 4) (m + 4) (grow (m + 4) (s + k) nb h)
  grow-IsResized k v ne fits =
      let m : ℕ = end_of (h.memory.start_brk + 4) front in
      made-IsResized h (grow (m + 4) (s + k) nb h) front (full s ∷ free k ∷ rest)
        (full nb ∷ free (s + k - nb) ∷ rest) true fs nb (m + 4) v
        (grow-IsListedHeap h front s nb rest fs b8 large k v ne fits) (inl (refl, refl))
        (omega arith) (inl refl) (λ a. live-grown a m s k nb rest fits)

  pub grow_back-IsResized :
      (j : ℕ)
      → let m = end_of (h.memory.start_brk + 4) front in
        let bs = front ++ (free j ∷ full s ∷ rest) in
        let r = grow_back (m + j + 4) (j + s) nb h in
        IsFull h bs fs
        → m + j + 4 ≢ h.prol_bp
        → nb + 16 ≤ j + s
        → IsResized h bs nb (m + j + 4) r.0 r.1
  unfolding live
  grow_back-IsResized j v ne fits =
      let m : ℕ = end_of (h.memory.start_brk + 4) front in
      let r = grow_back (m + j + 4) (j + s) nb h in
      let ys = free j ∷ full s ∷ rest in
      let (r1, r2) = AllRoomy-split front ys v.state.tiled.roomy in
      let (at, heap, memory) = grow_back-IsListedHeap h front s nb rest fs b8 large j v ne fits in
      subst (λ x. IsResized h (front ++ ys) nb (m + j + 4) x r.1) (sym at)
        (made-IsResized h r.1 front ys (full nb ∷ join_front (j + s - nb) rest) false fs nb
          (m + j + 4) v (heap, memory) (inl (refl, refl)) (omega arith)
          (inr (ground (arith, r2, Live.live-below (m + 4) (m + j + s) rest)))
          (λ a. live-grown_back a m j s nb rest fits (omega (arith, r2))))
