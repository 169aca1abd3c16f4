-- ===== src/Malloclab/Explicit/Resizes.antt =====
-- The cases of `mm_realloc` of malloclab-handout/src/mm.c that stay in place, or move into the free
-- block before.
use mathlib.Core.Path.{subst, sym, ◌∙◌}
use sysprog2021s.Prelude.{
  ℕ, ◌+◌, ◌-◌, ◌%◌, ◌≤◌, ◌<◌, ◌^◌, ◌≡◌, ◌≢◌, refl, ap, List, [], ◌∷◌, ◌++◌, inl, inr, arith,
}
use sysprog2021s.Malloclab.Words.{Words, sub_size, next_blkp, prev_blkp, memcpy}
use sysprog2021s.Malloclab.Blocks.{Block, AreTiles-le}
use sysprog2021s.Malloclab.Live.{free, full, join_front}
use sysprog2021s.Malloclab.Places.{end_of, AreTiles-split}
use sysprog2021s.Malloclab.Explicit.{
  Heap, divide, shrink, grow, grow_back, give_back, cut_out, set_root,
}
use sysprog2021s.Malloclab.Explicit.States.{IsTiled, rewritten, cut_out-rewritten}
use sysprog2021s.Malloclab.Explicit.Hands.{IsFull}
use sysprog2021s.Malloclab.Explicit.Windows.{IsKept}
use sysprog2021s.Malloclab.Explicit.Frees.{IsListedHeap}
use sysprog2021s.Malloclab.Explicit.Unlink.{remove}
use sysprog2021s.Malloclab.Explicit.Coalesced.{cut}
use sysprog2021s.Malloclab.Explicit.Opens.{
  used-IsOpen, cut-IsOpen, given_back-IsListedHeap, set_root-IsListedHeap,
}

-- The end of a heap lies below 2^32, and so does that of any blocks in it.
tiles-low :
    (h : Heap) (front mid rest : List Block)
    → IsTiled h (front ++ (mid ++ rest))
    → end_of (end_of (h.memory.start_brk + 4) front) mid < 2 ^ 32
tiles-low h front mid rest t =
    let p : ℕ = h.memory.start_brk + 4 in
    let end : ℕ = h.memory.brk - 4 in
    let (t1, t2) = AreTiles-split h.word p end front (mid ++ rest) t.tiles in
    let (t3, t4) = AreTiles-split h.word (end_of p front) end mid rest t2 in
    omega (
      arith,
      AreTiles-le h.word (end_of (end_of p front) mid) end rest t4,
      t.memory.low,
      t.memory.below,
    )

module _ (h : Heap) (front : List Block) (s nb : ℕ) (rest : List Block) (fs : List ℕ)
    (b8 : nb % 8 ≡ 0) (large : 16 ≤ nb) where
  pub shrink-IsListedHeap :
      let m = end_of (h.memory.start_brk + 4) front in
      let h' = shrink (m + 4) s nb h in
      IsFull h (front ++ (full s ∷ rest)) fs
      → m + 4 ≢ h.prol_bp
      → nb + 16 ≤ s
      → IsListedHeap h' (front ++ (full nb ∷ join_front (s - nb) rest)) × (h'.memory ≡ h.memory)
  unfolding shrink
  shrink-IsListedHeap v ne fits =
      let mid = full s ∷ [] in
      let (t1, t2) =
        AreTiles-split h.word (h.memory.start_brk + 4) (h.memory.brk - 4) front (mid ++ rest)
          v.state.tiled.tiles in
      let open_ =
        used-IsOpen h front s mid rest fs v refl (λ i. ground (arith, i, ne))
          (λ x i. ground (arith, i)) in
      let low = tiles-low h front mid rest v.state.tiled in
      given_back-IsListedHeap h h.word s nb front mid rest fs v.state open_ (λ q out. refl) refl
        (omega (arith, t2.0)) b8 large fits (omega (arith, low))

  pub grow-IsListedHeap :
      (k : ℕ)
      → let m = end_of (h.memory.start_brk + 4) front in
        let h' = grow (m + 4) (s + k) nb h in
        IsFull h (front ++ (full s ∷ free k ∷ rest)) fs
        → m + 4 ≢ h.prol_bp
        → nb + 16 ≤ s + k
        → IsListedHeap h' (front ++ (full nb ∷ free (s + k - nb) ∷ rest)) × (h'.memory ≡ h.memory)
  unfolding grow
  grow-IsListedHeap k v ne fits =
      let m : ℕ = end_of (h.memory.start_brk + 4) front in
      let mid = full s ∷ free k ∷ [] in
      let y : ℕ = m + s + 4 in
      let (t1, t2) =
        AreTiles-split h.word (h.memory.start_brk + 4) (h.memory.brk - 4) front (mid ++ rest)
          v.state.tiled.tiles in
      let (state, open_) =
        cut-IsOpen h front (s + k) mid rest fs v (omega arith) (λ i. ground (arith, i, ne)) y
          (inr (inl (omega arith, refl))) (λ x i. ground (arith, i)) in
      let low = tiles-low h front mid rest v.state.tiled in
      let h1 = cut h y in
      let next : next_blkp (m + 4) h.word ≡ y = ground (arith, t2.0) in
      let result : grow (m + 4) (s + k) nb h
          ≡ (let h' = divide (m + 4) (s + k) nb h1 in set_root (next_blkp (m + 4) h'.word) h') =
        ap (λ h1. let h' = divide (m + 4) (s + k) nb h1 in set_root (next_blkp (m + 4) h'.word) h')
          (ap (λ x. cut_out x h) next ∙ cut_out-rewritten h y) in
      subst
        (λ h'.
          IsListedHeap h' (front ++ (full nb ∷ free (s + k - nb) ∷ rest)) × (h'.memory ≡ h.memory))
        (sym result)
        (set_root-IsListedHeap h1 h1.word (s + k) nb front mid rest (remove y fs) state open_
          (λ q out. refl) (omega arith) (omega (arith, t2.0, t2.1.0)) b8 large fits
          (omega (arith, low)))

-- The payload is copied inside the two blocks.
memcpy-IsKept :
    (w : Words) (m size src nb : ℕ)
    → nb % 8 ≡ 0
    → 8 ≤ nb
    → nb ≤ size
    → IsKept m (m + size) w (memcpy (m + 4) src (nb - 8) w)
unfolding memcpy
memcpy-IsKept w m size src nb b8 large fits = λ q out. ground arith

module _ (h : Heap) (front : List Block) (s nb : ℕ) (rest : List Block) (fs : List ℕ)
    (b8 : nb % 8 ≡ 0) (large : 16 ≤ nb) (j : ℕ) where
  pub grow_back-IsListedHeap :
      let m = end_of (h.memory.start_brk + 4) front in
      let r = grow_back (m + j + 4) (j + s) nb h in
      IsFull h (front ++ (free j ∷ full s ∷ rest)) fs
      → m + j + 4 ≢ h.prol_bp
      → nb + 16 ≤ j + s
      → (r.0 ≡ m + 4)
        × IsListedHeap r.1 (front ++ (full nb ∷ join_front (j + s - nb) rest))
        × (r.1.memory ≡ h.memory)
  unfolding grow_back
  grow_back-IsListedHeap v ne fits =
      let m : ℕ = end_of (h.memory.start_brk + 4) front in
      let mid = free j ∷ full s ∷ [] in
      let y : ℕ = m + 4 in
      let (t1, t2) =
        AreTiles-split h.word (h.memory.start_brk + 4) (h.memory.brk - 4) front (mid ++ rest)
          v.state.tiled.tiles in
      let (state, open_) =
        cut-IsOpen h front (j + s) mid rest fs v (omega arith) (λ i. ground (arith, i, ne)) y
          (inl (refl, refl)) (λ x i. ground (arith, i)) in
      let low = tiles-low h front mid rest v.state.tiled in
      let h1 = cut h y in
      let w0 = memcpy (m + 4) (m + j + 4) (nb - 8) h1.word in
      let prev : prev_blkp (m + j + 4) h.word ≡ y = ground (arith, t2.0) in
      let copied : sub_size nb 8 ≡ nb - 8 = omega (arith, low) in
      let h2 = divide (m + 4) (j + s) nb (rewritten h1 w0 h1.root_bp) in
      let result : grow_back (m + j + 4) (j + s) nb h
          ≡ (m + 4, give_back (next_blkp (m + 4) h2.word) h2) =
        ap
          (λ newptr.
            let h1 = cut_out newptr h in
            let h' =
              divide newptr (j + s) nb
                (record h1 { word = memcpy newptr (m + j + 4) (sub_size nb 8) h1.word }) in
            (newptr, give_back (next_blkp newptr h'.word) h'))
          prev
        ∙ ap
            (λ h1.
              let h' =
                divide (m + 4) (j + s) nb
                  (record h1 { word = memcpy (m + 4) (m + j + 4) (sub_size nb 8) h1.word }) in
              (m + 4, give_back (next_blkp (m + 4) h'.word) h'))
            (cut_out-rewritten h y)
        ∙ ap
            (λ n.
              let h' =
                divide (m + 4) (j + s) nb
                  (record h1 { word = memcpy (m + 4) (m + j + 4) n h1.word }) in
              (m + 4, give_back (next_blkp (m + 4) h'.word) h'))
            copied in
      let (heap, memory) =
        given_back-IsListedHeap h1 w0 (j + s) nb front mid rest (remove y fs) state open_
          (memcpy-IsKept h1.word m (j + s) (m + j + 4) nb b8 (omega arith) (omega arith))
          (omega arith) (omega (arith, t2.0, t2.1.0)) b8 large fits (omega (arith, low)) in
      subst
        (λ r.
          (r.0 ≡ m + 4)
          × IsListedHeap r.1 (front ++ (full nb ∷ join_front (j + s - nb) rest))
          × (r.1.memory ≡ h.memory))
        (sym result) (refl, heap, memory)
