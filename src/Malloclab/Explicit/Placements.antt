-- ===== src/Malloclab/Explicit/Placements.antt =====
-- `place` of malloclab-handout/src/mm.c: a free block is used, or its first part.
use mathlib.Core.Path.{subst, sym, ◌∙◌}
use sysprog2021s.Prelude.{
  ltb, ℕ, ◌+◌, ◌-◌, ◌%◌, ◌≤◌, ◌<◌, ◌^◌, ◌≡◌, refl, ap, true, false, List, [], ◌∷◌, ◌++◌, inl, inr,
  arith, Bool-cases,
}
use sysprog2021s.Malloclab.Words.{get_size, add_size, hdrp, next_blkp}
use sysprog2021s.Malloclab.Blocks.{Block, AreTiles-le, stamp, stamp-IsStamped}
use sysprog2021s.Malloclab.Live.{free, full, placed}
use sysprog2021s.Malloclab.Places.{
  end_of, end_of-le, AllRoomy-split, IsAt-split, IsAt-gap, AreTiles-split,
}
use sysprog2021s.Malloclab.Explicit.{Heap, divide, place, cut_out, set_root, mark}
use sysprog2021s.Malloclab.Explicit.States.{IsState, rewritten, cut_out-rewritten}
use sysprog2021s.Malloclab.Explicit.Stamps.{stamped-IsState, mark-stamp}
use sysprog2021s.Malloclab.Explicit.Hands.{IsFull}
use sysprog2021s.Malloclab.Explicit.Frees.{IsListedHeap}
use sysprog2021s.Malloclab.Explicit.Unlink.{remove}
use sysprog2021s.Malloclab.Explicit.Coalesced.{cut}
use sysprog2021s.Malloclab.Explicit.Opens.{IsOpen, cut-IsOpen, set_root-IsListedHeap}

module _ (h : Heap) (m k bsize : ℕ) (size : get_size m h.word ≡ k) (low : bsize + 16 < 2 ^ 32) where
  place-whole : k < bsize + 16 → place (m + 4) bsize h ≡ mark (m + 4) k true (cut_out (m + 4) h)
  unfolding place
  place-whole lt =
      let here : hdrp (m + 4) ≡ m = omega arith in
      let test : ltb k (add_size bsize 16) ≡ true = ground arith in rw (here, size, test) refl

  place-split :
      bsize + 16 ≤ k
      → place (m + 4) bsize h ≡ (
          let h' = divide (m + 4) k bsize (cut_out (m + 4) h) in
          set_root (next_blkp (m + 4) h'.word) h')
  unfolding place
  place-split ge =
      let here : hdrp (m + 4) ≡ m = omega arith in
      let test : ltb k (add_size bsize 16) ≡ false = ground arith in rw (here, size, test) refl

module _ (h : Heap) (front : List Block) (k : ℕ) (rest : List Block) (fs : List ℕ) (bsize : ℕ)
    (v : IsFull h (front ++ (free k ∷ rest)) fs) (b8 : bsize % 8 ≡ 0) (large : 16 ≤ bsize) where
  -- The block is out of the list.
  opened :
      let m = end_of (h.memory.start_brk + 4) front in
      IsState (cut h (m + 4)) (front ++ (free k ∷ rest)) (remove (m + 4) fs)
      × IsOpen (cut h (m + 4)) front k rest (remove (m + 4) fs)
  opened =
      let m : ℕ = end_of (h.memory.start_brk + 4) front in
      cut-IsOpen h front k (free k ∷ []) rest fs v refl (λ i. ground (arith, i)) (m + 4)
        (inl (refl, refl)) (λ x i. ground (arith, i))

  -- What the tiles say of the size.
  sizes :
      (get_size (end_of (h.memory.start_brk + 4) front) h.word ≡ k)
      × (k % 8 ≡ 0)
      × (16 ≤ k)
      × (16 + k < 2 ^ 32)
  sizes =
      let p : ℕ = h.memory.start_brk + 4 in
      let m : ℕ = end_of p front in
      let end : ℕ = h.memory.brk - 4 in
      let bs = free k ∷ rest in
      let (r1, r2) = AllRoomy-split front bs v.state.tiled.roomy in
      let (_, t) = AreTiles-split h.word p end front bs v.state.tiled.tiles in
      let le = AreTiles-le h.word (m + k) end rest t.1 in
      let gap = IsAt-gap h.prol_bp true p (m + k) front rest r1 r2.1 opened.1.anchor in
      (
        omega (arith, t.0),
        omega (arith, t.0),
        r2.0,
        omega (
          arith,
          gap,
          le,
          v.state.tiled.prologue,
          end_of-le p front,
          v.state.tiled.memory.low,
          v.state.tiled.memory.below,
        ),
      )

  place-IsFull_whole :
      let m = end_of (h.memory.start_brk + 4) front in
      let h' = place (m + 4) bsize h in
      k < bsize + 16
      → bsize ≤ k
      → IsListedHeap h' (front ++ (full k ∷ rest)) × (h'.memory ≡ h.memory)
  place-IsFull_whole lt fits =
      let p : ℕ = h.memory.start_brk + 4 in
      let m : ℕ = end_of p front in
      let (state, o) = opened in
      let (size, aligned, big, below) = sizes in
      let h1 = cut h (m + 4) in
      let w' = stamp h1.word m (full k) in
      let now =
        stamped-IsState h1 w' (full k) front (free k ∷ []) rest (remove (m + 4) fs) state
          (stamp-IsStamped h1.word m (full k) (omega arith)) aligned big refl o.anchor o.clear in
      let result : place (m + 4) bsize h ≡ rewritten h1 w' h1.root_bp =
        place-whole h m k bsize size (omega arith) lt
        ∙ ap (λ h'. mark (m + 4) k true h') (cut_out-rewritten h (m + 4))
        ∙ mark-stamp h1 m k true aligned (omega arith) in
      subst (λ h'. IsListedHeap h' (front ++ (full k ∷ rest)) × (h'.memory ≡ h.memory)) (sym result)
        (
          (
            remove (m + 4) fs,
            record {
              state = now;
              listed = λ x i. o.listed x (elim (IsAt-split x false p front (full k ∷ rest) i) [
                | inl j ↦ inl j
                | inr (inl j) ↦ absurd (ground (arith, j))
                | inr (inr j) ↦ inr j
              ]);
            },
          ),
          refl,
        )

  place-IsFull_split :
      let m = end_of (h.memory.start_brk + 4) front in
      let h' = place (m + 4) bsize h in
      bsize + 16 ≤ k
      → IsListedHeap h' (front ++ (full bsize ∷ free (k - bsize) ∷ rest)) × (h'.memory ≡ h.memory)
  place-IsFull_split fits =
      let m : ℕ = end_of (h.memory.start_brk + 4) front in
      let (state, o) = opened in
      let (size, aligned, big, below) = sizes in
      let h1 = cut h (m + 4) in
      let result =
        place-split h m k bsize size (omega arith) fits
        ∙ ap (λ h1. let h' = divide (m + 4) k bsize h1 in set_root (next_blkp (m + 4) h'.word) h')
            (cut_out-rewritten h (m + 4)) in
      subst
        (λ h'.
          IsListedHeap h' (front ++ (full bsize ∷ free (k - bsize) ∷ rest))
          × (h'.memory ≡ h.memory))
        (sym result)
        (set_root-IsListedHeap h1 h1.word k bsize front (free k ∷ []) rest (remove (m + 4) fs) state
          o (λ q out. refl) refl aligned b8 large fits (omega arith))

  pub place-IsFull :
      let m = end_of (h.memory.start_brk + 4) front in
      let h' = place (m + 4) bsize h in
      bsize ≤ k → IsListedHeap h' (front ++ placed bsize k rest) × (h'.memory ≡ h.memory)
  place-IsFull fits = elim (Bool-cases (ltb (k - bsize) 16)) [
    | inl few ↦ rw few (place-IsFull_whole (ground arith) fits)
    | inr many ↦ rw many (place-IsFull_split (ground arith))
  ]
