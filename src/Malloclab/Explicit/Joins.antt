-- ===== src/Malloclab/Explicit/Joins.antt =====
-- `coalesce` of malloclab-handout/src/mm.c as the joining of a free block with its neighbours.
use mathlib.Core.Path.{subst, sym}
use sysprog2021s.Prelude.{
  ℕ, ◌+◌, ◌-◌, ◌%◌, ◌≡◌, refl, ap, Bool, true, false, List, [], ◌∷◌, ◌++◌, if◌then◌else◌, arith,
}
use sysprog2021s.Malloclab.Blocks.{Block}
use sysprog2021s.Malloclab.Live.{free, full, join}
use sysprog2021s.Malloclab.Places.{end_of, end_of-snoc, snoc-split, split-snoc, AreTiles-split}
use sysprog2021s.Malloclab.Explicit.{Heap, coalesce}
use sysprog2021s.Malloclab.Explicit.States.{IsTiled}
use sysprog2021s.Malloclab.Explicit.Hands.{IsHand}
use sysprog2021s.Malloclab.Explicit.Coalesced.{IsCoalesced, coalesce_next}
use sysprog2021s.Malloclab.Explicit.Backward.{coalesce_prev, coalesce_both}
use sysprog2021s.Malloclab.Explicit.Merges

-- The block that results lies where the one before does, if that is free.
abbrev pub joined_at : (m : ℕ) → Block → ℕ
joined_at m a = if a.used then m + a.size + 4 else m + 4

module _ (h : Heap) (front : List Block) (s n : ℕ) (rest : List Block) (fs : List ℕ) where
  joined_used :
      let m = end_of (h.memory.start_brk + 4) front in
      IsHand h (front ++ (full s ∷ free n ∷ rest)) fs (m + s + 4)
      → h.word (m + s + n) % 2 ≡ 1
      → IsCoalesced h (front ++ (full s ∷ free n ∷ rest)) (m + s + 4) (coalesce (m + s + 4) h)
  joined_used v odd =
      let m : ℕ = end_of (h.memory.start_brk + 4) front in
      let (_, t) =
        AreTiles-split h.word (h.memory.start_brk + 4) (h.memory.brk - 4) front
          (full s ∷ free n ∷ rest) v.state.tiled.tiles in
      let result = Merges.coalesce-used h m s (m + s) n refl t.0 t.1.0 odd in
      (
        fs,
        (
          subst (λ r. IsHand r.1 (front ++ (full s ∷ free n ∷ rest)) fs (m + s + 4)) (sym result) v,
          ap (λ r. r.0) result,
          ap (λ r. r.1.memory) result,
          ap (λ r. r.1.prol_bp) result,
        ),
      )

  joined_next :
      (k : ℕ)
      → let m = end_of (h.memory.start_brk + 4) front in
        IsHand h (front ++ (full s ∷ free n ∷ free k ∷ rest)) fs (m + s + 4)
        → IsCoalesced h
            (front ++ (full s ∷ free (n + k) ∷ rest))
            (m + s + 4)
            (coalesce (m + s + 4) h)
  joined_next k v =
      let p : ℕ = h.memory.start_brk + 4 in
      let m : ℕ = end_of p front in
      let behind = front ++ (full s ∷ []) in
      let (_, t) =
        AreTiles-split h.word p (h.memory.brk - 4) front (full s ∷ free n ∷ free k ∷ rest)
          v.state.tiled.tiles in
      let v' =
        split-snoc (λ bs x. IsHand h bs fs (x + 4)) p front (full s) (free n ∷ free k ∷ rest) v in
      let at = sym (end_of-snoc p front (full s)) in
      snoc-split (λ bs x. IsCoalesced h bs (x + 4) (coalesce (x + 4) h)) p front (full s)
        (free (n + k) ∷ rest) (coalesce_next h behind n k rest fs m s v' t.0 at)

module _ (h : Heap) (front : List Block) (s n : ℕ) (rest : List Block) (fs : List ℕ) where
  -- The word behind the heap's last block is the epilogue.
  odd_last :
      (a : Block)
      → IsTiled h (front ++ (a ∷ free n ∷ []))
      → h.word (end_of (h.memory.start_brk + 4) front + a.size + n) % 2 ≡ 1
  odd_last a v =
      let (_, t) =
        AreTiles-split h.word (h.memory.start_brk + 4) (h.memory.brk - 4) front (a ∷ free n ∷ [])
          v.tiles in
      subst (λ q. h.word q % 2 ≡ 1) (sym t.1.1) (omega (arith, v.epilogue))

  -- The word behind is the header of a block that is in use.
  odd_front :
      (a : Block) (k : ℕ)
      → IsTiled h (front ++ (a ∷ free n ∷ full k ∷ rest))
      → h.word (end_of (h.memory.start_brk + 4) front + a.size + n) % 2 ≡ 1
  odd_front a k v =
      let (_, t) =
        AreTiles-split h.word (h.memory.start_brk + 4) (h.memory.brk - 4) front
          (a ∷ free n ∷ full k ∷ rest) v.tiles in
      omega (arith, t.1.1.0)

  coalesce-front :
      (u v : Bool) (k : ℕ)
      → let m = end_of (h.memory.start_brk + 4) front in
        let a : Block = record { size = s; used = u } in
        let b : Block = record { size = k; used = v } in
        IsHand h (front ++ (a ∷ free n ∷ b ∷ rest)) fs (m + s + 4)
        → IsCoalesced h (front ++ join a n (b ∷ rest)) (joined_at m a) (coalesce (m + s + 4) h)
  coalesce-front true true k v =
      joined_used h front s n (full k ∷ rest) fs v (odd_front (full s) k v.state.tiled)
  coalesce-front false true k v =
      coalesce_prev h front s n (full k ∷ rest) fs v (odd_front (free s) k v.state.tiled)
  coalesce-front true false k v = joined_next h front s n rest fs k v
  coalesce-front false false k v = coalesce_both h front s n rest fs k v

-- `coalesce` of the block in hand, behind any block, joins it with the neighbours that are free,
-- which leave the list.
pub coalesce-IsCoalesced :
    (h : Heap) (front : List Block) (s n : ℕ) (u : Bool) (rest : List Block) (fs : List ℕ)
    → let m = end_of (h.memory.start_brk + 4) front in
      let a : Block = record { size = s; used = u } in
      IsHand h (front ++ (a ∷ free n ∷ rest)) fs (m + s + 4)
      → IsCoalesced h (front ++ join a n rest) (joined_at m a) (coalesce (m + s + 4) h)
coalesce-IsCoalesced h front s n true [] fs v =
    joined_used h front s n [] fs v (odd_last h front s n [] fs (full s) v.state.tiled)
coalesce-IsCoalesced h front s n false [] fs v =
    coalesce_prev h front s n [] fs v (odd_last h front s n [] fs (free s) v.state.tiled)
coalesce-IsCoalesced h front s n u (b ∷ rest) fs v =
    coalesce-front h front s n rest fs u b.used b.size v
