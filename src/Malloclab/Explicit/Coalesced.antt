-- ===== src/Malloclab/Explicit/Coalesced.antt =====
-- `coalesce` of malloclab-handout/src/mm.c joins the free block in hand with its free neighbours.
use mathlib.Core.List.{Memᴰ}
use mathlib.Core.Path.{subst, sym, ◌∙◌}
use sysprog2021s.Prelude.{
  ℕ, ◌+◌, ◌-◌, ◌%◌, ◌≤◌, ◌<◌, ◌^◌, ◌≡◌, ◌≢◌, refl, ap, true, false, List, [], ◌∷◌, ◌++◌, inl, inr,
  arith,
}
use sysprog2021s.Malloclab.Words.{Words}
use sysprog2021s.Malloclab.Blocks.{Block, IsTile, AreTiles-le, IsStamped, stamp, stamp-IsStamped}
use sysprog2021s.Malloclab.Live.{free, full}
use sysprog2021s.Malloclab.Places.{
  IsAt, IsAt-within, end_of, AllRoomy-split, IsAt-gap, AreTiles-split, IsAt-outside, outside-IsAt,
  IsAt-back,
}
use sysprog2021s.Malloclab.Explicit.{Heap, cut_out, coalesce, mark}
use sysprog2021s.Malloclab.Explicit.Unlink.{remove}
use sysprog2021s.Malloclab.Explicit.States.{
  IsState, rewritten, cut_out-IsState, cut_out-rewritten, remove-Memᴰ,
}
use sysprog2021s.Malloclab.Explicit.Stamps.{mark-stamp}
use sysprog2021s.Malloclab.Explicit.Hands.{IsHand, stamped-IsHand, Memᴰ-remove, remove-gone}
use sysprog2021s.Malloclab.Explicit.Merges

-- The result of `coalesce`: the block in hand is at `bp`.
abbrev pub IsCoalesced : Heap → List Block → (bp : ℕ) → ℕ × Heap → Type 0
IsCoalesced h bs bp (bp', h') =
    (fs : List ℕ) × (IsHand h' bs fs bp
      × (bp' ≡ bp)
      × (h'.memory ≡ h.memory)
      × (h'.prol_bp ≡ h.prol_bp))

-- A block that is cut out, in a form whose memory system is plain.
abbrev pub cut : (h : Heap) (x : ℕ) → Heap
cut h x = rewritten h (cut_out x h).word (cut_out x h).root_bp

pub cut-IsState :
    (h : Heap) (bs : List Block) (fs : List ℕ) (x : ℕ)
    → IsState h bs fs
    → Memᴰ x fs
    → IsState (cut h x) bs (remove x fs)
cut-IsState h bs fs x v i =
    subst (λ h'. IsState h' bs (remove x fs)) (cut_out-rewritten h x)
      (cut_out-IsState h bs fs x v i)

-- A neighbour of the block in hand that is free is in the list.
pub listed_neighbour :
    (h : Heap) (bs : List Block) (fs : List ℕ) (bp x : ℕ)
    → IsHand h bs fs bp
    → IsAt x false (h.memory.start_brk + 4) bs
    → x ≢ bp
    → Memᴰ x fs
listed_neighbour h bs fs bp x v at ne = elim (v.listed x at) [ inl i ↦ i | inr e ↦ absurd (ne e) ]

-- Some free blocks become one, when all others that are free are in the list.
pub merged-IsHand :
    (h : Heap) (w' : Words) (size : ℕ) (front mid rest : List Block) (fs : List ℕ)
    → IsState h (front ++ (mid ++ rest)) fs
    → let p = h.memory.start_brk + 4 in
      let m = end_of p front in
      IsStamped h.word w' m (free size)
      → size % 8 ≡ 0
      → 16 ≤ size
      → end_of m mid ≡ m + size
      → ((x : ℕ) → IsAt x true m mid → ⊥)
      → ((x : ℕ) → Memᴰ x fs → IsAt x false m mid → ⊥)
      → ((x : ℕ) → IsAt x false p (front ++ (mid ++ rest)) → (IsAt x false m mid → ⊥) → Memᴰ x fs)
      → IsHand (rewritten h w' h.root_bp) (front ++ (free size ∷ rest)) fs (m + 4)
merged-IsHand h w' size front mid rest fs v s aligned big e all_free gone kept =
    let p : ℕ = h.memory.start_brk + 4 in
    let m : ℕ = end_of p front in
    let hi : ℕ = m + size in
    let (r1, r2) = AllRoomy-split front (mid ++ rest) v.tiled.roomy in
    let (r3, r4) = AllRoomy-split mid rest r2 in
    stamped-IsHand h w' size front mid rest fs v s aligned big e
      (IsAt-outside h.prol_bp true p hi front mid rest v.tiled.anchor (all_free h.prol_bp) e)
      (λ x i. IsAt-outside x false p hi front mid rest (v.sound x i) (gone x i) e)
      (λ x o. kept x (outside-IsAt x false p hi front mid rest o e) (λ inside. absurd (
        omega (
          arith,
          e,
          IsAt-within x false m mid r3 inside,
          IsAt-gap x false p hi front rest r1 r4 o,
        ))))

module _ (h : Heap) (front : List Block) (n k : ℕ) (rest : List Block) (fs : List ℕ) where
  pub coalesce_next :
      let m = end_of (h.memory.start_brk + 4) front in
      (pm s : ℕ)
      → IsHand h (front ++ (free n ∷ free k ∷ rest)) fs (m + 4)
      → IsTile h.word pm (full s)
      → pm + s ≡ m
      → IsCoalesced h (front ++ (free (n + k) ∷ rest)) (m + 4) (coalesce (m + 4) h)
  coalesce_next pm s v ta e =
      let p : ℕ = h.memory.start_brk + 4 in
      let m : ℕ = end_of p front in
      let end : ℕ = h.memory.brk - 4 in
      let mid = free n ∷ free k ∷ [] in
      let bs = front ++ (mid ++ rest) in
      let y : ℕ = m + n + 4 in
      let (r1, r2) = AllRoomy-split front (mid ++ rest) v.state.tiled.roomy in
      let (_, t) = AreTiles-split h.word p end front (mid ++ rest) v.state.tiled.tiles in
      let at : IsAt y false p bs =
        IsAt-back y false p front (mid ++ rest) (inr (inl (omega arith, refl))) in
      let ne : y ≢ m + 4 = λ same. omega (arith, same, r2) in
      let i = listed_neighbour h bs fs (m + 4) y v at ne in
      let h1 = cut h y in
      let v1 = cut-IsState h bs fs y v.state i in
      let (_, t1) = AreTiles-split h1.word p end front (mid ++ rest) v1.tiled.tiles in
      let le = AreTiles-le h.word (m + n + k) end rest t.1.1 in
      let low : end < 2 ^ 32 =
        omega (arith, v.state.tiled.memory.low, v.state.tiled.memory.below) in
      let big : ℕ = n + k in
      let w' = stamp h1.word m (free big) in
      let result : coalesce (m + 4) h ≡ (m + 4, rewritten h1 w' h1.root_bp) =
        Merges.coalesce-next h pm s m n k e ta t.0 t.1.0 t1.0 t1.1.0 (omega arith)
        ∙ ap (λ h'. (m + 4, mark (m + 4) big false h')) (cut_out-rewritten h y)
        ∙ ap (λ h'. (m + 4, h')) (mark-stamp h1 m big false (omega (arith, t)) (omega arith)) in
      (
        remove y fs,
        (
          subst (λ r. IsHand r.1 (front ++ (free big ∷ rest)) (remove y fs) (m + 4)) (sym result)
              (merged-IsHand h1 w' big front mid rest (remove y fs) v1
                (stamp-IsStamped h1.word m (free big) (omega arith)) (omega (arith, t))
                (omega arith) (omega arith) (λ x i. ground (arith, i))
                (λ x j inside. elim inside [
                  | inl here ↦ v.new (subst (λ z. Memᴰ z fs) (sym here.0) (remove-Memᴰ x y fs j))
                  | inr (inl here) ↦
                      remove-gone y h.prol_bp fs v.state.list.apart
                        (subst (λ z. Memᴰ z (remove y fs)) (sym here.0) j)
                  | inr (inr e) ↦ e
                ])
                (λ x a out. elim (v.listed x a) [
                  | inl j ↦ Memᴰ-remove x y fs (λ same. out (inr (inl (sym same, refl)))) j
                  | inr here ↦ absurd (out (inl (sym here, refl)))
                ])),
          ap (λ r. r.0) result,
          ap (λ r. r.1.memory) result,
          ap (λ r. r.1.prol_bp) result,
        ),
      )
