-- ===== src/Malloclab/Explicit/Backward.antt =====
-- `coalesce` of malloclab-handout/src/mm.c where the block before the one in hand is free.
use mathlib.Core.List.{Memᴰ}
use mathlib.Core.Path.{subst, sym, ◌∙◌}
use sysprog2021s.Prelude.{
  ℕ, ◌+◌, ◌-◌, ◌%◌, ◌≤◌, ◌<◌, ◌^◌, ◌≡◌, ◌≢◌, refl, ap, false, List, [], ◌∷◌, ◌++◌, inl, inr, arith,
}
use sysprog2021s.Malloclab.Words.{Words, put}
use sysprog2021s.Malloclab.Blocks.{Block, AreTiles-le, IsStamped}
use sysprog2021s.Malloclab.Live.{free}
use sysprog2021s.Malloclab.Places.{IsAt, end_of, AllRoomy-split, AreTiles-split, IsAt-back}
use sysprog2021s.Malloclab.Explicit.{Heap, coalesce}
use sysprog2021s.Malloclab.Explicit.Unlink.{remove}
use sysprog2021s.Malloclab.Explicit.States.{rewritten, cut_out-rewritten, remove-Memᴰ}
use sysprog2021s.Malloclab.Explicit.Hands.{IsHand, Memᴰ-remove, remove-gone}
use sysprog2021s.Malloclab.Explicit.Merges
use sysprog2021s.Malloclab.Explicit.Coalesced.{
  IsCoalesced, cut, cut-IsState, listed_neighbour, merged-IsHand,
}

-- The header and the footer, in the order in which the block before is merged.
footer_first :
    (w : Words) (m m' size : ℕ)
    → m' ≡ m + size - 4
    → 8 ≤ size
    → IsStamped w (put m size (put m' size w)) m (free size)
unfolding put
footer_first w m m' size e big = (ground arith, ground arith, λ q x y. ground arith)

header_first :
    (w : Words) (m m' size : ℕ)
    → m' ≡ m + size - 4
    → 8 ≤ size
    → IsStamped w (put m' size (put m size w)) m (free size)
unfolding put
header_first w m m' size e big = (ground arith, ground arith, λ q x y. ground arith)

module _ (h : Heap) (front : List Block) (s n : ℕ) (rest : List Block) (fs : List ℕ) where
  pub coalesce_prev :
      let m = end_of (h.memory.start_brk + 4) front in
      IsHand h (front ++ (free s ∷ free n ∷ rest)) fs (m + s + 4)
      → h.word (m + s + n) % 2 ≡ 1
      → IsCoalesced h (front ++ (free (s + n) ∷ rest)) (m + 4) (coalesce (m + s + 4) h)
  coalesce_prev v odd =
      let p : ℕ = h.memory.start_brk + 4 in
      let m : ℕ = end_of p front in
      let end : ℕ = h.memory.brk - 4 in
      let mid = free s ∷ free n ∷ [] in
      let bs = front ++ (mid ++ rest) in
      let y : ℕ = m + 4 in
      let (r1, r2) = AllRoomy-split front (mid ++ rest) v.state.tiled.roomy in
      let (_, t) = AreTiles-split h.word p end front (mid ++ rest) v.state.tiled.tiles in
      let at : IsAt y false p bs = IsAt-back y false p front (mid ++ rest) (inl (refl, refl)) in
      let ne : y ≢ m + s + 4 = λ same. omega (arith, same, r2) in
      let i = listed_neighbour h bs fs (m + s + 4) y v at ne in
      let h1 = cut h y in
      let v1 = cut-IsState h bs fs y v.state i in
      let (_, t1) = AreTiles-split h1.word p end front (mid ++ rest) v1.tiled.tiles in
      let le = AreTiles-le h.word (m + s + n) end rest t.1.1 in
      let low : end < 2 ^ 32 =
        omega (arith, v.state.tiled.memory.low, v.state.tiled.memory.below) in
      let big : ℕ = s + n in
      let w' = put m big (put (m + s + n - 4) big h1.word) in
      let result : coalesce (m + s + 4) h ≡ (m + 4, rewritten h1 w' h1.root_bp) =
        Merges.coalesce-join_prev h m n (free s) t.0 t.1.0 odd refl
        ∙ Merges.join_prev-words h m n (free s) t.0 t.1.0 refl t1.0 t1.1.0 (omega arith)
            (omega arith) (omega arith)
        ∙ ap (λ h'. (m + 4, rewritten h' (put m big (put (m + s + n - 4) big h'.word)) h'.root_bp))
            (cut_out-rewritten h y) in
      (
        remove y fs,
        (
          subst (λ r. IsHand r.1 (front ++ (free big ∷ rest)) (remove y fs) (m + 4)) (sym result)
              (merged-IsHand h1 w' big front mid rest (remove y fs) v1
                (footer_first h1.word m (m + s + n - 4) big (omega arith) (omega arith))
                (omega (arith, t)) (omega arith) (omega arith) (λ x i. ground (arith, i))
                (λ x j inside. elim inside [
                  | inl here ↦
                      remove-gone y h.prol_bp fs v.state.list.apart
                        (subst (λ z. Memᴰ z (remove y fs)) (sym here.0) j)
                  | inr (inl here) ↦
                      v.new (subst (λ z. Memᴰ z fs) (sym here.0) (remove-Memᴰ x y fs j))
                  | inr (inr e) ↦ e
                ])
                (λ x a out. elim (v.listed x a) [
                  | inl j ↦ Memᴰ-remove x y fs (λ same. out (inl (sym same, refl))) j
                  | inr here ↦ absurd (out (inr (inl (sym here, refl))))
                ])),
          ap (λ r. r.0) result,
          ap (λ r. r.1.memory) result,
          ap (λ r. r.1.prol_bp) result,
        ),
      )

  pub coalesce_both :
      (k : ℕ)
      → let m = end_of (h.memory.start_brk + 4) front in
        IsHand h (front ++ (free s ∷ free n ∷ free k ∷ rest)) fs (m + s + 4)
        → IsCoalesced h (front ++ (free (s + n + k) ∷ rest)) (m + 4) (coalesce (m + s + 4) h)
  coalesce_both k v =
      let p : ℕ = h.memory.start_brk + 4 in
      let m : ℕ = end_of p front in
      let end : ℕ = h.memory.brk - 4 in
      let mid = free s ∷ free n ∷ free k ∷ [] in
      let bs = front ++ (mid ++ rest) in
      let y : ℕ = m + 4 in
      let z : ℕ = m + s + n + 4 in
      let (r1, r2) = AllRoomy-split front (mid ++ rest) v.state.tiled.roomy in
      let (_, t) = AreTiles-split h.word p end front (mid ++ rest) v.state.tiled.tiles in
      let at_y : IsAt y false p bs = IsAt-back y false p front (mid ++ rest) (inl (refl, refl)) in
      let at_z : IsAt z false p bs =
        IsAt-back z false p front (mid ++ rest) (inr (inr (inl (omega arith, refl)))) in
      let iy = listed_neighbour h bs fs (m + s + 4) y v at_y (λ same. omega (arith, same, r2)) in
      let iz = listed_neighbour h bs fs (m + s + 4) z v at_z (λ same. omega (arith, same, r2)) in
      let fs1 = remove y fs in
      let h1 = cut h y in
      let v1 = cut-IsState h bs fs y v.state iy in
      let h2 = cut h1 z in
      let v2 =
        cut-IsState h1 bs fs1 z v1 (Memᴰ-remove z y fs (λ same. omega (arith, same, r2)) iz) in
      let (_, t1) = AreTiles-split h1.word p end front (mid ++ rest) v1.tiled.tiles in
      let (_, t2) = AreTiles-split h2.word p end front (mid ++ rest) v2.tiled.tiles in
      let le = AreTiles-le h.word (m + s + n + k) end rest t.1.1.1 in
      let low : end < 2 ^ 32 =
        omega (arith, v.state.tiled.memory.low, v.state.tiled.memory.below) in
      let big : ℕ = s + n + k in
      let w' = put (m + s + n + k - 4) big (put m big h2.word) in
      let result : coalesce (m + s + 4) h ≡ (m + 4, rewritten h2 w' h2.root_bp) =
        Merges.coalesce-join_both h m n (free s) t.0 t.1.0 (omega (arith, t.1.1.0)) refl
        ∙ Merges.join_both-words h m n (free s) t.0 t.1.0 k h1 h2 (cut_out-rewritten h y)
            (cut_out-rewritten h1 z) t1.1.0 refl t2.0 t2.1.0 t2.1.1.0 (omega arith) (omega arith)
            (omega arith) in
      (
        remove z fs1,
        (
          subst (λ r. IsHand r.1 (front ++ (free big ∷ rest)) (remove z fs1) (m + 4)) (sym result)
              (merged-IsHand h2 w' big front mid rest (remove z fs1) v2
                (header_first h2.word m (m + s + n + k - 4) big (omega arith) (omega arith))
                (omega (arith, t)) (omega arith) (omega arith) (λ x i. ground (arith, i))
                (λ x j inside. elim inside [
                  | inl here ↦
                      remove-gone y h.prol_bp fs v.state.list.apart
                        (subst (λ q. Memᴰ q fs1) (sym here.0) (remove-Memᴰ x z fs1 j))
                  | inr (inl here) ↦ v.new (
                      subst (λ q. Memᴰ q fs) (sym here.0)
                        (remove-Memᴰ x y fs (remove-Memᴰ x z fs1 j)))
                  | inr (inr (inl here)) ↦
                      remove-gone z h.prol_bp fs1 v1.list.apart
                        (subst (λ q. Memᴰ q (remove z fs1)) (sym here.0) j)
                  | inr (inr (inr e)) ↦ e
                ])
                (λ x a out. elim (v.listed x a) [
                  | inl j ↦
                      Memᴰ-remove x z fs1 (λ same. out (inr (inr (inl (sym same, refl)))))
                        (Memᴰ-remove x y fs (λ same. out (inl (sym same, refl))) j)
                  | inr here ↦ absurd (out (inr (inl (sym here, refl))))
                ])),
          ap (λ r. r.0) result,
          ap (λ r. r.1.memory) result,
          ap (λ r. r.1.prol_bp) result,
        ),
      )
