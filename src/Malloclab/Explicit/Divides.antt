-- ===== src/Malloclab/Explicit/Divides.antt =====
-- `divide` of malloclab-handout/src/mm.c: a used block and a free one in place of some blocks.
use mathlib.Core.List.{Memᴰ}
use mathlib.Core.Path.{subst, ◌∙◌}
use sysprog2021s.Prelude.{
  ℕ, ◌+◌, ◌-◌, ◌%◌, ◌≤◌, ◌≡◌, refl, Bool, true, false, List, [], ◌∷◌, ◌++◌, inl, inr, arith,
}
use sysprog2021s.Malloclab.Words.{Words}
use sysprog2021s.Malloclab.Blocks.{Block}
use sysprog2021s.Malloclab.Live.{free, full}
use sysprog2021s.Malloclab.Places.{IsAt, end_of, AllRoomy-split, IsAt-back, IsAt-split, IsAt-gap}
use sysprog2021s.Malloclab.Explicit.{Heap}
use sysprog2021s.Malloclab.Explicit.States.{IsState, rewritten}
use sysprog2021s.Malloclab.Explicit.Stamps.{IsOutside}
use sysprog2021s.Malloclab.Explicit.Hands.{IsHand}
use sysprog2021s.Malloclab.Explicit.Windows.{IsKept, replaced-IsState, divided, divided-AreTiles}

-- The blocks of `mid` become a used block and a free one, which is the one in hand.
pub divided-IsHand :
    (h : Heap) (w0 : Words) (size bsize : ℕ) (front mid back : List Block) (fs : List ℕ)
    → IsState h (front ++ (mid ++ back)) fs
    → let p = h.memory.start_brk + 4 in
      let m = end_of p front in
      IsKept m (m + size) h.word w0
      → size % 8 ≡ 0
      → bsize % 8 ≡ 0
      → 16 ≤ bsize
      → bsize + 16 ≤ size
      → end_of m mid ≡ m + size
      → IsOutside h.prol_bp true p front (m + size) back
      → ((x : ℕ) → Memᴰ x fs → IsOutside x false p front (m + size) back)
      → ((x : ℕ) → IsOutside x false p front (m + size) back → Memᴰ x fs)
      → IsHand
          (rewritten h (divided w0 m size bsize) h.root_bp)
          (front ++ (full bsize ∷ free (size - bsize) ∷ back))
          fs
          (m + bsize + 4)
divided-IsHand h w0 size bsize front mid back fs v kept a8 b8 big fits e anchor clear listed =
    let p : ℕ = h.memory.start_brk + 4 in
    let m : ℕ = end_of p front in
    let hi : ℕ = m + size in
    let two = full bsize ∷ free (size - bsize) ∷ [] in
    let at : ℕ = m + bsize + 4 in
    let w' = divided w0 m size bsize in
    let (tiles, kept') = divided-AreTiles w0 m size bsize a8 b8 big fits in
    let (r1, r2) = AllRoomy-split front (mid ++ back) v.tiled.roomy in
    let (r3, r4) = AllRoomy-split mid back r2 in
    let gap = λ (x : ℕ) (u : Bool) (o : IsOutside x u p front hi back).
      IsAt-gap x u p hi front back r1 r4 o in
    record {
      state =
          replaced-IsState h w' size front mid two back fs v (λ q out. kept' q out ∙ kept q out)
            tiles (big, (omega arith, tt)) e (omega arith) anchor clear;
      found = IsAt-back at false p front (two ++ back) (inr (inl (omega arith, refl)));
      new = λ i. absurd (omega (arith, gap at false (clear at i)));
      listed = λ x i. elim (IsAt-split x false p front (two ++ back) i) [
        | inl j ↦ inl (listed x (inl j))
        | inr (inl j) ↦ absurd (ground (arith, j))
        | inr (inr (inl j)) ↦ inr (omega (arith, j))
        | inr (inr (inr j)) ↦
            inl (listed x (inr (subst (λ y. IsAt x false y back) (omega arith) j)))
      ];
      other = λ same. absurd (omega (arith, same, gap h.prol_bp true anchor));
    }
