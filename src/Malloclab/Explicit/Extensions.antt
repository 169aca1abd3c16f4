-- ===== src/Malloclab/Explicit/Extensions.antt =====
-- `extend_heap` of malloclab-handout/src/mm.c: a free block behind the last one.
use mathlib.Core.Path.{subst, sym, ◌∙◌}
use sysprog2021s.Prelude.{
  ℕ, ◌+◌, ◌-◌, ◌%◌, ◌≤◌, ◌≡◌, refl, ap, Bool, true, false, List, [], ◌∷◌, ◌++◌, inl, inr, arith,
}
use sysprog2021s.Malloclab.Memlib.{Memory}
use sysprog2021s.Malloclab.Memlib.Areas.{IsHeap}
use sysprog2021s.Malloclab.Blocks.{Block, AreTiles, AreTiles-IsSame, AreTiles-at}
use sysprog2021s.Malloclab.Live.{free, join, append_free, last_at}
use sysprog2021s.Malloclab.Places.{
  IsAt, end_of, end_of-snoc, end_of-AreTiles, AllRoomy-append, IsAt-within, IsAt-split, IsAt-front,
  IsAt-back, AreTiles-append, snoc-split,
}
use sysprog2021s.Malloclab.Implicit
use sysprog2021s.Malloclab.Implicit.Extend.{grown, grown-lem}
use sysprog2021s.Malloclab.Implicit.Heaps.{extended-grown}
use sysprog2021s.Malloclab.Explicit.{Heap, mark, coalesce, set_root, add_block}
use sysprog2021s.Malloclab.Explicit.States.{IsTiled}
use sysprog2021s.Malloclab.Explicit.Roots.{set_root-frame}
use sysprog2021s.Malloclab.Explicit.Stamps.{AreLinked-kept}
use sysprog2021s.Malloclab.Explicit.Hands.{IsHand, IsFull, set_root-IsFull}
use sysprog2021s.Malloclab.Explicit.Frees.{IsListedHeap}
use sysprog2021s.Malloclab.Explicit.Coalesced.{IsCoalesced}
use sysprog2021s.Malloclab.Explicit.Joins.{joined_at, coalesce-IsCoalesced}

-- The memory system with `n` more bytes, and the heap with a free block in them and a new epilogue.
abbrev pub longer : ℕ → Memory → Memory
longer n m = record m { brk = m.brk + n }

abbrev pub grown_heap : ℕ → Heap → Heap
grown_heap n h = record h { memory = longer n h.memory; word = grown h.word (h.memory.brk - 4) n }

module _ (h : Heap) (n : ℕ) (bs : List Block) (t : IsTiled h bs) (more : IsHeap (longer n h.memory))
    (n8 : n % 8 ≡ 0) (large : 16 ≤ n) where
  pub IsTiled-grown : IsTiled (grown_heap n h) (bs ++ (free n ∷ []))
  IsTiled-grown =
      let p : ℕ = h.memory.start_brk + 4 in
      let end : ℕ = h.memory.brk - 4 in
      let w' = grown h.word end n in
      let (tile, last, same) = grown-lem h.word end n n8 (omega arith) in
      let stop : end + n ≡ h.memory.brk + n - 4 = omega (arith, t.sized) in
      let e = end_of-AreTiles h.word p end bs t.tiles in
      let kept =
        AreTiles-IsSame h.word w' p end bs t.tiles (λ q from to. same q (omega arith) to) in
      record {
        memory = more;
        prologue = t.prologue;
        aligned = t.aligned;
        sized = omega (arith, t.sized);
        tiles = subst (AreTiles w' p (bs ++ (free n ∷ []))) stop (
            AreTiles-append w' p (end + n) bs (free n ∷ []) (subst (AreTiles w' p bs) (sym e) kept)
              (AreTiles-at w' end (end_of p bs) (end + n) (free n ∷ []) (sym e) (tile, refl)));
        epilogue = subst (λ q. w' q ≡ 1) stop last;
        roomy = AllRoomy-append bs (free n ∷ []) t.roomy (large, tt);
        anchor = IsAt-front h.prol_bp true p bs (free n ∷ []) t.anchor;
      }

  grown-IsHand :
      (fs : List ℕ)
      → IsFull h bs fs
      → IsHand (grown_heap n h) (bs ++ (free n ∷ [])) fs (h.memory.brk - 4 + 4)
  grown-IsHand fs v =
      let p : ℕ = h.memory.start_brk + 4 in
      let end : ℕ = h.memory.brk - 4 in
      let w' = grown h.word end n in
      let (tile, last, same) = grown-lem h.word end n n8 (omega arith) in
      let e = end_of-AreTiles h.word p end bs t.tiles in
      let within = λ (x : ℕ) (u : Bool) (i : IsAt x u p bs). IsAt-within x u p bs t.roomy i in
      record {
        state = record {
          tiled = IsTiled-grown;
          list = record {
            linked =
                AreLinked-kept h.word w' 0 h.root_bp h.prol_bp fs v.state.list.linked
                  (λ x i. (
                    same x (omega arith) (omega (arith, e, within x false (v.state.sound x i))),
                    same (x + 4) (omega arith)
                        (omega (arith, e, within x false (v.state.sound x i))),
                  ))
                  (same (h.prol_bp + 4) (omega arith)
                    (omega (arith, e, within h.prol_bp true t.anchor)));
            apart = v.state.list.apart;
          };
          sound = λ x i. IsAt-front x false p bs (free n ∷ []) (v.state.sound x i);
        };
        found = IsAt-back (end + 4) false p bs (free n ∷ []) (inl (omega (arith, e), refl));
        new = λ i. absurd (omega (arith, e, within (end + 4) false (v.state.sound (end + 4) i)));
        listed = λ x i. elim (IsAt-split x false p bs (free n ∷ []) i) [
          | inl j ↦ inl (v.listed x j)
          | inr (inl j) ↦ inr (omega (arith, j, e))
          | inr (inr j) ↦ absurd j
        ];
        other = λ here. absurd (omega (arith, here, e, within h.prol_bp true t.anchor));
      }

  pub add_block-grown :
      let end = h.memory.brk - 4 in
      add_block h.memory.brk n (record h { memory = longer n h.memory })
      ≡ (let (bp, h3) = coalesce (end + 4) (grown_heap n h) in (bp, set_root bp h3))
  unfolding add_block mark Implicit.mark
  add_block-grown =
      let end : ℕ = h.memory.brk - 4 in
      let at : h.memory.brk ≡ end + 4 = omega (arith, t.sized) in
      ap (λ bp. add_block bp n (record h { memory = longer n h.memory })) at
      ∙ ap
          (λ w.
            let (bp, h3) = coalesce (end + 4) (record h { memory = longer n h.memory; word = w }) in
            (bp, set_root bp h3))
          (extended-grown h.word end n n8 (omega arith))

-- The last block, and what `append_free` makes of the blocks.
record IsEnding (n p : ℕ) (bs : List Block) : Type 0 where
  front : List Block
  last : Block
  split : bs ≡ front ++ (last ∷ [])
  at : joined_at (end_of p front) last ≡ last_at p bs
  result : append_free n bs ≡ front ++ join last n []

ending : (n p : ℕ) (b : Block) (bs : List Block) → IsEnding n p (b ∷ bs)
unfolding append_free last_at
ending n p a [] = record { front = []; last = a; split = refl; at = ground arith; result = refl }
ending n p a (b ∷ bs) =
    let e = ending n (p + a.size) b bs in
    record {
      front = a ∷ e.front;
      last = e.last;
      split = ap (λ bs. a ∷ bs) e.split;
      at = e.at;
      result = ap (λ bs. a ∷ bs) e.result;
    }

IsAt-IsEnding : (n p x : ℕ) (u : Bool) (bs : List Block) → IsAt x u p bs → IsEnding n p bs
IsAt-IsEnding n p x u [] i = absurd i
IsAt-IsEnding n p x u (b ∷ bs) i = ending n p b bs

module _ (h : Heap) (n : ℕ) (bs : List Block) (fs : List ℕ) (v : IsFull h bs fs)
    (more : IsHeap (longer n h.memory)) (n8 : n % 8 ≡ 0) (large : 16 ≤ n) where
  grown-IsCoalesced :
      let end = h.memory.brk - 4 in
      IsCoalesced
        (grown_heap n h)
        (append_free n bs)
        (last_at (h.memory.start_brk + 4) bs)
        (coalesce (end + 4) (grown_heap n h))
  grown-IsCoalesced =
      let p : ℕ = h.memory.start_brk + 4 in
      let end : ℕ = h.memory.brk - 4 in
      let h2 = grown_heap n h in
      let e = IsAt-IsEnding n p h.prol_bp true bs v.state.tiled.anchor in
      let a = e.last in
      let m : ℕ = end_of p e.front in
      let at : end ≡ end_of p (e.front ++ (a ∷ [])) =
        sym (end_of-AreTiles h.word p end bs v.state.tiled.tiles) ∙ ap (end_of p) e.split in
      let hand = grown-IsHand h n bs v.state.tiled more n8 large fs v in
      let hand2 =
        snoc-split (λ bs x. IsHand h2 bs fs (x + 4)) p e.front a (free n ∷ [])
          (subst (λ x. IsHand h2 ((e.front ++ (a ∷ [])) ++ (free n ∷ [])) fs (x + 4)) at
            (subst (λ bs. IsHand h2 (bs ++ (free n ∷ [])) fs (end + 4)) e.split hand)) in
      let joined = coalesce-IsCoalesced h2 e.front a.size n a.used [] fs hand2 in
      let back : m + a.size ≡ end = sym (at ∙ end_of-snoc p e.front a) in
      subst (λ x. IsCoalesced h2 (append_free n bs) (last_at p bs) (coalesce (x + 4) h2)) back
        (subst (λ bs'. IsCoalesced h2 bs' (last_at p bs) (coalesce (m + a.size + 4) h2))
          (sym e.result)
          (subst (λ x. IsCoalesced h2 (e.front ++ join a n []) x (coalesce (m + a.size + 4) h2))
            e.at joined))

  -- Where the heap grew by `n` bytes, they are a free block behind the last one.
  pub add_block-IsListedHeap :
      let (bp, h') = add_block h.memory.brk n (record h { memory = longer n h.memory }) in
      IsListedHeap h' (append_free n bs)
      × (bp ≡ last_at (h.memory.start_brk + 4) bs)
      × (h'.memory ≡ longer n h.memory)
  add_block-IsListedHeap =
      let p : ℕ = h.memory.start_brk + 4 in
      let end : ℕ = h.memory.brk - 4 in
      let (bp, h3) = coalesce (end + 4) (grown_heap n h) in
      let (fs', (hand, same, memory, prol)) = grown-IsCoalesced in
      let at : ℕ = last_at p bs in
      subst
        (λ r. IsListedHeap r.1 (append_free n bs) × (r.0 ≡ at) × (r.1.memory ≡ longer n h.memory))
        (sym (add_block-grown h n bs v.state.tiled more n8 large))
        (
          (
            at ∷ fs',
            subst (λ x. IsFull (set_root x h3) (append_free n bs) (at ∷ fs')) (sym same)
                (set_root-IsFull h3 (append_free n bs) fs' at hand),
          ),
          same,
          (set_root-frame h3 bp).0 ∙ memory,
        )
