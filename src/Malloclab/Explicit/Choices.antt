-- ===== src/Malloclab/Explicit/Choices.antt =====
-- The five cases of `mm_realloc` of malloclab-handout/src/mm.c, and the tests that lead to them.
use mathlib.Core.Path.{subst, sym, ◌∙◌}
use sysprog2021s.Prelude.{
  ◌&&◌, ℕ, ◌+◌, ◌-◌, ◌%◌, ◌≤◌, ◌<◌, ◌^◌, ◌≡◌, ◌≢◌, refl, ap, Bool, true, false, not, Option, some,
  List, [], ◌∷◌, ◌++◌, ◌==◌, leb, if◌then◌else◌, ◌⊎◌, inl, inr, arith, Bool-cases,
}
use sysprog2021s.Prelude.Fallible.{◌>>=◌}
use sysprog2021s.Malloclab.Blocks.{Block}
use sysprog2021s.Malloclab.Live.{free, full}
use sysprog2021s.Malloclab.Places.{
  IsAt-aligned, IsAt-back, end_of, AllRoomy-split, AreTiles-split, snoc-split, split-snoc,
}
use sysprog2021s.Malloclab.Explicit.{Heap, shrink, grow, grow_back}
use sysprog2021s.Malloclab.Explicit.Hands.{IsFull}
use sysprog2021s.Malloclab.Explicit.Frees.{view}
use sysprog2021s.Malloclab.Explicit.Moves.{IsResized}
use sysprog2021s.Malloclab.Words.{dsize, add_size, align}
use sysprog2021s.Malloclab.Blocks.{AreTiles-le}
use sysprog2021s.Malloclab.Explicit.{min_bsize, move_in, mm_malloc}
use sysprog2021s.Malloclab.Explicit.Malloc.{mm_malloc_ends}
use sysprog2021s.Malloclab.Explicit.Moves.{move_in-IsResized}
use sysprog2021s.Malloclab.Explicit.InPlace.{shrink-IsResized, grow-IsResized, grow_back-IsResized}

-- The tests of `resize`, with what it reads from the heap.
abbrev pub choose :
    (ptr size : ℕ)
    → Heap
    → (oldbsize prevsize : ℕ) (prev_alloc : Bool) (nextsize : ℕ) (next_alloc : Bool)
    → Option (ℕ × Heap)
choose ptr size h oldbsize prevsize prev_alloc nextsize next_alloc =
    let newbsize = add_size (align size) dsize in
    let wanted = add_size newbsize min_bsize in
    if leb wanted oldbsize
    then some (ptr, shrink ptr oldbsize newbsize h)
    else if oldbsize == newbsize
    then some (ptr, h)
    else if not prev_alloc && leb wanted (add_size oldbsize prevsize)
    then some (grow_back ptr (add_size oldbsize prevsize) newbsize h)
    else if not next_alloc && leb wanted (add_size oldbsize nextsize)
    then some (ptr, grow ptr (add_size oldbsize nextsize) newbsize h)
    else mm_malloc size h >>= (λ r. some (move_in ptr oldbsize newbsize r))

-- One of five results, with what the tests say of each.
chosen :
    (P : Option (ℕ × Heap) → Type 0) (t1 t2 t3 t4 : Bool) (o1 o2 o3 o4 o5 : Option (ℕ × Heap))
    → (t1 ≡ true → P o1)
    → (t2 ≡ true → P o2)
    → (t3 ≡ true → P o3)
    → (t4 ≡ true → P o4)
    → P o5
    → P (if t1 then o1 else if t2 then o2 else if t3 then o3 else if t4 then o4 else o5)
chosen P true t2 t3 t4 o1 o2 o3 o4 o5 p1 p2 p3 p4 p5 = p1 refl
chosen P false true t3 t4 o1 o2 o3 o4 o5 p1 p2 p3 p4 p5 = p2 refl
chosen P false false true t4 o1 o2 o3 o4 o5 p1 p2 p3 p4 p5 = p3 refl
chosen P false false false true o1 o2 o3 o4 o5 p1 p2 p3 p4 p5 = p4 refl
chosen P false false false false o1 o2 o3 o4 o5 p1 p2 p3 p4 p5 = p5

-- It ends, with NULL and no change, or with a block that is large enough.
abbrev pub IsDone : Heap → List Block → (nb ptr : ℕ) → Option (ℕ × Heap) → Type 0
IsDone h bs nb ptr o =
    (r : ℕ × Heap) × ((o ≡ some r) × (((r.0 ≡ 0) × (r.1 ≡ h)) ⊎ IsResized h bs nb ptr r.0 r.1))

module _ (h : Heap) (front : List Block) (j : ℕ) (u : Bool) (s : ℕ) (rest : List Block)
    (fs : List ℕ) (v : IsFull h (front ++ (record { size = j; used = u } ∷ full s ∷ rest)) fs)
    (ne : end_of (h.memory.start_brk + 4) front + j + 4 ≢ h.prol_bp) (size : ℕ) (nz : size ≢ 0)
    (small : size + 32 < 2 ^ 32) where
  -- What the tiles say of the sizes.
  sizes : (s % 8 ≡ 0) × (16 ≤ s) × (s + j < 2 ^ 32)
  sizes =
      let p : ℕ = h.memory.start_brk + 4 in
      let end : ℕ = h.memory.brk - 4 in
      let ys = record { size = j; used = u } ∷ full s ∷ rest in
      let (r1, r2) = AllRoomy-split front ys v.state.tiled.roomy in
      let (t1, t2) = AreTiles-split h.word p end front ys v.state.tiled.tiles in
      let le = AreTiles-le h.word (end_of p front + j + s) end rest t2.1.1 in
      (
        omega (arith, t2.1.0),
        omega (arith, r2),
        omega (arith, le, v.state.tiled.memory.low, v.state.tiled.memory.below),
      )

  module _ (nb : ℕ) (b8 : nb % 8 ≡ 0) (large : 16 ≤ nb) where
    shrunk :
        let ptr = end_of (h.memory.start_brk + 4) front + j + 4 in
        nb + 16 ≤ s
        → IsResized h
            (front ++ (record { size = j; used = u } ∷ full s ∷ rest))
            nb
            ptr
            ptr
            (shrink ptr s nb h)
    shrunk fits =
        let p : ℕ = h.memory.start_brk + 4 in
        let a : Block = record { size = j; used = u } in
        let ys = full s ∷ rest in
        snoc-split (λ bs x. IsResized h bs nb (x + 4) (x + 4) (shrink (x + 4) s nb h)) p front a ys
          (shrink-IsResized h (front ++ (a ∷ [])) s nb rest fs b8 large
            (split-snoc (λ bs x. IsFull h bs fs) p front a ys v)
            (split-snoc (λ bs x. x + 4 ≢ h.prol_bp) p front a ys ne) fits)

    grown :
        (k : ℕ) (rest' : List Block)
        → rest ≡ free k ∷ rest'
        → nb + 16 ≤ s + k
        → let ptr = end_of (h.memory.start_brk + 4) front + j + 4 in
          IsResized h
            (front ++ (record { size = j; used = u } ∷ full s ∷ rest))
            nb
            ptr
            ptr
            (grow ptr (s + k) nb h)
    grown k rest' e fits =
        let p : ℕ = h.memory.start_brk + 4 in
        let a : Block = record { size = j; used = u } in
        let ptr : ℕ = end_of p front + j + 4 in
        let ys = full s ∷ free k ∷ rest' in
        let v' : IsFull h (front ++ (a ∷ ys)) fs =
          subst (λ rest. IsFull h (front ++ (a ∷ full s ∷ rest)) fs) e v in
        let now =
          snoc-split (λ bs x. IsResized h bs nb (x + 4) (x + 4) (grow (x + 4) (s + k) nb h)) p front
            a ys
            (grow-IsResized h (front ++ (a ∷ [])) s nb rest' fs b8 large k
              (split-snoc (λ bs x. IsFull h bs fs) p front a ys v')
              (split-snoc (λ bs x. x + 4 ≢ h.prol_bp) p front a ys ne) fits) in
        subst
          (λ rest. IsResized h (front ++ (a ∷ full s ∷ rest)) nb ptr ptr (grow ptr (s + k) nb h))
          (sym e) now

    grown_back :
        u ≡ false
        → nb + 16 ≤ j + s
        → let ptr = end_of (h.memory.start_brk + 4) front + j + 4 in
          let r = grow_back ptr (j + s) nb h in
          IsResized h (front ++ (record { size = j; used = u } ∷ full s ∷ rest)) nb ptr r.0 r.1
    grown_back e fits =
        let ptr : ℕ = end_of (h.memory.start_brk + 4) front + j + 4 in
        let r = grow_back ptr (j + s) nb h in
        let v' : IsFull h (front ++ (free j ∷ full s ∷ rest)) fs =
          subst (λ u. IsFull h (front ++ (record { size = j; used = u } ∷ full s ∷ rest)) fs) e v in
        subst
          (λ u.
            IsResized h (front ++ (record { size = j; used = u } ∷ full s ∷ rest)) nb ptr r.0 r.1)
          (sym e) (grow_back-IsResized h front s nb rest fs b8 large j v' ne fits)

  kept :
      let ptr = end_of (h.memory.start_brk + 4) front + j + 4 in
      let bs = front ++ (record { size = j; used = u } ∷ full s ∷ rest) in
      view h bs ptr ≡ some s → IsResized h bs s ptr ptr h
  kept e =
      let p : ℕ = h.memory.start_brk + 4 in
      let m : ℕ = end_of p front in
      let ptr : ℕ = m + j + 4 in
      let ys = record { size = j; used = u } ∷ full s ∷ rest in
      record {
        blocks = front ++ ys;
        size = s;
        heap = (fs, v);
        large = omega arith;
        aligned =
            IsAt-aligned h.word ptr true p (h.memory.brk - 4) (front ++ ys) v.state.tiled.tiles
              (IsAt-back ptr true p front ys (inr (inl (refl, refl))))
              (omega (arith, v.state.tiled.aligned));
        new = inl refl;
        moved = λ a. elim (Bool-cases (a == ptr)) [
          | inl same ↦ rw same (ap (λ x. view h (front ++ ys) x) (ground arith) ∙ e)
          | inr other ↦ rw other refl
        ];
      }

  pub choose-IsDone :
      let ptr = end_of (h.memory.start_brk + 4) front + j + 4 in
      let bs = front ++ (record { size = j; used = u } ∷ full s ∷ rest) in
      (k : ℕ) (w : Bool)
      → view h bs ptr ≡ some s
      → (w ≡ false → (rest' : List Block) × ((rest ≡ free k ∷ rest') × (s + k < 2 ^ 32)))
      → IsDone h bs (add_size (align size) dsize) ptr (choose ptr size h s j u k w)
  choose-IsDone k w e next =
      let p : ℕ = h.memory.start_brk + 4 in
      let m : ℕ = end_of p front in
      let ptr : ℕ = m + j + 4 in
      let a : Block = record { size = j; used = u } in
      let bs = front ++ (a ∷ full s ∷ rest) in
      let nb : ℕ = add_size (align size) 8 in
      let wanted : ℕ = add_size nb 16 in
      let (s8, s16, sj) = sizes in
      let b8 : nb % 8 ≡ 0 = omega arith in
      let large : 16 ≤ nb = omega arith in
      let room : wanted ≡ nb + 16 = omega arith in
      let (r, (done, allocated)) = mm_malloc_ends h bs size (fs, v) nz (omega arith) in
      chosen (IsDone h bs nb ptr) (leb wanted s) (s == nb) (not u && leb wanted (add_size s j))
        (not w && leb wanted (add_size s k)) (some (ptr, shrink ptr s nb h)) (some (ptr, h))
        (some (grow_back ptr (add_size s j) nb h)) (some (ptr, grow ptr (add_size s k) nb h))
        (mm_malloc size h >>= (λ r. some (move_in ptr s nb r)))
        (λ t. ((ptr, shrink ptr s nb h), (refl, inr (shrunk nb b8 large (ground arith)))))
        (λ t.
          ((ptr, h), (refl, inr (subst (λ n. IsResized h bs n ptr ptr h) (ground arith) (kept e)))))
        (λ t.
          let back : j + s ≡ add_size s j = omega (arith, sj) in
          (
            grow_back ptr (add_size s j) nb h,
            (
              refl,
              inr (
                  subst (λ n. let r = grow_back ptr n nb h in IsResized h bs nb ptr r.0 r.1) back
                    (grown_back nb b8 large (ground arith) (ground arith))),
            ),
          ))
        (λ t.
          let (rest', (same, sk)) = next (ground arith) in
          let forth : s + k ≡ add_size s k = omega (arith, sk) in
          (
            (ptr, grow ptr (add_size s k) nb h),
            (
              refl,
              inr (
                  subst (λ n. IsResized h bs nb ptr ptr (grow ptr n nb h)) forth
                    (grown nb b8 large k rest' same (ground arith))),
            ),
          ))
        (
          move_in ptr s nb r,
          (
            ap (λ o. o >>= (λ r. some (move_in ptr s nb r))) done,
            move_in-IsResized h bs nb ptr s (fs, v) e ne (omega arith) (omega arith) r (omega arith)
                (omega arith) allocated,
          ),
        )
