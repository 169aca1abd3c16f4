-- ===== src/Malloclab/Explicit/Realloc.antt =====
-- `mm_realloc` of malloclab-handout/src/mm.c on the map of live blocks.
use mathlib.Core.Path.{subst, sym, ◌∙◌}
use sysprog2021s.Prelude.{
  ℕ, ◌+◌, ◌-◌, ◌≤◌, ◌<◌, ◌^◌, ◌≡◌, ◌≢◌, ap, Bool, false, some, List, [], ◌∷◌, ◌++◌, ◌==◌, ◌⊎◌,
  arith,
}
use sysprog2021s.Malloclab.Words.{Words}
use sysprog2021s.Malloclab.Blocks.{Block, AreTiles, IsTile}
use sysprog2021s.Malloclab.Live
use sysprog2021s.Malloclab.Live.{free, full, join_front, live, AllLarge}
use sysprog2021s.Malloclab.Places.{end_of, AllRoomy, AllRoomy-split, AreTiles-split}
use sysprog2021s.Malloclab.Explicit.{Heap}
use sysprog2021s.Malloclab.Explicit.Hands.{IsFull}
use sysprog2021s.Malloclab.Explicit.Frees.{IsListedHeap, view, AllRoomy-AllLarge}
use sysprog2021s.Malloclab.Explicit.Views.{live-append}
use sysprog2021s.Malloclab.Explicit.Moves.{IsResized}
use sysprog2021s.Malloclab.Words.{
  dsize, add_size, align, get_size, get_alloc, hdrp, ftrp, next_blkp, prev_blkp,
}
use sysprog2021s.Malloclab.Blocks.{AreTiles-le}
use sysprog2021s.Malloclab.Implicit.Heaps.{live-IsUsedAt}
use sysprog2021s.Malloclab.Explicit.{resize, mm_realloc}
use sysprog2021s.Malloclab.Explicit.Frees.{IsUsedAt-IsBehind}
use sysprog2021s.Malloclab.Explicit.Choices.{choose, IsDone, choose-IsDone}

-- The block at `q`, behind a live one, where its header says that it is free.
next_free :
    (w : Words) (q end : ℕ) (rest : List Block)
    → AreTiles w q rest end
    → w end ≡ 1
    → get_alloc q w ≡ false
    → (rest' : List Block) × ((rest ≡ free (get_size (ftrp (q + 4) w) w) ∷ rest')
        × (q + get_size (ftrp (q + 4) w) w ≤ end))
next_free w q end [] t one unused = let odd : w q ≡ 1 = ap w t ∙ one in absurd (ground (arith, odd))
next_free w q end (b ∷ bs) t one unused =
    let used : b.used ≡ false = ground (arith, t.0) in
    let footer : ftrp (q + 4) w ≡ q + b.size - 4 = ground (arith, t.0, used) in
    let size : b.size ≡ get_size (ftrp (q + 4) w) w =
      subst (λ f. b.size ≡ get_size f w) (sym footer) (ground (arith, t.0, used)) in
    let le = AreTiles-le w (q + b.size) end bs t.1 in
    (
      bs,
      (
        ap (λ u. record { size = b.size; used = u } ∷ bs) used ∙ ap (λ n. free n ∷ bs) size,
        subst (λ n. q + n ≤ end) size le,
      ),
    )

-- What `resize` reads from the headers and footers.
resize-choose :
    (h : Heap) (m j s size : ℕ) (u : Bool)
    → IsTile h.word m (record { size = j; used = u })
    → IsTile h.word (m + j) (full s)
    → let w = h.word in
      let next = m + j + s + 4 in
      resize (m + j + 4) size h
      ≡ choose (m + j + 4) size h s j u (get_size (ftrp next w) w) (get_alloc (hdrp next) w)
unfolding resize
resize-choose h m j s size u ta ts =
    let w = h.word in
    let ptr : ℕ = m + j + 4 in
    let old : get_size (hdrp ptr) w ≡ s = ground (arith, ts) in
    let prev : ftrp (prev_blkp ptr w) w ≡ m + j - 4 = ground (arith, ta) in
    let prevsize : get_size (m + j - 4) w ≡ j = ground (arith, ta) in
    let prev_alloc : get_alloc (m + j - 4) w ≡ u = ground (arith, ta) in
    let next : next_blkp ptr w ≡ m + j + s + 4 = ground (arith, ts) in
    ap
      (λ x.
        choose ptr size h (get_size (hdrp ptr) w) (get_size (ftrp (prev_blkp ptr w) w) w)
          (get_alloc (ftrp (prev_blkp ptr w) w) w) (get_size (ftrp x w) w) (get_alloc (hdrp x) w))
      next
    ∙ ap
        (λ f.
          choose ptr size h (get_size (hdrp ptr) w) (get_size f w) (get_alloc f w)
            (get_size (ftrp (m + j + s + 4) w) w) (get_alloc (hdrp (m + j + s + 4)) w))
        prev
    ∙ ap
        (λ n.
          choose ptr size h n (get_size (m + j - 4) w) (get_alloc (m + j - 4) w)
            (get_size (ftrp (m + j + s + 4) w) w) (get_alloc (hdrp (m + j + s + 4)) w))
        old
    ∙ ap
        (λ n.
          choose ptr size h s n (get_alloc (m + j - 4) w) (get_size (ftrp (m + j + s + 4) w) w)
            (get_alloc (hdrp (m + j + s + 4)) w))
        prevsize
    ∙ ap
        (λ u.
          choose ptr size h s j u (get_size (ftrp (m + j + s + 4) w) w)
            (get_alloc (hdrp (m + j + s + 4)) w))
        prev_alloc

resize-IsDone :
    (h : Heap) (front : List Block) (j : ℕ) (u : Bool) (s : ℕ) (rest : List Block) (fs : List ℕ)
    (size : ℕ)
    → let ptr = end_of (h.memory.start_brk + 4) front + j + 4 in
      let bs = front ++ (record { size = j; used = u } ∷ full s ∷ rest) in
      IsFull h bs fs
      → ptr ≢ h.prol_bp
      → size ≢ 0
      → size + 32 < 2 ^ 32
      → view h bs ptr ≡ some s
      → IsDone h bs (add_size (align size) dsize) ptr (resize ptr size h)
resize-IsDone h front j u s rest fs size v ne nz small e =
    let p : ℕ = h.memory.start_brk + 4 in
    let end : ℕ = h.memory.brk - 4 in
    let m : ℕ = end_of p front in
    let ptr : ℕ = m + j + 4 in
    let q : ℕ = m + j + s in
    let w = h.word in
    let ys = record { size = j; used = u } ∷ full s ∷ rest in
    let (t1, t2) = AreTiles-split w p end front ys v.state.tiled.tiles in
    let here : hdrp (q + 4) ≡ q = omega arith in
    subst (IsDone h (front ++ ys) (add_size (align size) dsize) ptr)
      (sym (resize-choose h m j s size u t2.0 t2.1.0))
      (choose-IsDone h front j u s rest fs v ne size nz small (get_size (ftrp (q + 4) w) w)
        (get_alloc (hdrp (q + 4)) w) e
        (λ unused.
          let (rest', (same, le)) =
            next_free w q end rest t2.1.1 v.state.tiled.epilogue
              (subst (λ x. get_alloc x w ≡ false) here unused) in
          (rest', (same, omega (arith, le, v.state.tiled.memory.low, v.state.tiled.memory.below)))))

-- A live block holds its own size in the map.
live-behind :
    (p : ℕ) (front : List Block) (a : Block) (s : ℕ) (rest : List Block)
    → AllRoomy (front ++ (a ∷ full s ∷ rest))
    → live (end_of p front + a.size + 4) p (front ++ (a ∷ full s ∷ rest)) ≡ some s
unfolding live
live-behind p front a s rest r =
    let (r1, r2) = AllRoomy-split front (a ∷ full s ∷ rest) r in
    let large = AllRoomy-AllLarge front r1 in
    ground (arith, r2, live-append (end_of p front + a.size + 4) p front (a ∷ full s ∷ rest) large)

-- `mm_realloc` of a live block other than the prologue, to a size that is not 0 and does not come
-- within 32 of 2^32, ends. It returns NULL and changes nothing, or it returns an aligned address:
-- that of the old block, or one that held no live block. In the map, a block that is large enough
-- for the payload, its header and its footer is at that address, the old block is gone if it was at
-- another one, and no other entry changes; the blocks again fill the heap, and all free ones are in
-- the list.
pub mm_realloc-IsResized :
    (h : Heap) (bs : List Block) (ptr size s : ℕ)
    → IsListedHeap h bs
    → view h bs ptr ≡ some s
    → ptr ≢ h.prol_bp
    → size ≢ 0
    → size + 32 < 2 ^ 32
    → (bsize : ℕ) × (r : ℕ × Heap) × ((mm_realloc ptr size h ≡ some r)
        × (size + 8 ≤ bsize)
        × (((r.0 ≡ 0) × (r.1 ≡ h)) ⊎ IsResized h bs bsize ptr r.0 r.1))
unfolding mm_realloc
mm_realloc-IsResized h bs ptr size s (fs, v) e ne nz small =
    let p : ℕ = h.memory.start_brk + 4 in
    let nb : ℕ = add_size (align size) 8 in
    let large = AllRoomy-AllLarge bs v.state.tiled.roomy in
    let u = live-IsUsedAt ptr p s bs large e (omega (arith, v.state.tiled.prologue)) in
    let below = Live.IsUsedAt-below ptr p bs large u in
    let f = IsUsedAt-IsBehind ptr p bs large u in
    let a = f.before in
    let bs' = f.front ++ (a ∷ full f.size ∷ f.rest) in
    let v' : IsFull h bs' fs = subst (λ bs. IsFull h bs fs) f.split v in
    let (r, (done, result)) : IsDone h bs nb ptr (resize ptr size h) =
      subst (λ bs. IsDone h bs nb ptr (resize ptr size h)) (sym f.split)
        (subst (λ x. IsDone h bs' nb x (resize x size h)) f.at
          (resize-IsDone h f.front a.size a.used f.size f.rest fs size v'
            (λ same. ne (sym f.at ∙ same)) nz small
            (live-behind p f.front a f.size f.rest v'.state.tiled.roomy))) in
    let not_null : (ptr == 0) ≡ false = ground arith in
    let some_size : (size == 0) ≡ false = ground arith in
    (nb, r, (rw (not_null, some_size) done, omega arith, result))
