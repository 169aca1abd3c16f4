-- ===== src/Malloclab/Explicit/Frees.antt =====
-- `mm_free` of malloclab-handout/src/mm.c as the removal from a map of live blocks.
use mathlib.Core.Path.{subst, sym, ◌∙◌}
use sysprog2021s.Prelude.{
  ℕ, ◌+◌, ◌-◌, ◌≡◌, ◌≢◌, refl, ap, true, false, Option, none, some, List, [], ◌∷◌, ◌++◌, ◌==◌,
  if◌then◌else◌, inl, inr, arith,
}
use sysprog2021s.Malloclab.Words.{get_size, hdrp}
use sysprog2021s.Malloclab.Blocks.{Block, stamp, stamp-IsStamped}
use sysprog2021s.Malloclab.Live
use sysprog2021s.Malloclab.Live.{free, full, join, live, free_at, AllLarge, IsUsedAt}
use sysprog2021s.Malloclab.Places.{
  end_of, AllRoomy, AreTiles-split, AllRoomy-split, IsAt-outside, outside-IsAt, snoc-split,
  split-snoc,
}
use sysprog2021s.Malloclab.Implicit.Heaps.{live-IsUsedAt}
use sysprog2021s.Malloclab.Explicit.{Heap, set_root, mark, give_back, coalesce, mm_free}
use sysprog2021s.Malloclab.Explicit.Roots.{set_root-frame}
use sysprog2021s.Malloclab.Explicit.Stamps.{mark-stamp}
use sysprog2021s.Malloclab.Explicit.Hands.{IsHand, IsFull, stamped-IsHand, set_root-IsFull}
use sysprog2021s.Malloclab.Explicit.Coalesced.{IsCoalesced}
use sysprog2021s.Malloclab.Explicit.Joins.{joined_at, coalesce-IsCoalesced}

-- The heap stands for these blocks: they fill it, and all free ones are in the list.
abbrev pub IsListedHeap : Heap → List Block → Type 0
IsListedHeap h bs = (fs : List ℕ) × IsFull h bs fs

-- The size of the live block at an address.
abbrev pub view : Heap → List Block → ℕ → Option ℕ
view h bs a = live a (h.memory.start_brk + 4) bs

pub AllRoomy-AllLarge : (bs : List Block) → AllRoomy bs → AllLarge bs
AllRoomy-AllLarge [] r = tt
AllRoomy-AllLarge (b ∷ bs) r = (omega (arith, r.0), AllRoomy-AllLarge bs r.1)

-- A block in use becomes the one in hand.
release-IsHand :
    (h : Heap) (front : List Block) (s : ℕ) (rest : List Block) (fs : List ℕ)
    → IsFull h (front ++ (full s ∷ rest)) fs
    → let m = end_of (h.memory.start_brk + 4) front in
      m + 4 ≢ h.prol_bp
      → IsHand (mark (m + 4) (get_size m h.word) false h) (front ++ (free s ∷ rest)) fs (m + 4)
release-IsHand h front s rest fs v ne =
    let p : ℕ = h.memory.start_brk + 4 in
    let m : ℕ = end_of p front in
    let mid = full s ∷ [] in
    let (_, t) =
      AreTiles-split h.word p (h.memory.brk - 4) front (mid ++ rest) v.state.tiled.tiles in
    let (r1, r2) = AllRoomy-split front (mid ++ rest) v.state.tiled.roomy in
    let size : get_size m h.word ≡ s = omega (arith, t.0) in
    let w' = stamp h.word m (free s) in
    subst (λ h'. IsHand h' (front ++ (free s ∷ rest)) fs (m + 4))
      (sym (
        ap (λ n. mark (m + 4) n false h) size
        ∙ mark-stamp h m s false (omega (arith, t)) (omega (arith, r2))))
      (stamped-IsHand h w' s front mid rest fs v.state
        (stamp-IsStamped h.word m (free s) (omega (arith, r2))) (omega (arith, t)) r2.0 refl
        (IsAt-outside h.prol_bp true p (m + s) front mid rest v.state.tiled.anchor
          (λ i. ground (arith, i, ne)) refl)
        (λ x i.
          IsAt-outside x false p (m + s) front mid rest (v.state.sound x i) (λ j. ground (arith, j))
            refl)
        (λ x o. v.listed x (outside-IsAt x false p (m + s) front mid rest o refl)))

-- It is joined with its neighbours and put into the list.
pub give_back-IsFull :
    (h : Heap) (bs : List Block) (bp at : ℕ)
    → IsCoalesced h bs at (coalesce bp h)
    → IsListedHeap (give_back bp h) bs
      × ((give_back bp h).memory ≡ h.memory)
      × ((give_back bp h).prol_bp ≡ h.prol_bp)
unfolding give_back
give_back-IsFull h bs bp at (fs, (hand, same, memory, prol)) =
    let (bp', h') = coalesce bp h in
    let frame = set_root-frame h' bp' in
    (
      (
        at ∷ fs,
        subst (λ x. IsFull (set_root x h') bs (at ∷ fs)) (sym same)
            (set_root-IsFull h' bs fs at hand),
      ),
      frame.0 ∙ memory,
      frame.1 ∙ prol,
    )

mm_free-give_back :
    (h : Heap) (m : ℕ)
    → mm_free (m + 4) h ≡ give_back (m + 4) (mark (m + 4) (get_size m h.word) false h)
unfolding mm_free
mm_free-give_back h m =
    let some_block : (m + 4 == 0) ≡ false = ground arith in
    let header : hdrp (m + 4) ≡ m = omega arith in
    rw some_block (ap (λ q. give_back (m + 4) (mark (m + 4) (get_size q h.word) false h)) header)

freed-IsFull :
    (h : Heap) (front : List Block) (a : Block) (s : ℕ) (rest : List Block) (fs : List ℕ)
    → IsFull h (front ++ (a ∷ full s ∷ rest)) fs
    → let ptr = end_of (h.memory.start_brk + 4) front + a.size + 4 in
      ptr ≢ h.prol_bp
      → IsListedHeap (mm_free ptr h) (front ++ join a s rest) × ((mm_free ptr h).memory ≡ h.memory)
unfolding mark
freed-IsFull h front a s rest fs v ne =
    let p : ℕ = h.memory.start_brk + 4 in
    let m : ℕ = end_of p front + a.size in
    let v1 = split-snoc (λ bs x. IsFull h bs fs) p front a (full s ∷ rest) v in
    let ne1 = split-snoc (λ bs x. x + 4 ≢ h.prol_bp) p front a (full s ∷ rest) ne in
    let hand =
      snoc-split (λ bs x. IsHand (mark (x + 4) (get_size x h.word) false h) bs fs (x + 4)) p front a
        (free s ∷ rest) (release-IsHand h (front ++ (a ∷ [])) s rest fs v1 ne1) in
    let h2 = mark (m + 4) (get_size m h.word) false h in
    let joined = coalesce-IsCoalesced h2 front a.size s a.used rest fs hand in
    let (full', memory, prol) =
      give_back-IsFull h2 (front ++ join a s rest) (m + 4) (joined_at (end_of p front) a) joined in
    subst (λ h'. IsListedHeap h' (front ++ join a s rest) × (h'.memory ≡ h.memory))
      (sym (mm_free-give_back h m)) (full', memory)

-- Where a block in use lies among the others, and what `free_at` makes of them.
pub record IsBehind (q p : ℕ) (bs : List Block) : Type 0 where
  pub front : List Block
  pub before : Block
  pub size : ℕ
  pub rest : List Block
  pub split : bs ≡ front ++ (before ∷ full size ∷ rest)
  pub at : end_of p front + before.size + 4 ≡ q
  pub result : free_at q p bs ≡ front ++ join before size rest

pub IsUsedAt-IsBehind :
    (q p : ℕ) (bs : List Block) → AllLarge bs → IsUsedAt q p bs → IsBehind q p bs
unfolding free_at
IsUsedAt-IsBehind q p [] l u = absurd u
IsUsedAt-IsBehind q p (a ∷ []) l u = absurd u
IsUsedAt-IsBehind q p (a ∷ b ∷ bs) l (inl (e, used)) =
    let here : (p + a.size + 4 == q) ≡ true = ground arith in
    record {
      front = [];
      before = a;
      size = b.size;
      rest = bs;
      split = ap (λ u. a ∷ record { size = b.size; used = u } ∷ bs) used;
      at = e;
      result = rw here refl;
    }
IsUsedAt-IsBehind q p (a ∷ b ∷ bs) l (inr u) =
    let f = IsUsedAt-IsBehind q (p + a.size) (b ∷ bs) l.1 u in
    let below = Live.IsUsedAt-below q (p + a.size) (b ∷ bs) l.1 u in
    let later : (p + a.size + 4 == q) ≡ false = ground arith in
    record {
      front = a ∷ f.front;
      before = f.before;
      size = f.size;
      rest = f.rest;
      split = ap (λ bs. a ∷ bs) f.split;
      at = f.at;
      result = rw later (ap (λ bs. a ∷ bs) f.result);
    }

-- `mm_free` of a live block other than the prologue removes it from the map and changes nothing
-- else in it; the blocks again fill the heap, and all free ones are in the list.
pub mm_free-IsListedHeap :
    (h : Heap) (bs : List Block) (ptr s : ℕ)
    → IsListedHeap h bs
    → view h bs ptr ≡ some s
    → ptr ≢ h.prol_bp
    → (bs' : List Block) × (IsListedHeap (mm_free ptr h) bs'
        × ((a : ℕ) → view (mm_free ptr h) bs' a ≡ (if a == ptr then none else view h bs a)))
mm_free-IsListedHeap h bs ptr s (fs, v) e n =
    let p : ℕ = h.memory.start_brk + 4 in
    let large = AllRoomy-AllLarge bs v.state.tiled.roomy in
    let u = live-IsUsedAt ptr p s bs large e (omega (arith, v.state.tiled.prologue)) in
    let f = IsUsedAt-IsBehind ptr p bs large u in
    let (v', memory) : IsListedHeap (mm_free ptr h) (free_at ptr p bs)
        × ((mm_free ptr h).memory ≡ h.memory) =
      subst (λ q. IsListedHeap (mm_free q h) (free_at ptr p bs) × ((mm_free q h).memory ≡ h.memory))
        f.at
        (subst
          (λ bs'.
            IsListedHeap (mm_free (end_of p f.front + f.before.size + 4) h) bs'
            × ((mm_free (end_of p f.front + f.before.size + 4) h).memory ≡ h.memory))
          (sym f.result)
          (freed-IsFull h f.front f.before f.size f.rest fs (subst (λ bs. IsFull h bs fs) f.split v)
            (λ same. n (sym f.at ∙ same)))) in
    (
      free_at ptr p bs,
      (
        v',
        λ a.
            ap (λ m. live a (m.start_brk + 4) (free_at ptr p bs)) memory
            ∙ Live.live-free_at a ptr p bs large u,
      ),
    )
