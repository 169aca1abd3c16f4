-- ===== src/Malloclab/Explicit/Windows.antt =====
-- Blocks in the middle of the heap of malloclab-handout/src/mm.c that become other ones.
use mathlib.Core.List.{Memᴰ}
use mathlib.Core.Path.{subst, sym, ◌∙◌}
use sysprog2021s.Prelude.{
  ℕ, ◌+◌, ◌-◌, ◌%◌, ◌≤◌, ◌<◌, ◌^◌, ◌≡◌, ap, Bool, true, false, List, [], ◌∷◌, ◌++◌, ◌⊎◌, inl, inr,
  arith,
}
use sysprog2021s.Malloclab.Words.{Words, put, sub_size, get_size, hdrp, ftrp, next_blkp}
use sysprog2021s.Malloclab.Blocks.{
  Block, AreTiles, AreTiles-le, AreTiles-at, AreTiles-IsSame, stamp, stamp-IsStamped,
}
use sysprog2021s.Malloclab.Live.{free, full}
use sysprog2021s.Malloclab.Places.{
  IsAt, end_of, AllRoomy, AllRoomy-split, AllRoomy-append, IsAt-front, IsAt-back, IsAt-gap,
  AreTiles-split, AreTiles-append,
}
use sysprog2021s.Malloclab.Explicit.{Heap, write, divide, mark}
use sysprog2021s.Malloclab.Explicit.States.{IsState, rewritten}
use sysprog2021s.Malloclab.Explicit.Stamps.{IsOutside, AreLinked-kept, mark-stamp}

-- Two memories agree outside of some bytes.
abbrev pub IsKept : (lo hi : ℕ) → Words → Words → Type 0
IsKept lo hi w w' = (q : ℕ) → (q < lo) ⊎ (hi ≤ q) → w' q ≡ w q

IsOutside-front :
    (x : ℕ) (u : Bool) (p m hi : ℕ) (front mid back : List Block)
    → IsOutside x u p front hi back
    → end_of (end_of p front) mid ≡ hi
    → IsAt x u p (front ++ (mid ++ back))
IsOutside-front x u p m hi front mid back (inl i) e = IsAt-front x u p front (mid ++ back) i
IsOutside-front x u p m hi front mid back (inr i) e =
    IsAt-back x u p front (mid ++ back)
      (IsAt-back x u (end_of p front) mid back (subst (λ y. IsAt x u y back) (sym e) i))

module _ (h : Heap) (w' : Words) (size : ℕ) (front mid mid' back : List Block) (fs : List ℕ)
    (v : IsState h (front ++ (mid ++ back)) fs) where
  pub replaced-IsState :
      let p = h.memory.start_brk + 4 in
      let m = end_of p front in
      let hi = m + size in
      IsKept m hi h.word w'
      → AreTiles w' m mid' hi
      → AllRoomy mid'
      → end_of m mid ≡ hi
      → end_of m mid' ≡ hi
      → IsOutside h.prol_bp true p front hi back
      → ((x : ℕ) → Memᴰ x fs → IsOutside x false p front hi back)
      → IsState (rewritten h w' h.root_bp) (front ++ (mid' ++ back)) fs
  replaced-IsState kept tiles roomy e e' anchor clear =
      let p : ℕ = h.memory.start_brk + 4 in
      let end : ℕ = h.memory.brk - 4 in
      let m : ℕ = end_of p front in
      let hi : ℕ = m + size in
      let (t1, t2) = AreTiles-split h.word p end front (mid ++ back) v.tiled.tiles in
      let (t3, t4) = AreTiles-split h.word m end mid back t2 in
      let (r1, r2) = AllRoomy-split front (mid ++ back) v.tiled.roomy in
      let (r3, r4) = AllRoomy-split mid back r2 in
      let le = AreTiles-le h.word (end_of m mid) end back t4 in
      let below = AreTiles-IsSame h.word w' p m front t1 (λ q from to. kept q (inl to)) in
      let above =
        AreTiles-IsSame h.word w' hi end back (AreTiles-at h.word (end_of m mid) hi end back e t4)
          (λ q from to. kept q (inr from)) in
      let tiles' =
        AreTiles-append w' m end mid' back (subst (AreTiles w' m mid') (sym e') tiles)
          (AreTiles-at w' hi (end_of m mid') end back (sym e') above) in
      let same = λ (x : ℕ) (u : Bool) (o : IsOutside x u p front hi back).
        let gap = IsAt-gap x u p hi front back r1 r4 o in
        let pair : (w' x ≡ h.word x) × (w' (x + 4) ≡ h.word (x + 4)) =
          (kept x (omega arith), kept (x + 4) (omega arith)) in
        pair in
      record {
        tiled = record {
          memory = v.tiled.memory;
          prologue = v.tiled.prologue;
          aligned = v.tiled.aligned;
          sized = v.tiled.sized;
          tiles = AreTiles-append w' p end front (mid' ++ back) below tiles';
          epilogue = kept end (inr (omega (arith, e, le))) ∙ v.tiled.epilogue;
          roomy = AllRoomy-append front (mid' ++ back) r1 (AllRoomy-append mid' back roomy r4);
          anchor = IsOutside-front h.prol_bp true p m hi front mid' back anchor e';
        };
        list = record {
          linked =
              AreLinked-kept h.word w' 0 h.root_bp h.prol_bp fs v.list.linked
                (λ x i. same x false (clear x i)) (same h.prol_bp true anchor).1;
          apart = v.list.apart;
        };
        sound = λ x i. IsOutside-front x false p m hi front mid' back (clear x i) e';
      }

-- The words that `divide` writes.
abbrev pub divided : Words → (m size bsize : ℕ) → Words
divided w m size bsize = stamp (stamp w m (full bsize)) (m + bsize) (free (size - bsize))

pub divided-AreTiles :
    (w : Words) (m size bsize : ℕ)
    → size % 8 ≡ 0
    → bsize % 8 ≡ 0
    → 16 ≤ bsize
    → bsize + 16 ≤ size
    → AreTiles (divided w m size bsize) m (full bsize ∷ free (size - bsize) ∷ []) (m + size)
      × IsKept m (m + size) w (divided w m size bsize)
divided-AreTiles w m size bsize a8 b8 big fits =
    let w1 = stamp w m (full bsize) in
    let (h1, f1, o1) = stamp-IsStamped w m (full bsize) (omega arith) in
    let (h2, f2, o2) = stamp-IsStamped w1 (m + bsize) (free (size - bsize)) (omega arith) in
    let kept1 = o2 m (λ e. omega arith) (λ e. omega arith) in
    let kept2 = o2 (m + bsize - 4) (λ e. omega arith) (λ e. omega arith) in
    (
      (
        (kept1 ∙ h1, kept2 ∙ f1, b8, omega arith),
        ((h2, f2, omega arith, omega arith), omega arith),
      ),
      λ q out.
          o2 q (λ e. omega arith) (λ e. omega arith) ∙ o1 q (λ e. omega arith) (λ e. omega arith),
    )

-- The part of `divide` behind the first `mark`.
abbrev split_off : (bp rest : ℕ) → Heap → Heap
split_off bp rest h1 =
    let h2 = write (hdrp (next_blkp bp h1.word)) rest h1 in
    write (ftrp (next_blkp bp h2.word) h2.word) rest h2

split_off-lem :
    (h : Heap) (m bsize r : ℕ)
    → get_size m h.word ≡ bsize
    → r % 8 ≡ 0
    → 16 ≤ bsize
    → 8 ≤ r
    → split_off (m + 4) r h ≡ rewritten h (stamp h.word (m + bsize) (free r)) h.root_bp
unfolding put stamp
split_off-lem h m bsize r size aligned b8 r8 =
    let w = h.word in
    let bp : ℕ = m + 4 in
    let next : hdrp (next_blkp bp w) ≡ m + bsize = ground arith in
    let w2 = put (m + bsize) r w in
    let foot : ftrp (next_blkp bp w2) w2 ≡ m + bsize + r - 4 = ground arith in
    ap
      (λ (q : ℕ).
        let w2 = put q r w in rewritten h (put (ftrp (next_blkp bp w2) w2) r w2) h.root_bp)
      next
    ∙ ap (λ (q : ℕ). rewritten h (put q r w2) h.root_bp) foot
    ∙ ap (λ (v : ℕ). rewritten h (put (m + bsize + r - 4) v (put (m + bsize) v w)) h.root_bp)
        (omega arith)

pub divide-divided :
    (h : Heap) (m size bsize : ℕ)
    → size % 8 ≡ 0
    → bsize % 8 ≡ 0
    → 16 ≤ bsize
    → bsize + 16 ≤ size
    → size < 2 ^ 32
    → (divide (m + 4) size bsize h ≡ rewritten h (divided h.word m size bsize) h.root_bp)
      × (next_blkp (m + 4) (divided h.word m size bsize) ≡ m + bsize + 4)
unfolding divide
divide-divided h m size bsize a8 b8 big fits low =
    let head = (divided-AreTiles h.word m size bsize a8 b8 big fits).0.0.0 in
    let w1 = stamp h.word m (full bsize) in
    let (h1, f1, o1) = stamp-IsStamped h.word m (full bsize) (omega arith) in
    let first : get_size m w1 ≡ bsize = omega (arith, h1) in
    let rest : sub_size size bsize ≡ size - bsize = omega arith in
    (
      ap (λ r. split_off (m + 4) r (mark (m + 4) bsize true h)) rest
          ∙ ap (λ h'. split_off (m + 4) (size - bsize) h')
              (mark-stamp h m bsize true b8 (omega arith))
          ∙ split_off-lem (rewritten h w1 h.root_bp) m bsize (size - bsize) first (omega arith) big
              (omega arith),
      ground arith,
    )
