-- ===== src/Malloclab/Explicit/Opens.antt =====
-- Blocks of malloclab-handout/src/mm.c that become a used block and a free one, with the rest of the
-- heap as it was.
use mathlib.Core.List.{Memᴰ}
use mathlib.Core.Path.{subst, sym, ◌∙◌}
use sysprog2021s.Prelude.{
  ℕ, ◌+◌, ◌-◌, ◌%◌, ◌≤◌, ◌<◌, ◌^◌, ◌≡◌, ap, true, false, List, ◌∷◌, ◌++◌, arith,
}
use sysprog2021s.Malloclab.Words.{Words, next_blkp}
use sysprog2021s.Malloclab.Blocks.{Block}
use sysprog2021s.Malloclab.Live.{free, full, join_front}
use sysprog2021s.Malloclab.Places.{
  IsAt, end_of, AllRoomy-split, IsAt-front, IsAt-back, IsAt-within, IsAt-gap, IsAt-outside,
  outside-IsAt,
}
use sysprog2021s.Malloclab.Explicit.{Heap, divide, give_back, set_root}
use sysprog2021s.Malloclab.Explicit.States.{IsState, rewritten, remove-Memᴰ}
use sysprog2021s.Malloclab.Explicit.Roots.{set_root-frame}
use sysprog2021s.Malloclab.Explicit.Stamps.{IsOutside}
use sysprog2021s.Malloclab.Explicit.Hands.{IsFull, set_root-IsFull, Memᴰ-remove, remove-gone}
use sysprog2021s.Malloclab.Explicit.Windows.{IsKept, divided, divide-divided}
use sysprog2021s.Malloclab.Explicit.Frees.{IsListedHeap, give_back-IsFull}
use sysprog2021s.Malloclab.Explicit.Unlink.{remove}
use sysprog2021s.Malloclab.Explicit.Coalesced.{cut, cut-IsState}
use sysprog2021s.Malloclab.Explicit.Divides.{divided-IsHand}
use sysprog2021s.Malloclab.Explicit.Joins.{coalesce-IsCoalesced, joined_at}

-- What holds around some blocks, none of which is in the list of free ones.
pub record IsOpen (h : Heap) (front : List Block) (size : ℕ) (rest : List Block) (fs : List ℕ)
    : Type 0 where
  pub anchor :
      IsOutside h.prol_bp true
        (h.memory.start_brk + 4)
        front
        (end_of (h.memory.start_brk + 4) front + size)
        rest
  pub clear :
      (x : ℕ)
      → Memᴰ x fs
      → IsOutside x false
          (h.memory.start_brk + 4)
          front
          (end_of (h.memory.start_brk + 4) front + size)
          rest
  pub listed :
      (x : ℕ)
      → IsOutside x false
          (h.memory.start_brk + 4)
          front
          (end_of (h.memory.start_brk + 4) front + size)
          rest
      → Memᴰ x fs

module _ (h : Heap) (front : List Block) (size : ℕ) (mid rest : List Block) (fs : List ℕ)
    (v : IsFull h (front ++ (mid ++ rest)) fs)
    (e : end_of (end_of (h.memory.start_brk + 4) front) mid
      ≡ end_of (h.memory.start_brk + 4) front + size)
    (prol : IsAt h.prol_bp true (end_of (h.memory.start_brk + 4) front) mid → ⊥) where
  pub used-IsOpen :
      ((x : ℕ) → IsAt x false (end_of (h.memory.start_brk + 4) front) mid → ⊥)
      → IsOpen h front size rest fs
  used-IsOpen all_used =
      let p : ℕ = h.memory.start_brk + 4 in
      let hi : ℕ = end_of p front + size in
      record {
        anchor = IsAt-outside h.prol_bp true p hi front mid rest v.state.tiled.anchor prol e;
        clear = λ x i. IsAt-outside x false p hi front mid rest (v.state.sound x i) (all_used x) e;
        listed = λ x o. v.listed x (outside-IsAt x false p hi front mid rest o e);
      }

  pub cut-IsOpen :
      (y : ℕ)
      → IsAt y false (end_of (h.memory.start_brk + 4) front) mid
      → ((x : ℕ) → IsAt x false (end_of (h.memory.start_brk + 4) front) mid → x ≡ y)
      → IsState (cut h y) (front ++ (mid ++ rest)) (remove y fs)
        × IsOpen (cut h y) front size rest (remove y fs)
  cut-IsOpen y at only =
      let p : ℕ = h.memory.start_brk + 4 in
      let m : ℕ = end_of p front in
      let hi : ℕ = m + size in
      let bs = front ++ (mid ++ rest) in
      let i =
        v.listed y (IsAt-back y false p front (mid ++ rest) (IsAt-front y false m mid rest at)) in
      let (r1, r2) = AllRoomy-split front (mid ++ rest) v.state.tiled.roomy in
      let (r3, r4) = AllRoomy-split mid rest r2 in
      (
        cut-IsState h bs fs y v.state i,
        record {
          anchor = IsAt-outside h.prol_bp true p hi front mid rest v.state.tiled.anchor prol e;
          clear = λ x j.
              IsAt-outside x false p hi front mid rest (v.state.sound x (remove-Memᴰ x y fs j))
                (λ inside.
                  remove-gone y h.prol_bp fs v.state.list.apart
                    (subst (λ z. Memᴰ z (remove y fs)) (only x inside) j))
                e;
          listed = λ x o.
              Memᴰ-remove x y fs
                (λ same. omega (
                  arith,
                  same,
                  e,
                  IsAt-within y false m mid r3 at,
                  IsAt-gap x false p hi front rest r1 r4 o,
                ))
                (v.listed x (outside-IsAt x false p hi front mid rest o e));
        },
      )

module _ (h : Heap) (w0 : Words) (size bsize : ℕ) (front mid rest : List Block) (fs : List ℕ)
    (v : IsState h (front ++ (mid ++ rest)) fs) (o : IsOpen h front size rest fs)
    (kept : IsKept
      (end_of (h.memory.start_brk + 4) front)
      (end_of (h.memory.start_brk + 4) front + size)
      h.word
      w0)
    (e : end_of (end_of (h.memory.start_brk + 4) front) mid
      ≡ end_of (h.memory.start_brk + 4) front + size)
    (a8 : size % 8 ≡ 0) (b8 : bsize % 8 ≡ 0) (large : 16 ≤ bsize) (fits : bsize + 16 ≤ size)
    (low : size < 2 ^ 32) where
  -- The remainder is joined with the free block behind it.
  pub given_back-IsListedHeap :
      let m = end_of (h.memory.start_brk + 4) front in
      let h1 = divide (m + 4) size bsize (rewritten h w0 h.root_bp) in
      let h' = give_back (next_blkp (m + 4) h1.word) h1 in
      IsListedHeap h' (front ++ (full bsize ∷ join_front (size - bsize) rest))
      × (h'.memory ≡ h.memory)
  given_back-IsListedHeap =
      let p : ℕ = h.memory.start_brk + 4 in
      let m : ℕ = end_of p front in
      let h0 = rewritten h w0 h.root_bp in
      let h2 = rewritten h (divided w0 m size bsize) h.root_bp in
      let bs = front ++ (full bsize ∷ join_front (size - bsize) rest) in
      let (words, next) = divide-divided h0 m size bsize a8 b8 large fits low in
      let hand =
        divided-IsHand h w0 size bsize front mid rest fs v kept a8 b8 large fits e o.anchor o.clear
          o.listed in
      let joined = coalesce-IsCoalesced h2 front bsize (size - bsize) true rest fs hand in
      let (heap, memory, prol) =
        give_back-IsFull h2 bs (m + bsize + 4) (joined_at m (full bsize)) joined in
      let result =
        ap (λ h1. give_back (next_blkp (m + 4) h1.word) h1) words ∙ ap (λ x. give_back x h2) next in
      subst (λ h'. IsListedHeap h' bs × (h'.memory ≡ h.memory)) (sym result) (heap, memory)

  -- The remainder is put into the list.
  pub set_root-IsListedHeap :
      let m = end_of (h.memory.start_brk + 4) front in
      let h1 = divide (m + 4) size bsize (rewritten h w0 h.root_bp) in
      let h' = set_root (next_blkp (m + 4) h1.word) h1 in
      IsListedHeap h' (front ++ (full bsize ∷ free (size - bsize) ∷ rest)) × (h'.memory ≡ h.memory)
  set_root-IsListedHeap =
      let p : ℕ = h.memory.start_brk + 4 in
      let m : ℕ = end_of p front in
      let h0 = rewritten h w0 h.root_bp in
      let h2 = rewritten h (divided w0 m size bsize) h.root_bp in
      let bs = front ++ (full bsize ∷ free (size - bsize) ∷ rest) in
      let (words, next) = divide-divided h0 m size bsize a8 b8 large fits low in
      let hand =
        divided-IsHand h w0 size bsize front mid rest fs v kept a8 b8 large fits e o.anchor o.clear
          o.listed in
      let result =
        ap (λ h1. set_root (next_blkp (m + 4) h1.word) h1) words ∙ ap (λ x. set_root x h2) next in
      subst (λ h'. IsListedHeap h' bs × (h'.memory ≡ h.memory)) (sym result)
        (
          ((m + bsize + 4) ∷ fs, set_root-IsFull h2 bs fs (m + bsize + 4) hand),
          (set_root-frame h2 (m + bsize + 4)).0,
        )
