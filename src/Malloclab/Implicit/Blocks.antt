-- ===== src/Malloclab/Implicit/Blocks.antt =====
-- What the functions of malloclab-handout/mm_implicit.c do to the sequence of blocks.
use mathlib.Core.Path.{subst, sym}
use sysprog2021s.Prelude.{
  ℕ, zero, suc, ◌+◌, ◌-◌, ◌*◌, ◌%◌, ◌≤◌, ◌<◌, ◌^◌, ◌≡◌, ap, ◌∙◌, Bool, true, false, some, List, [],
  ◌∷◌, ◌==◌, ltb, inl, inr, arith, Bool-cases, length,
}
use sysprog2021s.Malloclab.Words.{Words, put, dsize, sub_size, get_size, hdrp, next_blkp}
use sysprog2021s.Malloclab.Blocks.{
  Block, IsTile, AreTiles, IsSame, AreTiles-le, AreTiles-IsSame, AreTiles-at, stamped-AreTiles,
  stamp, stamp-IsStamped,
}
use sysprog2021s.Malloclab.Live.{
  free, full, join, first_fit, free_at, place_at, placed, IsUsedAt, IsFitAt, AllLarge,
  IsFitAt-below, IsUsedAt-below,
}
use sysprog2021s.Malloclab.Implicit.{find_fit, mark, split, place, release, coalesce}
use sysprog2021s.Malloclab.Implicit.Joins.{coalesce-IsJoined}

pub AreTiles-AllLarge :
    (w : Words) (p end : ℕ) (bs : List Block) → AreTiles w p bs end → AllLarge bs
AreTiles-AllLarge w p end [] t = tt
AreTiles-AllLarge w p end (b ∷ bs) t = ground (arith, AreTiles-AllLarge w (p + b.size) end bs)

pub AreTiles-length :
    (w : Words) (p end : ℕ) (bs : List Block) → AreTiles w p bs end → p + 8 * length bs ≤ end
AreTiles-length w p end [] t = omega (arith, t)
AreTiles-length w p end (b ∷ bs) t = omega (arith, t.0, AreTiles-length w (p + b.size) end bs t.1)

-- The walk of `find_fit` ends, and finds the first fit.
pub find_fit-first_fit :
    (fuel bsize : ℕ) (w : Words) (p end : ℕ) (bs : List Block)
    → AreTiles w p bs end
    → w end ≡ 1
    → length bs < fuel
    → find_fit fuel bsize (p + 4) w ≡ some (first_fit bsize p bs)
unfolding find_fit first_fit
find_fit-first_fit zero bsize w p end bs t one lt = absurd (omega arith)
find_fit-first_fit (suc fuel) bsize w p end [] t one lt = ground (arith, t)
find_fit-first_fit (suc fuel) bsize w p end (b ∷ bs) t one lt =
    let later = find_fit-first_fit fuel bsize w (p + b.size) end bs t.1 one (omega arith) in
    walk later
  where
    walk :
        find_fit fuel bsize (p + b.size + 4) w ≡ some (first_fit bsize (p + b.size) bs)
        → find_fit (suc fuel) bsize (p + 4) w ≡ some (first_fit bsize p (b ∷ bs))
    walk later = ground (arith, t.0, later)

-- The tiles below a changed part stay, and so do the words below them.
pub AreTiles-front :
    (w w' : Words) (p end end' : ℕ) (a : Block) (bs : List Block)
    → IsTile w p a
    → AreTiles w' (p + a.size) bs end'
    → IsSame 0 (p + a.size) w w'
    → AreTiles w' p (a ∷ bs) end' × IsSame 0 p w w'
AreTiles-front w w' p end end' a bs ta t same =
    let header = same p (omega arith) (omega (arith, ta)) in
    let footer = same (p + a.size - 4) (omega arith) (omega (arith, ta)) in
    ((ground (arith, header, footer), t), (λ q from to. same q from (omega (arith, to))))

pub mark-stamp :
    (w : Words) (p n : ℕ) (u : Bool)
    → n % 8 ≡ 0
    → 8 ≤ n
    → mark (p + 4) n u w ≡ stamp w p (record { size = n; used = u })
unfolding mark stamp put
mark-stamp w p n true aligned large = ground arith
mark-stamp w p n false aligned large = ground arith

pub next_blkp-stamp :
    (w : Words) (p n : ℕ) (u : Bool)
    → n % 8 ≡ 0
    → 8 ≤ n
    → next_blkp (p + 4) (stamp w p (record { size = n; used = u })) ≡ p + n + 4
unfolding stamp put
next_blkp-stamp w p n true aligned large = ground arith
next_blkp-stamp w p n false aligned large = ground arith

release-coalesce :
    (w : Words) (p : ℕ) (b : Block)
    → IsTile w p b
    → release (p + 4) w ≡ (coalesce (p + 4) (stamp w p (free b.size))).1
unfolding release
release-coalesce w p b t =
    let size : get_size (hdrp (p + 4)) w ≡ b.size = ground arith in
    ap (λ w'. (coalesce (p + 4) w').1)
      (ap (λ n. mark (p + 4) n false w) size
        ∙ mark-stamp w p b.size false (omega (arith, t)) (omega (arith, t)))

pub IsSame-trans :
    (lo hi hi' : ℕ) (w w' w'' : Words)
    → hi ≤ hi'
    → IsSame lo hi' w w'
    → IsSame lo hi w' w''
    → IsSame lo hi w w''
IsSame-trans lo hi hi' w w' w'' le s s' =
    λ q from to. omega (arith, s q from (omega (arith, to)), s' q from to)

release_behind :
    (w : Words) (p end : ℕ) (a b : Block) (bs : List Block)
    → AreTiles w p (a ∷ b ∷ bs) end
    → w end % 2 ≡ 1
    → end < 2 ^ 32
    → let w' = release (p + a.size + 4) w in
      AreTiles w' p (join a b.size bs) end × (w' end ≡ w end) × IsSame 0 p w w'
release_behind w p end a b bs t odd low =
    let w2 = stamp w (p + a.size) (free b.size) in
    let stamped = stamp-IsStamped w (p + a.size) (free b.size) (omega (arith, t.1)) in
    let (tiles, last, same) =
      stamped-AreTiles w w2 (p + a.size) end (free b.size) bs stamped (omega (arith, t.1))
        (omega (arith, t.1)) t.1.1 in
    let (front, below) = AreTiles-front w w2 p end end a (free b.size ∷ bs) t.0 tiles same in
    let (joined, last', same', at) =
      coalesce-IsJoined w2 p b.size end a bs front.0 tiles.0 tiles.1 (omega (arith, last)) low in
    subst (λ w'. AreTiles w' p (join a b.size bs) end × (w' end ≡ w end) × IsSame 0 p w w')
      (sym (release-coalesce w (p + a.size) b t.1.0))
      (joined, omega (arith, last, last'), IsSame-trans 0 p p w w2 _ (omega arith) below same')

-- `mm_free` joins the block at `q` with its free neighbours.
pub release-AreTiles :
    (w : Words) (q p end : ℕ) (bs : List Block)
    → AreTiles w p bs end
    → IsUsedAt q p bs
    → w end % 2 ≡ 1
    → end < 2 ^ 32
    → AreTiles (release q w) p (free_at q p bs) end
      × (release q w end ≡ w end)
      × IsSame 0 p w (release q w)
unfolding free_at
release-AreTiles w q p end [] t u odd low = absurd u
release-AreTiles w q p end (a ∷ []) t u odd low = absurd u
release-AreTiles w q p end (a ∷ b ∷ bs) t (inl (e, used)) odd low =
    let here : (p + a.size + 4 == q) ≡ true = ground arith in
    rw here (
      subst
        (λ q.
          AreTiles (release q w) p (join a b.size bs) end
          × (release q w end ≡ w end)
          × IsSame 0 p w (release q w))
        e (release_behind w p end a b bs t odd low))
release-AreTiles w q p end (a ∷ b ∷ bs) t (inr u) odd low =
    let (tiles, last, same) = release-AreTiles w q (p + a.size) end (b ∷ bs) t.1 u odd low in
    let below =
      IsUsedAt-below q (p + a.size) (b ∷ bs) (AreTiles-AllLarge w (p + a.size) end (b ∷ bs) t.1)
        u in
    let other : (p + a.size + 4 == q) ≡ false = ground arith in
    let (front, below_same) =
      AreTiles-front w (release q w) p end end a (free_at q (p + a.size) (b ∷ bs)) t.0 tiles same in
    rw other (front, last, below_same)

module _ (w : Words) (p bsize n end : ℕ) (tn : IsTile w p (free n)) (le : bsize ≤ n)
    (low : end < 2 ^ 32) (in_heap : p + n ≤ end) (aligned : bsize % 8 ≡ 0) (large : 8 ≤ bsize) where
  place-whole : n - bsize < 16 → place (p + 4) bsize w ≡ stamp w p (full n)
  unfolding place
  place-whole lt =
      let marked = mark-stamp w p n true (omega (arith, tn)) (omega (arith, tn)) in
      ground (arith, marked)

  place-split :
      16 ≤ n - bsize
      → place (p + 4) bsize w ≡ stamp (stamp w p (full bsize)) (p + bsize) (free (n - bsize))
  unfolding place split
  place-split ge =
      let big : ltb (sub_size (get_size (hdrp (p + 4)) w) bsize) (2 * dsize) ≡ false =
        ground arith in
      let rest : sub_size (get_size (hdrp (p + 4)) w) bsize ≡ n - bsize = ground arith in
      rw
        (
          big,
          rest,
          mark-stamp w p bsize true aligned large,
          next_blkp-stamp w p bsize true aligned large,
        )
        (mark-stamp (stamp w p (full bsize)) (p + bsize) (n - bsize) false (omega (arith, tn))
          (omega arith))

  split_here :
      (bs : List Block)
      → AreTiles w (p + n) bs end
      → 16 ≤ n - bsize
      → let w' = stamp (stamp w p (full bsize)) (p + bsize) (free (n - bsize)) in
        AreTiles w' p (full bsize ∷ free (n - bsize) ∷ bs) end × (w' end ≡ w end) × IsSame 0 p w w'
  split_here bs t ge =
      let w1 = stamp w p (full bsize) in
      let w2 = stamp w1 (p + bsize) (free (n - bsize)) in
      let (header, footer, other) = stamp-IsStamped w p (full bsize) large in
      let kept =
        AreTiles-IsSame w w1 (p + n) end bs t
          (λ q from to. other q (λ e. omega arith) (λ e. omega arith)) in
      let (tiles, last, same) =
        stamped-AreTiles w1 w2 (p + bsize) end (free (n - bsize)) bs
          (stamp-IsStamped w1 (p + bsize) (free (n - bsize)) (omega arith)) (omega (arith, tn))
          (omega arith)
          (AreTiles-at w1 (p + n) (p + bsize + (n - bsize)) end bs (omega arith) kept) in
      let (front, below) =
        AreTiles-front w1 w2 p end end (full bsize) (free (n - bsize) ∷ bs)
          (header, footer, aligned, large) tiles same in
      let same1 : IsSame 0 p w w1 = λ q from to. other q (λ e. omega arith) (λ e. omega arith) in
      let end1 = other end (λ e. omega arith) (λ e. omega arith) in
      (front, omega (arith, last, end1), IsSame-trans 0 p p w w1 w2 (omega arith) same1 below)

  place_here :
      (bs : List Block)
      → AreTiles w (p + n) bs end
      → let w' = place (p + 4) bsize w in
        AreTiles w' p (placed bsize n bs) end × (w' end ≡ w end) × IsSame 0 p w w'
  place_here bs t = elim (Bool-cases (ltb (n - bsize) 16)) [
    | inl lt ↦ rw lt (
        subst (λ w'. AreTiles w' p (full n ∷ bs) end × (w' end ≡ w end) × IsSame 0 p w w')
          (sym (place-whole (ground arith)))
          (stamped-AreTiles w (stamp w p (full n)) p end (full n) bs
            (stamp-IsStamped w p (full n) (omega (arith, tn))) (omega (arith, tn))
            (omega (arith, tn)) t))
    | inr ge ↦ rw ge (
        subst
          (λ w'.
            AreTiles w' p (full bsize ∷ free (n - bsize) ∷ bs) end
            × (w' end ≡ w end)
            × IsSame 0 p w w')
          (sym (place-split (ground arith))) (split_here bs t (ground arith)))
  ]

-- `place` uses the block at `q`, or its first part.
pub place-AreTiles :
    (w : Words) (q bsize p end : ℕ) (bs : List Block)
    → AreTiles w p bs end
    → IsFitAt q bsize p bs
    → bsize % 8 ≡ 0
    → 8 ≤ bsize
    → end < 2 ^ 32
    → AreTiles (place q bsize w) p (place_at q bsize p bs) end
      × (place q bsize w end ≡ w end)
      × IsSame 0 p w (place q bsize w)
unfolding place_at
place-AreTiles w q bsize p end [] t f aligned large low = absurd f
place-AreTiles w q bsize p end (b ∷ bs) t (inl (e, unused, le)) aligned large low =
    let here : (p + 4 == q) ≡ true = ground arith in
    let tn : IsTile w p (free b.size) = ground (arith, t.0) in
    let in_heap = AreTiles-le w (p + b.size) end bs t.1 in
    rw here (
      subst
        (λ q.
          AreTiles (place q bsize w) p (placed bsize b.size bs) end
          × (place q bsize w end ≡ w end)
          × IsSame 0 p w (place q bsize w))
        e (place_here w p bsize b.size end tn le low in_heap aligned large bs t.1))
place-AreTiles w q bsize p end (b ∷ bs) t (inr f) aligned large low =
    let (tiles, last, same) =
      place-AreTiles w q bsize (p + b.size) end bs t.1 f aligned large low in
    let below =
      IsFitAt-below q bsize (p + b.size) bs (AreTiles-AllLarge w (p + b.size) end bs t.1) f in
    let other : (p + 4 == q) ≡ false = ground (arith, t.0) in
    let (front, below_same) =
      AreTiles-front w (place q bsize w) p end end b (place_at q bsize (p + b.size) bs) t.0 tiles
        same in
    rw other (front, last, below_same)
