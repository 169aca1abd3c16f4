-- ===== src/Malloclab/Implicit/Extend.antt =====
-- What `extend_heap` of malloclab-handout/mm_implicit.c does to the sequence of blocks.
use mathlib.Core.Path.{subst}
use sysprog2021s.Prelude.{
  ℕ, ◌+◌, ◌%◌, ◌≤◌, ◌<◌, ◌^◌, ◌≡◌, ◌≢◌, refl, List, [], ◌∷◌, if◌then◌else◌, arith,
}
use sysprog2021s.Malloclab.Words.{Words, put}
use sysprog2021s.Malloclab.Blocks.{Block, IsTile, AreTiles, IsSame, stamp}
use sysprog2021s.Malloclab.Live.{free, join, append_free, last_at}
use sysprog2021s.Malloclab.Implicit.{coalesce}
use sysprog2021s.Malloclab.Implicit.Joins.{coalesce-IsJoined}
use sysprog2021s.Malloclab.Implicit.Blocks.{AreTiles-front, IsSame-trans}

-- A free block behind the heap, with a new epilogue, before it is joined.
unfoldable pub grown : Words → (end n : ℕ) → Words
grown w end n = put (end + n) 1 (stamp w end (free n))

pub grown-lem :
    (w : Words) (end n : ℕ)
    → n % 8 ≡ 0
    → 8 ≤ n
    → IsTile (grown w end n) end (free n)
      × (grown w end n (end + n) ≡ 1)
      × IsSame 0 end w (grown w end n)
unfolding grown stamp put
grown-lem w end n aligned large =
    ((ground arith, ground arith, aligned, large), ground arith, λ q from to. ground arith)

grown_behind :
    (w : Words) (p n : ℕ) (a : Block)
    → IsTile w p a
    → n % 8 ≡ 0
    → 8 ≤ n
    → p + a.size + n < 2 ^ 32
    → let end = p + a.size in
      let (bp, w') = coalesce (end + 4) (grown w end n) in
      AreTiles w' p (join a n []) (end + n)
      × (w' (end + n) ≡ 1)
      × IsSame 0 p w w'
      × (bp ≡ p + 4 + (if a.used then a.size else 0))
grown_behind w p n a t aligned large low =
    let end : ℕ = p + a.size in
    let w2 = grown w end n in
    let (tn, one, same) = grown-lem w end n aligned large in
    let (front, below) = AreTiles-front w w2 p end end a [] t refl same in
    let (joined, last, same', at) =
      coalesce-IsJoined w2 p n (end + n) a [] front.0 tn refl (omega (arith, one)) low in
    (joined, omega (arith, last, one), IsSame-trans 0 p p w w2 _ (omega arith) below same', at)

pub grown-coalesce :
    (w : Words) (p end n : ℕ) (bs : List Block)
    → AreTiles w p bs end
    → bs ≢ []
    → n % 8 ≡ 0
    → 8 ≤ n
    → end + n < 2 ^ 32
    → let (bp, w') = coalesce (end + 4) (grown w end n) in
      AreTiles w' p (append_free n bs) (end + n)
      × (w' (end + n) ≡ 1)
      × IsSame 0 p w w'
      × (bp ≡ last_at p bs)
unfolding append_free last_at
grown-coalesce w p end n [] t ne aligned large low = absurd (ne refl)
grown-coalesce w p end n (a ∷ []) t ne aligned large low =
    subst
      (λ e.
        AreTiles (coalesce (e + 4) (grown w e n)).1 p (join a n []) (e + n)
        × ((coalesce (e + 4) (grown w e n)).1 (e + n) ≡ 1)
        × IsSame 0 p w (coalesce (e + 4) (grown w e n)).1
        × ((coalesce (e + 4) (grown w e n)).0 ≡ p + 4 + (if a.used then a.size else 0)))
      t.1 (grown_behind w p n a t.0 aligned large (omega (arith, t.1)))
grown-coalesce w p end n (a ∷ b ∷ bs) t ne aligned large low =
    let (tiles, one, same, at) =
      grown-coalesce w (p + a.size) end n (b ∷ bs) t.1 (λ e. absurd (ground arith)) aligned large
        low in
    let w' = (coalesce (end + 4) (grown w end n)).1 in
    let (front, below) =
      AreTiles-front w w' p (end + n) (end + n) a (append_free n (b ∷ bs)) t.0 tiles same in
    (front, one, below, at)
