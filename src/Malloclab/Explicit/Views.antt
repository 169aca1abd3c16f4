-- ===== src/Malloclab/Explicit/Views.antt =====
-- The cases of `mm_realloc` of malloclab-handout/src/mm.c on the map of live blocks.
use sysprog2021s.Prelude.{
  ℕ, ◌+◌, ◌-◌, ◌≤◌, ◌≡◌, none, some, List, [], ◌∷◌, ◌++◌, ◌==◌, ltb, if◌then◌else◌, arith,
}
use sysprog2021s.Malloclab.Blocks.{Block}
use sysprog2021s.Malloclab.Live
use sysprog2021s.Malloclab.Live.{free, full, join, join_front, live, AllLarge}
use sysprog2021s.Malloclab.Places.{end_of, end_of-le}

-- The map of two sequences of blocks, one behind the other.
pub live-append :
    (a p : ℕ) (xs ys : List Block)
    → AllLarge xs
    → live a p (xs ++ ys)
      ≡ (if ltb a (end_of p xs + 4) then live a p xs else live a (end_of p xs) ys)
unfolding live
live-append a p [] ys l = ground (arith, Live.live-below a p ys)
live-append a p (x ∷ xs) ys l = ground (
  arith,
  live-append a (p + x.size) xs ys l.1,
  end_of-le (p + x.size) xs,
  Live.live-below a (p + x.size) xs,
)

-- Only the blocks from `end_of p xs` on change, at addresses `q` and `r`.
pub live-changed :
    (a p q r s : ℕ) (xs ys ys' : List Block)
    → AllLarge xs
    → end_of p xs + 4 ≤ q
    → end_of p xs + 4 ≤ r
    → live a (end_of p xs) ys'
      ≡ (if a == q then some s else if a == r then none else live a (end_of p xs) ys)
    → live a p (xs ++ ys')
      ≡ (if a == q then some s else if a == r then none else live a p (xs ++ ys))
live-changed a p q r s xs ys ys' l lq lr e =
    ground (arith, live-append a p xs ys l, live-append a p xs ys' l, e)

pub live-shrunk :
    (a m s nb : ℕ) (rest : List Block)
    → nb + 16 ≤ s
    → live a m (full nb ∷ join_front (s - nb) rest)
      ≡ (if a == m + 4 then some nb else if a == m + 4 then none else live a m (full s ∷ rest))
unfolding live
live-shrunk a m s nb rest fits =
    ground (arith, Live.live-join_front a (m + nb) (s - nb) rest, Live.live-below a (m + s) rest)

pub live-grown :
    (a m s k nb : ℕ) (rest : List Block)
    → nb + 16 ≤ s + k
    → live a m (full nb ∷ free (s + k - nb) ∷ rest) ≡ (
        if a == m + 4
        then some nb
        else if a == m + 4
        then none
        else live a m (full s ∷ free k ∷ rest))
unfolding live
live-grown a m s k nb rest fits = ground (arith, Live.live-below a (m + s + k) rest)

pub live-grown_back :
    (a m j s nb : ℕ) (rest : List Block)
    → nb + 16 ≤ j + s
    → 8 ≤ s
    → live a m (full nb ∷ join_front (j + s - nb) rest) ≡ (
        if a == m + 4
        then some nb
        else if a == m + j + 4
        then none
        else live a m (free j ∷ full s ∷ rest))
unfolding live
live-grown_back a m j s nb rest fits large =
    ground
      (arith, Live.live-join_front a (m + nb) (j + s - nb) rest, Live.live-below a (m + j + s) rest)
