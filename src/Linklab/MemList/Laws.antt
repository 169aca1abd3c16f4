-- ===== src/Linklab/MemList/Laws.antt =====
-- The interface of memlist.c as a map: what `find` returns after `alloc` and `dealloc`.
use sysprog2021s.Prelude.{ℕ, ◌≡◌, refl, some, List, [], ◌∷◌, ◌==◌, if◌then◌else◌, arith}
use sysprog2021s.Linklab.MemList.{Item, insert, alloc, release, dealloc, find}
use sysprog2021s.Linklab.MemList.Lookup.{
  Above-mono, IsSorted, lookup, lookup-Above, bumped, dropped, insert-IsSorted, release-IsSorted,
  search_from-lookup, lookup-insert, lookup-release,
}

insert-bumped :
    (p s : ℕ) (xs : List Item) → IsSorted xs → (insert p s xs).0 ≡ bumped p s (lookup p xs)
unfolding insert lookup
insert-bumped p s [] h = refl
insert-bumped p s (x ∷ xs) h =
    ground (arith, insert-bumped p s xs h.1, lookup-Above p xs, Above-mono x.ptr p xs)

release-dropped : (p : ℕ) (xs : List Item) → (release p xs).0 ≡ dropped (lookup p xs)
unfolding release lookup
release-dropped p [] = refl
release-dropped p (x ∷ xs) = ground (arith, release-dropped p xs)

module _ (p : ℕ) (xs : List Item) (h : IsSorted xs) where
  -- On a sorted chain, the search that stops early finds a block exactly where a full scan does.
  find-lookup : find (some xs) p ≡ lookup p xs
  unfolding find
  find-lookup = search_from-lookup p xs h

  -- On a sorted chain, `alloc` returns the item of the block, with the new size and with the count
  -- raised by one, or 1 if the block is new; afterwards `find` returns that item for this block
  -- and what it returned before for every other; and the chain stays sorted.
  pub find-alloc :
      (s q : ℕ)
      → let (i, l) = alloc (some xs) p s in
        (i ≡ some (bumped p s (find (some xs) p)))
        × (find l q ≡ (if p == q then i else find (some xs) q))
        × IsSorted (insert p s xs).1
  unfolding alloc find
  find-alloc s q = ground (
    arith,
    insert-IsSorted p s xs h,
    insert-bumped p s xs h,
    lookup-insert p s q xs h,
    search_from-lookup p xs h,
    search_from-lookup q xs h,
    search_from-lookup q (insert p s xs).1,
  )

  -- On a sorted chain, `dealloc` lowers the count of the block and returns its item, or returns
  -- NULL where there is none; `find` returns the same for every other block; and the chain stays
  -- sorted.
  pub find-dealloc :
      (q : ℕ)
      → let (i, l) = dealloc (some xs) p in
        (i ≡ dropped (find (some xs) p))
        × (find l q ≡ (if p == q then i else find (some xs) q))
        × IsSorted (release p xs).1
  unfolding dealloc find
  find-dealloc q = ground (
    arith,
    release-IsSorted p xs h,
    release-dropped p xs,
    lookup-release p q xs,
    search_from-lookup p xs h,
    search_from-lookup q xs h,
    search_from-lookup q (release p xs).1,
  )
