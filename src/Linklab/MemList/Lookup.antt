-- ===== src/Linklab/MemList/Lookup.antt =====
-- memlist.c as a map from block addresses to sizes and counts.
use sysprog2021s.Prelude.{
  ℕ, ◌<◌, ◌≤◌, ◌≡◌, refl, Option, none, some, List, [], ◌∷◌, ◌==◌, if◌then◌else◌, arith,
}
use sysprog2021s.Linklab.MemList.{
  Item, increment, decrement, new_item, insert, release, search_from,
}

-- Every block of the chain lies above `p`.
abbrev pub Above : ℕ → List Item → Type 0
Above p [] = Unit {0}
Above p (x ∷ xs) = (p < x.ptr) × Above p xs

-- The blocks of the chain ascend strictly, so that no block stands in it twice.
abbrev pub IsSorted : List Item → Type 0
IsSorted [] = Unit {0}
IsSorted (x ∷ xs) = Above x.ptr xs × IsSorted xs

-- The item of a block, wherever it stands.
unfoldable pub lookup : ℕ → List Item → Option Item
lookup p [] = none
lookup p (x ∷ xs) = if x.ptr == p then some x else lookup p xs

-- What `alloc` makes of the item of its block, if there is one.
abbrev pub bumped : ℕ → ℕ → Option Item → Item
bumped p s none = new_item p s
bumped p s (some i) = record i { size = s; cnt = increment i.cnt }

abbrev pub dropped : Option Item → Option Item
dropped none = none
dropped (some i) = some (record i { cnt = decrement i.cnt })

pub Above-mono : (p q : ℕ) (xs : List Item) → q ≤ p → Above p xs → Above q xs
Above-mono p q [] le a = a
Above-mono p q (x ∷ xs) le a = (omega arith, Above-mono p q xs le a.1)

pub lookup-Above : (p : ℕ) (xs : List Item) → Above p xs → lookup p xs ≡ none
unfolding lookup
lookup-Above p [] a = refl
lookup-Above p (x ∷ xs) a = ground (arith, lookup-Above p xs a.1)

pub insert-Above : (q p s : ℕ) (xs : List Item) → q < p → Above q xs → Above q (insert p s xs).1
unfolding insert
insert-Above q p s [] lt a = (lt, tt)
insert-Above q p s (x ∷ xs) lt a = ground (arith, insert-Above q p s xs lt a.1)

pub release-Above : (q p : ℕ) (xs : List Item) → Above q xs → Above q (release p xs).1
unfolding release
release-Above q p [] a = a
release-Above q p (x ∷ xs) a = ground (arith, release-Above q p xs a.1)

pub insert-IsSorted : (p s : ℕ) (xs : List Item) → IsSorted xs → IsSorted (insert p s xs).1
unfolding insert
insert-IsSorted p s [] h = (tt, tt)
insert-IsSorted p s (x ∷ xs) h =
    ground (arith, insert-IsSorted p s xs h.1, insert-Above x.ptr p s xs, Above-mono x.ptr p xs)

pub release-IsSorted : (p : ℕ) (xs : List Item) → IsSorted xs → IsSorted (release p xs).1
unfolding release
release-IsSorted p [] h = h
release-IsSorted p (x ∷ xs) h =
    ground (arith, release-IsSorted p xs h.1, release-Above x.ptr p xs h.0)

pub search_from-lookup : (p : ℕ) (xs : List Item) → IsSorted xs → search_from p xs ≡ lookup p xs
unfolding search_from lookup
search_from-lookup p [] h = refl
search_from-lookup p (x ∷ xs) h =
    ground (arith, search_from-lookup p xs h.1, lookup-Above p xs, Above-mono x.ptr p xs)

pub lookup-insert :
    (p s q : ℕ) (xs : List Item)
    → IsSorted xs
    → lookup q (insert p s xs).1 ≡ (if p == q then some (bumped p s (lookup p xs)) else lookup q xs)
unfolding insert lookup
lookup-insert p s q [] h = ground arith
lookup-insert p s q (x ∷ xs) h =
    ground (arith, lookup-insert p s q xs h.1, lookup-Above p xs, Above-mono x.ptr p xs)

pub lookup-release :
    (p q : ℕ) (xs : List Item)
    → lookup q (release p xs).1 ≡ (if p == q then dropped (lookup p xs) else lookup q xs)
unfolding release lookup
lookup-release p q [] = ground arith
lookup-release p q (x ∷ xs) = ground (arith, lookup-release p q xs)
