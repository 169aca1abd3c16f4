-- ===== src/Linklab/MemList/Live.antt =====
-- The bytes of the live blocks of a chain: those that are allocated once more than freed.
use sysprog2021s.Prelude.{
  ℕ, ◌+◌, ◌≤◌, ◌≡◌, ◌≢◌, Option, none, some, List, [], ◌∷◌, ◌==◌, if◌then◌else◌, arith,
}
use sysprog2021s.Linklab.MemList.{Item, insert, release}
use sysprog2021s.Linklab.MemList.Lookup.{
  IsSorted, lookup, lookup-Above, Above-mono, insert-IsSorted, release-IsSorted, lookup-release,
}

unfoldable pub live : List Item → ℕ
live [] = 0
live (x ∷ xs) = (if x.cnt == 0 then 0 else x.size) + live xs

abbrev pub AtMostOnce : List Item → Type 0
AtMostOnce [] = Unit {0}
AtMostOnce (x ∷ xs) = (x.cnt ≤ 1) × AtMostOnce xs

abbrev pub cnt_of : Option Item → ℕ
cnt_of none = 0
cnt_of (some i) = i.cnt

pub insert-AtMostOnce :
    (p s : ℕ) (xs : List Item)
    → AtMostOnce xs
    → cnt_of (lookup p xs) ≡ 0
    → AtMostOnce (insert p s xs).1
unfolding insert lookup
insert-AtMostOnce p s [] h f = ground arith
insert-AtMostOnce p s (x ∷ xs) h f = ground (arith, insert-AtMostOnce p s xs h.1)

pub live-insert :
    (p s : ℕ) (xs : List Item)
    → IsSorted xs
    → cnt_of (lookup p xs) ≡ 0
    → live (insert p s xs).1 ≡ live xs + s
unfolding insert lookup live
live-insert p s [] h f = ground arith
live-insert p s (x ∷ xs) h f =
    ground (arith, live-insert p s xs h.1, lookup-Above p xs, Above-mono x.ptr p xs)

pub release-AtMostOnce :
    (p : ℕ) (xs : List Item) {i : Item}
    → AtMostOnce xs
    → lookup p xs ≡ some i
    → i.cnt ≢ 0
    → AtMostOnce (release p xs).1
unfolding release lookup
release-AtMostOnce p [] h f n = ground arith
release-AtMostOnce p (x ∷ xs) {i} h f n = ground (arith, release-AtMostOnce p xs {i = i} h.1)

pub live-release :
    (p : ℕ) (xs : List Item) {i : Item}
    → AtMostOnce xs
    → lookup p xs ≡ some i
    → i.cnt ≢ 0
    → live (release p xs).1 + i.size ≡ live xs
unfolding release lookup live
live-release p [] h f n = ground arith
live-release p (x ∷ xs) {i} h f n = ground (arith, live-release p xs {i = i} h.1)

lookup-AtMostOnce : (p : ℕ) (xs : List Item) → AtMostOnce xs → cnt_of (lookup p xs) ≤ 1
unfolding lookup
lookup-AtMostOnce p [] o = omega arith
lookup-AtMostOnce p (x ∷ xs) o = ground (arith, lookup-AtMostOnce p xs o.1)

-- What the statistics need of an insertion of a block that is not live.
pub insert_fresh :
    (p s : ℕ) (xs : List Item)
    → IsSorted xs
    → AtMostOnce xs
    → cnt_of (lookup p xs) ≡ 0
    → IsSorted (insert p s xs).1
      × AtMostOnce (insert p s xs).1
      × (live (insert p s xs).1 ≡ live xs + s)
insert_fresh p s xs h o f =
    (insert-IsSorted p s xs h, insert-AtMostOnce p s xs o f, live-insert p s xs h f)

-- And of the release of a block that is.
pub release-live :
    (p : ℕ) (xs : List Item) (i : Item)
    → IsSorted xs
    → AtMostOnce xs
    → lookup p xs ≡ some i
    → i.cnt ≢ 0
    → IsSorted (release p xs).1
      × AtMostOnce (release p xs).1
      × (live (release p xs).1 + i.size ≡ live xs)
      × (cnt_of (lookup p (release p xs).1) ≡ 0)
release-live p xs i h o e n = (
  release-IsSorted p xs h,
  release-AtMostOnce p xs o e n,
  live-release p xs o e n,
  ground (arith, lookup-release p p xs, lookup-AtMostOnce p xs o),
)
