-- ===== src/Linklab/MemList.antt =====
-- linklab-handout/utils/memlist.c. The chain of items behind the dummy element is a list; the
-- pointer to the dummy element is an `Option`, whose `none` is NULL. An item that a function
-- returns is its value at that moment. `calloc` of an item is taken to succeed.
pub mod Laws
pub mod Live
pub mod Lookup
use sysprog2021s.Prelude.{
  ℕ, ◌+◌, ◌-◌, ◌%◌, ◌^◌, Bool, not, Option, none, some, List, [], ◌∷◌, ltb, ◌==◌, if◌then◌else◌,
}

-- `struct __item`. A `void *` and a `size_t` are numbers, and `cnt`, an `int`, is its 32 bits.
pub record Item : Type 0 where
  pub ptr : ℕ
  pub size : ℕ
  pub cnt : ℕ

-- `cnt++` and `cnt--` of an `int`.
abbrev pub increment : ℕ → ℕ
increment c = (c + 1) % 2 ^ 32

abbrev pub decrement : ℕ → ℕ
decrement c = (c + 2 ^ 32 - 1) % 2 ^ 32

-- `calloc` and the three assignments of `alloc`.
abbrev pub new_item : ℕ → ℕ → Item
new_item p s = record { ptr = p; size = s; cnt = 1 }

unfoldable pub new_list : Option (List Item)
new_list = some []

-- The loop of `alloc` and what follows it: the item that it returns, and the chain.
unfoldable pub insert : ℕ → ℕ → List Item → Item × List Item
insert p s [] = (new_item p s, new_item p s ∷ [])
insert p s (cur ∷ rest) =
    let (i, rest') = insert p s rest in
    let old = record cur { size = s; cnt = increment cur.cnt } in
    if ltb cur.ptr p
    then (i, cur ∷ rest')
    else if cur.ptr == p
    then (old, old ∷ rest)
    else (new_item p s, new_item p s ∷ cur ∷ rest)

unfoldable pub alloc : Option (List Item) → ℕ → ℕ → Option Item × Option (List Item)
alloc none p s = (none, none)
alloc (some items) p s = let (i, items') = insert p s items in (some i, some items')

-- The loop of `dealloc`, which stops at the block only, and the decrement.
unfoldable pub release : ℕ → List Item → Option Item × List Item
release p [] = (none, [])
release p (cur ∷ rest) =
    let (i, rest') = release p rest in
    let less = record cur { cnt = decrement cur.cnt } in
    if not (cur.ptr == p) then (i, cur ∷ rest') else (some less, less ∷ rest)

unfoldable pub dealloc : Option (List Item) → ℕ → Option Item × Option (List Item)
dealloc none p = (none, none)
dealloc (some items) p = let (i, items') = release p items in (i, some items')

-- The loop of `find` and the test behind it: it stops at the first block that is not below `p`.
unfoldable pub search_from : ℕ → List Item → Option Item
search_from p [] = none
search_from p (cur ∷ rest) =
    let later = search_from p rest in
    if ltb cur.ptr p then later else if cur.ptr == p then some cur else none

unfoldable pub find : Option (List Item) → ℕ → Option Item
find none p = none
find (some items) p = search_from p items
