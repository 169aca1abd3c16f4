-- ===== src/Proxylab/Cache/Search.antt =====
-- Lookups of proxylab-handout/cache.c where the nodes form a list.
use sysprog2021s.Prelude.{
  ℕ, zero, suc, ◌+◌, ◌-◌, ◌≤◌, ◌≡◌, ◌≢◌, refl, Option, none, some, List, [], ◌∷◌, if◌then◌else◌,
  length, arith,
}
use sysprog2021s.Proxylab.Cache.{
  CacheItem, Store, CacheList, done, same, search, c_string, strcpy, put, move_to_head, cache_add,
  make_room, node, change, set_next,
}

-- From this address the `next` fields lead through these items to NULL.
abbrev pub IsChain : Store → ℕ → List (ℕ × CacheItem) → Type 0
IsChain store p [] = p ≡ 0
IsChain store p ((q, i) ∷ rest) = (p ≡ q) × (p ≢ 0) × (store p ≡ some i) × IsChain store i.next rest

-- The address of the first item with a tag.
unfoldable pub first_with : List ℕ → List (ℕ × CacheItem) → ℕ
first_with url [] = 0
first_with url ((q, i) ∷ rest) = if same i.tag url then q else first_with url rest

-- Where the `next` fields form a list, the loop of `cache_lookup` ends after at most as many rounds
-- as there are items, and finds the first item with the tag, or NULL.
pub search-first_with :
    (fuel : ℕ) (store : Store) (url : List ℕ) (p : ℕ) (items : List (ℕ × CacheItem))
    → IsChain store p items
    → length items ≤ fuel
    → search fuel store url p ≡ done (first_with url items)
unfolding search first_with
search-first_with fuel store url p [] c le = ground (arith, c)
search-first_with zero store url p (i ∷ rest) c le = absurd (omega arith)
search-first_with (suc fuel) store url zero ((q, i) ∷ rest) c le = absurd (c.1 refl)
search-first_with (suc fuel) store url (suc p) ((q, i) ∷ rest) c le =
    ground (arith, search-first_with fuel store url i.next rest)

-- Nodes that are not in the list may change.
abbrev AllOther : ℕ → List (ℕ × CacheItem) → Type 0
AllOther new [] = Unit {0}
AllOther new ((q, i) ∷ rest) = (q ≢ new) × AllOther new rest

IsChain-AllOther :
    (store : Store) (new p : ℕ) (items : List (ℕ × CacheItem))
    → IsChain store p items
    → store new ≡ none
    → AllOther new items
IsChain-AllOther store new p [] c f = tt
IsChain-AllOther store new p ((q, j) ∷ rest) c f =
    ground (arith, IsChain-AllOther store new j.next rest)

put-IsChain :
    (store : Store) (new : ℕ) (i : Option CacheItem) (p : ℕ) (items : List (ℕ × CacheItem))
    → AllOther new items
    → IsChain store p items
    → IsChain (put new i store) p items
unfolding put
put-IsChain store new i p [] o c = c
put-IsChain store new i p ((q, j) ∷ rest) o c = ground (arith, put-IsChain store new i j.next rest)

make_room-enough :
    (fuel objectlen : ℕ) (l : CacheList)
    → objectlen ≤ l.remainlen
    → make_room fuel objectlen l ≡ done l
unfolding make_room
make_room-enough zero objectlen l le = ground arith
make_room-enough (suc fuel) objectlen l le = ground arith

-- Where there is room and `malloc` gives a new node, `cache_add` puts the item in front of the
-- list.
pub cache_add-IsChain :
    (fuel new : ℕ) (block url object text : List ℕ) (objectlen : ℕ) (l : CacheList)
    (items : List (ℕ × CacheItem))
    → IsChain l.store l.head items
    → new ≢ 0
    → l.store new ≡ none
    → l.tail ≢ new
    → objectlen ≤ l.remainlen
    → strcpy block (c_string object) ≡ done text
    → (l' : CacheList) × ((cache_add fuel new block url object objectlen l ≡ done l')
        × (l'.remainlen + objectlen ≡ l.remainlen)
        × IsChain l'.store l'.head (
            (
              new,
              record { tag = url; object = text; prev = 0; next = l.head; objectlen = objectlen },
            )
            ∷ items))
unfolding cache_add move_to_head change node put
cache_add-IsChain fuel new block url object text objectlen l [] c n f t le e =
    let item : CacheItem = record {
      tag = url;
      object = text;
      prev = 0;
      next = 0;
      objectlen = objectlen;
    } in
    let l' : CacheList = record {
      head = new;
      tail = new;
      remainlen = l.remainlen - objectlen;
      store = put new (some item) l.store;
    } in
    (l', (ground (arith, make_room-enough fuel objectlen l le, c), omega arith, ground (arith, c)))
cache_add-IsChain fuel new block url object text objectlen l ((q, j) ∷ rest) c n f t le e =
    let item : CacheItem = record {
      tag = url;
      object = text;
      prev = 0;
      next = 0;
      objectlen = objectlen;
    } in
    let once : Store = put new (some item) l.store in
    let twice : Store = put new (some item) once in
    let linked : Store = put new (some (set_next l.head item)) twice in
    let l' : CacheList = record {
      head = new;
      tail = l.tail;
      remainlen = l.remainlen - objectlen;
      store = linked;
    } in
    let other = IsChain-AllOther l.store new l.head ((q, j) ∷ rest) c f in
    let chain_once = put-IsChain l.store new (some item) l.head ((q, j) ∷ rest) other c in
    let chain_twice = put-IsChain once new (some item) l.head ((q, j) ∷ rest) other chain_once in
    let chain =
      put-IsChain twice new (some (set_next l.head item)) l.head ((q, j) ∷ rest) other
        chain_twice in
    (
      l',
      (
        ground (arith, make_room-enough fuel objectlen l le, c),
        omega arith,
        (refl, n, ground arith, chain),
      ),
    )
