-- ===== src/Proxylab/Cache/Links.antt =====
-- What `move_to_head` and `cache_evict` of proxylab-handout/cache.c make of the links.
use sysprog2021s.Prelude.{
  ℕ, zero, suc, ◌≡◌, ◌≢◌, refl, true, false, some, List, [], ◌∷◌, take, arith,
}
use sysprog2021s.Proxylab.Cache.{
  CacheItem, Store, CacheList, done, faulted, running, same, search, put, move_to_head, read_object,
  node, change, cache_evict, ◌>>=◌, set_next, set_prev, cache_lookup,
}

-- Two nodes that lead to each other, neither of which has the tag.
pub record IsCycle (store : Store) (a b : ℕ) (url : List ℕ) : Type 0 where
  pub item_a : CacheItem
  pub item_b : CacheItem
  pub at_a : (a ≢ 0) × (store a ≡ some item_a) × (same item_a.tag url ≡ false) × (item_a.next ≡ b)
  pub at_b : (b ≢ 0) × (store b ≡ some item_b) × (same item_b.tag url ≡ false) × (item_b.next ≡ a)

search-IsCycle :
    (fuel : ℕ) (store : Store) (url : List ℕ) (a b : ℕ)
    → IsCycle store a b url
    → search fuel store url a ≡ running
unfolding search
search-IsCycle fuel store url zero b c = absurd (c.at_a.0 refl)
search-IsCycle zero store url (suc a) b c = refl
search-IsCycle (suc fuel) store url (suc a) b c =
    let c' : IsCycle store b (suc a) url = record {
      item_a = c.item_b;
      item_b = c.item_a;
      at_a = c.at_b;
      at_b = c.at_a;
    } in
    ground (arith, c.at_a, search-IsCycle fuel store url b (suc a) c')

-- What two calls of `cache_add` leave, of `a` and then of `b`: `b` leads to `a`, and no `prev` is
-- set.
pub record IsPair (l : CacheList) (a b : ℕ) (first second : CacheItem) : Type 0 where
  pub ends : (l.head ≡ b) × (l.tail ≡ a) × (a ≢ 0) × (b ≢ 0) × (a ≢ b)
  pub at_first : (l.store a ≡ some first) × (first.prev ≡ 0) × (first.next ≡ 0)
  pub at_second : (l.store b ≡ some second) × (second.prev ≡ 0) × (second.next ≡ a)

-- `move_to_head` of the older of two items leaves them in a cycle.
move_to_head-IsCycle :
    (l : CacheList) (a b : ℕ) (first second : CacheItem) (url : List ℕ)
    → IsPair l a b first second
    → same first.tag url ≡ false
    → same second.tag url ≡ false
    → (l' : CacheList) × ((move_to_head a l ≡ done l') × (l'.head ≡ a) × IsCycle l'.store a b url)
unfolding move_to_head change node put
move_to_head-IsCycle l a b first second url h na nb =
    let once : Store = put a (some (set_prev 0 first)) l.store in
    let twice : Store = put a (some (set_next b (set_prev 0 first))) once in
    (
      record { head = a; tail = 0; remainlen = l.remainlen; store = twice },
      (
        ground (arith, h.ends, h.at_first),
        refl,
        record {
          item_a = set_next b (set_prev 0 first);
          item_b = second;
          at_a = ground (arith, h.ends, na);
          at_b = ground (arith, h.ends, h.at_second, nb);
        },
      ),
    )

-- With two items in the cache, two evictions in a row read NULL.
cache_evict-twice :
    (l : CacheList) (a b : ℕ) (first second : CacheItem)
    → IsPair l a b first second
    → (cache_evict l >>= cache_evict) ≡ faulted
unfolding cache_evict node put
cache_evict-twice l a b first second h = ground (arith, h.ends, h.at_first, h.at_second)

-- With two items in the cache, a lookup of any other tag behind an eviction reads the item that
-- was freed.
read_object-evicted :
    (fuel : ℕ) (l : CacheList) (a b : ℕ) (first second : CacheItem) (url : List ℕ)
    → IsPair l a b first second
    → same second.tag url ≡ false
    → (cache_evict l >>= read_object (suc (suc fuel)) url) ≡ faulted
unfolding cache_evict node put read_object search
read_object-evicted fuel l zero b first second url h nb = absurd (ground (arith, h.ends))
read_object-evicted fuel l (suc a) zero first second url h nb = absurd (ground (arith, h.ends))
read_object-evicted fuel l (suc a) (suc b) first second url h nb =
    ground (arith, h.ends, h.at_first, h.at_second, nb)

same_refl : (w : List ℕ) → same w w ≡ true
same_refl [] = refl
same_refl (c ∷ cs) = ground (arith, same_refl cs)

read_object-older :
    (fuel : ℕ) (l : CacheList) (a b : ℕ) (first second : CacheItem)
    → IsPair l a b first second
    → same second.tag first.tag ≡ false
    → read_object (suc (suc fuel)) first.tag l ≡ done (some (a, take first.objectlen first.object))
unfolding read_object search node
read_object-older fuel l zero b first second h n = absurd (ground (arith, h.ends))
read_object-older fuel l (suc a) zero first second h n = absurd (ground (arith, h.ends))
read_object-older fuel l (suc a) (suc b) first second h n =
    ground (arith, h.ends, h.at_first, h.at_second, n, same_refl first.tag)

-- With two items in the cache, a lookup of the older one succeeds, but behind it a lookup of a tag
-- that neither has never ends, however many rounds it is given.
pub cache_lookup-endless :
    (n fuel : ℕ) (l : CacheList) (a b : ℕ) (first second : CacheItem) (url : List ℕ)
    → IsPair l a b first second
    → same second.tag first.tag ≡ false
    → same first.tag url ≡ false
    → same second.tag url ≡ false
    → (l' : CacheList) × ((cache_lookup (suc (suc n)) first.tag l
          ≡ done (some (take first.objectlen first.object), l'))
        × (cache_lookup fuel url l' ≡ running))
unfolding cache_lookup read_object
cache_lookup-endless n fuel l a b first second url h distinct na nb =
    let (l', (moved, head, cycle)) = move_to_head-IsCycle l a b first second url h na nb in
    let found = read_object-older n l a b first second h distinct in
    (l', (rw found (rw moved refl), endless l' head cycle))
  where
    endless :
        (l' : CacheList)
        → l'.head ≡ a
        → IsCycle l'.store a b url
        → cache_lookup fuel url l' ≡ running
    endless l' head cycle = rw (head, search-IsCycle fuel l'.store url a b cycle) refl
