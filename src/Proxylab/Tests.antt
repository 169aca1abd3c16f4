-- ===== src/Proxylab/Tests.antt =====
-- The theorems about cache.c at concrete caches, and short tests.
use sysprog2021s.Prelude.{ℕ, ◌+◌, ◌-◌, ◌≡◌, refl, none, some, List, [], ◌∷◌, arith}
use sysprog2021s.Proxylab.Cache.{
  CacheItem, CacheList, done, running, ◌>>=◌, max_cache_size, cache_init, cache_add, cache_lookup,
  search, put, make_room, c_string, strcpy, move_to_head, change, node,
}
use sysprog2021s.Proxylab.Cache.Search.{IsChain, first_with, search-first_with, cache_add-IsChain}
use sysprog2021s.Proxylab.Cache.Links.{IsPair, cache_lookup-endless}

-- The objects "A" under the tag "a" and "B" under the tag "b".
abbrev item_a : CacheItem
item_a = record { tag = b'a' ∷ []; object = b'A' ∷ 0 ∷ []; prev = 0; next = 0; objectlen = 1 }

abbrev item_b : CacheItem
item_b = record { tag = b'b' ∷ []; object = b'B' ∷ 0 ∷ []; prev = 0; next = 0; objectlen = 1 }

abbrev one : CacheList
one = record {
  head = 8;
  tail = 8;
  remainlen = max_cache_size - 1;
  store = put 8 (some item_a) (λ p. none);
}

abbrev two : CacheList
two = record {
  head = 16;
  tail = 8;
  remainlen = max_cache_size - 2;
  store =
      put 16 (some (record item_b { next = 8 }))
        (put 16 (some item_b) (put 16 (some item_b) one.store));
}

two_added :
    (cache_add 0 8 (7 ∷ 7 ∷ []) (b'a' ∷ []) (b'A' ∷ []) 1 cache_init
      >>= cache_add 0 16 (7 ∷ 7 ∷ []) (b'b' ∷ []) (b'B' ∷ []) 1)
    ≡ done two
unfolding cache_add cache_init make_room c_string strcpy put move_to_head change node
two_added = refl

abbrev item_b_linked : CacheItem
item_b_linked = record item_b { next = 8 }

two-IsPair : IsPair two 8 16 item_a item_b_linked
unfolding put
two-IsPair = record { ends = ground arith; at_first = ground arith; at_second = ground arith }

cache_lookup-endless_example :
    (l' : CacheList) × ((cache_lookup 2 (b'a' ∷ []) two ≡ done (some (b'A' ∷ []), l'))
      × (cache_lookup 1000 (b'c' ∷ []) l' ≡ running))
cache_lookup-endless_example =
    cache_lookup-endless 0 1000 two 8 16 item_a item_b_linked (b'c' ∷ []) two-IsPair refl refl refl

abbrev items : List (ℕ × CacheItem)
items = (16, record item_b { next = 8 }) ∷ (8, item_a) ∷ []

two-IsChain : IsChain two.store 16 items
unfolding put
two-IsChain = ground arith

search-first_with_example : search 2 two.store (b'a' ∷ []) 16 ≡ done (first_with (b'a' ∷ []) items)
search-first_with_example =
    search-first_with 2 two.store (b'a' ∷ []) 16 items two-IsChain (omega arith)

one-IsChain : IsChain one.store 8 ((8, item_a) ∷ [])
unfolding put
one-IsChain = ground arith

free_at_16 : one.store 16 ≡ none
unfolding put
free_at_16 = refl

copied : strcpy (7 ∷ 7 ∷ []) (c_string (b'B' ∷ [])) ≡ done (b'B' ∷ 0 ∷ [])
unfolding strcpy c_string
copied = refl

cache_add-IsChain_example :
    (l' : CacheList) × ((cache_add 0 16 (7 ∷ 7 ∷ []) (b'b' ∷ []) (b'B' ∷ []) 1 one ≡ done l')
      × (l'.remainlen + 1 ≡ one.remainlen)
      × IsChain l'.store l'.head items)
cache_add-IsChain_example =
    cache_add-IsChain 0 16 (7 ∷ 7 ∷ []) (b'b' ∷ []) (b'B' ∷ []) (b'B' ∷ 0 ∷ []) 1 one
      ((8, item_a) ∷ []) one-IsChain (omega arith) free_at_16 (omega arith) (omega arith) copied
