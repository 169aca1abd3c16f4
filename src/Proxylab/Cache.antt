-- ===== src/Proxylab/Cache.antt =====
-- proxylab-handout/cache.c: a doubly linked list of web objects, most recently used first. The
-- nodes are kept in a store from addresses, 0 is NULL, and an address without a node is not
-- allocated. Each function is the part between taking and giving back the lock. Addresses and
-- contents that `malloc` gives are arguments.
pub mod Search
pub mod Links
use sysprog2021s.Prelude.{
  ℕ, zero, suc, ◌+◌, ◌-◌, ◌^◌, ◌%◌, Bool, true, false, Option, none, some, List, [], ◌∷◌, ltb, ◌==◌,
  if◌then◌else◌, length, take,
}

-- `CacheItem`.
pub record CacheItem : Type 0 where
  pub tag : List ℕ
  pub object : List ℕ
  pub prev : ℕ
  pub next : ℕ
  pub objectlen : ℕ

abbrev pub Store : Type 0
Store = ℕ → Option CacheItem

-- `*list`, with the nodes.
pub record CacheList : Type 0 where
  pub head : ℕ
  pub tail : ℕ
  pub remainlen : ℕ
  pub store : Store

-- A result, an access of memory that is not allocated, or a loop that has used up its fuel.
pub data Outcome (A : Type 0) : Type 0 where
  done : A → Outcome A
  faulted running : Outcome A

infixl 20 ◌>>=◌
abbrev pub ◌>>=◌ : {A B : Type 0} → Outcome A → (A → Outcome B) → Outcome B
done a >>= k = k a
faulted >>= k = faulted
running >>= k = running

abbrev pub max_cache_size : ℕ
max_cache_size = 1049000

unfoldable pub cache_init : CacheList
cache_init = record { head = 0; tail = 0; remainlen = max_cache_size; store = λ p. none }

-- A read and a write of a node through its address.
unfoldable pub node : Store → ℕ → Outcome CacheItem
node store p = if p == 0 then faulted else elim (store p) [ none ↦ faulted | some i ↦ done i ]

unfoldable pub put : ℕ → Option CacheItem → Store → Store
put p i store q = if q == p then i else store q

unfoldable pub change : ℕ → (CacheItem → CacheItem) → CacheList → Outcome CacheList
unfolding node put
change p f l = do i ← node l.store p; done (record l { store = put p (some (f i)) l.store })

abbrev pub set_next : ℕ → CacheItem → CacheItem
set_next p i = record i { next = p }

abbrev pub set_prev : ℕ → CacheItem → CacheItem
set_prev p i = record i { prev = p }

-- `if (p) p->field = ...`
abbrev pub change_if : ℕ → (CacheItem → CacheItem) → CacheList → Outcome CacheList
change_if p f l = if p == 0 then done l else change p f l

unfoldable pub move_to_head : (item : ℕ) → CacheList → Outcome CacheList
unfolding node change
move_to_head item l =
    if l.head == item
    then done l
    else if l.head == 0
    then done (record l { head = item; tail = item })
    else do
      i ← node l.store item
      let l = if l.tail == item then record l { tail = i.prev } else l
      l ← change_if i.prev (set_next i.next) l
      l ← change_if i.next (set_prev i.prev) l
      l ← change item (set_prev 0) l
      l ← change item (set_next l.head) l
      done (record l { head = item })

unfoldable pub cache_evict : CacheList → Outcome CacheList
unfolding node put
cache_evict l = do
  temp ← node l.store l.tail
  done (record l {
    tail = temp.prev;
    remainlen = (l.remainlen + temp.objectlen) % 2 ^ 64;
    store = put l.tail none l.store;
  })

-- The loop of `cache_add`.
unfoldable pub make_room : (fuel objectlen : ℕ) → CacheList → Outcome CacheList
unfolding cache_evict
make_room zero objectlen l = if ltb l.remainlen objectlen then running else done l
make_room (suc fuel) objectlen l =
    let rest = cache_evict l >>= make_room fuel objectlen in
    if ltb l.remainlen objectlen then rest else done l

-- The bytes before the first NUL, which `strcpy` copies.
unfoldable pub c_string : List ℕ → List ℕ
c_string [] = []
c_string (c ∷ cs) = if c == 0 then [] else c ∷ c_string cs

-- `strcpy` of a text into a block of memory, with its terminator.
unfoldable pub strcpy : (block text : List ℕ) → Outcome (List ℕ)
strcpy [] text = faulted
strcpy (b ∷ bs) [] = done (0 ∷ bs)
strcpy (b ∷ bs) (c ∷ cs) = do rest ← strcpy bs cs; done (c ∷ rest)

-- `new` is the address of the node, and `block` is what stands in the memory for the object.
unfoldable pub cache_add :
    (fuel new : ℕ) (block url object : List ℕ) (objectlen : ℕ) → CacheList → Outcome CacheList
unfolding make_room c_string strcpy put move_to_head
cache_add fuel new block url object objectlen l = do
  l ← make_room fuel objectlen l
  text ← strcpy block (c_string object)
  let item : CacheItem = record {
    tag = url;
    object = text;
    prev = 0;
    next = 0;
    objectlen = objectlen;
  }
  let l = record l { remainlen = l.remainlen - objectlen; store = put new (some item) l.store }
  move_to_head new l

abbrev pub same : List ℕ → List ℕ → Bool
same [] [] = true
same (c ∷ cs) (d ∷ ds) = if c == d then same cs ds else false
same _ _ = false

-- The loop of `cache_lookup`: the address of the item with the tag, or NULL.
unfoldable pub search : (fuel : ℕ) → Store → (url : List ℕ) (item : ℕ) → Outcome ℕ
search fuel store url zero = done 0
search zero store url (suc p) = running
search (suc fuel) store url (suc p) = elim (store (suc p)) [
  | none ↦ faulted
  | some i ↦ if same i.tag url then done (suc p) else search fuel store url i.next
]

-- The first part of `cache_lookup`, under the read lock: the item, and what it copies.
unfoldable pub read_object : (fuel : ℕ) (url : List ℕ) → CacheList → Outcome (Option (ℕ × List ℕ))
unfolding search node
read_object fuel url l = do
  p ← search fuel l.store url l.head
  if p == 0 then done none else do i ← node l.store p; done (some (p, take i.objectlen i.object))

-- `cache_lookup` with no step of another thread between its two parts.
unfoldable pub cache_lookup :
    (fuel : ℕ) (url : List ℕ) → CacheList → Outcome (Option (List ℕ) × CacheList)
cache_lookup fuel url l = do
  answer ← read_object fuel url l
  elim answer [
    | none ↦ done (none, l)
    | some (p, buf) ↦ do l ← move_to_head p l; done (some buf, l)
  ]
