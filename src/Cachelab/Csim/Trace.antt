-- ===== src/Cachelab/Csim/Trace.antt =====
-- Whole traces: the simulator counts what the least-recently-used policy of each set counts.
use sysprog2021s.Prelude.{
  ℕ, zero, suc, ◌+◌, ◌/◌, ◌%◌, ◌^◌, ◌≤◌, ◌<◌, ◌≡◌, ◌≢◌, refl, ◌||◌, some, List, [], ◌∷◌, ◌++◌, ◌==◌,
  if◌then◌else◌, length, get_elem?, set, arith,
}
use sysprog2021s.Cachelab.Csim.{Param, CacheSet, Cache, Entry}
use sysprog2021s.Cachelab.Csim.Lru.{IsLru}
use sysprog2021s.Cachelab.Csim.Spec.{counted}

-- The shape of a cache: `s` set bits, `b` block bits and `e` lines.
pub record Geometry : Type 0 where
  pub s : ℕ
  pub b : ℕ
  pub e : ℕ

-- `p` has this shape.
pub record HasShape (q : Geometry) (p : Param) : Type 0 where
  pub set_bits : p.s ≡ q.s
  pub block_bits : p.b ≡ q.b
  pub lines_per_set : p.e ≡ q.e

-- The shape is one that the simulator handles: at least two sets and one line, and a tag.
pub record IsUsable (q : Geometry) : Type 0 where
  pub some_sets : 0 < q.s
  pub tag_left : q.s + q.b < 64
  pub some_lines : 0 < q.e

abbrev pub index_in : Geometry → ℕ → ℕ
index_in q addr = addr / 2 ^ q.b % 2 ^ q.s

abbrev pub tag_in : Geometry → ℕ → ℕ
tag_in q addr = addr / 2 ^ (q.s + q.b)

-- The tags that a set was accessed with, of the addresses so far; both newest first.
unfoldable pub history : Geometry → ℕ → List ℕ → List ℕ
history q i [] = []
history q i (a ∷ past) =
    if index_in q a == i then tag_in q a ∷ history q i past else history q i past

-- What the policy counts for one address, and for a list of them.
unfoldable pub policy_step : Geometry → List ℕ → Param → ℕ → Param
policy_step q past p a = counted q.e (history q (index_in q a) past) (tag_in q a) p

unfoldable pub policy : Geometry → List ℕ → Param → List ℕ → Param
policy q past p [] = p
policy q past p (a ∷ later) = policy q (a ∷ past) (policy_step q past p a) later

unfoldable pub past_after : List ℕ → List ℕ → List ℕ
past_after past [] = past
past_after past (a ∷ later) = past_after (a ∷ past) later

-- The addresses that an entry of the trace accesses: 'M' loads and stores.
unfoldable pub accesses_of : Entry → List ℕ
accesses_of en =
    if en.instr == b'M'
    then en.addr ∷ en.addr ∷ []
    else if en.instr == b'L' || en.instr == b'S'
    then en.addr ∷ []
    else []

unfoldable pub accesses : List Entry → List ℕ
accesses [] = []
accesses (en ∷ rest) = accesses_of en ++ accesses rest

abbrev pub AllLru : Geometry → List ℕ → ℕ → Cache → Type 0
AllLru q past i [] = Unit {0}
AllLru q past i (cs ∷ rest) =
    IsLru (history q i past) cs × (length cs.lines ≡ q.e) × AllLru q past (i + 1) rest

pub record Simulates (q : Geometry) (past : List ℕ) (c : Cache) (p : Param) : Type 0 where
  pub shape : HasShape q p
  pub sets : length c ≡ 2 ^ q.s
  pub all : AllLru q past 0 c
  pub bounded : p.n_hit + p.n_miss ≤ length past
  pub evicted : p.n_evict ≤ p.n_miss

pub length-history :
    (q : Geometry) (i : ℕ) (past : List ℕ) → length (history q i past) ≤ length past
unfolding history
length-history q i [] = omega arith
length-history q i (a ∷ past) = ground (arith, length-history q i past)

history-other :
    (q : Geometry) (i a : ℕ) (past : List ℕ)
    → index_in q a ≢ i
    → history q i (a ∷ past) ≡ history q i past
unfolding history
history-other q i a past n = ground arith

pub history-same :
    (q : Geometry) (a : ℕ) (past : List ℕ)
    → history q (index_in q a) (a ∷ past) ≡ tag_in q a ∷ history q (index_in q a) past
unfolding history
history-same q a past = ground arith

module _ (q : Geometry) (past : List ℕ) where
  pub AllLru-get :
      (i k : ℕ) (c : Cache)
      → AllLru q past i c
      → k < length c
      → (cs : CacheSet) × (get_elem? c k ≡ some cs)
        × IsLru (history q (i + k) past) cs
        × (length cs.lines ≡ q.e)
  AllLru-get i k [] all lt = absurd (omega arith)
  AllLru-get i zero (cs ∷ rest) (lru, len, all) lt =
      let here : i + zero ≡ i = omega arith in (cs, refl, rw here lru, len)
  AllLru-get i (suc k) (cs ∷ rest) (lru, len, all) lt =
      let there : i + suc k ≡ i + 1 + k = omega arith in
      rw there (AllLru-get (i + 1) k rest all (omega arith))

  -- The other sets' histories do not grow.
  AllLru-other :
      (i a : ℕ) (c : Cache) → AllLru q past i c → index_in q a < i → AllLru q (a ∷ past) i c
  AllLru-other i a [] all lt = tt
  AllLru-other i a (cs ∷ rest) (lru, len, all) lt = (
    rw (history-other q i a past (omega arith)) lru,
    len,
    AllLru-other (i + 1) a rest all (omega arith),
  )

  pub AllLru-set :
      (i k a : ℕ) (c : Cache) (cs' : CacheSet)
      → AllLru q past i c
      → index_in q a ≡ i + k
      → IsLru (history q (i + k) (a ∷ past)) cs'
      → length cs'.lines ≡ q.e
      → AllLru q (a ∷ past) i (set c k cs')
  AllLru-set i k a [] cs' all at lru' len' = tt
  AllLru-set i zero a (cs ∷ rest) cs' (lru, len, all) at lru' len' =
      let here : i + zero ≡ i = omega arith in
      (rw here at lru', len', AllLru-other (i + 1) a rest all (omega arith))
  AllLru-set i (suc k) a (cs ∷ rest) cs' (lru, len, all) at lru' len' =
      let there : i + suc k ≡ i + 1 + k = omega arith in
      (
        rw (history-other q i a past (omega arith)) lru,
        len,
        AllLru-set (i + 1) k a rest cs' all (omega arith) (rw there at lru') len',
      )
