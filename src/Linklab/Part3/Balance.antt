-- ===== src/Linklab/Part3/Balance.antt =====
-- The statistics of part 3 against its list: what was counted as allocated is what was counted
-- as freed and what is still live.
use sysprog2021s.Prelude.{
  ℕ, ◌+◌, ◌%◌, ◌^◌, ◌≡◌, ◌≢◌, ◌⊎◌, ◌==◌, leb, not, ◌&&◌, if◌then◌else◌, inl, inr, true, none, some,
  List, [], ◌∷◌, Option-cases, arith,
}
use sysprog2021s.Linklab.MemList.{Item, alloc, release, dealloc, find}
use sysprog2021s.Linklab.MemList.Lookup.{IsSorted, lookup, search_from-lookup, lookup-release}
use sysprog2021s.Linklab.MemList.Live.{live, AtMostOnce, cnt_of, insert_fresh, release-live}
use sysprog2021s.Linklab.Tracer.{LogEntry, ill_free, double_free, Tracer, Outcome, done, mul_long}
use sysprog2021s.Linklab.Part2
use sysprog2021s.Linklab.Part3.{realloc_block, free_block}

abbrev pub items : Tracer → List Item
items t = elim t.list [ none ↦ [] | some xs ↦ xs ]

-- `lost` are the bytes that the tracer counted as allocated although libc refused them.
pub record IsBalanced (lost : ℕ) (t : Tracer) : Type 0 where
  pub listed : t.list ≡ some (items t)
  pub sorted : IsSorted (items t)
  pub once : AtMostOnce (items t)
  pub balance : t.n_allocb ≡ (t.n_freeb + live (items t) + lost) % 2 ^ 64

-- The outcome is a result that `P` holds of.
abbrev pub Ensures {ℓ} : {A : Type ℓ} → (A → Type 0) → Outcome A → Type 0
Ensures P (done a) = P a
Ensures P _ = ⊥

-- libc answers NULL, or a block that the tracer does not count as live.
abbrev pub IsFresh : ℕ → Tracer → Type 0
IsFresh res t = (res ≡ 0) ⊎ (cnt_of (lookup res (items t)) ≡ 0)

-- `realloc` may also return the block itself.
abbrev pub Regrown : (res ptr : ℕ) → Tracer → Type 0
Regrown res ptr t = (res ≡ ptr) ⊎ IsFresh res t

-- What is counted of a request that libc answers with NULL.
abbrev pub missed : (res size : ℕ) → ℕ
missed res size = if res == 0 then size else 0

-- `realloc` to a smaller size counts nothing.
unfoldable pub missed_realloc : (res ptr size : ℕ) → Tracer → ℕ
missed_realloc res ptr size t = if ptr == 0 then missed res size else elim (find t.list ptr) [
  | none ↦ missed res size
  | some i ↦ if not (i.cnt == 0) && leb size i.size then 0 else missed res size
]

module _ (lost : ℕ) (t : Tracer) (b : IsBalanced lost t) where
  pub malloc-IsBalanced :
      (res size : ℕ)
      → IsFresh res t
      → Ensures (IsBalanced (lost + missed res size)) (Part2.malloc true res size t)
  unfolding Part2.malloc alloc
  malloc-IsBalanced res size f = ground (arith, insert_fresh res size (items t))

  pub calloc-IsBalanced :
      (res nmemb size : ℕ)
      → IsFresh res t
      → Ensures
          (IsBalanced (lost + missed res (mul_long nmemb size)))
          (Part2.calloc true res nmemb size t)
  unfolding Part2.calloc alloc
  calloc-IsBalanced res nmemb size f =
      ground (arith, insert_fresh res (mul_long nmemb size) (items t))

  realloc_null-IsBalanced :
      (res size : ℕ)
      → IsFresh res t
      → IsBalanced (lost + missed res size) (Part2.realloc_null res size t)
  unfolding Part2.realloc_null alloc
  realloc_null-IsBalanced res size f = ground (arith, insert_fresh res size (items t))

  realloc_new-IsBalanced :
      (complaint : List LogEntry) (res ptr size : ℕ)
      → IsFresh res t
      → IsBalanced (lost + missed res size) (Part2.realloc_new complaint res ptr size t)
  unfolding Part2.realloc_new alloc
  realloc_new-IsBalanced complaint res ptr size f = ground (arith, insert_fresh res size (items t))

  realloc_live-IsBalanced :
      (res ptr size : ℕ) (i : Item)
      → lookup ptr (items t) ≡ some i
      → i.cnt ≢ 0
      → Regrown res ptr t
      → IsBalanced
          (lost + (if leb size i.size then 0 else missed res size))
          (Part2.realloc_live res ptr size i t)
  unfolding Part2.realloc_live dealloc alloc
  realloc_live-IsBalanced res ptr size i e n f = ground (
    arith,
    release-live ptr (items t) i,
    lookup-release ptr res (items t),
    insert_fresh res size (release ptr (items t)).1,
  )

  pub free_block-IsBalanced : (ptr : ℕ) → IsBalanced lost (free_block ptr t)
  unfolding free_block dealloc find
  free_block-IsBalanced ptr = elim (Option-cases (lookup ptr (items t))) [
    | inl e ↦ ground (arith, search_from-lookup ptr (items t))
    | inr (i, e) ↦ ground (arith, search_from-lookup ptr (items t), release-live ptr (items t) i)
  ]

  -- What libc returns for a growing block may be the block itself.
  pub realloc-IsBalanced :
      (res ptr size : ℕ)
      → Regrown res ptr t
      → IsBalanced (lost + missed_realloc res ptr size t) (realloc_block res ptr size t)
  unfolding realloc_block find missed_realloc
  realloc-IsBalanced res ptr size f = elim (Option-cases (lookup ptr (items t))) [
    | inl e ↦ ground (
      arith,
      search_from-lookup ptr (items t),
      realloc_null-IsBalanced res size,
      realloc_new-IsBalanced (ill_free ∷ []) res ptr size,
    )
    | inr (i, e) ↦ ground (
      arith,
      search_from-lookup ptr (items t),
      realloc_null-IsBalanced res size,
      realloc_new-IsBalanced (double_free ∷ []) res ptr size,
      realloc_live-IsBalanced res ptr size i,
    )
  ]
