-- ===== src/Linklab/Part3/Safety.antt =====
-- Which calls of libc the tracer of part 3 makes, whatever libc answers.
use mathlib.Core.Path.{subst}
use sysprog2021s.Prelude.{
  ℕ, ◌≡◌, ◌≢◌, ◌⊎◌, inl, inr, refl, true, some, List, [], ◌∷◌, ◌++◌, ◌||◌, ◌==◌, Option-cases,
  Bool-cases, arith,
}
use sysprog2021s.Linklab.MemList.{alloc, release, dealloc, find, new_list}
use sysprog2021s.Linklab.MemList.Lookup.{
  IsSorted, lookup, search_from-lookup, insert-IsSorted, release-IsSorted,
}
use sysprog2021s.Linklab.MemList.Live.{cnt_of}
use sysprog2021s.Linklab.Tracer.{
  Tracer, Outcome, done, exited, trapped, faulted, ◌>>=◌, mul_long, LibcCall, libc_malloc,
  libc_calloc, libc_realloc, libc_free, say, log_free, track, loaded, init,
}
use sysprog2021s.Linklab.Part2
use sysprog2021s.Linklab.Part3.{realloc_block, realloc, free_block, free}
use sysprog2021s.Linklab.Part3.Balance.{items, Ensures}
use sysprog2021s.Linklab.Part3.Runs.{
  Request, ask_malloc, ask_calloc, ask_realloc, ask_free, perform, run,
}

-- The list exists and is sorted.
record IsListed (t : Tracer) : Type 0 where
  pub listed : t.list ≡ some (items t)
  pub sorted : IsSorted (items t)

track-IsListed : (res size : ℕ) (t : Tracer) → IsListed t → IsListed (track res size t)
unfolding track alloc
track-IsListed res size t w = ground (arith, insert-IsSorted res size (items t))

free_block-IsListed : (ptr : ℕ) (t : Tracer) → IsListed t → IsListed (free_block ptr t)
unfolding free_block dealloc
free_block-IsListed ptr t w = ground (arith, release-IsSorted ptr (items t))

realloc_block-IsListed :
    (res ptr size : ℕ) (t : Tracer) → IsListed t → IsListed (realloc_block res ptr size t)
unfolding realloc_block Part2.realloc_null Part2.realloc_new Part2.realloc_live track alloc dealloc
realloc_block-IsListed res ptr size t w =
    let xs = items t in
    ground (
      arith,
      insert-IsSorted res size xs,
      release-IsSorted ptr xs,
      insert-IsSorted res size (release ptr xs).1,
    )

perform-IsListed : (r : Request) (t : Tracer) → IsListed t → Ensures IsListed (perform r t)
unfolding perform Part2.malloc Part2.calloc realloc free track alloc
perform-IsListed (ask_malloc res size) t w = ground (arith, insert-IsSorted res size (items t))
perform-IsListed (ask_calloc res nmemb size) t w =
    ground (arith, insert-IsSorted res (mul_long nmemb size) (items t))
perform-IsListed (ask_realloc res ptr size) t w =
    let u = record t { reallocp = true } in
    ground (
      arith,
      realloc_block-IsListed res ptr size t w,
      realloc_block-IsListed res ptr size u (ground arith),
    )
perform-IsListed (ask_free ptr) t w =
    let u = say (log_free ptr) t in
    let v = record u { freep = true } in
    ground
      (arith, free_block-IsListed ptr u (ground arith), free_block-IsListed ptr v (ground arith))

bind-IsListed :
    (m : Outcome Tracer) (k : Tracer → Outcome Tracer)
    → Ensures IsListed m
    → ((t : Tracer) → IsListed t → Ensures IsListed (k t))
    → Ensures IsListed (m >>= k)
bind-IsListed (done t) k w h = h t w
bind-IsListed exited k w h = elim w [ ]
bind-IsListed trapped k w h = elim w [ ]
bind-IsListed faulted k w h = elim w [ ]

run-IsListed : (rs : List Request) (t : Tracer) → IsListed t → Ensures IsListed (run rs t)
unfolding run
run-IsListed [] t w = w
run-IsListed (r ∷ rs) t w =
    bind-IsListed (perform r t) (run rs) (perform-IsListed r t w) (run-IsListed rs)

init-IsListed : IsListed (init loaded)
unfolding init new_list
init-IsListed = record { listed = refl; sorted = tt }

-- What libc may be asked for: memory, and to free or to resize a block that is live.
abbrev pub IsSafe : Tracer → LibcCall → Type 0
IsSafe t (libc_free ptr) = cnt_of (lookup ptr (items t)) ≢ 0
IsSafe t (libc_realloc ptr size) = (ptr ≡ 0) ⊎ (cnt_of (lookup ptr (items t)) ≢ 0)
IsSafe t _ = Unit {0}

-- Since `t` libc was not called, or was called once, safely.
abbrev pub SafeSince : Tracer → Tracer → Type 0
SafeSince t u =
    (u.calls ≡ t.calls) ⊎ ((c : LibcCall) × (u.calls ≡ t.calls ++ (c ∷ [])) × IsSafe t c)

module _ (t u : Tracer) (b : IsListed t) (l : u.list ≡ t.list) (c : u.calls ≡ t.calls) where
  realloc_block-SafeSince : (res ptr size : ℕ) → SafeSince t (realloc_block res ptr size u)
  unfolding realloc_block Part2.realloc_null Part2.realloc_new Part2.realloc_live find track
  realloc_block-SafeSince res ptr size = elim (Option-cases (lookup ptr (items t))) [
    | inl e ↦ inr (libc_realloc 0 size, ground (arith, search_from-lookup ptr (items t)), inl refl)
    | inr (i, e) ↦ elim (Bool-cases (ptr == 0 || i.cnt == 0)) [
      | inl z ↦
          inr (libc_realloc 0 size, ground (arith, search_from-lookup ptr (items t)), inl refl)
      | inr z ↦ inr (
        libc_realloc ptr size,
        ground (arith, search_from-lookup ptr (items t)),
        inr (ground arith),
      )
    ]
  ]

  free_block-SafeSince : (ptr : ℕ) → SafeSince t (free_block ptr u)
  unfolding free_block find
  free_block-SafeSince ptr = elim (Option-cases (lookup ptr (items t))) [
    | inl e ↦ inl (ground (arith, search_from-lookup ptr (items t)))
    | inr (i, e) ↦ elim (Bool-cases (i.cnt == 0)) [
      | inl z ↦ inl (ground (arith, search_from-lookup ptr (items t)))
      | inr z ↦ inr (libc_free ptr, ground (arith, search_from-lookup ptr (items t)), ground arith)
    ]
  ]

perform_safely : (r : Request) (t : Tracer) → IsListed t → Ensures (SafeSince t) (perform r t)
unfolding perform Part2.malloc Part2.calloc realloc free track
perform_safely (ask_malloc res size) t b = elim (Bool-cases t.mallocp) [
  | inl e ↦ simp e (inr (libc_malloc size, ground arith, tt))
  | inr e ↦ simp e (inr (libc_malloc size, ground arith, tt))
]
perform_safely (ask_calloc res nmemb size) t b = elim (Bool-cases t.callocp) [
  | inl e ↦ simp e (inr (libc_calloc nmemb size, ground arith, tt))
  | inr e ↦ simp e (inr (libc_calloc nmemb size, ground arith, tt))
]
perform_safely (ask_realloc res ptr size) t b = elim (Bool-cases t.reallocp) [
  | inl e ↦ simp e (realloc_block-SafeSince t t b refl refl res ptr size)
  | inr e ↦ simp e (realloc_block-SafeSince t _ b refl refl res ptr size)
]
perform_safely (ask_free ptr) t b = elim (Bool-cases t.freep) [
  | inl e ↦ simp e (elim (Bool-cases (ptr == 0)) [
    | inl z ↦ simp z (inl refl)
    | inr z ↦ simp z (free_block-SafeSince t _ b refl refl ptr)
  ])
  | inr e ↦ simp e (elim (Bool-cases (ptr == 0)) [
    | inl z ↦ simp z (inl refl)
    | inr z ↦ simp z (free_block-SafeSince t _ b refl refl ptr)
  ])
]

-- Behind any run from the loading of the library, whatever libc answered in it, a request does not
-- fail, and it asks libc at most once, and never to free or to resize a block that the tracer does
-- not count as live: illegal and double frees stop in the tracer.
pub perform-SafeSince :
    (rs : List Request) (t : Tracer) (r : Request)
    → run rs (init loaded) ≡ done t
    → Ensures (SafeSince t) (perform r t)
perform-SafeSince rs t r e =
    perform_safely r t (subst (Ensures IsListed) e (run-IsListed rs (init loaded) init-IsListed))
