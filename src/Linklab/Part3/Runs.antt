-- ===== src/Linklab/Part3/Runs.antt =====
-- Whole runs of part 3: a program's requests in order, and the report of `fini` at the end.
use mathlib.Core.Path.{subst}
use sysprog2021s.Prelude.{ℕ, ◌+◌, true, List, [], ◌∷◌, arith}
use sysprog2021s.Linklab.Tracer.{
  Tracer, Outcome, done, exited, trapped, faulted, ◌>>=◌, say, log_free, mul_long,
}
use sysprog2021s.Linklab.Part2
use sysprog2021s.Linklab.Part2.{is_positive, report}
use sysprog2021s.Linklab.Part3.{realloc, free}
use sysprog2021s.Linklab.Part3.Balance.{
  missed, missed_realloc, IsBalanced, Ensures, IsFresh, Regrown, malloc-IsBalanced,
  calloc-IsBalanced, realloc-IsBalanced, free_block-IsBalanced,
}

-- A request of the traced program, with what libc answers.
pub data Request : Type 0 where
  ask_malloc : (res size : ℕ) → Request
  ask_calloc : (res nmemb size : ℕ) → Request
  ask_realloc : (res ptr size : ℕ) → Request
  ask_free : (ptr : ℕ) → Request

-- `dlsym` finds libc's functions.
unfoldable pub perform : Request → Tracer → Outcome Tracer
perform (ask_malloc res size) = Part2.malloc true res size
perform (ask_calloc res nmemb size) = Part2.calloc true res nmemb size
perform (ask_realloc res ptr size) = realloc true res ptr size
perform (ask_free ptr) = free true ptr

unfoldable pub run : List Request → Tracer → Outcome Tracer
run [] t = done t
run (r ∷ rs) t = perform r t >>= run rs

-- libc answers NULL, or a block that the tracer does not count as live; `realloc` may also return
-- the block itself.
abbrev pub IsServed : Request → Tracer → Type 0
IsServed (ask_malloc res size) t = IsFresh res t
IsServed (ask_calloc res nmemb size) t = IsFresh res t
IsServed (ask_realloc res ptr size) t = Regrown res ptr t
IsServed (ask_free ptr) t = Unit {0}

-- The bytes that are counted as allocated although libc refuses them.
unfoldable pub refused : Request → Tracer → ℕ
refused (ask_malloc res size) t = missed res size
refused (ask_calloc res nmemb size) t = missed res (mul_long nmemb size)
refused (ask_realloc res ptr size) t = missed_realloc res ptr size t
refused (ask_free ptr) t = 0

-- `P` holds of the result, if there is one.
abbrev pub Allows {ℓ} : {A : Type ℓ} → (A → Type 0) → Outcome A → Type 0
Allows P (done a) = P a
Allows P _ = Unit {0}

abbrev pub AllServed : List Request → Tracer → Type 0
AllServed [] t = Unit {0}
AllServed (r ∷ rs) t = IsServed r t × Allows (AllServed rs) (perform r t)

abbrev pub sum_after : (Tracer → ℕ) → Outcome Tracer → ℕ
sum_after f (done t) = f t
sum_after f _ = 0

unfoldable pub refused_all : List Request → Tracer → ℕ
unfolding refused
refused_all [] t = 0
refused_all (r ∷ rs) t = refused r t + sum_after (refused_all rs) (perform r t)

perform-IsBalanced :
    (r : Request) (lost : ℕ) (t : Tracer)
    → IsBalanced lost t
    → IsServed r t
    → Ensures (IsBalanced (lost + refused r t)) (perform r t)
unfolding perform realloc free refused missed_realloc
perform-IsBalanced (ask_malloc res size) lost t b s = malloc-IsBalanced lost t b res size s
perform-IsBalanced (ask_calloc res nmemb size) lost t b s =
    calloc-IsBalanced lost t b res nmemb size s
perform-IsBalanced (ask_realloc res ptr size) lost t b s =
    let u = record t { reallocp = true } in
    ground (
      arith,
      realloc-IsBalanced lost t b res ptr size s,
      realloc-IsBalanced lost u (ground arith) res ptr size s,
    )
perform-IsBalanced (ask_free ptr) lost t b s =
    let u = say (log_free ptr) t in
    let v = record u { freep = true } in
    ground (
      arith,
      free_block-IsBalanced lost u (ground arith) ptr,
      free_block-IsBalanced lost v (ground arith) ptr,
    )

bind-IsBalanced :
    (rs : List Request) (lost : ℕ) (m : Outcome Tracer)
    → Ensures (IsBalanced lost) m
    → Allows (AllServed rs) m
    → ((t : Tracer)
        → IsBalanced lost t
        → AllServed rs t
        → Ensures (IsBalanced (lost + refused_all rs t)) (run rs t))
    → Ensures (IsBalanced (lost + sum_after (refused_all rs) m)) (m >>= run rs)
bind-IsBalanced rs lost (done t) b s next = next t b s
bind-IsBalanced rs lost exited b s next = elim b [ ]
bind-IsBalanced rs lost trapped b s next = elim b [ ]
bind-IsBalanced rs lost faulted b s next = elim b [ ]

-- In every run in which each answer of libc is NULL, the block that is resized, or a block that the
-- tracer does not count as live, no request fails, the list stays sorted with no block counted
-- twice, and the bytes counted as allocated are, modulo 2^64, the bytes counted as freed, those of
-- the blocks counted as live, and those that libc refused.
pub run-IsBalanced :
    (rs : List Request) (lost : ℕ) (t : Tracer)
    → IsBalanced lost t
    → AllServed rs t
    → Ensures (IsBalanced (lost + refused_all rs t)) (run rs t)
unfolding run refused_all
run-IsBalanced [] lost t b s = subst (λ n. IsBalanced n t) (omega arith) b
run-IsBalanced (r ∷ rs) lost t b s =
    subst (λ n. Ensures (IsBalanced n) (perform r t >>= run rs)) (omega arith)
      (bind-IsBalanced rs (lost + refused r t) (perform r t) (perform-IsBalanced r lost t b s.0) s.1
        (run-IsBalanced rs (lost + refused r t)))
