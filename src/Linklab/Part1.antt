-- ===== src/Linklab/Part1.antt =====
-- linklab-handout/part1/memtrace.c: counts the calls and the bytes asked for, and tracks no block.
use sysprog2021s.Prelude.{ℕ, Bool, ◌==◌, if◌then◌else◌}
use sysprog2021s.Linklab.Tracer.{
  Tracer, Outcome, done, ◌>>=◌, add_long, mul_long, say, call, log_malloc, log_calloc, log_realloc,
  log_free, log_stop, libc_malloc, libc_calloc, libc_realloc, libc_free, resolve_malloc,
  resolve_calloc, resolve_realloc, resolve_free, statistics,
}

unfoldable pub fini : Tracer → Outcome Tracer
unfolding statistics
fini t = do entry ← statistics t; done (say log_stop (say entry t))

unfoldable pub malloc : (found : Bool) (res size : ℕ) → Tracer → Outcome Tracer
unfolding resolve_malloc
malloc found res size t = do
  t ← resolve_malloc found t
  let t = call (libc_malloc size) t
  let t = record t { n_malloc = add_long t.n_malloc 1; n_allocb = add_long t.n_allocb size }
  done (say (log_malloc size res) t)

unfoldable pub calloc : (found : Bool) (res nmemb size : ℕ) → Tracer → Outcome Tracer
unfolding resolve_calloc
calloc found res nmemb size t = do
  t ← resolve_calloc found t
  let t = call (libc_calloc nmemb size) t
  let bytes = mul_long nmemb size
  let t = record t { n_calloc = add_long t.n_calloc 1; n_allocb = add_long t.n_allocb bytes }
  done (say (log_calloc nmemb size res) t)

unfoldable pub realloc : (found : Bool) (res ptr size : ℕ) → Tracer → Outcome Tracer
unfolding resolve_realloc
realloc found res ptr size t = do
  t ← resolve_realloc found t
  let t = call (libc_realloc ptr size) t
  let t = record t { n_realloc = add_long t.n_realloc 1; n_allocb = add_long t.n_allocb size }
  done (say (log_realloc ptr size res) t)

unfoldable pub free : (found : Bool) (ptr : ℕ) → Tracer → Outcome Tracer
unfolding resolve_free
free found ptr t =
    let t = say (log_free ptr) t in
    if ptr == 0 then done t else (do t ← resolve_free found t; done (call (libc_free ptr) t))
