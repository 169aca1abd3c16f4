-- ===== src/Linklab/Part3.antt =====
-- linklab-handout/part3/memtrace.c: part 2, which also refuses illegal and double frees. `fini`,
-- `malloc` and `calloc` have the text of part 2.
pub mod Balance
pub mod Report
pub mod Runs
pub mod Safety
use sysprog2021s.Prelude.{ℕ, Bool, none, some, [], ◌∷◌, ◌==◌, if◌then◌else◌}
use sysprog2021s.Linklab.MemList.{dealloc, find}
use sysprog2021s.Linklab.Tracer.{
  Tracer, Outcome, done, ◌>>=◌, add_long, say, call, log_free, ill_free, double_free, libc_free,
  resolve_realloc, resolve_free,
}
use sysprog2021s.Linklab.Part2.{realloc_null, realloc_new, realloc_live}

-- The body of `realloc` behind the lookup of libc's function.
unfoldable pub realloc_block : (res ptr size : ℕ) → Tracer → Tracer
realloc_block res ptr size t =
    if ptr == 0 then realloc_null res size t else elim (find t.list ptr) [
      | none ↦ realloc_new (ill_free ∷ []) res ptr size t
      | some i ↦
          if i.cnt == 0
          then realloc_new (double_free ∷ []) res ptr size t
          else realloc_live res ptr size i t
    ]

unfoldable pub realloc : (found : Bool) (res ptr size : ℕ) → Tracer → Outcome Tracer
unfolding resolve_realloc
realloc found res ptr size t = do t ← resolve_realloc found t; done (realloc_block res ptr size t)

-- The body of `free` behind the test for NULL.
unfoldable pub free_block : (ptr : ℕ) → Tracer → Tracer
free_block ptr t = elim (find t.list ptr) [
  | none ↦ say ill_free t
  | some i ↦
      if i.cnt == 0
      then say double_free t
      else call (libc_free ptr)
          (record t { n_freeb = add_long t.n_freeb i.size; list = (dealloc t.list ptr).1 })
]

unfoldable pub free : (found : Bool) (ptr : ℕ) → Tracer → Outcome Tracer
unfolding resolve_free
free found ptr t = do
  t ← resolve_free found (say (log_free ptr) t)
  done (if ptr == 0 then t else free_block ptr t)
