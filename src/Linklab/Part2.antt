-- ===== src/Linklab/Part2.antt =====
-- linklab-handout/part2/memtrace.c: the calls of part 1, which also track each block in a list.
use sysprog2021s.Prelude.{
  ℕ, ◌^◌, Bool, true, false, ◌&&◌, ◌++◌, none, some, List, [], ◌∷◌, ltb, leb, ◌==◌, if◌then◌else◌,
}
use sysprog2021s.Linklab.MemList.{Item, dealloc, find}
use sysprog2021s.Linklab.Tracer.{
  Tracer, Outcome, done, faulted, ◌>>=◌, add_long, mul_long, say, call, LogEntry, log_malloc,
  log_calloc, log_realloc, log_free, log_stop, log_block, nonfreed_start, libc_malloc, libc_calloc,
  libc_realloc, libc_free, resolve_malloc, resolve_calloc, resolve_realloc, resolve_free, track,
  statistics,
}

-- `cnt > 0` of an `int`.
abbrev pub is_positive : ℕ → Bool
is_positive c = ltb 0 c && ltb c (2 ^ 31)

-- The loop of `fini` over the blocks, with the flag `firstblock`.
unfoldable pub report : (firstblock : Bool) → List Item → Tracer → Tracer
report firstblock [] t = t
report firstblock (cur ∷ rest) t =
    let t' = if firstblock then say nonfreed_start t else t in
    let shown = report false rest (say (log_block cur.ptr cur.size cur.cnt) t') in
    let skipped = report firstblock rest t in if is_positive cur.cnt then shown else skipped

-- The items are given back to libc at the end, which ends the process.
unfoldable pub fini : Tracer → Outcome Tracer
unfolding statistics report
fini t = do
  entry ← statistics t
  let t = say entry t
  elim t.list [ none ↦ faulted | some items ↦ done (say log_stop (report true items t)) ]

unfoldable pub malloc : (found : Bool) (res size : ℕ) → Tracer → Outcome Tracer
unfolding resolve_malloc track
malloc found res size t = do
  t ← resolve_malloc found t
  let t = call (libc_malloc size) t
  let t = record t { n_malloc = add_long t.n_malloc 1; n_allocb = add_long t.n_allocb size }
  done (say (log_malloc size res) (track res size t))

unfoldable pub calloc : (found : Bool) (res nmemb size : ℕ) → Tracer → Outcome Tracer
unfolding resolve_calloc track
calloc found res nmemb size t = do
  t ← resolve_calloc found t
  let t = call (libc_calloc nmemb size) t
  let bytes = mul_long nmemb size
  let t = record t { n_calloc = add_long t.n_calloc 1; n_allocb = add_long t.n_allocb bytes }
  done (say (log_calloc nmemb size res) (track res bytes t))

-- The branches of `realloc`, with `asks` the pointer handed on to libc.
abbrev pub ask : (asks ptr size res : ℕ) → Tracer → Tracer
ask asks ptr size res t = say (log_realloc ptr size res) (call (libc_realloc asks size) t)

-- `if(ptr == NULL)`: a size of 0 counts its bytes and no call.
unfoldable pub realloc_null : (res size : ℕ) → Tracer → Tracer
unfolding track
realloc_null res size t =
    let t' = ask 0 0 size res t in
    let t'' = record t' { n_allocb = add_long t'.n_allocb size } in
    if ltb 0 size then track res size (record t'' { n_realloc = add_long t''.n_realloc 1 }) else t''

-- `if(i == NULL || i->cnt == 0)`, with the message that part 3 adds (or none).
unfoldable pub realloc_new : List LogEntry → (res ptr size : ℕ) → Tracer → Tracer
unfolding track
realloc_new complaint res ptr size t =
    let t' = ask 0 ptr size res t in
    let t'' = record t' { log = t'.log ++ complaint } in
    track res size
      (record t'' { n_allocb = add_long t''.n_allocb size; n_realloc = add_long t''.n_realloc 1 })

unfoldable pub realloc_live : (res ptr size : ℕ) → Item → Tracer → Tracer
unfolding track
realloc_live res ptr size i t =
    let t' = ask ptr ptr size res t in
    let freed = add_long t'.n_freeb i.size in
    if size == 0
    then record t' { n_freeb = freed; list = (dealloc t'.list ptr).1 }
    else if leb size i.size
    then t'
    else track res size (record t' {
      n_freeb = freed;
      n_allocb = add_long t'.n_allocb size;
      n_realloc = add_long t'.n_realloc 1;
      list = (dealloc t'.list ptr).1;
    })

unfoldable pub realloc : (found : Bool) (res ptr size : ℕ) → Tracer → Outcome Tracer
unfolding resolve_realloc realloc_null realloc_new realloc_live
realloc found res ptr size t = do
  t ← resolve_realloc found t
  done (
      if ptr == 0 then realloc_null res size t else elim (find t.list ptr) [
        | none ↦ realloc_new [] res ptr size t
        | some i ↦
            if i.cnt == 0 then realloc_new [] res ptr size t else realloc_live res ptr size i t
      ])

-- `free` adds the size of a live block, but releases whatever block it is given.
unfoldable pub free : (found : Bool) (ptr : ℕ) → Tracer → Outcome Tracer
unfolding resolve_free
free found ptr t = do
  t ← resolve_free found (say (log_free ptr) t)
  let counted : Tracer = elim (find t.list ptr) [
    | none ↦ t
    | some i ↦ if is_positive i.cnt then record t { n_freeb = add_long t.n_freeb i.size } else t
  ]
  done (
      if ptr == 0
      then t
      else call (libc_free ptr) (record counted { list = (dealloc counted.list ptr).1 }))
