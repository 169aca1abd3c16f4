-- ===== src/Linklab/Tracer.antt =====
-- What the three versions of linklab-handout/part*/memtrace.c have in common: their global
-- variables, the lines that utils/memlog.h prints, and the lookup of libc's functions.
-- libc is not modelled: the pointer that it returns is an argument `res` of each call, and
-- whether `dlsym` finds the function is an argument `found`.
use sysprog2021s.Prelude.{
  ℕ, ◌+◌, ◌*◌, ◌/◌, ◌%◌, ◌^◌, Bool, true, false, Option, none, List, [], ◌∷◌, ◌++◌, ◌==◌,
  if◌then◌else◌,
}
use sysprog2021s.Linklab.MemList.{Item, alloc, new_list}

-- The messages of memlog.h.
pub data LogEntry : Type 0 where
  log_start log_stop nonfreed_start double_free ill_free : LogEntry
  log_malloc : (size res : ℕ) → LogEntry
  log_calloc : (nmemb size res : ℕ) → LogEntry
  log_realloc : (ptr size res : ℕ) → LogEntry
  log_free : (ptr : ℕ) → LogEntry
  log_statistics : (alloc_total alloc_avg free_total : ℕ) → LogEntry
  log_block : (ptr size cnt : ℕ) → LogEntry

-- A call of one of libc's own functions.
pub data LibcCall : Type 0 where
  libc_malloc : (size : ℕ) → LibcCall
  libc_calloc : (nmemb size : ℕ) → LibcCall
  libc_realloc : (ptr size : ℕ) → LibcCall
  libc_free : (ptr : ℕ) → LibcCall

-- The global variables, with the messages and the calls of libc so far. Of a function pointer
-- the model keeps whether it is set.
pub record Tracer : Type 0 where
  pub n_malloc : ℕ
  pub n_calloc : ℕ
  pub n_realloc : ℕ
  pub n_allocb : ℕ
  pub n_freeb : ℕ
  pub list : Option (List Item)
  pub mallocp : Bool
  pub freep : Bool
  pub callocp : Bool
  pub reallocp : Bool
  pub log : List LogEntry
  pub calls : List LibcCall

-- `exited` is `exit(1)` after a failed `dlsym`, `trapped` an integer division by zero, and
-- `faulted` a read through NULL.
pub data Outcome {ℓ} (A : Type ℓ) : Type ℓ where
  done : A → Outcome A
  exited : Outcome A
  trapped : Outcome A
  faulted : Outcome A

infixl 5 ◌>>=◌
abbrev pub ◌>>=◌ {ℓ κ} : {A : Type ℓ} {B : Type κ} → Outcome A → (A → Outcome B) → Outcome B
done a >>= f = f a
exited >>= f = exited
trapped >>= f = trapped
faulted >>= f = faulted

-- `unsigned long` arithmetic.
abbrev pub add_long : ℕ → ℕ → ℕ
add_long a b = (a + b) % 2 ^ 64

abbrev pub mul_long : ℕ → ℕ → ℕ
mul_long a b = (a * b) % 2 ^ 64

abbrev pub say : LogEntry → Tracer → Tracer
say e t = record t { log = t.log ++ (e ∷ []) }

abbrev pub call : LibcCall → Tracer → Tracer
call c t = record t { calls = t.calls ++ (c ∷ []) }

-- `if(mallocp == NULL){ mallocp = dlsym(...); if(error) exit(1); }`, and so for the other three.
unfoldable pub resolve_malloc : Bool → Tracer → Outcome Tracer
resolve_malloc found t =
    if t.mallocp then done t else if found then done (record t { mallocp = true }) else exited

unfoldable pub resolve_calloc : Bool → Tracer → Outcome Tracer
resolve_calloc found t =
    if t.callocp then done t else if found then done (record t { callocp = true }) else exited

unfoldable pub resolve_realloc : Bool → Tracer → Outcome Tracer
resolve_realloc found t =
    if t.reallocp then done t else if found then done (record t { reallocp = true }) else exited

unfoldable pub resolve_free : Bool → Tracer → Outcome Tracer
resolve_free found t =
    if t.freep then done t else if found then done (record t { freep = true }) else exited

-- `if(res != NULL) alloc(list, res, size);`
unfoldable pub track : (res size : ℕ) → Tracer → Tracer
track res size t = if res == 0 then t else record t { list = (alloc t.list res size).1 }

-- The values that the globals start with.
abbrev pub loaded : Tracer
loaded = record {
  n_malloc = 0;
  n_calloc = 0;
  n_realloc = 0;
  n_allocb = 0;
  n_freeb = 0;
  list = none;
  mallocp = false;
  freep = false;
  callocp = false;
  reallocp = false;
  log = [];
  calls = [];
}

-- `init`, which is the same in the three parts.
unfoldable pub init : Tracer → Tracer
unfolding new_list
init t = record (say log_start t) { list = new_list }

-- The division that `fini` computes for LOG_STATISTICS. It traps when no call was counted.
unfoldable pub statistics : Tracer → Outcome LogEntry
statistics t =
    let n = add_long (add_long t.n_malloc t.n_calloc) t.n_realloc in
    if n == 0 then trapped else done (log_statistics t.n_allocb (t.n_allocb / n) t.n_freeb)
