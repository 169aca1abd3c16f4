-- ===== src/Cachelab/Csim.antt =====
-- cachelab_handout/csim.c: a simulator of a set-associative cache that evicts the least recently
-- used line. `printf` under `-v` is a list of messages; `getopt`, `atoi` and `fscanf` are not
-- modelled: their results, the options and the entries of the trace, are arguments.
pub mod Access
pub mod Address
pub mod Head
pub mod Lru
pub mod Loops
pub mod Spec
pub mod Trace
pub mod Runs
pub mod Main
use sysprog2021s.Prelude.{
  ℕ, zero, suc, ◌+◌, ◌-◌, ◌*◌, ◌/◌, ◌%◌, ◌^◌, Bool, true, false, not, ◌&&◌, ◌||◌, Option, none,
  some, List, [], ◌∷◌, ◌++◌, ltb, ◌==◌, if◌then◌else◌, get_elem?, get_or, set, map,
}
use sysprog2021s.Prelude.Fallible.{◌>>=◌}

-- `PARAM`: the fields s, b, E and S, and the three counters, all `unsigned`.
pub record Param : Type 0 where
  pub s : ℕ
  pub b : ℕ
  pub e : ℕ
  pub sets : ℕ
  pub n_hit : ℕ
  pub n_miss : ℕ
  pub n_evict : ℕ
  pub verbose : Bool

-- `LINE`; any `valid` but 0 counts as set.
pub record Line : Type 0 where
  pub tag : ℕ
  pub valid : ℕ
  pub use_time : ℕ

-- `SET`, with its E lines.
pub record CacheSet : Type 0 where
  pub lines : List Line
  pub use_cnt : ℕ

-- What is printed under `-v`: " hit", " miss", " eviction", and the start and end of an entry.
pub data Message : Type 0 where
  hit miss eviction end_of_entry : Message
  entry : (instr addr size : ℕ) → Message

abbrev pub is_valid : Line → Bool
is_valid l = not (l.valid == 0)

-- `++` of an `unsigned`.
abbrev pub next : ℕ → ℕ
next n = (n + 1) % 2 ^ 32

-- Shifts of a `uint64_t`. `none` is a shift by 64 or more, which C leaves undefined.
unfoldable pub shift_left : ℕ → ℕ → Option ℕ
shift_left a k = if ltb k 64 then some ((a * 2 ^ k) % 2 ^ 64) else none

unfoldable pub shift_right : ℕ → ℕ → Option ℕ
shift_right a k = if ltb k 64 then some (a / 2 ^ k) else none

unfoldable pub tag_of : Param → ℕ → Option ℕ
unfolding shift_right
tag_of param addr = shift_right addr (param.s + param.b)

-- The subtractions of `t` are of `unsigned` numbers, and wrap.
unfoldable pub set_of : Param → ℕ → Option ℕ
unfolding shift_left shift_right
set_of param addr = do
  let t = (64 + 2 ^ 33 - param.s - param.b) % 2 ^ 32
  cleared ← shift_left addr t
  shift_right cleared (t + param.b)

-- What the search loop of `accessCache` leaves: the line that it broke off at, `emptyLine` and
-- `setFull`.
pub record Search : Type 0 where
  pub found : Option ℕ
  pub empty_line : ℕ
  pub set_full : Bool

-- The search loop, from line `ei` on.
unfoldable pub search_lines : (wanted ei empty_line : ℕ) (set_full : Bool) → List Line → Search
search_lines wanted ei empty_line set_full [] = record {
  found = none;
  empty_line = empty_line;
  set_full = set_full;
}
search_lines wanted ei empty_line set_full (l ∷ rest) =
    let lower = if ltb empty_line ei then empty_line else ei in
    let later =
      search_lines wanted (ei + 1) (if is_valid l then empty_line else lower)
        (if is_valid l then set_full else false) rest in
    if is_valid l && l.tag == wanted
    then record { found = some ei; empty_line = empty_line; set_full = set_full }
    else later

-- The loop that looks for the smallest timestamp, from line `ei` on.
unfoldable pub pick_victim : (victim_line least_recent ei : ℕ) → List Line → ℕ
pick_victim victim_line least_recent ei [] = victim_line
pick_victim victim_line least_recent ei (l ∷ rest) =
    let older = ltb l.use_time least_recent in
    pick_victim (if older then ei else victim_line) (if older then l.use_time else least_recent)
      (ei + 1) rest

-- `victimLine` of a set: `lines[0]` is read first, so a set with no line is out of range.
unfoldable pub victim_of : List Line → Option ℕ
victim_of [] = none
victim_of (l ∷ rest) = some (pick_victim 0 l.use_time 1 rest)

-- A write of a line through its index. `none` is an index out of range.
unfoldable pub update_line : ℕ → (Line → Line) → List Line → Option (List Line)
update_line k f [] = none
update_line zero f (l ∷ rest) = some (f l ∷ rest)
update_line (suc k) f (l ∷ rest) = elim (update_line k f rest) [
  | none ↦ none
  | some rest' ↦ some (l ∷ rest')
]

abbrev pub Accessed : Type 0
Accessed = Param × CacheSet × List Message

-- The second half of `accessCache`: a miss, which evicts the line with the smallest timestamp if
-- all lines are valid, and fills the empty line otherwise. `out` was printed before.
unfoldable pub miss_set : (wanted : ℕ) → Search → List Message → Param → CacheSet → Option Accessed
unfolding update_line victim_of pick_victim
miss_set wanted r out param cs =
    let now = next cs.use_cnt in
    let missed = record param { n_miss = next param.n_miss } in
    let out' = if param.verbose then out ++ (miss ∷ []) else out in
    let evicting : Option Accessed = (do
      victim_line ← victim_of cs.lines
      lines ← update_line victim_line (λ l. record l { tag = wanted; use_time = now }) cs.lines
      let out'' = if param.verbose then out' ++ (eviction ∷ []) else out'
      let evicted = record missed { n_evict = next missed.n_evict }
      some (evicted, record { lines = lines; use_cnt = now }, out'')) in
    let fill = λ (l : Line). record l { tag = wanted; valid = 1; use_time = now } in
    let filling : Option Accessed = (do
      lines ← update_line r.empty_line fill cs.lines
      some (missed, record { lines = lines; use_cnt = now }, out')) in
    if r.set_full then evicting else filling

-- The first half on a line that was found, with the test `prevHit < param.nHit` of the counter.
unfoldable pub hit_set : (wanted ei : ℕ) → Search → Param → CacheSet → Option Accessed
unfolding update_line miss_set
hit_set wanted ei r param cs = do
  let now = next cs.use_cnt
  lines ← update_line ei (λ l. record l { use_time = now }) cs.lines
  let param' = record param { n_hit = next param.n_hit }
  let cs' : CacheSet = record { lines = lines; use_cnt = now }
  let out = if param.verbose then hit ∷ [] else []
  if ltb param.n_hit param'.n_hit then some (param', cs', out) else miss_set wanted r out param' cs'

-- `accessCache` on the set of the address.
unfoldable pub access_set : (wanted : ℕ) → Param → CacheSet → Option Accessed
access_set wanted param cs =
    let r = search_lines wanted 0 param.e true cs.lines in
    elim r.found [ none ↦ miss_set wanted r [] param cs | some ei ↦ hit_set wanted ei r param cs ]

abbrev pub Cache : Type 0
Cache = List CacheSet

-- `accessCache`. `none` is an undefined shift or an index out of range.
unfoldable pub access_cache : Cache → Param → (addr : ℕ) → Option (Cache × Param × List Message)
access_cache cache param addr = do
  wanted ← tag_of param addr
  si ← set_of param addr
  cs ← get_elem? cache si
  (param', cs', out) ← access_set wanted param cs
  some (set cache si cs', param', out)

-- An entry of the trace file.
pub record Entry : Type 0 where
  pub instr : ℕ
  pub addr : ℕ
  pub size : ℕ

-- The `switch`: 'M' falls through to the case of 'L' and 'S', and any other instruction accesses
-- nothing.
unfoldable pub switch_instr : Cache → Param → Entry → Option (Cache × Param × List Message)
switch_instr cache param en =
    let once = access_cache cache param en.addr in
    let twice : Option (Cache × Param × List Message) = (do
      (c, p, out) ← once
      (c', p', out') ← access_cache c p en.addr
      some (c', p', out ++ out')) in
    if en.instr == b'M'
    then twice
    else if en.instr == b'L' || en.instr == b'S'
    then once
    else some (cache, param, [])

-- One round of the loop over the trace.
unfoldable pub run_entry : Cache → Param → Entry → Option (Cache × Param × List Message)
run_entry cache param en = do
  let loud = param.verbose && not (en.instr == b'I')
  (c, p, out) ← switch_instr cache param en
  let start = if loud then entry en.instr en.addr en.size ∷ [] else []
  let end = if loud then end_of_entry ∷ [] else []
  some (c, p, start ++ (out ++ end))

unfoldable pub run_trace : Cache → Param → List Entry → Option (Cache × Param × List Message)
run_trace cache param [] = some (cache, param, [])
run_trace cache param (en ∷ rest) = do
  (c, p, out) ← run_entry cache param en
  (c', p', out') ← run_trace c p rest
  some (c', p', out ++ out')

-- A command-line option; `unknown` is what `getopt` answers with '?'.
pub data Flag : Type 0 where
  flag_v unknown : Flag
  flag_s flag_e flag_b : ℕ → Flag
  flag_t : Flag

-- The loop over the options; `none` is `exit(1)`. `1 << s` is an `int`, kept in 32 bits.
unfoldable pub parse_flags : Param → List Flag → Option Param
parse_flags param [] = some param
parse_flags param (flag_v ∷ rest) = parse_flags (record param { verbose = true }) rest
parse_flags param (flag_s n ∷ rest) =
    parse_flags (record param { s = n; sets = 2 ^ n % 2 ^ 32 }) rest
parse_flags param (flag_e n ∷ rest) = parse_flags (record param { e = n }) rest
parse_flags param (flag_b n ∷ rest) = parse_flags (record param { b = n }) rest
parse_flags param (flag_t ∷ rest) = parse_flags param rest
parse_flags param (unknown ∷ rest) = none

-- The lines are not initialised: `memory` is what `malloc` returns for each set.
unfoldable pub build_cache : (memory : ℕ → List Line) (si : ℕ) → (sets : ℕ) → Cache
build_cache memory si zero = []
build_cache memory si (suc n) =
    record { lines = memory si; use_cnt = 0 } ∷ build_cache memory (si + 1) n

-- `main`, up to the summary. What an option does not set keeps the value in `param`.
unfoldable pub main :
    (param : Param) (memory : ℕ → List Line)
    → List Flag
    → List Entry
    → Option (Param × List Message)
main param memory flags entries = do
  param ← parse_flags (record param { verbose = false }) flags
  let param = record param { n_hit = 0; n_miss = 0; n_evict = 0 }
  (cache, param, out) ← run_trace (build_cache memory 0 param.sets) param entries
  some (param, out)
