-- ===== src/Linklab/Part3/Report.antt =====
-- The report of `fini`: the statistics, and one line for each block that is still
-- counted as live.
use sysprog2021s.Prelude.{
  ℕ, ◌+◌, ◌/◌, ◌%◌, ◌^◌, ◌≡◌, ◌≢◌, refl, sym, Bool, true, false, List, [], ◌∷◌, ◌++◌, ◌==◌,
  if◌then◌else◌, arith,
}
use mathlib.Core.Path.{subst}
use mathlib.Core.List.{append_assoc, append-nil}
use sysprog2021s.Linklab.MemList.{Item, new_list}
use sysprog2021s.Linklab.MemList.Live.{live, AtMostOnce}
use sysprog2021s.Linklab.Tracer.{
  Tracer, done, trapped, loaded, init, add_long, say, LogEntry, log_block, log_statistics,
  nonfreed_start, log_stop,
}
use sysprog2021s.Linklab.Part2.{report, fini}
use sysprog2021s.Linklab.Part3.Balance.{items, IsBalanced, Ensures}
use sysprog2021s.Linklab.Part3.Runs.{Request, run, AllServed, refused_all, run-IsBalanced}

-- The live blocks, a line each, in the order of their addresses.
unfoldable pub block_lines : List Item → List LogEntry
block_lines [] = []
block_lines (x ∷ xs) =
    if x.cnt == 0 then block_lines xs else log_block x.ptr x.size x.cnt ∷ block_lines xs

-- The heading stands above the first line only.
unfoldable pub with_heading : List LogEntry → List LogEntry
with_heading [] = []
with_heading (e ∷ es) = nonfreed_start ∷ e ∷ es

-- The bytes that a log's lines about blocks show.
unfoldable pub shown_bytes : List LogEntry → ℕ
shown_bytes [] = 0
shown_bytes (log_block p s c ∷ es) = s + shown_bytes es
shown_bytes (_ ∷ es) = shown_bytes es

shown_bytes-block_lines : (xs : List Item) → shown_bytes (block_lines xs) ≡ live xs
unfolding shown_bytes block_lines live
shown_bytes-block_lines [] = refl
shown_bytes-block_lines (x ∷ xs) = ground (arith, shown_bytes-block_lines xs)

abbrev heading : Bool → List LogEntry → List LogEntry
heading true es = with_heading es
heading false es = es

report_lem :
    (first : Bool) (xs : List Item) (t : Tracer)
    → AtMostOnce xs
    → report first xs t ≡ record t { log = t.log ++ heading first (block_lines xs) }
unfolding report block_lines with_heading
report_lem true [] t o = λ i. record t { log = sym (append-nil t.log) i }
report_lem false [] t o = λ i. record t { log = sym (append-nil t.log) i }
report_lem true (x ∷ xs) t o =
    let line : LogEntry = log_block x.ptr x.size x.cnt in
    ground (
      arith,
      report_lem true xs t o.1,
      report_lem false xs (say line (say nonfreed_start t)) o.1,
      append_assoc (t.log ++ (nonfreed_start ∷ [])) (line ∷ []) (block_lines xs),
      append_assoc t.log (nonfreed_start ∷ []) (line ∷ block_lines xs),
    )
report_lem false (x ∷ xs) t o =
    let line : LogEntry = log_block x.ptr x.size x.cnt in
    ground (
      arith,
      report_lem false xs t o.1,
      report_lem false xs (say line t) o.1,
      append_assoc t.log (line ∷ []) (block_lines xs),
    )

-- The average that is reported, where the division does not trap.
abbrev pub average : Tracer → ℕ
average t = t.n_allocb / add_long (add_long t.n_malloc t.n_calloc) t.n_realloc

init-IsBalanced : IsBalanced 0 (init loaded)
unfolding init new_list live
init-IsBalanced = record { listed = refl; sorted = tt; once = tt; balance = refl }

-- Behind any run from the loading of the library in which each answer of libc is NULL, the block
-- that is resized, or a block that the tracer does not count as live, and whose counted calls do
-- not add up to 0 modulo 2^64, `fini` prints the statistics, then a line for each block counted as
-- live under one heading (nothing if there is none), and the end; and the bytes counted as
-- allocated are, modulo 2^64, those counted as freed, the sizes on those lines, and the bytes that
-- libc refused.
pub fini_lem :
    (rs : List Request) (t : Tracer)
    → AllServed rs (init loaded)
    → run rs (init loaded) ≡ done t
    → add_long (add_long t.n_malloc t.n_calloc) t.n_realloc ≢ 0
    → Ensures
        (λ t'.
          (t'.log
            ≡ t.log
              ++ (log_statistics t.n_allocb (average t) t.n_freeb
                  ∷ (with_heading (block_lines (items t)) ++ (log_stop ∷ []))))
          × (t.n_allocb
              ≡ (t.n_freeb + shown_bytes (block_lines (items t)) + refused_all rs (init loaded))
                % 2 ^ 64))
        (fini t)
unfolding fini
fini_lem rs t s e n =
    let b : IsBalanced (0 + refused_all rs (init loaded)) t =
      subst (Ensures (IsBalanced (0 + refused_all rs (init loaded)))) e
        (run-IsBalanced rs 0 (init loaded) init-IsBalanced s) in
    let stats : LogEntry = log_statistics t.n_allocb (average t) t.n_freeb in
    let lines = with_heading (block_lines (items t)) in
    ground (
      arith,
      report_lem true (items t) (say stats t) b.once,
      append_assoc (t.log ++ (stats ∷ [])) lines (log_stop ∷ []),
      append_assoc t.log (stats ∷ []) (lines ++ (log_stop ∷ [])),
      shown_bytes-block_lines (items t),
      b.balance,
    )

-- Of a program whose calls were none, or whose counts add up to 0 modulo 2^64, `fini` divides by
-- zero.
fini_trapped :
    (t : Tracer) → add_long (add_long t.n_malloc t.n_calloc) t.n_realloc ≡ 0 → fini t ≡ trapped
unfolding fini
fini_trapped t n = ground arith
