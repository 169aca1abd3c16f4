-- ===== src/Cachelab/Csim/Main.antt =====
-- `main` of csim.c: from lines that are all invalid, the summary is that of the policy.
use sysprog2021s.Prelude.{
  ℕ, zero, suc, ◌+◌, ◌^◌, ◌<◌, ◌≡◌, refl, false, some, List, [], ◌∷◌, length, arith,
}
use sysprog2021s.Prelude.Fallible.{Ensures, Ensures-bind}
use sysprog2021s.Cachelab.Csim.{Param, Line, Entry, Flag, run_trace, parse_flags, build_cache, main}
use sysprog2021s.Cachelab.Csim.Lru.{
  last_use, distinct_uses, valid_count, Dated, Distinct, HoldsLatest,
}
use sysprog2021s.Cachelab.Csim.Trace.{
  Geometry, IsUsable, history, policy, accesses, AllLru, Simulates,
}
use sysprog2021s.Cachelab.Csim.Runs.{Follows, run_trace-Follows}

-- Lines as `calloc` would return them.
abbrev pub AllInvalid : List Line → Type 0
AllInvalid [] = Unit {0}
AllInvalid (l ∷ ls) = (l.valid ≡ 0) × AllInvalid ls

Dated-invalid : (h : List ℕ) (ls : List Line) → AllInvalid ls → Dated h ls
Dated-invalid h [] inv = tt
Dated-invalid h (l ∷ ls) inv = (λ v. ground arith, Dated-invalid h ls inv.1)

Distinct-invalid : (ls : List Line) → AllInvalid ls → Distinct ls
Distinct-invalid [] inv = tt
Distinct-invalid (l ∷ ls) inv = (λ v. ground arith, Distinct-invalid ls inv.1)

valid_count-invalid : (ls : List Line) → AllInvalid ls → valid_count ls ≡ 0
unfolding valid_count
valid_count-invalid [] inv = refl
valid_count-invalid (l ∷ ls) inv = ground (arith, valid_count-invalid ls)

AllInvalid-HoldsLatest : (ls : List Line) → AllInvalid ls → HoldsLatest [] ls
unfolding last_use distinct_uses
AllInvalid-HoldsLatest ls inv = record {
  dated = Dated-invalid [] ls inv;
  distinct = Distinct-invalid ls inv;
  latest = λ g t r e. absurd (ground arith);
  kept = λ g t r e. absurd (ground arith);
  ranked = λ g t e. absurd (ground arith);
  filled = omega (arith, valid_count-invalid ls inv);
}

-- What the theorems ask of the memory of the lines: E of them for each set, with no valid bit.
abbrev pub IsCleared : Geometry → (ℕ → List Line) → Type 0
IsCleared q memory = (si : ℕ) → AllInvalid (memory si) × (length (memory si) ≡ q.e)

module _ (q : Geometry) (memory : ℕ → List Line) (cleared : IsCleared q memory) where
  build_cache-AllLru : (si n : ℕ) → AllLru q [] si (build_cache memory si n)
  unfolding build_cache history
  build_cache-AllLru si zero = tt
  build_cache-AllLru si (suc n) = (
    record { counted = refl; holds = AllInvalid-HoldsLatest (memory si) (cleared si).0 },
    (cleared si).1,
    build_cache-AllLru (si + 1) n,
  )

  length-build_cache : (si n : ℕ) → length (build_cache memory si n) ≡ n
  unfolding build_cache
  length-build_cache si zero = refl
  length-build_cache si (suc n) = omega (arith, length-build_cache (si + 1) n)

abbrev pub shape_of : Param → Geometry
shape_of p = record { s = p.s; b = p.b; e = p.e }

abbrev pub reset : Param → Param
reset p = record p { n_hit = 0; n_miss = 0; n_evict = 0 }

-- With options that make a usable cache, lines that start invalid and fewer than 2^32 accesses,
-- the simulator runs to its end, and prints the hits, misses and evictions that the
-- least-recently-used policy counts for the accesses of the trace, from the trace alone.
pub main-policy :
    (param p : Param) (memory : ℕ → List Line) (flags : List Flag) (entries : List Entry)
    → parse_flags (record param { verbose = false }) flags ≡ some p
    → p.sets ≡ 2 ^ p.s
    → IsUsable (shape_of p)
    → IsCleared (shape_of p) memory
    → length (accesses entries) < 2 ^ 32
    → Ensures
        (λ (p', out). p' ≡ policy (shape_of p) [] (reset p) (accesses entries))
        (main param memory flags entries)
unfolding main
main-policy param p memory flags entries parsed sets usable cleared room =
    let q = shape_of p in
    let start : Simulates q [] (build_cache memory 0 p.sets) (reset p) = record {
      shape = record { set_bits = refl; block_bits = refl; lines_per_set = refl };
      sets = omega (arith, sets, length-build_cache q memory cleared 0 p.sets);
      all = build_cache-AllLru q memory cleared 0 p.sets;
      bounded = omega arith;
      evicted = omega arith;
    } in
    rw parsed (
      Ensures-bind (Follows q [] (reset p) (accesses entries))
        (λ (p', out). p' ≡ policy q [] (reset p) (accesses entries))
        (run_trace (build_cache memory 0 p.sets) (reset p) entries) _
        (run_trace-Follows q usable [] (build_cache memory 0 p.sets) (reset p) entries start
          (omega arith))
        λ (c', p', out) f. f.1)
