-- ===== src/Cachelab/Tests.antt =====
-- The theorems about csim.c and trans.c at concrete caches, traces and matrices, and short tests.
use sysprog2021s.Prelude.{
  ℕ, ◌+◌, ◌*◌, ◌/◌, ◌%◌, ◌^◌, ◌<◌, ◌≡◌, refl, false, some, List, [], ◌∷◌, length, ltb, ◌&&◌,
  if◌then◌else◌, arith,
}
use sysprog2021s.Prelude.Fallible.{Ensures}
use sysprog2021s.Cachelab.Csim.{
  Param, Line, CacheSet, Entry, Flag, flag_s, flag_e, flag_b, search_lines, pick_victim, victim_of,
  update_line, miss_set, hit_set, access_set, access_cache, set_of, tag_of, switch_instr, run_entry,
  run_trace, parse_flags, build_cache, main,
}
use sysprog2021s.Cachelab.Csim.Lru.{
  IsLru, last_use, distinct_uses, valid_count, resident, all_valid,
}
use sysprog2021s.Cachelab.Csim.Access.{AfterAccess, access_set-IsLru}
use sysprog2021s.Cachelab.Csim.Address.{address_fields}
use sysprog2021s.Cachelab.Csim.Trace.{policy, accesses, accesses_of}
use sysprog2021s.Cachelab.Csim.Main.{shape_of, reset, main-policy}
use sysprog2021s.Cachelab.Trans.{Matrix, transpose_any, transpose_32}
use sysprog2021s.Cachelab.Trans.Edges.{transpose_any-IsCopied}
use sysprog2021s.Cachelab.Trans.Blockwise.{transpose_32-IsCopiedTo}

abbrev unset : Param
unset = record {
  s = 0;
  b = 0;
  e = 0;
  sets = 0;
  n_hit = 0;
  n_miss = 0;
  n_evict = 0;
  verbose = false;
}

-- Two sets of one line, and blocks of 16 bytes.
abbrev small : Param
small = record unset { s = 1; b = 4; e = 1; sets = 2 }

address_fields_example :
    (set_of small 0x7b ≡ some (0x7b / 2 ^ 4 % 2 ^ 1))
    × (tag_of small 0x7b ≡ some (0x7b / 2 ^ (1 + 4)))
    × (0x7b / 2 ^ 4 % 2 ^ 1 < 2 ^ 1)
address_fields_example = address_fields small 0x7b (omega arith) (omega arith)

abbrev empty_line : Line
empty_line = record { tag = 0; valid = 0; use_time = 0 }

abbrev empty_set : CacheSet
empty_set = record { lines = empty_line ∷ []; use_cnt = 0 }

empty_set-IsLru : IsLru [] empty_set
unfolding last_use resident all_valid distinct_uses valid_count
empty_set-IsLru = record {
  counted = refl;
  holds = record {
    dated = (λ v. ground arith, tt);
    distinct = (λ v. ground arith, tt);
    latest = λ g t r e. absurd (ground arith);
    kept = λ g t r e. absurd (ground arith);
    ranked = λ g t e. absurd (ground arith);
    filled = refl;
  };
}

access_set-IsLru_example :
    Ensures (AfterAccess [] 7 small empty_set.lines) (access_set 7 small empty_set)
access_set-IsLru_example =
    access_set-IsLru [] 7 small empty_set empty_set-IsLru (omega arith) refl (omega arith)

abbrev flags : List Flag
flags = flag_s 1 ∷ flag_e 1 ∷ flag_b 4 ∷ []

-- 'L' misses, 'M' at the same set evicts and then hits, 'I' is skipped.
abbrev entries : List Entry
entries =
    record { instr = b'L'; addr = 0x10; size = 1 }
    ∷ record { instr = b'M'; addr = 0x30; size = 4 }
    ∷ record { instr = b'I'; addr = 0x400; size = 8 }
    ∷ []

abbrev memory : ℕ → List Line
memory si = empty_line ∷ []

main_runs :
    main unset memory flags entries ≡ some (record small { n_hit = 1; n_miss = 2; n_evict = 1 }, [])
unfolding main parse_flags build_cache run_trace run_entry switch_instr access_cache tag_of set_of
    access_set search_lines hit_set miss_set update_line victim_of pick_victim
main_runs = refl

parsed : parse_flags unset flags ≡ some small
unfolding parse_flags
parsed = refl

few : length (accesses entries) < 2 ^ 32
unfolding accesses accesses_of
few = omega arith

main-policy_example :
    Ensures
      (λ (p', out). p' ≡ policy (shape_of small) [] (reset small) (accesses entries))
      (main unset memory flags entries)
main-policy_example =
    main-policy unset small memory flags entries parsed refl (omega arith)
      (λ si. ((refl, tt), refl)) few

abbrev numbered : Matrix
numbered i j = 100 * i + j

abbrev blank : Matrix
blank i j = 0

-- The last element of a matrix of 5 rows and 20 columns.
transpose_any-IsCopied_example :
    transpose_any 20 5 numbered blank 19 4
    ≡ (if ltb 4 5 && ltb 19 20 then numbered 4 19 else blank 19 4)
transpose_any-IsCopied_example = transpose_any-IsCopied 20 5 numbered blank 4 19

-- An element of the diagonal, where the variables hold other values at first.
transpose_32-IsCopiedTo_example :
    (transpose_32 32 numbered (record { target = blank; t0 = 7; t1 = 9 })).target 9 9 ≡ numbered 9 9
transpose_32-IsCopiedTo_example =
    transpose_32-IsCopiedTo numbered 9 9 32 (record { target = blank; t0 = 7; t1 = 9 }) refl
      (omega arith) (omega arith)
