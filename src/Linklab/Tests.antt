-- ===== src/Linklab/Tests.antt =====
-- The theorems about memlist.c and memtrace.c at concrete lists and runs, and short tests.
use sysprog2021s.Prelude.{
  ◌%◌, ◌^◌, ◌+◌, ◌≡◌, refl, inl, inr, true, some, List, [], ◌∷◌, ◌++◌, ◌==◌, if◌then◌else◌, arith,
}
use sysprog2021s.Linklab.MemList.{
  Item, insert, release, alloc, dealloc, search_from, find, new_list,
}
use sysprog2021s.Linklab.MemList.Lookup.{IsSorted, lookup, bumped, dropped}
use sysprog2021s.Linklab.MemList.Live.{live}
use sysprog2021s.Linklab.MemList.Laws.{find-alloc, find-dealloc}
use sysprog2021s.Linklab.Tracer.{
  Tracer, loaded, init, done, track, log_start, log_malloc, log_statistics, log_stop, libc_malloc,
}
use sysprog2021s.Linklab.Part2
use sysprog2021s.Linklab.Part3.{realloc_block, realloc, free_block, free}
use sysprog2021s.Linklab.Part3.Balance.{items, missed_realloc, IsBalanced, Ensures}
use sysprog2021s.Linklab.Part3.Report.{block_lines, with_heading, shown_bytes, average, fini_lem}
use sysprog2021s.Linklab.Part3.Runs.{
  Request, ask_malloc, ask_realloc, ask_free, perform, run, AllServed, refused, refused_all,
  run-IsBalanced,
}
use sysprog2021s.Linklab.Part3.Safety.{SafeSince, perform-SafeSince}

-- A block of 8 bytes that is live and one of 4 that was freed.
abbrev two : List Item
two = record { ptr = 100; size = 8; cnt = 1 } ∷ record { ptr = 200; size = 4; cnt = 0 } ∷ []

find-alloc_example :
    let (i, l) = alloc (some two) 150 16 in
    (i ≡ some (bumped 150 16 (find (some two) 150)))
    × (find l 200 ≡ (if 150 == 200 then i else find (some two) 200))
    × IsSorted (insert 150 16 two).1
find-alloc_example = find-alloc 150 two (omega arith) 16 200

find-dealloc_example :
    let (i, l) = dealloc (some two) 100 in
    (i ≡ dropped (find (some two) 100))
    × (find l 200 ≡ (if 100 == 200 then i else find (some two) 200))
    × IsSorted (release 100 two).1
find-dealloc_example = find-dealloc 100 two (omega arith) 200

-- A block is allocated, grown, freed, and freed again; a second one leaks; and libc refuses 7 bytes.
abbrev requests : List Request
requests =
    ask_malloc 100 8
    ∷ ask_realloc 100 100 20
    ∷ ask_malloc 200 5
    ∷ ask_malloc 0 7
    ∷ ask_free 100
    ∷ ask_free 100
    ∷ []

fresh-IsBalanced : IsBalanced 0 (init loaded)
unfolding live init new_list
fresh-IsBalanced = record { listed = refl; sorted = tt; once = tt; balance = refl }

requests-AllServed : AllServed requests (init loaded)
unfolding perform Part2.malloc realloc realloc_block Part2.realloc_live free free_block track alloc
    insert dealloc release find search_from lookup init new_list
requests-AllServed = (inr refl, (inl refl, (inr refl, (inl refl, (tt, (tt, tt))))))

seven_refused : refused_all requests (init loaded) ≡ 7
unfolding refused_all refused missed_realloc perform Part2.malloc realloc realloc_block
    Part2.realloc_live free free_block track alloc insert dealloc release find search_from init
    new_list
seven_refused = refl

run-IsBalanced_example :
    Ensures (IsBalanced (0 + refused_all requests (init loaded))) (run requests (init loaded))
run-IsBalanced_example = run-IsBalanced requests 0 (init loaded) fresh-IsBalanced requests-AllServed

abbrev one_block : Tracer
one_block = record (init loaded) {
  n_malloc = 1;
  n_allocb = 5;
  mallocp = true;
  list = some (record { ptr = 200; size = 5; cnt = 1 } ∷ []);
  log = log_start ∷ log_malloc 5 200 ∷ [];
  calls = libc_malloc 5 ∷ [];
}

run_one : run (ask_malloc 200 5 ∷ []) (init loaded) ≡ done one_block
unfolding run perform Part2.malloc track alloc insert init new_list
run_one = refl

one_served : AllServed (ask_malloc 200 5 ∷ []) (init loaded)
unfolding lookup init new_list perform Part2.malloc
one_served = (inr refl, tt)

perform-SafeSince_example : Ensures (SafeSince one_block) (perform (ask_free 200) one_block)
perform-SafeSince_example =
    perform-SafeSince (ask_malloc 200 5 ∷ []) one_block (ask_free 200) run_one

fini_lem_example :
    Ensures
      (λ t'.
        (t'.log
          ≡ one_block.log
            ++ (log_statistics 5 (average one_block) 0
                ∷ (with_heading (block_lines (items one_block)) ++ (log_stop ∷ []))))
        × (5
            ≡ (0
                + shown_bytes (block_lines (items one_block))
                + refused_all (ask_malloc 200 5 ∷ []) (init loaded))
              % 2 ^ 64))
      (Part2.fini one_block)
unfolding init
fini_lem_example = fini_lem (ask_malloc 200 5 ∷ []) one_block one_served run_one (omega arith)
