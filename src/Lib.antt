-- ===== src/Lib.antt =====
-- Models and proofs about the programs of this repository, which are independent of each other.
--
-- Cachelab: cachelab_handout/csim.c, a cache simulator. `Cachelab.Csim` has its two structs, and
--   `accessCache` as `access_cache`, cut into the search (`search_lines`), the hit, the miss and
--   the choice of a victim (`pick_victim`); `main` reads flags and entries from lists. Its children
--   define an LRU cache on the history of accesses alone and show that the simulator agrees.
--   Counters and timestamps are 32-bit and wrap. A shift by 64 or more, and an index out of range,
--   is `none`. The memory that `malloc` gives for the lines is an argument of `main`.
--   `Cachelab.Trans` is `transpose_submit` of trans.c, with a function for each of its loops, and
--   `is_transpose`; the rounds of a loop are counted ahead.
-- Kernellab: kernellab-handout/paddr/dbfs_paddr.c, a kernel module that translates a virtual
--   address. `Paddr` is `read_output`; the kernel's functions are the fields of a parameter.
-- Linklab: linklab-handout, a library that traces malloc, calloc, realloc and free. `MemList` is
--   the sorted list of utils/memlist.c, without its dummy head; `Tracer` has the variables of
--   memtrace.c, the log and the calls of libc; `Part1`, `Part2` and `Part3` have the functions of
--   the three versions. The answers of `dlsym` and of libc are arguments. `Part3.Runs` and
--   `Part3.Safety` run a program's requests in order, each with libc's answer; live is what the
--   tracer counts as live, which is not what libc holds once libc has moved a block to shrink it. Sums of bytes wrap at
--   2^64 and reference counts at 2^32. A division by zero is the outcome `trapped`, and a failed
--   `dlsym` ends the process.
-- Malloclab: malloclab-handout, built for 32 bits. `Memlib` is src/memlib.c, a heap with a break;
--   `Ranges` is the list of address ranges by which src/mdriver.c checks the blocks of an
--   allocator, and `Ranges.Runs` lets the heap grow while the driver works. `Words` has the macros
--   of the allocators on a memory of words; `Implicit` is mm_implicit.c and `Explicit` is src/mm.c,
--   with a function for each of theirs (`mm_init`, `mm_malloc`, `mm_free`, `mm_realloc`,
--   `extend_heap`, `find_fit`, `place`, `coalesce`, `set_root`, `cut_out`), cut where an if of the
--   source has long branches. Both stand on `Memlib`. `Blocks`, `Places` and `Live` describe a heap
--   by its blocks, by where they lie, and by the map of its live blocks alone. Below `Explicit`,
--   `States` has the invariant of blocks and list, `Hands` the one while a free block is not in the
--   list, and the others carry them through the functions: `Unlink` and `States` through `cut_out`,
--   `Roots` `set_root`, `Stamps` the headers, `Coalesced`, `Backward` and `Joins` `coalesce`,
--   `Windows`, `Divides` and `Placements` `place`, `Extensions` and `Grants` `extend_heap`, and
--   `Opens`, `Resizes`, `InPlace`, `Moves` and `Choices` the cases of `mm_realloc`. A walk
--   over the blocks has the size of the heap in bytes as fuel, and there are fewer blocks than
--   bytes, and no more entries in the list than blocks. Addresses and sizes wrap at 2^32, an `int` is given by its bits, and a well-formed heap ends below 2^31; only
--   `Memlib.Areas` speaks of `mem_sbrk` for other heaps too.
-- Proxylab: proxylab-handout, a caching web proxy. `Cache` is cache.c, with its nodes in a store
--   from addresses, and its functions as they work under the lock; an access of NULL or of freed
--   memory is `faulted`. The loops of `cache_add` and `cache_lookup` have fuel, and `running` is a
--   loop that used it up: `Cache.Search` says how much a list without a cycle needs. `Text` has
--   the C library's functions on text, and `Proxy` is `run_thread` of proxy.c, which
--   splits a request, builds the one for the server and collects the reply; what the connections deliver and what `cache_lookup` answers are arguments, and a
--   write past the end of a local array is `none`.
-- Shlab: shlab-handout/tsh.c, a shell with job control. `Jobs` is the job list and its helper
--   routines (`addjob`, `deletejob`, `fgpid`, ...); `Parse` is `parseline`, whose fuel is the
--   length of the line, since each round takes at least one byte; `Shell` has `eval`, `do_bgfg`,
--   `waitfg` and the signal handlers in the pieces between which SIGCHLD may be delivered, and
--   `Shell.Steps` is the step relation over these pieces and the handler. The handlers of SIGINT and
--   SIGTSTP take the state that `fgpid` sees and the one that `Kill` finds, since SIGCHLD is not
--   blocked between them. What `fork` and `waitpid` answer are arguments, and `strcmp` is a
--   parameter.
-- Prelude: names of the libraries, Boolean tests, and lemmas that the parts share.
--
-- Not modelled: printing and reading of files; the child's side of `fork`; the exits of the
-- wrappers when a system call fails; `free_list` and `dump_list`; `mm_check`, which prints; the
-- earlier and copied allocators (the other malloclab-handout/mm*.c) and the rest of their test
-- driver; the proxy's main and its threads side by side; proxylab-handout/csapp.c and the timers
-- in malloclab-handout/src, copies of a textbook's libraries; kernellab-handout/ptree and the
-- set-up of the other kernel module; and the test programs and drivers.
pub mod Prelude
pub mod Cachelab
pub mod Linklab
pub mod Malloclab
pub mod Proxylab
pub mod Kernellab
pub mod Shlab
