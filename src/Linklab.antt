-- ===== src/Linklab.antt =====
-- linklab-handout: a sorted list of memory blocks (utils/memlist.c) and the three versions of the
-- library that traces calls of malloc, calloc, realloc and free (part1 to part3, memtrace.c).
pub mod MemList
pub mod Tracer
pub mod Part1
pub mod Part2
pub mod Part3
mod Tests
