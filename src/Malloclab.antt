-- ===== src/Malloclab.antt =====
-- malloclab-handout/src: the memory system that the allocators run on (memlib.c), and the checks
-- that the test driver makes of their blocks (mdriver.c).
pub mod Memlib
pub mod Ranges
pub mod Words
pub mod Blocks
pub mod Live
pub mod Places
pub mod Implicit
pub mod Explicit
mod Tests
