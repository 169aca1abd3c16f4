-- ===== src/Cachelab.antt =====
-- cachelab_handout: the cache simulator (csim.c) and the matrix transpose (trans.c).
pub mod Csim
pub mod Trans
mod Tests
