-- ===== src/Kernellab.antt =====
-- kernellab-handout: a kernel module that translates addresses (paddr/dbfs_paddr.c).
pub mod Paddr
