-- ===== src/Kernellab/Paddr/Tests.antt =====
-- The theorem about dbfs_paddr.c at a concrete packet, and a short test.
use sysprog2021s.Prelude.{
  ℕ, ◌+◌, ◌%◌, ◌^◌, ◌≡◌, ◌≢◌, refl, true, false, List, [], ◌∷◌, ◌++◌, ◌==◌, if◌then◌else◌, arith,
}
use sysprog2021s.Kernellab.Paddr.{
  Kernel, einval, copied, packet, add_bytes, pid_of, walk, read_output,
}
use sysprog2021s.Kernellab.Paddr.Packets.{address_bytes, whole, read_output-whole}

-- One process, 258, whose pages are all mapped to the page at 0x1234567000, with flags.
abbrev kernel : Kernel
kernel = record {
  pid_task = λ pid. if pid == 258 then 4096 else 0;
  mm = λ task. task + 8;
  pgd_offset = λ table vaddr. table + 16;
  p4d_offset = λ table vaddr. table + 16;
  pud_offset = λ table vaddr. table + 16;
  pmd_offset = λ table vaddr. table + 16;
  pte_offset_kernel = λ table vaddr. table + 16;
  pgd_none = λ e. false;
  pgd_bad = λ e. false;
  p4d_none = λ e. false;
  p4d_bad = λ e. false;
  pud_none = λ e. false;
  pud_bad = λ e. false;
  pmd_none = λ e. false;
  pmd_bad = λ e. false;
  pte_none = λ e. false;
  pte_present = λ e. true;
  pte_val = λ e. 78187491328 + 103;
  page_size = 4096;
}

-- The process 258 asks for the virtual address 0xabc.
abbrev front : List ℕ
front = 2 ∷ 1 ∷ 0 ∷ 0 ∷ 0 ∷ 0 ∷ 0 ∷ 0 ∷ 188 ∷ 10 ∷ 0 ∷ 0 ∷ 0 ∷ 0 ∷ 0 ∷ 0 ∷ []

abbrev rest : List ℕ
rest = 0 ∷ 0 ∷ 0 ∷ []

abbrev user : List ℕ
user = whole front rest 0 0 0 0 0

exists : kernel.pid_task (pid_of (packet 24 user)) ≢ 0
unfolding add_bytes packet
exists = omega arith

read_output-whole_example :
    (read_output kernel user 24 true true
      ≡ copied (front ++ (address_bytes (78187491328 + 2748) ++ rest)))
    × (add_bytes 0 (address_bytes (78187491328 + 2748)) ≡ (78187491328 + 2748) % 2 ^ 40)
unfolding add_bytes packet walk
read_output-whole_example =
    read_output-whole kernel front rest 0 0 0 0 0 refl (omega arith) exists refl

no_process : read_output kernel (0 ∷ user) 25 true true ≡ einval
unfolding read_output add_bytes packet walk
no_process = refl
