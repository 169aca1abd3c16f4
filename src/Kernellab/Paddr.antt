-- ===== src/Kernellab/Paddr.antt =====
-- kernellab-handout/paddr/dbfs_paddr.c: a process reads a debugfs file with a packet in its buffer,
-- and gets the packet back with the physical address of a virtual one. The kernel is a parameter.
pub mod Packets
mod Tests
use sysprog2021s.Prelude.{
  ℕ, zero, suc, ◌+◌, ◌-◌, ◌*◌, ◌/◌, ◌%◌, ◌^◌, Bool, true, false, ◌||◌, not, List, [], ◌∷◌, ◌++◌,
  ltb, ◌==◌, if◌then◌else◌, length, set, take, drop, replicate,
}

-- Tasks, address spaces and entries of page tables by their addresses, and what the kernel's
-- functions answer; the tests and `pte_val` read the entry.
pub record Kernel : Type 0 where
  pub pid_task : (pid : ℕ) → ℕ
  pub mm : (task : ℕ) → ℕ
  pub pgd_offset : (table vaddr : ℕ) → ℕ
  pub p4d_offset : (table vaddr : ℕ) → ℕ
  pub pud_offset : (table vaddr : ℕ) → ℕ
  pub pmd_offset : (table vaddr : ℕ) → ℕ
  pub pte_offset_kernel : (table vaddr : ℕ) → ℕ
  pub pgd_none : (entry : ℕ) → Bool
  pub pgd_bad : (entry : ℕ) → Bool
  pub p4d_none : (entry : ℕ) → Bool
  pub p4d_bad : (entry : ℕ) → Bool
  pub pud_none : (entry : ℕ) → Bool
  pub pud_bad : (entry : ℕ) → Bool
  pub pmd_none : (entry : ℕ) → Bool
  pub pmd_bad : (entry : ℕ) → Bool
  pub pte_none : (entry : ℕ) → Bool
  pub pte_present : (entry : ℕ) → Bool
  pub pte_val : (entry : ℕ) → ℕ
  pub page_size : ℕ

abbrev pub max_len : ℕ
max_len = 64

-- An error, or the bytes that are copied back to the user, as many as the result says.
pub data Result : Type 0 where
  efault einval : Result
  copied : (bytes : List ℕ) → Result

-- `buf` behind `copy_from_user`.
unfoldable pub packet : (len : ℕ) (user : List ℕ) → List ℕ
packet len user = take len user ++ replicate (max_len - len) 0

-- The loops that add up shifted bytes.
unfoldable pub add_bytes : (i : ℕ) → List ℕ → ℕ
add_bytes i [] = 0
add_bytes i (b ∷ bs) = b * 2 ^ (8 * i) + add_bytes (suc i) bs

abbrev pub pid_of : List ℕ → ℕ
pid_of buf = add_bytes 0 (take 4 buf) % 2 ^ 32

abbrev pub vaddr_of : List ℕ → ℕ
vaddr_of buf = add_bytes 0 (take 6 (drop 8 buf)) % 2 ^ 64

-- `(pte_val(*ptep) & PAGE_MASK) | (vaddr & ~PAGE_MASK)`
abbrev pub paddr_of : (page_size pte vaddr : ℕ) → ℕ
paddr_of page_size pte vaddr = pte - pte % page_size + vaddr % page_size

-- The loop that stores `n` bytes of the address from the `i`-th on.
unfoldable pub store_bytes : (n i paddr : ℕ) → List ℕ → List ℕ
store_bytes zero i paddr buf = buf
store_bytes (suc n) i paddr buf =
    store_bytes n (suc i) paddr (set buf (16 + i) (paddr / 2 ^ (8 * i) % 256))

-- The walk through the page tables: its entry, or 0 where one is missing.
unfoldable pub walk : Kernel → (mm vaddr : ℕ) → Bool × ℕ
walk k mm vaddr =
    let pgdp = k.pgd_offset mm vaddr in
    let p4dp = k.p4d_offset pgdp vaddr in
    let pudp = k.pud_offset p4dp vaddr in
    let pmdp = k.pmd_offset pudp vaddr in
    let ptep = k.pte_offset_kernel pmdp vaddr in
    if k.pgd_none pgdp || k.pgd_bad pgdp
    then (false, 0)
    else if k.p4d_none p4dp || k.p4d_bad p4dp
    then (false, 0)
    else if k.pud_none pudp || k.pud_bad pudp
    then (false, 0)
    else if k.pmd_none pmdp || k.pmd_bad pmdp
    then (false, 0)
    else if k.pte_none ptep || not (k.pte_present ptep)
    then (false, 0)
    else (true, ptep)

-- `copies_in` and `copies_out` say whether the user's memory can be read and written.
unfoldable pub read_output :
    Kernel → (user : List ℕ) (length : ℕ) (copies_in copies_out : Bool) → Result
read_output k user length copies_in copies_out =
    let len = if ltb length max_len then length else max_len in
    let buf = packet len user in
    let task = k.pid_task (pid_of buf) in
    let vaddr = vaddr_of buf in
    let (mapped, ptep) = walk k (k.mm task) vaddr in
    let paddr = paddr_of k.page_size (k.pte_val ptep) vaddr in
    if not copies_in
    then efault
    else if task == 0
    then einval
    else if not mapped
    then einval
    else if copies_out
    then copied (take len (store_bytes 5 0 paddr buf))
    else efault
