-- ===== src/Kernellab/Paddr/Packets.antt =====
-- The packets of kernellab-handout/paddr/dbfs_paddr.c.
use mathlib.Core.List.{append_assoc, append-nil}
use sysprog2021s.Prelude.{
  ℕ, zero, suc, ◌+◌, ◌-◌, ◌/◌, ◌%◌, ◌^◌, ◌≤◌, ◌≡◌, ◌≢◌, refl, sym, ap, ◌∙◌, true, false, List, [],
  ◌∷◌, ◌++◌, ltb, ◌==◌, if◌then◌else◌, length, set, take, replicate, length-append, arith,
}
use sysprog2021s.Kernellab.Paddr.{
  Kernel, copied, max_len, packet, add_bytes, pid_of, vaddr_of, paddr_of, store_bytes, walk,
  read_output,
}

-- The five bytes of an address, the lowest first.
abbrev pub address_bytes : (paddr : ℕ) → List ℕ
address_bytes paddr =
    paddr % 256
    ∷ paddr / 2 ^ 8 % 256
    ∷ paddr / 2 ^ 16 % 256
    ∷ paddr / 2 ^ 24 % 256
    ∷ paddr / 2 ^ 32 % 256
    ∷ []

add_bytes-address_bytes : (paddr : ℕ) → add_bytes 0 (address_bytes paddr) ≡ paddr % 2 ^ 40
unfolding add_bytes
add_bytes-address_bytes paddr = omega arith

set-append :
    (xs ys : List ℕ) (i k v : ℕ) → length xs + i ≡ k → set (xs ++ ys) k v ≡ xs ++ set ys i v
set-append [] ys i k v e = ground arith
set-append (x ∷ xs) ys i zero v e = absurd (omega arith)
set-append (x ∷ xs) ys i (suc k) v e = ap (◌∷◌ x) (set-append xs ys i k v (omega arith))

store_bytes-append :
    (front rest : List ℕ) (a b c d e paddr : ℕ)
    → length front ≡ 16
    → store_bytes 5 0 paddr (front ++ (a ∷ b ∷ c ∷ d ∷ e ∷ rest))
      ≡ front ++ (address_bytes paddr ++ rest)
unfolding store_bytes
store_bytes-append front rest a b c d e paddr size =
    let lowest : paddr / 1 % 256 ≡ paddr % 256 = omega arith in
    rw
      (
        lowest,
        set-append front (a ∷ b ∷ c ∷ d ∷ e ∷ rest) 0 16 (paddr % 256) (omega arith),
        set-append front (paddr % 256 ∷ b ∷ c ∷ d ∷ e ∷ rest) 1 17 (paddr / 256 % 256)
            (omega arith),
        set-append front (paddr % 256 ∷ paddr / 256 % 256 ∷ c ∷ d ∷ e ∷ rest) 2 18
            (paddr / 65536 % 256) (omega arith),
        set-append front (paddr % 256 ∷ paddr / 256 % 256 ∷ paddr / 65536 % 256 ∷ d ∷ e ∷ rest) 3 19
            (paddr / 16777216 % 256) (omega arith),
        set-append front
            (paddr % 256
              ∷ paddr / 256 % 256
              ∷ paddr / 65536 % 256
              ∷ paddr / 16777216 % 256
              ∷ e
              ∷ rest)
            4 20 (paddr / 4294967296 % 256) (omega arith),
      )
      refl

take-length : (xs ys : List ℕ) → take (length xs) (xs ++ ys) ≡ xs
take-length [] ys = refl
take-length (x ∷ xs) ys = ap (◌∷◌ x) (take-length xs ys)

-- A packet of at least 21 and at most 64 bytes.
abbrev pub whole : (front rest : List ℕ) (a b c d e : ℕ) → List ℕ
whole front rest a b c d e = front ++ (a ∷ b ∷ c ∷ d ∷ e ∷ rest)

stored-take :
    (front rest zeros : List ℕ) (a b c d e paddr : ℕ)
    → length front ≡ 16
    → take
        (length (whole front rest a b c d e))
        (store_bytes 5 0 paddr (whole front rest a b c d e ++ zeros))
      ≡ front ++ (address_bytes paddr ++ rest)
stored-take front rest zeros a b c d e paddr size =
    let bytes = address_bytes paddr in
    let before = append_assoc front (a ∷ b ∷ c ∷ d ∷ e ∷ rest) zeros in
    let after = append_assoc front (bytes ++ rest) zeros in
    let same_size : length (whole front rest a b c d e) ≡ length (front ++ (bytes ++ rest)) =
      length-append front (a ∷ b ∷ c ∷ d ∷ e ∷ rest) ∙ sym (length-append front (bytes ++ rest)) in
    rw (before, store_bytes-append front (rest ++ zeros) a b c d e paddr size, sym after, same_size)
      (take-length (front ++ (bytes ++ rest)) zeros)

-- For a packet of 21 to 64 bytes of which the process asks for all, whose process exists and whose
-- virtual address is mapped, the read gives the packet back with bytes 16 to 20 replaced, which
-- hold the physical address modulo 2^40, the lowest byte first.
pub read_output-whole :
    (k : Kernel) (front rest : List ℕ) (a b c d e : ℕ)
    → let user = whole front rest a b c d e in
      let buf = packet (length user) user in
      let mm = k.mm (k.pid_task (pid_of buf)) in
      let (mapped, ptep) = walk k mm (vaddr_of buf) in
      let paddr = paddr_of k.page_size (k.pte_val ptep) (vaddr_of buf) in
      length front ≡ 16
      → length user ≤ max_len
      → k.pid_task (pid_of buf) ≢ 0
      → mapped ≡ true
      → (read_output k user (length user) true true
          ≡ copied (front ++ (address_bytes paddr ++ rest)))
        × (add_bytes 0 (address_bytes paddr) ≡ paddr % 2 ^ 40)
unfolding read_output packet
read_output-whole k front rest a b c d e size fits exists mapped =
    let user = whole front rest a b c d e in
    let zeros : List ℕ = replicate (max_len - length user) 0 in
    let buf = packet (length user) user in
    let (_, ptep) = walk k (k.mm (k.pid_task (pid_of buf))) (vaddr_of buf) in
    let paddr = paddr_of k.page_size (k.pte_val ptep) (vaddr_of buf) in
    let copied_in : take (length user) user ≡ user =
      ap (take (length user)) (sym (append-nil user)) ∙ take-length user [] in
    let full : (if ltb (length user) max_len then length user else max_len) ≡ length user =
      ground arith in
    let named : (k.pid_task (pid_of buf) == 0) ≡ false = ground arith in
    let stored : take (length user) (store_bytes 5 0 paddr buf)
        ≡ front ++ (address_bytes paddr ++ rest) =
      ap (λ (p : List ℕ). take (length user) (store_bytes 5 0 paddr (p ++ zeros))) copied_in
      ∙ stored-take front rest zeros a b c d e paddr size in
    (rw (read_output, full, named, mapped) (ap copied stored), add_bytes-address_bytes paddr)
