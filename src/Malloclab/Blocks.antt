-- ===== src/Malloclab/Blocks.antt =====
-- The heap as a sequence of blocks, which is what the headers and footers of the allocators of
-- malloclab-handout stand for.
use mathlib.Core.Path.{subst}
use sysprog2021s.Prelude.{
  ℕ, ◌+◌, ◌-◌, ◌%◌, ◌≤◌, ◌<◌, ◌≡◌, ◌≢◌, Bool, true, List, [], ◌∷◌, if◌then◌else◌, ◌⊎◌, arith,
}
use sysprog2021s.Malloclab.Words.{Words, put}

-- The size is that of the whole block, its header and footer included.
pub record Block : Type 0 where
  pub size : ℕ
  pub used : Bool

abbrev pub tag : Block → ℕ
tag b = b.size + (if b.used then 1 else 0)

-- A block has its header at this address, and its footer in its last word.
abbrev pub IsTile : Words → ℕ → Block → Type 0
IsTile w p b = (w p ≡ tag b) × (w (p + b.size - 4) ≡ tag b) × (b.size % 8 ≡ 0) × (8 ≤ b.size)

-- From `p` to `end` the heap holds these blocks, one behind the other.
abbrev pub AreTiles : Words → ℕ → List Block → ℕ → Type 0
AreTiles w p [] end = p ≡ end
AreTiles w p (b ∷ bs) end = IsTile w p b × AreTiles w (p + b.size) bs end

pub AreTiles-le : (w : Words) (p end : ℕ) (bs : List Block) → AreTiles w p bs end → p ≤ end
AreTiles-le w p end [] t = omega (arith, t)
AreTiles-le w p end (b ∷ bs) t = omega (arith, AreTiles-le w (p + b.size) end bs t.1)

pub AreTiles-at :
    (w : Words) (p q end : ℕ) (bs : List Block) → p ≡ q → AreTiles w p bs end → AreTiles w q bs end
AreTiles-at w p q end bs e t = subst (λ x. AreTiles w x bs end) e t

-- Two memories agree from `lo` up to `hi`.
abbrev pub IsSame : ℕ → ℕ → Words → Words → Type 0
IsSame lo hi w w' = (q : ℕ) → lo ≤ q → q < hi → w' q ≡ w q

pub AreTiles-IsSame :
    (w w' : Words) (p end : ℕ) (bs : List Block)
    → AreTiles w p bs end
    → IsSame p end w w'
    → AreTiles w' p bs end
AreTiles-IsSame w w' p end [] t s = t
AreTiles-IsSame w w' p end (b ∷ bs) t s =
    let le = AreTiles-le w (p + b.size) end bs t.1 in
    let header = s p (omega arith) (omega (arith, t.0)) in
    let footer = s (p + b.size - 4) (omega (arith, t.0)) (omega (arith, t.0)) in
    let rest =
      AreTiles-IsSame w w' (p + b.size) end bs t.1 (λ q from to. s q (omega (arith, from)) to) in
    (ground (arith, t.0, header, footer), rest)

-- The header and the footer of a block are written, and nothing else.
abbrev pub IsStamped : Words → Words → ℕ → Block → Type 0
IsStamped w w' p b =
    (w' p ≡ tag b)
    × (w' (p + b.size - 4) ≡ tag b)
    × ((q : ℕ) → q ≢ p → q ≢ p + b.size - 4 → w' q ≡ w q)

unfoldable pub stamp : Words → ℕ → Block → Words
stamp w p b = put (p + b.size - 4) (tag b) (put p (tag b) w)

pub stamp-IsStamped : (w : Words) (p : ℕ) (b : Block) → 8 ≤ b.size → IsStamped w (stamp w p b) p b
unfolding stamp put
stamp-IsStamped w p b le = (ground arith, ground arith, λ q x y. ground arith)

pub stamped-AreTiles :
    (w w' : Words) (p end : ℕ) (b : Block) (bs : List Block)
    → IsStamped w w' p b
    → b.size % 8 ≡ 0
    → 8 ≤ b.size
    → AreTiles w (p + b.size) bs end
    → AreTiles w' p (b ∷ bs) end × (w' end ≡ w end) × IsSame 0 p w w'
stamped-AreTiles w w' p end b bs (header, footer, other) aligned big t =
    let le = AreTiles-le w (p + b.size) end bs t in
    let kept : IsSame (p + b.size) end w w' =
      λ q from to. other q (λ e. omega arith) (λ e. omega arith) in
    (
      ((header, footer, aligned, big), AreTiles-IsSame w w' (p + b.size) end bs t kept),
      other end (λ e. omega arith) (λ e. omega arith),
      λ q from to. other q (λ e. omega arith) (λ e. omega arith),
    )

-- The first block is not free.
abbrev pub BeginsUsed : List Block → Type 0
BeginsUsed [] = Unit {0}
BeginsUsed (b ∷ bs) = b.used ≡ true

-- No two neighbours are free.
abbrev pub AllJoined : List Block → Type 0
AllJoined [] = Unit {0}
AllJoined (b ∷ bs) = ((b.used ≡ true) ⊎ BeginsUsed bs) × AllJoined bs
