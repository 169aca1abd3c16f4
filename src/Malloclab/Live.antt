-- ===== src/Malloclab/Live.antt =====
-- The abstract view of an allocator's heap: which addresses hold a live block, and of what size.
-- The operations of malloclab-handout/mm_implicit.c on the sequence of blocks, and what they do to
-- this view. A block is named by its payload, 4 bytes behind its header at `p`.
use sysprog2021s.Prelude.{
  ℕ, ◌+◌, ◌-◌, ◌≤◌, ◌<◌, ◌≡◌, ◌≢◌, refl, Bool, true, false, not, ◌&&◌, Option, none, some, List, [],
  ◌∷◌, ◌==◌, ltb, leb, if◌then◌else◌, ◌⊎◌, inl, inr, arith,
}
use sysprog2021s.Malloclab.Blocks.{Block}

abbrev pub free : ℕ → Block
free n = record { size = n; used = false }

abbrev pub full : ℕ → Block
full n = record { size = n; used = true }

unfoldable pub live : (a p : ℕ) → List Block → Option ℕ
live a p [] = none
live a p (b ∷ bs) =
    let later = live a (p + b.size) bs in if a == p + 4 && b.used then some b.size else later

-- The first free block that is large enough, or NULL.
unfoldable pub first_fit : (bsize p : ℕ) → List Block → ℕ
first_fit bsize p [] = 0
first_fit bsize p (b ∷ bs) =
    let later = first_fit bsize (p + b.size) bs in
    if not b.used && leb bsize b.size then p + 4 else later

-- A free block in front of these: it takes in the first if that is free.
abbrev pub join_front : ℕ → List Block → List Block
join_front n [] = free n ∷ []
join_front n (b ∷ bs) = if b.used then free n ∷ b ∷ bs else free (n + b.size) ∷ bs

-- A free block between block `a` and these.
abbrev pub join : Block → ℕ → List Block → List Block
join a n bs = if a.used then a ∷ join_front n bs else join_front (a.size + n) bs

-- The block at `q` becomes free.
unfoldable pub free_at : (q p : ℕ) → List Block → List Block
free_at q p [] = []
free_at q p (a ∷ []) = a ∷ []
free_at q p (a ∷ b ∷ bs) =
    let later = free_at q (p + a.size) (b ∷ bs) in
    if p + a.size + 4 == q then join a b.size bs else a ∷ later

-- A free block of `n` bytes behind the last one, and where it comes to lie.
unfoldable pub append_free : (n : ℕ) → List Block → List Block
append_free n [] = free n ∷ []
append_free n (a ∷ []) = join a n []
append_free n (a ∷ b ∷ bs) = a ∷ append_free n (b ∷ bs)

unfoldable pub last_at : (p : ℕ) → List Block → ℕ
last_at p [] = p + 4
last_at p (a ∷ []) = p + 4 + (if a.used then a.size else 0)
last_at p (a ∷ b ∷ bs) = last_at (p + a.size) (b ∷ bs)

-- The first `bsize` bytes of a free block of `n` bytes are used, or all if few are left.
abbrev pub placed : (bsize n : ℕ) → List Block → List Block
placed bsize n bs = if ltb (n - bsize) 16 then full n ∷ bs else full bsize ∷ free (n - bsize) ∷ bs

unfoldable pub place_at : (q bsize p : ℕ) → List Block → List Block
place_at q bsize p [] = []
place_at q bsize p (b ∷ bs) =
    let later = place_at q bsize (p + b.size) bs in
    if p + 4 == q then placed bsize b.size bs else b ∷ later

-- The block at `q` is used, and is not the first.
abbrev pub IsUsedAt : ℕ → ℕ → List Block → Type 0
IsUsedAt q p [] = ⊥
IsUsedAt q p (a ∷ []) = ⊥
IsUsedAt q p (a ∷ b ∷ bs) =
    ((p + a.size + 4 ≡ q) × (b.used ≡ true)) ⊎ IsUsedAt q (p + a.size) (b ∷ bs)

-- The block at `q` is free and large enough.
abbrev pub IsFitAt : ℕ → ℕ → ℕ → List Block → Type 0
IsFitAt q bsize p [] = ⊥
IsFitAt q bsize p (b ∷ bs) =
    ((p + 4 ≡ q) × (b.used ≡ false) × (bsize ≤ b.size)) ⊎ IsFitAt q bsize (p + b.size) bs

pub first_fit-IsFitAt :
    (bsize p : ℕ) (bs : List Block)
    → first_fit bsize p bs ≢ 0
    → IsFitAt (first_fit bsize p bs) bsize p bs
unfolding first_fit
first_fit-IsFitAt bsize p [] n = absurd (n refl)
first_fit-IsFitAt bsize p (b ∷ bs) n = ground (arith, first_fit-IsFitAt bsize (p + b.size) bs)

-- Every block has at least 8 bytes.
abbrev pub AllLarge : List Block → Type 0
AllLarge [] = Unit {0}
AllLarge (b ∷ bs) = (8 ≤ b.size) × AllLarge bs

pub live-below : (a p : ℕ) (bs : List Block) → a < p + 4 → live a p bs ≡ none
unfolding live
live-below a p [] lt = refl
live-below a p (b ∷ bs) lt = ground (arith, live-below a (p + b.size) bs)

pub live-join_front : (a p n : ℕ) (bs : List Block) → live a p (join_front n bs) ≡ live a (p + n) bs
unfolding live
live-join_front a p n [] = ground arith
live-join_front a p n (b ∷ bs) = ground arith

pub IsUsedAt-below : (q p : ℕ) (bs : List Block) → AllLarge bs → IsUsedAt q p bs → p + 12 ≤ q
IsUsedAt-below q p [] l u = absurd u
IsUsedAt-below q p (b ∷ []) l u = absurd u
IsUsedAt-below q p (b ∷ c ∷ bs) l u = ground (arith, IsUsedAt-below q (p + b.size) (c ∷ bs))

pub IsFitAt-below :
    (q bsize p : ℕ) (bs : List Block) → AllLarge bs → IsFitAt q bsize p bs → p + 4 ≤ q
IsFitAt-below q bsize p [] l f = absurd f
IsFitAt-below q bsize p (b ∷ bs) l f = ground (arith, IsFitAt-below q bsize (p + b.size) bs)

live-join :
    (a p m n : ℕ) (u : Bool) (bs : List Block)
    → live a p (join (record { size = m; used = u }) n bs)
      ≡ (if a == p + 4 && u then some m else live a (p + m + n) bs)
unfolding live
live-join a p m n true bs = ground (arith, live-join_front a (p + m) n bs)
live-join a p m n false bs = ground (arith, live-join_front a p (m + n) bs)

live-second :
    (a p : ℕ) (b c : Block) (bs : List Block)
    → 8 ≤ b.size
    → 8 ≤ c.size
    → c.used ≡ true
    → (if a == p + 4 && b.used then some b.size else live a (p + b.size + c.size) bs)
      ≡ (if a == p + b.size + 4 then none else live a p (b ∷ c ∷ bs))
unfolding live
live-second a p b c bs l m u = ground (arith, live-below a (p + b.size + c.size) bs)

live-later :
    (a q p : ℕ) (b : Block) (freed : List Block) (c : Block) (bs : List Block)
    → p + b.size + 12 ≤ q
    → live a (p + b.size) freed ≡ (if a == q then none else live a (p + b.size) (c ∷ bs))
    → live a p (if p + b.size + 4 == q then join b c.size bs else b ∷ freed)
      ≡ (if a == q then none else live a p (b ∷ c ∷ bs))
unfolding live
live-later a q p b freed c bs below e =
    let other : (p + b.size + 4 == q) ≡ false = ground arith in rw other (ground arith)

-- Freeing a block removes it from the view, and nothing else.
pub live-free_at :
    (a q p : ℕ) (bs : List Block)
    → AllLarge bs
    → IsUsedAt q p bs
    → live a p (free_at q p bs) ≡ (if a == q then none else live a p bs)
unfolding free_at
live-free_at a q p [] l u = absurd u
live-free_at a q p (b ∷ []) l u = absurd u
live-free_at a q p (b ∷ c ∷ bs) l (inl (e, used)) =
    ground (arith, live-join a p b.size c.size b.used bs, live-second a p b c bs)
live-free_at a q p (b ∷ c ∷ bs) l (inr u) =
    let below = IsUsedAt-below q (p + b.size) (c ∷ bs) l.1 u in
    live-later a q p b (free_at q (p + b.size) (c ∷ bs)) c bs below
      (live-free_at a q (p + b.size) (c ∷ bs) l.1 u)

-- What `placed` makes of a free block of `n` bytes.
abbrev pub granted : (bsize n : ℕ) → ℕ
granted bsize n = if ltb (n - bsize) 16 then n else bsize

-- The size that a placed block gets.
unfoldable pub size_at : (q bsize p : ℕ) → List Block → ℕ
size_at q bsize p [] = 0
size_at q bsize p (b ∷ bs) =
    let later = size_at q bsize (p + b.size) bs in
    if p + 4 == q then granted bsize b.size else later

pub size_at-le :
    (q bsize p : ℕ) (bs : List Block)
    → IsFitAt q bsize p bs
    → AllLarge bs
    → bsize ≤ size_at q bsize p bs
unfolding size_at
size_at-le q bsize p [] f l = absurd f
size_at-le q bsize p (b ∷ bs) f l =
    ground (arith, size_at-le q bsize (p + b.size) bs, IsFitAt-below q bsize (p + b.size) bs)

-- Using a free block adds it to the view, and nothing else.
pub live-place_at :
    (a q bsize p : ℕ) (bs : List Block)
    → AllLarge bs
    → 8 ≤ bsize
    → IsFitAt q bsize p bs
    → (live q p bs ≡ none)
      × (live a p (place_at q bsize p bs)
          ≡ (if a == q then some (size_at q bsize p bs) else live a p bs))
unfolding live place_at size_at
live-place_at a q bsize p [] l m f = absurd f
live-place_at a q bsize p (b ∷ bs) l m f = ground (
  arith,
  live-place_at a q bsize (p + b.size) bs,
  IsFitAt-below q bsize (p + b.size) bs,
  live-below q (p + b.size) bs,
  live-below a (p + b.size) bs,
  live-join_front a (p + bsize) (b.size - bsize) bs,
)

-- A free block behind the last one is not in the view.
pub live-append_free : (a n p : ℕ) (bs : List Block) → live a p (append_free n bs) ≡ live a p bs
unfolding live append_free
live-append_free a n p [] = ground arith
live-append_free a n p (b ∷ []) =
    ground (arith, live-join_front a (p + b.size) n [], live-join_front a p (b.size + n) [])
live-append_free a n p (b ∷ c ∷ bs) = ground (arith, live-append_free a n (p + b.size) (c ∷ bs))

pub last_at-IsFitAt :
    (bsize n p : ℕ) (bs : List Block)
    → bsize ≤ n
    → IsFitAt (last_at p bs) bsize p (append_free n bs)
unfolding append_free last_at
last_at-IsFitAt bsize n p [] le = ground arith
last_at-IsFitAt bsize n p (b ∷ []) le = ground arith
last_at-IsFitAt bsize n p (b ∷ c ∷ bs) le = inr (last_at-IsFitAt bsize n (p + b.size) (c ∷ bs) le)
