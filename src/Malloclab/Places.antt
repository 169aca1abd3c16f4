-- ===== src/Malloclab/Places.antt =====
-- Where the blocks of a heap lie, and which words of the heap belong to which block.
use mathlib.Core.List.{append_assoc}
use mathlib.Core.Path.{subst, sym}
use sysprog2021s.Prelude.{
  ℕ, ◌+◌, ◌%◌, ◌≤◌, ◌≡◌, ◌≢◌, refl, Bool, List, [], ◌∷◌, ◌++◌, ◌⊎◌, inl, inr, arith,
}
use sysprog2021s.Malloclab.Words.{Words, put}
use sysprog2021s.Malloclab.Blocks.{
  Block, AreTiles, AreTiles-le, AreTiles-at, AreTiles-IsSame, IsSame, IsStamped, stamped-AreTiles,
}

-- The address behind these blocks.
abbrev pub end_of : ℕ → List Block → ℕ
end_of p [] = p
end_of p (b ∷ bs) = end_of (p + b.size) bs

pub AreTiles-split :
    (w : Words) (p end : ℕ) (xs ys : List Block)
    → AreTiles w p (xs ++ ys) end
    → AreTiles w p xs (end_of p xs) × AreTiles w (end_of p xs) ys end
AreTiles-split w p end [] ys t = (refl, t)
AreTiles-split w p end (x ∷ xs) ys t =
    let (front, back) = AreTiles-split w (p + x.size) end xs ys t.1 in ((t.0, front), back)

pub AreTiles-append :
    (w : Words) (p end : ℕ) (xs ys : List Block)
    → AreTiles w p xs (end_of p xs)
    → AreTiles w (end_of p xs) ys end
    → AreTiles w p (xs ++ ys) end
AreTiles-append w p end [] ys t t' = t'
AreTiles-append w p end (x ∷ xs) ys t t' = (t.0, AreTiles-append w (p + x.size) end xs ys t.1 t')

pub end_of-snoc :
    (p : ℕ) (xs : List Block) (a : Block) → end_of p (xs ++ (a ∷ [])) ≡ end_of p xs + a.size
end_of-snoc p [] a = refl
end_of-snoc p (x ∷ xs) a = end_of-snoc (p + x.size) xs a

-- The last block of those before becomes the first of those behind, and back.
module _ (P : List Block → ℕ → Type 0) (p : ℕ) (front : List Block) (a : Block)
    (back : List Block) where
  pub snoc-split :
      P ((front ++ (a ∷ [])) ++ back) (end_of p (front ++ (a ∷ [])))
      → P (front ++ (a ∷ back)) (end_of p front + a.size)
  snoc-split x =
      subst (λ bs. P bs (end_of p front + a.size)) (append_assoc front (a ∷ []) back)
        (subst (P ((front ++ (a ∷ [])) ++ back)) (end_of-snoc p front a) x)

  pub split-snoc :
      P (front ++ (a ∷ back)) (end_of p front + a.size)
      → P ((front ++ (a ∷ [])) ++ back) (end_of p (front ++ (a ∷ [])))
  split-snoc x =
      subst (λ bs. P bs (end_of p (front ++ (a ∷ [])))) (sym (append_assoc front (a ∷ []) back))
        (subst (P (front ++ (a ∷ back))) (sym (end_of-snoc p front a)) x)

-- A used block, or one that is not, has its payload at `x`.
abbrev pub IsAt : (x : ℕ) (u : Bool) (p : ℕ) → List Block → Type 0
IsAt x u p [] = ⊥
IsAt x u p (b ∷ bs) = ((p + 4 ≡ x) × (b.used ≡ u)) ⊎ IsAt x u (p + b.size) bs

pub IsAt-split :
    (x : ℕ) (u : Bool) (p : ℕ) (xs ys : List Block)
    → IsAt x u p (xs ++ ys)
    → IsAt x u p xs ⊎ IsAt x u (end_of p xs) ys
IsAt-split x u p [] ys i = inr i
IsAt-split x u p (b ∷ xs) ys (inl i) = inl (inl i)
IsAt-split x u p (b ∷ xs) ys (inr i) = elim (IsAt-split x u (p + b.size) xs ys i) [
  | inl j ↦ inl (inr j)
  | inr j ↦ inr j
]

pub IsAt-front :
    (x : ℕ) (u : Bool) (p : ℕ) (xs ys : List Block) → IsAt x u p xs → IsAt x u p (xs ++ ys)
IsAt-front x u p [] ys i = absurd i
IsAt-front x u p (b ∷ xs) ys (inl i) = inl i
IsAt-front x u p (b ∷ xs) ys (inr i) = inr (IsAt-front x u (p + b.size) xs ys i)

pub IsAt-back :
    (x : ℕ) (u : Bool) (p : ℕ) (xs ys : List Block)
    → IsAt x u (end_of p xs) ys
    → IsAt x u p (xs ++ ys)
IsAt-back x u p [] ys i = i
IsAt-back x u p (b ∷ xs) ys i = inr (IsAt-back x u (p + b.size) xs ys i)

-- Every block has room for its header, its footer and two words.
abbrev pub AllRoomy : List Block → Type 0
AllRoomy [] = Unit {0}
AllRoomy (b ∷ bs) = (16 ≤ b.size) × AllRoomy bs

pub AllRoomy-split : (xs ys : List Block) → AllRoomy (xs ++ ys) → AllRoomy xs × AllRoomy ys
AllRoomy-split [] ys r = (tt, r)
AllRoomy-split (x ∷ xs) ys r = let (a, b) = AllRoomy-split xs ys r.1 in ((r.0, a), b)

pub AllRoomy-append : (xs ys : List Block) → AllRoomy xs → AllRoomy ys → AllRoomy (xs ++ ys)
AllRoomy-append [] ys r r' = r'
AllRoomy-append (x ∷ xs) ys r r' = (r.0, AllRoomy-append xs ys r.1 r')

pub end_of-le : (p : ℕ) (bs : List Block) → p ≤ end_of p bs
end_of-le p [] = omega arith
end_of-le p (b ∷ bs) = omega (arith, end_of-le (p + b.size) bs)

pub end_of-AreTiles :
    (w : Words) (p end : ℕ) (bs : List Block) → AreTiles w p bs end → end_of p bs ≡ end
end_of-AreTiles w p end [] t = t
end_of-AreTiles w p end (b ∷ bs) t = end_of-AreTiles w (p + b.size) end bs t.1

-- The two words at the payload lie inside the block.
pub IsAt-within :
    (x : ℕ) (u : Bool) (p : ℕ) (bs : List Block)
    → AllRoomy bs
    → IsAt x u p bs
    → (p + 4 ≤ x) × (x + 12 ≤ end_of p bs)
IsAt-within x u p [] r i = absurd i
IsAt-within x u p (b ∷ bs) r (inl i) = omega (arith, end_of-le (p + b.size) bs)
IsAt-within x u p (b ∷ bs) r (inr i) = omega (arith, IsAt-within x u (p + b.size) bs r.1 i)

-- A block behind the first one of these or before it.
pub IsAt-skip :
    (x : ℕ) (u : Bool) (p : ℕ) (xs : List Block) (b : Block) (ys : List Block)
    → IsAt x u p (xs ++ (b ∷ ys))
    → x ≢ end_of p xs + 4
    → IsAt x u p xs ⊎ IsAt x u (end_of p xs + b.size) ys
IsAt-skip x u p xs b ys i ne = elim (IsAt-split x u p xs (b ∷ ys) i) [
  | inl j ↦ inl j
  | inr (inl e) ↦ absurd (ne (omega (arith, e)))
  | inr (inr j) ↦ inr j
]

pub IsAt-aligned :
    (w : Words) (x : ℕ) (u : Bool) (p end : ℕ) (bs : List Block)
    → AreTiles w p bs end
    → IsAt x u p bs
    → (p + 4) % 8 ≡ 0
    → x % 8 ≡ 0
IsAt-aligned w x u p end [] t i a = absurd i
IsAt-aligned w x u p end (b ∷ bs) t (inl i) a = omega (arith, i)
IsAt-aligned w x u p end (b ∷ bs) t (inr i) a =
    IsAt-aligned w x u (p + b.size) end bs t.1 i (omega (arith, t.0))

-- A block of these or of those behind a gap is not in the gap.
pub IsAt-gap :
    (x : ℕ) (u : Bool) (p hi : ℕ) (xs ys : List Block)
    → AllRoomy xs
    → AllRoomy ys
    → IsAt x u p xs ⊎ IsAt x u hi ys
    → (x + 12 ≤ end_of p xs) ⊎ (hi + 4 ≤ x)
IsAt-gap x u p hi xs ys r r' (inl i) = inl ((IsAt-within x u p xs r i).1)
IsAt-gap x u p hi xs ys r r' (inr i) = inr ((IsAt-within x u hi ys r' i).0)

-- The two words at the payload of a block are the header or footer of none.
pub put-AreTiles :
    (w : Words) (x : ℕ) (u : Bool) (q v p end : ℕ) (bs : List Block)
    → AreTiles w p bs end
    → AllRoomy bs
    → IsAt x u p bs
    → (q ≡ x) ⊎ (q ≡ x + 4)
    → AreTiles (put q v w) p bs end × (put q v w end ≡ w end)
unfolding put
put-AreTiles w x u q v p end [] t r i at = absurd i
put-AreTiles w x u q v p end (b ∷ bs) t r (inl i) at =
    let le = AreTiles-le w (p + b.size) end bs t.1 in
    let kept : IsSame (p + b.size) end w (put q v w) = λ q' from to. ground arith in
    let rest = AreTiles-IsSame w (put q v w) (p + b.size) end bs t.1 kept in
    ((ground arith, rest), ground arith)
put-AreTiles w x u q v p end (b ∷ bs) t r (inr i) at =
    let (rest, last) = put-AreTiles w x u q v (p + b.size) end bs t.1 r.1 i at in
    let within = IsAt-within x u (p + b.size) bs r.1 i in ((ground arith, rest), last)

-- Two blocks at different addresses: the words of one are not the header or footer of the other.
pub stamped-outside :
    (w w' : Words) (x : ℕ) (u : Bool) (p hi : ℕ) (b : Block) (front back : List Block)
    → IsStamped w w' (end_of p front) b
    → 8 ≤ b.size
    → AllRoomy front
    → AllRoomy back
    → hi ≡ end_of p front + b.size
    → IsAt x u p front ⊎ IsAt x u hi back
    → (w' x ≡ w x) × (w' (x + 4) ≡ w (x + 4))
stamped-outside w w' x u p hi b front back (h, f, other) big r r' e (inl i) =
    let within = IsAt-within x u p front r i in
    (
      other x (λ same. omega arith) (λ same. omega arith),
      other (x + 4) (λ same. omega arith) (λ same. omega arith),
    )
stamped-outside w w' x u p hi b front back (h, f, other) big r r' e (inr i) =
    let within = IsAt-within x u hi back r' i in
    (
      other x (λ same. omega arith) (λ same. omega arith),
      other (x + 4) (λ same. omega arith) (λ same. omega arith),
    )

-- Some blocks become one.
pub stamped-between :
    (w w' : Words) (p end : ℕ) (b : Block) (front mid back : List Block)
    → AreTiles w p (front ++ (mid ++ back)) end
    → IsStamped w w' (end_of p front) b
    → b.size % 8 ≡ 0
    → 8 ≤ b.size
    → end_of (end_of p front) mid ≡ end_of p front + b.size
    → AreTiles w' p (front ++ (b ∷ back)) end × (w' end ≡ w end)
stamped-between w w' p end b front mid back t s aligned big e =
    let m = end_of p front in
    let (t1, t2) = AreTiles-split w p end front (mid ++ back) t in
    let (t3, t4) = AreTiles-split w m end mid back t2 in
    let (tiles, last, below) =
      stamped-AreTiles w w' m end b back s aligned big
        (AreTiles-at w (end_of m mid) (m + b.size) end back e t4) in
    let kept = AreTiles-IsSame w w' p m front t1 (λ q from to. below q (omega arith) to) in
    (AreTiles-append w' p end front (b ∷ back) kept tiles, last)

pub IsAt-outside :
    (x : ℕ) (u : Bool) (p hi : ℕ) (front mid back : List Block)
    → IsAt x u p (front ++ (mid ++ back))
    → (IsAt x u (end_of p front) mid → ⊥)
    → end_of (end_of p front) mid ≡ hi
    → IsAt x u p front ⊎ IsAt x u hi back
IsAt-outside x u p hi front mid back i gone e = elim (IsAt-split x u p front (mid ++ back) i) [
  | inl j ↦ inl j
  | inr j ↦ elim (IsAt-split x u (end_of p front) mid back j) [
    | inl inside ↦ absurd (gone inside)
    | inr k ↦ inr (subst (λ y. IsAt x u y back) e k)
  ]
]

pub outside-IsAt :
    (x : ℕ) (u : Bool) (p hi : ℕ) (front mid back : List Block)
    → IsAt x u p front ⊎ IsAt x u hi back
    → end_of (end_of p front) mid ≡ hi
    → IsAt x u p (front ++ (mid ++ back))
outside-IsAt x u p hi front mid back (inl i) e = IsAt-front x u p front (mid ++ back) i
outside-IsAt x u p hi front mid back (inr i) e =
    IsAt-back x u p front (mid ++ back)
      (IsAt-back x u (end_of p front) mid back (subst (λ y. IsAt x u y back) (sym e) i))
