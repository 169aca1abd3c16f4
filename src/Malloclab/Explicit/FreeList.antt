-- ===== src/Malloclab/Explicit/FreeList.antt =====
-- The doubly linked list of free blocks of malloclab-handout/src/mm.c.
use mathlib.Core.Path.{subst}
use sysprog2021s.Prelude.{
  ℕ, ◌+◌, ◌%◌, ◌≡◌, ◌≢◌, refl, false, List, [], ◌∷◌, ◌==◌, ◌⊎◌, inl, inr, arith,
}
use sysprog2021s.Malloclab.Words.{Words, put}
use sysprog2021s.Malloclab.Explicit.{Heap, set_root}

-- From `bp` the first words of the blocks lead through this list to the prologue, and the second
-- words lead back, from the first one to `pred`.
abbrev pub AreLinked : Words → (pred bp prol : ℕ) → List ℕ → Type 0
AreLinked w pred bp prol [] = (bp ≡ prol) × (w (prol + 4) ≡ pred)
AreLinked w pred bp prol (b ∷ bs) = (bp ≡ b) × (w (b + 4) ≡ pred) × AreLinked w b (w b) prol bs

-- Block addresses are multiples of 8; a block differs from these and from the prologue.
abbrev pub AllOther : (bp prol : ℕ) → List ℕ → Type 0
AllOther bp prol [] = bp ≢ prol
AllOther bp prol (b ∷ bs) = (bp ≢ b) × AllOther bp prol bs

-- They are multiples of 8 and differ from each other and from the prologue.
abbrev pub AllApart : (prol : ℕ) → List ℕ → Type 0
AllApart prol [] = prol % 8 ≡ 0
AllApart prol (b ∷ bs) = (b % 8 ≡ 0) × AllOther b prol bs × AllApart prol bs

-- The list from the root on, where the second word of the first block holds `pred`.
pub record IsList (pred : ℕ) (h : Heap) (bs : List ℕ) : Type 0 where
  pub linked : AreLinked h.word pred h.root_bp h.prol_bp bs
  pub apart : AllApart h.prol_bp bs

abbrev pub IsFreeList : Heap → List ℕ → Type 0
IsFreeList h bs = IsList 0 h bs

-- A write to another block.
pub put-AreLinked :
    (w : Words) (q v pred bp prol : ℕ) (bs : List ℕ)
    → AreLinked w pred bp prol bs
    → AllApart prol bs
    → (x : ℕ) → x % 8 ≡ 0
    → AllOther x prol bs
    → (q ≡ x) ⊎ (q ≡ x + 4)
    → AreLinked (put q v w) pred bp prol bs
unfolding put
put-AreLinked w q v pred bp prol [] l a x e o at = ground arith
put-AreLinked w q v pred bp prol (b ∷ bs) l a x e o at =
    ground (arith, put-AreLinked w q v b (w b) prol bs l.2 a.2 x e o.1 at)

-- The first block of a list gets another predecessor.
pub relink :
    (w : Words) (v pred bp prol : ℕ) (bs : List ℕ)
    → AreLinked w pred bp prol bs
    → AllApart prol bs
    → AreLinked (put (bp + 4) v w) v bp prol bs
unfolding put
relink w v pred bp prol [] l a = ground arith
relink w v pred bp prol (b ∷ bs) l a =
    ground (arith, put-AreLinked w (bp + 4) v b (w b) prol bs l.2 a.2 b a.0 a.1 (inr (omega arith)))

pub AllOther-root :
    (w : Words) (x pred bp prol : ℕ) (bs : List ℕ)
    → AreLinked w pred bp prol bs
    → AllOther x prol bs
    → AllApart prol bs
    → (x ≢ bp) × (bp % 8 ≡ 0)
AllOther-root w x pred bp prol [] l o a = ground arith
AllOther-root w x pred bp prol (b ∷ bs) l o a = ground arith

put_read : (w : Words) (p v : ℕ) → put p v w p ≡ v
unfolding put
put_read w p v = ground arith

pub put_other : (w : Words) (p v q : ℕ) → q ≢ p → put p v w q ≡ w q
unfolding put
put_other w p v q ne = ground arith

put_two : (w : Words) (p v u : ℕ) → v ≡ put (p + 4) u (put p v w) p
unfolding put
put_two w p v u = ground arith

-- `set_root` puts a block that is not in the list in front of it.
pub set_root-IsList :
    (pred : ℕ) (h : Heap) (bs : List ℕ) (bp : ℕ)
    → IsList pred h bs
    → bp % 8 ≡ 0
    → AllOther bp h.prol_bp bs
    → IsFreeList (set_root bp h) (bp ∷ bs)
unfolding set_root
set_root-IsList pred h bs bp v aligned other =
    let (ne, root_aligned) =
      AllOther-root h.word bp pred h.root_bp h.prol_bp bs v.linked other v.apart in
    let w1 = put (h.root_bp + 4) bp h.word in
    let w2 = put bp h.root_bp w1 in
    let w3 = put (bp + 4) 0 w2 in
    let test : (bp == h.root_bp) ≡ false = ground arith in
    let l1 = relink h.word bp pred h.root_bp h.prol_bp bs v.linked v.apart in
    let l2 =
      put-AreLinked w1 bp h.root_bp bp h.root_bp h.prol_bp bs l1 v.apart bp aligned other
        (inl refl) in
    let l3 =
      put-AreLinked w2 (bp + 4) 0 bp h.root_bp h.prol_bp bs l2 v.apart bp aligned other
        (inr refl) in
    let next : h.root_bp ≡ w3 bp = put_two w1 bp h.root_bp 0 in
    rw test (record {
      linked = (refl, put_read w2 (bp + 4) 0, subst (λ x. AreLinked w3 bp x h.prol_bp bs) next l3);
      apart = (aligned, other, v.apart);
    })
