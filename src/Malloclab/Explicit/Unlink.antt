-- ===== src/Malloclab/Explicit/Unlink.antt =====
-- Blocks leave the list of free blocks of malloclab-handout/src/mm.c.
use mathlib.Core.List.{Memᴰ}
use mathlib.Core.Path.{subst, sym, ◌∙◌}
use sysprog2021s.Prelude.{
  ℕ, ◌+◌, ◌%◌, ◌≡◌, ◌≢◌, refl, true, false, List, [], ◌∷◌, ◌==◌, if◌then◌else◌, ◌⊎◌, inl, inr,
  arith,
}
use sysprog2021s.Malloclab.Words.{Words, put}
use sysprog2021s.Malloclab.Explicit.{Heap, cut_root, cut_inner, cut_out}
use sysprog2021s.Malloclab.Explicit.FreeList.{
  AreLinked, AllOther, AllApart, IsFreeList, put-AreLinked, relink, AllOther-root, put_other,
}

-- The list without a block.
unfoldable pub remove : ℕ → List ℕ → List ℕ
remove bp [] = []
remove bp (b ∷ bs) = if bp == b then bs else b ∷ remove bp bs

-- Block `x` stands right before block `bp`.
abbrev IsBefore : (x bp : ℕ) → List ℕ → Type 0
IsBefore x bp [] = ⊥
IsBefore x bp (a ∷ []) = ⊥
IsBefore x bp (a ∷ b ∷ bs) = ((a ≡ x) × (b ≡ bp)) ⊎ IsBefore x bp (b ∷ bs)

IsBefore-ne :
    (w : Words) (a x bp p q prol : ℕ) (bs : List ℕ)
    → AreLinked w p q prol bs
    → IsBefore x bp bs
    → AllOther a prol bs
    → (a ≢ x) × (a ≢ bp) × (a ≢ w bp)
IsBefore-ne w a x bp p q prol [] l i o = absurd i
IsBefore-ne w a x bp p q prol (b ∷ []) l i o = absurd i
IsBefore-ne w a x bp p q prol (b ∷ c ∷ []) l i o = ground arith
IsBefore-ne w a x bp p q prol (b ∷ c ∷ d ∷ bs) l i o =
    ground (arith, IsBefore-ne w a x bp b (w b) prol (c ∷ d ∷ bs))

IsBefore-pred :
    (w : Words) (x bp p q prol : ℕ) (bs : List ℕ)
    → AreLinked w p q prol bs
    → IsBefore x bp bs
    → w (bp + 4) ≡ x
IsBefore-pred w x bp p q prol [] l i = absurd i
IsBefore-pred w x bp p q prol (b ∷ []) l i = absurd i
IsBefore-pred w x bp p q prol (b ∷ c ∷ bs) l i =
    ground (arith, IsBefore-pred w x bp b (w b) prol (c ∷ bs))

IsBefore-aligned :
    (w : Words) (x bp p q prol : ℕ) (bs : List ℕ)
    → AreLinked w p q prol bs
    → AllApart prol bs
    → IsBefore x bp bs
    → (x % 8 ≡ 0) × (bp % 8 ≡ 0) × (w bp % 8 ≡ 0)
IsBefore-aligned w x bp p q prol [] l v i = absurd i
IsBefore-aligned w x bp p q prol (b ∷ []) l v i = absurd i
IsBefore-aligned w x bp p q prol (b ∷ c ∷ []) l v i = ground arith
IsBefore-aligned w x bp p q prol (b ∷ c ∷ d ∷ bs) l v i =
    ground (arith, IsBefore-aligned w x bp b (w b) prol (c ∷ d ∷ bs))

-- The words after `cut_inner` unlinks `bp` behind `x`.
abbrev unlinked : (x bp : ℕ) → Words → Words
unlinked x bp w = put (w bp + 4) x (put x (w bp) w)

unlinked-front :
    (w : Words) (pred b c prol : ℕ) (bs : List ℕ)
    → AreLinked w c (w c) prol bs
    → AllApart prol bs
    → b % 8 ≡ 0
    → AllOther b prol bs
    → w (b + 4) ≡ pred
    → AreLinked (unlinked b c w) pred b prol (b ∷ bs)
unfolding put
unlinked-front w pred b c prol bs l v e o back =
    let w1 = put b (w c) w in
    let l1 = put-AreLinked w b (w c) c (w c) prol bs l v b e o (inl refl) in
    let l2 = relink w1 b c (w c) prol bs l1 v in
    let (ne, aligned) = AllOther-root w b c (w c) prol bs l o v in
    let here : w c ≡ unlinked b c w b = ground arith in
    (refl, ground arith, subst (λ x. AreLinked (unlinked b c w) b x prol bs) here l2)

pub remove-none : (bp : ℕ) → remove bp [] ≡ []
unfolding remove
remove-none bp = refl

pub remove-front : (bp : ℕ) (bs : List ℕ) → remove bp (bp ∷ bs) ≡ bs
unfolding remove
remove-front bp bs = ground arith

pub remove-later : (bp b : ℕ) (bs : List ℕ) → b ≢ bp → remove bp (b ∷ bs) ≡ b ∷ remove bp bs
unfolding remove
remove-later bp b bs ne = ground arith

unlinked-elsewhere :
    (w : Words) (x bp b : ℕ)
    → b ≢ x
    → b ≢ w bp
    → b % 8 ≡ 0
    → x % 8 ≡ 0
    → w bp % 8 ≡ 0
    → (w b ≡ unlinked x bp w b) × (w (b + 4) ≡ unlinked x bp w (b + 4))
unfolding put
unlinked-elsewhere w x bp b not_x not_next b_aligned x_aligned next_aligned = ground arith

unlinked-AreLinked :
    (w : Words) (x bp p q prol : ℕ) (bs : List ℕ)
    → AreLinked w p q prol bs
    → AllApart prol bs
    → IsBefore x bp bs
    → AreLinked (unlinked x bp w) p q prol (remove bp bs)
unlinked-AreLinked w x bp p q prol [] l v i = absurd i
unlinked-AreLinked w x bp p q prol (b ∷ []) l v i = absurd i
unlinked-AreLinked w x bp p q prol (b ∷ c ∷ bs) l v (inl at) =
    let front = unlinked-front w p b c prol bs l.2.2 v.2.2 v.0 v.1.1 l.1 in
    rw (sym at.0, sym at.1, l.0, remove-later c b (c ∷ bs) v.1.0, remove-front c bs) front
unlinked-AreLinked w x bp p q prol (b ∷ c ∷ bs) l v (inr i) =
    let rest = unlinked-AreLinked w x bp b (w b) prol (c ∷ bs) l.2 v.2 i in
    let (not_x, not_bp, not_next) = IsBefore-ne w b x bp b (w b) prol (c ∷ bs) l.2 i v.1 in
    let (x_aligned, aligned, next_aligned) =
      IsBefore-aligned w x bp b (w b) prol (c ∷ bs) l.2 v.2 i in
    let (same, back) = unlinked-elsewhere w x bp b not_x not_next v.0 x_aligned next_aligned in
    rw (remove-later bp b (c ∷ bs) not_bp) (
      (
        l.0,
        sym back ∙ l.1,
        subst (λ y. AreLinked (unlinked x bp w) b y prol (remove bp (c ∷ bs))) same rest,
      ))

AllOther-remove :
    (a bp prol : ℕ) (bs : List ℕ) → AllOther a prol bs → AllOther a prol (remove bp bs)
unfolding remove
AllOther-remove a bp prol [] o = o
AllOther-remove a bp prol (b ∷ bs) o = let rest = AllOther-remove a bp prol bs o.1 in ground arith

pub AllApart-remove : (bp prol : ℕ) (bs : List ℕ) → AllApart prol bs → AllApart prol (remove bp bs)
unfolding remove
AllApart-remove bp prol [] v = v
AllApart-remove bp prol (b ∷ bs) v =
    let rest = AllApart-remove bp prol bs v.2 in
    let other = AllOther-remove b bp prol bs v.1 in ground arith

IsBefore-of : (bp b : ℕ) (bs : List ℕ) → Memᴰ bp bs → (x : ℕ) × IsBefore x bp (b ∷ bs)
IsBefore-of bp b [] i = elim i [ ]
IsBefore-of bp b (c ∷ bs) (Memᴰ.head e) = (b, inl (refl, sym e))
IsBefore-of bp b (c ∷ bs) (Memᴰ.tail i) = let (x, before) = IsBefore-of bp c bs i in (x, inr before)

AllOther-ne : (a b prol : ℕ) (bs : List ℕ) → AllOther a prol bs → Memᴰ b bs → b ≢ a
AllOther-ne a b prol [] o i = elim i [ ]
AllOther-ne a b prol (c ∷ bs) o (Memᴰ.head e) = λ same. o.0 (sym same ∙ e)
AllOther-ne a b prol (c ∷ bs) o (Memᴰ.tail i) = AllOther-ne a b prol bs o.1 i

IsBefore-moved : (x bp prol : ℕ) (bs : List ℕ) → AllApart prol bs → IsBefore x bp bs → bp ≢ x
IsBefore-moved x bp prol [] v i = absurd i
IsBefore-moved x bp prol (b ∷ []) v i = absurd i
IsBefore-moved x bp prol (b ∷ c ∷ bs) v i = ground (arith, IsBefore-moved x bp prol (c ∷ bs))

cut_inner-unlinked :
    (w : Words) (x bp : ℕ)
    → w (bp + 4) ≡ x
    → bp ≢ x
    → x % 8 ≡ 0
    → bp % 8 ≡ 0
    → let w1 = put (w (bp + 4)) (w bp) w in unlinked x bp w ≡ put (w1 bp + 4) (w1 (bp + 4)) w1
cut_inner-unlinked w x bp back moved x_aligned aligned =
    let w1 = put x (w bp) w in
    let here : w1 bp ≡ w bp = put_other w x (w bp) bp moved in
    let there : w1 (bp + 4) ≡ x = put_other w x (w bp) (bp + 4) (ground arith) ∙ back in
    rw (back, here, there) refl

-- `cut_out` takes a block out of the list, be it the first one or not, and the links of the other
-- blocks, in both directions, are those of the list without it.
pub cut_out-IsFreeList :
    (h : Heap) (bs : List ℕ) (bp : ℕ)
    → IsFreeList h bs
    → Memᴰ bp bs
    → IsFreeList (cut_out bp h) (remove bp bs)
unfolding cut_out cut_root cut_inner
cut_out-IsFreeList h [] bp v i = elim i [ ]
cut_out-IsFreeList h (b ∷ bs) bp v (Memᴰ.head e) =
    let first : (bp == h.root_bp) ≡ true = ground arith in
    rw (first, e, remove-front b bs)
      (record {
        linked = relink h.word 0 b (h.word b) h.prol_bp bs v.linked.2 v.apart.2;
        apart = v.apart.2;
      })
cut_out-IsFreeList h (b ∷ bs) bp v (Memᴰ.tail i) =
    let ne : bp ≢ b = AllOther-ne b bp h.prol_bp bs v.apart.1 i in
    let later : (bp == h.root_bp) ≡ false = ground arith in
    let (x, before) = IsBefore-of bp b bs i in
    let pred = IsBefore-pred h.word x bp 0 h.root_bp h.prol_bp (b ∷ bs) v.linked before in
    let moved = IsBefore-moved x bp h.prol_bp (b ∷ bs) v.apart before in
    let (x_aligned, aligned, root_aligned) =
      IsBefore-aligned h.word x bp 0 h.root_bp h.prol_bp (b ∷ bs) v.linked v.apart before in
    let links =
      unlinked-AreLinked h.word x bp 0 h.root_bp h.prol_bp (b ∷ bs) v.linked v.apart before in
    rw later (record {
      linked =
          subst (λ w. AreLinked w 0 h.root_bp h.prol_bp (remove bp (b ∷ bs)))
            (cut_inner-unlinked h.word x bp pred moved x_aligned aligned) links;
      apart = AllApart-remove bp h.prol_bp (b ∷ bs) v.apart;
    })
