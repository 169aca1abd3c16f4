-- ===== src/Malloclab/Explicit/States.antt =====
-- The heap of malloclab-handout/src/mm.c: its blocks, and its list of free ones.
use mathlib.Core.List.{Memᴰ}
use mathlib.Core.List.Memᴰ
use mathlib.Core.Path.{subst, sym, ◌∙◌}
use sysprog2021s.Prelude.{
  ℕ, ◌+◌, ◌-◌, ◌%◌, ◌≤◌, ◌≡◌, ◌≢◌, refl, ap, Bool, true, false, List, [], ◌∷◌, ◌==◌, ◌⊎◌, inl, inr,
  arith, Bool-cases,
}
use sysprog2021s.Malloclab.Memlib.Areas.{IsHeap}
use sysprog2021s.Malloclab.Words.{Words, put}
use sysprog2021s.Malloclab.Blocks.{Block, AreTiles}
use sysprog2021s.Malloclab.Places.{IsAt, AllRoomy, put-AreTiles}
use sysprog2021s.Malloclab.Explicit.{Heap, cut_root, cut_inner, cut_out}
use sysprog2021s.Malloclab.Explicit.FreeList.{AreLinked, IsFreeList}
use sysprog2021s.Malloclab.Explicit.Unlink.{
  remove, remove-none, remove-front, remove-later, cut_out-IsFreeList,
}

-- The blocks fill the heap from the prologue to the epilogue.
pub record IsTiled (h : Heap) (bs : List Block) : Type 0 where
  pub memory : IsHeap h.memory
  pub prologue : h.prol_bp ≡ h.memory.start_brk + 8
  pub aligned : h.memory.start_brk % 8 ≡ 0
  pub sized : h.memory.start_brk + 24 ≤ h.memory.brk
  pub tiles : AreTiles h.word (h.memory.start_brk + 4) bs (h.memory.brk - 4)
  pub epilogue : h.word (h.memory.brk - 4) ≡ 1
  pub roomy : AllRoomy bs
  pub anchor : IsAt h.prol_bp true (h.memory.start_brk + 4) bs

-- They do, and the list holds some of those that are free.
pub record IsState (h : Heap) (bs : List Block) (fs : List ℕ) : Type 0 where
  pub tiled : IsTiled h bs
  pub list : IsFreeList h fs
  pub sound : (x : ℕ) → Memᴰ x fs → IsAt x false (h.memory.start_brk + 4) bs

-- All free blocks are in the list, but perhaps the one at `hand`.
abbrev pub AllListed : Heap → List Block → (fs : List ℕ) (hand : ℕ) → Type 0
AllListed h bs fs hand = (x : ℕ) → IsAt x false (h.memory.start_brk + 4) bs → Memᴰ x fs ⊎ (x ≡ hand)

-- The same blocks under other words, with another list.
abbrev pub rewritten : Heap → Words → (root_bp : ℕ) → Heap
rewritten h w root_bp = record h { word = w; root_bp = root_bp }

pub IsTiled-rewritten :
    (h : Heap) (bs : List Block) (w : Words) (root_bp : ℕ)
    → IsTiled h bs
    → AreTiles w (h.memory.start_brk + 4) bs (h.memory.brk - 4)
      × (w (h.memory.brk - 4) ≡ h.word (h.memory.brk - 4))
    → IsTiled (rewritten h w root_bp) bs
IsTiled-rewritten h bs w root_bp v (tiles, last) = record {
  memory = v.memory;
  prologue = v.prologue;
  aligned = v.aligned;
  sized = v.sized;
  tiles = tiles;
  epilogue = last ∙ v.epilogue;
  roomy = v.roomy;
  anchor = v.anchor;
}

pub remove-Memᴰ : (x bp : ℕ) (fs : List ℕ) → Memᴰ x (remove bp fs) → Memᴰ x fs
remove-Memᴰ x bp [] i = subst (Memᴰ x) (remove-none bp) i
remove-Memᴰ x bp (b ∷ bs) i = elim (Bool-cases (bp == b)) [
  | inl same ↦
      let e : bp ≡ b = ground arith in
      Memᴰ.tail (subst (Memᴰ x) (remove-front b bs) (subst (λ y. Memᴰ x (remove y (b ∷ bs))) e i))
  | inr other ↦ elim (Memᴰ.cases_cons (subst (Memᴰ x) (remove-later bp b bs (ground arith)) i)) [
    | inl e ↦ Memᴰ.head e
    | inr j ↦ Memᴰ.tail (remove-Memᴰ x bp bs j)
  ]
]

-- The links of a listed block lead to listed blocks, or to the prologue.
next-Memᴰ :
    (w : Words) (x pred bp prol : ℕ) (fs : List ℕ)
    → AreLinked w pred bp prol fs
    → Memᴰ x fs
    → Memᴰ (w x) fs ⊎ (w x ≡ prol)
next-Memᴰ w x pred bp prol [] l i = elim i [ ]
next-Memᴰ w x pred bp prol (b ∷ []) l (Memᴰ.head e) = inr (ap w e ∙ l.2.0)
next-Memᴰ w x pred bp prol (b ∷ c ∷ fs) l (Memᴰ.head e) =
    inl (Memᴰ.tail (Memᴰ.head (ap w e ∙ l.2.0)))
next-Memᴰ w x pred bp prol (b ∷ fs) l (Memᴰ.tail i) = elim (next-Memᴰ w x b (w b) prol fs l.2 i) [
  | inl j ↦ inl (Memᴰ.tail j)
  | inr e ↦ inr e
]

pred-Memᴰ :
    (w : Words) (x pred bp prol : ℕ) (fs : List ℕ)
    → AreLinked w pred bp prol fs
    → Memᴰ x fs
    → (x ≡ bp) ⊎ Memᴰ (w (x + 4)) fs
pred-Memᴰ w x pred bp prol [] l i = elim i [ ]
pred-Memᴰ w x pred bp prol (b ∷ fs) l (Memᴰ.head e) = inl (e ∙ sym l.0)
pred-Memᴰ w x pred bp prol (b ∷ fs) l (Memᴰ.tail i) = elim (pred-Memᴰ w x b (w b) prol fs l.2 i) [
  | inl e ↦ inr (Memᴰ.head (back w x b prol fs l.2 e))
  | inr j ↦ inr (Memᴰ.tail j)
]
  where
    back :
        (w : Words) (x b prol : ℕ) (fs : List ℕ)
        → AreLinked w b (w b) prol fs
        → x ≡ w b
        → w (x + 4) ≡ b
    back w x b prol [] l e = ground arith
    back w x b prol (c ∷ fs) l e = ground arith

-- A write to one of the two words of a block leaves the blocks.
pub put-tiles :
    (w : Words) (x : ℕ) (u : Bool) (q v p end last : ℕ) (bs : List Block)
    → AreTiles w p bs end × (w end ≡ last)
    → AllRoomy bs
    → IsAt x u p bs
    → (q ≡ x) ⊎ (q ≡ x + 4)
    → AreTiles (put q v w) p bs end × (put q v w end ≡ last)
put-tiles w x u q v p end last bs (t, e) r i at =
    let (t', e') = put-AreTiles w x u q v p end bs t r i at in (t', e' ∙ e)

-- A listed block or the prologue is a block.
block-IsAt :
    (h : Heap) (bs : List Block) (fs : List ℕ) (x : ℕ)
    → IsState h bs fs
    → Memᴰ x fs ⊎ (x ≡ h.prol_bp)
    → (u : Bool) × IsAt x u (h.memory.start_brk + 4) bs
block-IsAt h bs fs x v (inl i) = (false, v.sound x i)
block-IsAt h bs fs x v (inr e) =
    (true, subst (λ y. IsAt y true (h.memory.start_brk + 4) bs) (sym e) v.tiled.anchor)

cut_root-tiles :
    (h : Heap) (bs : List Block) (fs : List ℕ) (x : ℕ)
    → IsState h bs fs
    → Memᴰ x fs
    → let w = (cut_root x h).word in
      AreTiles w (h.memory.start_brk + 4) bs (h.memory.brk - 4)
      × (w (h.memory.brk - 4) ≡ h.word (h.memory.brk - 4))
unfolding cut_root
cut_root-tiles h bs fs x v i =
    let next = next-Memᴰ h.word x 0 h.root_bp h.prol_bp fs v.list.linked i in
    let (u, at) = block-IsAt h bs fs (h.word x) v next in
    put-AreTiles h.word (h.word x) u (h.word x + 4) 0 (h.memory.start_brk + 4) (h.memory.brk - 4) bs
      v.tiled.tiles v.tiled.roomy at (inr refl)

same_next : (w : Words) (x : ℕ) → put (w (x + 4)) (w x) w x ≡ w x
unfolding put
same_next w x = ground arith

cut_inner-tiles :
    (h : Heap) (bs : List Block) (fs : List ℕ) (x : ℕ)
    → IsState h bs fs
    → Memᴰ x fs
    → x ≢ h.root_bp
    → let w = (cut_inner x h).word in
      AreTiles w (h.memory.start_brk + 4) bs (h.memory.brk - 4)
      × (w (h.memory.brk - 4) ≡ h.word (h.memory.brk - 4))
unfolding cut_inner
cut_inner-tiles h bs fs x v i ne =
    let p : ℕ = h.memory.start_brk + 4 in
    let end : ℕ = h.memory.brk - 4 in
    let next = next-Memᴰ h.word x 0 h.root_bp h.prol_bp fs v.list.linked i in
    let (u, at) = block-IsAt h bs fs (h.word x) v next in
    elim (pred-Memᴰ h.word x 0 h.root_bp h.prol_bp fs v.list.linked i) [
      | inl e ↦ absurd (ne e)
      | inr j ↦
          let w1 = put (h.word (x + 4)) (h.word x) h.word in
          let t1 =
            put-tiles h.word (h.word (x + 4)) false (h.word (x + 4)) (h.word x) p end (h.word end)
              bs (v.tiled.tiles, refl) v.tiled.roomy (v.sound (h.word (x + 4)) j) (inl refl) in
          put-tiles w1 (h.word x) u (w1 x + 4) (w1 (x + 4)) p end (h.word end) bs t1 v.tiled.roomy
            at (inr (ap (λ y. y + 4) (same_next h.word x)))
    ]

cut_out-cut_root : (h : Heap) (x : ℕ) → (x == h.root_bp) ≡ true → cut_out x h ≡ cut_root x h
unfolding cut_out
cut_out-cut_root h x e = rw e refl

cut_out-cut_inner : (h : Heap) (x : ℕ) → (x == h.root_bp) ≡ false → cut_out x h ≡ cut_inner x h
unfolding cut_out
cut_out-cut_inner h x e = rw e refl

-- The memory system and the prologue stay.
pub cut_out-rewritten :
    (h : Heap) (x : ℕ) → cut_out x h ≡ rewritten h (cut_out x h).word (cut_out x h).root_bp
unfolding cut_out cut_root cut_inner
cut_out-rewritten h x = elim (Bool-cases (x == h.root_bp)) [
  | inl same ↦ rw same refl
  | inr other ↦ rw other refl
]

-- `cut_out` takes a block out of the list, and leaves the blocks.
pub cut_out-IsState :
    (h : Heap) (bs : List Block) (fs : List ℕ) (x : ℕ)
    → IsState h bs fs
    → Memᴰ x fs
    → IsState (cut_out x h) bs (remove x fs)
unfolding cut_root cut_inner
cut_out-IsState h bs fs x v i =
    let tiled : IsTiled (cut_out x h) bs = elim (Bool-cases (x == h.root_bp)) [
      | inl same ↦
          subst (λ h'. IsTiled h' bs) (sym (cut_out-cut_root h x same))
            (IsTiled-rewritten h bs (cut_root x h).word (cut_root x h).root_bp v.tiled
              (cut_root-tiles h bs fs x v i))
      | inr other ↦
          subst (λ h'. IsTiled h' bs) (sym (cut_out-cut_inner h x other))
            (IsTiled-rewritten h bs (cut_inner x h).word h.root_bp v.tiled
              (cut_inner-tiles h bs fs x v i (ground arith)))
    ] in
    let start = ap (λ h'. h'.memory.start_brk + 4) (cut_out-rewritten h x) in
    record {
      tiled = tiled;
      list = cut_out-IsFreeList h fs x v.list i;
      sound = λ y j. subst (λ p. IsAt y false p bs) (sym start) (v.sound y (remove-Memᴰ y x fs j));
    }
