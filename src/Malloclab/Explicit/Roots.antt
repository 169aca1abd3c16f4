-- ===== src/Malloclab/Explicit/Roots.antt =====
-- `set_root` of malloclab-handout/src/mm.c on the blocks and on the list.
use mathlib.Core.List.{Memᴰ}
use mathlib.Core.List.Memᴰ
use mathlib.Core.Path.{subst, sym}
use sysprog2021s.Prelude.{
  ℕ, ◌+◌, ◌-◌, ◌%◌, ◌≡◌, ◌≢◌, refl, Bool, true, false, List, [], ◌∷◌, ◌==◌, ◌⊎◌, inl, inr, arith,
  Bool-cases,
}
use sysprog2021s.Malloclab.Words.{Words, put}
use sysprog2021s.Malloclab.Blocks.{Block}
use sysprog2021s.Malloclab.Places.{IsAt}
use sysprog2021s.Malloclab.Explicit.{Heap, set_root}
use sysprog2021s.Malloclab.Explicit.FreeList.{
  AreLinked, AllOther, IsList, IsFreeList, set_root-IsList,
}
use sysprog2021s.Malloclab.Explicit.States.{
  IsTiled, IsState, rewritten, IsTiled-rewritten, put-tiles,
}

-- An address that no listed block has, and that is not the prologue's.
pub AllOther-new : (x prol : ℕ) (fs : List ℕ) → x ≢ prol → (Memᴰ x fs → ⊥) → AllOther x prol fs
AllOther-new x prol [] ne new = ne
AllOther-new x prol (f ∷ fs) ne new =
    (λ e. new (Memᴰ.head e), AllOther-new x prol fs ne (λ i. new (Memᴰ.tail i)))

root-IsBlock :
    (w : Words) (pred bp prol : ℕ) (fs : List ℕ)
    → AreLinked w pred bp prol fs
    → Memᴰ bp fs ⊎ (bp ≡ prol)
root-IsBlock w pred bp prol [] l = inr l.0
root-IsBlock w pred bp prol (b ∷ fs) l = inl (Memᴰ.head l.0)

set_root-new :
    (h : Heap) (bp : ℕ)
    → (bp == h.root_bp) ≡ false
    → set_root bp h
      ≡ rewritten h (put (bp + 4) 0 (put bp h.root_bp (put (h.root_bp + 4) bp h.word))) bp
unfolding set_root
set_root-new h bp e = rw e refl

-- `set_root` puts a free block that is not in the list in front of it.
pub set_root-IsState :
    (pred : ℕ) (h : Heap) (bs : List Block) (fs : List ℕ) (bp : ℕ)
    → IsTiled h bs
    → IsList pred h fs
    → ((x : ℕ) → Memᴰ x fs → IsAt x false (h.memory.start_brk + 4) bs)
    → IsAt bp false (h.memory.start_brk + 4) bs
    → bp % 8 ≡ 0
    → (Memᴰ bp fs → ⊥)
    → bp ≢ h.prol_bp
    → IsState (set_root bp h) bs (bp ∷ fs)
set_root-IsState pred h bs fs bp t l sound at aligned new ne =
    let p : ℕ = h.memory.start_brk + 4 in
    let end : ℕ = h.memory.brk - 4 in
    let root = root-IsBlock h.word pred h.root_bp h.prol_bp fs l.linked in
    let (u, root_at) : (u : Bool) × IsAt h.root_bp u p bs = elim root [
      | inl i ↦ (false, sound h.root_bp i)
      | inr e ↦ (true, subst (λ y. IsAt y true p bs) (sym e) t.anchor)
    ] in
    let other : (bp == h.root_bp) ≡ false = elim root [
      | inl i ↦ not_root fs new i
      | inr e ↦ ground arith
    ] in
    let w1 = put (h.root_bp + 4) bp h.word in
    let w2 = put bp h.root_bp w1 in
    let t1 =
      put-tiles h.word h.root_bp u (h.root_bp + 4) bp p end (h.word end) bs (t.tiles, refl) t.roomy
        root_at (inr refl) in
    let t2 = put-tiles w1 bp false bp h.root_bp p end (h.word end) bs t1 t.roomy at (inl refl) in
    let t3 = put-tiles w2 bp false (bp + 4) 0 p end (h.word end) bs t2 t.roomy at (inr refl) in
    let list = set_root-IsList pred h fs bp l aligned (AllOther-new bp h.prol_bp fs ne new) in
    let now = set_root-new h bp other in
    subst (λ h'. IsState h' bs (bp ∷ fs)) (sym now)
      (record {
        tiled = IsTiled-rewritten h bs (put (bp + 4) 0 w2) bp t t3;
        list = subst (λ h'. IsFreeList h' (bp ∷ fs)) now list;
        sound = λ x i. elim (Memᴰ.cases_cons i) [
          | inl e ↦ subst (λ y. IsAt y false p bs) (sym e) at
          | inr j ↦ sound x j
        ];
      })
  where
    not_root : (fs : List ℕ) → (Memᴰ bp fs → ⊥) → Memᴰ h.root_bp fs → (bp == h.root_bp) ≡ false
    not_root fs new i = elim (Bool-cases (bp == h.root_bp)) [
      | inl same ↦ absurd (new (subst (λ y. Memᴰ y fs) (ground arith) i))
      | inr other ↦ other
    ]

-- The memory system and the prologue stay.
pub set_root-frame :
    (h : Heap) (bp : ℕ)
    → ((set_root bp h).memory ≡ h.memory) × ((set_root bp h).prol_bp ≡ h.prol_bp)
unfolding set_root
set_root-frame h bp = elim (Bool-cases (bp == h.root_bp)) [
  | inl same ↦ rw same (refl, refl)
  | inr other ↦ rw other (refl, refl)
]
