-- ===== src/Malloclab/Explicit/Hands.antt =====
-- The heap of malloclab-handout/src/mm.c while one free block is not in the list.
use mathlib.Core.List.{Memᴰ}
use mathlib.Core.List.Memᴰ
use mathlib.Core.Path.{subst, sym}
use sysprog2021s.Prelude.{
  ℕ, ◌+◌, ◌-◌, ◌%◌, ◌≤◌, ◌≡◌, ◌≢◌, refl, ap, true, false, List, [], ◌∷◌, ◌++◌, ◌==◌, inl, inr,
  arith, Bool-cases,
}
use sysprog2021s.Malloclab.Words.{Words}
use sysprog2021s.Malloclab.Blocks.{Block, IsStamped}
use sysprog2021s.Malloclab.Live.{free}
use sysprog2021s.Malloclab.Places.{
  IsAt, end_of, AllRoomy-split, IsAt-skip, IsAt-gap, IsAt-back, IsAt-aligned,
}
use sysprog2021s.Malloclab.Explicit.{Heap, set_root}
use sysprog2021s.Malloclab.Explicit.FreeList.{AllOther, AllApart}
use sysprog2021s.Malloclab.Explicit.Unlink.{remove, remove-none, remove-front, remove-later}
use sysprog2021s.Malloclab.Explicit.States.{IsState, AllListed, rewritten}
use sysprog2021s.Malloclab.Explicit.Roots.{set_root-IsState, set_root-frame}
use sysprog2021s.Malloclab.Explicit.Stamps.{IsOutside, stamped-IsState}

-- All free blocks are in the list, but the one at `bp`.
pub record IsHand (h : Heap) (bs : List Block) (fs : List ℕ) (bp : ℕ) : Type 0 where
  pub state : IsState h bs fs
  pub found : IsAt bp false (h.memory.start_brk + 4) bs
  pub new : Memᴰ bp fs → ⊥
  pub listed : AllListed h bs fs bp
  pub other : bp ≢ h.prol_bp

-- All free blocks are in the list.
pub record IsFull (h : Heap) (bs : List Block) (fs : List ℕ) : Type 0 where
  pub state : IsState h bs fs
  pub listed : (x : ℕ) → IsAt x false (h.memory.start_brk + 4) bs → Memᴰ x fs

-- Blocks in the middle become one free block.
pub stamped-IsHand :
    (h : Heap) (w' : Words) (n : ℕ) (front mid back : List Block) (fs : List ℕ)
    → IsState h (front ++ (mid ++ back)) fs
    → let p = h.memory.start_brk + 4 in
      let m = end_of p front in
      IsStamped h.word w' m (free n)
      → n % 8 ≡ 0
      → 16 ≤ n
      → end_of m mid ≡ m + n
      → IsOutside h.prol_bp true p front (m + n) back
      → ((x : ℕ) → Memᴰ x fs → IsOutside x false p front (m + n) back)
      → ((x : ℕ) → IsOutside x false p front (m + n) back → Memᴰ x fs)
      → IsHand (rewritten h w' h.root_bp) (front ++ (free n ∷ back)) fs (m + 4)
stamped-IsHand h w' n front mid back fs v s aligned big e anchor clear listed =
    let p : ℕ = h.memory.start_brk + 4 in
    let m : ℕ = end_of p front in
    let (r1, r2) = AllRoomy-split front (mid ++ back) v.tiled.roomy in
    let (r3, r4) = AllRoomy-split mid back r2 in
    record {
      state = stamped-IsState h w' (free n) front mid back fs v s aligned big e anchor clear;
      found = IsAt-back (m + 4) false p front (free n ∷ back) (inl (refl, refl));
      new = λ i.
          absurd
            (omega (arith, IsAt-gap (m + 4) false p (m + n) front back r1 r4 (clear (m + 4) i)));
      listed = λ x i. elim (Bool-cases (x == m + 4)) [
        | inl same ↦ inr (ground arith)
        | inr ne ↦ inl (listed x (IsAt-skip x false p front (free n) back i (ground arith)))
      ];
      other = λ same.
          absurd (omega (arith, same, IsAt-gap h.prol_bp true p (m + n) front back r1 r4 anchor));
    }

pub Memᴰ-remove : (x y : ℕ) (fs : List ℕ) → x ≢ y → Memᴰ x fs → Memᴰ x (remove y fs)
Memᴰ-remove x y [] ne i = elim i [ ]
Memᴰ-remove x y (f ∷ fs) ne i = elim (Bool-cases (y == f)) [
  | inl same ↦ elim (Memᴰ.cases_cons i) [
    | inl e ↦ absurd (ground arith)
    | inr j ↦
        subst (λ z. Memᴰ x (remove z (f ∷ fs))) (ground arith)
          (subst (Memᴰ x) (sym (remove-front f fs)) j)
  ]
  | inr later ↦
      subst (Memᴰ x) (sym (remove-later y f fs (ground arith))) (elim (Memᴰ.cases_cons i) [
        | inl e ↦ Memᴰ.head e
        | inr j ↦ Memᴰ.tail (Memᴰ-remove x y fs ne j)
      ])
]

AllOther-Memᴰ : (x prol : ℕ) (fs : List ℕ) → AllOther x prol fs → Memᴰ x fs → ⊥
AllOther-Memᴰ x prol [] o i = elim i [ ]
AllOther-Memᴰ x prol (f ∷ fs) o (Memᴰ.head e) = o.0 e
AllOther-Memᴰ x prol (f ∷ fs) o (Memᴰ.tail i) = AllOther-Memᴰ x prol fs o.1 i

pub remove-gone : (x prol : ℕ) (fs : List ℕ) → AllApart prol fs → Memᴰ x (remove x fs) → ⊥
remove-gone x prol [] a i = elim (subst (Memᴰ x) (remove-none x) i) [ ]
remove-gone x prol (f ∷ fs) a i = elim (Bool-cases (x == f)) [
  | inl same ↦
      let e : x ≡ f = ground arith in
      AllOther-Memᴰ f prol fs a.1
        (subst (Memᴰ f) (remove-front f fs) (subst (λ y. Memᴰ y (remove y (f ∷ fs))) e i))
  | inr later ↦ elim (Memᴰ.cases_cons (subst (Memᴰ x) (remove-later x f fs (ground arith)) i)) [
    | inl e ↦ absurd (ground arith)
    | inr j ↦ remove-gone x prol fs a.2 j
  ]
]

-- The block in hand is put into the list.
pub set_root-IsFull :
    (h : Heap) (bs : List Block) (fs : List ℕ) (bp : ℕ)
    → IsHand h bs fs bp
    → IsFull (set_root bp h) bs (bp ∷ fs)
set_root-IsFull h bs fs bp v =
    let p : ℕ = h.memory.start_brk + 4 in
    let aligned =
      IsAt-aligned h.word bp false p (h.memory.brk - 4) bs v.state.tiled.tiles v.found
        (omega (arith, v.state.tiled.aligned)) in
    let start = ap (λ m. m.start_brk) (set_root-frame h bp).0 in
    let listed : (x : ℕ) → IsAt x false p bs → Memᴰ x (bp ∷ fs) =
      λ x i. elim (v.listed x i) [ inl j ↦ Memᴰ.tail j | inr e ↦ Memᴰ.head e ] in
    record {
      state =
          set_root-IsState 0 h bs fs bp v.state.tiled v.state.list v.state.sound v.found aligned
            v.new v.other;
      listed = λ x i. listed x (subst (λ s. IsAt x false (s + 4) bs) start i);
    }
