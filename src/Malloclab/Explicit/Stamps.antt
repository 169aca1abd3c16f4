-- ===== src/Malloclab/Explicit/Stamps.antt =====
-- Headers and footers that malloclab-handout/src/mm.c writes, beside the links of its list.
use mathlib.Core.List.{Memᴰ}
use mathlib.Core.Path.{subst, sym, ◌∙◌}
use sysprog2021s.Prelude.{
  ℕ, ◌+◌, ◌-◌, ◌%◌, ◌≤◌, ◌≡◌, refl, ap, Bool, true, false, List, [], ◌∷◌, ◌++◌, ◌⊎◌, inl, inr,
  arith,
}
use sysprog2021s.Malloclab.Words.{Words}
use sysprog2021s.Malloclab.Blocks.{Block, IsStamped, stamp}
use sysprog2021s.Malloclab.Places.{
  IsAt, end_of, AllRoomy-split, AllRoomy-append, IsAt-front, IsAt-back, stamped-between,
  stamped-outside,
}
use sysprog2021s.Malloclab.Implicit
use sysprog2021s.Malloclab.Implicit.Blocks
use sysprog2021s.Malloclab.Explicit.{Heap, mark}
use sysprog2021s.Malloclab.Explicit.FreeList.{AreLinked}
use sysprog2021s.Malloclab.Explicit.States.{IsTiled, IsState, rewritten}

pub mark-stamp :
    (h : Heap) (p n : ℕ) (u : Bool)
    → n % 8 ≡ 0
    → 8 ≤ n
    → mark (p + 4) n u h ≡ rewritten h (stamp h.word p (record { size = n; used = u })) h.root_bp
unfolding mark Implicit.mark
mark-stamp h p n u aligned large =
    ap (λ w. rewritten h w h.root_bp) (Blocks.mark-stamp h.word p n u aligned large)

-- Words that differ at no listed block.
pub AreLinked-kept :
    (w w' : Words) (pred bp prol : ℕ) (fs : List ℕ)
    → AreLinked w pred bp prol fs
    → ((x : ℕ) → Memᴰ x fs → (w' x ≡ w x) × (w' (x + 4) ≡ w (x + 4)))
    → w' (prol + 4) ≡ w (prol + 4)
    → AreLinked w' pred bp prol fs
AreLinked-kept w w' pred bp prol [] l kept last = (l.0, last ∙ l.1)
AreLinked-kept w w' pred bp prol (b ∷ fs) l kept last =
    let (first, second) = kept b (Memᴰ.head refl) in
    let rest = AreLinked-kept w w' b (w b) prol fs l.2 (λ x i. kept x (Memᴰ.tail i)) last in
    (l.0, second ∙ l.1, subst (λ y. AreLinked w' b y prol fs) (sym first) rest)

-- `mid` becomes one block.
pub stamped-IsTiled :
    (h : Heap) (w' : Words) (b : Block) (front mid back : List Block)
    → IsTiled h (front ++ (mid ++ back))
    → IsStamped h.word w' (end_of (h.memory.start_brk + 4) front) b
    → b.size % 8 ≡ 0
    → 16 ≤ b.size
    → end_of (end_of (h.memory.start_brk + 4) front) mid
      ≡ end_of (h.memory.start_brk + 4) front + b.size
    → IsAt h.prol_bp true (h.memory.start_brk + 4) (front ++ (b ∷ back))
    → IsTiled (rewritten h w' h.root_bp) (front ++ (b ∷ back))
stamped-IsTiled h w' b front mid back v s aligned big e anchor =
    let p : ℕ = h.memory.start_brk + 4 in
    let end : ℕ = h.memory.brk - 4 in
    let (tiles, last) =
      stamped-between h.word w' p end b front mid back v.tiles s aligned (omega arith) e in
    let (r1, r2) = AllRoomy-split front (mid ++ back) v.roomy in
    let (r3, r4) = AllRoomy-split mid back r2 in
    record {
      memory = v.memory;
      prologue = v.prologue;
      aligned = v.aligned;
      sized = v.sized;
      tiles = tiles;
      epilogue = last ∙ v.epilogue;
      roomy = AllRoomy-append front (b ∷ back) r1 (big, r4);
      anchor = anchor;
    }

-- A block outside of some bytes in the middle.
abbrev pub IsOutside :
    (x : ℕ) (u : Bool) (p : ℕ) (front : List Block) (hi : ℕ) (back : List Block) → Type 0
IsOutside x u p front hi back = IsAt x u p front ⊎ IsAt x u hi back

pub IsOutside-IsAt :
    (x : ℕ) (u : Bool) (p : ℕ) (front : List Block) (b : Block) (back : List Block)
    → IsOutside x u p front (end_of p front + b.size) back
    → IsAt x u p (front ++ (b ∷ back))
IsOutside-IsAt x u p front b back (inl i) = IsAt-front x u p front (b ∷ back) i
IsOutside-IsAt x u p front b back (inr i) = IsAt-back x u p front (b ∷ back) (inr i)

pub stamped-IsState :
    (h : Heap) (w' : Words) (b : Block) (front mid back : List Block) (fs : List ℕ)
    → IsState h (front ++ (mid ++ back)) fs
    → let p = h.memory.start_brk + 4 in
      let hi = end_of p front + b.size in
      IsStamped h.word w' (end_of p front) b
      → b.size % 8 ≡ 0
      → 16 ≤ b.size
      → end_of (end_of p front) mid ≡ hi
      → IsOutside h.prol_bp true p front hi back
      → ((x : ℕ) → Memᴰ x fs → IsOutside x false p front hi back)
      → IsState (rewritten h w' h.root_bp) (front ++ (b ∷ back)) fs
stamped-IsState h w' b front mid back fs v s aligned big e anchor clear =
    let p : ℕ = h.memory.start_brk + 4 in
    let hi : ℕ = end_of p front + b.size in
    let (r1, r2) = AllRoomy-split front (mid ++ back) v.tiled.roomy in
    let (r3, r4) = AllRoomy-split mid back r2 in
    let kept = λ (x : ℕ) (u : Bool) (o : IsOutside x u p front hi back).
      stamped-outside h.word w' x u p hi b front back s (omega arith) r1 r4 refl o in
    record {
      tiled =
          stamped-IsTiled h w' b front mid back v.tiled s aligned big e
            (IsOutside-IsAt h.prol_bp true p front b back anchor);
      list = record {
        linked =
            AreLinked-kept h.word w' 0 h.root_bp h.prol_bp fs v.list.linked
              (λ x i. kept x false (clear x i)) (kept h.prol_bp true anchor).1;
        apart = v.list.apart;
      };
      sound = λ x i. IsOutside-IsAt x false p front b back (clear x i);
    }
