-- ===== src/Malloclab/Explicit/Searches.antt =====
-- The free blocks of malloclab-handout/src/mm.c that its search can find.
use mathlib.Core.List.{Memᴰ}
use mathlib.Core.List.Memᴰ
use mathlib.Core.Path.{subst, sym, ◌∙◌}
use sysprog2021s.Prelude.{
  ℕ, ◌+◌, ◌≤◌, ◌<◌, ◌≡◌, refl, ap, true, false, List, [], ◌∷◌, ◌++◌, ◌==◌, leb, ◌⊎◌, inl, inr,
  arith, Bool-cases, length,
}
use sysprog2021s.Malloclab.Words.{Words, get_size, hdrp}
use sysprog2021s.Malloclab.Blocks.{Block, AreTiles}
use sysprog2021s.Malloclab.Live.{free, place_at, placed, IsFitAt, AllLarge, IsFitAt-below}
use sysprog2021s.Malloclab.Places.{IsAt, end_of, AllRoomy}
use sysprog2021s.Malloclab.Explicit.FreeList.{AllApart}
use sysprog2021s.Malloclab.Explicit.Unlink.{remove, remove-front, remove-later, AllApart-remove}
use sysprog2021s.Malloclab.Explicit.States.{remove-Memᴰ}
use sysprog2021s.Malloclab.Explicit.Hands.{remove-gone}
use sysprog2021s.Malloclab.Explicit.Fits.{first_block}

-- Where a free block that is large enough lies, and what `place_at` makes of the blocks.
pub record IsFound (q bsize p : ℕ) (bs : List Block) : Type 0 where
  pub front : List Block
  pub size : ℕ
  pub rest : List Block
  pub split : bs ≡ front ++ (free size ∷ rest)
  pub at : end_of p front + 4 ≡ q
  pub fits : bsize ≤ size
  pub result : place_at q bsize p bs ≡ front ++ placed bsize size rest

pub IsFitAt-IsFound :
    (q bsize p : ℕ) (bs : List Block) → AllLarge bs → IsFitAt q bsize p bs → IsFound q bsize p bs
unfolding place_at
IsFitAt-IsFound q bsize p [] l u = absurd u
IsFitAt-IsFound q bsize p (b ∷ bs) l (inl (e, unused, fits)) =
    let here : (p + 4 == q) ≡ true = ground arith in
    record {
      front = [];
      size = b.size;
      rest = bs;
      split = ap (λ u. record { size = b.size; used = u } ∷ bs) unused;
      at = e;
      fits = fits;
      result = rw here refl;
    }
IsFitAt-IsFound q bsize p (b ∷ bs) l (inr u) =
    let f = IsFitAt-IsFound q bsize (p + b.size) bs l.1 u in
    let below = IsFitAt-below q bsize (p + b.size) bs l.1 u in
    let later : (p + 4 == q) ≡ false = ground arith in
    record {
      front = b ∷ f.front;
      size = f.size;
      rest = f.rest;
      split = ap (λ bs. b ∷ bs) f.split;
      at = f.at;
      fits = f.fits;
      result = rw later (ap (λ bs. b ∷ bs) f.result);
    }

-- A free block whose header says that it is large enough.
pub IsAt-IsFitAt :
    (w : Words) (x bsize p end : ℕ) (bs : List Block)
    → AreTiles w p bs end
    → IsAt x false p bs
    → bsize ≤ get_size (hdrp x) w
    → IsFitAt x bsize p bs
IsAt-IsFitAt w x bsize p end [] t i le = absurd i
IsAt-IsFitAt w x bsize p end (b ∷ bs) t (inl (e, u)) le =
    let here : hdrp x ≡ p = omega arith in
    let size : get_size p w ≡ b.size = ground (arith, t.0, u) in
    inl (e, u, subst (λ n. bsize ≤ n) (ap (λ q. get_size q w) here ∙ size) le)
IsAt-IsFitAt w x bsize p end (b ∷ bs) t (inr i) le =
    inr (IsAt-IsFitAt w x bsize (p + b.size) end bs t.1 i le)

pub IsFitAt-IsAt :
    (w : Words) (x bsize p end : ℕ) (bs : List Block)
    → AreTiles w p bs end
    → IsFitAt x bsize p bs
    → IsAt x false p bs × (bsize ≤ get_size (hdrp x) w)
IsFitAt-IsAt w x bsize p end [] t i = absurd i
IsFitAt-IsAt w x bsize p end (b ∷ bs) t (inl (e, u, le)) =
    let here : p ≡ hdrp x = omega arith in
    let size : b.size ≡ get_size p w = ground (arith, t.0, u) in
    (inl (e, u), subst (λ n. bsize ≤ n) (size ∙ ap (λ q. get_size q w) here) le)
IsFitAt-IsAt w x bsize p end (b ∷ bs) t (inr i) =
    let (at, le) = IsFitAt-IsAt w x bsize (p + b.size) end bs t.1 i in (inr at, le)

-- The search returns a block of the list that is large enough, or 0 when there is none.
pub first_block-cases :
    (bsize : ℕ) (w : Words) (fs : List ℕ)
    → (Memᴰ (first_block bsize w fs) fs × (bsize ≤ get_size (hdrp (first_block bsize w fs)) w))
      ⊎ ((first_block bsize w fs ≡ 0) × ((x : ℕ) → Memᴰ x fs → get_size (hdrp x) w < bsize))
unfolding first_block
first_block-cases bsize w [] = inr (refl, λ x i. elim i [ ])
first_block-cases bsize w (f ∷ fs) = elim (Bool-cases (leb bsize (get_size (hdrp f) w))) [
  | inl fits ↦ rw fits (inl (Memᴰ.head refl, ground arith))
  | inr less ↦ rw less (elim (first_block-cases bsize w fs) [
    | inl found ↦ inl (Memᴰ.tail found.0, found.1)
    | inr (null, none_fits) ↦ inr (
      null,
      λ x i. elim (Memᴰ.cases_cons i) [
        | inl e ↦ subst (λ y. get_size (hdrp y) w < bsize) (sym e) (ground arith)
        | inr j ↦ none_fits x j
      ],
    )
  ])
]

length-remove : (x : ℕ) (fs : List ℕ) → length fs ≤ length (remove x fs) + 1
length-remove x [] = omega arith
length-remove x (f ∷ fs) = elim (Bool-cases (x == f)) [
  | inl same ↦
      let e : x ≡ f = ground arith in
      subst (λ l. length (f ∷ fs) ≤ length l + 1)
        (sym (remove-front f fs) ∙ ap (λ y. remove y (f ∷ fs)) (sym e)) (omega arith)
  | inr later ↦
      subst (λ l. length (f ∷ fs) ≤ length l + 1) (sym (remove-later x f fs (ground arith)))
        (omega (arith, length-remove x fs))
]

-- The list has no more entries than the heap has blocks.
pub length-free :
    (p prol : ℕ) (bs : List Block) (fs : List ℕ)
    → AllRoomy bs
    → AllApart prol fs
    → ((x : ℕ) → Memᴰ x fs → IsAt x false p bs)
    → length fs ≤ length bs
length-free p prol [] [] r a sound = omega arith
length-free p prol [] (f ∷ fs) r a sound = absurd (sound f (Memᴰ.head refl))
length-free p prol (b ∷ bs) fs r a sound =
    let later =
      length-free (p + b.size) prol bs (remove (p + 4) fs) r.1 (AllApart-remove (p + 4) prol fs a)
        (λ x i. elim (sound x (remove-Memᴰ x (p + 4) fs i)) [
          | inl here ↦ absurd (
              remove-gone (p + 4) prol fs a
                (subst (λ y. Memᴰ y (remove (p + 4) fs)) (sym here.0) i))
          | inr j ↦ j
        ]) in
    omega (arith, later, length-remove (p + 4) fs)
