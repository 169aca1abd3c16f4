-- ===== src/Cachelab/Trans/Loops.antt =====
-- What the loops of cachelab_handout/trans.c keep and bring about, and one write.
use mathlib.Core.Path.{subst, ◌∙◌}
use sysprog2021s.Prelude.{
  ℕ, zero, suc, ◌+◌, ◌*◌, ◌<◌, ◌≡◌, ap, ◌&&◌, ◌==◌, inl, inr, arith, Bool-cases,
}
use sysprog2021s.Cachelab.Trans.{Matrix, store, loop}

-- What every round keeps holds in the end if it holds at first.
pub loop-keeps {ℓ} :
    {S : Type ℓ}
    → (P : S → Type 0) (count start step : ℕ) (body : ℕ → S → S) (s : S)
    → ((r : ℕ) → r < count → (s : S) → P s → P (body (start + r * step) s))
    → P s
    → P (loop count start step body s)
unfolding loop
loop-keeps P zero start step body s keeps i = i
loop-keeps P (suc count) start step body s keeps i =
    loop-keeps P count (start + step) step body (body start s)
      (λ r lt s i. subst (λ x. P (body x s)) (omega arith) (keeps (suc r) (omega arith) s i))
      (subst (λ x. P (body x s)) (omega arith) (keeps zero (omega arith) s i))

-- What every round keeps and one of them brings about holds in the end.
pub loop-reaches {ℓ} :
    {S : Type ℓ}
    → (P : S → Type 0) (count start step : ℕ) (body : ℕ → S → S) (s : S)
    → ((r : ℕ) → r < count → (s : S) → P s → P (body (start + r * step) s))
    → (k : ℕ) → k < count
    → ((s : S) → P (body (start + k * step) s))
    → P (loop count start step body s)
unfolding loop
loop-reaches P zero start step body s keeps k lt reach = absurd (omega arith)
loop-reaches P (suc count) start step body s keeps zero lt reach =
    loop-keeps P count (start + step) step body (body start s)
      (λ r lt s i. subst (λ x. P (body x s)) (omega arith) (keeps (suc r) (omega arith) s i))
      (subst (λ x. P (body x s)) (omega arith) (reach s))
loop-reaches P (suc count) start step body s keeps (suc k) lt reach =
    loop-reaches P count (start + step) step body (body start s)
      (λ r lt s i. subst (λ x. P (body x s)) (omega arith) (keeps (suc r) (omega arith) s i)) k
      (omega arith) (λ s. subst (λ x. P (body x s)) (omega arith) (reach s))

-- A write of an element of the transpose to its place.
pub store-keeps : (a b : Matrix) (i j x y : ℕ) → b j i ≡ a i j → store x y (a y x) b j i ≡ a i j
unfolding store
store-keeps a b i j x y e = elim (Bool-cases (j == x && i == y)) [
  | inl here ↦
      let ex : x ≡ j = ground arith in
      let ey : y ≡ i = ground arith in rw here (ap (λ y. a y x) ey ∙ ap (λ x. a i x) ex)
  | inr other ↦ rw other e
]

pub store-here : (b : Matrix) (x y v : ℕ) → store x y v b x y ≡ v
unfolding store
store-here b x y v = ground arith
