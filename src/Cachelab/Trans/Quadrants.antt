-- ===== src/Cachelab/Trans/Quadrants.antt =====
-- The blocks of 8 by 8 of cachelab_handout/trans.c that are transposed by quadrants.
use mathlib.Core.Path.{subst, sym, ◌∙◌, fun_ext}
use sysprog2021s.Prelude.{ℕ, zero, suc, ◌+◌, ◌-◌, ◌<◌, ◌≡◌, refl, ap, inl, inr, ◌⊎◌, arith}
use sysprog2021s.Cachelab.Trans.{
  Matrix, store, loop, swap, copy_upper, swap_upper, exchange_row, copy_last, transpose_quadrants,
}

-- The block of a matrix with its first element at row `mm` and column `nn`.
abbrev pub block : (mm nn : ℕ) → Matrix → Matrix
block mm nn b x y = b (mm + x) (nn + y)

pub block-store :
    (mm nn x y v v' : ℕ) (b : Matrix)
    → v ≡ v'
    → block mm nn (store (mm + x) (nn + y) v b) ≡ store (0 + x) (0 + y) v' (block mm nn b)
unfolding store
block-store mm nn x y v v' b e = fun_ext (λ i. fun_ext (λ j. ground arith))

-- What commutes with each round commutes with the loop.
pub loop-maps {ℓ} :
    {S : Type ℓ}
    → (g : S → S) (count start step : ℕ) (body body' : ℕ → S → S) (s : S)
    → ((k : ℕ) (s : S) → g (body k s) ≡ body' k (g s))
    → g (loop count start step body s) ≡ loop count start step body' (g s)
unfolding loop
loop-maps g zero start step body body' s e = refl
loop-maps g (suc count) start step body body' s e =
    loop-maps g count (start + step) step body body' (body start s) e
    ∙ ap (loop count (start + step) step body') (e start s)

module _ (mm nn : ℕ) (a : Matrix) where
  source-at : (x y : ℕ) → a (nn + y) (mm + x) ≡ block nn mm a (0 + y) (0 + x)
  source-at x y = ap (λ r. a r (mm + x)) (omega arith) ∙ ap (λ c. a (nn + (0 + y)) c) (omega arith)

  target-at : (b : Matrix) (x y : ℕ) → b (mm + x) (nn + y) ≡ block mm nn b (0 + x) (0 + y)
  target-at b x y =
      ap (λ r. b r (nn + y)) (omega arith) ∙ ap (λ c. b (mm + (0 + x)) c) (omega arith)

  block-copy_upper :
      (b : Matrix)
      → block mm nn (copy_upper mm nn a b) ≡ copy_upper 0 0 (block nn mm a) (block mm nn b)
  unfolding copy_upper
  block-copy_upper b =
      loop-maps (block mm nn) 4 0 1
        (λ n b. loop 8 0 1 (λ m b. store (mm + n) (nn + m) (a (nn + n) (mm + m)) b) b)
        (λ n b. loop 8 0 1 (λ m b. store (0 + n) (0 + m) (block nn mm a (0 + n) (0 + m)) b) b) b
        (λ n b.
          loop-maps (block mm nn) 8 0 1 (λ m b. store (mm + n) (nn + m) (a (nn + n) (mm + m)) b)
            (λ m b. store (0 + n) (0 + m) (block nn mm a (0 + n) (0 + m)) b) b
            (λ m b.
              block-store mm nn n m (a (nn + n) (mm + m)) (block nn mm a (0 + n) (0 + m)) b
                (source-at m n)))

  block-copy_last :
      (b : Matrix)
      → block mm nn (copy_last mm nn a b) ≡ copy_last 0 0 (block nn mm a) (block mm nn b)
  unfolding copy_last
  block-copy_last b =
      loop-maps (block mm nn) 4 4 1
        (λ n b. loop 4 4 1 (λ m b. store (mm + m) (nn + n) (a (nn + n) (mm + m)) b) b)
        (λ n b. loop 4 4 1 (λ m b. store (0 + m) (0 + n) (block nn mm a (0 + n) (0 + m)) b) b) b
        (λ n b.
          loop-maps (block mm nn) 4 4 1 (λ m b. store (mm + m) (nn + n) (a (nn + n) (mm + m)) b)
            (λ m b. store (0 + m) (0 + n) (block nn mm a (0 + n) (0 + m)) b) b
            (λ m b.
              block-store mm nn m n (a (nn + n) (mm + m)) (block nn mm a (0 + n) (0 + m)) b
                (source-at m n)))

  block-swap :
      (r c r' c' : ℕ) (b : Matrix)
      → block mm nn (swap (mm + r) (nn + c) (mm + r') (nn + c') b)
        ≡ swap (0 + r) (0 + c) (0 + r') (0 + c') (block mm nn b)
  unfolding swap
  block-swap r c r' c' b =
      let first =
        block-store mm nn r c (b (mm + r') (nn + c')) (block mm nn b (0 + r') (0 + c')) b
          (target-at b r' c') in
      let b1 = store (mm + r) (nn + c) (b (mm + r') (nn + c')) b in
      block-store mm nn r' c' (b (mm + r) (nn + c)) (block mm nn b (0 + r) (0 + c)) b1
        (target-at b r c)
      ∙ ap (store (0 + r') (0 + c') (block mm nn b (0 + r) (0 + c))) first

  block-swap_upper :
      (b : Matrix) → block mm nn (swap_upper mm nn b) ≡ swap_upper 0 0 (block mm nn b)
  unfolding swap_upper
  block-swap_upper b =
      loop-maps (block mm nn) 4 0 1
        (λ n b.
          loop (4 - (n + 1)) (n + 1) 1
            (λ m b.
              swap (mm + n) (nn + (4 + m)) (mm + m) (nn + (4 + n))
                (swap (mm + n) (nn + m) (mm + m) (nn + n) b))
            b)
        (λ n b.
          loop (4 - (n + 1)) (n + 1) 1
            (λ m b.
              swap (0 + n) (0 + (4 + m)) (0 + m) (0 + (4 + n))
                (swap (0 + n) (0 + m) (0 + m) (0 + n) b))
            b)
        b
        (λ n b.
          loop-maps (block mm nn) (4 - (n + 1)) (n + 1) 1
            (λ m b.
              swap (mm + n) (nn + (4 + m)) (mm + m) (nn + (4 + n))
                (swap (mm + n) (nn + m) (mm + m) (nn + n) b))
            (λ m b.
              swap (0 + n) (0 + (4 + m)) (0 + m) (0 + (4 + n))
                (swap (0 + n) (0 + m) (0 + m) (0 + n) b))
            b
            (λ m b.
              block-swap n (4 + m) m (4 + n) (swap (mm + n) (nn + m) (mm + m) (nn + n) b)
              ∙ ap (swap (0 + n) (0 + (4 + m)) (0 + m) (0 + (4 + n))) (block-swap n m m n b)))

  block-exchange_row :
      (m : ℕ) (b : Matrix)
      → block mm nn (exchange_row mm nn m a b) ≡ exchange_row 0 0 m (block nn mm a) (block mm nn b)
  unfolding exchange_row
  block-exchange_row m b =
      let first = λ (b : Matrix).
        loop-maps (block mm nn) 4 0 1
          (λ k b. store (mm + m) (nn + (4 + k)) (a (nn + (4 + k)) (mm + m)) b)
          (λ k b. store (0 + m) (0 + (4 + k)) (block nn mm a (0 + (4 + k)) (0 + m)) b) b
          (λ k b.
            block-store mm nn m (4 + k) (a (nn + (4 + k)) (mm + m))
              (block nn mm a (0 + (4 + k)) (0 + m)) b (source-at m (4 + k))) in
      let b1 = loop 4 0 1 (λ k b. store (mm + m) (nn + (4 + k)) (a (nn + (4 + k)) (mm + m)) b) b in
      let move : ℕ → Matrix → Matrix =
        λ k b1. store (0 + (4 + m)) (0 + k) (block mm nn b (0 + m) (0 + (4 + k))) b1 in
      loop-maps (block mm nn) 4 0 1
        (λ k b1. store (mm + (4 + m)) (nn + k) (b (mm + m) (nn + (4 + k))) b1) move b1
        (λ k b1.
          block-store mm nn (4 + m) k (b (mm + m) (nn + (4 + k)))
            (block mm nn b (0 + m) (0 + (4 + k))) b1 (target-at b m (4 + k)))
      ∙ ap (loop 4 0 1 move) (first b)

  block-transpose_quadrants :
      (b : Matrix)
      → block mm nn (transpose_quadrants mm nn a b)
        ≡ transpose_quadrants 0 0 (block nn mm a) (block mm nn b)
  unfolding transpose_quadrants
  block-transpose_quadrants b =
      let b1 = swap_upper mm nn (copy_upper mm nn a b) in
      let b2 = loop 4 0 1 (λ m b. exchange_row mm nn m a b) b1 in
      let rows : ℕ → Matrix → Matrix = λ m b. exchange_row 0 0 m (block nn mm a) b in
      block-copy_last b2
      ∙ ap (copy_last 0 0 (block nn mm a)) (
          loop-maps (block mm nn) 4 0 1 (λ m b. exchange_row mm nn m a b) rows b1
            (λ m b. block-exchange_row m b)
          ∙ ap (loop 4 0 1 rows)
              (block-swap_upper (copy_upper mm nn a b) ∙ ap (swap_upper 0 0) (block-copy_upper b)))

-- A number below 8 is one of eight.
pub below_8 :
    (P : ℕ → Type 0) → P 0 → P 1 → P 2 → P 3 → P 4 → P 5 → P 6 → P 7 → (x : ℕ) → x < 8 → P x
below_8 P p0 p1 p2 p3 p4 p5 p6 p7 x lt =
    let which : (x ≡ 0) ⊎ (x ≡ 1) ⊎ (x ≡ 2) ⊎ (x ≡ 3) ⊎ (x ≡ 4) ⊎ (x ≡ 5) ⊎ (x ≡ 6) ⊎ (x ≡ 7) =
      omega arith in
    elim which [
      | inl e ↦ subst P (sym e) p0
      | inr (inl e) ↦ subst P (sym e) p1
      | inr (inr (inl e)) ↦ subst P (sym e) p2
      | inr (inr (inr (inl e))) ↦ subst P (sym e) p3
      | inr (inr (inr (inr (inl e)))) ↦ subst P (sym e) p4
      | inr (inr (inr (inr (inr (inl e))))) ↦ subst P (sym e) p5
      | inr (inr (inr (inr (inr (inr (inl e)))))) ↦ subst P (sym e) p6
      | inr (inr (inr (inr (inr (inr (inr e)))))) ↦ subst P (sym e) p7
    ]

first_block :
    (a b : Matrix) (x : ℕ) → x < 8 → (y : ℕ) → y < 8 → transpose_quadrants 0 0 a b x y ≡ a y x
unfolding transpose_quadrants copy_upper swap_upper exchange_row copy_last swap loop store
first_block a b x lt =
    let T : ℕ → ℕ → Type 0 = λ x y. transpose_quadrants 0 0 a b x y ≡ a y x in
    below_8 (λ x. (y : ℕ) → y < 8 → T x y)
      (below_8 (λ y. T 0 y) refl refl refl refl refl refl refl refl)
      (below_8 (λ y. T 1 y) refl refl refl refl refl refl refl refl)
      (below_8 (λ y. T 2 y) refl refl refl refl refl refl refl refl)
      (below_8 (λ y. T 3 y) refl refl refl refl refl refl refl refl)
      (below_8 (λ y. T 4 y) refl refl refl refl refl refl refl refl)
      (below_8 (λ y. T 5 y) refl refl refl refl refl refl refl refl)
      (below_8 (λ y. T 6 y) refl refl refl refl refl refl refl refl)
      (below_8 (λ y. T 7 y) refl refl refl refl refl refl refl refl) x lt

-- The 64 elements of a block are those of the transpose, whatever the target held.
pub transpose_quadrants-block :
    (mm nn : ℕ) (a b : Matrix) (x y : ℕ)
    → x < 8
    → y < 8
    → transpose_quadrants mm nn a b (mm + x) (nn + y) ≡ a (nn + y) (mm + x)
transpose_quadrants-block mm nn a b x y lx ly =
    ap (λ c. c x y) (block-transpose_quadrants mm nn a b)
    ∙ first_block (block nn mm a) (block mm nn b) x lx y ly
