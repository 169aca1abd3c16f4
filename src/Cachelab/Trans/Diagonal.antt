-- ===== src/Cachelab/Trans/Diagonal.antt =====
-- The blocks on the diagonal for 64 rows in cachelab_handout/trans.c.
use mathlib.Core.Path.{subst, sym, ◌∙◌}
use sysprog2021s.Prelude.{
  ℕ, ◌+◌, ◌-◌, ◌<◌, ◌≡◌, refl, ap, ◌==◌, ltb, if◌then◌else◌, inl, inr, arith, Bool-cases,
}
use sysprog2021s.Cachelab.Trans.{
  Matrix, store, loop, copy_aside, take_right, take_left, copy_rows, transpose_block,
}
use sysprog2021s.Cachelab.Trans.Quadrants.{
  block, block-store, loop-maps, below_8, transpose_quadrants-block,
}

module _ (d : ℕ) where
  element-at : (b : Matrix) (x y : ℕ) → b (d + x) (d + y) ≡ block d d b (0 + x) (0 + y)
  element-at b x y = ap (λ r. b r (d + y)) (omega arith) ∙ ap (λ c. b (d + (0 + x)) c) (omega arith)

  block-copy_aside :
      (a b : Matrix) → block d d (copy_aside d d a b) ≡ copy_aside 0 0 (block d d a) (block d d b)
  unfolding copy_aside
  block-copy_aside a b =
      loop-maps (block d d) 8 0 1
        (λ n b. loop 8 0 1 (λ m b. store (d + n) (d + (m + 8)) (a (d + n) (d + m)) b) b)
        (λ n b. loop 8 0 1 (λ m b. store (0 + n) (0 + (m + 8)) (block d d a (0 + n) (0 + m)) b) b) b
        (λ n b.
          loop-maps (block d d) 8 0 1 (λ m b. store (d + n) (d + (m + 8)) (a (d + n) (d + m)) b)
            (λ m b. store (0 + n) (0 + (m + 8)) (block d d a (0 + n) (0 + m)) b) b
            (λ m b.
              block-store d d n (m + 8) (a (d + n) (d + m)) (block d d a (0 + n) (0 + m)) b
                (element-at a n m)))

  block-take_right : (b : Matrix) → block d d (take_right d d b) ≡ take_right 0 0 (block d d b)
  unfolding take_right
  block-take_right b =
      loop-maps (block d d) 8 0 1
        (λ k b. loop 4 4 1 (λ n b. store (d + (7 - k)) (d + n) (b (d + n) (d + (7 - k + 8))) b) b)
        (λ k b. loop 4 4 1 (λ n b. store (0 + (7 - k)) (0 + n) (b (0 + n) (0 + (7 - k + 8))) b) b) b
        (λ k b.
          loop-maps (block d d) 4 4 1
            (λ n b. store (d + (7 - k)) (d + n) (b (d + n) (d + (7 - k + 8))) b)
            (λ n b. store (0 + (7 - k)) (0 + n) (b (0 + n) (0 + (7 - k + 8))) b) b
            (λ n b.
              block-store d d (7 - k) n (b (d + n) (d + (7 - k + 8)))
                (block d d b (0 + n) (0 + (7 - k + 8))) b (element-at b n (7 - k + 8))))

  block-take_left : (b : Matrix) → block d d (take_left d d b) ≡ take_left 0 0 (block d d b)
  unfolding take_left
  block-take_left b =
      loop-maps (block d d) 8 0 1
        (λ m b. loop 4 0 1 (λ n b. store (d + m) (d + n) (b (d + n) (d + (m + 8))) b) b)
        (λ m b. loop 4 0 1 (λ n b. store (0 + m) (0 + n) (b (0 + n) (0 + (m + 8))) b) b) b
        (λ m b.
          loop-maps (block d d) 4 0 1 (λ n b. store (d + m) (d + n) (b (d + n) (d + (m + 8))) b)
            (λ n b. store (0 + m) (0 + n) (b (0 + n) (0 + (m + 8))) b) b
            (λ n b.
              block-store d d m n (b (d + n) (d + (m + 8))) (block d d b (0 + n) (0 + (m + 8))) b
                (element-at b n (m + 8))))

  block-copy_rows :
      (a b : Matrix) → block d d (copy_rows d d a b) ≡ copy_rows 0 0 (block d d a) (block d d b)
  unfolding copy_rows
  block-copy_rows a b =
      loop-maps (block d d) 8 0 1
        (λ n b. loop 8 0 1 (λ k b. store (d + k) (d + n) (a (d + n) (d + k)) b) b)
        (λ n b. loop 8 0 1 (λ k b. store (0 + k) (0 + n) (block d d a (0 + n) (0 + k)) b) b) b
        (λ n b.
          loop-maps (block d d) 8 0 1 (λ k b. store (d + k) (d + n) (a (d + n) (d + k)) b)
            (λ k b. store (0 + k) (0 + n) (block d d a (0 + n) (0 + k)) b) b
            (λ k b.
              block-store d d k n (a (d + n) (d + k)) (block d d a (0 + n) (0 + k)) b
                (element-at a n k)))

first_aside :
    (a b : Matrix) (x : ℕ)
    → x < 8
    → (y : ℕ) → y < 8
    → take_left 0 0 (take_right 0 0 (copy_aside 0 0 a b)) x y ≡ a y x
unfolding take_left take_right copy_aside loop store
first_aside a b x lt =
    let T : ℕ → ℕ → Type 0 =
      λ x y. take_left 0 0 (take_right 0 0 (copy_aside 0 0 a b)) x y ≡ a y x in
    below_8 (λ x. (y : ℕ) → y < 8 → T x y)
      (below_8 (λ y. T 0 y) refl refl refl refl refl refl refl refl)
      (below_8 (λ y. T 1 y) refl refl refl refl refl refl refl refl)
      (below_8 (λ y. T 2 y) refl refl refl refl refl refl refl refl)
      (below_8 (λ y. T 3 y) refl refl refl refl refl refl refl refl)
      (below_8 (λ y. T 4 y) refl refl refl refl refl refl refl refl)
      (below_8 (λ y. T 5 y) refl refl refl refl refl refl refl refl)
      (below_8 (λ y. T 6 y) refl refl refl refl refl refl refl refl)
      (below_8 (λ y. T 7 y) refl refl refl refl refl refl refl refl) x lt

first_rows : (a b : Matrix) (x : ℕ) → x < 8 → (y : ℕ) → y < 8 → copy_rows 0 0 a b x y ≡ a y x
unfolding copy_rows loop store
first_rows a b x lt =
    let T : ℕ → ℕ → Type 0 = λ x y. copy_rows 0 0 a b x y ≡ a y x in
    below_8 (λ x. (y : ℕ) → y < 8 → T x y)
      (below_8 (λ y. T 0 y) refl refl refl refl refl refl refl refl)
      (below_8 (λ y. T 1 y) refl refl refl refl refl refl refl refl)
      (below_8 (λ y. T 2 y) refl refl refl refl refl refl refl refl)
      (below_8 (λ y. T 3 y) refl refl refl refl refl refl refl refl)
      (below_8 (λ y. T 4 y) refl refl refl refl refl refl refl refl)
      (below_8 (λ y. T 5 y) refl refl refl refl refl refl refl refl)
      (below_8 (λ y. T 6 y) refl refl refl refl refl refl refl refl)
      (below_8 (λ y. T 7 y) refl refl refl refl refl refl refl refl) x lt

-- Each block is transposed, whatever the target held.
transpose_block-IsCopied :
    (mm nn : ℕ) (a b : Matrix) (x y : ℕ)
    → x < 8
    → y < 8
    → transpose_block mm nn a b (mm + x) (nn + y) ≡ a (nn + y) (mm + x)
unfolding transpose_block
transpose_block-IsCopied mm nn a b x y lx ly = elim (Bool-cases (nn == mm)) [
  | inr other ↦ rw other (transpose_quadrants-block mm nn a b x y lx ly)
  | inl same ↦
      let e : mm ≡ nn = ground arith in
      rw same (
        subst
          (λ d.
            (if ltb (nn + 8) 64
                then take_left d nn (take_right d nn (copy_aside d nn a b))
                else copy_rows d nn a b)
              (d + x) (nn + y)
            ≡ a (nn + y) (d + x))
          (sym e)
          (elim (Bool-cases (ltb (nn + 8) 64)) [
            | inl aside ↦ rw aside (
                ap (λ c. c x y)
                  (block-take_left nn (take_right nn nn (copy_aside nn nn a b))
                    ∙ ap (take_left 0 0) (
                        block-take_right nn (copy_aside nn nn a b)
                        ∙ ap (take_right 0 0) (block-copy_aside nn a b)))
                ∙ first_aside (block nn nn a) (block nn nn b) x lx y ly)
            | inr last ↦ rw last (
                ap (λ c. c x y) (block-copy_rows nn a b)
                ∙ first_rows (block nn nn a) (block nn nn b) x lx y ly)
          ]))
]
