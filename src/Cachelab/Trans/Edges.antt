-- ===== src/Cachelab/Trans/Edges.antt =====
-- The general case of cachelab_handout/trans.c writes every element of the transpose, and nothing
-- outside its bounds.
use mathlib.Core.Path.{subst}
use sysprog2021s.Prelude.{
  ℕ, ◌+◌, ◌-◌, ◌*◌, ◌/◌, ◌%◌, ◌<◌, ◌≡◌, refl, true, false, ◌&&◌, ◌==◌, inl, inr, ltb, if◌then◌else◌,
  arith, Bool-cases,
}
use sysprog2021s.Cachelab.Trans.{
  Matrix, store, loop, fill_row, fill_block, fill_column, rounds, least, transpose_any,
  is_transpose,
}
use sysprog2021s.Cachelab.Trans.Loops.{loop-keeps, loop-reaches, store-keeps, store-here}

-- What every write inside the bounds keeps holds behind the loops.
module _ (m_max n_max : ℕ) (a : Matrix) (P : Matrix → Type 0)
    (keeps : (x y : ℕ) (b : Matrix) → x < m_max → y < n_max → P b → P (store x y (a y x) b)) where
  fill_row-keeps :
      (mm nn n : ℕ) (b : Matrix) → nn + n < n_max → P b → P (fill_row m_max a mm nn n b)
  unfolding fill_row
  fill_row-keeps mm nn n b ln =
      loop-keeps P (least 16 (m_max - mm)) 0 1
        (λ m b. store (mm + m) (nn + n) (a (nn + n) (mm + m)) b) b
        (λ r lt b. keeps (mm + (0 + r * 1)) (nn + n) b (ground (arith, lt)) ln)

  fill_block-keeps : (mm nn : ℕ) (b : Matrix) → P b → P (fill_block m_max n_max a mm nn b)
  unfolding fill_block
  fill_block-keeps mm nn b =
      loop-keeps P (least 16 (n_max - nn)) 0 1 (λ n b. fill_row m_max a mm nn n b) b
        (λ r lt b. fill_row-keeps mm nn (0 + r * 1) b (ground (arith, lt)))

  fill_column-keeps : (mm : ℕ) (b : Matrix) → P b → P (fill_column m_max n_max a mm b)
  unfolding fill_column
  fill_column-keeps mm b =
      loop-keeps P (rounds n_max 16) 0 16 (λ nn b. fill_block m_max n_max a mm nn b) b
        (λ r lt b. fill_block-keeps mm (0 + r * 16) b)

  transpose_any-keeps : (b : Matrix) → P b → P (transpose_any m_max n_max a b)
  unfolding transpose_any
  transpose_any-keeps b =
      loop-keeps P (rounds m_max 16) 0 16 (λ mm b. fill_column m_max n_max a mm b) b
        (λ r lt b. fill_column-keeps (0 + r * 16) b)

store-outside :
    (b : Matrix) (i j x y v k : ℕ) → (i == y && j == x) ≡ false → b j i ≡ k → store x y v b j i ≡ k
unfolding store
store-outside b i j x y v k out e = ground (arith, out, e)

module _ (m_max n_max : ℕ) (a : Matrix) (i j : ℕ) where
  -- The element at row `j` and column `i` is that of the transpose.
  abbrev IsCopied : Matrix → Type 0
  IsCopied b = b j i ≡ a i j

  copied :
      (x y : ℕ) (b : Matrix) → x < m_max → y < n_max → IsCopied b → IsCopied (store x y (a y x) b)
  copied x y b lx ly = store-keeps a b i j x y

  fill_row-IsCopied :
      (mm nn n m : ℕ) (b : Matrix)
      → m < least 16 (m_max - mm)
      → mm + m ≡ j
      → nn + n ≡ i
      → IsCopied (fill_row m_max a mm nn n b)
  unfolding fill_row
  fill_row-IsCopied mm nn n m b lt ej ei =
      loop-reaches IsCopied (least 16 (m_max - mm)) 0 1
        (λ m b. store (mm + m) (nn + n) (a (nn + n) (mm + m)) b) b
        (λ r lt b. store-keeps a b i j (mm + (0 + r * 1)) (nn + n)) m lt
        (λ b.
          subst
            (λ y. store (mm + (0 + m * 1)) (nn + n) (a (nn + n) (mm + (0 + m * 1))) b j y ≡ a y j)
            ei
            (subst (λ x. store x (nn + n) (a (nn + n) x) b j (nn + n) ≡ a (nn + n) j) (omega arith)
              (store-here b j (nn + n) (a (nn + n) j))))

  covered : (b : Matrix) → i < n_max → j < m_max → IsCopied (transpose_any m_max n_max a b)
  unfolding transpose_any fill_column fill_block
  covered b li lj =
      let mm : ℕ = 0 + j / 16 * 16 in
      let nn : ℕ = 0 + i / 16 * 16 in
      loop-reaches IsCopied (rounds m_max 16) 0 16 (λ mm b. fill_column m_max n_max a mm b) b
        (λ r lt b. fill_column-keeps m_max n_max a IsCopied copied (0 + r * 16) b) (j / 16)
        (omega arith)
        (λ b.
          loop-reaches IsCopied (rounds n_max 16) 0 16 (λ nn b. fill_block m_max n_max a mm nn b) b
            (λ r lt b. fill_block-keeps m_max n_max a IsCopied copied mm (0 + r * 16) b) (i / 16)
            (omega arith)
            (λ b.
              loop-reaches IsCopied (least 16 (n_max - nn)) 0 1 (λ n b. fill_row m_max a mm nn n b)
                b
                (λ r lt b.
                  fill_row-keeps m_max n_max a IsCopied copied mm nn (0 + r * 1) b
                    (ground (arith, lt)))
                (i % 16) (ground arith)
                (λ b.
                  fill_row-IsCopied mm nn (0 + i % 16 * 1) (j % 16) b (ground arith) (omega arith)
                    (omega arith))))

-- Where the number of rows is neither 32 nor 64, the blocks of 16 columns and 16 rows, cut off at
-- the edges, cover the matrix: every element of the transpose is written, for any size of the
-- matrix, and nothing is written outside it.
pub transpose_any-IsCopied :
    (m_max n_max : ℕ) (a b : Matrix) (i j : ℕ)
    → transpose_any m_max n_max a b j i ≡ (if ltb i n_max && ltb j m_max then a i j else b j i)
transpose_any-IsCopied m_max n_max a b i j = elim (Bool-cases (ltb i n_max && ltb j m_max)) [
  | inl within ↦ ground (arith, within, covered m_max n_max a i j b (ground arith) (ground arith))
  | inr out ↦
      let kept : transpose_any m_max n_max a b j i ≡ b j i =
        transpose_any-keeps m_max n_max a (λ c. c j i ≡ b j i)
          (λ x y c lx ly. store-outside c i j x y (a y x) (b j i) (ground (arith, out, lx, ly))) b
          refl in
      rw out kept
]

-- What the transpose for other sizes writes passes the check of the source's own `is_transpose`.
is_transpose-transpose_any :
    (m_max n_max : ℕ) (a b : Matrix)
    → is_transpose m_max n_max a (transpose_any m_max n_max a b) ≡ true
unfolding is_transpose
is_transpose-transpose_any m_max n_max a b =
    let c = transpose_any m_max n_max a b in
    loop-keeps (λ ok. ok ≡ true) n_max 0 1 (λ i. loop m_max 0 1 (λ j ok. ok && a i j == c j i)) true
      (λ i li ok e.
        loop-keeps (λ ok. ok ≡ true) m_max 0 1 (λ j ok. ok && a (0 + i * 1) j == c j (0 + i * 1)) ok
          (λ j lj ok e.
            ground (arith, e, transpose_any-IsCopied m_max n_max a b (0 + i * 1) (0 + j * 1)))
          e)
      refl
