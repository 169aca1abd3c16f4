-- ===== src/Cachelab/Trans/Blockwise.antt =====
-- The case of 32 rows of cachelab_handout/trans.c writes every element of the transpose.
use mathlib.Core.Path.{subst, sym, ◌∙◌}
use sysprog2021s.Prelude.{
  ℕ, ◌+◌, ◌*◌, ◌/◌, ◌%◌, ◌<◌, ◌≡◌, refl, ap, true, false, ◌==◌, inl, inr, arith, Bool-cases,
}
use sysprog2021s.Cachelab.Trans.{
  Matrix, store, loop, rounds, Scratch, copy_element, copy_row, copy_block, copy_band, transpose_32,
}
use sysprog2021s.Cachelab.Trans.Loops.{loop-keeps, loop-reaches, store-keeps, store-here}

-- The diagonal element of row `n` of a block on the diagonal is held in the two variables.
abbrev IsHeld : Matrix → (x : ℕ) → Scratch → Type 0
IsHeld a x s = (s.t0 ≡ x) × (s.t1 ≡ a x x)

copy_element-IsHeld :
    (a : Matrix) (nn n m : ℕ) (s : Scratch)
    → IsHeld a (nn + n) s
    → IsHeld a (nn + n) (copy_element nn nn n m a s)
unfolding copy_element
copy_element-IsHeld a nn n m s h = elim (Bool-cases (nn + n == nn + m)) [
  | inl on ↦ rw on (refl, refl)
  | inr off ↦ rw off h
]

copy_element-holds :
    (a : Matrix) (nn n m : ℕ) (s : Scratch) → n ≡ m → IsHeld a (nn + n) (copy_element nn nn n m a s)
unfolding copy_element
copy_element-holds a nn n m s e =
    let on : (nn + n == nn + m) ≡ true = ground arith in rw on (refl, refl)

row-IsHeld :
    (a : Matrix) (nn n : ℕ) (s : Scratch)
    → n < 8
    → IsHeld a (nn + n) (loop 8 0 1 (λ m s. copy_element nn nn n m a s) s)
row-IsHeld a nn n s lt =
    loop-reaches (IsHeld a (nn + n)) 8 0 1 (λ m s. copy_element nn nn n m a s) s
      (λ r lt s. copy_element-IsHeld a nn n (0 + r * 1) s) n lt
      (λ s. copy_element-holds a nn n (0 + n * 1) s (omega arith))

module _ (a : Matrix) (i j : ℕ) where
  abbrev IsCopiedTo : Scratch → Type 0
  IsCopiedTo s = s.target j i ≡ a i j

  copy_element-keeps :
      (mm nn n m : ℕ) (s : Scratch) → IsCopiedTo s → IsCopiedTo (copy_element mm nn n m a s)
  unfolding copy_element
  copy_element-keeps mm nn n m s c = elim (Bool-cases (nn + n == mm + m)) [
    | inl on ↦ rw on c
    | inr off ↦ rw off (store-keeps a s.target i j (mm + m) (nn + n) c)
  ]

  copy_element-copies :
      (mm nn n m : ℕ) (s : Scratch)
      → (nn + n == mm + m) ≡ false
      → mm + m ≡ j
      → nn + n ≡ i
      → IsCopiedTo (copy_element mm nn n m a s)
  unfolding copy_element
  copy_element-copies mm nn n m s off ej ei = rw off (
      subst (λ y. store (mm + m) (nn + n) (a (nn + n) (mm + m)) s.target j y ≡ a y j) ei
        (subst (λ x. store x (nn + n) (a (nn + n) x) s.target j (nn + n) ≡ a (nn + n) j) (sym ej)
          (store-here s.target j (nn + n) (a (nn + n) j))))

  -- The last write of a row.
  diagonal_keeps :
      (x : ℕ) (s : Scratch)
      → IsHeld a x s
      → IsCopiedTo s
      → store s.t0 s.t0 s.t1 s.target j i ≡ a i j
  diagonal_keeps x s (e0, e1) c =
      subst (λ v. store s.t0 s.t0 v s.target j i ≡ a i j) (ap (λ x. a x x) e0 ∙ sym e1)
        (store-keeps a s.target i j s.t0 s.t0 c)

  copy_row-keeps :
      (mm nn n : ℕ) (s : Scratch) → n < 8 → IsCopiedTo s → IsCopiedTo (copy_row mm nn n a s)
  unfolding copy_row
  copy_row-keeps mm nn n s lt c =
      let s1 = loop 8 0 1 (λ m s. copy_element mm nn n m a s) s in
      let c1 : IsCopiedTo s1 =
        loop-keeps IsCopiedTo 8 0 1 (λ m s. copy_element mm nn n m a s) s
          (λ r lt s. copy_element-keeps mm nn n (0 + r * 1) s) c in
      elim (Bool-cases (nn == mm)) [
        | inl on ↦
            let same : nn ≡ mm = ground arith in
            rw on (
              diagonal_keeps (nn + n) s1
                (subst (λ x. IsHeld a (nn + n) (loop 8 0 1 (λ m s. copy_element x nn n m a s) s))
                  same (row-IsHeld a nn n s lt))
                c1)
        | inr off ↦ rw off c1
      ]

  -- Behind a row of a block, its element of the transpose is written.
  copy_row-IsCopiedTo :
      (mm nn n m : ℕ) (s : Scratch)
      → n < 8
      → m < 8
      → mm % 8 ≡ 0
      → nn % 8 ≡ 0
      → mm + m ≡ j
      → nn + n ≡ i
      → IsCopiedTo (copy_row mm nn n a s)
  unfolding copy_row
  copy_row-IsCopiedTo mm nn n m s ln lm am an ej ei =
      let s1 = loop 8 0 1 (λ m s. copy_element mm nn n m a s) s in
      elim (Bool-cases (nn + n == mm + m)) [
        | inl on ↦
            let same : nn ≡ mm = ground arith in
            let test : (nn == mm) ≡ true = ground arith in
            let h : IsHeld a (nn + n) s1 =
              subst (λ x. IsHeld a (nn + n) (loop 8 0 1 (λ m s. copy_element x nn n m a s) s)) same
                (row-IsHeld a nn n s ln) in
            let x : s1.t0 ≡ j = h.0 ∙ ground arith in
            let y : s1.t0 ≡ i = h.0 ∙ ei in
            let value : s1.t1 ≡ a i j =
              h.1 ∙ ap (λ r. a r (nn + n)) ei ∙ ap (λ c. a i c) (ground arith) in
            rw test (
              subst (λ c. store s1.t0 s1.t0 s1.t1 s1.target j c ≡ a i j) y
                (subst (λ r. store s1.t0 s1.t0 s1.t1 s1.target r s1.t0 ≡ a i j) x
                  (store-here s1.target s1.t0 s1.t0 s1.t1 ∙ value)))
        | inr off ↦
            let c1 : IsCopiedTo s1 =
              loop-reaches IsCopiedTo 8 0 1 (λ m s. copy_element mm nn n m a s) s
                (λ r lt s. copy_element-keeps mm nn n (0 + r * 1) s) m lm
                (λ s.
                  subst (λ k. IsCopiedTo (copy_element mm nn n k a s)) (omega arith)
                    (copy_element-copies mm nn n m s off ej ei)) in
            elim (Bool-cases (nn == mm)) [
              | inl here ↦
                  let same : nn ≡ mm = ground arith in
                  rw here (
                    diagonal_keeps (nn + n) s1
                      (subst
                        (λ x. IsHeld a (nn + n) (loop 8 0 1 (λ m s. copy_element x nn n m a s) s))
                        same (row-IsHeld a nn n s ln))
                      c1)
              | inr there ↦ rw there c1
            ]
      ]

  copy_block-keeps : (mm nn : ℕ) (s : Scratch) → IsCopiedTo s → IsCopiedTo (copy_block mm nn a s)
  unfolding copy_block
  copy_block-keeps mm nn s =
      loop-keeps IsCopiedTo 8 0 1 (λ n s. copy_row mm nn n a s) s
        (λ r lt s. copy_row-keeps mm nn (0 + r * 1) s (omega arith))

  copy_band-keeps :
      (m_max nn : ℕ) (s : Scratch) → IsCopiedTo s → IsCopiedTo (copy_band m_max nn a s)
  unfolding copy_band
  copy_band-keeps m_max nn s =
      loop-keeps IsCopiedTo (rounds m_max 8) 0 8 (λ mm s. copy_block mm nn a s) s
        (λ r lt s. copy_block-keeps (0 + r * 8) nn s)

  -- For 32 rows and a multiple of 8 columns, the blocks of 8 columns and 8 rows cover the matrix:
  -- every element of the transpose is written, on the diagonal through the two variables, whatever
  -- they hold at first.
  pub transpose_32-IsCopiedTo :
      (m_max : ℕ) (s : Scratch)
      → m_max % 8 ≡ 0
      → i < 32
      → j < m_max
      → IsCopiedTo (transpose_32 m_max a s)
  unfolding transpose_32 copy_band copy_block
  transpose_32-IsCopiedTo m_max s whole li lj =
      let mm : ℕ = 0 + j / 8 * 8 in
      let nn : ℕ = 0 + i / 8 * 8 in
      loop-reaches IsCopiedTo (rounds 32 8) 0 8 (λ nn s. copy_band m_max nn a s) s
        (λ r lt s. copy_band-keeps m_max (0 + r * 8) s) (i / 8) (omega arith)
        (λ s.
          loop-reaches IsCopiedTo (rounds m_max 8) 0 8 (λ mm s. copy_block mm nn a s) s
            (λ r lt s. copy_block-keeps (0 + r * 8) nn s) (j / 8) (omega arith)
            (λ s.
              loop-reaches IsCopiedTo 8 0 1 (λ n s. copy_row mm nn n a s) s
                (λ r lt s. copy_row-keeps mm nn (0 + r * 1) s (omega arith)) (i % 8) (omega arith)
                (λ s.
                  copy_row-IsCopiedTo mm nn (0 + i % 8 * 1) (j % 8) s (omega arith) (omega arith)
                    (omega arith) (omega arith) (omega arith) (omega arith))))
