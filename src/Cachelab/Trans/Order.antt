-- ===== src/Cachelab/Trans/Order.antt =====
-- What the blocks of cachelab_handout/trans.c for 64 rows leave as it was: the elements above or left
-- of a block away from the diagonal.
use sysprog2021s.Prelude.{ℕ, ◌+◌, ◌-◌, ◌*◌, ◌<◌, ◌≡◌, ◌≢◌, ◌⊎◌, arith}
use sysprog2021s.Cachelab.Trans.{
  Matrix, store, loop, swap, copy_upper, swap_upper, exchange_row, copy_last, transpose_quadrants,
}
use sysprog2021s.Cachelab.Trans.Loops.{loop-keeps}

-- A write above or left of an element, or elsewhere.
store-other : (r c v w j i : ℕ) (b : Matrix) → (j ≢ r) ⊎ (i ≢ c) → b j i ≡ w → store r c v b j i ≡ w
unfolding store
store-other r c v w j i b o e = ground arith

module _ (j i w : ℕ) where
  abbrev IsKept : Matrix → Type 0
  IsKept b = b j i ≡ w

  module _ (mm nn : ℕ) (before : (j < mm) ⊎ (i < nn)) where
    store-keeps : (x y v : ℕ) (b : Matrix) → IsKept b → IsKept (store (mm + x) (nn + y) v b)
    store-keeps x y v b = store-other (mm + x) (nn + y) v w j i b (omega arith)

    swap-keeps :
        (x y x' y' : ℕ) (b : Matrix)
        → IsKept b
        → IsKept (swap (mm + x) (nn + y) (mm + x') (nn + y') b)
    unfolding swap
    swap-keeps x y x' y' b e =
        store-keeps x' y' (b (mm + x) (nn + y)) (store (mm + x) (nn + y) (b (mm + x') (nn + y')) b)
          (store-keeps x y (b (mm + x') (nn + y')) b e)

    quadrants-keep : (a b : Matrix) → IsKept b → IsKept (transpose_quadrants mm nn a b)
    unfolding transpose_quadrants copy_upper swap_upper swap exchange_row copy_last
    quadrants-keep a b e =
        let e1 =
          loop-keeps IsKept 4 0 1
            (λ n b. loop 8 0 1 (λ m b. store (mm + n) (nn + m) (a (nn + n) (mm + m)) b) b) b
            (λ n l b.
              loop-keeps IsKept 8 0 1
                (λ m b. store (mm + (0 + n * 1)) (nn + m) (a (nn + (0 + n * 1)) (mm + m)) b) b
                (λ m l b.
                  store-keeps (0 + n * 1) (0 + m * 1) (a (nn + (0 + n * 1)) (mm + (0 + m * 1))) b))
            e in
        let e2 =
          loop-keeps IsKept 4 0 1
            (λ n b.
              loop (4 - (n + 1)) (n + 1) 1
                (λ m b.
                  swap (mm + n) (nn + (4 + m)) (mm + m) (nn + (4 + n))
                    (swap (mm + n) (nn + m) (mm + m) (nn + n) b))
                b)
            (copy_upper mm nn a b)
            (λ n l b.
              loop-keeps IsKept (4 - (0 + n * 1 + 1)) (0 + n * 1 + 1) 1
                (λ m b.
                  swap (mm + (0 + n * 1)) (nn + (4 + m)) (mm + m) (nn + (4 + (0 + n * 1)))
                    (swap (mm + (0 + n * 1)) (nn + m) (mm + m) (nn + (0 + n * 1)) b))
                b
                (λ m l b e.
                  swap-keeps (0 + n * 1) (4 + (0 + n * 1 + 1 + m * 1)) (0 + n * 1 + 1 + m * 1)
                    (4 + (0 + n * 1)) _
                    (swap-keeps (0 + n * 1) (0 + n * 1 + 1 + m * 1) (0 + n * 1 + 1 + m * 1)
                      (0 + n * 1) b e)))
            e1 in
        let e3 =
          loop-keeps IsKept 4 0 1 (λ m b. exchange_row mm nn m a b)
            (swap_upper mm nn (copy_upper mm nn a b))
            (λ m l b e.
              loop-keeps IsKept 4 0 1
                (λ k b1.
                  store (mm + (4 + (0 + m * 1))) (nn + k) (b (mm + (0 + m * 1)) (nn + (4 + k))) b1)
                _
                (λ k l b1.
                  store-keeps (4 + (0 + m * 1)) (0 + k * 1)
                    (b (mm + (0 + m * 1)) (nn + (4 + (0 + k * 1)))) b1)
                (loop-keeps IsKept 4 0 1
                  (λ k b.
                    store (mm + (0 + m * 1)) (nn + (4 + k)) (a (nn + (4 + k)) (mm + (0 + m * 1))) b)
                  b
                  (λ k l b.
                    store-keeps (0 + m * 1) (4 + (0 + k * 1))
                      (a (nn + (4 + (0 + k * 1))) (mm + (0 + m * 1))) b)
                  e))
            e2 in
        loop-keeps IsKept 4 4 1
          (λ n b. loop 4 4 1 (λ m b. store (mm + m) (nn + n) (a (nn + n) (mm + m)) b) b) _
          (λ n l b.
            loop-keeps IsKept 4 4 1
              (λ m b. store (mm + m) (nn + (4 + n * 1)) (a (nn + (4 + n * 1)) (mm + m)) b) b
              (λ m l b.
                store-keeps (4 + m * 1) (4 + n * 1) (a (nn + (4 + n * 1)) (mm + (4 + m * 1))) b))
          e3
