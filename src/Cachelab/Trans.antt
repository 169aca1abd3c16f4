-- ===== src/Cachelab/Trans.antt =====
-- cachelab_handout/trans.c: the transpose of a matrix, in blocks that suit a small cache. A matrix
-- is a function of row and column, and an int is given by its bits. An index out of range is not an
-- error here: what is written there stands at that index, so that a theorem can say that nothing is.
pub mod Loops
pub mod Edges
pub mod Blockwise
pub mod Quadrants
pub mod Diagonal
pub mod Order
use sysprog2021s.Prelude.{
  ℕ, zero, suc, ◌+◌, ◌-◌, ◌*◌, ◌/◌, Bool, not, true, false, ◌&&◌, ◌==◌, ltb, if◌then◌else◌,
}

abbrev pub Matrix : Type 0
Matrix = ℕ → ℕ → ℕ

-- `B[row][column] = val`
unfoldable pub store : (row column val : ℕ) → Matrix → Matrix
store row column val b i j = if i == row && j == column then val else b i j

-- `count` rounds of a loop whose variable begins at `start` and grows by `step`.
unfoldable pub loop {ℓ} : {S : Type ℓ} → (count start step : ℕ) → (ℕ → S → S) → S → S
loop zero start step body s = s
loop (suc count) start step body s = loop count (start + step) step body (body start s)

-- The rounds of `for (x = 0; x < bound; x += step)`.
abbrev pub rounds : (bound step : ℕ) → ℕ
rounds bound step = (bound + step - 1) / step

abbrev pub least : ℕ → ℕ → ℕ
least x y = if ltb x y then x else y

-- The case of other sizes: the loops over `m`, `n`, `nn` and `mm`.
unfoldable pub fill_row : (m_max : ℕ) → Matrix → (mm nn n : ℕ) → Matrix → Matrix
fill_row m_max a mm nn n b =
    loop (least 16 (m_max - mm)) 0 1 (λ m b. store (mm + m) (nn + n) (a (nn + n) (mm + m)) b) b

unfoldable pub fill_block : (m_max n_max : ℕ) → Matrix → (mm nn : ℕ) → Matrix → Matrix
fill_block m_max n_max a mm nn b =
    loop (least 16 (n_max - nn)) 0 1 (λ n b. fill_row m_max a mm nn n b) b

unfoldable pub fill_column : (m_max n_max : ℕ) → Matrix → (mm : ℕ) → Matrix → Matrix
fill_column m_max n_max a mm b =
    loop (rounds n_max 16) 0 16 (λ nn b. fill_block m_max n_max a mm nn b) b

unfoldable pub transpose_any : (m_max n_max : ℕ) → Matrix → Matrix → Matrix
transpose_any m_max n_max a b =
    loop (rounds m_max 16) 0 16 (λ mm b. fill_column m_max n_max a mm b) b

-- The target and the two variables that hold an element of the diagonal.
pub record Scratch : Type 0 where
  pub target : Matrix
  pub t0 : ℕ
  pub t1 : ℕ

-- The innermost loop's body for 32 rows.
unfoldable pub copy_element : (mm nn n m : ℕ) → Matrix → Scratch → Scratch
copy_element mm nn n m a s =
    if nn + n == mm + m
    then record s { t0 = nn + n; t1 = a (nn + n) (nn + n) }
    else record s { target = store (mm + m) (nn + n) (a (nn + n) (mm + m)) s.target }

unfoldable pub copy_row : (mm nn n : ℕ) → Matrix → Scratch → Scratch
copy_row mm nn n a s =
    let s1 = loop 8 0 1 (λ m. copy_element mm nn n m a) s in
    if nn == mm then record s1 { target = store s1.t0 s1.t0 s1.t1 s1.target } else s1

unfoldable pub copy_block : (mm nn : ℕ) → Matrix → Scratch → Scratch
copy_block mm nn a s = loop 8 0 1 (λ n s. copy_row mm nn n a s) s

unfoldable pub copy_band : (m_max nn : ℕ) → Matrix → Scratch → Scratch
copy_band m_max nn a s = loop (rounds m_max 8) 0 8 (λ mm s. copy_block mm nn a s) s

unfoldable pub transpose_32 : (m_max : ℕ) → Matrix → Scratch → Scratch
transpose_32 m_max a s = loop (rounds 32 8) 0 8 (λ nn s. copy_band m_max nn a s) s

-- The case of 64 rows, away from the diagonal: the quadrants a1 and a2 go to b1 and b2, which are
-- then transposed in place; b2 moves to b3 while a3 goes to b2; and a4 goes to b4.
unfoldable pub copy_upper : (mm nn : ℕ) → Matrix → Matrix → Matrix
copy_upper mm nn a b =
    loop 4 0 1 (λ n b. loop 8 0 1 (λ m b. store (mm + n) (nn + m) (a (nn + n) (mm + m)) b) b) b

unfoldable pub swap : (row column row' column' : ℕ) → Matrix → Matrix
swap row column row' column' b =
    let t0 = b row column in
    let b1 = store row column (b row' column') b in store row' column' t0 b1

unfoldable pub swap_upper : (mm nn : ℕ) → Matrix → Matrix
swap_upper mm nn b =
    loop 4 0 1
      (λ n b.
        loop (4 - (n + 1)) (n + 1) 1
          (λ m b.
            swap (mm + n) (nn + (4 + m)) (mm + m) (nn + (4 + n))
              (swap (mm + n) (nn + m) (mm + m) (nn + n) b))
          b)
      b

-- `t0` to `t3` are read from the source, and `t4` to `t7` from the target as it was.
unfoldable pub exchange_row : (mm nn m : ℕ) → Matrix → Matrix → Matrix
exchange_row mm nn m a b =
    let b1 = loop 4 0 1 (λ k b. store (mm + m) (nn + (4 + k)) (a (nn + (4 + k)) (mm + m)) b) b in
    loop 4 0 1 (λ k b1. store (mm + (4 + m)) (nn + k) (b (mm + m) (nn + (4 + k))) b1) b1

unfoldable pub copy_last : (mm nn : ℕ) → Matrix → Matrix → Matrix
copy_last mm nn a b =
    loop 4 4 1 (λ n b. loop 4 4 1 (λ m b. store (mm + m) (nn + n) (a (nn + n) (mm + m)) b) b) b

unfoldable pub transpose_quadrants : (mm nn : ℕ) → Matrix → Matrix → Matrix
transpose_quadrants mm nn a b =
    let b1 = swap_upper mm nn (copy_upper mm nn a b) in
    copy_last mm nn a (loop 4 0 1 (λ m b. exchange_row mm nn m a b) b1)

-- On the diagonal, but in the last block: the block goes to the next one's place in the target, and
-- from there to its own.
unfoldable pub copy_aside : (mm nn : ℕ) → Matrix → Matrix → Matrix
copy_aside mm nn a b =
    loop 8 0 1 (λ n b. loop 8 0 1 (λ m b. store (nn + n) (mm + (m + 8)) (a (nn + n) (mm + m)) b) b)
      b

-- The loop over `m` counts down from 7.
unfoldable pub take_right : (mm nn : ℕ) → Matrix → Matrix
take_right mm nn b =
    loop 8 0 1
      (λ k b. loop 4 4 1 (λ n b. store (mm + (7 - k)) (nn + n) (b (nn + n) (mm + (7 - k + 8))) b) b)
      b

unfoldable pub take_left : (mm nn : ℕ) → Matrix → Matrix
take_left mm nn b =
    loop 8 0 1 (λ m b. loop 4 0 1 (λ n b. store (mm + m) (nn + n) (b (nn + n) (mm + (m + 8))) b) b)
      b

-- The last block, a row at a time through `t0` to `t7`.
unfoldable pub copy_rows : (mm nn : ℕ) → Matrix → Matrix → Matrix
copy_rows mm nn a b =
    loop 8 0 1 (λ n b. loop 8 0 1 (λ k b. store (mm + k) (nn + n) (a (nn + n) (mm + k)) b) b) b

unfoldable pub transpose_block : (mm nn : ℕ) → Matrix → Matrix → Matrix
transpose_block mm nn a b =
    if not (nn == mm)
    then transpose_quadrants mm nn a b
    else if ltb (nn + 8) 64
    then take_left mm nn (take_right mm nn (copy_aside mm nn a b))
    else copy_rows mm nn a b

unfoldable pub transpose_band : (m_max nn : ℕ) → Matrix → Matrix → Matrix
transpose_band m_max nn a b = loop (rounds m_max 8) 0 8 (λ mm b. transpose_block mm nn a b) b

unfoldable pub transpose_64 : (m_max : ℕ) → Matrix → Matrix → Matrix
transpose_64 m_max a b = loop (rounds 64 8) 0 8 (λ nn b. transpose_band m_max nn a b) b

unfoldable pub transpose_submit : (m_max n_max : ℕ) → Matrix → Scratch → Matrix
transpose_submit m_max n_max a s =
    if n_max == 32
    then (transpose_32 m_max a s).target
    else if n_max == 64
    then transpose_64 m_max a s.target
    else transpose_any m_max n_max a s.target

-- `is_transpose`: whether the result of its two loops is 1.
unfoldable pub is_transpose : (m_max n_max : ℕ) → Matrix → Matrix → Bool
is_transpose m_max n_max a b =
    loop n_max 0 1 (λ i. loop m_max 0 1 (λ j ok. ok && a i j == b j i)) true
