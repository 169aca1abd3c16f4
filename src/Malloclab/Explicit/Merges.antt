-- ===== src/Malloclab/Explicit/Merges.antt =====
-- The cases of `coalesce` of malloclab-handout/src/mm.c, for a free block of `n` bytes that lies
-- behind block `a`, which has its header at `m`.
use mathlib.Core.Path.{subst}
use sysprog2021s.Prelude.{ℕ, ◌+◌, ◌-◌, ◌%◌, ◌≤◌, ◌<◌, ◌^◌, ◌≡◌, refl, ap, ◌∙◌, true, false, arith}
use sysprog2021s.Malloclab.Words.{put, add_size, get_size, hdrp, ftrp, next_blkp, prev_blkp, pack}
use sysprog2021s.Malloclab.Blocks.{Block, IsTile}
use sysprog2021s.Malloclab.Live.{free, full}
use sysprog2021s.Malloclab.Explicit.{
  Heap, write, cut_out, coalesce, join_next, join_prev, join_both, mark,
}
use sysprog2021s.Malloclab.Explicit.States.{rewritten}

-- What the last two cases do when the blocks are out of the list.
abbrev merged_prev_of : (bp size : ℕ) → Heap → ℕ × Heap
merged_prev_of bp size h1 =
    let h2 = write (ftrp bp h1.word) (pack size false) h1 in
    let h3 = write (hdrp (prev_blkp bp h2.word)) (pack size false) h2 in (prev_blkp bp h3.word, h3)

abbrev merged_both_of : (bp size : ℕ) → Heap → ℕ × Heap
merged_both_of bp size h2 =
    let h3 = write (hdrp (prev_blkp bp h2.word)) (pack size false) h2 in
    let h4 = write (ftrp (next_blkp bp h3.word) h3.word) (pack size false) h3 in
    (prev_blkp bp h4.word, h4)

module _ (h : Heap) (m n : ℕ) (a : Block) (ta : IsTile h.word m a)
    (tn : IsTile h.word (m + a.size) (free n)) (u : a.used ≡ false) (big : 16 ≤ a.size) where
  merged_prev :
      16 ≤ n
      → let size = a.size + n in
        merged_prev_of (m + a.size + 4) size h
        ≡ (m + 4, rewritten h (put m size (put (m + a.size + n - 4) size h.word)) h.root_bp)
  unfolding put
  merged_prev big' =
      let bp : ℕ = m + a.size + 4 in
      let size : ℕ = a.size + n in
      let w = h.word in
      let w2 = put (m + a.size + n - 4) size w in
      let footer : ftrp bp w ≡ m + a.size + n - 4 = ground arith in
      let prev : prev_blkp bp w2 ≡ m + 4 = ground arith in
      let again : prev_blkp bp (put m size w2) ≡ m + 4 = ground arith in
      let header : hdrp (m + 4) ≡ m = omega arith in
      ap
        (λ (f : ℕ).
          let w2 = put f size w in
          let w3 = put (hdrp (prev_blkp bp w2)) size w2 in
          (prev_blkp bp w3, rewritten h w3 h.root_bp))
        footer
      ∙ ap (λ (x : ℕ). let w3 = put (hdrp x) size w2 in (prev_blkp bp w3, rewritten h w3 h.root_bp))
          prev
      ∙ ap (λ (x : ℕ). let w3 = put x size w2 in (prev_blkp bp w3, rewritten h w3 h.root_bp)) header
      ∙ ap (λ (x : ℕ). (x, rewritten h (put m size w2) h.root_bp)) again

  merged_both :
      (k : ℕ)
      → IsTile h.word (m + a.size + n) (free k)
      → 16 ≤ k
      → let size = a.size + n + k in
        merged_both_of (m + a.size + 4) size h
        ≡ (m + 4, rewritten h (put (m + a.size + n + k - 4) size (put m size h.word)) h.root_bp)
  unfolding put
  merged_both k tk big' =
      let bp : ℕ = m + a.size + 4 in
      let size : ℕ = a.size + n + k in
      let w = h.word in
      let w2 = put m size w in
      let prev : prev_blkp bp w ≡ m + 4 = ground arith in
      let header : hdrp (m + 4) ≡ m = omega arith in
      let footer : ftrp (next_blkp bp w2) w2 ≡ m + a.size + n + k - 4 = ground arith in
      let again : prev_blkp bp (put (m + a.size + n + k - 4) size w2) ≡ m + 4 = ground arith in
      ap
        (λ (x : ℕ).
          let w2 = put (hdrp x) size w in
          let w3 = put (ftrp (next_blkp bp w2) w2) size w2 in
          (prev_blkp bp w3, rewritten h w3 h.root_bp))
        prev
      ∙ ap
          (λ (x : ℕ).
            let w2 = put x size w in
            let w3 = put (ftrp (next_blkp bp w2) w2) size w2 in
            (prev_blkp bp w3, rewritten h w3 h.root_bp))
          header
      ∙ ap (λ (x : ℕ). let w3 = put x size w2 in (prev_blkp bp w3, rewritten h w3 h.root_bp)) footer
      ∙ ap (λ (x : ℕ). (x, rewritten h (put (m + a.size + n + k - 4) size w2) h.root_bp)) again

module _ (h : Heap) (m n : ℕ) (a : Block) (ta : IsTile h.word m a)
    (tn : IsTile h.word (m + a.size) (free n)) where
  coalesce-join_none :
      h.word (m + a.size + n) % 2 ≡ 1
      → a.used ≡ true
      → coalesce (m + a.size + 4) h ≡ (m + a.size + 4, h)
  unfolding coalesce
  coalesce-join_none odd u = ground arith

  coalesce-join_next :
      h.word (m + a.size + n) % 2 ≡ 0
      → a.used ≡ true
      → coalesce (m + a.size + 4) h ≡ join_next (m + a.size + 4) h
  unfolding coalesce
  coalesce-join_next even u = ground arith

  pub coalesce-join_prev :
      h.word (m + a.size + n) % 2 ≡ 1
      → a.used ≡ false
      → coalesce (m + a.size + 4) h ≡ join_prev (m + a.size + 4) h
  unfolding coalesce
  coalesce-join_prev odd u = ground arith

  pub coalesce-join_both :
      h.word (m + a.size + n) % 2 ≡ 0
      → a.used ≡ false
      → coalesce (m + a.size + 4) h ≡ join_both (m + a.size + 4) h
  unfolding coalesce
  coalesce-join_both even u = ground arith

  join_next-words :
      (k : ℕ)
      → let h1 = cut_out (m + a.size + n + 4) h in
        IsTile h1.word (m + a.size) (free n)
        → IsTile h1.word (m + a.size + n) (free k)
        → m + a.size + n + k < 2 ^ 32
        → join_next (m + a.size + 4) h ≡ (m + a.size + 4, mark (m + a.size + 4) (n + k) false h1)
  unfolding join_next
  join_next-words k tn1 tk1 low =
      let bp : ℕ = m + a.size + 4 in
      let h1 = cut_out (m + a.size + n + 4) h in
      let at : next_blkp bp h.word ≡ m + a.size + n + 4 = ground arith in
      let size : add_size (get_size (hdrp bp) h.word)
            (get_size (ftrp (next_blkp bp h1.word) h1.word) h1.word)
          ≡ n + k =
        ground arith in
      ap
        (λ (x : ℕ).
          let h1 = cut_out x h in
          (
            bp,
            mark bp
                (add_size (get_size (hdrp bp) h.word)
                  (get_size (ftrp (next_blkp bp h1.word) h1.word) h1.word))
                false h1,
          ))
        at
      ∙ ap (λ (s : ℕ). (bp, mark bp s false h1)) size

  pub join_prev-words :
      let h1 = cut_out (m + 4) h in
      a.used ≡ false
      → IsTile h1.word m a
      → IsTile h1.word (m + a.size) (free n)
      → 16 ≤ a.size
      → 16 ≤ n
      → m + a.size + n < 2 ^ 32
      → let w' = put m (a.size + n) (put (m + a.size + n - 4) (a.size + n) h1.word) in
        join_prev (m + a.size + 4) h ≡ (m + 4, rewritten h1 w' h1.root_bp)
  unfolding join_prev
  join_prev-words u ta1 tn1 big big' low =
      let bp : ℕ = m + a.size + 4 in
      let h1 = cut_out (m + 4) h in
      let at : prev_blkp bp h.word ≡ m + 4 = ground arith in
      let size : add_size (get_size (hdrp bp) h.word)
            (get_size (hdrp (prev_blkp bp h1.word)) h1.word)
          ≡ a.size + n =
        ground arith in
      ap
        (λ (x : ℕ).
          let h1 = cut_out x h in
          merged_prev_of bp
            (add_size (get_size (hdrp bp) h.word) (get_size (hdrp (prev_blkp bp h1.word)) h1.word))
            h1)
        at
      ∙ ap (λ (s : ℕ). merged_prev_of bp s h1) size
      ∙ merged_prev h1 m n a ta1 tn1 u big big'

  pub join_both-words :
      (k : ℕ) (h1 h2 : Heap)
      → cut_out (m + 4) h ≡ h1
      → cut_out (m + a.size + n + 4) h1 ≡ h2
      → IsTile h1.word (m + a.size) (free n)
      → a.used ≡ false
      → IsTile h2.word m a
      → IsTile h2.word (m + a.size) (free n)
      → IsTile h2.word (m + a.size + n) (free k)
      → 16 ≤ a.size
      → 16 ≤ k
      → m + a.size + n + k < 2 ^ 32
      → let size = a.size + n + k in
        join_both (m + a.size + 4) h
        ≡ (m + 4, rewritten h2 (put (m + a.size + n + k - 4) size (put m size h2.word)) h2.root_bp)
  unfolding join_both
  join_both-words k h1 h2 e1 e2 tn1 u ta2 tn2 tk2 big big' low =
      let bp : ℕ = m + a.size + 4 in
      let at : prev_blkp bp h.word ≡ m + 4 = ground arith in
      let next : next_blkp bp h1.word ≡ m + a.size + n + 4 = ground arith in
      let size_of = λ (h2 : Heap). add_size (get_size (hdrp bp) h.word) (
        add_size (get_size (hdrp (prev_blkp bp h2.word)) h2.word)
          (get_size (ftrp (next_blkp bp h2.word) h2.word) h2.word)) in
      let size : size_of h2 ≡ a.size + n + k = ground arith in
      let rest = λ (h1 : Heap).
        let h2 = cut_out (next_blkp bp h1.word) h1 in merged_both_of bp (size_of h2) h2 in
      ap (λ (x : ℕ). rest (cut_out x h)) at
      ∙ ap rest e1
      ∙ ap (λ (x : ℕ). merged_both_of bp (size_of (cut_out x h1)) (cut_out x h1)) next
      ∙ ap (λ h2. merged_both_of bp (size_of h2) h2) e2
      ∙ ap (λ (s : ℕ). merged_both_of bp s h2) size
      ∙ merged_both h2 m n a ta2 tn2 u big k tk2 big'

-- The cases of a used block before, whose end is given.
pub coalesce-used :
    (h : Heap) (pm s m n : ℕ)
    → pm + s ≡ m
    → IsTile h.word pm (full s)
    → IsTile h.word m (free n)
    → h.word (m + n) % 2 ≡ 1
    → coalesce (m + 4) h ≡ (m + 4, h)
coalesce-used h pm s m n e ta tn odd =
    subst (λ m. IsTile h.word m (free n) → h.word (m + n) % 2 ≡ 1 → coalesce (m + 4) h ≡ (m + 4, h))
      e (λ tn odd. coalesce-join_none h pm n (full s) ta tn odd refl) tn odd

pub coalesce-next :
    (h : Heap) (pm s m n k : ℕ)
    → pm + s ≡ m
    → let h1 = cut_out (m + n + 4) h in
      IsTile h.word pm (full s)
      → IsTile h.word m (free n)
      → IsTile h.word (m + n) (free k)
      → IsTile h1.word m (free n)
      → IsTile h1.word (m + n) (free k)
      → m + n + k < 2 ^ 32
      → coalesce (m + 4) h ≡ (m + 4, mark (m + 4) (n + k) false h1)
coalesce-next h pm s m n k e ta tn tk tn1 tk1 low =
    subst
      (λ m.
        IsTile h.word m (free n)
        → IsTile h.word (m + n) (free k)
        → IsTile (cut_out (m + n + 4) h).word m (free n)
        → IsTile (cut_out (m + n + 4) h).word (m + n) (free k)
        → m + n + k < 2 ^ 32
        → coalesce (m + 4) h ≡ (m + 4, mark (m + 4) (n + k) false (cut_out (m + n + 4) h)))
      e
      (λ tn tk tn1 tk1 low.
        coalesce-join_next h pm n (full s) ta tn (omega (arith, tk)) refl
        ∙ join_next-words h pm n (full s) ta tn k tn1 tk1 low)
      tn tk tn1 tk1 low
