-- ===== src/Malloclab/Implicit/Joins.antt =====
-- What `coalesce` of malloclab-handout/mm_implicit.c does to the blocks around a free one.
use mathlib.Core.Path.{subst, sym}
use sysprog2021s.Prelude.{
  ℕ, ◌+◌, ◌-◌, ◌%◌, ◌<◌, ◌^◌, ◌≡◌, refl, Bool, true, false, List, [], ◌∷◌, if◌then◌else◌, arith,
}
use sysprog2021s.Malloclab.Words.{Words, put}
use sysprog2021s.Malloclab.Blocks.{
  Block, IsTile, AreTiles, IsSame, AreTiles-le, AreTiles-at, stamped-AreTiles, IsStamped,
}
use sysprog2021s.Malloclab.Live.{free, full, join_front, join}
use sysprog2021s.Malloclab.Implicit.{join_both, join_next, join_prev, coalesce}

-- A free block with header `p` lies behind block `a` and before a word that is the header of block
-- `b` or the epilogue.
module _ (w : Words) (p n : ℕ) (a : Block) where
  coalesce-none :
      IsTile w p a
      → IsTile w (p + a.size) (record { size = n; used = false })
      → w (p + a.size + n) % 2 ≡ 1
      → a.used ≡ true
      → coalesce (p + a.size + 4) w ≡ (p + a.size + 4, w)
  unfolding coalesce
  coalesce-none ta tn next u = ground arith

  coalesce-next :
      (m : ℕ)
      → IsTile w p a
      → IsTile w (p + a.size) (record { size = n; used = false })
      → IsTile w (p + a.size + n) (record { size = m; used = false })
      → p + a.size + n + m < 2 ^ 32
      → a.used ≡ true
      → coalesce (p + a.size + 4) w
        ≡ (p + a.size + 4, put (p + a.size + n + m - 4) (n + m) (put (p + a.size) (n + m) w))
  unfolding coalesce join_next put
  coalesce-next m ta tn tb lt u = ground arith

  coalesce-prev :
      IsTile w p a
      → IsTile w (p + a.size) (record { size = n; used = false })
      → w (p + a.size + n) % 2 ≡ 1
      → p + a.size + n < 2 ^ 32
      → a.used ≡ false
      → coalesce (p + a.size + 4) w
        ≡ (p + 4, put p (a.size + n) (put (p + a.size + n - 4) (a.size + n) w))
  unfolding coalesce join_prev put
  coalesce-prev ta tn next lt u = ground arith

  coalesce-both :
      (m : ℕ)
      → IsTile w p a
      → IsTile w (p + a.size) (record { size = n; used = false })
      → IsTile w (p + a.size + n) (record { size = m; used = false })
      → p + a.size + n + m < 2 ^ 32
      → a.used ≡ false
      → coalesce (p + a.size + 4) w
        ≡ (p + 4, put (p + a.size + n + m - 4) (a.size + n + m) (put p (a.size + n + m) w))
  unfolding coalesce join_both put
  coalesce-both m ta tn tb lt u = ground arith

abbrev pub IsJoined : Words → ℕ → Block → ℕ → List Block → ℕ → ℕ × Words → Type 0
IsJoined w p a n bs end (bp, w') =
    AreTiles w' p (join a n bs) end
    × (w' end ≡ w end)
    × IsSame 0 p w w'
    × (bp ≡ p + 4 + (if a.used then a.size else 0))

module _ (w : Words) (p m n end : ℕ) (bs : List Block) (tn : IsTile w (p + m) (free n))
    (epilogue : w end % 2 ≡ 1) (low : end < 2 ^ 32) where
  IsJoined-used :
      IsTile w p (full m)
      → AreTiles w (p + m + n) bs end
      → w (p + m + n) % 2 ≡ 1
      → join_front n bs ≡ free n ∷ bs
      → IsJoined w p (full m) n bs end (coalesce (p + m + 4) w)
  IsJoined-used ta t odd j =
      subst (IsJoined w p (full m) n bs end) (sym (coalesce-none w p n (full m) ta tn odd refl))
        (rw j ((ta, (tn, t)), refl, (λ q from to. refl), omega arith))

  IsJoined-free :
      IsTile w p (free m)
      → AreTiles w (p + m + n) bs end
      → w (p + m + n) % 2 ≡ 1
      → join_front (m + n) bs ≡ free (m + n) ∷ bs
      → IsJoined w p (free m) n bs end (coalesce (p + m + 4) w)
  unfolding put
  IsJoined-free ta t odd j =
      let le = AreTiles-le w (p + m + n) end bs t in
      let w' = put p (m + n) (put (p + m + n - 4) (m + n) w) in
      let s : IsStamped w w' p (free (m + n)) =
        (ground arith, ground arith, λ q a b. ground arith) in
      let (tiles, last, same) =
        stamped-AreTiles w w' p end (free (m + n)) bs s (omega (arith, ta, tn)) (omega (arith, ta))
          (AreTiles-at w (p + m + n) (p + (m + n)) end bs (omega arith) t) in
      subst (IsJoined w p (free m) n bs end)
        (sym (coalesce-prev w p n (free m) ta tn odd (omega arith) refl))
        (rw j (tiles, last, same, omega arith))

  module _ (k : ℕ) (rest : List Block) (tb : IsTile w (p + m + n) (free k))
      (t : AreTiles w (p + m + n + k) rest end) where
    IsJoined-used_next :
        IsTile w p (full m) → IsJoined w p (full m) n (free k ∷ rest) end (coalesce (p + m + 4) w)
    unfolding put
    IsJoined-used_next ta =
        let le = AreTiles-le w (p + m + n + k) end rest t in
        let w' = put (p + m + n + k - 4) (n + k) (put (p + m) (n + k) w) in
        let s : IsStamped w w' (p + m) (free (n + k)) =
          (ground arith, ground arith, λ q a b. ground arith) in
        let (tiles, last, same) =
          stamped-AreTiles w w' (p + m) end (free (n + k)) rest s (omega (arith, tn, tb))
            (omega (arith, tn))
            (AreTiles-at w (p + m + n + k) (p + m + (n + k)) end rest (omega arith) t) in
        let kept : IsTile w' p (full m) = ground arith in
        subst (IsJoined w p (full m) n (free k ∷ rest) end)
          (sym (coalesce-next w p n (full m) k ta tn tb (omega arith) refl))
          ((kept, tiles), last, (λ q from to. same q from (omega (arith, to))), omega arith)

    IsJoined-free_next :
        IsTile w p (free m) → IsJoined w p (free m) n (free k ∷ rest) end (coalesce (p + m + 4) w)
    unfolding put
    IsJoined-free_next ta =
        let le = AreTiles-le w (p + m + n + k) end rest t in
        let w' = put (p + m + n + k - 4) (m + n + k) (put p (m + n + k) w) in
        let s : IsStamped w w' p (free (m + n + k)) =
          (ground arith, ground arith, λ q a b. ground arith) in
        let (tiles, last, same) =
          stamped-AreTiles w w' p end (free (m + n + k)) rest s (omega (arith, ta, tn, tb))
            (omega (arith, ta))
            (AreTiles-at w (p + m + n + k) (p + (m + n + k)) end rest (omega arith) t) in
        subst (IsJoined w p (free m) n (free k ∷ rest) end)
          (sym (coalesce-both w p n (free m) k ta tn tb (omega arith) refl))
          (tiles, last, same, omega arith)

module _ (w : Words) (p n end m : ℕ) where
  IsJoined-last :
      (u : Bool)
      → IsTile w p (record { size = m; used = u })
      → IsTile w (p + m) (free n)
      → p + m + n ≡ end
      → w end % 2 ≡ 1
      → end < 2 ^ 32
      → IsJoined w p (record { size = m; used = u }) n [] end (coalesce (p + m + 4) w)
  IsJoined-last true ta tn t odd low =
      IsJoined-used w p m n end [] tn odd low ta t (subst (λ x. w x % 2 ≡ 1) (sym t) odd) refl
  IsJoined-last false ta tn t odd low =
      IsJoined-free w p m n end [] tn odd low ta t (subst (λ x. w x % 2 ≡ 1) (sym t) odd) refl

  IsJoined-front :
      (u v : Bool) (k : ℕ) (rest : List Block)
      → IsTile w p (record { size = m; used = u })
      → IsTile w (p + m) (free n)
      → AreTiles w (p + m + n) (record { size = k; used = v } ∷ rest) end
      → w end % 2 ≡ 1
      → end < 2 ^ 32
      → IsJoined w p
          (record { size = m; used = u })
          n
          (record { size = k; used = v } ∷ rest)
          end
          (coalesce (p + m + 4) w)
  IsJoined-front true true k rest ta tn t odd low =
      IsJoined-used w p m n end (record { size = k; used = true } ∷ rest) tn odd low ta t
        (omega (arith, t.0)) refl
  IsJoined-front false true k rest ta tn t odd low =
      IsJoined-free w p m n end (record { size = k; used = true } ∷ rest) tn odd low ta t
        (omega (arith, t.0)) refl
  IsJoined-front true false k rest ta tn t odd low =
      IsJoined-used_next w p m n end rest tn odd low k rest t.0 t.1 ta
  IsJoined-front false false k rest ta tn t odd low =
      IsJoined-free_next w p m n end rest tn odd low k rest t.0 t.1 ta

-- `coalesce` of a free block behind any block joins it with its free neighbours: the tiles that
-- result are those of `join`, and nothing below them changes.
pub coalesce-IsJoined :
    (w : Words) (p n end : ℕ) (a : Block) (bs : List Block)
    → IsTile w p a
    → IsTile w (p + a.size) (free n)
    → AreTiles w (p + a.size + n) bs end
    → w end % 2 ≡ 1
    → end < 2 ^ 32
    → IsJoined w p a n bs end (coalesce (p + a.size + 4) w)
coalesce-IsJoined w p n end a [] ta tn t odd low =
    IsJoined-last w p n end a.size a.used ta tn t odd low
coalesce-IsJoined w p n end a (b ∷ rest) ta tn t odd low =
    IsJoined-front w p n end a.size a.used b.used b.size rest ta tn t odd low
