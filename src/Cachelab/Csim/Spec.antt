-- ===== src/Cachelab/Csim/Spec.antt =====
-- The least-recently-used policy as a function of the history: an access hits if fewer tags than
-- there are lines were used since the last use of its tag.
use sysprog2021s.Prelude.{
  ℕ, ◌+◌, ◌<◌, ◌≡◌, refl, Bool, true, false, ◌&&◌, some, inl, inr, List, [], ◌∷◌, ltb, leb, ◌==◌,
  if◌then◌else◌, length, Bool-cases, Option-cases, arith,
}
use sysprog2021s.Cachelab.Csim.{Param, Line, is_valid}
use sysprog2021s.Cachelab.Csim.Lru.{
  last_use, distance, distinct_uses, is_some, resident, all_valid, Dated, Newer, newer_count,
  valid_count, HoldsLatest,
}
use sysprog2021s.Cachelab.Csim.Head.{newer_count-le, valid_count-le, valid_count-full}

-- Of `e` lines, one holds the tag `g` after the accesses `h`.
unfoldable pub lru_hit : (e : ℕ) → List ℕ → ℕ → Bool
lru_hit e h g = is_some (last_use h g) && ltb (distance h g) e

-- The `e` lines are in use after the accesses `h`.
unfoldable pub lru_full : (e : ℕ) → List ℕ → Bool
lru_full e h = leb e (distinct_uses h)

-- What an access of tag `g` counts: a hit, a miss with an eviction, or a miss.
unfoldable pub counted : (e : ℕ) → List ℕ → ℕ → Param → Param
counted e h g p =
    if lru_hit e h g
    then record p { n_hit = p.n_hit + 1 }
    else if lru_full e h
    then record p { n_miss = p.n_miss + 1; n_evict = p.n_evict + 1 }
    else record p { n_miss = p.n_miss + 1 }

resident-Dated :
    (h : List ℕ) (g : ℕ) (ls : List Line)
    → Dated h ls
    → resident g ls ≡ true
    → (t : ℕ) × (last_use h g ≡ some t) × (newer_count t ls < length ls)
unfolding resident newer_count
resident-Dated h g [] d r = absurd (ground arith)
resident-Dated h g (l ∷ ls) d r = elim (Bool-cases (is_valid l && l.tag == g)) [
  | inl here ↦ (l.use_time, ground (arith, d.0), ground (arith, newer_count-le l.use_time ls))
  | inr there ↦
      let (t, used, fewer) = resident-Dated h g ls d.1 (ground arith) in (t, used, ground arith)
]

newer_count-all :
    (t : ℕ) (ls : List Line) → all_valid ls ≡ true → Newer t ls → newer_count t ls ≡ length ls
unfolding newer_count all_valid
newer_count-all t [] v n = refl
newer_count-all t (l ∷ ls) v n = ground (arith, newer_count-all t ls)

not_full : (ls : List Line) → all_valid ls ≡ false → valid_count ls < length ls
unfolding valid_count all_valid
not_full [] v = ground arith
not_full (l ∷ ls) v = ground (arith, not_full ls, valid_count-le ls)

module _ (h : List ℕ) (ls : List Line) (k : HoldsLatest h ls) where
  -- The lines that hold the tags used last hold exactly the tags that the policy keeps.
  pub resident-lru_hit : (g : ℕ) → resident g ls ≡ lru_hit (length ls) h g
  unfolding lru_hit
  resident-lru_hit g = elim (Bool-cases (resident g ls)) [
    | inl r ↦
        let (t, used, fewer) = resident-Dated h g ls k.dated r in ground (arith, k.ranked g t used)
    | inr r ↦ elim (Option-cases (last_use h g)) [
      | inl never ↦ ground arith
      | inr (t, used) ↦
          ground (arith, k.latest g t r used, k.kept g t, k.ranked g t used, newer_count-all t ls)
    ]
  ]

  -- They are all valid exactly if as many tags were used as there are lines.
  pub all_valid-lru_full : all_valid ls ≡ lru_full (length ls) h
  unfolding lru_full
  all_valid-lru_full = ground (arith, k.filled, valid_count-full ls, not_full ls)
