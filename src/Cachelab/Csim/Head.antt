-- ===== src/Cachelab/Csim/Head.antt =====
-- What an access does to the line that it uses, put in front of the others: a hit, the filling of
-- an empty line, and an eviction each leave the lines holding the tags used last.
use sysprog2021s.Prelude.{
  ℕ, ◌+◌, ◌≤◌, ◌<◌, ◌≡◌, refl, true, false, none, some, List, [], ◌∷◌, inl, inr, length, arith,
  Option-cases,
}
use sysprog2021s.Cachelab.Csim.{Line, is_valid}
use sysprog2021s.Cachelab.Csim.Lru.{
  last_use, resident, all_valid, Dated, Newer, HoldsLatest, last_use-le, last_use-injective,
  newer_count, valid_count, distance, distinct_uses, used_since-last_use, used_since-never,
}

-- Lines that do not hold `g` keep their dates when `g` is used.
Dated-cons :
    (g : ℕ) (h : List ℕ) (ls : List Line) → resident g ls ≡ false → Dated h ls → Dated (g ∷ h) ls
unfolding resident last_use
Dated-cons g h [] r d = tt
Dated-cons g h (l ∷ ls) r d = ground (arith, Dated-cons g h ls)

-- If no line is older than `t`, and only `v` was used last at `t`, then every line is newer.
abbrev pub NotOlder : ℕ → List Line → Type 0
NotOlder t [] = Unit {0}
NotOlder t (l ∷ ls) = (t ≤ l.use_time) × NotOlder t ls

Newer-oldest :
    (h : List ℕ) (v t : ℕ) (ls : List Line)
    → NotOlder t ls
    → Dated h ls
    → last_use h v ≡ some t
    → resident v ls ≡ false
    → Newer t ls
unfolding resident
Newer-oldest h v t [] o d e r = tt
Newer-oldest h v t (l ∷ ls) o d e r =
    ground (arith, Newer-oldest h v t ls, last_use-injective h v l.tag {t = t})

pub newer_count-le : (t : ℕ) (ls : List Line) → newer_count t ls ≤ length ls
unfolding newer_count
newer_count-le t [] = omega arith
newer_count-le t (l ∷ ls) = ground (arith, newer_count-le t ls)

newer_count-future :
    (h : List ℕ) (t : ℕ) (ls : List Line) → Dated h ls → length h ≤ t → newer_count t ls ≡ 0
unfolding newer_count
newer_count-future h t [] d le = refl
newer_count-future h t (l ∷ ls) d le =
    ground (arith, newer_count-future h t ls, last_use-le h l.tag {t = l.use_time})

newer_count-past :
    (t u : ℕ) (ls : List Line)
    → all_valid ls ≡ true
    → NotOlder u ls
    → t < u
    → newer_count t ls ≡ length ls
unfolding newer_count all_valid
newer_count-past t u [] v o lt = refl
newer_count-past t u (l ∷ ls) v o lt = ground (arith, newer_count-past t u ls)

pub valid_count-le : (ls : List Line) → valid_count ls ≤ length ls
unfolding valid_count
valid_count-le [] = omega arith
valid_count-le (l ∷ ls) = ground (arith, valid_count-le ls)

pub valid_count-full : (ls : List Line) → all_valid ls ≡ true → valid_count ls ≡ length ls
unfolding valid_count all_valid
valid_count-full [] v = refl
valid_count-full (l ∷ ls) v = ground (arith, valid_count-full ls)

module _ (h : List ℕ) (g : ℕ) (x : Line) (rest : List Line) (k : HoldsLatest h (x ∷ rest)) where
  pub HoldsLatest-hit :
      is_valid x ≡ true
      → x.tag ≡ g
      → HoldsLatest (g ∷ h) (record x { use_time = length h + 1 } ∷ rest)
  unfolding resident all_valid last_use newer_count valid_count distance distinct_uses
  HoldsLatest-hit v e = record {
    dated = ground (arith, k.dated, k.distinct, Dated-cons g h rest);
    distinct = ground (arith, k.distinct);
    latest = λ g' t r u. ground (arith, k.latest g' t, last_use-le h g' {t = t});
    kept = λ g' t r u. ground (arith, k.kept g' t);
    ranked = λ g' t u. ground (
      arith,
      k.dated,
      k.ranked g' t,
      newer_count-le t rest,
      newer_count-future h t rest,
      used_since-last_use h g g' {t = x.use_time} {u = t},
      last_use-le h g' {t = t},
    );
    filled = ground (arith, k.filled, k.dated);
  }

  module _ (absent : resident g (x ∷ rest) ≡ false) where
    never_used : is_valid x ≡ false → last_use h g ≡ none
    unfolding all_valid
    never_used v = elim (Option-cases (last_use h g)) [
      | inl e ↦ e
      | inr (t, e) ↦ absurd (ground (arith, k.kept g t))
    ]

    pub HoldsLatest-fill :
        is_valid x ≡ false
        → HoldsLatest (g ∷ h) (record x { tag = g; valid = 1; use_time = length h + 1 } ∷ rest)
    unfolding resident all_valid last_use newer_count valid_count distance distinct_uses
    HoldsLatest-fill v = record {
      dated = ground (arith, k.dated, Dated-cons g h rest);
      distinct = ground (arith, k.distinct);
      latest = λ g' t r u. ground (arith, k.latest g' t, last_use-le h g' {t = t});
      kept = λ g' t r u. ground (arith, k.kept g' t);
      ranked = λ g' t u. ground (
        arith,
        k.dated,
        k.ranked g' t,
        newer_count-le t rest,
        newer_count-future h t rest,
        used_since-never h g g' (never_used v),
        last_use-le h g' {t = t},
      );
      filled = ground (arith, k.filled, never_used v, valid_count-le rest);
    }

    pub HoldsLatest-evict :
        all_valid (x ∷ rest) ≡ true
        → NotOlder x.use_time rest
        → HoldsLatest (g ∷ h) (record x { tag = g; use_time = length h + 1 } ∷ rest)
    unfolding resident all_valid last_use newer_count valid_count distance distinct_uses
    HoldsLatest-evict v o = record {
      dated = ground (arith, k.dated, Dated-cons g h rest);
      distinct = ground (arith, k.distinct);
      latest = λ g' t r u.
          ground
            (arith, k.dated, k.latest g' t, last_use-le h g' {t = t}, Newer-oldest h g' t rest);
      kept = λ g' t r u. ground (arith, k.kept g' t);
      ranked = λ g' t u. elim (Option-cases (last_use h g)) [
        | inl e ↦ ground (
          arith,
          k.dated,
          k.ranked g' t,
          newer_count-le t rest,
          newer_count-future h t rest,
          newer_count-past t x.use_time rest,
          used_since-never h g g' e,
          last_use-le h g' {t = t},
        )
        | inr (w, e) ↦ ground (
          arith,
          k.dated,
          k.ranked g' t,
          k.latest g w absent e,
          newer_count-le t rest,
          newer_count-future h t rest,
          newer_count-past t x.use_time rest,
          used_since-last_use h g g' {t = w} {u = t},
          last_use-le h g' {t = t},
        )
      ];
      filled = ground (arith, k.filled, valid_count-full rest);
    }
