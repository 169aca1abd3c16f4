-- ===== src/Cachelab/Csim/Lru.antt =====
-- What a set of csim.c should hold, from the history of its accesses alone: the tags used last.
use sysprog2021s.Prelude.{
  ℕ, ◌+◌, ◌≤◌, ◌<◌, ◌≡◌, ◌↔◌, refl, sym, ◌∙◌, Bool, true, false, ◌&&◌, ◌||◌, Option, none, some,
  List, [], ◌∷◌, ◌++◌, ltb, ◌==◌, if◌then◌else◌, length, arith,
}
use Prim.Native.Nat.{min}
use sysprog2021s.Cachelab.Csim.{Line, CacheSet, is_valid}

-- When a tag was used last, counted from 1. The history has the newest access in front.
unfoldable pub last_use : List ℕ → ℕ → Option ℕ
last_use [] g = none
last_use (x ∷ h) g = if x == g then some (length h + 1) else last_use h g

unfoldable pub resident : ℕ → List Line → Bool
resident g [] = false
resident g (l ∷ ls) = (is_valid l && l.tag == g) || resident g ls

unfoldable pub all_valid : List Line → Bool
all_valid [] = true
all_valid (l ∷ ls) = is_valid l && all_valid ls

-- Whether `a` was used since the last use of `b`.
unfoldable pub used_since : List ℕ → (a b : ℕ) → Bool
used_since [] a b = false
used_since (x ∷ h) a b = if x == b then false else if x == a then true else used_since h a b

-- How many tags were used since the last use of `b`, each counted once.
unfoldable pub distance : List ℕ → ℕ → ℕ
distance [] b = 0
distance (x ∷ h) b = if x == b then 0 else distance h b + (if used_since h x b then 0 else 1)

abbrev pub is_some {ℓ} : {A : Type ℓ} → Option A → Bool
is_some none = false
is_some (some _) = true

-- How many tags were ever used, each counted once.
unfoldable pub distinct_uses : List ℕ → ℕ
distinct_uses [] = 0
distinct_uses (x ∷ h) = distinct_uses h + (if is_some (last_use h x) then 0 else 1)

unfoldable pub newer_count : ℕ → List Line → ℕ
newer_count t [] = 0
newer_count t (l ∷ ls) = (if is_valid l && ltb t l.use_time then 1 else 0) + newer_count t ls

unfoldable pub valid_count : List Line → ℕ
valid_count [] = 0
valid_count (l ∷ ls) = (if is_valid l then 1 else 0) + valid_count ls

-- Every valid line has the time at which its tag was used last.
abbrev pub Dated : List ℕ → List Line → Type 0
Dated h [] = Unit {0}
Dated h (l ∷ ls) = (is_valid l ≡ true → last_use h l.tag ≡ some l.use_time) × Dated h ls

abbrev pub Distinct : List Line → Type 0
Distinct [] = Unit {0}
Distinct (l ∷ ls) = (is_valid l ≡ true → resident l.tag ls ≡ false) × Distinct ls

-- Every valid line was used after time `t`.
abbrev pub Newer : ℕ → List Line → Type 0
Newer t [] = Unit {0}
Newer t (l ∷ ls) = (is_valid l ≡ true → t < l.use_time) × Newer t ls

-- The lines hold the tags used last: one that was used and is not there was used before all that
-- are there, and there is none while a line is empty. As many lines are newer than the last use of
-- a tag as tags were used since, and as many are valid as tags were ever used, up to their number.
pub record HoldsLatest (h : List ℕ) (ls : List Line) : Type 0 where
  pub dated : Dated h ls
  pub distinct : Distinct ls
  pub latest : (g t : ℕ) → resident g ls ≡ false → last_use h g ≡ some t → Newer t ls
  pub kept : (g t : ℕ) → all_valid ls ≡ false → last_use h g ≡ some t → resident g ls ≡ true
  pub ranked : (g t : ℕ) → last_use h g ≡ some t → newer_count t ls ≡ min (length ls) (distance h g)
  pub filled : valid_count ls ≡ min (length ls) (distinct_uses h)

pub record IsLru (h : List ℕ) (cs : CacheSet) : Type 0 where
  pub counted : cs.use_cnt ≡ length h
  pub holds : HoldsLatest h cs.lines

pub last_use-le : (h : List ℕ) (g : ℕ) {t : ℕ} → last_use h g ≡ some t → t ≤ length h
unfolding last_use
last_use-le [] g e = ground arith
last_use-le (x ∷ h) g {t} e = ground (arith, last_use-le h g {t = t})

-- No two tags were used last at the same time.
pub last_use-injective :
    (h : List ℕ) (a b : ℕ) {t : ℕ} → last_use h a ≡ some t → last_use h b ≡ some t → a ≡ b
unfolding last_use
last_use-injective [] a b e f = ground arith
last_use-injective (x ∷ h) a b {t} e f =
    ground
      (arith, last_use-injective h a b {t = t}, last_use-le h a {t = t}, last_use-le h b {t = t})

-- Of two tags, the one used later was used since the other.
pub used_since-last_use :
    (h : List ℕ) (a b : ℕ) {t u : ℕ}
    → last_use h a ≡ some t
    → last_use h b ≡ some u
    → used_since h a b ≡ ltb u t
unfolding used_since last_use
used_since-last_use [] a b e f = ground arith
used_since-last_use (x ∷ h) a b {t} {u} e f = ground (
  arith,
  used_since-last_use h a b {t = t} {u = u},
  last_use-le h a {t = t},
  last_use-le h b {t = u},
)

pub used_since-never : (h : List ℕ) (a b : ℕ) → last_use h a ≡ none → used_since h a b ≡ false
unfolding used_since last_use
used_since-never [] a b e = refl
used_since-never (x ∷ h) a b e = ground (arith, used_since-never h a b)

-- A line may be taken out of its place and put in front: nothing above depends on the order.
module _ (l : Line) (post : List Line) where
  pub resident-front :
      (g : ℕ) (pre : List Line) → resident g (pre ++ (l ∷ post)) ≡ resident g (l ∷ (pre ++ post))
  unfolding resident
  resident-front g [] = refl
  resident-front g (p ∷ pre) = ground (arith, resident-front g pre)

  pub all_valid-front :
      (pre : List Line) → all_valid (pre ++ (l ∷ post)) ≡ all_valid (l ∷ (pre ++ post))
  unfolding all_valid
  all_valid-front [] = refl
  all_valid-front (p ∷ pre) = ground (arith, all_valid-front pre)

  pub newer_count-front :
      (t : ℕ) (pre : List Line)
      → newer_count t (pre ++ (l ∷ post)) ≡ newer_count t (l ∷ (pre ++ post))
  unfolding newer_count
  newer_count-front t [] = refl
  newer_count-front t (p ∷ pre) = omega (arith, newer_count-front t pre)

  pub valid_count-front :
      (pre : List Line) → valid_count (pre ++ (l ∷ post)) ≡ valid_count (l ∷ (pre ++ post))
  unfolding valid_count
  valid_count-front [] = refl
  valid_count-front (p ∷ pre) = omega (arith, valid_count-front pre)

  pub length-front : (pre : List Line) → length (pre ++ (l ∷ post)) ≡ length (l ∷ (pre ++ post))
  length-front [] = refl
  length-front (p ∷ pre) = omega (arith, length-front pre)

  pub Dated-front :
      (h : List ℕ) (pre : List Line) → Dated h (pre ++ (l ∷ post)) ↔ Dated h (l ∷ (pre ++ post))
  Dated-front h [] = (λ d. d, λ d. d)
  Dated-front h (p ∷ pre) =
      let (to, from) = Dated-front h pre in
      (λ d. let e = to d.1 in (e.0, (d.0, e.1)), λ d. (d.1.0, from (d.0, d.1.1)))

  pub Newer-front :
      (t : ℕ) (pre : List Line) → Newer t (pre ++ (l ∷ post)) ↔ Newer t (l ∷ (pre ++ post))
  Newer-front t [] = (λ d. d, λ d. d)
  Newer-front t (p ∷ pre) =
      let (to, from) = Newer-front t pre in
      (λ d. let e = to d.1 in (e.0, (d.0, e.1)), λ d. (d.1.0, from (d.0, d.1.1)))

  pub Distinct-front :
      (pre : List Line) → Distinct (pre ++ (l ∷ post)) ↔ Distinct (l ∷ (pre ++ post))
  unfolding resident
  Distinct-front [] = (λ d. d, λ d. d)
  Distinct-front (p ∷ pre) =
      let (to, from) = Distinct-front pre in
      (
        λ d. ground (arith, to d.1, resident-front p.tag pre),
        λ d. ground (arith, from ((λ v. ground (arith, d.0 v)), d.1.1), resident-front p.tag pre),
      )

  pub HoldsLatest-front :
      (h : List ℕ) (pre : List Line)
      → HoldsLatest h (pre ++ (l ∷ post)) ↔ HoldsLatest h (l ∷ (pre ++ post))
  HoldsLatest-front h pre = (
    λ k. record {
      dated = (Dated-front h pre).0 k.dated;
      distinct = (Distinct-front pre).0 k.distinct;
      latest = λ g t r e. (Newer-front t pre).0 (k.latest g t (resident-front g pre ∙ r) e);
      kept = λ g t r e. sym (resident-front g pre) ∙ k.kept g t (all_valid-front pre ∙ r) e;
      ranked = λ g t e. omega (arith, k.ranked g t e, newer_count-front t pre, length-front pre);
      filled = omega (arith, k.filled, valid_count-front pre, length-front pre);
    },
    λ k. record {
      dated = (Dated-front h pre).1 k.dated;
      distinct = (Distinct-front pre).1 k.distinct;
      latest = λ g t r e. (Newer-front t pre).1 (k.latest g t (sym (resident-front g pre) ∙ r) e);
      kept = λ g t r e. resident-front g pre ∙ k.kept g t (sym (all_valid-front pre) ∙ r) e;
      ranked = λ g t e. omega (arith, k.ranked g t e, newer_count-front t pre, length-front pre);
      filled = omega (arith, k.filled, valid_count-front pre, length-front pre);
    },
  )
