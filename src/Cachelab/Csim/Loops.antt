-- ===== src/Cachelab/Csim/Loops.antt =====
-- What the two loops of `accessCache` find: a line with the tag, an empty line, or a line that no
-- other is older than.
use sysprog2021s.Prelude.{
  ℕ, ◌+◌, ◌≤◌, ◌<◌, ◌≡◌, ◌≢◌, ◌⊎◌, refl, sym, ap, Bool, true, false, ◌&&◌, none, some, inl, inr,
  List, [], ◌∷◌, ◌++◌, ltb, ◌==◌, if◌then◌else◌, length, Bool-cases, arith,
}
use sysprog2021s.Cachelab.Csim.{Line, is_valid, search_lines, pick_victim, victim_of, update_line}
use sysprog2021s.Cachelab.Csim.Lru.{resident, all_valid}
use sysprog2021s.Cachelab.Csim.Head.{NotOlder}

-- Line number `k - from` of `ls`, with what stands before and behind it.
pub record Split (from k : ℕ) (ls : List Line) : Type 0 where
  pub pre : List Line
  pub line : Line
  pub post : List Line
  pub whole : ls ≡ pre ++ (line ∷ post)
  pub index : k ≡ from + length pre

pub update_line-append :
    (pre : List Line) (l : Line) (post : List Line) (f : Line → Line)
    → update_line (length pre) f (pre ++ (l ∷ post)) ≡ some (pre ++ (f l ∷ post))
unfolding update_line
update_line-append [] l post f = refl
update_line-append (p ∷ pre) l post f = rw (update_line-append pre l post f, update_line) refl

abbrev later : {n k : ℕ} (l : Line) {ls : List Line} → Split (n + 1) k ls → Split n k (l ∷ ls)
later l s = record {
  pre = l ∷ s.pre;
  line = s.line;
  post = s.post;
  whole = ap (◌∷◌ l) s.whole;
  index = omega (arith, s.index);
}

module _ (wanted : ℕ) where
  -- What the search loop found, if it broke off.
  pub search_lines-found :
      (n em k : ℕ) (full : Bool) (ls : List Line)
      → (search_lines wanted n em full ls).found ≡ some k
      → (s : Split n k ls) × (is_valid s.line ≡ true) × (s.line.tag ≡ wanted)
  unfolding search_lines
  search_lines-found n em k full [] e = absurd (ground arith)
  search_lines-found n em k full (l ∷ ls) e = elim (Bool-cases (is_valid l && l.tag == wanted)) [
    | inl hit ↦
        let here : n ≡ k = ground arith in
        (
          record { pre = []; line = l; post = ls; whole = refl; index = omega arith },
          ground arith,
          ground arith,
        )
    | inr miss ↦
        let (s, v, t) = search_lines-found (n + 1) _ k _ ls (rw miss at e) in (later l s, v, t)
  ]

  -- The search loop ran to its end only if no valid line has the tag, and `setFull` is kept only
  -- if all lines are valid.
  pub search_lines-none :
      (n em : ℕ) (full : Bool) (ls : List Line)
      → (search_lines wanted n em full ls).found ≡ none
      → (resident wanted ls ≡ false)
        × ((search_lines wanted n em full ls).set_full ≡ (full && all_valid ls))
  unfolding search_lines resident all_valid
  search_lines-none n em full [] e = ground arith
  search_lines-none n em full (l ∷ ls) e =
      let lower = if ltb em n then em else n in
      ground (
        arith,
        search_lines-none (n + 1) (if is_valid l then em else lower)
            (if is_valid l then full else false) ls,
      )

  -- Once an empty line is found, a later one does not take its place.
  search_lines-lower :
      (n em : ℕ) (full : Bool) (ls : List Line)
      → em < n
      → (search_lines wanted n em full ls).found ≡ none
      → (search_lines wanted n em full ls).empty_line ≡ em
  unfolding search_lines
  search_lines-lower n em full [] lt e = refl
  search_lines-lower n em full (l ∷ ls) lt e =
      let lower = if ltb em n then em else n in
      ground (
        arith,
        search_lines-lower (n + 1) (if is_valid l then em else lower)
            (if is_valid l then full else false) ls,
      )

  -- The empty line that the search loop found.
  pub search_lines-empty :
      (n em k : ℕ) (full : Bool) (ls : List Line)
      → n + length ls ≤ em
      → (search_lines wanted n em full ls).found ≡ none
      → all_valid ls ≡ false
      → (search_lines wanted n em full ls).empty_line ≡ k
      → (s : Split n k ls) × (is_valid s.line ≡ false)
  unfolding search_lines all_valid
  search_lines-empty n em k full [] le e a q = absurd (ground arith)
  search_lines-empty n em k full (l ∷ ls) le e a q = elim (Bool-cases (is_valid l)) [
    | inl v ↦
        let (s, w) =
          search_lines-empty (n + 1) em k full ls (omega arith) (ground arith) (ground arith)
            (ground arith) in
        (later l s, w)
    | inr v ↦
        let here : n ≡ k = ground (arith, search_lines-lower (n + 1) n false ls) in
        (record { pre = []; line = l; post = ls; whole = refl; index = omega arith }, v)
  ]

-- The loop that picks a victim ends at the line it began with, if no line is older, or at a later
-- line that is older than it and that no line is older than.
pick_victim-oldest :
    (v least n k : ℕ) (ls : List Line)
    → pick_victim v least n ls ≡ k
    → ((k ≡ v) × NotOlder least ls)
      ⊎ ((s : Split n k ls) × (s.line.use_time < least)
          × NotOlder s.line.use_time (s.pre ++ s.post))
unfolding pick_victim
pick_victim-oldest v least n k [] e = inl (sym e, tt)
pick_victim-oldest v least n k (l ∷ ls) e = elim (Bool-cases (ltb l.use_time least)) [
  | inl o ↦ elim (pick_victim-oldest n l.use_time (n + 1) k ls (ground arith)) [
    | inl (q, none_older) ↦ inr (
      record { pre = []; line = l; post = ls; whole = refl; index = omega arith },
      ground arith,
      none_older,
    )
    | inr (s, o', none_older) ↦ inr (later l s, ground arith, (omega arith, none_older))
  ]
  | inr o ↦ elim (pick_victim-oldest v least (n + 1) k ls (ground arith)) [
    | inl (q, none_older) ↦ inl (q, (ground arith, none_older))
    | inr (s, o', none_older) ↦ inr (later l s, o', (ground arith, none_older))
  ]
]

-- The victim of a set that has a line: no other line was used before it.
pub victim_of-oldest :
    (ls : List Line)
    → ls ≢ []
    → (k : ℕ) × (victim_of ls ≡ some k)
      × (s : Split 0 k ls) × NotOlder s.line.use_time (s.pre ++ s.post)
unfolding victim_of
victim_of-oldest [] n = absurd (n refl)
victim_of-oldest (l ∷ ls) n =
    elim (pick_victim-oldest 0 l.use_time 1 (pick_victim 0 l.use_time 1 ls) ls refl) [
      | inl (q, none_older) ↦ (
        pick_victim 0 l.use_time 1 ls,
        refl,
        record { pre = []; line = l; post = ls; whole = refl; index = omega arith },
        none_older,
      )
      | inr (s, o, none_older) ↦
          (pick_victim 0 l.use_time 1 ls, refl, later l s, (omega arith, none_older))
    ]
