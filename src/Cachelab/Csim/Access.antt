-- ===== src/Cachelab/Csim/Access.antt =====
-- One access of a set: what is counted, and that the set holds the tags used last.
use sysprog2021s.Prelude.{
  ℕ, ◌+◌, ◌^◌, ◌<◌, ◌≡◌, refl, sym, ap, ◌∙◌, true, false, none, some, inl, inr, List, [], ◌∷◌, ◌++◌,
  ltb, length, length-append, Bool-cases, Option-cases, arith,
}
use sysprog2021s.Prelude.Fallible.{Ensures}
use sysprog2021s.Cachelab.Csim.{
  Param, Line, CacheSet, Search, Message, Accessed, is_valid, next, search_lines, update_line,
  miss_set, hit_set, access_set,
}
use sysprog2021s.Cachelab.Csim.Lru.{
  resident, all_valid, HoldsLatest, HoldsLatest-front, IsLru, resident-front, all_valid-front,
}
use sysprog2021s.Cachelab.Csim.Head.{HoldsLatest-hit, HoldsLatest-fill, HoldsLatest-evict}
use sysprog2021s.Cachelab.Csim.Spec.{counted, resident-lru_hit, all_valid-lru_full}
use sysprog2021s.Cachelab.Csim.Loops.{
  Split, update_line-append, search_lines-found, search_lines-none, search_lines-empty,
  victim_of-oldest,
}

-- None of the counters overflows at the next access.
pub record HasRoom (h : List ℕ) (p : Param) : Type 0 where
  pub time : length h + 1 < 2 ^ 32
  pub hits : p.n_hit + 1 < 2 ^ 32
  pub misses : p.n_miss + 1 < 2 ^ 32
  pub evicts : p.n_evict + 1 < 2 ^ 32

-- What an access of tag `g` leaves.
abbrev pub AfterAccess : List ℕ → ℕ → Param → List Line → Accessed → Type 0
AfterAccess h g p ls (p', cs', out) =
    IsLru (g ∷ h) cs' × (length cs'.lines ≡ length ls) × (p' ≡ counted (length ls) h g p)

-- A line is replaced where it stands, given what that means for it in front of the others.
replace_line :
    (h h' : List ℕ) {k : ℕ} (ls : List Line) (s : Split 0 k ls) (f : Line → Line)
    → HoldsLatest h ls
    → (HoldsLatest h (s.line ∷ (s.pre ++ s.post)) → HoldsLatest h' (f s.line ∷ (s.pre ++ s.post)))
    → (ls' : List Line) × (update_line k f ls ≡ some ls')
      × HoldsLatest h' ls'
      × (length ls' ≡ length ls)
replace_line h h' {k} ls s f holds change =
    let at_pre : k ≡ length s.pre = omega (arith, s.index) in
    (
      s.pre ++ (f s.line ∷ s.post),
      rw (s.whole, at_pre) (update_line-append s.pre s.line s.post f),
      (HoldsLatest-front (f s.line) s.post h' s.pre).1
          (change ((HoldsLatest-front s.line s.post h s.pre).0 (rw s.whole at holds))),
      omega (
        arith,
        ap length s.whole,
        length-append {0} s.pre (s.line ∷ s.post),
        length-append {0} s.pre (f s.line ∷ s.post),
      ),
    )

module _ (h : List ℕ) (g : ℕ) (p : Param) (cs : CacheSet) (lru : IsLru h cs)
    (room : HasRoom h p) where
  hit_set-IsLru :
      (ei : ℕ) (r : Search) (s : Split 0 ei cs.lines)
      → is_valid s.line ≡ true
      → s.line.tag ≡ g
      → Ensures (AfterAccess h g p cs.lines) (hit_set g ei r p cs)
  unfolding hit_set counted resident
  hit_set-IsLru ei r s v t =
      let now : next cs.use_cnt ≡ length h + 1 = omega (arith, lru.counted, room.time) in
      let (ls', updated, holds, len) =
        replace_line h (g ∷ h) cs.lines s (λ l. record l { use_time = next cs.use_cnt }) lru.holds
          (λ k. rw now (HoldsLatest-hit h g s.line (s.pre ++ s.post) k v t)) in
      let here : resident g cs.lines ≡ true =
        rw (s.whole, resident-front s.line s.post g s.pre) (ground arith) in
      let fits : next p.n_hit ≡ p.n_hit + 1 = omega (arith, room.hits) in
      let more : ltb p.n_hit (p.n_hit + 1) ≡ true = ground arith in
      rw updated (
        rw (fits, more, sym (resident-lru_hit h cs.lines lru.holds g) ∙ here)
          (record { counted = omega (arith, now); holds = holds }, len, refl))

  miss_set-IsLru :
      (r : Search) (out : List Message)
      → length cs.lines ≡ p.e
      → 0 < p.e
      → search_lines g 0 p.e true cs.lines ≡ r
      → r.found ≡ none
      → Ensures (AfterAccess h g p cs.lines) (miss_set g r out p cs)
  unfolding miss_set counted
  miss_set-IsLru r out len pos searched none_found =
      let now : next cs.use_cnt ≡ length h + 1 = omega (arith, lru.counted, room.time) in
      let missed : next p.n_miss ≡ p.n_miss + 1 = omega (arith, room.misses) in
      let evicted : next p.n_evict ≡ p.n_evict + 1 = omega (arith, room.evicts) in
      let (absent, full) =
        search_lines-none g 0 p.e true cs.lines (ap (λ r. r.found) searched ∙ none_found) in
      let misses = sym (resident-lru_hit h cs.lines lru.holds g) ∙ absent in
      let fullness = sym (all_valid-lru_full h cs.lines lru.holds) in
      let set_full : r.set_full ≡ all_valid cs.lines = ap (λ r. r.set_full) (sym searched) ∙ full in
      elim (Bool-cases (all_valid cs.lines)) [
        | inl v ↦
            let (ei, chosen, s, older) =
              victim_of-oldest cs.lines (λ e. omega (arith, ap length e)) in
            let (ls', updated, holds, same) =
              replace_line h (g ∷ h) cs.lines s
                (λ l. record l { tag = g; use_time = next cs.use_cnt }) lru.holds
                (λ k. rw now (
                  HoldsLatest-evict h g s.line (s.pre ++ s.post) k
                    (sym (resident-front s.line s.post g s.pre) ∙ (rw s.whole at absent))
                    (sym (all_valid-front s.line s.post s.pre) ∙ (rw s.whole at v)) older)) in
            let is_full : r.set_full ≡ true = set_full ∙ v in
            rw (is_full, chosen)
              (rw updated (
                rw (missed, evicted, misses, fullness ∙ v)
                  (record { counted = omega (arith, now); holds = holds }, same, refl)))
        | inr v ↦
            let (s, empty) =
              search_lines-empty g 0 p.e r.empty_line true cs.lines (omega arith)
                (ap (λ r. r.found) searched ∙ none_found) v (ap (λ r. r.empty_line) searched) in
            let (ls', updated, holds, same) =
              replace_line h (g ∷ h) cs.lines s
                (λ l. record l { tag = g; valid = 1; use_time = next cs.use_cnt }) lru.holds
                (λ k. rw now (
                  HoldsLatest-fill h g s.line (s.pre ++ s.post) k
                    (sym (resident-front s.line s.post g s.pre) ∙ (rw s.whole at absent)) empty)) in
            let not_full : r.set_full ≡ false = set_full ∙ v in
            rw not_full (
              rw updated (
                rw (missed, misses, fullness ∙ v)
                  (record { counted = omega (arith, now); holds = holds }, same, refl)))
      ]

  -- An access of a set with at least one line, whose counters have room, succeeds; it counts what
  -- the policy of the history counts (a hit exactly if fewer tags than lines were used since the
  -- tag's last use, an eviction exactly if it misses after as many tags as lines were used); and
  -- the set holds the tags used last in the longer history.
  pub access_set-IsLru :
      length cs.lines ≡ p.e → 0 < p.e → Ensures (AfterAccess h g p cs.lines) (access_set g p cs)
  unfolding access_set
  access_set-IsLru len pos =
      let r = search_lines g 0 p.e true cs.lines in
      elim (Option-cases r.found) [
        | inl e ↦ rw (e, access_set) (miss_set-IsLru r [] len pos refl e)
        | inr (ei, e) ↦
            let (s, v, t) = search_lines-found g 0 p.e ei true cs.lines e in
            rw (e, access_set) (hit_set-IsLru ei r s v t)
      ]
