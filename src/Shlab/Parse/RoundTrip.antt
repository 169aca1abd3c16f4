-- ===== src/Shlab/Parse/RoundTrip.antt =====
-- A command line that is typed from arguments is parsed into those arguments.
use sysprog2021s.Prelude.{
  ℕ, zero, suc, ◌+◌, ◌≤◌, ◌<◌, ◌≡◌, ◌≢◌, refl, ap, ◌∙◌, true, false, some, List, [], ◌∷◌, ◌++◌, map,
  if◌then◌else◌, length, length-append, length-map, ltb, lt→ltb, replicate, arith,
}
use mathlib.Core.List.{append_assoc, map-append}
use sysprog2021s.Shlab.Parse.{
  space, quote, replace_last, starts_with_ampersand, skip_spaces, split_at, next_word,
  collect_words, take_background, max_args, parseline,
}

-- An argument as it is typed: bare, or between single quotes.
pub data Arg : Type 0 where
  bare quoted : List ℕ → Arg

abbrev pub word_of : Arg → List ℕ
word_of (bare w) = w
word_of (quoted w) = w

abbrev pub text_of : Arg → List ℕ
text_of (bare w) = w
text_of (quoted w) = quote ∷ (w ++ (quote ∷ []))

abbrev pub Without : ℕ → List ℕ → Type 0
Without c [] = Unit {0}
Without c (d ∷ ds) = (d ≢ c) × Without c ds

-- A bare argument is not empty, has no space and does not begin with a quote; one in quotes may
-- hold anything but a quote.
abbrev pub IsArg : Arg → Type 0
IsArg (bare []) = ⊥
IsArg (bare (c ∷ cs)) = (c ≢ quote) × Without space (c ∷ cs)
IsArg (quoted w) = Without quote w

abbrev pub AllArgs : List (Arg × ℕ) → Type 0
AllArgs [] = Unit {0}
AllArgs ((a, gap) ∷ rest) = IsArg a × AllArgs rest

-- The line as it is typed: each argument is followed by a space and `gap` more, the last one by
-- `gap` spaces and the end of the line.
unfoldable pub typed : List (Arg × ℕ) → List ℕ
typed [] = b'\n' ∷ []
typed ((a, gap) ∷ []) = text_of a ++ (replicate gap space ++ (b'\n' ∷ []))
typed ((a, gap) ∷ b ∷ rest) = text_of a ++ (space ∷ (replicate gap space ++ typed (b ∷ rest)))

unfoldable pub typed_line : (indent : ℕ) → List (Arg × ℕ) → List ℕ
typed_line indent args = replicate indent space ++ typed args

-- The same with the end of the line replaced by a space.
flat : List (Arg × ℕ) → List ℕ
flat [] = []
flat ((a, gap) ∷ rest) = text_of a ++ (space ∷ (replicate gap space ++ flat rest))

split_at-append :
    (c : ℕ) (w rest : List ℕ) → Without c w → split_at c (w ++ (c ∷ rest)) ≡ some (w, rest)
unfolding split_at
split_at-append c [] rest h = ground arith
split_at-append c (d ∷ w) rest h = ground (arith, split_at-append c w rest h.1)

skip_spaces-replicate :
    (n : ℕ) (buf : List ℕ) → skip_spaces (replicate n space ++ buf) ≡ skip_spaces buf
unfolding skip_spaces
skip_spaces-replicate zero buf = refl
skip_spaces-replicate (suc n) buf = skip_spaces-replicate n buf

skip_spaces-flat : (args : List (Arg × ℕ)) → AllArgs args → skip_spaces (flat args) ≡ flat args
unfolding skip_spaces flat
skip_spaces-flat [] h = refl
skip_spaces-flat ((bare [], gap) ∷ rest) h = elim h.0 [ ]
skip_spaces-flat ((bare (c ∷ cs), gap) ∷ rest) h = ground arith
skip_spaces-flat ((quoted w, gap) ∷ rest) h = ground arith

collect_words-flat :
    (fuel : ℕ) (args : List (Arg × ℕ))
    → AllArgs args
    → length args ≤ fuel
    → collect_words fuel (flat args) ≡ map (λ a. word_of a.0) args
unfolding collect_words next_word flat
collect_words-flat zero [] h le = refl
collect_words-flat (suc fuel) [] h le = refl
collect_words-flat zero (a ∷ rest) h le = absurd (omega arith)
collect_words-flat (suc fuel) ((bare [], gap) ∷ rest) h le = elim h.0 [ ]
collect_words-flat (suc fuel) ((bare (c ∷ cs), gap) ∷ rest) h le =
    let tail = replicate gap space ++ flat rest in
    ground (
      arith,
      split_at-append space (c ∷ cs) tail h.0.1,
      skip_spaces-replicate gap (flat rest),
      skip_spaces-flat rest h.1,
      collect_words-flat fuel rest h.1,
    )
collect_words-flat (suc fuel) ((quoted w, gap) ∷ rest) h le =
    let tail = replicate gap space ++ flat rest in
    ground (
      arith,
      append_assoc w (quote ∷ []) (space ∷ tail),
      split_at-append quote w (space ∷ tail) h.0,
      skip_spaces-replicate (suc gap) (flat rest),
      skip_spaces-flat rest h.1,
      collect_words-flat fuel rest h.1,
    )

replace_last-append :
    (xs ys zs : List ℕ) → replace_last ys ≡ some zs → replace_last (xs ++ ys) ≡ some (xs ++ zs)
unfolding replace_last
replace_last-append [] ys zs e = e
replace_last-append (x ∷ []) [] zs e = absurd (ground arith)
replace_last-append (x ∷ []) (y ∷ ys) zs e = ground arith
replace_last-append (x ∷ x' ∷ xs) ys zs e = ground (arith, replace_last-append (x' ∷ xs) ys zs e)

spaces-snoc : (n : ℕ) → replicate n space ++ (space ∷ []) ≡ space ∷ (replicate n space ++ [])
spaces-snoc zero = refl
spaces-snoc (suc n) = ap (◌∷◌ space) (spaces-snoc n)

replace_last-typed :
    (a : Arg × ℕ) (rest : List (Arg × ℕ)) → replace_last (typed (a ∷ rest)) ≡ some (flat (a ∷ rest))
unfolding typed flat replace_last
replace_last-typed (a, gap) [] =
    let end = replicate gap space ++ (b'\n' ∷ []) in
    rw (← spaces-snoc gap) (
      replace_last-append (text_of a) end (replicate gap space ++ (space ∷ []))
        (replace_last-append (replicate gap space) (b'\n' ∷ []) (space ∷ []) refl))
replace_last-typed (a, gap) (b ∷ rest) =
    let gaps = space ∷ replicate gap space in
    replace_last-append (text_of a) (gaps ++ typed (b ∷ rest)) (gaps ++ flat (b ∷ rest))
      (replace_last-append gaps (typed (b ∷ rest)) (flat (b ∷ rest)) (replace_last-typed b rest))

length-flat : (args : List (Arg × ℕ)) → length args ≤ length (flat args)
unfolding flat
length-flat [] = omega arith
length-flat ((a, gap) ∷ rest) = omega (
  arith,
  length-flat rest,
  length-append {0} (text_of a) (space ∷ (replicate gap space ++ flat rest)),
  length-append {0} (replicate gap space) (flat rest),
)

take_background-snoc :
    (ws : List (List ℕ)) (w : List ℕ)
    → take_background (ws ++ (w ∷ []))
      ≡ (if starts_with_ampersand w then (true, ws) else (false, ws ++ (w ∷ [])))
unfolding take_background
take_background-snoc [] w = ground arith
take_background-snoc (v ∷ []) w = ground (arith, take_background-snoc [] w)
take_background-snoc (v ∷ v' ∷ ws) w = ground (arith, take_background-snoc (v' ∷ ws) w)

abbrev pub words : List (Arg × ℕ) → List (List ℕ)
words = map (λ a. word_of a.0)

parse_words :
    (indent : ℕ) (b : Arg × ℕ) (rest : List (Arg × ℕ))
    → AllArgs (b ∷ rest)
    → length (b ∷ rest) < max_args
    → parseline (typed_line indent (b ∷ rest)) ≡ some (take_background (words (b ∷ rest)))
unfolding parseline typed_line
parse_words indent b rest h lt =
    let args = b ∷ rest in
    let indented = replicate indent space ++ flat args in
    let skipped = skip_spaces-replicate indent (flat args) ∙ skip_spaces-flat args h in
    let enough : length args ≤ length indented =
      omega (arith, length-flat args, length-append {0} (replicate indent space) (flat args)) in
    let collected = collect_words-flat (length indented) args h enough in
    let few : ltb (length (words args)) max_args ≡ true =
      lt→ltb _ _ (omega (arith, length-map {0, 0} args (λ a. word_of a.0))) in
    rw
      (
        replace_last-append (replicate indent space) (typed args) (flat args)
            (replace_last-typed b rest),
        parseline,
      )
      (rw (skipped, collected, few) refl)

AllArgs-append :
    (args : List (Arg × ℕ)) (a : Arg) (gap : ℕ)
    → AllArgs args
    → IsArg a
    → AllArgs (args ++ ((a, gap) ∷ []))
AllArgs-append [] a gap h k = (k, tt)
AllArgs-append (b ∷ args) a gap h k = (h.0, AllArgs-append args a gap h.1 k)

-- A line typed from at most 127 arguments, bare or in quotes, with any number of spaces before,
-- between and behind them, is parsed into exactly their words; if the last word begins with '&',
-- it is left out and the job is a background job, and only then.
pub parseline-typed_line :
    (indent : ℕ) (args : List (Arg × ℕ)) (a : Arg) (gap : ℕ)
    → AllArgs args
    → IsArg a
    → length args + 1 < max_args
    → parseline (typed_line indent (args ++ ((a, gap) ∷ [])))
      ≡ some (
          if starts_with_ampersand (word_of a)
          then (true, words args)
          else (false, words args ++ (word_of a ∷ [])))
parseline-typed_line indent [] a gap h k lt =
    parse_words indent (a, gap) [] (k, tt) (omega arith)
    ∙ ap some (take_background-snoc [] (word_of a))
parseline-typed_line indent (b ∷ args) a gap h k lt =
    let last : List (Arg × ℕ) = (a, gap) ∷ [] in
    parse_words indent b (args ++ last) (h.0, AllArgs-append args a gap h.1 k)
      (omega (arith, length-append {0} args last))
    ∙ ap (λ ws. some (take_background ws)) (map-append (λ a. word_of a.0) (b ∷ args) last)
    ∙ ap some (take_background-snoc (words (b ∷ args)) (word_of a))
