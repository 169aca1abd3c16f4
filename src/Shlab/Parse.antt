-- ===== src/Shlab/Parse.antt =====
-- `parseline` and `isnumber` of shlab-handout/tsh.c, over the bytes of a command line without its
-- terminator. `main` reads the line with `fgets` into MAXLINE bytes, so that it fits into the array of
-- MAXLINE bytes that `parseline` copies it to.
pub mod RoundTrip
use sysprog2021s.Prelude.{
  ℕ, zero, suc, ◌+◌, ◌-◌, ◌*◌, Bool, true, false, ◌&&◌, Option, none, some, List, [], ◌∷◌, ltb, leb,
  ◌==◌, if◌then◌else◌, length,
}

abbrev pub space : ℕ
space = b' '

abbrev pub quote : ℕ
quote = 39

abbrev pub ampersand : ℕ
ampersand = b'&'

-- `buf[strlen(buf)-1] = ' ';` is out of range on an empty line.
unfoldable pub replace_last : List ℕ → Option (List ℕ)
replace_last [] = none
replace_last (c ∷ []) = some (space ∷ [])
replace_last (c ∷ d ∷ cs) = elim (replace_last (d ∷ cs)) [
  | none ↦ none
  | some rest ↦ some (c ∷ rest)
]

unfoldable pub skip_spaces : List ℕ → List ℕ
skip_spaces [] = []
skip_spaces (c ∷ cs) = if c == space then skip_spaces cs else c ∷ cs

-- `strchr(buf, c)`: what stands before the first `c`, and behind it; `none` is NULL.
unfoldable pub split_at : ℕ → List ℕ → Option (List ℕ × List ℕ)
split_at c [] = none
split_at c (d ∷ ds) =
    let later : Option (List ℕ × List ℕ) = elim (split_at c ds) [
      | none ↦ none
      | some (before, after) ↦ some (d ∷ before, after)
    ] in
    if d == c then some ([], ds) else later

-- The next argument and what follows its delimiter: a closing quote or a space.
unfoldable pub next_word : List ℕ → Option (List ℕ × List ℕ)
unfolding split_at
next_word [] = none
next_word (c ∷ cs) = if c == quote then split_at quote cs else split_at space (c ∷ cs)

-- The loop that builds `argv`. Each round takes at least the delimiter, so the length of the
-- buffer is fuel enough.
unfoldable pub collect_words : (fuel : ℕ) → List ℕ → List (List ℕ)
collect_words zero buf = []
collect_words (suc fuel) buf = elim (next_word buf) [
  | none ↦ []
  | some (word, rest) ↦ word ∷ collect_words fuel (skip_spaces rest)
]

-- `*argv[argc-1] == '&'`, and `argv` without that argument.
unfoldable pub starts_with_ampersand : List ℕ → Bool
starts_with_ampersand [] = false
starts_with_ampersand (c ∷ cs) = c == ampersand

unfoldable pub take_background : List (List ℕ) → Bool × List (List ℕ)
unfolding starts_with_ampersand
take_background [] = (true, [])
take_background (w ∷ []) = if starts_with_ampersand w then (true, []) else (false, w ∷ [])
take_background (w ∷ v ∷ ws) = let (bg, rest) = take_background (v ∷ ws) in (bg, w ∷ rest)

abbrev pub max_args : ℕ
max_args = 128

-- `none` is an access out of range: an empty line, or an `argv` of MAXARGS arguments and more. A
-- blank line counts as a background job.
unfoldable pub parseline : List ℕ → Option (Bool × List (List ℕ))
parseline cmdline = elim (replace_last cmdline) [
  | none ↦ none
  | some buf ↦
      let argv = collect_words (length buf) (skip_spaces buf) in
      if ltb (length argv) max_args then some (take_background argv) else none
]

abbrev pub is_digit : ℕ → Bool
is_digit c = leb b'0' c && leb c b'9'

-- The do-while loop of `isnumber`: an empty string is no number, since its terminator is no digit.
unfoldable pub isnumber : List ℕ → Bool
isnumber [] = false
isnumber (c ∷ []) = is_digit c
isnumber (c ∷ d ∷ cs) = is_digit c && isnumber (d ∷ cs)

-- `atoi` of a string of digits, of a value that an `int` holds.
unfoldable pub atoi_from : ℕ → List ℕ → ℕ
atoi_from n [] = n
atoi_from n (c ∷ cs) = atoi_from (10 * n + (c - b'0')) cs
