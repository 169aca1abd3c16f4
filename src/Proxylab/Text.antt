-- ===== src/Proxylab/Text.antt =====
-- The C library's functions on text that proxylab-handout/proxy.c uses, and its constants. Strings
-- are lists of bytes without the terminator.
use sysprog2021s.Prelude.{
  ℕ, Bool, true, false, ◌&&◌, ◌||◌, Option, none, some, List, [], ◌∷◌, leb, ◌==◌, if◌then◌else◌,
}

abbrev pub Bytes : Type 0
Bytes = List ℕ

abbrev pub max_buf : ℕ
max_buf = 8192

abbrev pub max_object_size : ℕ
max_object_size = 102400

-- `isspace` in the C locale.
abbrev pub is_space : ℕ → Bool
is_space c = c == 32 || leb 9 c && leb c 13

-- `%[^c]` of `sscanf`: the bytes before the first `c`, and the rest.
unfoldable pub break_at : ℕ → Bytes → Bytes × Bytes
break_at c [] = ([], [])
break_at c (d ∷ ds) =
    let (before, rest) = break_at c ds in if d == c then ([], d ∷ ds) else (d ∷ before, rest)

-- `%s` of `sscanf`: the next word, and the rest.
unfoldable pub take_word : Bytes → Bytes × Bytes
take_word [] = ([], [])
take_word (c ∷ cs) =
    let (word, rest) = take_word cs in if is_space c then ([], c ∷ cs) else (c ∷ word, rest)

unfoldable pub skip_space : Bytes → Bytes
skip_space [] = []
skip_space (c ∷ cs) = let rest = skip_space cs in if is_space c then rest else c ∷ cs

unfoldable pub next_word : Bytes → Bytes × Bytes
next_word cs = take_word (skip_space cs)

-- Text that must stand in front: what follows it.
unfoldable pub strip : (prefix text : Bytes) → Option Bytes
strip [] text = some text
strip (p ∷ ps) [] = none
strip (p ∷ ps) (c ∷ cs) = let rest = strip ps cs in if p == c then rest else none

abbrev pub is_some : Option Bytes → Bool
is_some none = false
is_some (some text) = true

-- `strstr` finds the text.
unfoldable pub strstr : (text part : Bytes) → Bool
strstr [] part = is_some (strip part [])
strstr (c ∷ cs) part = is_some (strip part (c ∷ cs)) || strstr cs part

abbrev pub is_empty : Bytes → Bool
is_empty [] = true
is_empty (c ∷ cs) = false

-- `://`, `80`, `GET` and a line that ends a request.
abbrev pub scheme_end : Bytes
scheme_end = b':' ∷ b'/' ∷ b'/' ∷ []

abbrev pub default_port : Bytes
default_port = b'8' ∷ b'0' ∷ []

abbrev pub get : Bytes
get = b'G' ∷ b'E' ∷ b'T' ∷ []

abbrev pub crlf : Bytes
crlf = 13 ∷ 10 ∷ []
