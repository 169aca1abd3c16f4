-- ===== src/Proxylab/Proxy/Targets.antt =====
-- How proxylab-handout/proxy.c splits an absolute URL.
use mathlib.Core.List.{append-nil}
use sysprog2021s.Prelude.{
  ℕ, ◌<◌, ◌≡◌, ◌≢◌, refl, ap, true, false, Option, some, none, [], ◌∷◌, ◌++◌, ltb, length, arith,
  Bool-cases, inl, inr,
}
use sysprog2021s.Proxylab.Text.{
  Bytes, break_at, take_word, skip_space, next_word, is_space, strip, strstr, scheme_end,
  default_port, is_some,
}
use sysprog2021s.Proxylab.Proxy.{parts, split_port, split_host, split_scheme, split_url}

-- A text without a byte, and one without spaces.
abbrev pub Lacks : ℕ → Bytes → Type 0
Lacks c [] = Unit
Lacks c (d ∷ ds) = (d ≢ c) × Lacks c ds

abbrev pub LacksSpace : Bytes → Type 0
LacksSpace [] = Unit
LacksSpace (c ∷ cs) = (is_space c ≡ false) × LacksSpace cs

break_at-found :
    (c : ℕ) (before rest : Bytes)
    → Lacks c before
    → break_at c (before ++ (c ∷ rest)) ≡ (before, c ∷ rest)
unfolding break_at
break_at-found c [] rest h = ground arith
break_at-found c (d ∷ ds) rest h = ground (arith, break_at-found c ds rest h.1)

break_at-all : (c : ℕ) (text : Bytes) → Lacks c text → break_at c text ≡ (text, [])
unfolding break_at
break_at-all c [] h = refl
break_at-all c (d ∷ ds) h = ground (arith, break_at-all c ds h.1)

take_word-all : (text : Bytes) → LacksSpace text → take_word text ≡ (text, [])
unfolding take_word
take_word-all [] h = refl
take_word-all (c ∷ cs) h = rw (h.0, take_word-all cs h.1) refl

strip-append : (prefix text : Bytes) → strip prefix (prefix ++ text) ≡ some text
unfolding strip
strip-append [] text = refl
strip-append (p ∷ ps) text = ground (arith, strip-append ps text)

strstr-here : (text part : Bytes) → is_some (strip part text) ≡ true → strstr text part ≡ true
unfolding strstr
strstr-here [] part h = h
strstr-here (c ∷ cs) part h = rw h refl

strstr-inside : (before part rest : Bytes) → strstr (before ++ (part ++ rest)) part ≡ true
unfolding strstr
strstr-inside [] part rest = strstr-here (part ++ rest) part (rw (strip-append part rest) refl)
strstr-inside (b ∷ bs) part rest =
    let later = strstr-inside bs part rest in
    elim (Bool-cases (is_some (strip part (b ∷ (bs ++ (part ++ rest)))))) [
      | inl here ↦ rw here refl
      | inr not_here ↦ rw (not_here, later) refl
    ]

Lacks-append : (c : ℕ) (xs ys : Bytes) → Lacks c xs → Lacks c ys → Lacks c (xs ++ ys)
Lacks-append c [] ys h h' = h'
Lacks-append c (x ∷ xs) ys h h' = (h.0, Lacks-append c xs ys h.1 h')

-- A port as it stands behind the host of a URL, and the port that is meant.
abbrev pub port_text : Option Bytes → Bytes
port_text none = []
port_text (some port) = b':' ∷ port

abbrev pub port_of : Option Bytes → Bytes
port_of none = default_port
port_of (some port) = port

-- A port that fits into its array, and has no slash.
abbrev pub IsPort : Option Bytes → Type 0
IsPort none = Unit
IsPort (some port) = (length port < 8) × Lacks b'/' port

split_port-typed :
    (host resource : Bytes) (port : Option Bytes)
    → Lacks b':' host
    → IsPort port
    → split_port (host ++ port_text port) resource
      ≡ parts (record { hostname = host; port = port_of port; resource = resource })
unfolding split_port
split_port-typed host resource none h v =
    let target =
      λ (x : Bytes). parts (record { hostname = x; port = default_port; resource = resource }) in
    rw (split_port, append-nil host, break_at-all b':' host h) (ap target (append-nil host))
split_port-typed host resource (some port) h v =
    let test : ltb (length port) 8 ≡ true = ground arith in
    let target =
      λ (x : Bytes × Bytes). parts (record { hostname = x.0; port = port; resource = resource }) in
    let found = break_at-found b':' host port h in rw (split_port, found, test) (ap target found)

port_slash : (port : Option Bytes) → IsPort port → Lacks b'/' (port_text port)
port_slash none v = tt
port_slash (some port) v = (ground arith, v.1)

split_host-typed :
    (host path : Bytes) (port : Option Bytes)
    → host ≢ []
    → Lacks b':' host
    → Lacks b'/' host
    → IsPort port
    → LacksSpace path
    → split_host ((host ++ port_text port) ++ (b'/' ∷ path))
      ≡ parts (record { hostname = host; port = port_of port; resource = b'/' ∷ path })
unfolding split_host next_word skip_space
split_host-typed [] path port ne colon slash v spaces = absurd (ne refl)
split_host-typed (c ∷ cs) path port ne colon slash v spaces =
    let spaced = take_word-all (b'/' ∷ path) (refl, spaces) in
    let before = Lacks-append b'/' (c ∷ cs) (port_text port) slash (port_slash port v) in
    rw (split_host, break_at-found b'/' ((c ∷ cs) ++ port_text port) path before, spaced)
      (split_port-typed (c ∷ cs) (b'/' ∷ path) port colon v)

-- An absolute URL.
abbrev pub url_text : (protocol host : Bytes) (port : Option Bytes) (path : Bytes) → Bytes
url_text protocol host port path =
    protocol ++ (scheme_end ++ ((host ++ port_text port) ++ (b'/' ∷ path)))

-- The URL of a protocol of 1 to 7 bytes without a colon, a host that is not empty and has neither
-- colon nor slash, a port of at most 7 bytes without a slash or none, and a path without spaces is
-- split into that host, that port or 80, and that path with its slash.
pub split_url-url_text :
    (protocol host : Bytes) (port : Option Bytes) (path : Bytes)
    → protocol ≢ []
    → length protocol < 8
    → Lacks b':' protocol
    → host ≢ []
    → Lacks b':' host
    → Lacks b'/' host
    → IsPort port
    → LacksSpace path
    → split_url (url_text protocol host port path)
      ≡ parts (record { hostname = host; port = port_of port; resource = b'/' ∷ path })
unfolding split_url split_scheme
split_url-url_text [] host port path named short plain some_host colon slash v spaces =
    absurd (named refl)
split_url-url_text (c ∷ cs) host port path named short plain some_host colon slash v spaces =
    let address = (host ++ port_text port) ++ (b'/' ∷ path) in
    let protocol_end = break_at-found b':' (c ∷ cs) (b'/' ∷ b'/' ∷ address) plain in
    let test : ltb (length (c ∷ cs)) 8 ≡ true = ground arith in
    rw
      (
        strstr-inside (c ∷ cs) scheme_end address,
        split_scheme,
        protocol_end,
        test,
        strip-append scheme_end address,
      )
      (split_host-typed host path port some_host colon slash v spaces)
