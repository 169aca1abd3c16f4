-- ===== src/Proxylab/Proxy/Requests.antt =====
-- Which headers and which target proxylab-handout/proxy.c takes from a request.
use mathlib.Core.List.{append_assoc, append-nil}
use sysprog2021s.Prelude.{
  ◌<◌, ◌≡◌, refl, true, false, some, none, List, [], ◌∷◌, ◌++◌, ltb, if◌then◌else◌, length,
  length-append, arith, Bool-cases, inl, inr,
}
use sysprog2021s.Proxylab.Cache.{same}
use sysprog2021s.Proxylab.Text.{Bytes, max_buf, crlf, strip, strstr}
use sysprog2021s.Proxylab.Proxy.{is_skipped, strcat, add_headers}
use sysprog2021s.Proxylab.Proxy.Replies.{joined}

-- The lines up to the first blank one, that line included.
unfoldable pub through_blank : List Bytes → List Bytes
through_blank [] = []
through_blank (req ∷ lines) = if same req crlf then req ∷ [] else req ∷ through_blank lines

unfoldable pub without_skipped : List Bytes → List Bytes
without_skipped [] = []
without_skipped (req ∷ lines) =
    let rest = without_skipped lines in if is_skipped req then rest else req ∷ rest

same-≡ : (a b : Bytes) → same a b ≡ true → a ≡ b
same-≡ [] [] e = refl
same-≡ [] (d ∷ ds) e = absurd (ground arith)
same-≡ (c ∷ cs) [] e = absurd (ground arith)
same-≡ (c ∷ cs) (d ∷ ds) e = ground (arith, same-≡ cs ds)

crlf_kept : (req : Bytes) → same req crlf ≡ true → is_skipped req ≡ false
unfolding is_skipped strstr strip
crlf_kept req e = rw (same-≡ req crlf e) refl

-- Of the lines up to the first blank one, all but those that name a header of the proxy's own are
-- appended unchanged and in order; where they do not fit into the buffer, it is overrun.
pub add_headers-joined :
    (lines : List Bytes) (req_fwd : Bytes)
    → length req_fwd < max_buf
    → let all = req_fwd ++ joined (without_skipped (through_blank lines)) in
      add_headers lines req_fwd ≡ (if ltb (length all) max_buf then some all else none)
unfolding add_headers strcat joined without_skipped through_blank
add_headers-joined [] req_fwd fits = rw (append-nil req_fwd) (ground arith)
add_headers-joined (req ∷ lines) req_fwd fits =
    let l = length-append req_fwd req in
    elim (Bool-cases (same req crlf)) [
      | inl blank ↦ rw (blank, crlf_kept req blank, append-nil req) refl
      | inr other ↦ elim (Bool-cases (is_skipped req)) [
        | inl skipped ↦ rw (other, skipped) (add_headers-joined lines req_fwd fits)
        | inr kept ↦
            rw (other, kept)
              (let all = joined (without_skipped (through_blank lines)) in
                ground (
                  arith,
                  length-append (req_fwd ++ req) all,
                  append_assoc req_fwd req all,
                  add_headers-joined lines (req_fwd ++ req),
                ))
      ]
    ]
