-- ===== src/Proxylab/Proxy/Tests.antt =====
-- The theorems about proxy.c at concrete requests, and short tests.
use sysprog2021s.Prelude.{
  ℕ, ◌<◌, ◌≡◌, ◌≢◌, refl, none, some, List, [], ◌∷◌, ◌++◌, map, ltb, if◌then◌else◌, length,
  replicate, length-append, length-replicate, arith,
}
use sysprog2021s.Proxylab.Text.{Bytes, max_buf, max_object_size, strip, strstr}
use sysprog2021s.Proxylab.Proxy.{Target, add_headers, is_skipped, reply, forward, store, exchange}
use sysprog2021s.Proxylab.Proxy.Replies.{joined, exchange-damaged}
use sysprog2021s.Proxylab.Proxy.Requests.{through_blank, without_skipped, add_headers-joined}

abbrev http : Bytes
http = b'h' ∷ b't' ∷ b't' ∷ b'p' ∷ []

abbrev host : Bytes
host = b's' ∷ b'n' ∷ b'u' ∷ b'.' ∷ b'a' ∷ b'c' ∷ []

abbrev port : Bytes
port = b'8' ∷ b'0' ∷ b'8' ∷ b'0' ∷ []

abbrev version : Bytes
version = b'H' ∷ b'1' ∷ []

abbrev path : Bytes
path = b'a' ∷ b'.' ∷ b'h' ∷ b't' ∷ b'm' ∷ b'l' ∷ []

-- `Host: a`, `Accept: b`, and a blank line.
abbrev lines : List Bytes
lines =
    (b'H' ∷ b'o' ∷ b's' ∷ b't' ∷ b':' ∷ b' ' ∷ b'a' ∷ 13 ∷ 10 ∷ [])
    ∷ (b'A' ∷ b'c' ∷ b'c' ∷ b'e' ∷ b'p' ∷ b't' ∷ b':' ∷ b' ' ∷ b'b' ∷ 13 ∷ 10 ∷ [])
    ∷ (13 ∷ 10 ∷ [])
    ∷ (b'A' ∷ b'c' ∷ b'c' ∷ b'e' ∷ b'p' ∷ b't' ∷ b':' ∷ b' ' ∷ b'b' ∷ 13 ∷ 10 ∷ [])
    ∷ []

add_headers-joined_example :
    let all = host ++ joined (without_skipped (through_blank lines)) in
    add_headers lines host ≡ (if ltb (length all) max_buf then some all else none)
add_headers-joined_example = add_headers-joined lines host (omega arith)

headers_kept :
    joined (without_skipped (through_blank lines))
    ≡ (b'A' ∷ b'c' ∷ b'c' ∷ b'e' ∷ b'p' ∷ b't' ∷ b':' ∷ b' ' ∷ b'b' ∷ 13 ∷ 10 ∷ [])
      ++ (13 ∷ 10 ∷ [])
unfolding joined without_skipped through_blank is_skipped strstr strip
headers_kept = refl

abbrev target : Target
target = record { hostname = host; port = port; resource = b'/' ∷ path }

abbrev zeros : Bytes
zeros = replicate 102401 0

-- A piece of one byte more than an object may have.
abbrev too_large : List Bytes
too_large = zeros ∷ []

too_large-length : max_object_size < length (joined too_large)
unfolding joined
too_large-length =
    let size : length zeros ≡ 102401 = length-replicate {A = ℕ} 102401 0 in
    ground (arith, length-append zeros [], size)

exchange-damaged_example :
    (object : Bytes) × (exchange http target path too_large
      ≡ forward host port path ∷ (map reply too_large ++ (store http object (length object) ∷ [])))
    × (object ≢ joined too_large)
exchange-damaged_example = exchange-damaged http target path too_large too_large-length
