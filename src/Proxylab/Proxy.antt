-- ===== src/Proxylab/Proxy.antt =====
-- proxylab-handout/proxy.c: what a thread of the proxy does with one request. What the connections
-- deliver, and what `cache_lookup` answers, are arguments; a write past the end of a local array is
-- the result `none`. The pieces are what `Rio_readnb` returns until it returns 0; its errors are left
-- out. A line has no zero byte. `store` is a call of `cache_add` with its arguments.
pub mod Replies
pub mod Requests
pub mod Targets
pub mod Runs
mod Tests
use sysprog2021s.Prelude.{
  ℕ, zero, suc, ◌+◌, ◌-◌, ◌*◌, Bool, true, false, ◌&&◌, ◌||◌, not, Option, none, some, List, [],
  ◌∷◌, ◌++◌, map, ltb, leb, ◌==◌, if◌then◌else◌, length,
}
use sysprog2021s.Proxylab.Text.{
  Bytes, max_buf, max_object_size, is_space, break_at, take_word, skip_space, next_word, strip,
  is_some, strstr, is_empty, scheme_end, default_port, get, crlf,
}
use sysprog2021s.Prelude.Fallible.{◌>>=◌}
use sysprog2021s.Proxylab.Cache.{same}

-- What `hostname`, `port` and `resource` hold.
pub record Target : Type 0 where
  pub hostname : Bytes
  pub port : Bytes
  pub resource : Bytes

-- A split text, a text that cannot be split, or a write past the end of an array.
pub data Split (A : Type 0) : Type 0 where
  parts : A → Split A
  malformed overrun : Split A

unfoldable pub split_port : (hostname resource : Bytes) → Split Target
split_port hostname resource =
    let (host, rest) = break_at b':' hostname in
    elim rest [
      | [] ↦ parts (record { hostname = hostname; port = default_port; resource = resource })
      | c ∷ port ↦
          if ltb (length port) 8
          then parts (record { hostname = host; port = port; resource = resource })
          else overrun
    ]

-- `%[^/]%s`
unfoldable pub split_host : (text : Bytes) → Split Target
split_host text =
    let (hostname, rest) = break_at b'/' text in
    let resource = (next_word rest).0 in
    if is_empty hostname || is_empty resource then malformed else split_port hostname resource

unfoldable pub split_scheme : (url : Bytes) → Split Target
split_scheme url =
    let (protocol, rest) = break_at b':' url in
    if is_empty protocol
    then malformed
    else if ltb (length protocol) 8
    then elim (strip scheme_end rest) [ none ↦ malformed | some text ↦ split_host text ]
    else overrun

unfoldable pub split_url : (url : Bytes) → Split Target
split_url url = if strstr url scheme_end then split_scheme url else split_host url

-- `method` and `url` of the request line, and its version.
pub record RequestLine : Type 0 where
  pub method : Bytes
  pub url : Bytes
  pub version : Bytes

unfoldable pub split_line : (req : Bytes) → Split RequestLine
split_line req =
    let (method, rest) = next_word req in
    let (url, rest) = next_word rest in
    let version = (next_word rest).0 in
    if leb 8 (length method) || leb 16 (length version)
    then overrun
    else if is_empty version
    then malformed
    else parts (record { method = method; url = url; version = version })

-- The lines that the proxy writes itself, and the names of those that it leaves out.
abbrev pub user_agent_hdr : Bytes
user_agent_hdr =
    b'U' ∷ b's' ∷ b'e' ∷ b'r' ∷ b'-' ∷ b'A' ∷ b'g' ∷ b'e' ∷ b'n' ∷ b't' ∷ b':' ∷ b' ' ∷ b'M' ∷ b'o'
    ∷ b'z' ∷ b'i' ∷ b'l' ∷ b'l' ∷ b'a' ∷ b'/' ∷ b'5' ∷ b'.' ∷ b'0' ∷ b' ' ∷ b'(' ∷ b'X' ∷ b'1'
    ∷ b'1' ∷ b';' ∷ b' ' ∷ b'L' ∷ b'i' ∷ b'n' ∷ b'u' ∷ b'x' ∷ b' ' ∷ b'x' ∷ b'8' ∷ b'6' ∷ b'_'
    ∷ b'6' ∷ b'4' ∷ b';' ∷ b' ' ∷ b'r' ∷ b'v' ∷ b':' ∷ b'1' ∷ b'0' ∷ b'.' ∷ b'0' ∷ b'.' ∷ b'3'
    ∷ b')' ∷ b' ' ∷ b'G' ∷ b'e' ∷ b'c' ∷ b'k' ∷ b'o' ∷ b'/' ∷ b'2' ∷ b'0' ∷ b'1' ∷ b'2' ∷ b'0'
    ∷ b'3' ∷ b'0' ∷ b'5' ∷ b' ' ∷ b'F' ∷ b'i' ∷ b'r' ∷ b'e' ∷ b'f' ∷ b'o' ∷ b'x' ∷ b'/' ∷ b'1'
    ∷ b'0' ∷ b'.' ∷ b'0' ∷ b'.' ∷ b'3' ∷ 13 ∷ 10 ∷ []

abbrev pub conn_hdr : Bytes
conn_hdr =
    b'C' ∷ b'o' ∷ b'n' ∷ b'n' ∷ b'e' ∷ b'c' ∷ b't' ∷ b'i' ∷ b'o' ∷ b'n' ∷ b':' ∷ b' ' ∷ b'c' ∷ b'l'
    ∷ b'o' ∷ b's' ∷ b'e' ∷ 13 ∷ 10 ∷ []

abbrev pub proxy_conn_hdr : Bytes
proxy_conn_hdr =
    b'P' ∷ b'r' ∷ b'o' ∷ b'x' ∷ b'y' ∷ b'-' ∷ b'C' ∷ b'o' ∷ b'n' ∷ b'n' ∷ b'e' ∷ b'c' ∷ b't' ∷ b'i'
    ∷ b'o' ∷ b'n' ∷ b':' ∷ b' ' ∷ b'c' ∷ b'l' ∷ b'o' ∷ b's' ∷ b'e' ∷ 13 ∷ 10 ∷ []

abbrev pub http_version : Bytes
http_version = b'H' ∷ b'T' ∷ b'T' ∷ b'P' ∷ b'/' ∷ b'1' ∷ b'.' ∷ b'0' ∷ []

abbrev pub host_name : Bytes
host_name = b'H' ∷ b'o' ∷ b's' ∷ b't' ∷ b':' ∷ []

abbrev pub user_agent_name : Bytes
user_agent_name = b'U' ∷ b's' ∷ b'e' ∷ b'r' ∷ b'-' ∷ b'A' ∷ b'g' ∷ b'e' ∷ b'n' ∷ b't' ∷ b':' ∷ []

abbrev pub conn_name : Bytes
conn_name = b'C' ∷ b'o' ∷ b'n' ∷ b'n' ∷ b'e' ∷ b'c' ∷ b't' ∷ b'i' ∷ b'o' ∷ b'n' ∷ b':' ∷ []

abbrev pub proxy_conn_name : Bytes
proxy_conn_name =
    b'P' ∷ b'r' ∷ b'o' ∷ b'x' ∷ b'y' ∷ b'-' ∷ b'C' ∷ b'o' ∷ b'n' ∷ b'n' ∷ b'e' ∷ b'c' ∷ b't' ∷ b'i'
    ∷ b'o' ∷ b'n' ∷ b':' ∷ []

-- `strcat` onto `req_fwd`.
unfoldable pub strcat : (req_fwd text : Bytes) → Option Bytes
strcat req_fwd text =
    if ltb (length (req_fwd ++ text)) max_buf then some (req_fwd ++ text) else none

-- The request line and the headers that the proxy writes.
abbrev pub first_text : (method : Bytes) → Target → Bytes
first_text method t =
    method
    ++ (32 ∷ t.resource)
    ++ (32 ∷ http_version)
    ++ crlf
    ++ host_name
    ++ (32 ∷ t.hostname)
    ++ (b':' ∷ t.port)
    ++ crlf
    ++ user_agent_hdr
    ++ conn_hdr
    ++ proxy_conn_hdr

-- The texts overrun `req_fwd` one after another exactly if they do together.
unfoldable pub first_lines : (method : Bytes) → Target → Option Bytes
first_lines method t = strcat [] (first_text method t)

unfoldable pub is_skipped : (req : Bytes) → Bool
is_skipped req =
    strstr req host_name
    || strstr req user_agent_name
    || strstr req conn_name
    || strstr req proxy_conn_name

-- The loop that reads the other headers, over the lines that it gets.
unfoldable pub add_headers : (lines : List Bytes) (req_fwd : Bytes) → Option Bytes
add_headers [] req_fwd = some req_fwd
add_headers (req ∷ lines) req_fwd =
    let skipped = add_headers lines req_fwd in
    let added = strcat req_fwd req >>= add_headers lines in
    if same req crlf then strcat req_fwd req else if is_skipped req then skipped else added

-- The loop that receives the reply, over the pieces that it gets: the first `objectlen` bytes of
-- `object`.
unfoldable pub receive : (pieces : List Bytes) (object : Bytes) → Bytes
receive [] object = object
receive (resp ∷ pieces) object =
    let added = receive pieces (object ++ resp) in
    let left_out = receive pieces object in
    if leb (length object + length resp) max_object_size then added else left_out

-- What a thread does: it writes to the client or to a server, or calls `cache_add`.
pub data Action : Type 0 where
  reply : (text : Bytes) → Action
  forward : (hostname port request : Bytes) → Action
  store : (url object : Bytes) (objectlen : ℕ) → Action

-- `strcasecmp` finds no difference.
abbrev pub to_lower : ℕ → ℕ
to_lower c = if leb 65 c && leb c 90 then c + 32 else c

unfoldable pub same_letters : Bytes → Bytes → Bool
same_letters a b = same (map to_lower a) (map to_lower b)

-- The part of `run_thread` from the connection to the server on.
unfoldable pub exchange :
    (url : Bytes) → Target → (request : Bytes) (pieces : List Bytes) → List Action
exchange url t request pieces =
    let object = receive pieces [] in
    let stored =
      if leb (length object) max_object_size then store url object (length object) ∷ [] else [] in
    forward t.hostname t.port request ∷ (map reply pieces ++ stored)

-- What `Rio_readlineb` and `Rio_readnb` deliver, and whether `Open_clientfd` succeeds; `request`
-- `none` is an error.
pub record Traffic : Type 0 where
  pub request : Option Bytes
  pub lines : List Bytes
  pub connects : Target → Bool
  pub pieces : List Bytes

unfoldable pub fetch : RequestLine → Traffic → Target → Option (List Action)
fetch r traffic t = first_lines r.method t >>= (λ req_fwd.
    add_headers traffic.lines req_fwd >>= (λ request.
      some (if traffic.connects t then exchange r.url t request traffic.pieces else [])))

-- `run_thread` behind a miss of the cache.
unfoldable pub miss : RequestLine → Traffic → Option (List Action)
miss r traffic =
    if same_letters r.method get
    then elim (split_url r.url) [
      | malformed ↦ some []
      | overrun ↦ none
      | parts t ↦ fetch r traffic t
    ]
    else some []

-- `cache_lookup` is what it answers. Each thread closes its connections at the end.
unfoldable pub run_thread : (cache_lookup : Bytes → Option Bytes) → Traffic → Option (List Action)
run_thread cache_lookup traffic = elim traffic.request [
  | none ↦ some []
  | some req ↦ elim (split_line req) [
    | malformed ↦ some []
    | overrun ↦ none
    | parts r ↦ elim (cache_lookup r.url) [
      | none ↦ miss r traffic
      | some object ↦ if is_empty object then miss r traffic else some (reply object ∷ [])
    ]
  ]
]
