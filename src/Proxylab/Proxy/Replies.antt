-- ===== src/Proxylab/Proxy/Replies.antt =====
-- What proxylab-handout/proxy.c stores of the replies that it passes on.
use mathlib.Core.List.{append_assoc, append-nil}
use sysprog2021s.Prelude.{
  ◌≤◌, ◌<◌, ◌≡◌, ◌≢◌, sym, List, [], ◌∷◌, ◌++◌, map, length, length-append, arith,
}
use sysprog2021s.Proxylab.Text.{Bytes, max_object_size}
use sysprog2021s.Proxylab.Proxy.{Target, reply, forward, store, receive, exchange}

-- The bytes of all pieces.
unfoldable pub joined : List Bytes → Bytes
joined [] = []
joined (p ∷ ps) = p ++ joined ps

receive-bounds :
    (pieces : List Bytes) (object : Bytes)
    → length object ≤ max_object_size
    → length (receive pieces object) ≤ max_object_size
unfolding receive
receive-bounds [] object le = le
receive-bounds (p ∷ ps) object le =
    let added = receive-bounds ps (object ++ p) in
    let left_out = receive-bounds ps object le in ground (arith, length-append object p)

receive-joined :
    (pieces : List Bytes) (object : Bytes)
    → length (object ++ joined pieces) ≤ max_object_size
    → receive pieces object ≡ object ++ joined pieces
unfolding receive joined
receive-joined [] object le = sym (append-nil object)
receive-joined (p ∷ ps) object le = ground (
  arith,
  append_assoc object p (joined ps),
  length-append (object ++ p) (joined ps),
  length-append object p,
  receive-joined ps (object ++ p),
)

-- Where all pieces together are small enough for an object, the thread forwards the request, passes
-- every piece on to the client, and stores exactly what it passed on.
pub exchange-stored :
    (url : Bytes) (t : Target) (request : Bytes) (pieces : List Bytes)
    → length (joined pieces) ≤ max_object_size
    → exchange url t request pieces
      ≡ forward t.hostname t.port request
        ∷ (map reply pieces ++ (store url (joined pieces) (length (joined pieces)) ∷ []))
unfolding exchange
exchange-stored url t request pieces le = ground (arith, receive-joined pieces [])

-- Where the pieces together are larger than an object may be, the thread passes them on, but it
-- stores something else under the URL.
pub exchange-damaged :
    (url : Bytes) (t : Target) (request : Bytes) (pieces : List Bytes)
    → max_object_size < length (joined pieces)
    → (object : Bytes) × (exchange url t request pieces
        ≡ forward t.hostname t.port request
          ∷ (map reply pieces ++ (store url object (length object) ∷ [])))
      × (object ≢ joined pieces)
unfolding exchange
exchange-damaged url t request pieces large =
    let object = receive pieces [] in
    let bound = receive-bounds pieces [] (omega arith) in (object, ground arith, ground arith)
