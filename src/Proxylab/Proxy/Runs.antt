-- ===== src/Proxylab/Proxy/Runs.antt =====
-- A whole request through `run_thread` of proxylab-handout/proxy.c.
use sysprog2021s.Prelude.{◌<◌, ◌≢◌, Option, List, [], ◌∷◌, ◌++◌, length}
use sysprog2021s.Proxylab.Text.{Bytes, get, crlf}
use sysprog2021s.Proxylab.Proxy.{Target, first_text}
use sysprog2021s.Proxylab.Proxy.Replies.{joined}
use sysprog2021s.Proxylab.Proxy.Requests.{through_blank, without_skipped}
use sysprog2021s.Proxylab.Proxy.Targets.{Lacks, LacksSpace, IsPort, port_text}

-- A request line as a client writes it.
abbrev pub line_text : (url version : Bytes) → Bytes
line_text url version = get ++ (32 ∷ (url ++ (32 ∷ (version ++ crlf))))

-- What the proxy sends to a server for the target, with the client's headers.
abbrev pub request_text : Target → (lines : List Bytes) → Bytes
request_text t lines = first_text get t ++ joined (without_skipped (through_blank lines))

-- The parts of a URL that the proxy can split: a protocol of 1 to 7 bytes without a colon, a host
-- that has neither colon nor slash, a port that fits or none, all without spaces.
pub record IsAddress (protocol host : Bytes) (port : Option Bytes) (path : Bytes) : Type 0 where
  pub named : protocol ≢ []
  pub short : length protocol < 8
  pub scheme : Lacks b':' protocol
  pub some_host : host ≢ []
  pub colon : Lacks b':' host
  pub slash : Lacks b'/' host
  pub port_fits : IsPort port
  pub spaces : LacksSpace protocol × LacksSpace host × LacksSpace (port_text port) × LacksSpace path
