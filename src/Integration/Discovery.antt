-- ===== src/Integration/Discovery.antt =====
-- task_8/homework/utils/src/udp_discovery.c: the servers that answer a broadcast.
use sem.Base.{
  ℕ, Bool, false, ◌&&◌, ◌||◌, Option, none, some, List, [], ◌∷◌, ◌++◌, ltb, ◌==◌, if◌then◌else◌,
  length, take,
}
use sem.Text.{Bytes, codes, equal, starts_with, cstr}

-- An address is `s_addr`.
pub record ServerInfo : Type 0 where
  pub addr : ℕ
  pub port : ℕ

pub record Datagram : Type 0 where
  pub payload : Bytes
  pub from : ℕ

abbrev pub max_servers : ℕ
max_servers = 64

abbrev pub tcp_task_port : ℕ
tcp_task_port = 8125

abbrev pub discovery_request : Bytes
discovery_request = codes "MONTE_CARLO_DISCOVERY"

abbrev pub discovery_response : Bytes
discovery_response = codes "MONTE_CARLO_READY"

-- A buffer of 256 bytes, less the null byte, as a C string.
abbrev pub received : Bytes → Bytes
received payload = cstr (take 255 payload)

unfoldable pub is_found : ℕ → List ServerInfo → Bool
is_found a [] = false
is_found a (s ∷ ss) = s.addr == a || is_found a ss

-- The body of the loop of discover_servers_udp.
unfoldable pub receive : Datagram → List ServerInfo → List ServerInfo
receive d servers =
    if starts_with discovery_response (received d.payload)
    then if is_found d.from servers
      then servers
      else servers ++ record { addr = d.from; port = tcp_task_port } ∷ []
    else servers

-- The loop over the datagrams that come before the timeout.
unfoldable pub receive_all : List Datagram → List ServerInfo → List ServerInfo
receive_all [] servers = servers
receive_all (d ∷ ds) servers =
    if ltb (length servers) max_servers then receive_all ds (receive d servers) else servers

-- Whether the calls before the loop succeed.
pub record Sockets : Type 0 where
  pub opens : Bool
  pub broadcasts : Bool
  pub sets_timeout : Bool
  pub sends : Bool

-- The list of servers, and what the C code returns, none for -1.
unfoldable pub discover_servers_udp : Sockets → List Datagram → List ServerInfo × Option ℕ
discover_servers_udp k ds =
    let servers = receive_all ds [] in
    if k.opens && k.broadcasts && k.sets_timeout && k.sends
    then (servers, some (length servers))
    else ([], none)

-- What start_udp_discovery_server sends back for a datagram.
unfoldable pub reply : Bytes → Option Bytes
reply payload = if equal (received payload) discovery_request then some discovery_response else none

-- The loop of start_udp_discovery_server over what it receives, an error as none: what it sends to
-- which address.
unfoldable pub serve_requests : List (Option Datagram) → List Datagram
serve_requests [] = []
serve_requests (none ∷ ds) = serve_requests ds
serve_requests (some d ∷ ds) = elim (reply d.payload) [
  | none ↦ serve_requests ds
  | some text ↦ record { payload = text; from = d.from } ∷ serve_requests ds
]
