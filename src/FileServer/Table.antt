-- ===== src/FileServer/Table.antt =====
-- task_7/homework/src/server/server.c: the table of clients. A descriptor or an id of -1 is `none`.
-- `fds` are the descriptors that are open towards clients, `watched` what epoll holds, a descriptor
-- with its tag, and `tasks` the transfers that were started. `clock` counts the system calls that
-- may fail. What the kernel answers to the n-th of these is the parameter `Os`.
use sem.Base.{
  ℕ, suc, Bool, true, false, ◌&&◌, Option, none, some, List, [], ◌∷◌, ltb, ◌==◌, if◌then◌else◌, set,
  get_or, replicate,
}
use sem.Text.{Bytes}

pub record ClientInfo : Type 0 where
  pub client_id : Option ℕ
  pub tx_fd : Option ℕ
  pub rx_fd : Option ℕ
  pub tx_path : Bytes
  pub rx_path : Bytes
  pub is_active : Bool

pub record FileTask : Type 0 where
  pub client_fd : Option ℕ
  pub filename : Bytes

pub record Server : Type 0 where
  pub clients : List ClientInfo
  pub epoll_open : Bool
  pub fds : List ℕ
  pub watched : List (ℕ × ℕ)
  pub tasks : List FileTask
  pub clock : ℕ

-- The answers to read(2): bytes, end of file, EAGAIN, ECONNRESET or EPIPE, any other error.
pub data Read : Type 0 where
  bytes : Bytes → Read
  eof again gone failed : Read

pub record Os : Type 0 where
  pub opens : ℕ → Bytes → Option ℕ
  pub epoll_adds : ℕ → Bool
  pub writes : ℕ → Bool
  pub reads : ℕ → Read
  pub exists : ℕ → Bytes → Bool
  pub allocates : ℕ → Bool
  pub spawns : ℕ → Bool

abbrev pub max_clients : ℕ
max_clients = 64

-- An entry as main() makes it, and as close_client_connection() leaves it.
abbrev pub vacant : ClientInfo
vacant = record {
  client_id = none;
  tx_fd = none;
  rx_fd = none;
  tx_path = [];
  rx_path = [];
  is_active = false;
}

unfoldable pub fresh : Server
fresh = record {
  clients = replicate max_clients vacant;
  epoll_open = true;
  fds = [];
  watched = [];
  tasks = [];
  clock = 0;
}

abbrev pub client : Server → ℕ → ClientInfo
client s i = get_or s.clients i vacant

-- client_id < 0 || client_id >= MAX_CLIENTS || !is_active, the other way round.
abbrev pub is_live : Server → ℕ → Bool
is_live s i = ltb i max_clients && (client s i).is_active

-- The loop of find_free_client_slot; `i` is the index of the first entry of the list.
unfoldable pub free_slot_from : ℕ → List ClientInfo → Option ℕ
free_slot_from i [] = none
free_slot_from i (c ∷ cs) = if c.is_active then free_slot_from (suc i) cs else some i

unfoldable pub find_free_client_slot : Server → Option ℕ
find_free_client_slot s = free_slot_from 0 s.clients

-- close(fd), where fd is not -1
unfoldable pub close_in : Option ℕ → List ℕ → List ℕ
close_in none fds = fds
close_in (some fd) [] = []
close_in (some fd) (x ∷ fds) = if x == fd then fds else x ∷ close_in (some fd) fds

-- epoll_ctl(EPOLL_CTL_DEL), where fd is not -1
unfoldable pub unwatch : Option ℕ → List (ℕ × ℕ) → List (ℕ × ℕ)
unwatch none ws = ws
unwatch (some fd) [] = []
unwatch (some fd) ((x, tag) ∷ ws) =
    if x == fd then unwatch (some fd) ws else (x, tag) ∷ unwatch (some fd) ws

unfoldable pub close_client_connection : ℕ → Server → Server
close_client_connection i s =
    let c = client s i in
    if is_live s i
    then record s {
      clients = set s.clients i vacant;
      fds = close_in c.rx_fd (close_in c.tx_fd s.fds);
      watched = if s.epoll_open then unwatch c.rx_fd s.watched else s.watched;
    }
    else s
