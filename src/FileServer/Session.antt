-- ===== src/FileServer/Session.antt =====
-- task_7/homework/src/client: register_client of client.c and main of main_client.c, as the calls they
-- make. The log and what is printed are left out.
use sem.Base.{
  ℕ, Bool, false, ◌||◌, not, ◌==◌, Option, none, some, List, [], ◌∷◌, ◌++◌, leb, if◌then◌else◌,
  length,
}
use sem.Text.{Bytes, codes, starts_with}
use sem.Numbers.{decimal}
use sem.FileServer.Client.{send_get_command}

pub data Fifo : Type 0 where
  tx_fifo rx_fifo : Fifo

pub data Descriptor : Type 0 where
  preopen_fd server_fifo_fd temp_tx_fd epoll_fd tx_fd rx_fd : Descriptor

pub data Effect : Type 0 where
  makes removes : Fifo → Effect
  opens closes : Descriptor → Effect
  writes : Bytes → Effect

-- What epoll_wait gives.
pub data Ready : Type 0 where
  wait_failed timeout event : Ready

-- What the calls of register_client give. `ack` is what read() puts into the buffer, if anything.
pub record Registering : Type 0 where
  pub preopens : Bool
  pub opens_server : Bool
  pub sends : Bool
  pub opens_tx : Bool
  pub makes_epoll : Bool
  pub adds : Bool
  pub ready : Ready
  pub ack : Option Bytes

abbrev pub fifo_path : ℕ → Bytes → Bytes
fifo_path pid name = codes "tmp/client_" ++ (decimal pid ++ name)

abbrev pub register_command : ℕ → Bytes
register_command pid =
    codes "REGISTER "
    ++ (fifo_path pid (codes "/tx") ++ b' ' ∷ (fifo_path pid (codes "/rx") ++ 10 ∷ []))

abbrev pub is_ack : Option Bytes → Bool
is_ack none = false
is_ack (some got) = starts_with (codes "ACK") got

-- From epoll_wait on. The Boolean says that 0 is returned.
unfoldable pub await_ack : Registering → List Effect × Bool
await_ack r = (
  closes temp_tx_fd ∷ closes epoll_fd ∷ [],
  elim r.ready [ wait_failed ↦ false | timeout ↦ false | event ↦ is_ack r.ack ],
)

-- With the FIFO open for the answer.
unfoldable pub open_epoll : Registering → List Effect × Bool
open_epoll r =
    let (later, done) = await_ack r in
    if r.makes_epoll
    then (if r.adds
        then (opens epoll_fd ∷ later, done)
        else (opens epoll_fd ∷ closes temp_tx_fd ∷ closes epoll_fd ∷ [], false))
    else (closes temp_tx_fd ∷ [], false)

-- With the command sent.
unfoldable pub open_tx : Registering → List Effect × Bool
open_tx r =
    let (later, done) = open_epoll r in
    if r.opens_tx then (opens temp_tx_fd ∷ later, done) else ([], false)

unfoldable pub register_client : ℕ → Registering → List Effect × Bool
register_client pid r =
    let (later, done) = open_tx r in
    if r.preopens
    then (if r.opens_server
        then (if leb 512 (length (register_command pid)) || not r.sends
            then (opens preopen_fd ∷ opens server_fifo_fd ∷ closes server_fifo_fd ∷ [], false)
            else (
              opens preopen_fd
                  ∷ opens server_fifo_fd
                  ∷ writes (register_command pid)
                  ∷ closes server_fifo_fd
                  ∷ later,
              done,
            ))
        else (opens preopen_fd ∷ [], false))
    else ([], false)

-- A file that is asked for: whether a signal has come before it, and whether the write of the command
-- gives more than 0.
pub record Asked : Type 0 where
  pub filename : Bytes
  pub stopped : Bool
  pub sends : Bool

-- What the other calls of main give. mkfifo also succeeds where the FIFO is there already. `unlinks`
-- says whether the unlink of cleanup_fifo succeeds, which is called once for a FIFO at most.
pub record Starting : Type 0 where
  pub makes_tx : Bool
  pub makes_rx : Bool
  pub server_there : Bool
  pub registering : Registering
  pub opens_tx : Bool
  pub opens_rx : Bool
  pub unlinks : Fifo → Bool

-- The body of the loop up to the answer, which is receive_file.
unfoldable pub ask : Asked → List Effect
ask a = elim (send_get_command a.filename) [
  | none ↦ []
  | some command ↦ if a.sends then writes command ∷ [] else []
]

unfoldable pub ask_all : List Asked → List Effect
ask_all [] = []
ask_all (a ∷ files) = let later = ask_all files in if a.stopped then [] else ask a ++ later

-- cleanup_fifo of src/fifo.c, without the directories, which it removes where they are empty.
abbrev pub cleanup_fifo : Starting → Fifo → List Effect
cleanup_fifo c f = if c.unlinks f then removes f ∷ [] else []

abbrev pub both_removed : Starting → List Effect
both_removed c = cleanup_fifo c tx_fifo ++ cleanup_fifo c rx_fifo

-- With the client registered. The number is the exit code.
unfoldable pub exchange : Starting → List Asked → List Effect × ℕ
exchange c files =
    if c.opens_tx
    then (if c.opens_rx
        then (
          opens tx_fd
              ∷ opens rx_fd
              ∷ (ask_all files
                  ++ writes (codes "DISCONNECT\n") ∷ closes tx_fd ∷ closes rx_fd ∷ both_removed c),
          0,
        )
        else (opens tx_fd ∷ closes tx_fd ∷ both_removed c, 1))
    else (both_removed c, 1)

-- With both FIFOs made.
unfoldable pub register_and_exchange : ℕ → Starting → List Asked → List Effect × ℕ
register_and_exchange pid c files =
    let (registration, done) = register_client pid c.registering in
    let (later, code) = exchange c files in
    if c.server_there
    then (if done then (registration ++ later, code) else (registration ++ both_removed c, 1))
    else (both_removed c, 1)

-- main, with the log opened. The number is the exit code.
unfoldable pub client_main : ℕ → Starting → List Asked → List Effect × ℕ
client_main pid c files =
    let (later, code) = register_and_exchange pid c files in
    if length files == 0
      || leb 256 (length (fifo_path pid (codes "/tx")))
      || leb 256 (length (fifo_path pid (codes "/rx")))
    then ([], 1)
    else (if c.makes_tx
        then (if c.makes_rx
            then (makes tx_fifo ∷ makes rx_fifo ∷ later, code)
            else (makes tx_fifo ∷ cleanup_fifo c tx_fifo, 1))
        else ([], 1))
