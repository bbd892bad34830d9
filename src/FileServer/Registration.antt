-- ===== src/FileServer/Registration.antt =====
-- task_7/homework/src/server/server.c: registration of clients.
use sem.Base.{
  ℕ, suc, Bool, true, false, Option, none, some, List, [], ◌∷◌, if◌then◌else◌, length, set, take,
}
use sem.Text.{Bytes, scan_word, split_lines, cstr}
use sem.FileServer.Table.{
  Server, Read, bytes, Os, find_free_client_slot, close_in, close_client_connection,
}
use sem.FileServer.Commands.{process_buffer}

abbrev tick : Server → Server
tick s = record s { clock = suc s.clock }

-- The entry of a new client.
abbrev pub entered : ℕ → ℕ → ℕ → Bytes → Bytes → Server → Server
entered i tx rx tx_path rx_path s = record s {
  clients = set s.clients i (record {
    client_id = some i;
    tx_fd = some tx;
    rx_fd = some rx;
    tx_path = take 255 tx_path;
    rx_path = take 255 rx_path;
    is_active = true;
  });
}

module _ (os : Os) where
  -- The look for commands that the client has sent before it was watched.
  unfoldable pub read_pending : ℕ → Read → Server → Server
  read_pending i (bytes b) s = process_buffer os i b s
  read_pending i _ s = s

  -- From epoll_ctl(EPOLL_CTL_ADD) on. The Boolean says that the C code returns 0.
  unfoldable pub greet : ℕ → ℕ → Server → Server × Bool
  greet i rx s =
      let added = record s { watched = (rx, i) ∷ s.watched; clock = suc s.clock } in
      let written = tick added in
      if os.epoll_adds s.clock
      then if os.writes added.clock
        then (read_pending i (os.reads written.clock) (tick written), true)
        else (close_client_connection i written, false)
      else (close_client_connection i (tick s), false)

  -- From the second open() on: `tx` is the descriptor that the first gave.
  unfoldable pub open_rx : ℕ → ℕ → Option ℕ → Bytes → Bytes → Server → Server × Bool
  open_rx i tx none tx_path rx_path s = (record s { fds = close_in (some tx) s.fds }, false)
  open_rx i tx (some rx) tx_path rx_path s =
      greet i rx (entered i tx rx tx_path rx_path (record s { fds = rx ∷ s.fds }))

  unfoldable pub open_tx : ℕ → Option ℕ → Bytes → Bytes → Server → Server × Bool
  open_tx i none tx_path rx_path s = (s, false)
  open_tx i (some tx) tx_path rx_path s =
      open_rx i tx (os.opens s.clock rx_path) tx_path rx_path (tick (record s { fds = tx ∷ s.fds }))

  unfoldable pub register_new_client : Bytes → Bytes → Server → Server × Bool
  register_new_client tx_path rx_path s = elim (find_free_client_slot s) [
    | none ↦ (s, false)
    | some i ↦ open_tx i (os.opens s.clock tx_path) tx_path rx_path (tick s)
  ]

  -- sscanf(line, "%*s %255s %255s", tx_path, rx_path) == 2
  unfoldable pub scan_registration : Bytes → Option (Bytes × Bytes)
  scan_registration line = elim (scan_word (length line) line) [
    | none ↦ none
    | some (command, after) ↦ elim (scan_word 255 after) [
      | none ↦ none
      | some (tx_path, behind) ↦ elim (scan_word 255 behind) [
        | none ↦ none
        | some (rx_path, rest) ↦ some (tx_path, rx_path)
      ]
    ]
  ]

  unfoldable pub register_line : Bytes → Server → Server
  register_line line s = elim (scan_registration line) [
    | none ↦ s
    | some (tx_path, rx_path) ↦ (register_new_client tx_path rx_path s).0
  ]

  unfoldable pub register_lines : List Bytes → Server → Server
  register_lines [] s = s
  register_lines (l ∷ ls) s = register_lines ls (register_line l s)

  -- The reads of the server's FIFO up to the first that gives no bytes; what stands behind the last
  -- newline of a read is overwritten by the next.
  unfoldable pub process_registration_commands : List Read → Server → Server
  process_registration_commands (bytes (c ∷ b) ∷ rs) s =
      process_registration_commands rs (register_lines (split_lines (cstr (c ∷ b))).0 s)
  process_registration_commands _ s = s
