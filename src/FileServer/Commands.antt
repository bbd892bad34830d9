-- ===== src/FileServer/Commands.antt =====
-- task_7/homework/src/server/server.c: the commands of a client, `DISCONNECT` and `GET <file>`.
use sem.Base.{
  ℕ, suc, ◌+◌, Option, none, some, List, [], ◌∷◌, ◌++◌, if◌then◌else◌, length, take, drop,
}
use sem.Text.{Bytes, codes, starts_with, before, scan_word, split_lines, cstr}
use sem.FileServer.Table.{FileTask, Server, Os, client, is_live, close_client_connection}

abbrev pub cmd_get : Bytes
cmd_get = codes "GET"

abbrev pub cmd_disconnect : Bytes
cmd_disconnect = codes "DISCONNECT"

abbrev tick : Server → Server
tick s = record s { clock = suc s.clock }

-- The copy of a command, cut to 511 bytes and at its first newline.
unfoldable pub copy_command : Bytes → Bytes
copy_command command = before b'\n' (take 511 command)

module _ (os : Os) where
  -- The branch of GET, from file_exists() on.
  unfoldable pub start_transfer : ℕ → Bytes → Server → Server
  start_transfer i filename s =
      let asked = tick s in
      let allocated = tick asked in
      let spawned = tick allocated in
      let task : FileTask = record {
        client_fd = (client s i).tx_fd;
        filename = take 255 filename;
      } in
      if os.exists s.clock filename
      then if os.allocates asked.clock
        then if os.spawns allocated.clock
          then record spawned { tasks = s.tasks ++ task ∷ [] }
          else spawned
        else allocated
      else asked

  unfoldable pub process_get : ℕ → Option (Bytes × Bytes) → Server → Server
  unfolding start_transfer
  process_get i none s = s
  process_get i (some (filename, rest)) s = start_transfer i filename s

  unfoldable pub process_client_command : ℕ → Bytes → Server → Server
  process_client_command i command s =
      let cmd_copy = copy_command command in
      if is_live s i
      then if starts_with cmd_disconnect cmd_copy
        then close_client_connection i s
        else if starts_with cmd_get cmd_copy
        then process_get i (scan_word 255 (drop (length cmd_get + 1) cmd_copy)) s
        else s
      else s

  abbrev pub if_any : ℕ → Bytes → Server → Server
  if_any i [] s = s
  if_any i (c ∷ line) s = process_client_command i (c ∷ line) s

  unfoldable pub process_lines : ℕ → List Bytes → Server → Server
  process_lines i [] s = s
  process_lines i (l ∷ ls) s = process_lines i ls (if_any i l s)

  -- The commands in a buffer that was read: each line that is not empty, and then the rest.
  unfoldable pub process_buffer : ℕ → Bytes → Server → Server
  process_buffer i buffer s =
      let (ls, rest) = split_lines (cstr buffer) in if_any i rest (process_lines i ls s)
