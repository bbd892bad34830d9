-- ===== src/FileServer/Client.antt =====
-- task_7/homework/src/client/client.c: the command that asks for a file.
use sem.Base.{Option, none, some, [], ◌∷◌, ◌++◌, leb, if◌then◌else◌, length}
use sem.Text.{Bytes}
use sem.FileServer.Commands.{cmd_get}

-- send_get_command up to the write; none where it returns -1 because the buffer of 512 bytes is too
-- small.
unfoldable pub send_get_command : Bytes → Option Bytes
send_get_command filename =
    let command = cmd_get ++ b' ' ∷ (filename ++ b'\n' ∷ []) in
    if leb 512 (length command) then none else some command
