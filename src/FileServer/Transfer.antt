-- ===== src/FileServer/Transfer.antt =====
-- The transfer of a file: send_file_to_client of task_7/homework/src/server/server.c and
-- receive_file of task_7/homework/src/client/client.c.
-- The decimal digits that printf and sscanf use are in Numbers.
use sem.Base.{
  ℕ, zero, suc, ◌-◌, min, Bool, ◌&&◌, [], ◌∷◌, ◌++◌, ltb, ◌==◌, if◌then◌else◌, length, take, drop,
  ◌+◌, Option, none, some,
}
use sem.Text.{Bytes, codes, starts_with, cstr}
use sem.Numbers.{decimal, scan_size}

abbrev pub buffer_size : ℕ
buffer_size = 4096

-- The header "SIZE:%ld\n".
unfoldable pub size_header : ℕ → Bytes
size_header n = codes "SIZE:" ++ (decimal n ++ b'\n' ∷ [])

-- The loop of send_file_to_client. `rest` is what fread has not given yet, `left` counts the bytes
-- up to file_size, `accepts` says how much of each write the FIFO takes, none where it fails, and
-- `running` whether the server still runs. What was written, in order.
unfoldable pub send_chunks : ℕ → (ℕ → Bool) → (ℕ → ℕ → ℕ) → ℕ → Bytes → ℕ → Bytes
send_chunks zero running accepts turn rest left = []
send_chunks (suc fuel) running accepts turn rest left =
    let chunk = take buffer_size rest in
    let taken = min (accepts turn (length chunk)) (length chunk) in
    let more = send_chunks fuel running accepts (suc turn) (drop buffer_size rest) (left - taken) in
    if ltb 0 left && running turn
    then if length chunk == 0 then [] else if taken == 0 then [] else take taken chunk ++ more
    else []

-- send_file_to_client, for the file's bytes, or none where it does not open; `header_sent` says that
-- the write of the header gave a positive count. What was written to the client.
unfoldable pub send_file_to_client : (ℕ → Bool) → (ℕ → ℕ → ℕ) → Bool → Option Bytes → Bytes
send_file_to_client running accepts header_sent none = []
send_file_to_client running accepts header_sent (some content) =
    let body = send_chunks (suc (length content)) running accepts 0 content (length content) in
    if header_sent then size_header (length content) ++ body else []

-- The reads of the header, a byte each: the bytes before the newline, and what follows it; none at
-- the end of the stream or after `room` bytes.
unfoldable pub read_header : ℕ → Bytes → Option (Bytes × Bytes)
read_header zero stream = none
read_header (suc room) [] = none
read_header (suc room) (c ∷ stream) =
    let more = read_header room stream in
    if c == b'\n'
    then some ([], stream)
    else elim more [ none ↦ none | some (header, rest) ↦ some (c ∷ header, rest) ]

-- sscanf(size_header, "SIZE:%zu", &file_size)
unfoldable pub scan_header : Bytes → Option ℕ
scan_header header =
    if starts_with (codes "SIZE:") header
    then elim (scan_size (drop 5 (cstr header))) [ none ↦ none | some (n, rest) ↦ some n ]
    else none

-- The loop of receive_file over what the FIFO gives up to its end; each read gives at most a buffer,
-- and at least a byte. `chunk turn n` says how much a read of `n` bytes gives. The bytes are read
-- into a buffer that the next read overwrites: what is left is the number received and the rest.
unfoldable pub receive_chunks : ℕ → (ℕ → ℕ → ℕ) → ℕ → ℕ → ℕ → Bytes → Option (ℕ × Bytes)
receive_chunks zero chunk turn received file_size stream = none
receive_chunks (suc fuel) chunk turn received file_size stream =
    let to_read = min buffer_size (file_size - received) in
    let n = min (1 + chunk turn to_read) (min to_read (length stream)) in
    let more = receive_chunks fuel chunk (suc turn) (received + n) file_size (drop n stream) in
    if ltb received file_size then if n == 0 then none else more else some (received, stream)

-- receive_file on the stream; none where it returns -1.
unfoldable pub receive_file : (ℕ → ℕ → ℕ) → Bytes → Option (ℕ × Bytes)
receive_file chunk stream = elim (read_header 63 stream) [
  | none ↦ none
  | some (header, rest) ↦ elim (scan_header header) [
    | none ↦ none
    | some file_size ↦ receive_chunks (suc file_size) chunk 0 0 file_size rest
  ]
]
