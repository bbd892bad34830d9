-- ===== src/FileServer/Tests.antt =====
-- Runs of task_7/homework, and its theorems at concrete inputs.
use sem.FileServer.Session.{event, Registering, Starting, tx_fd, client_main, rx_fifo}
use sem.FileServer.Left.{is_made, is_tx, is_open, is_there}
use sem.FileServer.Departure.{client_main-left}
use sem.Base.{
  not, ◌&&◌, ◌+◌, ◌≡◌, refl, true, some, List, [], ◌∷◌, ℕ, zero, suc, ◌≤◌, ◌++◌, arith, length,
  take, drop, replicate, length-replicate, false,
}
use sem.Text.{
  Bytes, codes, starts_with, before, skip_space, scan_word, word_of, cstr, lines_from, is_space,
}
use sem.FileServer.Table.{bytes, again, Os, fresh, free_slot_from, find_free_client_slot, Server}
use sem.FileServer.Commands.{
  copy_command, start_transfer, process_get, process_client_command, process_lines, process_buffer,
}
use sem.FileServer.Registration.{
  read_pending, greet, open_rx, open_tx, register_new_client, scan_registration, register_line,
  register_lines, process_registration_commands, entered,
}
use sem.FileServer.EventLoop.{
  ready, Turn, read_client, process_read, handle_event, handle_events, serve, run_server,
}
use sem.FileServer.Invariant.{IsSound, fresh-IsSound}
use sem.FileServer.Steps.{serve-IsSound}
use sem.FileServer.Transfer.{buffer_size, size_header, send_file_to_client, receive_file}
use sem.FileServer.Client.{send_get_command}
use sem.FileServer.Asking.{process_buffer-send_get_command}
use sem.FileServer.Delivery.{
  WholeWrites, receive_file-send_file_to_client, send_file_to_client_short_write,
}
use sem.FileServer.Shutdown.{run_server_closes}

-- A kernel that grants everything, with new descriptors each time, and has nothing to read.
abbrev quiet : Os
quiet = record {
  opens = λ n path. some (n + 10);
  epoll_adds = λ n. true;
  writes = λ n. true;
  reads = λ n. again;
  exists = λ n path. true;
  allocates = λ n. true;
  spawns = λ n. true;
}

abbrev a_tx : Bytes
a_tx = codes "a_tx"

abbrev a_rx : Bytes
a_rx = codes "a_rx"

-- Two clients register; the second asks for a file, then the first does.
abbrev turns : List Turn
turns =
    (record {
      wait = ready (
          (record { tag = 0; given = bytes (codes "REGISTER a b\nREGISTER c d\n") ∷ again ∷ [] })
          ∷ (record { tag = 1; given = bytes (codes "GET f.txt\n") ∷ again ∷ [] })
          ∷ (record { tag = 0; given = again ∷ [] })
          ∷ []);
      check = λ i. again;
    })
    ∷ []

tasks_of_turns :
    (serve quiet turns 0 fresh).tasks
    ≡ (record { client_fd = some 15; filename = codes "f.txt" }) ∷ []
unfolding serve handle_events handle_event process_registration_commands register_lines
    register_line scan_registration scan_word skip_space word_of register_new_client
    find_free_client_slot free_slot_from open_tx open_rx greet read_pending read_client process_read
    process_buffer process_lines process_client_command process_get start_transfer copy_command
    starts_with before cstr lines_from fresh
tasks_of_turns = refl

first : find_free_client_slot fresh ≡ some 0
unfolding fresh find_free_client_slot free_slot_from
first = refl

serve-IsSound_example : IsSound (serve quiet turns 0 fresh)
serve-IsSound_example = serve-IsSound quiet turns 0 fresh fresh-IsSound

run_server_closes_example : (run_server quiet turns).fds ≡ []
run_server_closes_example = (run_server_closes quiet turns).0

whole : WholeWrites (λ t. true) (λ t n. n)
whole = record { runs = λ t. refl; takes_all = λ t n. refl }

receive_file-send_file_to_client_example :
    receive_file
      (λ t n. t)
      (send_file_to_client (λ t. true) (λ t n. n) true (some (codes "hello")) ++ codes "SIZE")
    ≡ some (5, codes "SIZE")
receive_file-send_file_to_client_example =
    receive_file-send_file_to_client (λ t. true) (λ t n. n) (λ t n. t) (codes "hello")
      (codes "SIZE") whole (omega arith)

abbrev first_short : ℕ → ℕ → ℕ
first_short zero n = 7
first_short (suc t) n = n

later_whole : (t n : ℕ) → 1 ≤ t → first_short t n ≡ n
later_whole zero n h = elim h [ ]
later_whole (suc t) n h = refl

abbrev long_file : Bytes
long_file = replicate 5000 b'x'

send_file_to_client_short_write_example :
    send_file_to_client (λ t. true) first_short true (some long_file)
    ≡ size_header (length long_file) ++ (take 7 long_file ++ drop buffer_size long_file)
send_file_to_client_short_write_example =
    send_file_to_client_short_write (λ t. true) first_short long_file 7 (λ t. refl) (omega arith)
      (omega arith) (omega (arith, length-replicate {A = ℕ} 5000 b'x')) refl later_whole

abbrev entered_first : Server
entered_first = entered 0 10 11 a_tx a_rx fresh

process_buffer-send_get_command_example :
    (command : Bytes) × (send_get_command (codes "f") ≡ some command)
    × (process_buffer quiet 0 command entered_first
        ≡ start_transfer quiet 0 (codes "f") entered_first)
unfolding fresh is_space
process_buffer-send_get_command_example =
    process_buffer-send_get_command quiet 0 b'f' [] entered_first
      (record { no_space = refl; no_null = refl }, tt) (omega arith) refl

-- The client asks for one file, and its last open fails.
abbrev all_fine : Registering
all_fine = record {
  preopens = true;
  opens_server = true;
  sends = true;
  opens_tx = true;
  makes_epoll = true;
  adds = true;
  ready = event;
  ack = some (codes "ACK");
}

abbrev half_open : Starting
half_open = record {
  makes_tx = true;
  makes_rx = true;
  server_there = true;
  registering = all_fine;
  opens_tx = true;
  opens_rx = false;
  unlinks = is_tx;
}

client_main-left_example :
    let (effects, code) =
      client_main 5 half_open
        (record { filename = codes "f"; stopped = false; sends = true } ∷ []) in
    (is_there rx_fifo effects false ≡ (is_made rx_fifo effects && not (half_open.unlinks rx_fifo)))
    × (is_open tx_fd effects false ≡ false)
client_main-left_example =
    client_main-left rx_fifo tx_fd 5 half_open
      (record { filename = codes "f"; stopped = false; sends = true } ∷ []) refl
