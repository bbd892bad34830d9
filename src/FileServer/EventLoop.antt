-- ===== src/FileServer/EventLoop.antt =====
-- task_7/homework/src/server/main_server.c: the loop over epoll, the check of every client in each
-- fifth round, and the end of the server. What the descriptors give to read is part of an event.
use sem.Base.{ℕ, zero, suc, ◌-◌, ◌%◌, false, List, [], ◌∷◌, ◌++◌, ◌==◌, if◌then◌else◌, length, take}
use sem.Text.{Bytes}
use sem.FileServer.Table.{
  Server, Read, bytes, eof, again, gone, failed, Os, max_clients, fresh, client, is_live,
  close_client_connection,
}
use sem.FileServer.Commands.{process_buffer}
use sem.FileServer.Registration.{process_registration_commands}

-- `tag` is `data.u32` of the event, and `given` what the reads of its descriptor give.
pub record Event : Type 0 where
  pub tag : ℕ
  pub given : List Read

-- One return of epoll_wait: events, EINTR, or another error, which ends the loop.
pub data Wait : Type 0 where
  ready : List Event → Wait
  interrupted broken : Wait

-- A turn of the loop; `check i` is what client `i` has to read in the periodic check.
pub record Turn : Type 0 where
  pub wait : Wait
  pub check : ℕ → Read

abbrev pub buffer_room : ℕ
buffer_room = 1023

module _ (os : Os) where
  -- The reads of one client into a buffer with `room` bytes left: what was read, and the server.
  unfoldable pub read_client : ℕ → ℕ → Bytes → List Read → Server → Bytes × Server
  read_client i zero buffer rs s = (buffer, s)
  read_client i (suc room) buffer (bytes (c ∷ b) ∷ rs) s =
      let got = take (suc room) (c ∷ b) in
      read_client i (suc room - length got) (buffer ++ got) rs s
  read_client i (suc room) buffer (bytes [] ∷ rs) s = (buffer, close_client_connection i s)
  read_client i (suc room) buffer (eof ∷ rs) s = (buffer, close_client_connection i s)
  read_client i (suc room) buffer (gone ∷ rs) s = (buffer, close_client_connection i s)
  read_client i (suc room) buffer (again ∷ rs) s = (buffer, s)
  read_client i (suc room) buffer (failed ∷ rs) s = (buffer, s)
  read_client i (suc room) buffer [] s = (buffer, s)

  unfoldable pub process_read : ℕ → Bytes × Server → Server
  process_read i ([], s) = s
  process_read i (c ∷ b, s) = process_buffer os i (c ∷ b) s

  unfoldable pub handle_event : Event → Server → Server
  handle_event e s =
      if e.tag == 0
      then process_registration_commands os e.given s
      else if is_live s e.tag
      then process_read e.tag (read_client e.tag buffer_room [] e.given s)
      else s

  unfoldable pub handle_events : List Event → Server → Server
  handle_events [] s = s
  handle_events (e ∷ es) s = handle_events es (handle_event e s)

  unfoldable pub check_read : ℕ → Read → Server → Server
  check_read i (bytes (c ∷ b)) s = process_buffer os i (c ∷ b) s
  check_read i (bytes []) s = close_client_connection i s
  check_read i eof s = close_client_connection i s
  check_read i _ s = s

  -- The periodic check of the `n` clients from `i` on.
  unfoldable pub check_clients : ℕ → ℕ → (ℕ → Read) → Server → Server
  check_clients zero i check s = s
  check_clients (suc n) i check s =
      check_clients n (suc i) check (if (client s i).is_active then check_read i (check i) s else s)

  -- The loop, with the value of `counter`.
  unfoldable pub serve : List Turn → ℕ → Server → Server
  serve [] counter s = s
  serve (t ∷ ts) counter s = elim t.wait [
    | broken ↦ s
    | interrupted ↦ serve ts counter s
    | ready es ↦
        let handled = handle_events es s in
        serve ts (suc counter)
          (if suc counter % 5 == 0 then check_clients max_clients 0 t.check handled else handled)
  ]

-- Close the `n` clients from `i` on that are active.
unfoldable pub close_all : ℕ → ℕ → Server → Server
close_all zero i s = s
close_all (suc n) i s =
    close_all n (suc i) (if (client s i).is_active then close_client_connection i s else s)

unfoldable pub shut_down : Server → Server
shut_down s = record (close_all max_clients 0 s) { epoll_open = false }

unfoldable pub run_server : Os → List Turn → Server
run_server os ts = shut_down (serve os ts 0 fresh)
