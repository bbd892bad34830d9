-- ===== src/FileServer/Steps.antt =====
-- The handlers of task_7/homework/src/server against the table and the open descriptors.
use sem.Base.{
  ℕ, suc, ◌<◌, ◌≡◌, refl, ◌∙◌, inr, Bool, Option, none, some, List, [], ◌∷◌, arith, if-both,
  length-set, ◌+◌, ap, inl, true, Option-cases, length, take, zero, ◌-◌, ◌%◌, ◌==◌, ==_refl,
}
use sem.Text.{Bytes, starts_with, split_lines, cstr}
use sem.FileServer.Table.{
  Server, Read, bytes, eof, again, gone, failed, Os, max_clients, vacant, client, is_live,
  ClientInfo, find_free_client_slot, close_in,
}
use sem.FileServer.Commands.{
  cmd_get, cmd_disconnect, copy_command, start_transfer, process_get, process_client_command,
  process_lines, process_buffer, if_any,
}
use sem.FileServer.Registration.{
  entered, read_pending, greet, open_rx, open_tx, register_new_client, scan_registration,
  register_line, register_lines, process_registration_commands,
}
use sem.FileServer.EventLoop.{
  Event, Wait, ready, interrupted, broken, Turn, buffer_room, read_client, process_read,
  handle_event, handle_events, check_read, check_clients, serve,
}
use sem.FileServer.Invariant.{
  IsSound, IsSound-same, set-SlotsAreSound, close_client_connection-IsSound, client_holds,
  table_holds-set, find_free_client_slot_lem,
}

module _ (os : Os) where
  start_transfer-IsSound :
      (i : ℕ) (f : Bytes) (s : Server) → IsSound s → IsSound (start_transfer os i f s)
  unfolding start_transfer
  start_transfer-IsSound i f s v =
      if-both IsSound (os.exists s.clock f)
        (λ _.
          if-both IsSound (os.allocates (suc s.clock))
            (λ _.
              if-both IsSound (os.spawns (suc (suc s.clock))) (λ _. IsSound-same v)
                (λ _. IsSound-same v))
            (λ _. IsSound-same v))
        (λ _. IsSound-same v)

  process_client_command-IsSound :
      (i : ℕ) (c : Bytes) (s : Server) → IsSound s → IsSound (process_client_command os i c s)
  unfolding process_client_command process_get
  process_client_command-IsSound i c s v =
      if-both IsSound (is_live s i)
        (λ live.
          if-both IsSound (starts_with cmd_disconnect (copy_command c))
            (λ _. close_client_connection-IsSound i s v)
            (λ _. if-both IsSound (starts_with cmd_get (copy_command c)) (λ _. get _) (λ _. v)))
        (λ _. v)
    where
      get : (o : Option (Bytes × Bytes)) → IsSound (process_get os i o s)
      get none = v
      get (some (f, rest)) = start_transfer-IsSound i f s v

  process_lines-IsSound :
      (i : ℕ) (ls : List Bytes) (s : Server) → IsSound s → IsSound (process_lines os i ls s)
  unfolding process_lines
  process_lines-IsSound i [] s v = v
  process_lines-IsSound i ([] ∷ ls) s v = process_lines-IsSound i ls s v
  process_lines-IsSound i ((c ∷ l) ∷ ls) s v =
      process_lines-IsSound i ls _ (process_client_command-IsSound i (c ∷ l) s v)

  if_any-IsSound : (i : ℕ) (l : Bytes) (s : Server) → IsSound s → IsSound (if_any os i l s)
  if_any-IsSound i [] s v = v
  if_any-IsSound i (c ∷ l) s v = process_client_command-IsSound i (c ∷ l) s v

  pub process_buffer-IsSound :
      (i : ℕ) (b : Bytes) (s : Server) → IsSound s → IsSound (process_buffer os i b s)
  unfolding process_buffer
  process_buffer-IsSound i b s v =
      if_any-IsSound i (split_lines (cstr b)).1 _
        (process_lines-IsSound i (split_lines (cstr b)).0 s v)

  greet-IsSound : (i rx : ℕ) (s : Server) → IsSound s → IsSound (greet os i rx s).0
  unfolding greet read_pending
  greet-IsSound i rx s v =
      if-both (λ (r : Server × Bool). IsSound r.0) (os.epoll_adds s.clock)
        (λ _.
          if-both (λ (r : Server × Bool). IsSound r.0) (os.writes (suc s.clock))
            (λ _. pending (os.reads _) _ (IsSound-same v))
            (λ _. close_client_connection-IsSound i _ (IsSound-same v)))
        (λ _. close_client_connection-IsSound i _ (IsSound-same v))
    where
      pending : (r : Read) (q : Server) → IsSound q → IsSound (read_pending os i r q)
      pending (bytes b) q w = process_buffer-IsSound i b q w
      pending eof q w = w
      pending again q w = w
      pending gone q w = w
      pending failed q w = w

  -- The entry that a registration fills was vacant.
  entered-IsSound :
      (i tx rx : ℕ) (t r : Bytes) (s : Server)
      → IsSound s
      → i < max_clients
      → client s i ≡ vacant
      → IsSound
          (entered i tx rx t r (record s { fds = rx ∷ tx ∷ s.fds; clock = suc (suc s.clock) }))
  entered-IsSound i tx rx t r s v h e = record {
    entries = length-set s.clients i _ ∙ v.entries;
    slots = set-SlotsAreSound 0 s.clients i _ v.slots (inr (tx, rx, refl, sym_zero, refl, refl));
    balance = λ x.
        let within : i < length s.clients = omega (arith, v.entries) in
        let free : client_holds x (client s i) ≡ 0 = rw e in
        omega (arith, v.balance x, free, table_holds-set x s.clients i filled within);
  }
    where
      filled : ClientInfo
      filled = record {
        client_id = some i;
        tx_fd = some tx;
        rx_fd = some rx;
        tx_path = take 255 t;
        rx_path = take 255 r;
        is_active = true;
      }

      sym_zero : some i ≡ some (0 + i)
      sym_zero = ap some (omega arith)

  open_rx-IsSound :
      (i tx : ℕ) (o : Option ℕ) (t r : Bytes) (s : Server)
      → IsSound s
      → i < max_clients
      → client s i ≡ vacant
      → IsSound (open_rx os i tx o t r (record s { fds = tx ∷ s.fds; clock = suc (suc s.clock) })).0
  unfolding open_rx close_in
  open_rx-IsSound i tx none t r s v h e =
      rw (==_refl tx) (record { entries = v.entries; slots = v.slots; balance = v.balance })
  open_rx-IsSound i tx (some rx) t r s v h e =
      greet-IsSound i rx _ (entered-IsSound i tx rx t r s v h e)

  open_tx-IsSound :
      (i : ℕ) (o : Option ℕ) (t r : Bytes) (s : Server)
      → IsSound s
      → i < max_clients
      → client s i ≡ vacant
      → IsSound (open_tx os i o t r (record s { clock = suc s.clock })).0
  unfolding open_tx
  open_tx-IsSound i none t r s v h e = IsSound-same v
  open_tx-IsSound i (some tx) t r s v h e = open_rx-IsSound i tx _ t r s v h e

  -- A registration keeps the table and the descriptors in step, whether it succeeds or fails.
  pub register_new_client-IsSound :
      (t r : Bytes) (s : Server) → IsSound s → IsSound (register_new_client os t r s).0
  unfolding register_new_client
  register_new_client-IsSound t r s v = elim (Option-cases (find_free_client_slot s)) [
    | inl e ↦ rw (e, register_new_client) v
    | inr (i, e) ↦
        let (within, free) = find_free_client_slot_lem s i v e in
        rw (e, register_new_client) (open_tx-IsSound i _ t r s v within free)
  ]

  register_lines-IsSound :
      (ls : List Bytes) (s : Server) → IsSound s → IsSound (register_lines os ls s)
  unfolding register_lines register_line
  register_lines-IsSound [] s v = v
  register_lines-IsSound (l ∷ ls) s v =
      register_lines-IsSound ls _ (line (scan_registration os l) refl)
    where
      line :
          (o : Option (Bytes × Bytes)) → scan_registration os l ≡ o → IsSound (register_line os l s)
      line none e = rw (e, register_line) v
      line (some (t, r)) e = rw (e, register_line) (register_new_client-IsSound t r s v)

  process_registration_commands-IsSound :
      (rs : List Read) (s : Server) → IsSound s → IsSound (process_registration_commands os rs s)
  unfolding process_registration_commands
  process_registration_commands-IsSound [] s v = v
  process_registration_commands-IsSound (bytes [] ∷ rs) s v = v
  process_registration_commands-IsSound (bytes (c ∷ b) ∷ rs) s v =
      process_registration_commands-IsSound rs _ (register_lines-IsSound _ s v)
  process_registration_commands-IsSound (eof ∷ rs) s v = v
  process_registration_commands-IsSound (again ∷ rs) s v = v
  process_registration_commands-IsSound (gone ∷ rs) s v = v
  process_registration_commands-IsSound (failed ∷ rs) s v = v

  read_client-IsSound :
      (i room : ℕ) (b : Bytes) (rs : List Read) (s : Server)
      → IsSound s
      → IsSound (read_client os i room b rs s).1
  unfolding read_client
  read_client-IsSound i zero b rs s v = v
  read_client-IsSound i (suc room) b [] s v = v
  read_client-IsSound i (suc room) b (bytes [] ∷ rs) s v = close_client_connection-IsSound i s v
  read_client-IsSound i (suc room) b (bytes (c ∷ x) ∷ rs) s v =
      read_client-IsSound i (suc room - length (take (suc room) (c ∷ x))) _ rs s v
  read_client-IsSound i (suc room) b (eof ∷ rs) s v = close_client_connection-IsSound i s v
  read_client-IsSound i (suc room) b (gone ∷ rs) s v = close_client_connection-IsSound i s v
  read_client-IsSound i (suc room) b (again ∷ rs) s v = v
  read_client-IsSound i (suc room) b (failed ∷ rs) s v = v

  process_read-IsSound : (i : ℕ) (r : Bytes × Server) → IsSound r.1 → IsSound (process_read os i r)
  unfolding process_read
  process_read-IsSound i ([], s) v = v
  process_read-IsSound i (c ∷ b, s) v = process_buffer-IsSound i (c ∷ b) s v

  pub handle_event-IsSound : (e : Event) (s : Server) → IsSound s → IsSound (handle_event os e s)
  unfolding handle_event
  handle_event-IsSound e s v =
      if-both IsSound (e.tag == 0) (λ _. process_registration_commands-IsSound e.given s v)
        λ _.
          if-both IsSound (is_live s e.tag)
            (λ _.
              process_read-IsSound e.tag _ (read_client-IsSound e.tag buffer_room [] e.given s v))
            (λ _. v)

  handle_events-IsSound :
      (es : List Event) (s : Server) → IsSound s → IsSound (handle_events os es s)
  unfolding handle_events
  handle_events-IsSound [] s v = v
  handle_events-IsSound (e ∷ es) s v = handle_events-IsSound es _ (handle_event-IsSound e s v)

  check_read-IsSound : (i : ℕ) (r : Read) (s : Server) → IsSound s → IsSound (check_read os i r s)
  unfolding check_read
  check_read-IsSound i (bytes []) s v = close_client_connection-IsSound i s v
  check_read-IsSound i (bytes (c ∷ b)) s v = process_buffer-IsSound i (c ∷ b) s v
  check_read-IsSound i eof s v = close_client_connection-IsSound i s v
  check_read-IsSound i again s v = v
  check_read-IsSound i gone s v = v
  check_read-IsSound i failed s v = v

  check_clients-IsSound :
      (n i : ℕ) (f : ℕ → Read) (s : Server) → IsSound s → IsSound (check_clients os n i f s)
  unfolding check_clients
  check_clients-IsSound zero i f s v = v
  check_clients-IsSound (suc n) i f s v =
      check_clients-IsSound n (suc i) f _
        (if-both IsSound (client s i).is_active (λ _. check_read-IsSound i (f i) s v) (λ _. v))

  -- From a sound server, whatever the turns of the loop bring and the kernel answers, the server
  -- after the loop is sound: the table has 64 entries, each vacant or active under its own number
  -- with two descriptors, and a descriptor is open exactly as often as entries of the table hold
  -- it.
  pub serve-IsSound : (ts : List Turn) (n : ℕ) (s : Server) → IsSound s → IsSound (serve os ts n s)
  unfolding serve
  serve-IsSound [] n s v = v
  serve-IsSound (t ∷ ts) n s v = turn (λ k q w. serve-IsSound ts k q w) t.wait refl
    where
      turn :
          ((k : ℕ) (q : Server) → IsSound q → IsSound (serve os ts k q))
          → (w : Wait) → t.wait ≡ w
          → IsSound (serve os (t ∷ ts) n s)
      turn ih broken e = rw (e, serve) v
      turn ih interrupted e = rw (e, serve) (ih n s v)
      turn ih (ready es) e =
          rw (e, serve)
            (ih (suc n) _ (
              if-both IsSound (suc n % 5 == 0)
                (λ _. check_clients-IsSound max_clients 0 t.check _ (handle_events-IsSound es s v))
                (λ _. handle_events-IsSound es s v)))
