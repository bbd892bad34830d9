-- ===== src/Monitor/Interactive.antt =====
-- run_interactive of task_6/homework/src/daemon.c: events, samples and typed commands. Messages are
-- the texts that are printed behind the list of commands.
use sem.Monitor.Commands.{
  cmd_show_diff, cmd_show_k_diffs, cmd_set_pid, cmd_set_period, cmd_status, cmd_restore, Command,
  max_cmd_len, with_arg, scan_int,
}
use sem.Monitor.Commands.Answers.{max_response_len, Outside, process_command}
use sem.Monitor.Daemon.{init_inotify}
use sem.Base.{
  ℕ, suc, Bool, true, false, not, ◌||◌, Option, none, some, List, [], ◌∷◌, ◌++◌, ◌==◌, ◌-◌,
  if◌then◌else◌, take, drop,
}
use sem.Text.{Bytes, codes, equal, starts_with, cstr, scan_word}
use sem.Numbers.{decimal}
use sem.Monitor.State.{MonitorState}
use sem.Monitor.Watch.{Tree}
use sem.Monitor.Events.{EventRead, process_inotify_events}

-- What select() and fgets() give: a timeout, an error, a descriptor other than the standard input, the
-- end of the input, or a line.
pub data Selected : Type 0 where
  timed_out refused elsewhere at_end : Selected
  line : Bytes → Selected

-- What a turn of the loop meets, and what an uninitialised command holds.
pub record Turn : Type 0 where
  pub events_read : EventRead
  pub selected : Selected
  pub garbage : Command

-- What a line asks for.
pub data Request : Type 0 where
  quit take_sample usage unknown : Request
  obey : Command → Request

-- if (len > 0 && input[len - 1] == '\n') input[len - 1] = '\0'
unfoldable pub chomp : Bytes → Bytes
chomp [] = []
chomp (c ∷ []) = if c == 10 then [] else c ∷ []
chomp (c ∷ d ∷ s) = c ∷ chomp (d ∷ s)

-- sscanf(input, "restore %s %d", filename, &sample), with what stands behind the word
unfoldable pub restore_request : Command → Bytes → Request
restore_request garbage rest = elim (scan_word (max_cmd_len - 1) rest) [
  | none ↦ usage
  | some (name, behind) ↦ elim (scan_int behind) [
    | none ↦ usage
    | some n ↦ obey (record { kind = cmd_restore; arg = n; filename = take 4095 name })
  ]
]

unfoldable pub request : Command → Bytes → Request
request garbage input =
    if equal input (codes "quit") || equal input (codes "exit")
    then quit
    else (if starts_with (codes "show_diff") input
        then obey (record garbage { kind = cmd_show_diff })
        else (if starts_with (codes "show_k_diffs") input
            then obey (with_arg cmd_show_k_diffs garbage (drop 12 input))
            else (if starts_with (codes "set_pid") input
                then obey (with_arg cmd_set_pid garbage (drop 7 input))
                else (if starts_with (codes "set_period") input
                    then obey (with_arg cmd_set_period garbage (drop 10 input))
                    else (if equal input (codes "status")
                        then obey (record garbage { kind = cmd_status })
                        else (if equal input []
                            then take_sample
                            else (if starts_with (codes "restore") input
                                then restore_request garbage (drop 7 input)
                                else unknown)))))))

-- create_incremental_backup(state) != 0, with none for -1
abbrev pub counts_as_failed : Option ℕ → Bool
counts_as_failed none = true
counts_as_failed (some n) = not (n == 0)

abbrev pub failure_message : Bytes
failure_message = codes "Failed to create incremental backup\n"

abbrev pub auto_message : ℕ → Bytes
auto_message n = codes "Sample #" ++ (decimal n ++ codes " (auto)\n")

abbrev pub asked_message : ℕ → Bytes
asked_message n = codes "Taking sample #" ++ (decimal n ++ codes "...\n")

-- The two backups are not part of this file: what they make of the state, and what the second one
-- returns, is given.
module _ (is_text_file : Bytes → Bool) (tree : Bytes → Tree) (os : Outside)
    (create_full_backup : MonitorState → MonitorState)
    (create_incremental_backup : MonitorState → MonitorState × Option ℕ) where
  unfoldable pub interactive_sample : (ℕ → Bytes) → MonitorState → MonitorState × List Bytes
  interactive_sample message s =
      let n = suc s.current_sample in
      let (t, count) = create_incremental_backup (record s { current_sample = n }) in
      (t, message n ∷ (if counts_as_failed count then failure_message ∷ [] else []))

  -- What a line does; the Boolean says that the loop goes on.
  unfoldable pub answer_request : Request → Bytes → MonitorState → MonitorState × List Bytes × Bool
  answer_request quit input s = (s, [], false)
  answer_request take_sample input s =
      let (t, messages) = interactive_sample asked_message s in (t, messages, true)
  answer_request usage input s = (s, codes "Usage: restore <filename> <sample_number>\n" ∷ [], true)
  answer_request unknown input s =
      (s, (codes "Unknown command: " ++ (input ++ codes "\n")) ∷ [], true)
  answer_request (obey cmd) input s =
      let (t, response) = process_command os max_response_len cmd s in (t, response ∷ [], true)

  unfoldable pub after_select : Command → Selected → MonitorState → MonitorState × List Bytes × Bool
  after_select garbage timed_out s =
      let (t, messages) = interactive_sample auto_message s in (t, messages, true)
  after_select garbage refused s = (s, [], true)
  after_select garbage elsewhere s = (s, [], true)
  after_select garbage at_end s = (s, [], true)
  after_select garbage (line got) s =
      let input = chomp (cstr (take (max_cmd_len - 1) got)) in
      answer_request (request garbage input) input s

  -- The body of the loop.
  unfoldable pub interactive_turn : Turn → MonitorState → MonitorState × List Bytes × Bool
  interactive_turn r s =
      after_select r.garbage r.selected (process_inotify_events is_text_file tree r.events_read s).0

  -- The loop, until quit or a signal ends it.
  unfoldable pub interactive_loop : List Turn → MonitorState → MonitorState × List Bytes
  interactive_loop [] s = (s, [])
  interactive_loop (r ∷ turns) s =
      let (t, messages, more) = interactive_turn r s in
      let (u, later) = interactive_loop turns t in
      if more then (u, messages ++ later) else (t, messages)

  -- none where the C code returns -1
  unfoldable pub run_interactive :
      Bool → List Turn → MonitorState → Option (MonitorState × List Bytes)
  run_interactive inotify_opens turns s =
      let (watched, fine) =
        init_inotify is_text_file tree os create_full_backup (λ t. (create_incremental_backup t).0)
          inotify_opens s in
      let end = interactive_loop turns (create_full_backup watched) in
      if fine then some end else none
