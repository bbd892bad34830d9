-- ===== src/Monitor/Daemon.antt =====
-- run_daemon of task_6/homework/src/daemon.c: events, commands, samples and sleep.
use sem.Monitor.Commands.{ℤ, pos, negsuc, Command, FifoRead, read_command}
use sem.Monitor.Commands.Answers.{max_response_len, Outside, process_command}
use sem.Base.{
  ℕ, suc, ◌*◌, ◌/◌, ◌%◌, Bool, true, false, not, ◌||◌, Option, none, some, List, [], ◌∷◌, ltb,
  if◌then◌else◌, not,
}
use sem.Text.{Bytes}
use sem.Monitor.State.{MonitorState}
use sem.Monitor.Watch.{Tree, add_inotify_watch_recursive}
use sem.Monitor.Events.{EventRead, process_inotify_events}

-- What one round meets: the events, the FIFO, and what an uninitialised command holds.
pub record Round : Type 0 where
  pub events_read : EventRead
  pub fifo_read : FifoRead
  pub garbage : Command

-- Seconds and nanoseconds.
abbrev pub sleep_time : MonitorState → ℕ × ℕ
sleep_time s = (s.sample_period_ms / 1000, (s.sample_period_ms % 1000) * 1000000)

abbrev pub is_positive : ℤ → Bool
is_positive (pos n) = ltb 0 n
is_positive (negsuc n) = false

abbrev is_nothing : List Bytes → Bool
is_nothing [] = true
is_nothing (f ∷ fs) = false

-- The two backups are not part of this file: what they make of the state is given.
module _ (is_text_file : Bytes → Bool) (tree : Bytes → Tree) (os : Outside)
    (create_full_backup create_incremental_backup : MonitorState → MonitorState) where
  -- The Boolean says that the C code returns 0; `opens` is what inotify_init1 does.
  unfoldable pub init_inotify : Bool → MonitorState → MonitorState × Bool
  init_inotify opens s =
      if opens
      then (let (t, added) =
            add_inotify_watch_recursive s.monitored_dir (tree s.monitored_dir)
              (record s { inotify_open = true }) in
          if added then (t, true) else (record t { inotify_open = false }, false))
      else (record s { inotify_open = false }, false)

  -- The command of a round.
  unfoldable pub obey : Round → MonitorState → MonitorState
  obey r s =
      let (n, cmd) = read_command true r.fifo_read r.garbage in
      if is_positive n then (process_command os max_response_len cmd s).0 else s

  -- A sample is made if something has changed, or nothing has been saved yet.
  unfoldable pub sample : MonitorState → MonitorState
  sample s =
      if not (is_nothing s.changed_files_queue) || not s.first_backup_done
      then create_incremental_backup (record s { current_sample = suc s.current_sample })
      else s

  unfoldable pub daemon_round : Round → MonitorState → MonitorState
  daemon_round r s = sample (obey r (process_inotify_events is_text_file tree r.events_read s).0)

  -- The loop, until a signal ends it: the state, and what was slept.
  unfoldable pub daemon_loop : ℕ × ℕ → List Round → MonitorState → MonitorState × List (ℕ × ℕ)
  daemon_loop pause [] s = (s, [])
  daemon_loop pause (r ∷ rounds) s =
      let (t, slept) = daemon_loop pause rounds (daemon_round r s) in (t, pause ∷ slept)

  -- none where the C code returns -1
  unfoldable pub run_daemon :
      Bool → Bool → List Round → MonitorState → Option (MonitorState × List (ℕ × ℕ))
  run_daemon ipc_opens inotify_opens rounds s =
      if ipc_opens
      then (let (watched, fine) = init_inotify inotify_opens s in
          let ready = create_full_backup watched in
          if fine then some (daemon_loop (sleep_time ready) rounds ready) else none)
      else none
