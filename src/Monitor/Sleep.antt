-- ===== src/Monitor/Sleep.antt =====
-- How long the daemon of task_6/homework/src/daemon.c sleeps.
use sem.Monitor.Daemon.{Round, sleep_time, init_inotify, daemon_round, daemon_loop, run_daemon}
use sem.Monitor.Commands.Answers.{Outside}
use sem.Base.{ℕ, ◌≡◌, refl, ap, Bool, true, some, List, [], ◌∷◌, length, replicate}
use sem.Text.{Bytes}
use sem.Monitor.State.{MonitorState}
use sem.Monitor.Watch.{Tree}

module _ (is_text_file : Bytes → Bool) (tree : Bytes → Tree) (os : Outside)
    (create_full_backup create_incremental_backup : MonitorState → MonitorState) where
  daemon_loop-slept :
      (pause : ℕ × ℕ) (rounds : List Round) (s : MonitorState)
      → (daemon_loop is_text_file tree os create_full_backup create_incremental_backup pause rounds
          s).1
        ≡ replicate (length rounds) pause
  unfolding daemon_loop
  daemon_loop-slept pause [] s = refl
  daemon_loop-slept pause (r ∷ rounds) s =
      ap (λ ds. pause ∷ ds)
        (daemon_loop-slept pause rounds
          (daemon_round is_text_file tree os create_full_backup create_incremental_backup r s))

  -- A daemon that can open its FIFO and watch its directory sleeps after every round for the period
  -- that the state has behind the first backup, also where a command of a round has set another:
  -- the period that is reported as changed is never used.
  pub run_daemon-slept :
      (rounds : List Round) (s : MonitorState)
      → let watched =
          init_inotify is_text_file tree os create_full_backup create_incremental_backup true s in
        let pause = sleep_time (create_full_backup watched.0) in
        watched.1 ≡ true
        → (t : MonitorState) × run_daemon is_text_file tree os create_full_backup
              create_incremental_backup true true rounds s
            ≡ some (t, replicate (length rounds) pause)
  unfolding run_daemon
  run_daemon-slept rounds s fine =
      let watched =
        init_inotify is_text_file tree os create_full_backup create_incremental_backup true s in
      let ready = create_full_backup watched.0 in
      let end =
        daemon_loop is_text_file tree os create_full_backup create_incremental_backup
          (sleep_time ready) rounds ready in
      (
        end.0,
        rw (run_daemon, fine)
            (ap (λ d. some (end.0, d)) (daemon_loop-slept (sleep_time ready) rounds ready)),
      )
