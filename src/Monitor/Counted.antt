-- ===== src/Monitor/Counted.antt =====
-- How run_interactive of task_6/homework/src/daemon.c counts the samples, and what it says of them.
use sem.Monitor.Interactive.{
  Selected, timed_out, refused, elsewhere, at_end, line, Turn, Request, quit, take_sample, usage,
  unknown, obey, chomp, request, counts_as_failed, failure_message, auto_message, asked_message,
  interactive_sample, answer_request, after_select, interactive_turn, interactive_loop,
  run_interactive,
}
use sem.Monitor.Lines.{
  is_empty_line, is_end_line, is_sample_request, is_quit, typed, request-is_empty_line,
  request-is_end_line,
}
use sem.Monitor.Commands.{Command, max_cmd_len}
use sem.Monitor.Commands.Answers.{max_response_len, Outside, process_command}
use sem.Monitor.Commands.Config.{process_command-AreKept}
use sem.Monitor.Daemon.{init_inotify}
use sem.Monitor.Returned.{find_changed_files-queue}
use sem.Monitor.Disk.{Disk, Access}
use sem.Monitor.Changes.{Stat}
use sem.Monitor.Backups.{create_incremental_backup}
use sem.Monitor.Added.{add_inotify_watch_recursive-Adds}
use sem.Monitor.Queue.{handle_event-cases}
use sem.Base.{
  ℕ, suc, ◌+◌, ◌<◌, ◌≡◌, refl, sym, ap, ◌∙◌, Bool, true, false, Option, none, some, List, [], ◌∷◌,
  ◌++◌, ◌-◌, arith, if-both, if◌then◌else◌, not, ◌==◌, Bool-cases, inl, inr, take, length,
}
use sem.Text.{Bytes, cstr}
use sem.Monitor.State.{MonitorState}
use sem.Monitor.Watch.{Tree}
use sem.Monitor.Events.{
  is_queued, InotifyEvent, EventRead, events, nothing, handle_event, handle_events,
  process_inotify_events,
}
mod Tests

-- What a turn adds to the samples, and whether it ends the loop.
abbrev pub samples : Selected → ℕ
samples timed_out = 1
samples refused = 0
samples elsewhere = 0
samples at_end = 0
samples (line got) = if is_empty_line got then 1 else 0

abbrev pub ends : Selected → Bool
ends timed_out = false
ends refused = false
ends elsewhere = false
ends at_end = false
ends (line got) = is_end_line got

-- The timeouts and the empty lines before the first line that is quit or exit.
abbrev pub sample_turns : List Turn → ℕ
sample_turns [] = 0
sample_turns (r ∷ turns) =
    let later = sample_turns turns in samples r.selected + (if ends r.selected then 0 else later)

module _ (is_text_file : Bytes → Bool) (tree : Bytes → Tree) where
  handle_events-current_sample :
      (es : List InotifyEvent) (s : MonitorState)
      → (handle_events is_text_file tree es s).current_sample ≡ s.current_sample
  unfolding handle_events
  handle_events-current_sample [] s = refl
  handle_events-current_sample (e ∷ es) s =
      handle_events-current_sample es (handle_event is_text_file tree e s)
      ∙ handle_event-cases is_text_file tree (λ t. t.current_sample ≡ s.current_sample) e s refl
          (λ path t. (add_inotify_watch_recursive-Adds path t s).3)
          (λ path own.
            if-both (λ (t : MonitorState). t.current_sample ≡ s.current_sample)
              (is_queued path s.changed_files_queue) (λ _. refl)
              (λ _.
                if-both (λ (t : MonitorState). t.current_sample ≡ s.current_sample) e.stored
                  (λ _. refl) (λ _. refl)))

  process_inotify_events-current_sample :
      (r : EventRead) (s : MonitorState)
      → (process_inotify_events is_text_file tree r s).0.current_sample ≡ s.current_sample
  unfolding process_inotify_events
  process_inotify_events-current_sample (events es) s =
      if-both (λ (x : MonitorState × Bool). x.0.current_sample ≡ s.current_sample) s.inotify_open
        (λ _. handle_events-current_sample es s) (λ _. refl)
  process_inotify_events-current_sample nothing s = refl
  process_inotify_events-current_sample EventRead.refused s = refl

module _ (is_text_file : Bytes → Bool) (tree : Bytes → Tree) (os : Outside)
    (create_full_backup : MonitorState → MonitorState)
    (create_incremental_backup : MonitorState → MonitorState × Option ℕ)
    (keeps : (s : MonitorState)
      → (create_incremental_backup s).0.current_sample ≡ s.current_sample) where
  answer_request-current_sample :
      (r : Request) (input : Bytes) (s : MonitorState)
      → let (t, messages, more) =
          answer_request is_text_file tree os create_full_backup create_incremental_backup r input
            s in
        (t.current_sample ≡ s.current_sample + (if is_sample_request r then 1 else 0))
        × (more ≡ not (is_quit r))
  unfolding answer_request interactive_sample
  answer_request-current_sample quit input s = (omega arith, refl)
  answer_request-current_sample take_sample input s =
      (keeps (record s { current_sample = suc s.current_sample }) ∙ omega arith, refl)
  answer_request-current_sample usage input s = (omega arith, refl)
  answer_request-current_sample unknown input s = (omega arith, refl)
  answer_request-current_sample (obey cmd) input s =
      ((process_command-AreKept os max_response_len cmd s).2 ∙ omega arith, refl)

  after_select-current_sample :
      (garbage : Command) (sel : Selected) (s : MonitorState)
      → let (t, messages, more) =
          after_select is_text_file tree os create_full_backup create_incremental_backup garbage sel
            s in
        (t.current_sample ≡ s.current_sample + samples sel) × (more ≡ not (ends sel))
  unfolding after_select interactive_sample
  after_select-current_sample garbage timed_out s =
      (keeps (record s { current_sample = suc s.current_sample }) ∙ omega arith, refl)
  after_select-current_sample garbage refused s = (omega arith, refl)
  after_select-current_sample garbage elsewhere s = (omega arith, refl)
  after_select-current_sample garbage at_end s = (omega arith, refl)
  after_select-current_sample garbage (line got) s =
      let (counted, more) =
        answer_request-current_sample (request garbage (typed got)) (typed got) s in
      (
        counted
            ∙ ap (λ b. s.current_sample + (if b then 1 else 0)) (request-is_empty_line garbage got),
        more ∙ ap not (request-is_end_line garbage got),
      )

  interactive_loop-current_sample :
      (turns : List Turn) (s : MonitorState)
      → (interactive_loop is_text_file tree os create_full_backup create_incremental_backup turns
          s).0.current_sample
        ≡ s.current_sample + sample_turns turns
  unfolding interactive_loop interactive_turn
  interactive_loop-current_sample [] s = omega arith
  interactive_loop-current_sample (r ∷ turns) s =
      let heard = (process_inotify_events is_text_file tree r.events_read s).0 in
      let same = process_inotify_events-current_sample is_text_file tree r.events_read s in
      let (counted, more) = after_select-current_sample r.garbage r.selected heard in
      let once = counted ∙ ap (λ n. n + samples r.selected) same in
      elim (Bool-cases (ends r.selected)) [
        | inl e ↦ rw (more, e) (once ∙ omega arith)
        | inr e ↦
            rw (more, e)
              (interactive_loop-current_sample turns
                  (interactive_turn is_text_file tree os create_full_backup
                    create_incremental_backup r s).0
                ∙ ap (λ n. n + sample_turns turns) once
                ∙ omega arith)
      ]

  -- If the directory can be watched and the backups leave the counter as it is, the number of the
  -- last sample is the one that the first backup left plus the number of timeouts and empty lines
  -- before the first line that is quit or exit: no other line and no file event counts. A line is
  -- what fgets may put into its 256 bytes, up to a null byte and without a newline at its end.
  pub run_interactive-current_sample :
      (turns : List Turn) (s : MonitorState)
      → let watched =
          init_inotify is_text_file tree os create_full_backup
            (λ t. (create_incremental_backup t).0)
            true
            s in
        watched.1 ≡ true
        → (t : MonitorState) × (messages : List Bytes) × (run_interactive is_text_file tree os
              create_full_backup create_incremental_backup true turns s
            ≡ some (t, messages))
          × (t.current_sample ≡ (create_full_backup watched.0).current_sample + sample_turns turns)
  unfolding run_interactive
  run_interactive-current_sample turns s fine =
      let watched =
        init_inotify is_text_file tree os create_full_backup (λ t. (create_incremental_backup t).0)
          true s in
      let end =
        interactive_loop is_text_file tree os create_full_backup create_incremental_backup turns
          (create_full_backup watched.0) in
      (
        end.0,
        end.1,
        rw (run_interactive, fine) refl,
        interactive_loop-current_sample turns (create_full_backup watched.0),
      )

-- A sample that finds changed files and saves them is reported as failed: if BACKUP_DIR is there and
-- the watch has queued a file, then both kinds of sample print the message of a failure behind
-- their own, since what create_incremental_backup returns is the number of files.
pub interactive_sample-create_incremental_backup :
    (is_text_file : Bytes → Bool) (tree : Bytes → Tree) (os : Outside)
    (create_full_backup : MonitorState → MonitorState) (access : Access)
    (popen : Bytes → Disk → Option Bytes) (stat : Bytes → Option Stat) (now : ℕ)
    (current : List Bytes) (message : ℕ → Bytes) (first : Bytes) (later : List Bytes) (d : Disk)
    (s : MonitorState)
    → s.inotify_open ≡ true
    → s.changed_files_queue ≡ first ∷ later
    → (interactive_sample is_text_file tree os create_full_backup
        (λ t.
          let (u, e, count) = create_incremental_backup true access popen stat now current t d in
          (u, count))
        message
        s).1
      ≡ message (suc s.current_sample) ∷ failure_message ∷ []
unfolding interactive_sample create_incremental_backup
interactive_sample-create_incremental_backup is_text_file tree os create_full_backup access popen
      stat now current message first later d s live queued =
    let n = suc s.current_sample in
    let some_files : not (length (first ∷ later) == 0) ≡ true = ground arith in
    rw
      (find_changed_files-queue stat current (record s { current_sample = n }) [] first later live
        queued)
      (ap (λ b. message n ∷ (if b then failure_message ∷ [] else [])) some_files)
