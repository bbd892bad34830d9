-- ===== src/Monitor/Tests.antt =====
-- The watch of a directory on concrete events.

use sem.Base.{◌≡◌, refl, Bool, true, false, some, [], ◌∷◌, arith}
use sem.Text.{Bytes, codes, equal, starts_with, cstr}
use sem.Monitor.Queue.{IsQueue, process_inotify_events-IsQueue, process_inotify_events-queued}
use sem.Monitor.Diffs.{fgets_from, put_lines, save_diff, clean_diff}
use sem.Monitor.Cleaning.{clean_diff_dashes, IsLine}
use sem.Monitor.State.{MonitorState, init_monitor_state}
use sem.Monitor.Watch.{
  folder, other, Tree, closed, opened, no_more, entry, add_inotify_watch_recursive, get_watch_path,
}
use sem.Monitor.Events.{
  InotifyEvent, events, is_queued, process_inotify_events, handle_events, handle_event, named_event,
  file_event, basename_from, strstr,
}

abbrev all_text : Bytes → Bool
all_text path = true

-- Below /d there is one directory, e, and a file.
abbrev below : Tree
below = opened (some 1) true (
    entry (codes ".") folder closed (
      entry (codes "e") folder (opened (some 2) true no_more)
        (entry (codes "f") other closed no_more)))

abbrev nowhere : Bytes → Tree
nowhere path = closed

abbrev watched_state : MonitorState
watched_state =
    record (add_inotify_watch_recursive (codes "/d") below (init_monitor_state 7 (codes "/d"))).0 {
      inotify_open = true;
    }

abbrev modified : Bytes → InotifyEvent
modified name = record {
  wd = 2;
  mask = record {
    is_dir = false;
    create = false;
    modify = true;
    close_write = false;
    moved_to = false;
    moved_from = false;
    delete = false;
  };
  has_name = true;
  name = name;
  stored = true;
}

modified_queue :
    (process_inotify_events all_text nowhere
      (events (
        modified (codes "a")
        ∷ modified (codes "debug.log")
        ∷ modified (codes "a")
        ∷ modified (codes "b_restored_2.c")
        ∷ []))
      watched_state).0.changed_files_queue
    ≡ codes "/d/e/a" ∷ []
unfolding process_inotify_events handle_events handle_event get_watch_path
    add_inotify_watch_recursive equal init_monitor_state named_event file_event basename_from strstr
    starts_with is_queued
modified_queue = refl

process_inotify_events-IsQueue_example :
    IsQueue
      (process_inotify_events all_text nowhere
        (events (modified (codes "a") ∷ modified (codes "a") ∷ []))
        watched_state).0
unfolding process_inotify_events handle_events handle_event get_watch_path
    add_inotify_watch_recursive equal init_monitor_state named_event file_event basename_from strstr
    starts_with is_queued
process_inotify_events-IsQueue_example =
    process_inotify_events-IsQueue all_text nowhere
      (events (modified (codes "a") ∷ modified (codes "a") ∷ [])) watched_state (tt, tt)

process_inotify_events-queued_example :
    let (t, fine) =
      process_inotify_events all_text nowhere
        (events (modified (codes "debug.log") ∷ modified (codes "a") ∷ []))
        watched_state in
    (is_queued (codes "/d/e/a") t.changed_files_queue ≡ true) × (fine ≡ true)
unfolding process_inotify_events handle_events handle_event get_watch_path
    add_inotify_watch_recursive equal init_monitor_state named_event file_event basename_from strstr
    starts_with is_queued
process_inotify_events-queued_example =
    process_inotify_events-queued all_text nowhere (modified (codes "debug.log") ∷ []) []
      (modified (codes "a")) (codes "/d/e") watched_state refl refl
      (record {
        named = refl;
        no_folder = refl;
        not_own = refl;
        is_text = refl;
        changes = refl;
        kept = refl;
      })

abbrev a_path : Bytes
a_path = codes "/d/a"

a_path-IsLine : IsLine a_path
a_path-IsLine = record { no_newline = (refl, (refl, (refl, (refl, tt)))); short = omega arith }

clean_diff_dashes_example :
    clean_diff (save_diff (codes "-a\n---\n+b\n") a_path a_path 17 1) ≡ codes "-a\n+b\n"
unfolding fgets_from cstr starts_with put_lines
clean_diff_dashes_example =
    clean_diff_dashes (codes "-a\n---\n+b\n") a_path a_path 17 1 (codes "-a\n" ∷ [])
      (codes "+b\n" ∷ []) refl (record { no_null = refl; no_comment = refl; no_rule = refl }, tt)
      (record { no_null = refl; no_comment = refl; no_rule = refl }, tt) a_path-IsLine a_path-IsLine
      (omega arith) (omega arith)
