-- ===== src/Monitor/Events.antt =====
-- task_6/homework/src/daemon.c: process_inotify_events. The buffer is the list of its events; realloc
-- is taken to give memory.
use sem.Base.{
  ℕ, Bool, List, if◌then◌else◌, ◌||◌, true, false, ◌&&◌, none, some, [], ◌∷◌, ◌++◌, ◌==◌,
}
use sem.Text.{Bytes, codes, equal, starts_with}
use sem.Monitor.State.{MonitorState}
use sem.Monitor.Watch.{Tree, get_watch_path, join, add_inotify_watch_recursive}

-- The bits of an event's mask that the code tests.
pub record Mask : Type 0 where
  pub is_dir : Bool
  pub create : Bool
  pub modify : Bool
  pub close_write : Bool
  pub moved_to : Bool
  pub moved_from : Bool
  pub delete : Bool

-- `has_name` says that `len` is not 0, and `stored` that strdup gives memory, where it is called.
pub record InotifyEvent : Type 0 where
  pub wd : ℕ
  pub mask : Mask
  pub has_name : Bool
  pub name : Bytes
  pub stored : Bool

-- What read() gives: bytes, EAGAIN, or another error.
pub data EventRead : Type 0 where
  events : List InotifyEvent → EventRead
  nothing refused : EventRead

-- What stands behind the last slash, or the whole path.
unfoldable pub basename_from : Bytes → Bytes → Bytes
basename_from last [] = last
basename_from last (c ∷ s) = if c == b'/' then basename_from s s else basename_from last s

abbrev pub basename : Bytes → Bytes
basename path = basename_from path path

unfoldable pub strstr : Bytes → Bytes → Bool
strstr needle [] = starts_with needle []
strstr needle (c ∷ s) = starts_with needle (c ∷ s) || strstr needle s

-- A file is passed over if it is the daemon's log or was restored by it.
abbrev pub is_own : Bytes → Bool
is_own path =
    equal (basename path) (codes "debug.log") || strstr (codes "_restored_") (basename path)

unfoldable pub is_queued : Bytes → List Bytes → Bool
is_queued path [] = false
is_queued path (q ∷ qs) = equal q path || is_queued path qs

abbrev pub enqueue : Bool → Bytes → MonitorState → MonitorState
enqueue stored path s =
    if is_queued path s.changed_files_queue
    then s
    else if stored
    then record s { changed_files_queue = s.changed_files_queue ++ path ∷ [] }
    else s

-- The value of `is_text`; `text` is what is_text_file says.
abbrev pub counts_as_text : Mask → Bool → Bool
counts_as_text m text =
    if m.create || m.modify || m.close_write || m.moved_to then text else m.delete || m.moved_from

abbrev pub should_add : Mask → Bool
should_add m = m.modify || m.close_write || m.create || m.delete || m.moved_from || m.moved_to

-- `is_text_file` opens a file, and `tree` is what is found at a path.
module _ (is_text_file : Bytes → Bool) (tree : Bytes → Tree) where
  -- An event on what is not a directory.
  unfoldable pub file_event : InotifyEvent → Bytes → MonitorState → MonitorState
  file_event e path s =
      if is_own path
      then s
      else if counts_as_text e.mask (is_text_file path) && should_add e.mask
      then enqueue e.stored path s
      else s

  unfoldable pub named_event : InotifyEvent → Bytes → MonitorState → MonitorState
  named_event e path s =
      if e.mask.is_dir
      then if e.mask.create then (add_inotify_watch_recursive path (tree path) s).0 else s
      else file_event e path s

  unfoldable pub handle_event : InotifyEvent → MonitorState → MonitorState
  handle_event e s =
      if e.has_name
      then elim (get_watch_path e.wd s.watch_list) [
        | none ↦ s
        | some watch_dir ↦ named_event e (join watch_dir e.name) s
      ]
      else s

  unfoldable pub handle_events : List InotifyEvent → MonitorState → MonitorState
  handle_events [] s = s
  handle_events (e ∷ es) s = handle_events es (handle_event e s)

  -- The Boolean says that the C code returns 0.
  unfoldable pub process_inotify_events : EventRead → MonitorState → MonitorState × Bool
  process_inotify_events (events es) s =
      if s.inotify_open then (handle_events es s, true) else (s, false)
  process_inotify_events nothing s = (s, s.inotify_open)
  process_inotify_events refused s = (s, false)
