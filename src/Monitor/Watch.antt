-- ===== src/Monitor/Watch.antt =====
-- task_6/homework/src/daemon.c: the watches on a directory and those below it.
use sem.Base.{
  ℕ, Bool, true, false, ◌||◌, Option, none, some, List, [], ◌∷◌, ◌++◌, ◌==◌, if◌then◌else◌, take,
}
use sem.Text.{Bytes, codes, equal}
use sem.Monitor.State.{WatchInfo, MonitorState}

-- d_type of an entry: DT_DIR, DT_UNKNOWN or another
pub data Kind : Type 0 where
  folder unknown other : Kind

-- What is found at a path: nothing that opendir opens, or a directory with its entries. Its first
-- argument is what inotify_add_watch gives, none for an error; the second says that memory is given
-- for the entry of the watch list.
mutual
  pub data Tree : Type 0 where
    closed : Tree
    opened : Option ℕ → Bool → Entries → Tree

  pub data Entries : Type 0 where
    no_more : Entries
    entry : Bytes → Kind → Tree → Entries → Entries

unfoldable pub get_watch_path : ℕ → List WatchInfo → Option Bytes
get_watch_path wd [] = none
get_watch_path wd (w ∷ ws) = if w.wd == wd then some w.path else get_watch_path wd ws

-- snprintf("%s/%s") into PATH_MAX bytes
abbrev pub join : Bytes → Bytes → Bytes
join path name = take 4095 (path ++ b'/' ∷ name)

abbrev pub is_dots : Bytes → Bool
is_dots name = equal name (codes ".") || equal name (codes "..")

abbrev pub watch : ℕ → Bytes → MonitorState → MonitorState
watch wd path s =
    let w : WatchInfo = record { wd = wd; path = path } in
    record s { watch_list = s.watch_list ++ w ∷ [] }

unfoldable mutual
  -- The Boolean says that the C code returns 0.
  pub add_inotify_watch_recursive : Bytes → Tree → MonitorState → MonitorState × Bool
  add_inotify_watch_recursive path closed s = (s, false)
  add_inotify_watch_recursive path (opened none stored es) s = (s, false)
  add_inotify_watch_recursive path (opened (some wd) false es) s = (s, false)
  add_inotify_watch_recursive path (opened (some wd) true es) s =
      (add_entries path es (watch wd path s), true)

  -- The loop over readdir.
  pub add_entries : Bytes → Entries → MonitorState → MonitorState
  add_entries path no_more s = s
  add_entries path (entry name folder t es) s =
      let below = (add_inotify_watch_recursive (join path name) t s).0 in
      let skipped = add_entries path es s in
      let added = add_entries path es below in if is_dots name then skipped else added
  add_entries path (entry name unknown t es) s =
      let below = (add_inotify_watch_recursive (join path name) t s).0 in
      let skipped = add_entries path es s in
      let added = add_entries path es below in if is_dots name then skipped else added
  add_entries path (entry name other t es) s = add_entries path es s
