-- ===== src/Monitor/Changes.antt =====
-- task_6/homework/src/backup.c: find_changed_files. realloc and strdup are taken to give memory.
use sem.Base.{
  ℕ, Bool, true, false, not, ◌&&◌, ◌||◌, Option, none, some, List, [], ◌∷◌, ◌==◌, if◌then◌else◌,
  take, not,
}
use sem.Text.{Bytes, equal}
use sem.Monitor.State.{FileInfo, MonitorState}

-- What the code reads of struct stat.
pub record Stat : Type 0 where
  pub mtime : ℕ
  pub size : ℕ

abbrev pub differs : FileInfo → Stat → Bool
differs f st = not (f.mtime == st.mtime) || not (f.size == st.size) || not f.exists

abbrev pub renewed : FileInfo → Stat → FileInfo
renewed f st = record f { mtime = st.mtime; size = st.size; exists = true }

abbrev pub new_entry : Bytes → Stat → FileInfo
new_entry path st = record {
  path = take 4095 path;
  mtime = st.mtime;
  size = st.size;
  exists = true;
}

-- The body of the loop for a file that stat finds: whether it counts as changed, and the records.
-- A file without a record is changed, and gets one behind the others.
unfoldable pub check_file : Bytes → Stat → List FileInfo → Bool × List FileInfo
check_file path st [] = (true, new_entry path st ∷ [])
check_file path st (f ∷ fs) =
    let (changed, gs) = check_file path st fs in
    if equal f.path path then (differs f st, renewed f st ∷ fs) else (changed, f ∷ gs)

-- The queue, which is emptied.
unfoldable pub get_changed_files_from_queue : MonitorState → MonitorState × List Bytes
get_changed_files_from_queue s = (record s { changed_files_queue = [] }, s.changed_files_queue)

abbrev pub has_any : List Bytes → Bool
has_any [] = false
has_any (f ∷ fs) = true

-- `stat` gives none where it fails, and `current` are the files that search_files_in_dir finds.
module _ (stat : Bytes → Option Stat) where
  -- The loop over the files of the directory: the records, and the changed files.
  unfoldable pub check_files : List Bytes → List FileInfo → List FileInfo × List Bytes
  check_files [] fs = (fs, [])
  check_files (p ∷ ps) fs = elim (stat p) [
    | none ↦ check_files ps fs
    | some st ↦
        let (changed, gs) = check_file p st fs in
        let (hs, rest) = check_files ps gs in (hs, if changed then p ∷ rest else rest)
  ]

  unfoldable pub find_changed_files : List Bytes → MonitorState → MonitorState × List Bytes
  find_changed_files current s =
      if s.inotify_open && has_any s.changed_files_queue
      then get_changed_files_from_queue s
      else (let (files, changed) = check_files current s.files in
          (record s { files = files }, changed))
