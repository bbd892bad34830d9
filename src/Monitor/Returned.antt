-- ===== src/Monitor/Returned.antt =====
-- What comes back of a file: create_incremental_backup and restore_file_to_sample of
-- task_6/homework/src/backup.c together.
use sem.Monitor.Saved.{name_of, IsSavable}
use sem.Monitor.Sampled.{back_up_changes-diff}
use sem.Monitor.Paths.{
  IsOutside-equal, full_path-temp_path, diff_path-temp_path, temp_path-clean_path,
  temp_path-outside, clean_path-outside,
}
use sem.Monitor.Restored.{
  stored_name, IsRestorable, cut-full_path, cut-diff_path, cut-temp_path, cut-clean_path, AreApart,
  restore_with_lem, restore_base_lem,
}
use sem.Monitor.Restore.{
  cut, temp_path, clean_path, restored_path, restore_with, restore_from, restore_file_to_sample,
  valid_sample, patch_command,
}
use sem.Monitor.Disk.{Disk, put, Access}
use sem.Base.{
  length, [], false, Option, ℕ, ◌≤◌, ◌<◌, ◌≡◌, refl, true, some, none, ◌∷◌, ◌++◌, arith, ◌∙◌, List,
  All,
}
use sem.Text.{Bytes, equal}
use sem.Monitor.Queue.{equal_sym}
use sem.Monitor.Diffs.{fgets_lines, save_diff}
use sem.Monitor.Cleaning.{clean_diff-save_diff, IsLine, IsKept}
use sem.Numbers.{size_mod}
use sem.Monitor.Commands.{pos}
use sem.Monitor.State.{MonitorState}
use sem.Monitor.Changes.{Stat, has_any, find_changed_files, get_changed_files_from_queue}
use sem.Monitor.Backups.{
  back_up_changes, full_path, diff_path, is_cut, diff_command, create_incremental_backup,
}
use sem.Base.{[], false, Option, ℕ, ◌<◌, ◌≤◌}
use sem.Monitor.Patched.{
  IsPatch, restore_file_to_sample_whole, restore-AreApart, restore_file_to_sample-save_diff,
}
mod Tests

-- With these two contents of the backup and the file, `diff` runs and prints such a text, which need
-- not be the same each time: it names the times of the files. Only two different texts have one,
-- since of equal ones diff prints nothing and patch fails then, and only where neither command is
-- cut off.
abbrev pub IsDiffTool :
    Bytes
    → Bytes
    → (Bytes → Disk → Option Bytes)
    → (Bytes → Disk → Disk × ℕ)
    → Bytes
    → Bytes
    → Bytes
    → Bytes
    → Type 0
IsDiffTool old new popen system old_file new_file temp clean =
    (d : Disk)
    → d old_file ≡ some old
    → d new_file ≡ some new
    → (printed : Bytes) × (popen (diff_command old_file new_file) d ≡ some printed)
      × IsPatch old new printed system temp clean

-- Of a file that has a backup and no diff of the sample, the restored file is the backup, whatever
-- the diffs of the samples before it are, and the temporary file is removed. The conditions: the
-- file has a name, the sample is one from the first to the current one, the name among the
-- backups has at most 3900 bytes, the numbers of the sample and the process are below 2^64, every
-- file that a restore opens can be opened, and the restored one lies outside BACKUP_DIR.
pub restore_file_to_sample-base :
    (access : Access) (system : Bytes → Disk → Disk × ℕ) (pid target : ℕ) (s : MonitorState)
    (filename old : Bytes) (d : Disk)
    → IsRestorable access s filename target pid
    → d (full_path (stored_name s filename)) ≡ some old
    → d (diff_path (stored_name s filename) target) ≡ none
    → (e : Disk) × (restore_file_to_sample access system pid s filename (pos target) d ≡ (e, true))
      × (e (restored_path s filename target) ≡ some old)
      × (e (temp_path (stored_name s filename) pid) ≡ none)
restore_file_to_sample-base access system pid target s filename old d r there no_diff =
    let rel = stored_name s filename in
    rw (restore_file_to_sample_whole access system pid s filename target r d) (
      restore_base_lem access system (full_path rel) (temp_path rel pid) (diff_path rel target)
        (clean_path rel target pid) (restored_path s filename target) old d
        (restore-AreApart access system pid s filename target r) r.base_readable r.temp_readable
        r.temp_writable r.restored_writable there no_diff)

has_any-append :
    (before : List Bytes) (p : Bytes) (later : List Bytes) → has_any (before ++ p ∷ later) ≡ true
has_any-append [] p later = refl
has_any-append (b ∷ before) p later = refl

pub find_changed_files-queue :
    (stat : Bytes → Option Stat) (current : List Bytes) (s : MonitorState) (before : List Bytes)
    (p : Bytes) (later : List Bytes)
    → s.inotify_open ≡ true
    → s.changed_files_queue ≡ before ++ p ∷ later
    → find_changed_files stat current s
      ≡ (record s { changed_files_queue = [] }, before ++ p ∷ later)
unfolding find_changed_files get_changed_files_from_queue
find_changed_files-queue stat current s before p later live queued =
    rw (live, queued, has_any-append before p later) refl

-- Neither asks for the queue.
IsSavable-emptied :
    (access : Access) (s : MonitorState) (path : Bytes)
    → IsSavable access s path
    → IsSavable access (record s { changed_files_queue = [] }) path
IsSavable-emptied access s path v = record {
  no_log = v.no_log;
  fits = v.fits;
  readable = v.readable;
  writable = v.writable;
  outside = v.outside;
}

IsRestorable-emptied :
    (access : Access) (s : MonitorState) (filename : Bytes) (target pid : ℕ)
    → IsRestorable access s filename target pid
    → IsRestorable access (record s { changed_files_queue = [] }) filename target pid
IsRestorable-emptied access s filename target pid r = record {
  named = r.named;
  past = r.past;
  known = r.known;
  small_target = r.small_target;
  small_pid = r.small_pid;
  name_short = r.name_short;
  base_readable = r.base_readable;
  diff_readable = r.diff_readable;
  temp_writable = r.temp_writable;
  temp_readable = r.temp_readable;
  clean_writable = r.clean_writable;
  restored_writable = r.restored_writable;
  restored_outside = r.restored_outside;
}

-- If the watch has queued a file that has a backup, the incremental backup of a sample succeeds and
-- returns the number of queued files, a restore of the file to that sample then succeeds, the
-- restored file has the content of the sample, and the temporary files are removed. The conditions:
-- of these two contents diff prints a text without a line that the restore drops, and patch makes
-- the new content of the old one by it, the queue has no other file with this name among the
-- backups, the file is not the log and has a name, the sample is not the 0th, the name among the
-- backups has at most 3900 bytes, the paths fit their buffers and have no newline, the number of the
-- sample, the process and the time are below 2^64, the files can be opened, and the file and the
-- restored one lie outside BACKUP_DIR.
pub restore_file_to_sample-create_incremental_backup :
    (access : Access) (popen : Bytes → Disk → Option Bytes) (system : Bytes → Disk → Disk × ℕ)
    (stat : Bytes → Option Stat) (pid now : ℕ) (current : List Bytes) (s : MonitorState)
    (filename : Bytes) (before later : List Bytes) (old new : Bytes) (d : Disk)
    → IsRestorable access s filename s.current_sample pid
    → let rel = stored_name s filename in
      let path = cut (s.monitored_dir ++ b'/' ∷ filename) in
      IsSavable access s path
      → is_cut (diff_path rel s.current_sample) ≡ false
      → access.writes (diff_path rel s.current_sample) ≡ true
      → s.inotify_open ≡ true
      → s.changed_files_queue ≡ before ++ path ∷ later
      → All (λ q. equal rel (name_of s q) ≡ false) before
      → All (λ q. equal rel (name_of s q) ≡ false) later
      → IsDiffTool old new popen system
          (full_path rel)
          path
          (temp_path rel pid)
          (clean_path rel s.current_sample pid)
      → IsLine (full_path rel)
      → IsLine path
      → now < size_mod
      → d (full_path rel) ≡ some old
      → d path ≡ some new
      → let (t, e, count) = create_incremental_backup true access popen stat now current s d in
        (count ≡ some (length (before ++ path ∷ later)))
        × (f : Disk) × (restore_file_to_sample access system pid t filename (pos s.current_sample) e
            ≡ (f, true))
        × (f (restored_path s filename s.current_sample) ≡ some new)
        × (f (temp_path rel pid) ≡ none)
        × (f (clean_path rel s.current_sample pid) ≡ none)
unfolding create_incremental_backup
restore_file_to_sample-create_incremental_backup access popen system stat pid now current s filename
      before later old new d r v diff_fits writable live queued no_before no_later tool full_line
      line early there is_new =
    let rel = stored_name s filename in
    let path = cut (s.monitored_dir ++ b'/' ∷ filename) in
    let t : MonitorState = record s { changed_files_queue = [] } in
    let (printed, patch, full_kept, diffed) =
      back_up_changes-diff access popen now t before path later old new d
        (λ printed.
          IsPatch old new printed system (temp_path rel pid) (clean_path rel s.current_sample pid))
        (IsSavable-emptied access s path v) diff_fits writable no_before no_later there is_new
        tool in
    let (f, done, content, temp_gone, clean_gone) =
      restore_file_to_sample-save_diff access system pid now s.current_sample t filename old new
        printed (back_up_changes access popen now t (before ++ path ∷ later) d)
        (IsRestorable-emptied access s filename s.current_sample pid r) patch full_line line early
        full_kept diffed in
    rw (find_changed_files-queue stat current s before path later live queued)
      (refl, f, done, content, temp_gone, clean_gone)
