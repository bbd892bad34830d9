-- ===== src/Monitor/Backups.antt =====
-- task_6/homework/src/backup.c: the full backup, and the diffs of a sample. The files of the
-- directory, the clock and the output of a command are given.
use sem.Monitor.Disk.{Disk, put, Access, copy_file}
use sem.Monitor.Changes.{Stat, has_any, find_changed_files}
use sem.Monitor.Daemon.{sample}
use sem.Base.{
  ℕ, Bool, true, false, ◌||◌, Option, none, some, List, [], ◌∷◌, ◌++◌, leb, if◌then◌else◌, length,
  take,
}
use sem.Text.{Bytes, codes, equal}
use sem.Numbers.{decimal}
use sem.Monitor.Diffs.{save_diff}
use sem.Monitor.Names.{make_backup_relative_path}
use sem.Monitor.State.{MonitorState}
use sem.Monitor.Events.{basename}

-- BACKUP_DIR
abbrev pub backup_dir : Bytes
backup_dir = codes "/tmp/daemon_backups"

abbrev pub full_path : Bytes → Bytes
full_path relative_path = backup_dir ++ codes "/full_" ++ relative_path

abbrev pub diff_path : Bytes → ℕ → Bytes
diff_path relative_path sample =
    backup_dir ++ codes "/diff_" ++ (relative_path ++ (codes "_sample_" ++ decimal sample))

-- snprintf into a path of MAX_PATH_LEN bytes cuts it off.
abbrev pub is_cut : Bytes → Bool
is_cut path = leb 4096 (length path)

abbrev pub is_debug_log : Bytes → Bool
is_debug_log path = equal (basename path) (codes "debug.log")

-- The body of the loop of create_full_backup.
unfoldable pub back_up_file : Access → Bytes → Bytes → Disk → Disk
back_up_file access monitored_dir path d =
    let backup_path = full_path (make_backup_relative_path path monitored_dir) in
    let copied : Disk = elim (copy_file access path backup_path d) [ none ↦ d | some e ↦ e ] in
    if is_debug_log path || is_cut backup_path then d else copied

unfoldable pub back_up_files : Access → Bytes → List Bytes → Disk → Disk
back_up_files access monitored_dir [] d = d
back_up_files access monitored_dir (p ∷ ps) d =
    back_up_files access monitored_dir ps (back_up_file access monitored_dir p d)

-- `ready` says that BACKUP_DIR is there or can be made. The Boolean says that 0 is returned.
unfoldable pub create_full_backup :
    Bool → Access → List Bytes → MonitorState → Disk → MonitorState × Disk × Bool
create_full_backup ready access files s d =
    if ready
    then (if has_any files
        then (
          record s { first_backup_done = true },
          back_up_files access s.monitored_dir files d,
          true,
        )
        else (s, d, true))
    else (s, d, false)

-- A path in double quotes.
abbrev pub quoted : Bytes → Bytes
quoted path = 34 ∷ (path ++ 34 ∷ [])

abbrev pub diff_command : Bytes → Bytes → Bytes
diff_command old_file new_file =
    take 2047
      (codes "diff -u " ++ (quoted old_file ++ b' ' ∷ (quoted new_file ++ codes " 2>/dev/null")))

-- `popen` gives what a command prints, none where it cannot be run.
unfoldable pub write_diff :
    Access → (Bytes → Disk → Option Bytes) → Bytes → Bytes → Bytes → ℕ → ℕ → Disk → Disk
write_diff access popen old_file new_file path timestamp sample_num d =
    elim (popen (diff_command old_file new_file) d) [
      | none ↦ d
      | some printed ↦
          if access.writes path
          then put path (save_diff printed old_file new_file timestamp sample_num) d
          else d
    ]

-- A file that has no backup yet is copied, if it can be.
unfoldable pub with_backup : Access → Bytes → Bytes → Disk → Disk
with_backup access path old_backup d = elim (d old_backup) [
  | some old ↦ d
  | none ↦ elim (copy_file access path old_backup d) [ none ↦ d | some e ↦ e ]
]

-- The body of the loop of create_incremental_backup.
unfoldable pub back_up_change :
    Access → (Bytes → Disk → Option Bytes) → ℕ → MonitorState → Bytes → Disk → Disk
back_up_change access popen now s path d =
    let relative_path = make_backup_relative_path path s.monitored_dir in
    let old_backup = full_path relative_path in
    let diff = diff_path relative_path s.current_sample in
    let based = with_backup access path old_backup d in
    if is_debug_log path || is_cut old_backup
    then d
    else (if is_cut diff
        then based
        else write_diff access popen old_backup path diff now s.current_sample based)

unfoldable pub back_up_changes :
    Access → (Bytes → Disk → Option Bytes) → ℕ → MonitorState → List Bytes → Disk → Disk
back_up_changes access popen now s [] d = d
back_up_changes access popen now s (p ∷ ps) d =
    back_up_changes access popen now s ps (back_up_change access popen now s p d)

-- The value returned is the number of files, none for -1.
unfoldable pub create_incremental_backup :
    Bool
    → Access
    → (Bytes → Disk → Option Bytes)
    → (Bytes → Option Stat)
    → ℕ
    → List Bytes
    → MonitorState
    → Disk
    → MonitorState × Disk × Option ℕ
create_incremental_backup ready access popen stat now current s d =
    if ready
    then (let (t, changed) = find_changed_files stat current s in
        (t, back_up_changes access popen now t changed d, some (length changed)))
    else (s, d, none)
