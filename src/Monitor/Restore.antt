-- ===== src/Monitor/Restore.antt =====
-- restore_file_to_sample of task_6/homework/src/backup.c. `system` runs a command on the files and
-- gives its exit code.
use sem.Monitor.Disk.{Disk, put, unlink, Access, copy_file}
use sem.Monitor.Backups.{backup_dir, full_path, diff_path, quoted}
use sem.Monitor.Commands.{ℤ, pos, negsuc}
use sem.Monitor.Commands.Answers.{restored_filename}
use sem.Base.{
  ℕ, Bool, true, false, ◌||◌, Option, none, some, ◌∷◌, ◌++◌, ltb, ◌==◌, if◌then◌else◌, length, take,
}
use sem.Text.{Bytes, codes}
use sem.Numbers.{decimal}
use sem.Monitor.Diffs.{clean_diff}
use sem.Monitor.Names.{make_backup_relative_path}
use sem.Monitor.State.{MonitorState}

-- snprintf into a buffer of MAX_PATH_LEN bytes
abbrev pub cut : Bytes → Bytes
cut path = take 4095 path

abbrev pub temp_path : Bytes → ℕ → Bytes
temp_path relative_path pid =
    backup_dir ++ codes "/temp_restore_" ++ (relative_path ++ b'_' ∷ decimal pid)

abbrev pub clean_path : Bytes → ℕ → ℕ → Bytes
clean_path relative_path target pid =
    backup_dir
    ++ codes "/temp_clean_diff_"
    ++ (relative_path ++ b'_' ∷ (decimal target ++ b'_' ∷ decimal pid))

abbrev pub patch_command : Bytes → Bytes → Bytes
patch_command file diff =
    take 2047
      (codes "patch -u " ++ (quoted file ++ (codes " < " ++ (quoted diff ++ codes " 2>/dev/null"))))

abbrev pub restored_path : MonitorState → Bytes → ℕ → Bytes
restored_path s filename target =
    cut (s.monitored_dir ++ b'/' ∷ restored_filename filename (pos target))

-- The diff of the sample, if there is one, is applied to the temporary file; the Boolean says that
-- the restore goes on.
unfoldable pub apply_diff :
    Access → (Bytes → Disk → Disk × ℕ) → Bytes → Bytes → Bytes → Disk → Disk × Bool
apply_diff access system temp diff clean d = elim (d diff) [
  | none ↦ (d, true)
  | some content ↦
      if access.reads diff
      then (let cleaned : Disk =
            if access.writes clean then put clean (clean_diff content) d else d in
          let (patched, code) = system (patch_command temp clean) cleaned in
          if code == 0
          then (unlink clean patched, true)
          else (unlink temp (unlink clean patched), false))
      else (unlink temp d, false)
]

-- The temporary file becomes the restored one.
unfoldable pub finish_restore : Access → Bytes → Bytes → Disk → Disk × Bool
finish_restore access temp restored d = elim (copy_file access temp restored d) [
  | none ↦ (unlink temp d, false)
  | some e ↦ (unlink temp e, true)
]

-- From the copy of the base on, with all paths made.
unfoldable pub restore_with :
    Access → (Bytes → Disk → Disk × ℕ) → Bytes → Bytes → Bytes → Bytes → Bytes → Disk → Disk × Bool
restore_with access system base temp diff clean restored d = elim (copy_file access base temp d) [
  | none ↦ (d, false)
  | some copied ↦
      let (patched, fine) = apply_diff access system temp diff clean copied in
      if fine then finish_restore access temp restored patched else (patched, false)
]

unfoldable pub restore_from :
    Access → (Bytes → Disk → Disk × ℕ) → ℕ → MonitorState → Bytes → ℕ → Disk → Disk × Bool
restore_from access system pid s filename target d =
    let file_path = cut (s.monitored_dir ++ b'/' ∷ filename) in
    let relative_path = make_backup_relative_path file_path s.monitored_dir in
    restore_with access system (cut (full_path relative_path)) (cut (temp_path relative_path pid))
      (cut (diff_path relative_path target)) (cut (clean_path relative_path target pid))
      (restored_path s filename target) d

-- target_sample < 1 || target_sample > state->current_sample
unfoldable pub valid_sample : ℕ → ℤ → Option ℕ
valid_sample current (negsuc n) = none
valid_sample current (pos n) = if n == 0 || ltb current n then none else some n

-- The Boolean says that 0 is returned.
unfoldable pub restore_file_to_sample :
    Access → (Bytes → Disk → Disk × ℕ) → ℕ → MonitorState → Bytes → ℤ → Disk → Disk × Bool
restore_file_to_sample access system pid s filename target_sample d =
    elim (valid_sample s.current_sample target_sample) [
      | none ↦ (d, false)
      | some target ↦
          if length filename == 0
          then (d, false)
          else restore_from access system pid s filename target d
    ]
