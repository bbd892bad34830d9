-- ===== src/Monitor/Patched.antt =====
-- The way of restore_file_to_sample of task_6/homework/src/backup.c with a diff that save_diff wrote.

use sem.Monitor.Paths.{
  IsOutside-equal, full_path-temp_path, diff_path-temp_path, temp_path-clean_path,
  temp_path-outside, clean_path-outside,
}
use sem.Monitor.Restored.{
  stored_name, IsRestorable, cut-full_path, cut-diff_path, cut-temp_path, cut-clean_path, AreApart,
  restore_with_lem,
}
use sem.Monitor.Restore.{
  cut, temp_path, clean_path, restored_path, restore_with, restore_from, restore_file_to_sample,
  valid_sample, patch_command,
}
use sem.Monitor.Disk.{Disk, put, Access}
use sem.Base.{ℕ, ◌≤◌, ◌<◌, ◌≡◌, refl, true, some, none, ◌∷◌, ◌++◌, arith, ◌∙◌, All}
use sem.Text.{Bytes}
use sem.Monitor.Queue.{equal_sym}
use sem.Monitor.Diffs.{fgets_lines, save_diff}
use sem.Monitor.Cleaning.{clean_diff-save_diff, IsLine, IsKept}
use sem.Numbers.{size_mod}
use sem.Monitor.Commands.{pos}
use sem.Monitor.State.{MonitorState}
use sem.Monitor.Backups.{full_path, diff_path}
use sem.Base.{ℕ, ◌<◌, ◌≤◌}

valid_sample_lem : (current n : ℕ) → 0 < n → n ≤ current → valid_sample current (pos n) ≡ some n
unfolding valid_sample
valid_sample_lem current n h k = ground arith

module _ (access : Access) (system : Bytes → Disk → Disk × ℕ) (pid : ℕ) (s : MonitorState)
    (filename : Bytes) (target : ℕ) (r : IsRestorable access s filename target pid) where
  -- With paths that fit, nothing is cut off.
  pub restore_file_to_sample_whole :
      (d : Disk)
      → let rel = stored_name s filename in
        restore_file_to_sample access system pid s filename (pos target) d
        ≡ restore_with access system
            (full_path rel)
            (temp_path rel pid)
            (diff_path rel target)
            (clean_path rel target pid)
            (restored_path s filename target)
            d
  unfolding restore_file_to_sample restore_from
  restore_file_to_sample_whole d =
      let rel = stored_name s filename in
      rw
        (
          restore_file_to_sample,
          valid_sample_lem s.current_sample target r.past r.known,
          r.named,
          restore_from,
          cut-full_path rel r.name_short,
          cut-temp_path rel pid r.name_short r.small_pid,
          cut-diff_path rel target r.name_short r.small_target,
          cut-clean_path rel target pid r.name_short r.small_target r.small_pid,
        )
        refl

  pub restore-AreApart :
      let rel = stored_name s filename in
      AreApart
        (full_path rel)
        (temp_path rel pid)
        (diff_path rel target)
        (clean_path rel target pid)
        (restored_path s filename target)
  restore-AreApart =
      let rel = stored_name s filename in
      let restored = restored_path s filename target in
      record {
        base_temp = full_path-temp_path rel rel pid;
        diff_temp = diff_path-temp_path rel rel target pid;
        temp_clean = temp_path-clean_path rel rel target pid;
        clean_temp =
            equal_sym (clean_path rel target pid) (temp_path rel pid)
            ∙ temp_path-clean_path rel rel target pid;
        temp_restored = temp_path-outside restored rel pid r.restored_outside;
        clean_restored = clean_path-outside restored rel target pid r.restored_outside;
        restored_temp = IsOutside-equal restored _ r.restored_outside;
      }

-- A text that `diff` printed of two contents: the restore drops no line of it, and `patch` makes the
-- new content of the temporary copy of the old one.
pub record IsPatch (old new printed : Bytes) (system : Bytes → Disk → Disk × ℕ) (temp clean : Bytes)
    : Type 0 where
  pub kept : All IsKept (fgets_lines printed)
  pub patches :
      (e : Disk)
      → e temp ≡ some old
      → e clean ≡ some printed
      → system (patch_command temp clean) e ≡ (put temp new e, 0)

-- A diff that save_diff wrote and a backup give the file of that diff.
pub restore_file_to_sample-save_diff :
    (access : Access) (system : Bytes → Disk → Disk × ℕ) (pid now target : ℕ) (s : MonitorState)
    (filename old new printed : Bytes) (d : Disk)
    → IsRestorable access s filename target pid
    → let rel = stored_name s filename in
      let path = cut (s.monitored_dir ++ b'/' ∷ filename) in
      IsPatch old new printed system (temp_path rel pid) (clean_path rel target pid)
      → IsLine (full_path rel)
      → IsLine path
      → now < size_mod
      → d (full_path rel) ≡ some old
      → d (diff_path rel target) ≡ some (save_diff printed (full_path rel) path now target)
      → (e : Disk) × (restore_file_to_sample access system pid s filename (pos target) d
          ≡ (e, true))
        × (e (restored_path s filename target) ≡ some new)
        × (e (temp_path rel pid) ≡ none)
        × (e (clean_path rel target pid) ≡ none)
restore_file_to_sample-save_diff access system pid now target s filename old new printed d r patch
      full_line line early there diffed =
    let rel = stored_name s filename in
    let path = cut (s.monitored_dir ++ b'/' ∷ filename) in
    rw (restore_file_to_sample_whole access system pid s filename target r d) (
      restore_with_lem access system (full_path rel) (temp_path rel pid) (diff_path rel target)
        (clean_path rel target pid) (restored_path s filename target) old
        (save_diff printed (full_path rel) path now target) printed new d
        (restore-AreApart access system pid s filename target r) r.base_readable r.diff_readable
        r.temp_readable r.temp_writable r.clean_writable r.restored_writable there diffed
        (clean_diff-save_diff printed (full_path rel) path now target patch.kept full_line line
          early r.small_target)
        patch.patches)
