-- ===== src/Monitor/Restored.antt =====
-- What restore_file_to_sample of task_6/homework/src/backup.c makes of a backup and a diff.
use sem.Monitor.Saved.{name_of}
use sem.Monitor.Paths.{IsOutside}
use sem.Monitor.Disk.{
  Disk, put, unlink, Access, copy_file_lem, put_self, put_ne, unlink_self, unlink_ne,
}
use sem.Monitor.Backups.{full_path, diff_path}
use sem.Monitor.Restore.{
  cut, temp_path, clean_path, patch_command, restored_path, apply_diff, finish_restore,
  restore_with,
}
use sem.Base.{
  ℕ, ◌≤◌, ◌<◌, ◌≡◌, refl, true, false, some, ◌∷◌, ◌++◌, arith, ◌==◌, length, length-append,
  take_all, ap, ◌∙◌, none,
}
use sem.Text.{Bytes, equal, codes}
use sem.Numbers.{length-decimal, decimal, size_mod}
use sem.Monitor.Diffs.{clean_diff}
use sem.Monitor.State.{MonitorState}

-- The name among the backups of a file that is given by its name below the directory.
abbrev pub stored_name : MonitorState → Bytes → Bytes
stored_name s filename = name_of s (cut (s.monitored_dir ++ b'/' ∷ filename))

-- What the restore opens can be opened, and its paths fit their buffers.
pub record IsRestorable (access : Access) (s : MonitorState) (filename : Bytes) (target pid : ℕ)
    : Type 0 where
  pub named : (length filename == 0) ≡ false
  pub past : 0 < target
  pub known : target ≤ s.current_sample
  pub small_target : target < size_mod
  pub small_pid : pid < size_mod
  pub name_short : length (stored_name s filename) ≤ 3900
  pub base_readable : access.reads (full_path (stored_name s filename)) ≡ true
  pub diff_readable : access.reads (diff_path (stored_name s filename) target) ≡ true
  pub temp_writable : access.writes (temp_path (stored_name s filename) pid) ≡ true
  pub temp_readable : access.reads (temp_path (stored_name s filename) pid) ≡ true
  pub clean_writable : access.writes (clean_path (stored_name s filename) target pid) ≡ true
  pub restored_writable : access.writes (restored_path s filename target) ≡ true
  pub restored_outside : IsOutside (restored_path s filename target)

cut_short : (path : Bytes) → length path ≤ 4095 → cut path ≡ path
cut_short path h = take_all path 4095 h

pub cut-full_path : (rel : Bytes) → length rel ≤ 3900 → cut (full_path rel) ≡ full_path rel
cut-full_path rel h = cut_short (full_path rel) (omega arith)

pub cut-diff_path :
    (rel : Bytes) (n : ℕ)
    → length rel ≤ 3900
    → n < size_mod
    → cut (diff_path rel n) ≡ diff_path rel n
cut-diff_path rel n h k =
    cut_short (diff_path rel n)
      (omega (arith, length-append rel (codes "_sample_" ++ decimal n), length-decimal n k))

pub cut-temp_path :
    (rel : Bytes) (pid : ℕ)
    → length rel ≤ 3900
    → pid < size_mod
    → cut (temp_path rel pid) ≡ temp_path rel pid
cut-temp_path rel pid h k =
    cut_short (temp_path rel pid)
      (omega (arith, length-append rel (b'_' ∷ decimal pid), length-decimal pid k))

pub cut-clean_path :
    (rel : Bytes) (n pid : ℕ)
    → length rel ≤ 3900
    → n < size_mod
    → pid < size_mod
    → cut (clean_path rel n pid) ≡ clean_path rel n pid
cut-clean_path rel n pid h k m = cut_short (clean_path rel n pid) (
    omega (
      arith,
      length-append rel (b'_' ∷ (decimal n ++ b'_' ∷ decimal pid)),
      length-append (decimal n) (b'_' ∷ decimal pid),
      length-decimal n k,
      length-decimal pid m,
    ))

-- The files that a restore names are all different.
pub record AreApart (base temp diff clean restored : Bytes) : Type 0 where
  pub base_temp : equal base temp ≡ false
  pub diff_temp : equal diff temp ≡ false
  pub temp_clean : equal temp clean ≡ false
  pub clean_temp : equal clean temp ≡ false
  pub temp_restored : equal temp restored ≡ false
  pub clean_restored : equal clean restored ≡ false
  pub restored_temp : equal restored temp ≡ false

module _ (access : Access) (system : Bytes → Disk → Disk × ℕ) where
  apply_diff_lem :
      (temp diff clean content new : Bytes) (d : Disk)
      → access.reads diff ≡ true
      → access.writes clean ≡ true
      → d diff ≡ some content
      → system (patch_command temp clean) (put clean (clean_diff content) d)
        ≡ (put temp new (put clean (clean_diff content) d), 0)
      → apply_diff access system temp diff clean d
        ≡ (unlink clean (put temp new (put clean (clean_diff content) d)), true)
  unfolding apply_diff
  apply_diff_lem temp diff clean content new d readable writable there done =
      rw (apply_diff, there, readable, writable, done) refl

  finish_restore_lem :
      (temp restored new : Bytes) (d : Disk)
      → access.reads temp ≡ true
      → access.writes restored ≡ true
      → d temp ≡ some new
      → equal temp restored ≡ false
      → finish_restore access temp restored d ≡ (unlink temp (put restored new d), true)
  unfolding finish_restore
  finish_restore_lem temp restored new d readable writable there apart =
      rw (finish_restore, copy_file_lem access temp restored new d readable there writable apart)
        refl

  -- The whole way: the base is copied, patched with the cleaned diff, and put where it belongs.
  pub restore_with_lem :
      (base temp diff clean restored old content printed new : Bytes) (d : Disk)
      → AreApart base temp diff clean restored
      → access.reads base ≡ true
      → access.reads diff ≡ true
      → access.reads temp ≡ true
      → access.writes temp ≡ true
      → access.writes clean ≡ true
      → access.writes restored ≡ true
      → d base ≡ some old
      → d diff ≡ some content
      → clean_diff content ≡ printed
      → ((e : Disk)
          → e temp ≡ some old
          → e clean ≡ some printed
          → system (patch_command temp clean) e ≡ (put temp new e, 0))
      → (e : Disk) × (restore_with access system base temp diff clean restored d ≡ (e, true))
        × (e restored ≡ some new)
        × (e temp ≡ none)
        × (e clean ≡ none)
  unfolding restore_with
  restore_with_lem base temp diff clean restored old content printed new d a rb rd rt wt wc wr there
        diffed cleaned patches =
      let copied = put temp old d in
      let ready = put clean (clean_diff content) copied in
      let patched = unlink clean (put temp new ready) in
      let ran : system (patch_command temp clean) ready ≡ (put temp new ready, 0) =
        patches ready
          (put_ne clean (clean_diff content) temp copied a.temp_clean ∙ put_self temp old d)
          (put_self clean (clean_diff content) copied ∙ ap some cleaned) in
      let applied =
        apply_diff_lem temp diff clean content new copied rd wc
          (put_ne temp old diff d a.diff_temp ∙ diffed) ran in
      let new_there : patched temp ≡ some new =
        unlink_ne clean temp (put temp new ready) a.temp_clean ∙ put_self temp new ready in
      let finished = finish_restore_lem temp restored new patched rt wr new_there a.temp_restored in
      (
        unlink temp (put restored new patched),
        rw (restore_with, copy_file_lem access base temp old d rb there wt a.base_temp, applied)
            finished,
        unlink_ne temp restored (put restored new patched) a.restored_temp
            ∙ put_self restored new patched,
        unlink_self temp (put restored new patched),
        unlink_ne temp clean (put restored new patched) a.clean_temp
            ∙ put_ne restored new clean patched a.clean_restored
            ∙ unlink_self clean (put temp new ready),
      )

  -- Without a diff the base is put there as it is.
  pub restore_base_lem :
      (base temp diff clean restored old : Bytes) (d : Disk)
      → AreApart base temp diff clean restored
      → access.reads base ≡ true
      → access.reads temp ≡ true
      → access.writes temp ≡ true
      → access.writes restored ≡ true
      → d base ≡ some old
      → d diff ≡ none
      → (e : Disk) × (restore_with access system base temp diff clean restored d ≡ (e, true))
        × (e restored ≡ some old)
        × (e temp ≡ none)
  unfolding restore_with apply_diff
  restore_base_lem base temp diff clean restored old d a rb rt wt wr there no_diff =
      let copied = put temp old d in
      let finished =
        finish_restore_lem temp restored old copied rt wr (put_self temp old d) a.temp_restored in
      (
        unlink temp (put restored old copied),
        rw
            (
              restore_with,
              copy_file_lem access base temp old d rb there wt a.base_temp,
              apply_diff,
              put_ne temp old diff d a.diff_temp,
              no_diff,
            )
            finished,
        unlink_ne temp restored (put restored old copied) a.restored_temp
            ∙ put_self restored old copied,
        unlink_self temp (put restored old copied),
      )
