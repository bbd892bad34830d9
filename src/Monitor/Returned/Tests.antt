-- ===== src/Monitor/Returned/Tests.antt =====
-- Backups, diffs and restores of one file, with a diff that is the whole new content behind a +.
use sem.Monitor.Kept.{create_incremental_backup-keeps}
use sem.Monitor.Returned.{
  IsDiffTool, restore_file_to_sample-create_incremental_backup, restore_file_to_sample-base,
}
use sem.Monitor.Saved.{name_of, IsSavable, create_full_backup-saves}
use sem.Monitor.Restored.{stored_name, IsRestorable}
use sem.Monitor.Restore.{cut, temp_path, clean_path, restored_path, restore_file_to_sample}
use sem.Monitor.Disk.{Disk, put, Access}
use sem.Monitor.Changes.{Stat}
use sem.Monitor.Cleaning.{IsLine}
use sem.Monitor.Backups.{full_path, diff_path, create_full_backup, create_incremental_backup}
use sem.Base.{ℕ, ◌≡◌, refl, true, Option, none, some, [], ◌∷◌, arith}
use sem.Monitor.Names.{make_backup_relative_path, underscores, without_slash}
use sem.Monitor.Events.{basename_from}
use sem.Monitor.Diffs.{fgets_from}
use sem.Numbers.{decimal}
use sem.Text.{Bytes, codes, equal, starts_with, cstr}
use sem.Monitor.State.{MonitorState, init_monitor_state}
use sem.Monitor.Commands.{pos}

abbrev free : Access
free = record { reads = λ _. true; writes = λ _. true }

abbrev sampled_state : MonitorState
sampled_state = record (init_monitor_state 7 (codes "/d")) {
  inotify_open = true;
  current_sample = 2;
  changed_files_queue = codes "/d/a.c" ∷ [];
}

abbrev a_full : Bytes
a_full = full_path (codes "a.c")

abbrev a_temp : Bytes
a_temp = temp_path (codes "a.c") 5

abbrev a_clean : Bytes
a_clean = clean_path (codes "a.c") 2 5

abbrev plus_diff : Bytes → Disk → Option Bytes
plus_diff command d = elim (d (codes "/d/a.c")) [ none ↦ none | some new ↦ some (b'+' ∷ new) ]

abbrev without_first : Bytes → Bytes
without_first [] = []
without_first (c ∷ text) = text

abbrev plus_patch : Bytes → Disk → Disk × ℕ
plus_patch command d = elim (d a_clean) [
  | none ↦ (d, 1)
  | some text ↦ (put a_temp (without_first text) d, 0)
]

abbrev two_files : Disk
two_files = put a_full (codes "x\n") (put (codes "/d/a.c") (codes "y\n") (λ _. none))

abbrev no_stat : Bytes → Option Stat
no_stat path = none

a_path : cut (codes "/d/a.c") ≡ codes "/d/a.c"
a_path = refl

a_name : stored_name sampled_state (codes "a.c") ≡ codes "a.c"
unfolding init_monitor_state starts_with make_backup_relative_path underscores without_slash
a_name = refl

a_IsRestorable : IsRestorable free sampled_state (codes "a.c") 2 5
unfolding init_monitor_state starts_with make_backup_relative_path underscores without_slash
a_IsRestorable = record {
  named = refl;
  past = omega arith;
  known = omega arith;
  small_target = omega arith;
  small_pid = omega arith;
  name_short = omega arith;
  base_readable = refl;
  diff_readable = refl;
  temp_writable = refl;
  temp_readable = refl;
  clean_writable = refl;
  restored_writable = refl;
  restored_outside = refl;
}

a_IsSavable : IsSavable free sampled_state (codes "/d/a.c")
unfolding init_monitor_state starts_with equal basename_from make_backup_relative_path underscores
    without_slash
a_IsSavable = record {
  no_log = refl;
  fits = refl;
  readable = refl;
  writable = refl;
  outside = refl;
}

plus_tool :
    IsDiffTool
      (codes "x\n")
      (codes "y\n")
      plus_diff
      plus_patch
      a_full
      (codes "/d/a.c")
      a_temp
      a_clean
unfolding fgets_from cstr starts_with
plus_tool d there is_new = (
  codes "+y\n",
  rw (plus_diff, is_new) refl,
  record {
    kept = (record { no_null = refl; no_comment = refl; no_rule = refl }, tt);
    patches = λ e copied cleaned. rw (plus_patch, cleaned) refl;
  },
)

a_full-IsLine : IsLine a_full
a_full-IsLine = record {
  no_newline = (
    refl,
    (
      refl,
      (
        refl,
        (
          refl,
          (
            refl,
            (
              refl,
              (
                refl,
                (
                  refl,
                  (
                    refl,
                    (
                      refl,
                      (
                        refl,
                        (
                          refl,
                          (
                            refl,
                            (
                              refl,
                              (
                                refl,
                                (
                                  refl,
                                  (
                                    refl,
                                    (
                                      refl,
                                      (
                                        refl,
                                        (
                                          refl,
                                          (
                                            refl,
                                            (
                                              refl,
                                              (refl, (refl, (refl, (refl, (refl, (refl, tt)))))),
                                            ),
                                          ),
                                        ),
                                      ),
                                    ),
                                  ),
                                ),
                              ),
                            ),
                          ),
                        ),
                      ),
                    ),
                  ),
                ),
              ),
            ),
          ),
        ),
      ),
    ),
  );
  short = omega arith;
}

a_source-IsLine : IsLine (codes "/d/a.c")
a_source-IsLine = record {
  no_newline = (refl, (refl, (refl, (refl, (refl, (refl, tt))))));
  short = omega arith;
}

restore_file_to_sample-create_incremental_backup_example :
    let (t, e, count) =
      create_incremental_backup true free plus_diff no_stat 17 [] sampled_state two_files in
    (count ≡ some 1)
    × (f : Disk) × (restore_file_to_sample free plus_patch 5 t (codes "a.c") (pos 2) e ≡ (f, true))
    × (f (restored_path sampled_state (codes "a.c") 2) ≡ some (codes "y\n"))
    × (f (temp_path (stored_name sampled_state (codes "a.c")) 5) ≡ none)
    × (f (clean_path (stored_name sampled_state (codes "a.c")) 2 5) ≡ none)
unfolding init_monitor_state starts_with equal fgets_from cstr make_backup_relative_path underscores
    without_slash decimal
restore_file_to_sample-create_incremental_backup_example =
    restore_file_to_sample-create_incremental_backup free plus_diff plus_patch no_stat 5 17 []
      sampled_state (codes "a.c") [] [] (codes "x\n") (codes "y\n") two_files a_IsRestorable
      a_IsSavable refl refl refl refl tt tt plus_tool a_full-IsLine a_source-IsLine (omega arith)
      refl refl

-- An earlier sample of the file has a diff, the one asked for has none.
abbrev earlier_diff : Disk
earlier_diff = put (diff_path (codes "a.c") 1) (codes "+z\n") two_files

restore_file_to_sample-base_example :
    (f : Disk) × (restore_file_to_sample free plus_patch 5 sampled_state
        (codes "a.c")
        (pos 2)
        earlier_diff
      ≡ (f, true))
    × (f (restored_path sampled_state (codes "a.c") 2) ≡ some (codes "x\n"))
    × (f (temp_path (stored_name sampled_state (codes "a.c")) 5) ≡ none)
unfolding init_monitor_state starts_with equal make_backup_relative_path underscores without_slash
    decimal
restore_file_to_sample-base_example =
    restore_file_to_sample-base free plus_patch 5 2 sampled_state (codes "a.c") (codes "x\n")
      earlier_diff a_IsRestorable refl refl

create_full_backup-saves_example :
    let (t, e, done) =
      create_full_backup true free (codes "/d/b" ∷ codes "/d/a.c" ∷ []) sampled_state two_files in
    (e (full_path (name_of sampled_state (codes "/d/a.c"))) ≡ some (codes "y\n"))
    × (e (codes "/d/b") ≡ two_files (codes "/d/b"))
    × (t.first_backup_done ≡ true)
    × (done ≡ true)
unfolding init_monitor_state starts_with equal make_backup_relative_path underscores without_slash
create_full_backup-saves_example =
    create_full_backup-saves free sampled_state (codes "/d/b" ∷ []) (codes "/d/a.c") []
      (codes "y\n") (codes "/d/b") two_files a_IsSavable tt refl refl

create_incremental_backup-keeps_example :
    let (t, e, count) =
      create_incremental_backup true free plus_diff no_stat 17 [] sampled_state earlier_diff in
    (e (full_path (codes "a.c")) ≡ some (codes "x\n"))
    × (e (diff_path (codes "a.c") 1) ≡ earlier_diff (diff_path (codes "a.c") 1))
unfolding init_monitor_state equal
create_incremental_backup-keeps_example =
    create_incremental_backup-keeps free plus_diff no_stat true 17 1 [] sampled_state (codes "a.c")
      (codes "x\n") earlier_diff (omega arith) (omega arith) refl
