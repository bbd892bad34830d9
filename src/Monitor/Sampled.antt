-- ===== src/Monitor/Sampled.antt =====
-- The diff that a sample keeps of a changed file: create_incremental_backup of
-- task_6/homework/src/backup.c.
use sem.Monitor.Saved.{name_of, IsSavable}
use sem.Monitor.Paths.{
  IsOutside-equal, full_path-diff_path, full_path-apart, diff_path-full_path, diff_path-apart,
}
use sem.Monitor.Disk.{Disk, Access, put_ne, put_self, copy_file-cases}
use sem.Monitor.Backups.{
  full_path, diff_path, is_cut, is_debug_log, diff_command, write_diff, back_up_change,
  back_up_changes, with_backup,
}
use sem.Base.{
  ℕ, ◌≡◌, refl, ◌∙◌, inl, inr, true, false, Option, some, List, [], ◌∷◌, Bool-cases, Option-cases,
  All, ◌||◌, ◌++◌, if-both, ap, All-imp,
}
use sem.Text.{Bytes, equal, before}
use sem.Monitor.Diffs.{save_diff}
use sem.Monitor.State.{MonitorState}

module _ (access : Access) (popen : Bytes → Disk → Option Bytes) (now : ℕ) (s : MonitorState) where
  write_diff-others :
      (old_file new_file path q : Bytes) (n : ℕ) (d : Disk)
      → equal q path ≡ false
      → write_diff access popen old_file new_file path now n d q ≡ d q
  unfolding write_diff
  write_diff-others old_file new_file path q n d apart =
      elim (Option-cases (popen (diff_command old_file new_file) d)) [
        | inl failed ↦ rw (write_diff, failed)
        | inr (printed, ran) ↦ elim (Bool-cases (access.writes path)) [
          | inl writable ↦
              rw (write_diff, ran, writable)
                (put_ne path (save_diff printed old_file new_file now n) q d apart)
          | inr unwritable ↦ rw (write_diff, ran, unwritable)
        ]
      ]

  with_backup-others :
      (p to q : Bytes) (d : Disk) → equal q to ≡ false → with_backup access p to d q ≡ d q
  unfolding with_backup
  with_backup-others p to q d apart = elim (Option-cases (d to)) [
    | inr (old, there) ↦ rw (with_backup, there)
    | inl gone ↦ elim (copy_file-cases access p to d) [
      | inl failed ↦ rw (with_backup, gone, failed)
      | inr (content, copied) ↦ rw (with_backup, gone, copied) (put_ne to content q d apart)
    ]
  ]

  with_backup-there :
      (p to old : Bytes) (d : Disk) → d to ≡ some old → with_backup access p to d ≡ d
  unfolding with_backup
  with_backup-there p to old d there = rw (with_backup, there) refl

  write_diff-there :
      (old_file new_file path printed : Bytes) (n : ℕ) (d : Disk)
      → access.writes path ≡ true
      → popen (diff_command old_file new_file) d ≡ some printed
      → write_diff access popen old_file new_file path now n d path
        ≡ some (save_diff printed old_file new_file now n)
  unfolding write_diff
  write_diff-there old_file new_file path printed n d writable ran =
      rw (write_diff, ran, writable) (put_self path (save_diff printed old_file new_file now n) d)

  -- A file that is no backup of `p` and not its diff stays as it is.
  pub back_up_change-others :
      (p q : Bytes) (d : Disk)
      → equal q (full_path (name_of s p)) ≡ false
      → equal q (diff_path (name_of s p) s.current_sample) ≡ false
      → back_up_change access popen now s p d q ≡ d q
  unfolding back_up_change
  back_up_change-others p q d no_full no_diff =
      let old = full_path (name_of s p) in
      let diff = diff_path (name_of s p) s.current_sample in
      let kept = with_backup-others p old q d no_full in
      if-both (λ (e : Disk). e q ≡ d q) (is_debug_log p || is_cut old) (λ _. refl)
        (λ _.
          if-both (λ (e : Disk). e q ≡ d q) (is_cut diff) (λ _. kept)
            (λ _.
              write_diff-others old p diff q s.current_sample (with_backup access p old d) no_diff
              ∙ kept))

  pub back_up_changes-others :
      (ps : List Bytes) (q : Bytes) (d : Disk)
      → All (λ p. equal q (full_path (name_of s p)) ≡ false) ps
      → All (λ p. equal q (diff_path (name_of s p) s.current_sample) ≡ false) ps
      → back_up_changes access popen now s ps d q ≡ d q
  unfolding back_up_changes
  back_up_changes-others [] q d h k = refl
  back_up_changes-others (p ∷ ps) q d h k =
      back_up_changes-others ps q (back_up_change access popen now s p d) h.1 k.1
      ∙ back_up_change-others p q d h.0 k.0

  -- With a backup of the file and both paths whole, the diff is written.
  back_up_change-diff :
      (p old printed : Bytes) (d : Disk)
      → is_debug_log p ≡ false
      → is_cut (full_path (name_of s p)) ≡ false
      → is_cut (diff_path (name_of s p) s.current_sample) ≡ false
      → access.writes (diff_path (name_of s p) s.current_sample) ≡ true
      → d (full_path (name_of s p)) ≡ some old
      → popen (diff_command (full_path (name_of s p)) p) d ≡ some printed
      → back_up_change access popen now s p d (diff_path (name_of s p) s.current_sample)
        ≡ some (save_diff printed (full_path (name_of s p)) p now s.current_sample)
  unfolding back_up_change
  back_up_change-diff p old printed d no_log fits diff_fits writable there ran =
      let full = full_path (name_of s p) in
      let path = diff_path (name_of s p) s.current_sample in
      rw (no_log, fits, diff_fits)
        (ap (λ (e : Disk). write_diff access popen full p path now s.current_sample e path)
            (with_backup-there p full old d there)
          ∙ write_diff-there full p path printed s.current_sample d writable ran)

  -- The backup that is there stays.
  pub back_up_change-full :
      (p old : Bytes) (d : Disk)
      → d (full_path (name_of s p)) ≡ some old
      → back_up_change access popen now s p d (full_path (name_of s p)) ≡ some old
  unfolding back_up_change
  back_up_change-full p old d there =
      let full = full_path (name_of s p) in
      let diff = diff_path (name_of s p) s.current_sample in
      let kept = ap (λ (e : Disk). e full) (with_backup-there p full old d there) ∙ there in
      if-both (λ (e : Disk). e full ≡ some old) (is_debug_log p || is_cut full) (λ _. there)
        (λ _.
          if-both (λ (e : Disk). e full ≡ some old) (is_cut diff) (λ _. kept)
            (λ _.
              write_diff-others full p diff full s.current_sample (with_backup access p full d)
                (full_path-diff_path (name_of s p) (name_of s p) s.current_sample)
              ∙ kept))

  -- The same in a list of changes where no other file has that name. What diff prints may depend on
  -- the other files, and is good in a sense that is given.
  pub back_up_changes-diff :
      (before : List Bytes) (p : Bytes) (later : List Bytes) (old new : Bytes) (d : Disk)
      (IsGood : Bytes → Type 0)
      → IsSavable access s p
      → is_cut (diff_path (name_of s p) s.current_sample) ≡ false
      → access.writes (diff_path (name_of s p) s.current_sample) ≡ true
      → All (λ r. equal (name_of s p) (name_of s r) ≡ false) before
      → All (λ r. equal (name_of s p) (name_of s r) ≡ false) later
      → d (full_path (name_of s p)) ≡ some old
      → d p ≡ some new
      → ((e : Disk)
          → e (full_path (name_of s p)) ≡ some old
          → e p ≡ some new
          → (printed : Bytes) × (popen (diff_command (full_path (name_of s p)) p) e ≡ some printed)
            × IsGood printed)
      → let e = back_up_changes access popen now s (before ++ p ∷ later) d in
        (printed : Bytes) × IsGood printed
        × (e (full_path (name_of s p)) ≡ some old)
        × (e (diff_path (name_of s p) s.current_sample)
            ≡ some (save_diff printed (full_path (name_of s p)) p now s.current_sample))
  unfolding back_up_changes
  back_up_changes-diff [] p later old new d IsGood v diff_fits writable none_before apart there
        is_new ran =
      let full = full_path (name_of s p) in
      let diff = diff_path (name_of s p) s.current_sample in
      let e = back_up_change access popen now s p d in
      let (printed, run, good) = ran d there is_new in
      (
        printed,
        good,
        back_up_changes-others later full e
              (All-imp (λ q h. full_path-apart (name_of s p) (name_of s q) h) later apart)
              (All-imp (λ q _. full_path-diff_path (name_of s p) (name_of s q) s.current_sample)
                later apart)
            ∙ back_up_change-full p old d there,
        back_up_changes-others later diff e
              (All-imp (λ q _. diff_path-full_path (name_of s p) (name_of s q) s.current_sample)
                later apart)
              (All-imp (λ q h. diff_path-apart (name_of s p) (name_of s q) s.current_sample h) later
                apart)
            ∙ back_up_change-diff p old printed d v.no_log v.fits diff_fits writable there run,
      )
  back_up_changes-diff (b ∷ before) p later old new d IsGood v diff_fits writable none_before apart
        there is_new ran =
      back_up_changes-diff before p later old new (back_up_change access popen now s b d) IsGood v
        diff_fits writable none_before.1 apart
        (back_up_change-others b (full_path (name_of s p)) d
            (full_path-apart (name_of s p) (name_of s b) none_before.0)
            (full_path-diff_path (name_of s p) (name_of s b) s.current_sample)
          ∙ there)
        (back_up_change-others b p d (IsOutside-equal p _ v.outside) (IsOutside-equal p _ v.outside)
          ∙ is_new)
        ran
