-- ===== src/Monitor/Kept.antt =====
-- What a later sample leaves as it is: create_incremental_backup of task_6/homework/src/backup.c.
use sem.Monitor.Saved.{name_of}
use sem.Monitor.Sampled.{back_up_change-full, back_up_change-others, back_up_changes-others}
use sem.Monitor.Settled.{equal-same}
use sem.Monitor.Paths.{equal-prefix, full_path-diff_path, diff_path-full_path, full_path-apart}
use sem.Monitor.Disk.{Disk, Access}
use sem.Monitor.Changes.{Stat, find_changed_files, get_changed_files_from_queue, has_any}
use sem.Monitor.Backups.{
  backup_dir, full_path, diff_path, back_up_change, back_up_changes, create_incremental_backup,
}
use sem.Base.{
  ℕ, zero, suc, ◌+◌, ◌%◌, ◌/◌, ◌<◌, ◌≡◌, refl, sym, ap, ◌∙◌, subst, Bool, true, false, ◌&&◌, Option,
  some, none, List, [], ◌∷◌, ◌++◌, ◌==◌, ltb, arith, All, append_assoc, Bool-cases, inl, inr,
  if-both, if◌then◌else◌,
}
use sem.Text.{Bytes, codes, equal}
use sem.Numbers.{decimal, decimal_onto, size_mod, scan_size, scan_size-decimal}
use sem.Monitor.State.{MonitorState}

-- What stands behind the last underscore, or `last`.
after_bar : Bytes → Bytes → Bytes
after_bar last [] = last
after_bar last (c ∷ s) = if c == b'_' then after_bar s s else after_bar last s

HasNoBar : Bytes → Type 0
HasNoBar s = All (λ c. (c == b'_') ≡ false) s

after_bar-HasNoBar : (last s : Bytes) → HasNoBar s → after_bar last s ≡ last
unfolding after_bar HasNoBar
after_bar-HasNoBar last [] h = refl
after_bar-HasNoBar last (c ∷ s) h = rw h.0 (after_bar-HasNoBar last s h.1)

after_bar-append : (last front s : Bytes) → HasNoBar s → after_bar last (front ++ b'_' ∷ s) ≡ s
unfolding after_bar
after_bar-append last [] s h = after_bar-HasNoBar s s h
after_bar-append last (c ∷ front) s h =
    if-both (λ (r : Bytes). r ≡ s) (c == b'_') (λ _. after_bar-append (front ++ b'_' ∷ s) front s h)
      (λ _. after_bar-append last front s h)

decimal_onto-HasNoBar :
    (fuel n : ℕ) (acc : Bytes) → HasNoBar acc → HasNoBar (decimal_onto fuel n acc)
unfolding decimal_onto HasNoBar
decimal_onto-HasNoBar zero n acc h = h
decimal_onto-HasNoBar (suc fuel) n acc h =
    let digit : ((48 + n % 10) == b'_') ≡ false = ground arith in
    if-both (λ (r : Bytes). HasNoBar r) (ltb n 10) (λ small. (ground arith, h))
      (λ _. decimal_onto-HasNoBar fuel (n / 10) ((48 + n % 10) ∷ acc) (digit, h))

decimal-HasNoBar : (n : ℕ) → HasNoBar (decimal n)
unfolding decimal HasNoBar
decimal-HasNoBar n = decimal_onto-HasNoBar (suc n) n [] tt

number_of : Option (ℕ × Bytes) → ℕ
number_of none = 0
number_of (some (n, rest)) = n

decimal-same : (n m : ℕ) → n < size_mod → m < size_mod → decimal n ≡ decimal m → n ≡ m
unfolding number_of
decimal-same n m h k e = ap number_of (
    sym (scan_size-decimal n [] h tt)
    ∙ ap (λ b. scan_size (b ++ [])) e
    ∙ scan_size-decimal m [] k tt)

-- The number behind the last underscore tells the diffs of two samples apart, whatever the files.
diff_path-samples :
    (p q : Bytes) (n m : ℕ) → n < m → m < size_mod → equal (diff_path p n) (diff_path q m) ≡ false
diff_path-samples p q n m before small = elim (Bool-cases (equal (diff_path p n) (diff_path q m))) [
  | inr apart ↦ apart
  | inl same ↦
      let tails : equal (p ++ (codes "_sample" ++ b'_' ∷ decimal n))
            (q ++ (codes "_sample" ++ b'_' ∷ decimal m))
          ≡ true =
        sym (
          equal-prefix (backup_dir ++ codes "/diff_") (p ++ (codes "_sample" ++ b'_' ∷ decimal n))
            (q ++ (codes "_sample" ++ b'_' ∷ decimal m)))
        ∙ same in
      let e =
        append_assoc p (codes "_sample") (b'_' ∷ decimal n)
        ∙ equal-same _ _ tails
        ∙ sym (append_assoc q (codes "_sample") (b'_' ∷ decimal m)) in
      let numbers =
        sym (after_bar-append [] (p ++ codes "_sample") (decimal n) (decimal-HasNoBar n))
        ∙ ap (after_bar []) e
        ∙ after_bar-append [] (q ++ codes "_sample") (decimal m) (decimal-HasNoBar m) in
      absurd (omega (arith, decimal-same n m (omega arith) small numbers))
]

module _ (access : Access) (popen : Bytes → Disk → Option Bytes) (now : ℕ) (s : MonitorState) where
  back_up_change-keeps :
      (q rel old : Bytes) (d : Disk)
      → d (full_path rel) ≡ some old
      → back_up_change access popen now s q d (full_path rel) ≡ some old
  back_up_change-keeps q rel old d there = elim (Bool-cases (equal rel (name_of s q))) [
    | inl same ↦
        let e = equal-same rel (name_of s q) same in
        subst (λ r. back_up_change access popen now s q d (full_path r) ≡ some old) (sym e)
          (back_up_change-full access popen now s q old d
            (subst (λ r. d (full_path r) ≡ some old) e there))
    | inr apart ↦
        back_up_change-others access popen now s q (full_path rel) d
          (full_path-apart rel (name_of s q) apart)
          (full_path-diff_path rel (name_of s q) s.current_sample)
        ∙ there
  ]

  back_up_changes-keeps :
      (qs : List Bytes) (rel old : Bytes) (d : Disk)
      → d (full_path rel) ≡ some old
      → back_up_changes access popen now s qs d (full_path rel) ≡ some old
  unfolding back_up_changes
  back_up_changes-keeps [] rel old d there = there
  back_up_changes-keeps (q ∷ qs) rel old d there =
      back_up_changes-keeps qs rel old (back_up_change access popen now s q d)
        (back_up_change-keeps q rel old d there)

All-every : (P : Bytes → Type 0) (qs : List Bytes) → ((q : Bytes) → P q) → All P qs
All-every P [] h = tt
All-every P (q ∷ qs) h = (h q, All-every P qs h)

find_changed_files-current_sample :
    (stat : Bytes → Option Stat) (current : List Bytes) (s : MonitorState)
    → (find_changed_files stat current s).0.current_sample ≡ s.current_sample
unfolding find_changed_files get_changed_files_from_queue
find_changed_files-current_sample stat current s =
    if-both (λ (x : MonitorState × List Bytes). x.0.current_sample ≡ s.current_sample)
      (s.inotify_open && has_any s.changed_files_queue) (λ _. refl) (λ _. refl)

-- A sample changes neither a full backup that is there nor what was kept for an earlier sample, for
-- any file, whatever has changed, and whichever files can be opened, as long as the numbers of samples
-- are below 2 ^ 64.
pub create_incremental_backup-keeps :
    (access : Access) (popen : Bytes → Disk → Option Bytes) (stat : Bytes → Option Stat)
    (ready : Bool) (now n : ℕ) (current : List Bytes) (s : MonitorState) (rel old : Bytes)
    (d : Disk)
    → n < s.current_sample
    → s.current_sample < size_mod
    → d (full_path rel) ≡ some old
    → let (t, e, count) = create_incremental_backup ready access popen stat now current s d in
      (e (full_path rel) ≡ some old) × (e (diff_path rel n) ≡ d (diff_path rel n))
unfolding create_incremental_backup
create_incremental_backup-keeps access popen stat ready now n current s rel old d earlier small
      there =
    let found = find_changed_files stat current s in
    let number = find_changed_files-current_sample stat current s in
    let apart = λ (q : Bytes).
      diff_path-samples rel (name_of found.0 q) n found.0.current_sample (omega (arith, number))
        (omega (arith, number)) in
    if-both
      (λ (x : MonitorState × Disk × Option ℕ).
        (x.1 (full_path rel) ≡ some old) × (x.1 (diff_path rel n) ≡ d (diff_path rel n)))
      ready
      (λ _. (
        back_up_changes-keeps access popen now found.0 found.1 rel old d there,
        back_up_changes-others access popen now found.0 found.1 (diff_path rel n) d
            (All-every _ found.1 (λ q. diff_path-full_path rel (name_of found.0 q) n))
            (All-every _ found.1 apart),
      ))
      (λ _. (there, refl))
