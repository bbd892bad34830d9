-- ===== src/Monitor/Saved.antt =====
-- What the full backup of task_6/homework/src/backup.c keeps.
use sem.Monitor.Paths.{IsOutside, IsOutside-equal, full_path-apart}
use sem.Monitor.Disk.{Disk, Access, put_self, put_ne, copy_file_lem, copy_file-cases}
use sem.Monitor.Backups.{
  full_path, is_cut, is_debug_log, back_up_file, back_up_files, create_full_backup,
}
use sem.Base.{
  ◌≡◌, refl, ◌∙◌, inl, inr, true, false, ◌||◌, some, List, [], ◌∷◌, ◌++◌, Bool-cases, All, All-imp,
}
use sem.Text.{Bytes, equal, before}
use sem.Monitor.Names.{make_backup_relative_path}
use sem.Monitor.State.{MonitorState}

abbrev pub name_of : MonitorState → Bytes → Bytes
name_of s path = make_backup_relative_path path s.monitored_dir

-- A file that a backup can be made of.
pub record IsSavable (access : Access) (s : MonitorState) (path : Bytes) : Type 0 where
  pub no_log : is_debug_log path ≡ false
  pub fits : is_cut (full_path (name_of s path)) ≡ false
  pub readable : access.reads path ≡ true
  pub writable : access.writes (full_path (name_of s path)) ≡ true
  pub outside : IsOutside path

back_up_file-others :
    (access : Access) (s : MonitorState) (p q : Bytes) (d : Disk)
    → equal q (full_path (name_of s p)) ≡ false
    → back_up_file access s.monitored_dir p d q ≡ d q
unfolding back_up_file
back_up_file-others access s p q d apart =
    elim (Bool-cases (is_debug_log p || is_cut (full_path (name_of s p)))) [
      | inl skipped ↦ rw skipped
      | inr kept ↦ elim (copy_file-cases access p (full_path (name_of s p)) d) [
        | inl failed ↦ rw (kept, failed)
        | inr (content, copied) ↦ rw (kept, copied) (put_ne _ content q d apart)
      ]
    ]

back_up_files-others :
    (access : Access) (s : MonitorState) (ps : List Bytes) (q : Bytes) (d : Disk)
    → All (λ p. equal q (full_path (name_of s p)) ≡ false) ps
    → back_up_files access s.monitored_dir ps d q ≡ d q
unfolding back_up_files
back_up_files-others access s [] q d h = refl
back_up_files-others access s (p ∷ ps) q d h =
    back_up_files-others access s ps q (back_up_file access s.monitored_dir p d) h.1
    ∙ back_up_file-others access s p q d h.0

back_up_file-saves :
    (access : Access) (s : MonitorState) (p content : Bytes) (d : Disk)
    → IsSavable access s p
    → d p ≡ some content
    → back_up_file access s.monitored_dir p d (full_path (name_of s p)) ≡ some content
unfolding back_up_file
back_up_file-saves access s p content d v there =
    let to = full_path (name_of s p) in
    rw
      (
        v.no_log,
        v.fits,
        copy_file_lem access p to content d v.readable there v.writable
            (IsOutside-equal p _ v.outside),
      )
      (put_self to content d)

outside_all :
    (s : MonitorState) (ps : List Bytes) (q : Bytes)
    → IsOutside q
    → All (λ p. equal q (full_path (name_of s p)) ≡ false) ps
outside_all s [] q h = tt
outside_all s (p ∷ ps) q h = (IsOutside-equal q _ h, outside_all s ps q h)

back_up_files-saves :
    (access : Access) (s : MonitorState) (before : List Bytes) (p : Bytes) (later : List Bytes)
    (content : Bytes) (d : Disk)
    → IsSavable access s p
    → All (λ q. equal (name_of s p) (name_of s q) ≡ false) later
    → d p ≡ some content
    → back_up_files access s.monitored_dir (before ++ p ∷ later) d (full_path (name_of s p))
      ≡ some content
unfolding back_up_files
back_up_files-saves access s [] p later content d v apart there =
    back_up_files-others access s later (full_path (name_of s p))
      (back_up_file access s.monitored_dir p d)
      (All-imp (λ q h. full_path-apart (name_of s p) (name_of s q) h) later apart)
    ∙ back_up_file-saves access s p content d v there
back_up_files-saves access s (q ∷ before) p later content d v apart there =
    back_up_files-saves access s before p later content (back_up_file access s.monitored_dir q d) v
      apart (back_up_file-others access s q p d (IsOutside-equal p _ v.outside) ∙ there)

-- The full backup holds every file as it was, unless a later one has the same name among the
-- backups, if the file is no debug.log, lies outside BACKUP_DIR, its path among the backups fits, and
-- both files can be opened. It changes no file outside BACKUP_DIR, and the state knows of it.
pub create_full_backup-saves :
    (access : Access) (s : MonitorState) (before : List Bytes) (p : Bytes) (later : List Bytes)
    (content q : Bytes) (d : Disk)
    → IsSavable access s p
    → All (λ r. equal (name_of s p) (name_of s r) ≡ false) later
    → d p ≡ some content
    → IsOutside q
    → let (t, e, done) = create_full_backup true access (before ++ p ∷ later) s d in
      (e (full_path (name_of s p)) ≡ some content)
      × (e q ≡ d q)
      × (t.first_backup_done ≡ true)
      × (done ≡ true)
unfolding create_full_backup
create_full_backup-saves access s [] p later content q d v apart there out_of = (
  back_up_files-saves access s [] p later content d v apart there,
  back_up_files-others access s (p ∷ later) q d (outside_all s (p ∷ later) q out_of),
  refl,
  refl,
)
create_full_backup-saves access s (b ∷ before) p later content q d v apart there out_of = (
  back_up_files-saves access s (b ∷ before) p later content d v apart there,
  back_up_files-others access s (b ∷ before ++ p ∷ later) q d
      (outside_all s (b ∷ before ++ p ∷ later) q out_of),
  refl,
  refl,
)
