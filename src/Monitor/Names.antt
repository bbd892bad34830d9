-- ===== src/Monitor/Names.antt =====
-- task_6/homework/src/backup.c: make_backup_relative_path, the name of a file among the backups. Its
-- callers give a buffer of MAX_PATH_LEN bytes.
use sem.Base.{
  ℕ, zero, suc, ◌≤◌, ◌≡◌, refl, sym, ◌∙◌, true, false, [], ◌∷◌, ◌++◌, arith, ltb, ◌==◌,
  if◌then◌else◌, lt→ltb, ==_refl, if-both, length, length-append, take, drop, All, length-take,
}
use sem.Text.{Bytes, starts_with}
use sem.Monitor.Events.{basename}

abbrev pub name_room : ℕ
name_room = 4095

unfoldable pub without_slash : Bytes → Bytes
without_slash [] = []
without_slash (c ∷ s) = if c == b'/' then s else c ∷ s

-- The loop that replaces each slash.
unfoldable pub underscores : Bytes → Bytes
underscores [] = []
underscores (c ∷ s) = (if c == b'/' then b'_' else c) ∷ underscores s

unfoldable pub make_backup_relative_path : Bytes → Bytes → Bytes
make_backup_relative_path file_path monitored_dir = underscores (
    if starts_with monitored_dir file_path
    then if ltb (length monitored_dir) (length file_path)
      then without_slash (take name_room (drop (length monitored_dir) file_path))
      else take name_room (basename file_path)
    else take name_room file_path)

underscores-no_slash : (s : Bytes) → All (λ c. (c == b'/') ≡ false) (underscores s)
unfolding underscores
underscores-no_slash [] = tt
underscores-no_slash (c ∷ s) = (
  if-both (λ (d : ℕ). (d == b'/') ≡ false) (c == b'/') (λ _. refl) (λ e. e),
  underscores-no_slash s,
)

length-underscores : (s : Bytes) → length (underscores s) ≡ length s
unfolding underscores
length-underscores [] = refl
length-underscores (c ∷ s) = omega (arith, length-underscores s)

length-without_slash : (s : Bytes) → length (without_slash s) ≤ length s
unfolding without_slash
length-without_slash [] = omega arith
length-without_slash (c ∷ s) =
    if-both (λ (t : Bytes). length t ≤ suc (length s)) (c == b'/') (λ _. omega arith)
      (λ _. omega arith)

starts_with-append : (p s : Bytes) → starts_with p (p ++ s) ≡ true
unfolding starts_with
starts_with-append [] s = refl
starts_with-append (c ∷ p) s = ground (arith, starts_with-append p s, ==_refl c)

drop-append : (p s : Bytes) → drop (length p) (p ++ s) ≡ s
drop-append [] s = refl
drop-append (c ∷ p) s = drop-append p s

taken-fits : (n : ℕ) (s : Bytes) → length (underscores (take n s)) ≤ n
taken-fits n s = omega (arith, length-underscores (take n s), length-take n s)

stripped-fits : (n : ℕ) (s : Bytes) → length (underscores (without_slash (take n s))) ≤ n
stripped-fits n s = omega (
  arith,
  length-underscores (without_slash (take n s)),
  length-without_slash (take n s),
  length-take n s,
)

-- The name of a backup is one component of a path: it has no slash, and it fits the buffer.
pub make_backup_relative_path-one_name :
    (file_path monitored_dir : Bytes)
    → let name = make_backup_relative_path file_path monitored_dir in
      All (λ c. (c == b'/') ≡ false) name × (length name ≤ name_room)
unfolding make_backup_relative_path
make_backup_relative_path-one_name file_path monitored_dir = (underscores-no_slash _, fits)
  where
    fits : length (make_backup_relative_path file_path monitored_dir) ≤ name_room
    fits =
        if-both (λ (t : Bytes). length (underscores t) ≤ name_room)
          (starts_with monitored_dir file_path)
          (λ _.
            if-both (λ (t : Bytes). length (underscores t) ≤ name_room)
              (ltb (length monitored_dir) (length file_path))
              (λ _. stripped-fits name_room (drop (length monitored_dir) file_path))
              (λ _. taken-fits name_room (basename file_path)))
          (λ _. taken-fits name_room file_path)

-- A file below the monitored directory is named by its path from there, its slashes replaced, as far
-- as the buffer goes.
pub make_backup_relative_path-below :
    (dir rest : Bytes)
    → make_backup_relative_path (dir ++ b'/' ∷ rest) dir ≡ underscores (take 4094 rest)
unfolding make_backup_relative_path without_slash
make_backup_relative_path-below dir rest =
    let longer : ltb (length dir) (length (dir ++ b'/' ∷ rest)) ≡ true =
      lt→ltb (length dir) (length (dir ++ b'/' ∷ rest))
        (omega (arith, length-append dir (b'/' ∷ rest))) in
    rw (starts_with-append dir (b'/' ∷ rest), longer, drop-append dir (b'/' ∷ rest))

underscores-take_slash :
    (n : ℕ) (a b : Bytes)
    → underscores (take n (a ++ b'/' ∷ b)) ≡ underscores (take n (a ++ b'_' ∷ b))
unfolding underscores
underscores-take_slash zero a b = refl
underscores-take_slash (suc n) [] b = refl
underscores-take_slash (suc n) (c ∷ a) b = rw (underscores-take_slash n a b)

-- Two files of the monitored directory share a backup if their paths differ in a slash of the one
-- where the other has an underscore.
pub make_backup_relative_path_shared :
    (dir a b : Bytes)
    → make_backup_relative_path (dir ++ b'/' ∷ (a ++ b'/' ∷ b)) dir
      ≡ make_backup_relative_path (dir ++ b'/' ∷ (a ++ b'_' ∷ b)) dir
make_backup_relative_path_shared dir a b =
    make_backup_relative_path-below dir (a ++ b'/' ∷ b)
    ∙ underscores-take_slash 4094 a b
    ∙ sym (make_backup_relative_path-below dir (a ++ b'_' ∷ b))
