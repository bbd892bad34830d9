-- ===== src/Monitor/Paths.antt =====
-- The paths below BACKUP_DIR that task_6/homework/src/backup.c makes are different files.
use sem.Monitor.Backups.{backup_dir, full_path, diff_path}
use sem.Monitor.Restore.{temp_path, clean_path}
use sem.Base.{
  ℕ, ◌≡◌, refl, ◌∙◌, inl, inr, true, false, [], ◌∷◌, ◌++◌, arith, ◌==◌, ==_refl, Bool-cases, suc,
  ap, ◌≢◌, length, length-append,
}
use sem.Text.{Bytes, codes, equal, starts_with}
use sem.Numbers.{decimal}
use sem.Monitor.Queue.{equal_sym}

-- A file that the daemon does not keep below BACKUP_DIR.
abbrev pub IsOutside : Bytes → Type 0
IsOutside path = starts_with backup_dir path ≡ false

starts_with-equal :
    (prefix p rest : Bytes) → starts_with prefix p ≡ false → equal p (prefix ++ rest) ≡ false
unfolding equal starts_with
starts_with-equal [] p rest h = cc
starts_with-equal (c ∷ prefix) [] rest h = refl
starts_with-equal (c ∷ prefix) (x ∷ p) rest h = elim (Bool-cases (c == x)) [
  | inl e ↦
      let same : (x == c) ≡ true = ground arith in
      let later : starts_with prefix p ≡ false = rw e at h in
      rw same (starts_with-equal prefix p rest later)
  | inr e ↦ let apart : (x == c) ≡ false = ground arith in rw apart
]

pub IsOutside-equal : (p rest : Bytes) → IsOutside p → equal p (backup_dir ++ rest) ≡ false
IsOutside-equal p rest h = starts_with-equal backup_dir p rest h

-- full_, diff_, temp_restore_ and temp_clean_diff_ tell the files apart.
pub full_path-diff_path : (p q : Bytes) (n : ℕ) → equal (full_path p) (diff_path q n) ≡ false
unfolding equal
full_path-diff_path p q n = refl

pub diff_path-full_path : (p q : Bytes) (n : ℕ) → equal (diff_path p n) (full_path q) ≡ false
unfolding equal
diff_path-full_path p q n = refl

pub full_path-temp_path : (p q : Bytes) (pid : ℕ) → equal (full_path p) (temp_path q pid) ≡ false
unfolding equal
full_path-temp_path p q pid = refl

pub diff_path-temp_path :
    (p q : Bytes) (n pid : ℕ) → equal (diff_path p n) (temp_path q pid) ≡ false
unfolding equal
diff_path-temp_path p q n pid = refl

pub temp_path-clean_path :
    (p q : Bytes) (n pid : ℕ) → equal (temp_path p pid) (clean_path q n pid) ≡ false
unfolding equal
temp_path-clean_path p q n pid = refl

pub equal-prefix : (prefix p q : Bytes) → equal (prefix ++ p) (prefix ++ q) ≡ equal p q
unfolding equal
equal-prefix [] p q = refl
equal-prefix (c ∷ prefix) p q = rw (==_refl c) (equal-prefix prefix p q)

pub full_path-apart : (p q : Bytes) → equal p q ≡ false → equal (full_path p) (full_path q) ≡ false
full_path-apart p q h = equal-prefix (backup_dir ++ codes "/full_") p q ∙ h

equal-length : (a b : Bytes) → length a ≢ length b → equal a b ≡ false
unfolding equal
equal-length [] [] h = absurd (h refl)
equal-length [] (y ∷ b) h = refl
equal-length (x ∷ a) [] h = refl
equal-length (x ∷ a) (y ∷ b) h = elim (Bool-cases (x == y)) [
  | inl e ↦ rw e (equal-length a b (λ same. h (ap suc same)))
  | inr e ↦ rw e
]

equal-suffix : (p q suffix : Bytes) → equal p q ≡ false → equal (p ++ suffix) (q ++ suffix) ≡ false
unfolding equal
equal-suffix [] [] suffix h = cc
equal-suffix [] (y ∷ q) suffix h =
    equal-length suffix (y ∷ (q ++ suffix)) (omega (arith, length-append q suffix))
equal-suffix (x ∷ p) [] suffix h =
    equal-length (x ∷ (p ++ suffix)) suffix (omega (arith, length-append p suffix))
equal-suffix (x ∷ p) (y ∷ q) suffix h = elim (Bool-cases (x == y)) [
  | inl e ↦ let later : equal p q ≡ false = rw e at h in rw e (equal-suffix p q suffix later)
  | inr e ↦ rw e
]

pub diff_path-apart :
    (p q : Bytes) (n : ℕ) → equal p q ≡ false → equal (diff_path p n) (diff_path q n) ≡ false
diff_path-apart p q n h =
    equal-prefix (backup_dir ++ codes "/diff_") (p ++ (codes "_sample_" ++ decimal n))
      (q ++ (codes "_sample_" ++ decimal n))
    ∙ equal-suffix p q (codes "_sample_" ++ decimal n) h

pub temp_path-outside :
    (path p : Bytes) (pid : ℕ) → IsOutside path → equal (temp_path p pid) path ≡ false
temp_path-outside path p pid h = equal_sym (temp_path p pid) path ∙ IsOutside-equal path _ h

pub clean_path-outside :
    (path p : Bytes) (n pid : ℕ) → IsOutside path → equal (clean_path p n pid) path ≡ false
clean_path-outside path p n pid h = equal_sym (clean_path p n pid) path ∙ IsOutside-equal path _ h
