-- ===== src/Monitor/Settled.antt =====
-- What one look at a file leaves for the next: find_changed_files of task_6/homework/src/backup.c.
use sem.Monitor.Changes.{Stat, differs, renewed, new_entry, check_file}
use sem.Base.{
  ◌≤◌, ◌≡◌, refl, inl, inr, true, false, List, [], ◌∷◌, ◌==◌, ==_iff, ==_refl, Bool-cases, length,
  take_all, sym, ap, ◌∙◌, Bool,
}
use sem.Text.{Bytes, equal}
use sem.Monitor.Queue.{equal_refl}
use sem.Monitor.State.{FileInfo}

pub equal-same : (a b : Bytes) → equal a b ≡ true → a ≡ b
unfolding equal
equal-same [] [] h = refl
equal-same [] (y ∷ b) h = cc
equal-same (x ∷ a) [] h = cc
equal-same (x ∷ a) (y ∷ b) h = elim (Bool-cases (x == y)) [
  | inl e ↦
      let rest : equal a b ≡ true = rw e at h in
      ap (λ z. z ∷ a) ((==_iff x y).0 e) ∙ ap (λ c. y ∷ c) (equal-same a b rest)
  | inr e ↦ let no : false ≡ true = rw e at h in cc
]

-- Looking at the file again changes nothing.
abbrev pub IsSettled : Bytes → Stat → List FileInfo → Type 0
IsSettled p st fs = check_file p st fs ≡ (false, fs)

renewed-settled : (f : FileInfo) (st : Stat) → differs (renewed f st) st ≡ false
renewed-settled f st = rw (==_refl st.mtime, ==_refl st.size)

here-IsSettled :
    (p : Bytes) (st : Stat) (f : FileInfo) (fs : List FileInfo)
    → equal f.path p ≡ true
    → IsSettled p st (renewed f st ∷ fs)
unfolding check_file
here-IsSettled p st f fs same = rw (same, renewed-settled f st)

there-IsSettled :
    (p : Bytes) (st : Stat) (f : FileInfo) (fs : List FileInfo)
    → equal f.path p ≡ false
    → IsSettled p st fs
    → IsSettled p st (f ∷ fs)
unfolding check_file
there-IsSettled p st f fs apart h = rw (check_file, apart, h)

pub check_file-IsSettled :
    (p : Bytes) (st : Stat) (fs : List FileInfo)
    → length p ≤ 4095
    → IsSettled p st (check_file p st fs).1
unfolding check_file
check_file-IsSettled p st [] short =
    here-IsSettled p st (new_entry p st) [] (rw (take_all p 4095 short) (equal_refl p))
check_file-IsSettled p st (f ∷ fs) short = elim (Bool-cases (equal f.path p)) [
  | inl same ↦ rw (check_file, same) (here-IsSettled p st f fs same)
  | inr apart ↦
      rw (check_file, apart) (there-IsSettled p st f _ apart (check_file-IsSettled p st fs short))
]

tail_or : List FileInfo → List FileInfo → List FileInfo
tail_or d [] = d
tail_or d (f ∷ fs) = fs

head_or : FileInfo → List FileInfo → FileInfo
head_or d [] = d
head_or d (f ∷ fs) = f

-- A settled record behind one of another file.
behind-IsSettled :
    (p : Bytes) (st : Stat) (f : FileInfo) (fs : List FileInfo)
    → equal f.path p ≡ false
    → IsSettled p st (f ∷ fs)
    → IsSettled p st fs
unfolding check_file tail_or
behind-IsSettled p st f fs apart h =
    let rest = check_file p st fs in
    let opened : ◌≡◌ {A = Bool × List FileInfo} (rest.0, f ∷ rest.1) (false, f ∷ fs) =
      rw (check_file, apart) at h in
    ap (λ r. (r.0, tail_or [] r.1)) opened

-- A settled record does so whatever is behind it.
front-IsSettled :
    (p : Bytes) (st : Stat) (f : FileInfo) (fs gs : List FileInfo)
    → equal f.path p ≡ true
    → IsSettled p st (f ∷ fs)
    → IsSettled p st (f ∷ gs)
unfolding check_file head_or
front-IsSettled p st f fs gs at_p h =
    let opened : ◌≡◌ {A = Bool × List FileInfo} (differs f st, renewed f st ∷ fs) (false, f ∷ fs) =
      rw (check_file, at_p) at h in
    rw (check_file, at_p) (ap (λ r. (r.0, head_or f r.1 ∷ gs)) opened)

-- Looking at one file leaves every other settled.
pub check_file-keeps :
    (p q : Bytes) (st st2 : Stat) (fs : List FileInfo)
    → (p ≡ q → st ≡ st2)
    → IsSettled p st fs
    → IsSettled p st (check_file q st2 fs).1
unfolding check_file
check_file-keeps p q st st2 [] same h = let no : true ≡ false = ap (λ r. r.0) h in cc
check_file-keeps p q st st2 (f ∷ fs) same h = elim (Bool-cases (equal f.path q)) [
  | inl at_q ↦ elim (Bool-cases (equal f.path p)) [
    | inl at_p ↦
        let e : st ≡ st2 = same (sym (equal-same f.path p at_p) ∙ equal-same f.path q at_q) in
        rw (check_file, at_q, sym e) (here-IsSettled p st f fs at_p)
    | inr not_p ↦
        rw (check_file, at_q)
          (there-IsSettled p st (renewed f st2) fs not_p (behind-IsSettled p st f fs not_p h))
  ]
  | inr not_q ↦ elim (Bool-cases (equal f.path p)) [
    | inl at_p ↦ rw (check_file, not_q) (front-IsSettled p st f fs _ at_p h)
    | inr not_p ↦
        rw (check_file, not_q)
          (there-IsSettled p st f _ not_p
            (check_file-keeps p q st st2 fs same (behind-IsSettled p st f fs not_p h)))
  ]
]
