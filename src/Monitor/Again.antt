-- ===== src/Monitor/Again.antt =====
-- What find_changed_files of task_6/homework/src/backup.c finds when it looks again.
use sem.Monitor.Changes.{Stat, check_file, check_files, find_changed_files}
use sem.Base.{
  ◌≤◌, ◌≡◌, refl, sym, ap, ◌∙◌, subst, inl, inr, false, Option, none, some, List, [], ◌∷◌,
  Option-cases, length, All,
}
use sem.Text.{Bytes}
use sem.Monitor.State.{FileInfo, MonitorState}
use sem.Monitor.Settled.{IsSettled, check_file-IsSettled, check_file-keeps}

some-ne-none : {A : Type 0} {a : A} → some a ≡ none → ⊥
some-ne-none e = cc

module _ (stat : Bytes → Option Stat) where
  -- Settled, if it can be looked at.
  abbrev AreSettled : List FileInfo → Bytes → Type 0
  AreSettled fs p = (st : Stat) → stat p ≡ some st → IsSettled p st fs

  check_files-gone :
      (p : Bytes) (ps : List Bytes) (fs : List FileInfo)
      → stat p ≡ none
      → check_files stat (p ∷ ps) fs ≡ check_files stat ps fs
  unfolding check_files
  check_files-gone p ps fs gone = rw (check_files, gone) refl

  check_files-found :
      (p : Bytes) (ps : List Bytes) (fs : List FileInfo) (st : Stat)
      → stat p ≡ some st
      → (check_files stat (p ∷ ps) fs).0 ≡ (check_files stat ps (check_file p st fs).1).0
  unfolding check_files
  check_files-found p ps fs st found = rw (check_files, found) refl

  one_stat : (p : Bytes) (st st2 : Stat) → stat p ≡ some st → stat p ≡ some st2 → st ≡ st2
  one_stat p st st2 e found = let both : some st ≡ some st2 = sym e ∙ found in cc

  check_files-keeps :
      (p : Bytes) (ps : List Bytes) (fs : List FileInfo)
      → AreSettled fs p
      → AreSettled (check_files stat ps fs).0 p
  unfolding check_files
  check_files-keeps p [] fs h = h
  check_files-keeps p (q ∷ ps) fs h = elim (Option-cases (stat q)) [
    | inl gone ↦
        subst (λ gs. AreSettled gs p) (sym (ap (λ r. r.0) (check_files-gone q ps fs gone)))
          (check_files-keeps p ps fs h)
    | inr (st2, found) ↦
        subst (λ gs. AreSettled gs p) (sym (check_files-found q ps fs st2 found))
          (check_files-keeps p ps (check_file q st2 fs).1 (λ st e.
            check_file-keeps p q st st2 fs (λ same. one_stat p st st2 e (ap stat same ∙ found))
              (h st e)))
  ]

  check_files-AreSettled :
      (ps : List Bytes) (fs : List FileInfo)
      → All (λ p. length p ≤ 4095) ps
      → All (AreSettled (check_files stat ps fs).0) ps
  unfolding check_files
  check_files-AreSettled [] fs short = tt
  check_files-AreSettled (p ∷ ps) fs short = elim (Option-cases (stat p)) [
    | inl gone ↦
        subst (λ gs. All (AreSettled gs) (p ∷ ps))
          (sym (ap (λ r. r.0) (check_files-gone p ps fs gone)))
          (λ st e. absurd (some-ne-none (sym e ∙ gone)), check_files-AreSettled ps fs short.1)
    | inr (st2, found) ↦
        subst (λ gs. All (AreSettled gs) (p ∷ ps)) (sym (check_files-found p ps fs st2 found))
          (
            check_files-keeps p ps (check_file p st2 fs).1 (λ st e.
                subst (λ z. IsSettled p z (check_file p st2 fs).1) (one_stat p st2 st found e)
                  (check_file-IsSettled p st2 fs short.0)),
            check_files-AreSettled ps (check_file p st2 fs).1 short.1,
          )
  ]

  check_files-settled :
      (ps : List Bytes) (fs : List FileInfo)
      → All (AreSettled fs) ps
      → check_files stat ps fs ≡ (fs, [])
  unfolding check_files
  check_files-settled [] fs h = refl
  check_files-settled (p ∷ ps) fs h = elim (Option-cases (stat p)) [
    | inl gone ↦ check_files-gone p ps fs gone ∙ check_files-settled ps fs h.1
    | inr (st, found) ↦ rw (check_files, found, h.0 st found) (check_files-settled ps fs h.1)
  ]

  find_changed_files-polled :
      (current : List Bytes) (s : MonitorState)
      → s.inotify_open ≡ false
      → let (files, changed) = check_files stat current s.files in
        find_changed_files stat current s ≡ (record s { files = files }, changed)
  unfolding find_changed_files
  find_changed_files-polled current s closed_inotify = simp (find_changed_files, closed_inotify)

  -- Without inotify, and while stat gives the same, a search for changed files that follows another
  -- one finds none and changes nothing: the first has made a record of every file of the directory,
  -- whose names are no longer than a record holds.
  pub find_changed_files-again :
      (current : List Bytes) (s : MonitorState)
      → All (λ p. length p ≤ 4095) current
      → s.inotify_open ≡ false
      → let found = find_changed_files stat current s in
        find_changed_files stat current found.0 ≡ (found.0, [])
  find_changed_files-again current s short closed_inotify =
      let settled =
        check_files-settled current (check_files stat current s.files).0
          (check_files-AreSettled current s.files short) in
      let t = record s { files = (check_files stat current s.files).0 } in
      subst (λ r. find_changed_files stat current r.0 ≡ (r.0, []))
        (sym (find_changed_files-polled current s closed_inotify))
        (find_changed_files-polled current t closed_inotify
          ∙ ap (λ r. (record s { files = r.0 }, r.1)) settled)
