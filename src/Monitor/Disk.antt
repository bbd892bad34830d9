-- ===== src/Monitor/Disk.antt =====
-- The files that task_6/homework/src/backup.c reads, writes and removes.
use sem.Base.{
  ℕ, zero, suc, ◌≡◌, Bool, Option, none, some, [], ◌++◌, ◌==◌, if◌then◌else◌, length, take, drop,
  ◌<◌, sym, ap, ◌∙◌, true, false, ◌∷◌, append-nil, append_assoc, arith, take-append-drop,
  length-drop, refl, ◌⊎◌, inl, inr, Bool-cases, Option-cases,
}
use sem.Text.{Bytes, equal}
use sem.Monitor.Queue.{equal_refl}

-- What a path holds, none where there is no file.
abbrev pub Disk : Type 0
Disk = Bytes → Option Bytes

abbrev pub put : Bytes → Bytes → Disk → Disk
put path content d = λ q. if equal q path then some content else d q

abbrev pub unlink : Bytes → Disk → Disk
unlink path d = λ q. if equal q path then none else d q

-- Whether fopen(..., "r") of a file that is there, and fopen(..., "w"), succeed.
pub record Access : Type 0 where
  pub reads : Bytes → Bool
  pub writes : Bytes → Bool

abbrev pub buffer_room : ℕ
buffer_room = 4096

-- while ((n = fread(...)) > 0) fwrite(...): what is written behind `written`.
unfoldable pub copy_loop : ℕ → Bytes → Bytes → Bytes
copy_loop zero rest written = written
copy_loop (suc fuel) rest written =
    let more = copy_loop fuel (drop buffer_room rest) (written ++ take buffer_room rest) in
    if length rest == 0 then written else more

-- Both files are opened, the second one emptied, and the first is copied; none where one cannot
-- be opened.
unfoldable pub copy_file : Access → Bytes → Bytes → Disk → Option Disk
copy_file access from to d =
    if access.reads from
    then elim (d from) [
      | none ↦ none
      | some old ↦
          if access.writes to
          then (let content = if equal from to then [] else old in
              some (put to (copy_loop (suc (length content)) content []) d))
          else none
    ]
    else none

pub put_self : (path content : Bytes) (d : Disk) → put path content d path ≡ some content
put_self path content d = rw (equal_refl path)

pub put_ne : (path content q : Bytes) (d : Disk) → equal q path ≡ false → put path content d q ≡ d q
put_ne path content q d apart = rw apart

pub unlink_self : (path : Bytes) (d : Disk) → unlink path d path ≡ none
unlink_self path d = rw (equal_refl path)

pub unlink_ne : (path q : Bytes) (d : Disk) → equal q path ≡ false → unlink path d q ≡ d q
unlink_ne path q d apart = rw apart

copy_loop-append :
    (fuel : ℕ) (rest written : Bytes)
    → length rest < fuel
    → copy_loop fuel rest written ≡ written ++ rest
unfolding copy_loop
copy_loop-append zero rest written h = absurd (omega arith)
copy_loop-append (suc fuel) [] written h = sym (append-nil written)
copy_loop-append (suc fuel) (c ∷ rest) written h =
    let more : (length (c ∷ rest) == 0) ≡ false = ground arith in
    rw more (
      copy_loop-append fuel (drop buffer_room (c ∷ rest)) (written ++ take buffer_room (c ∷ rest))
        (omega (arith, length-drop buffer_room (c ∷ rest)))
      ∙ append_assoc written (take buffer_room (c ∷ rest)) (drop buffer_room (c ∷ rest))
      ∙ ap (λ r. written ++ r) (take-append-drop buffer_room (c ∷ rest)))

-- A file that can be read is copied whole to another one that can be written.
pub copy_file_lem :
    (access : Access) (from to content : Bytes) (d : Disk)
    → access.reads from ≡ true
    → d from ≡ some content
    → access.writes to ≡ true
    → equal from to ≡ false
    → copy_file access from to d ≡ some (put to content d)
unfolding copy_file
copy_file_lem access from to content d readable old writable apart =
    rw (copy_file, readable, old, writable, apart)
      (ap (λ c. some (put to c d))
        (copy_loop-append (suc (length content)) content [] (omega arith)))

-- A copy changes the file it makes and no other.
pub copy_file-cases :
    (access : Access) (from to : Bytes) (d : Disk)
    → (copy_file access from to d ≡ none)
      ⊎ ((content : Bytes) × copy_file access from to d ≡ some (put to content d))
unfolding copy_file
copy_file-cases access from to d = elim (Bool-cases (access.reads from)) [
  | inr unreadable ↦ inl (rw (copy_file, unreadable))
  | inl readable ↦ elim (Option-cases (d from)) [
    | inl gone ↦ inl (rw (copy_file, readable, gone))
    | inr (old, there) ↦ elim (Bool-cases (access.writes to)) [
      | inr unwritable ↦ inl (rw (copy_file, readable, there, unwritable))
      | inl writable ↦
          let content = if equal from to then [] else old in
          inr (
            copy_loop (suc (length content)) content [],
            rw (copy_file, readable, there, writable) refl,
          )
    ]
  ]
]
