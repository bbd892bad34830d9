-- ===== src/Monitor/Search.antt =====
-- task_6/homework/src/file.c: search_files_in_dir. What the directories hold and which files are text
-- is given; realloc and strdup are taken to give memory.
use sem.Base.{
  ℕ, suc, ◌+◌, ◌-◌, ◌≤◌, ◌<◌, ◌≡◌, refl, sym, ap, ◌∙◌, Bool, true, false, ◌&&◌, ◌||◌, not, Option,
  none, some, List, [], ◌∷◌, ◌++◌, length, length-append, zero, set, replicate, map, append-nil,
  append_assoc, arith, Bool-cases, inl, inr, if◌then◌else◌,
}
use sem.Text.{Bytes}
use sem.Monitor.Watch.{join, is_dots}
use sem.Monitor.Backups.{is_debug_log}
mod Tests

-- A directory that cannot be opened, or its entries in the order of readdir: those that stat does not
-- find, directories, regular files that are text or not, and others.
pub data Listing : Type 0 where
  unreadable no_more : Listing
  gone : Bytes → Listing → Listing
  folder : Bytes → Listing → Listing → Listing
  regular : Bytes → Bool → Listing → Listing
  special : Bytes → Listing → Listing

-- realloc to so many pointers: what it adds has no value.
abbrev pub realloc : ℕ → List (Option Bytes) → List (Option Bytes)
realloc zero files = []
realloc (suc n) [] = none ∷ realloc n []
realloc (suc n) (f ∷ files) = f ∷ realloc n files

-- *files = realloc(*files, count + 1), and (*files)[count] = strdup(fullpath)
abbrev pub put_file : ℕ → Bytes → List (Option Bytes) → List (Option Bytes)
put_file count path files = set (realloc (suc count) files) count (some path)

-- What is skipped before or after stat.
abbrev pub is_found : Bytes → Bytes → Bool → Bool
is_found path name text = not (is_dots name) && not (is_debug_log (join path name)) && text

-- The loop over the entries, with the array and the count.
unfoldable pub search_entries : Bytes → Listing → ℕ → List (Option Bytes) → List (Option Bytes) × ℕ
search_entries path unreadable count files = (files, count)
search_entries path no_more count files = (files, count)
search_entries path (gone name rest) count files = search_entries path rest count files
search_entries path (special name rest) count files = search_entries path rest count files
search_entries path (folder name sub rest) count files =
    let below = (search_entries (join path name) sub 0 files).0 in
    let skipped = search_entries path rest count files in
    let searched = search_entries path rest count below in
    if is_dots name then skipped else searched
search_entries path (regular name text rest) count files =
    let skipped = search_entries path rest count files in
    let added = search_entries path rest (suc count) (put_file count (join path name) files) in
    if is_found path name text then added else skipped

-- The array and the value returned.
unfoldable pub search_files_in_dir : Bytes → Listing → List (Option Bytes) → List (Option Bytes) × ℕ
search_files_in_dir path dir files = search_entries path dir 0 files

-- The text files of the directory itself.
unfoldable pub own_files : Bytes → Listing → List Bytes
own_files path unreadable = []
own_files path no_more = []
own_files path (gone name rest) = own_files path rest
own_files path (special name rest) = own_files path rest
own_files path (folder name sub rest) = own_files path rest
own_files path (regular name text rest) =
    let more = own_files path rest in
    if is_found path name text then join path name ∷ more else more

-- There is no directory in it but . and ..
unfoldable pub is_flat : Listing → Bool
is_flat unreadable = true
is_flat no_more = true
is_flat (gone name rest) = is_flat rest
is_flat (special name rest) = is_flat rest
is_flat (folder name sub rest) = is_dots name && is_flat rest
is_flat (regular name text rest) = is_flat rest

search_entries-count :
    (path : Bytes) (dir : Listing) (count : ℕ) (files : List (Option Bytes))
    → (search_entries path dir count files).1 ≡ count + length (own_files path dir)
unfolding search_entries own_files
search_entries-count path unreadable count files = omega arith
search_entries-count path no_more count files = omega arith
search_entries-count path (gone name rest) count files = search_entries-count path rest count files
search_entries-count path (special name rest) count files =
    search_entries-count path rest count files
search_entries-count path (folder name sub rest) count files = elim (Bool-cases (is_dots name)) [
  | inl e ↦ rw e (search_entries-count path rest count files)
  | inr e ↦
      rw e (search_entries-count path rest count (search_entries (join path name) sub 0 files).0)
]
search_entries-count path (regular name text rest) count files =
    elim (Bool-cases (is_found path name text)) [
      | inl e ↦ rw e (
          search_entries-count path rest (suc count) (put_file count (join path name) files)
          ∙ omega arith)
      | inr e ↦ rw e (search_entries-count path rest count files)
    ]

-- With an array of exactly `count` files, one more is put behind them.
put_file-append :
    (files : List (Option Bytes)) (path : Bytes)
    → put_file (length files) path files ≡ files ++ some path ∷ []
put_file-append [] path = refl
put_file-append (f ∷ files) path = ap (λ r. f ∷ r) (put_file-append files path)

false-ne-true : false ≡ true → ⊥
false-ne-true e = cc

search_entries-append :
    (path : Bytes) (dir : Listing) (files : List (Option Bytes))
    → is_flat dir ≡ true
    → (search_entries path dir (length files) files).0 ≡ files ++ map some (own_files path dir)
unfolding search_entries own_files is_flat
search_entries-append path unreadable files flat = sym (append-nil files)
search_entries-append path no_more files flat = sym (append-nil files)
search_entries-append path (gone name rest) files flat = search_entries-append path rest files flat
search_entries-append path (special name rest) files flat =
    search_entries-append path rest files flat
search_entries-append path (folder name sub rest) files flat = elim (Bool-cases (is_dots name)) [
  | inl e ↦ rw e (search_entries-append path rest files (rw e at flat))
  | inr e ↦ absurd (false-ne-true (rw e at flat))
]
search_entries-append path (regular name text rest) files flat =
    elim (Bool-cases (is_found path name text)) [
      | inl e ↦
          rw (e, put_file-append files (join path name))
            (ap (λ n. (search_entries path rest n (files ++ some (join path name) ∷ [])).0)
                (sym (length-append files (some (join path name) ∷ []) ∙ omega arith))
              ∙ search_entries-append path rest (files ++ some (join path name) ∷ []) flat
              ∙ append_assoc files (some (join path name) ∷ []) (map some (own_files path rest)))
      | inr e ↦ rw e (search_entries-append path rest files flat)
    ]

put_file-first :
    (path : Bytes) (files : List (Option Bytes)) → put_file 0 path files ≡ some path ∷ []
put_file-first path [] = refl
put_file-first path (f ∷ files) = refl

-- Whatever the array holds, the first file of a search makes it new.
search_entries-fresh :
    (path : Bytes) (dir : Listing) (files : List (Option Bytes))
    → is_flat dir ≡ true
    → 0 < length (own_files path dir)
    → (search_entries path dir 0 files).0 ≡ map some (own_files path dir)
unfolding search_entries own_files is_flat
search_entries-fresh path unreadable files flat any = absurd (omega arith)
search_entries-fresh path no_more files flat any = absurd (omega arith)
search_entries-fresh path (gone name rest) files flat any =
    search_entries-fresh path rest files flat any
search_entries-fresh path (special name rest) files flat any =
    search_entries-fresh path rest files flat any
search_entries-fresh path (folder name sub rest) files flat any = elim (Bool-cases (is_dots name)) [
  | inl e ↦ rw e (search_entries-fresh path rest files (rw e at flat) any)
  | inr e ↦ absurd (false-ne-true (rw e at flat))
]
search_entries-fresh path (regular name text rest) files flat any =
    elim (Bool-cases (is_found path name text)) [
      | inl e ↦
          rw (e, put_file-first (join path name) files)
            (search_entries-append path rest (some (join path name) ∷ []) flat)
      | inr e ↦ rw e (search_entries-fresh path rest files flat (rw e at any))
    ]

pair_eq : {A B : Type 0} (x : A × B) (a : A) (b : B) → x.0 ≡ a → x.1 ≡ b → x ≡ (a, b)
pair_eq x a b e f = rw (sym e, sym f) refl

-- In a directory without subdirectories the search gives the paths of the text files that are not
-- debug.log, in the order of the directory, and their number.
pub search_files_in_dir-own_files :
    (path : Bytes) (dir : Listing)
    → is_flat dir ≡ true
    → search_files_in_dir path dir [] ≡ (map some (own_files path dir), length (own_files path dir))
unfolding search_files_in_dir
search_files_in_dir-own_files path dir flat =
    pair_eq (search_entries path dir 0 []) (map some (own_files path dir))
      (length (own_files path dir)) (search_entries-append path dir [] flat)
      (search_entries-count path dir 0 [] ∙ omega arith)

-- A search of a subdirectory throws away what the array held: if the last entry is a directory
-- without subdirectories and with a text file, then the array has room for that directory's own
-- files and holds them, while the count returned is the one of before, however large.
pub search_entries_last_folder :
    (path name : Bytes) (sub : Listing) (count : ℕ) (files : List (Option Bytes))
    → is_dots name ≡ false
    → is_flat sub ≡ true
    → 0 < length (own_files (join path name) sub)
    → search_entries path (folder name sub no_more) count files
      ≡ (map some (own_files (join path name) sub), count)
unfolding search_entries
search_entries_last_folder path name sub count files no_dots flat any =
    rw (no_dots, search_entries-fresh (join path name) sub files flat any) refl
