-- ===== src/Monitor/Diffs.antt =====
-- task_6/homework/src/backup.c: the file that save_diff writes, and the text that
-- restore_file_to_sample takes from it for patch. What diff prints is a parameter.
use sem.Base.{ℕ, ◌-◌, Bool, true, false, not, ◌||◌, List, [], ◌∷◌, ◌++◌, leb, ◌==◌, if◌then◌else◌}
use sem.Text.{Bytes, codes, starts_with, cstr}
use sem.Numbers.{decimal}

-- A buffer of 4096 bytes, less the null byte.
abbrev pub line_room : ℕ
line_room = 4095

-- The results of fgets: each ends with a newline, at the size of the buffer, or at the end.
unfoldable pub fgets_from : ℕ → Bytes → Bytes → List Bytes
fgets_from room [] [] = []
fgets_from room (b ∷ cur) [] = (b ∷ cur) ∷ []
fgets_from room cur (c ∷ s) =
    let whole = (cur ++ c ∷ []) ∷ fgets_from line_room [] s in
    let longer = fgets_from (room - 1) (cur ++ c ∷ []) s in
    if c == b'\n' || leb room 1 then whole else longer

abbrev pub fgets_lines : Bytes → List Bytes
fgets_lines = fgets_from line_room []

-- fputs of each line
unfoldable pub put_lines : List Bytes → Bytes
put_lines [] = []
put_lines (l ∷ ls) = cstr l ++ put_lines ls

-- `printed` is what the pipe from diff gives.
unfoldable pub save_diff : Bytes → Bytes → Bytes → ℕ → ℕ → Bytes
save_diff printed old_file new_file timestamp sample_num =
    (codes "# Timestamp: " ++ decimal timestamp)
    ++ b'\n'
      ∷ ((codes "# Sample: " ++ decimal sample_num)
          ++ b'\n'
            ∷ ((codes "# Old file: " ++ old_file)
                ++ b'\n'
                  ∷ ((codes "# New file: " ++ new_file)
                      ++ b'\n' ∷ (codes "---" ++ b'\n' ∷ put_lines (fgets_lines printed)))))

-- The loop that copies a diff without its metadata.
unfoldable pub clean_lines : Bool → List Bytes → Bytes
clean_lines past_metadata [] = []
clean_lines past_metadata (l ∷ ls) =
    let skipped = clean_lines past_metadata ls in
    let past = clean_lines true ls in
    if starts_with (codes "#") l
    then skipped
    else if starts_with (codes "---\n") l
    then past
    else if past_metadata || not (starts_with (codes "#") l)
    then cstr l ++ skipped
    else skipped

unfoldable pub clean_diff : Bytes → Bytes
clean_diff diff = clean_lines false (fgets_lines diff)
