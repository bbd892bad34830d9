-- ===== src/Monitor/Cleaning.antt =====
-- The way of a diff through save_diff and restore_file_to_sample of task_6/homework/src/backup.c.
use sem.Base.{
  ℕ, ◌-◌, ◌<◌, ◌≡◌, refl, ap, ◌∙◌, false, [], ◌∷◌, ◌++◌, append_assoc, arith, leb, ◌==◌, length,
  All, ◌≤◌, sym, Bool, true, ◌||◌, List, if-both, length-append, All-append, subst,
}
use sem.Text.{Bytes, codes, starts_with, cstr}
use sem.Numbers.{decimal, size_mod, length-decimal, decimal-All}
use sem.Monitor.Diffs.{
  fgets_from, fgets_lines, put_lines, line_room, save_diff, clean_lines, clean_diff,
}

fgets_from-line :
    (room : ℕ) (cur l rest : Bytes)
    → All (λ c. (c == b'\n') ≡ false) l
    → length l < room
    → fgets_from room cur (l ++ b'\n' ∷ rest) ≡ (cur ++ (l ++ b'\n' ∷ [])) ∷ fgets_lines rest
unfolding fgets_from
fgets_from-line room [] [] rest h short = refl
fgets_from-line room (b ∷ cur) [] rest h short = refl
fgets_from-line room [] (c ∷ l) rest h short =
    let wide : leb room 1 ≡ false = ground arith in
    rw (h.0, wide) (fgets_from-line (room - 1) (c ∷ []) l rest h.1 (omega arith))
fgets_from-line room (b ∷ cur) (c ∷ l) rest h short =
    let wide : leb room 1 ≡ false = ground arith in
    rw (h.0, wide)
      (fgets_from-line (room - 1) ((b ∷ cur) ++ c ∷ []) l rest h.1 (omega arith)
        ∙ ap (λ b. b ∷ fgets_lines rest) (append_assoc (b ∷ cur) (c ∷ []) (l ++ b'\n' ∷ [])))

put_lines-fgets_from :
    (room : ℕ) (cur s : Bytes)
    → All (λ l. cstr l ≡ l) (fgets_from room cur s)
    → put_lines (fgets_from room cur s) ≡ cur ++ s
unfolding put_lines fgets_from
put_lines-fgets_from room [] [] h = refl
put_lines-fgets_from room (b ∷ cur) [] h = rw h.0
put_lines-fgets_from room cur (c ∷ s) h =
    if-both (λ (ls : List Bytes). All (λ l. cstr l ≡ l) ls → put_lines ls ≡ cur ++ c ∷ s)
      (c == b'\n' || leb room 1)
      (λ _ k. rw (k.0, put_lines-fgets_from line_room [] s k.1) (append_assoc cur (c ∷ []) s))
      (λ _ k. put_lines-fgets_from (room - 1) (cur ++ c ∷ []) s k ∙ append_assoc cur (c ∷ []) s) h

-- A line of a diff that the cleaning keeps: it has no null byte, is no comment, and is not `---`.
pub record IsKept (l : Bytes) : Type 0 where
  pub no_null : cstr l ≡ l
  pub no_comment : starts_with (codes "#") l ≡ false
  pub no_rule : starts_with (codes "---\n") l ≡ false

no_nulls : (ls : List Bytes) → All IsKept ls → All (λ l. cstr l ≡ l) ls
no_nulls [] h = tt
no_nulls (l ∷ ls) h = (h.0.no_null, no_nulls ls h.1)

clean_lines-kept :
    (past_metadata : Bool) (ls : List Bytes)
    → All IsKept ls
    → clean_lines past_metadata ls ≡ put_lines ls
unfolding clean_lines put_lines
clean_lines-kept past [] h = refl
clean_lines-kept past (l ∷ ls) h =
    rw (h.0.no_comment, h.0.no_rule, clean_lines-kept past ls h.1)
      (if-both (λ (b : Bytes). b ≡ cstr l ++ put_lines ls) (past || true) (λ _. refl)
        (λ e. absurd (ground arith)))

-- The text fits one line of the metadata.
pub record IsLine (s : Bytes) : Type 0 where
  pub no_newline : All (λ c. (c == b'\n') ≡ false) s
  pub short : length s ≤ 4080

decimal-IsLine : (n : ℕ) → n < size_mod → IsLine (decimal n)
decimal-IsLine n h = record {
  no_newline = decimal-All (λ c. (c == b'\n') ≡ false) (λ c d. ground arith) n;
  short = omega (arith, length-decimal n h);
}

-- A line of the metadata is passed over.
clean_comment :
    (label s rest : Bytes)
    → All (λ c. (c == b'\n') ≡ false) label
    → length label ≤ 12
    → IsLine s
    → clean_diff ((b'#' ∷ label ++ s) ++ b'\n' ∷ rest) ≡ clean_diff rest
unfolding clean_diff clean_lines starts_with
clean_comment label s rest one small v =
    rw
      (fgets_from-line line_room [] (b'#' ∷ label ++ s) rest
        (refl, All-append (λ c. (c == b'\n') ≡ false) label s one v.no_newline)
        (omega (arith, length-append label s, v.short)))
      refl

clean_rule :
    (rest : Bytes) → clean_diff (codes "---" ++ b'\n' ∷ rest) ≡ clean_lines true (fgets_lines rest)
unfolding clean_diff clean_lines starts_with fgets_from
clean_rule rest = refl

rule_no_null : cstr (codes "---\n") ≡ codes "---\n"
unfolding cstr
rule_no_null = refl

-- The metadata is taken off again.
clean_diff-metadata :
    (printed old_file new_file : Bytes) (timestamp sample_num : ℕ)
    → All (λ l. cstr l ≡ l) (fgets_lines printed)
    → IsLine old_file
    → IsLine new_file
    → timestamp < size_mod
    → sample_num < size_mod
    → clean_diff (save_diff printed old_file new_file timestamp sample_num)
      ≡ clean_lines true (fgets_lines printed)
unfolding save_diff
clean_diff-metadata printed old_file new_file timestamp sample_num nulls old new t n =
    clean_comment (codes " Timestamp: ") (decimal timestamp) _
      (
        refl,
        (refl, (refl, (refl, (refl, (refl, (refl, (refl, (refl, (refl, (refl, (refl, tt))))))))))),
      )
      (omega arith) (decimal-IsLine timestamp t)
    ∙ clean_comment (codes " Sample: ") (decimal sample_num) _
        (refl, (refl, (refl, (refl, (refl, (refl, (refl, (refl, (refl, tt))))))))) (omega arith)
        (decimal-IsLine sample_num n)
    ∙ clean_comment (codes " Old file: ") old_file _
        (refl, (refl, (refl, (refl, (refl, (refl, (refl, (refl, (refl, (refl, (refl, tt)))))))))))
        (omega arith) old
    ∙ clean_comment (codes " New file: ") new_file _
        (refl, (refl, (refl, (refl, (refl, (refl, (refl, (refl, (refl, (refl, (refl, tt)))))))))))
        (omega arith) new
    ∙ clean_rule (put_lines (fgets_lines printed))
    ∙ ap (λ b. clean_lines true (fgets_lines b)) (put_lines-fgets_from line_room [] printed nulls)

-- If no line that diff printed has a null byte, begins with # or is ---, the paths have no newline
-- and at most 4080 bytes, and time and sample are below 2 ^ 64, then the restore hands patch exactly
-- what diff printed, without the metadata.
pub clean_diff-save_diff :
    (printed old_file new_file : Bytes) (timestamp sample_num : ℕ)
    → All IsKept (fgets_lines printed)
    → IsLine old_file
    → IsLine new_file
    → timestamp < size_mod
    → sample_num < size_mod
    → clean_diff (save_diff printed old_file new_file timestamp sample_num) ≡ printed
clean_diff-save_diff printed old_file new_file timestamp sample_num kept old new t n =
    let nulls = no_nulls (fgets_lines printed) kept in
    clean_diff-metadata printed old_file new_file timestamp sample_num nulls old new t n
    ∙ clean_lines-kept true (fgets_lines printed) kept
    ∙ put_lines-fgets_from line_room [] printed nulls

clean_lines-rule :
    (earlier later : List Bytes)
    → All IsKept earlier
    → All IsKept later
    → clean_lines true (earlier ++ codes "---\n" ∷ later) ≡ put_lines earlier ++ put_lines later
unfolding clean_lines put_lines starts_with
clean_lines-rule [] later h k = clean_lines-kept true later k
clean_lines-rule (l ∷ earlier) later h k =
    rw (h.0.no_comment, h.0.no_rule, clean_lines-rule earlier later h.1 k)
      (sym (append_assoc (cstr l) (put_lines earlier) (put_lines later)))

-- Under the same bounds on the paths, the time and the sample: if one line that diff printed is ---,
-- as for a removed line of two dashes, and the others are kept, then that line is missing in what
-- the restore hands to patch.
pub clean_diff_dashes :
    (printed old_file new_file : Bytes) (timestamp sample_num : ℕ) (earlier later : List Bytes)
    → fgets_lines printed ≡ earlier ++ codes "---\n" ∷ later
    → All IsKept earlier
    → All IsKept later
    → IsLine old_file
    → IsLine new_file
    → timestamp < size_mod
    → sample_num < size_mod
    → clean_diff (save_diff printed old_file new_file timestamp sample_num)
      ≡ put_lines earlier ++ put_lines later
unfolding clean_diff
clean_diff_dashes printed old_file new_file timestamp sample_num earlier later e h k old new t n =
    let nulls =
      All-append (λ l. cstr l ≡ l) earlier (codes "---\n" ∷ later) (no_nulls earlier h)
        (rule_no_null, no_nulls later k) in
    clean_diff-metadata printed old_file new_file timestamp sample_num
      (subst (All (λ l. cstr l ≡ l)) (sym e) nulls) old new t n
    ∙ ap (clean_lines true) e
    ∙ clean_lines-rule earlier later h k
