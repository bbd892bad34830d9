-- ===== src/Monitor/Commands/Period.antt =====
-- The command that sets the period, from its text on: task_6/homework/src/ipc.c.
use sem.Monitor.Commands.{
  pos, cmd_set_period, Command, of_long, int_digits, int_signed, scan_int, with_arg, parse_command,
}
use sem.Monitor.Commands.Answers.{Outside, answer_set_period, answer, process_command}
use sem.Base.{
  ℕ, ◌-◌, ◌%◌, ◌^◌, ◌<◌, min, ◌≡◌, sym, ap, ◌∙◌, inl, inr, true, false, ◌&&◌, some, [], ◌∷◌, ◌++◌,
  append-nil, arith, ltb, ◌==◌, if◌then◌else◌, lt→ltb, Bool-cases, refl,
}
use sem.Text.{Bytes, codes, is_space, skip_space, starts_with}
use sem.Numbers.{decimal, is_digit, read_digits, read_digits-decimal}
use sem.Monitor.State.{MonitorState}

abbrev IsSolid : ℕ → Type 0
IsSolid c = (is_space c ≡ false) × ((c == b'-') ≡ false) × ((c == b'+') ≡ false)

digit-IsSolid : (c : ℕ) → is_digit c ≡ true → IsSolid c
unfolding is_space
digit-IsSolid c h = (ground arith, ground arith, ground arith)

of_long-small : (n : ℕ) → n < 2 ^ 31 → of_long false n ≡ pos n
of_long-small n h =
    let long : min n (2 ^ 63 - 1) ≡ n = omega arith in
    let word : n % 2 ^ 32 ≡ n = omega arith in rw (long, word, lt→ltb n (2 ^ 31) h)

scan_int-digits :
    (c : ℕ) (s : Bytes) (n : ℕ) (rest : Bytes)
    → is_digit c ≡ true
    → read_digits 0 (c ∷ s) ≡ (n, rest)
    → n < 2 ^ 31
    → scan_int (c ∷ s) ≡ some (pos n)
unfolding scan_int int_signed int_digits skip_space
scan_int-digits c s n rest d e h =
    let (solid, minus, plus) = digit-IsSolid c d in
    rw (solid, minus, plus, d, e) (ap some (of_long-small n h))

scan_int-decimal : (n : ℕ) → n < 2 ^ 31 → scan_int (b' ' ∷ decimal n) ≡ some (pos n)
unfolding scan_int skip_space is_space
scan_int-decimal n h =
    let (c, s, e, d, read) = read_digits-decimal n [] tt in
    ap scan_int (sym (append-nil (decimal n)) ∙ e) ∙ scan_int-digits c s n [] d read h

-- What an operator writes.
abbrev pub set_period_text : ℕ → Bytes
set_period_text n = codes "set_period " ++ decimal n

set_period-with_arg :
    (n : ℕ) (cmd : Command)
    → parse_command (set_period_text n) cmd ≡ with_arg cmd_set_period cmd (b' ' ∷ decimal n)
unfolding starts_with parse_command
set_period-with_arg n cmd = refl

set_period-read :
    (n : ℕ) (cmd : Command)
    → n < 2 ^ 31
    → with_arg cmd_set_period cmd (b' ' ∷ decimal n)
      ≡ record cmd { kind = cmd_set_period; arg = pos n }
unfolding with_arg
set_period-read n cmd h = rw (with_arg, scan_int-decimal n h)

set_period-done :
    (os : Outside) (room n : ℕ) (cmd : Command) (s : MonitorState)
    → (process_command os room (record cmd { kind = cmd_set_period; arg = pos n }) s).0
      ≡ (if ltb 0 n && ltb n 3600000 then record s { sample_period_ms = n } else s)
unfolding answer_set_period answer process_command
set_period-done os room n cmd s = elim (Bool-cases (ltb 0 n && ltb n 3600000)) [
  | inl e ↦ rw e
  | inr e ↦ rw e
]

-- A set_period command with a number that fits an int is read as that number, whatever command was
-- read before; a number from 1 to 3599999 becomes the period, and every other one is refused and
-- leaves the state as it is.
pub process_command-set_period :
    (os : Outside) (room n : ℕ) (cmd : Command) (s : MonitorState)
    → n < 2 ^ 31
    → let read = parse_command (set_period_text n) cmd in
      (read ≡ record cmd { kind = cmd_set_period; arg = pos n })
      × ((process_command os room read s).0
          ≡ (if ltb 0 n && ltb n 3600000 then record s { sample_period_ms = n } else s))
process_command-set_period os room n cmd s h =
    let read = set_period-with_arg n cmd ∙ set_period-read n cmd h in
    (read, ap (λ c. (process_command os room c s).0) read ∙ set_period-done os room n cmd s)
