-- ===== src/Monitor/Commands.antt =====
-- task_6/homework/src/ipc.c: the commands that the daemon reads from its FIFO, and what it does.
pub mod Answers
pub mod Config
pub mod Room
pub mod Period
mod Tests
use sem.Base.{
  ℕ, ◌-◌, ◌%◌, ◌^◌, min, Bool, true, false, Option, none, some, [], ◌∷◌, ltb, ◌==◌, if◌then◌else◌,
  take, drop,
}
use sem.Text.{Bytes, codes, starts_with, cstr, scan_word, skip_space}
use sem.Numbers.{is_digit, read_digits}

-- int
pub data ℤ : Type 0 where
  pos negsuc : ℕ → ℤ

pub data CommandType : Type 0 where
  cmd_show_diff cmd_show_k_diffs cmd_set_pid cmd_set_period cmd_status cmd_restore cmd_unknown :
      CommandType

-- `kind` is type.
pub record Command : Type 0 where
  pub kind : CommandType
  pub arg : ℤ
  pub filename : Bytes

-- What read() of the FIFO gives: some bytes, or none, where errno is EAGAIN or not.
pub data FifoRead : Type 0 where
  message : ℕ → Bytes → FifoRead
  empty : Bool → FifoRead

abbrev pub max_cmd_len : ℕ
max_cmd_len = 256

-- A value as strtol gives it, within a long, and what is left of it in an int.
abbrev pub of_long : Bool → ℕ → ℤ
of_long minus n =
    let long = if minus then min n (2 ^ 63) else min n (2 ^ 63 - 1) in
    let word = if minus then (2 ^ 64 - long) % 2 ^ 32 else long % 2 ^ 32 in
    if ltb word (2 ^ 31) then pos word else negsuc (2 ^ 32 - 1 - word)

unfoldable pub int_digits : Bool → Bytes → Option ℤ
int_digits minus [] = none
int_digits minus (c ∷ s) =
    if is_digit c then some (of_long minus (read_digits 0 (c ∷ s)).0) else none

-- %d: white space, a sign, digits.
unfoldable pub int_signed : Bytes → Option ℤ
int_signed [] = none
int_signed (c ∷ s) =
    if c == b'-'
    then int_digits true s
    else (if c == b'+' then int_digits false s else int_digits false (c ∷ s))

unfoldable pub scan_int : Bytes → Option ℤ
scan_int s = int_signed (skip_space s)

-- sscanf(buffer, "... %d", &cmd->arg), with what stands behind the word; without a number, the
-- argument stays what it was.
unfoldable pub with_arg : CommandType → Command → Bytes → Command
with_arg kind cmd rest = elim (scan_int rest) [
  | none ↦ record cmd { kind = kind }
  | some n ↦ record cmd { kind = kind; arg = n }
]

-- sscanf(buffer, "restore %s %d", filename, &sample), with what stands behind the word
unfoldable pub read_restore : Command → Bytes → Command
read_restore cmd rest = elim (scan_word (max_cmd_len - 1) rest) [
  | none ↦ record cmd { kind = cmd_unknown }
  | some (name, behind) ↦ elim (scan_int behind) [
    | none ↦ record cmd { kind = cmd_unknown }
    | some n ↦ record { kind = cmd_restore; arg = n; filename = take 4095 name }
  ]
]

unfoldable pub parse_command : Bytes → Command → Command
parse_command buffer cmd =
    if starts_with (codes "show_diff") buffer
    then record cmd { kind = cmd_show_diff; arg = pos 0 }
    else (if starts_with (codes "show_k_diffs") buffer
        then with_arg cmd_show_k_diffs cmd (drop 12 buffer)
        else (if starts_with (codes "set_pid") buffer
            then with_arg cmd_set_pid cmd (drop 7 buffer)
            else (if starts_with (codes "set_period") buffer
                then with_arg cmd_set_period cmd (drop 10 buffer)
                else (if starts_with (codes "status") buffer
                    then record cmd { kind = cmd_status; arg = pos 0 }
                    else (if starts_with (codes "restore") buffer
                        then read_restore cmd (drop 7 buffer)
                        else record cmd { kind = cmd_unknown })))))

-- The value returned, and the command.
unfoldable pub read_command : Bool → FifoRead → Command → ℤ × Command
read_command fifo_open got cmd =
    if fifo_open
    then elim got [
      | empty again ↦ (if again then pos 0 else negsuc 0, cmd)
      | message c s ↦ (pos 1, parse_command (cstr (take (max_cmd_len - 1) (c ∷ s))) cmd)
    ]
    else (negsuc 0, cmd)
