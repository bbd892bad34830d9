-- ===== src/Monitor/Commands/Answers.antt =====
-- process_command of task_6/homework/src/ipc.c.
use sem.Monitor.Commands.{
  ℤ, pos, negsuc, CommandType, cmd_show_diff, cmd_show_k_diffs, cmd_set_pid, cmd_set_period,
  cmd_status, cmd_restore, cmd_unknown, Command,
}
use sem.Base.{
  ℕ, zero, suc, ◌-◌, Bool, false, ◌&&◌, ◌||◌, Option, none, some, List, [], ◌∷◌, ◌++◌, ltb, ◌==◌,
  if◌then◌else◌, length, take,
}
use sem.Text.{Bytes, codes}
use sem.Numbers.{decimal}
use sem.Monitor.State.{MonitorState}
use sem.Monitor.Events.{basename}

abbrev pub max_response_len : ℕ
max_response_len = 8192

-- %d
unfoldable pub int_text : ℤ → Bytes
int_text (pos n) = decimal n
int_text (negsuc n) = b'-' ∷ decimal (suc n)

-- strncat(response, text, response_len - strlen(response) - 1)
unfoldable pub append : ℕ → Bytes → Bytes → Bytes
append room text response = response ++ take (room - length response - 1) text

unfoldable pub append_all : ℕ → List Bytes → Bytes → Bytes
append_all room [] response = response
append_all room (t ∷ texts) response = append_all room texts (append room t response)

-- snprintf(response, response_len, ...)
abbrev pub put_response : ℕ → Bytes → Bytes
put_response room text = take (room - 1) text

-- Not part of this file: the files that glob finds for a pattern (none where it fails), what
-- get_diff_content reads of one, where a process works (get_process_cwd), and whether
-- restore_file_to_sample does what it is asked for.
pub record Outside : Type 0 where
  pub glob : Bytes → Option (List Bytes)
  pub get_diff_content : Bytes → Option Bytes
  pub get_process_cwd : ℕ → Option Bytes
  pub restore_file_to_sample : MonitorState → Bytes → ℤ → Bool

-- BACKUP_DIR "/diff_*_sample_%d"
abbrev pub pattern_of : ℕ → Bytes
pattern_of sample = codes "/tmp/daemon_backups/diff_*_sample_" ++ decimal sample

-- The loop over the first five files.
unfoldable pub add_diffs : Outside → ℕ → List Bytes → Bytes → Bytes
add_diffs os room [] response = response
add_diffs os room (path ∷ paths) response =
    add_diffs os room paths (elim (os.get_diff_content path) [
      | none ↦ response
      | some content ↦
          append_all room (path ∷ codes ":\n" ∷ content ∷ codes "\n---\n" ∷ []) response
    ])

unfoldable pub answer_show_diff : Outside → ℕ → MonitorState → Bytes
answer_show_diff os room s = elim (os.glob (pattern_of s.current_sample)) [
  | none ↦ append room (codes "No diffs found for current sample\n") []
  | some paths ↦ add_diffs os room (take 5 paths) (append room (codes "Latest diffs:\n") [])
]

unfoldable pub add_names : ℕ → ℕ → List Bytes → Bytes → Bytes
add_names room sample [] response = response
add_names room sample (path ∷ paths) response = add_names room sample paths (
    append_all room (codes "Sample " ∷ decimal sample ∷ codes ": " ∷ path ∷ codes "\n" ∷ [])
      response)

-- The loop over `left` samples, from `sample` on.
unfoldable pub add_samples : Outside → ℕ → ℕ → ℕ → Bytes → Bytes
add_samples os room zero sample response = response
add_samples os room (suc left) sample response =
    add_samples os room left (suc sample) (elim (os.glob (pattern_of sample)) [
      | none ↦ response
      | some paths ↦ add_names room sample paths response
    ])

-- if (k <= 0 || k > state->current_sample) k = state->current_sample;
unfoldable pub clamp : ℕ → ℤ → ℕ
clamp current (negsuc n) = current
clamp current (pos n) = if n == 0 || ltb current n then current else n

unfoldable pub answer_show_k_diffs : Outside → ℕ → ℤ → MonitorState → Bytes
answer_show_k_diffs os room arg s =
    let k = clamp s.current_sample arg in
    add_samples os room k (suc s.current_sample - k)
      (append_all room (codes "Diffs for last " ∷ decimal k ∷ codes " samples:\n" ∷ []) [])

-- No process has a negative number.
unfoldable pub cwd_of : Outside → ℤ → Option (ℕ × Bytes)
cwd_of os (negsuc n) = none
cwd_of os (pos n) = elim (os.get_process_cwd n) [ none ↦ none | some cwd ↦ some (n, cwd) ]

unfoldable pub answer_set_pid : Outside → ℕ → ℤ → MonitorState → MonitorState × Bytes
answer_set_pid os room arg s = elim (cwd_of os arg) [
  | none ↦ (s, put_response room (codes "Failed to get CWD for PID " ++ int_text arg ++ codes "\n"))
  | some (pid, cwd) ↦ (
    record s { monitored_dir = cwd; monitored_pid = pid; first_backup_done = false; files = [] },
    put_response room (
        codes "PID changed to "
        ++ int_text arg
        ++ codes ", monitoring directory: "
        ++ cwd
        ++ codes "\n"),
  )
]

abbrev pub is_period : ℤ → Bool
is_period (pos n) = ltb 0 n && ltb n 3600000
is_period (negsuc n) = false

abbrev pub magnitude : ℤ → ℕ
magnitude (pos n) = n
magnitude (negsuc n) = suc n

unfoldable pub answer_set_period : ℕ → ℤ → MonitorState → MonitorState × Bytes
answer_set_period room arg s =
    if is_period arg
    then (
      record s { sample_period_ms = magnitude arg },
      put_response room (codes "Sample period changed to " ++ int_text arg ++ codes " ms\n"),
    )
    else (
      s,
      put_response room
          (codes "Invalid period: " ++ int_text arg ++ codes " (must be 1-3600000 ms)\n"),
    )

unfoldable pub answer_status : ℕ → MonitorState → Bytes
answer_status room s = put_response room (
    codes "Status:\n"
    ++ codes "  Monitored PID: "
    ++ decimal s.monitored_pid
    ++ codes "\n  Directory: "
    ++ s.monitored_dir
    ++ codes "\n  Sample period: "
    ++ decimal s.sample_period_ms
    ++ codes " ms\n  Current sample: "
    ++ decimal s.current_sample
    ++ codes "\n  Files tracked: "
    ++ decimal (length s.files)
    ++ codes "\n  First backup done: "
    ++ (if s.first_backup_done then codes "yes" else codes "no")
    ++ codes "\n")

-- strrchr(s, c): the rest of the text from the last `c` on.
unfoldable pub strrchr : ℕ → Bytes → Option Bytes
strrchr c [] = none
strrchr c (x ∷ s) = elim (strrchr c s) [
  | some rest ↦ some rest
  | none ↦ if x == c then some (x ∷ s) else none
]

unfoldable pub restored_filename : Bytes → ℤ → Bytes
restored_filename filename arg =
    let name = basename filename in
    let mark = codes "_restored_" ++ int_text arg in
    take 4095 (elim (strrchr b'.' name) [
      | none ↦ name ++ mark
      | some dot ↦ take (length name - length dot) name ++ mark ++ dot
    ])

unfoldable pub answer_restore : Outside → ℕ → Command → MonitorState → Bytes
answer_restore os room cmd s =
    if os.restore_file_to_sample s cmd.filename cmd.arg
    then put_response room (
        codes "File "
        ++ cmd.filename
        ++ codes " restored to sample "
        ++ int_text cmd.arg
        ++ codes " as "
        ++ restored_filename cmd.filename cmd.arg
        ++ codes "\n")
    else put_response room (
        codes "Failed to restore file "
        ++ cmd.filename
        ++ codes " to sample "
        ++ int_text cmd.arg
        ++ codes "\n")

-- The switch over the kinds of commands.
unfoldable pub answer : CommandType → Outside → ℕ → Command → MonitorState → MonitorState × Bytes
answer cmd_show_diff os room cmd s = (s, answer_show_diff os room s)
answer cmd_show_k_diffs os room cmd s = (s, answer_show_k_diffs os room cmd.arg s)
answer cmd_set_pid os room cmd s = answer_set_pid os room cmd.arg s
answer cmd_set_period os room cmd s = answer_set_period room cmd.arg s
answer cmd_status os room cmd s = (s, answer_status room s)
answer cmd_restore os room cmd s = (s, answer_restore os room cmd s)
answer cmd_unknown os room cmd s = (s, put_response room (codes "Unknown command\n"))

-- The state, and the response in its `room` bytes.
unfoldable pub process_command : Outside → ℕ → Command → MonitorState → MonitorState × Bytes
process_command os room cmd s = answer cmd.kind os room cmd s
