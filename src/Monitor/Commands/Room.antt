-- ===== src/Monitor/Commands/Room.antt =====
-- The responses of task_6/homework/src/ipc.c and the buffer they are put in.
use sem.Monitor.Commands.{
  CommandType, cmd_show_diff, cmd_show_k_diffs, cmd_set_pid, cmd_set_period, cmd_status,
  cmd_restore, cmd_unknown, Command,
}
use sem.Monitor.Commands.Answers.{
  append, append_all, put_response, Outside, pattern_of, add_diffs, answer_show_diff, add_names,
  add_samples, answer_show_k_diffs, cwd_of, answer_set_pid, is_period, answer_set_period,
  answer_status, answer_restore, answer, process_command,
}
use sem.Base.{
  ℕ, zero, suc, ◌-◌, ◌<◌, inl, inr, List, [], ◌∷◌, arith, Bool-cases, Option-cases, length,
  length-append, take, length-take,
}
use sem.Text.{Bytes}
use sem.Monitor.State.{MonitorState}

append-short :
    (room : ℕ) (text response : Bytes)
    → length response < room
    → length (append room text response) < room
unfolding append
append-short room text response h = omega (
  arith,
  length-append response (take (room - length response - 1) text),
  length-take (room - length response - 1) text,
)

append_all-short :
    (room : ℕ) (texts : List Bytes) (response : Bytes)
    → length response < room
    → length (append_all room texts response) < room
unfolding append_all
append_all-short room [] response h = h
append_all-short room (t ∷ texts) response h =
    append_all-short room texts (append room t response) (append-short room t response h)

put_response-short : (room : ℕ) (text : Bytes) → 0 < room → length (put_response room text) < room
put_response-short room text h = omega (arith, length-take (room - 1) text)

add_diffs-short :
    (os : Outside) (room : ℕ) (paths : List Bytes) (response : Bytes)
    → length response < room
    → length (add_diffs os room paths response) < room
unfolding add_diffs
add_diffs-short os room [] response h = h
add_diffs-short os room (path ∷ paths) response h =
    add_diffs-short os room paths _ (elim (Option-cases (os.get_diff_content path)) [
      | inl e ↦ rw e h
      | inr (content, e) ↦ rw e (append_all-short room _ response h)
    ])

add_names-short :
    (room sample : ℕ) (paths : List Bytes) (response : Bytes)
    → length response < room
    → length (add_names room sample paths response) < room
unfolding add_names
add_names-short room sample [] response h = h
add_names-short room sample (path ∷ paths) response h =
    add_names-short room sample paths _ (append_all-short room _ response h)

add_samples-short :
    (os : Outside) (room left sample : ℕ) (response : Bytes)
    → length response < room
    → length (add_samples os room left sample response) < room
unfolding add_samples
add_samples-short os room zero sample response h = h
add_samples-short os room (suc left) sample response h =
    add_samples-short os room left (suc sample) _
      (elim (Option-cases (os.glob (pattern_of sample))) [
        | inl e ↦ rw e h
        | inr (paths, e) ↦ rw e (add_names-short room sample paths response h)
      ])

answer-short :
    (kind : CommandType) (os : Outside) (room : ℕ) (cmd : Command) (s : MonitorState)
    → 0 < room
    → length (answer kind os room cmd s).1 < room
unfolding answer answer_show_diff answer_show_k_diffs answer_set_pid answer_set_period answer_status
    answer_restore
answer-short cmd_show_diff os room cmd s h =
    elim (Option-cases (os.glob (pattern_of s.current_sample))) [
      | inl e ↦ rw (answer, answer_show_diff, e) (append-short room _ [] h)
      | inr (paths, e) ↦
          rw (answer, answer_show_diff, e)
            (add_diffs-short os room (take 5 paths) _ (append-short room _ [] h))
    ]
answer-short cmd_show_k_diffs os room cmd s h =
    add_samples-short os room _ _ _ (append_all-short room _ [] h)
answer-short cmd_set_pid os room cmd s h = elim (Option-cases (cwd_of os cmd.arg)) [
  | inl e ↦ rw (answer, answer_set_pid, e) (put_response-short room _ h)
  | inr (found, e) ↦ rw (answer, answer_set_pid, e) (put_response-short room _ h)
]
answer-short cmd_set_period os room cmd s h = elim (Bool-cases (is_period cmd.arg)) [
  | inl e ↦ rw e (put_response-short room _ h)
  | inr e ↦ rw e (put_response-short room _ h)
]
answer-short cmd_status os room cmd s h = put_response-short room _ h
answer-short cmd_restore os room cmd s h =
    elim (Bool-cases (os.restore_file_to_sample s cmd.filename cmd.arg)) [
      | inl e ↦ rw e (put_response-short room _ h)
      | inr e ↦ rw e (put_response-short room _ h)
    ]
answer-short cmd_unknown os room cmd s h = put_response-short room _ h

-- The response of every command, with its null byte, fits the buffer that it is given, however
-- many files the patterns find and however long the diffs and the names are.
pub process_command-short :
    (os : Outside) (room : ℕ) (cmd : Command) (s : MonitorState)
    → 0 < room
    → length (process_command os room cmd s).1 < room
unfolding process_command
process_command-short os room cmd s h = answer-short cmd.kind os room cmd s h
