-- ===== src/Monitor/Commands/Config.antt =====
-- What the commands of task_6/homework/src/ipc.c change, and how long their responses are.
use sem.Monitor.Commands.{
  ℤ, pos, negsuc, CommandType, cmd_show_diff, cmd_show_k_diffs, cmd_set_pid, cmd_set_period,
  cmd_status, cmd_restore, cmd_unknown, Command,
}
use sem.Monitor.Commands.Answers.{
  Outside, cwd_of, answer_set_pid, is_period, magnitude, answer_set_period, answer, process_command,
}
use sem.Base.{ℕ, ◌<◌, ◌≡◌, refl, inl, inr, true, arith, Bool-cases, Option-cases}
use sem.Monitor.State.{MonitorState}

-- The watches, the queue and the counter stay as they are.
abbrev pub AreKept : MonitorState → MonitorState → Type 0
AreKept s t =
    (t.watch_list ≡ s.watch_list)
    × (t.changed_files_queue ≡ s.changed_files_queue)
    × (t.current_sample ≡ s.current_sample)

-- A period that nanosleep takes.
abbrev pub HasPeriod : MonitorState → Type 0
HasPeriod s = (0 < s.sample_period_ms) × (s.sample_period_ms < 3600000)

-- What a command may do to the state.
abbrev IsFitting : MonitorState → MonitorState → Type 0
IsFitting s t = AreKept s t × (HasPeriod s → HasPeriod t)

answer_set_pid-IsFitting :
    (os : Outside) (room : ℕ) (arg : ℤ) (s : MonitorState)
    → IsFitting s (answer_set_pid os room arg s).0
unfolding answer_set_pid
answer_set_pid-IsFitting os room arg s = elim (Option-cases (cwd_of os arg)) [
  | inl e ↦ rw (answer_set_pid, e) ((refl, refl, refl), λ h. h)
  | inr (found, e) ↦ rw (answer_set_pid, e) ((refl, refl, refl), λ h. h)
]

magnitude-is_period :
    (arg : ℤ) → is_period arg ≡ true → (0 < magnitude arg) × (magnitude arg < 3600000)
magnitude-is_period (pos n) h = (ground arith, ground arith)
magnitude-is_period (negsuc n) h = cc

answer_set_period-IsFitting :
    (room : ℕ) (arg : ℤ) (s : MonitorState) → IsFitting s (answer_set_period room arg s).0
unfolding answer_set_period
answer_set_period-IsFitting room arg s = elim (Bool-cases (is_period arg)) [
  | inl e ↦ rw e ((refl, refl, refl), λ h. magnitude-is_period arg e)
  | inr e ↦ rw e ((refl, refl, refl), λ h. h)
]

answer-IsFitting :
    (kind : CommandType) (os : Outside) (room : ℕ) (cmd : Command) (s : MonitorState)
    → IsFitting s (answer kind os room cmd s).0
unfolding answer
answer-IsFitting cmd_show_diff os room cmd s = ((refl, refl, refl), λ h. h)
answer-IsFitting cmd_show_k_diffs os room cmd s = ((refl, refl, refl), λ h. h)
answer-IsFitting cmd_set_pid os room cmd s = answer_set_pid-IsFitting os room cmd.arg s
answer-IsFitting cmd_set_period os room cmd s = answer_set_period-IsFitting room cmd.arg s
answer-IsFitting cmd_status os room cmd s = ((refl, refl, refl), λ h. h)
answer-IsFitting cmd_restore os room cmd s = ((refl, refl, refl), λ h. h)
answer-IsFitting cmd_unknown os room cmd s = ((refl, refl, refl), λ h. h)

pub process_command-AreKept :
    (os : Outside) (room : ℕ) (cmd : Command) (s : MonitorState)
    → AreKept s (process_command os room cmd s).0
unfolding process_command
process_command-AreKept os room cmd s = (answer-IsFitting cmd.kind os room cmd s).0

-- No command touches the watches, the queue of changed files or the number of the sample, not even
-- the one that moves the monitor to another process and directory; and the period stays between
-- one millisecond and one hour, whatever number a command carries.
pub process_command-HasPeriod :
    (os : Outside) (room : ℕ) (cmd : Command) (s : MonitorState)
    → HasPeriod s
    → AreKept s (process_command os room cmd s).0 × HasPeriod (process_command os room cmd s).0
unfolding process_command
process_command-HasPeriod os room cmd s h =
    let (kept, period) = answer-IsFitting cmd.kind os room cmd s in (kept, period h)
