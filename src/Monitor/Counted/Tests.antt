-- ===== src/Monitor/Counted/Tests.antt =====
-- Two samples, a command and exit in the interactive mode.
use sem.Monitor.Interactive.{timed_out, line, Turn, chomp, request, run_interactive}
use sem.Monitor.Counted.{run_interactive-current_sample}
use sem.Monitor.Daemon.{init_inotify}
use sem.Monitor.Commands.{pos, cmd_status, Command}
use sem.Monitor.Commands.Answers.{Outside}
use sem.Base.{ℕ, ◌≡◌, refl, Bool, true, Option, none, some, List, [], ◌∷◌}
use sem.Text.{Bytes, codes, equal, starts_with, cstr}
use sem.Monitor.State.{MonitorState, init_monitor_state}
use sem.Monitor.Watch.{Tree, opened, no_more, add_inotify_watch_recursive}
use sem.Monitor.Events.{nothing}

abbrev no_answers : Outside
no_answers = record {
  glob = λ pattern. none;
  get_diff_content = λ path. none;
  get_process_cwd = λ pid. none;
  restore_file_to_sample = λ s name n. true;
}

abbrev any_command : Command
any_command = record { kind = cmd_status; arg = pos 0; filename = [] }

abbrev all_text : Bytes → Bool
all_text path = true

abbrev empty_folder : Bytes → Tree
empty_folder path = opened (some 1) true no_more

abbrev as_it_is : MonitorState → MonitorState
as_it_is s = s

abbrev no_change : MonitorState → MonitorState × Option ℕ
no_change s = (s, some 0)

abbrev typed_line : Bytes → Turn
typed_line text = record { events_read = nothing; selected = line text; garbage = any_command }

abbrev waited : Turn
waited = record { events_read = nothing; selected = timed_out; garbage = any_command }

abbrev some_turns : List Turn
some_turns =
    waited
    ∷ typed_line (codes "\n")
    ∷ typed_line (codes "?\n")
    ∷ typed_line (codes "exit\n")
    ∷ waited
    ∷ []

abbrev fresh_state : MonitorState
fresh_state = init_monitor_state 7 (codes "/d")

run_interactive-current_sample_example :
    (t : MonitorState) × (messages : List Bytes) × (run_interactive all_text empty_folder no_answers
        as_it_is no_change true some_turns fresh_state
      ≡ some (t, messages))
    × (t.current_sample ≡ 2)
unfolding init_inotify init_monitor_state add_inotify_watch_recursive request equal chomp cstr
    starts_with
run_interactive-current_sample_example =
    run_interactive-current_sample all_text empty_folder no_answers as_it_is no_change (λ s. refl)
      some_turns fresh_state refl
