-- ===== src/Monitor/Commands/Tests.antt =====
-- Commands to a daemon that watches an empty directory.

use sem.Monitor.Commands.{pos, cmd_show_diff, cmd_set_pid, Command}
use sem.Monitor.Commands.Answers.{Outside, process_command}
use sem.Monitor.Commands.Config.{process_command-HasPeriod, HasPeriod, AreKept}
use sem.Monitor.Commands.Room.{process_command-short}
use sem.Base.{◌<◌, false, none, some, [], ◌∷◌, arith, ◌==◌, if◌then◌else◌, length}
use sem.Text.{codes}
use sem.Monitor.State.{MonitorState, init_monitor_state}

abbrev outside : Outside
outside = record {
  glob = λ pattern. some (codes "/tmp/daemon_backups/diff_a.txt_sample_0" ∷ []);
  get_diff_content = λ path. some (codes "-- new\n");
  get_process_cwd = λ pid. if pid == 8 then some (codes "/e") else none;
  restore_file_to_sample = λ s name n. false;
}

abbrev start : MonitorState
start = init_monitor_state 7 (codes "/d")

abbrev move : Command
move = record { kind = cmd_set_pid; arg = pos 8; filename = [] }

start-HasPeriod : HasPeriod start
unfolding init_monitor_state
start-HasPeriod = (omega arith, omega arith)

process_command-HasPeriod_example :
    AreKept start (process_command outside 8192 move start).0
    × HasPeriod (process_command outside 8192 move start).0
process_command-HasPeriod_example =
    process_command-HasPeriod outside 8192 move start start-HasPeriod

process_command-short_example :
    length (process_command outside 20 (record move { kind = cmd_show_diff }) start).1 < 20
process_command-short_example =
    process_command-short outside 20 (record move { kind = cmd_show_diff }) start (omega arith)
