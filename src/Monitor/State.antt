-- ===== src/Monitor/State.antt =====
-- task_6/homework/include/daemon.h: the state of the monitor. The counts and capacities of its arrays
-- are the lengths of the lists; a descriptor of -1 is `false` in `inotify_open`.
use sem.Base.{ℕ, List, Bool, false, []}
use sem.Text.{Bytes}

pub record FileInfo : Type 0 where
  pub path : Bytes
  pub mtime : ℕ
  pub size : ℕ
  pub exists : Bool

pub record WatchInfo : Type 0 where
  pub wd : ℕ
  pub path : Bytes

pub record MonitorState : Type 0 where
  pub files : List FileInfo
  pub monitored_dir : Bytes
  pub monitored_pid : ℕ
  pub sample_period_ms : ℕ
  pub current_sample : ℕ
  pub first_backup_done : Bool
  pub inotify_open : Bool
  pub watch_list : List WatchInfo
  pub changed_files_queue : List Bytes

unfoldable pub init_monitor_state : ℕ → Bytes → MonitorState
init_monitor_state pid cwd = record {
  files = [];
  monitored_dir = cwd;
  monitored_pid = pid;
  sample_period_ms = 10000;
  current_sample = 0;
  first_backup_done = false;
  inotify_open = false;
  watch_list = [];
  changed_files_queue = [];
}
