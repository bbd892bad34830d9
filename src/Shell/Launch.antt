-- ===== src/Shell/Launch.antt =====
-- RunCmd of sem_1/homework/src/run_cmd.c: a process for each command of the line, with a pipe
-- between each two.
pub mod Wiring
mod Tests
use sem.Descriptors.{Table, open_lowest, close_at, dup2}
use sem.Base.{
  ℕ, zero, suc, ◌-◌, Bool, not, Option, none, some, List, [], ◌∷◌, ◌++◌, ltb, if◌then◌else◌, not,
}
use sem.Text.{Bytes}

-- The ends of the pipe that was made in the round i.
pub data End : Type 0 where
  terminal : End
  reads_from writes_to : ℕ → End

-- Whether the i-th pipe() and the i-th fork() succeed.
pub record Calls : Type 0 where
  pub pipe : ℕ → Bool
  pub fork : ℕ → Bool

-- `started` holds the open files of each child at its execvp.
pub record Shell : Type 0 where
  pub table : Table End
  pub prev_pipe_read : Option ℕ
  pub started : List (Table End)

-- exit(1) where no pipe is made, return where no process is, and the end of the loop.
pub data Ending : Type 0 where
  exited gave_up waited : Ending

-- Standard input, output and error.
abbrev pub console : Table End
console = some terminal ∷ some terminal ∷ some terminal ∷ []

-- A child whose pipe has the descriptors `r` and `w`; `more` says that the command is not the last.
unfoldable pub child_table : Bool → Option ℕ → ℕ → ℕ → Table End → Table End
child_table more prev r w t =
    let redirected : Table End = elim prev [ none ↦ t | some p ↦ close_at p (dup2 p 0 t) ] in
    if more then close_at w (close_at r (dup2 w 1 redirected)) else redirected

-- What the parent keeps open for the next round.
unfoldable pub after_fork : Bool → ℕ → ℕ → Shell → Shell
after_fork more r w s =
    let t : Table End = elim s.prev_pipe_read [ none ↦ s.table | some p ↦ close_at p s.table ] in
    if more
    then record s { table = close_at w t; prev_pipe_read = some r }
    else record s { table = t }

-- pipe() in the round i: its two descriptors
unfoldable pub open_pipe : ℕ → Table End → ℕ × ℕ × Table End
open_pipe i t =
    let (r, reading) = open_lowest (reads_from i) t in
    let (w, both) = open_lowest (writes_to i) reading in (r, w, both)

unfoldable pub start_command : Bool → ℕ → Shell → Shell
start_command more i s =
    let (r, w, both) = open_pipe i s.table in
    let child = child_table more s.prev_pipe_read r w both in
    after_fork more r w (record s { table = both; started = s.started ++ child ∷ [] })

-- The rounds from `i` on, of which `left` are left.
unfoldable pub run_commands : Calls → ℕ → ℕ → ℕ → Shell → Ending × Shell
run_commands calls cmd_count zero i s = (waited, s)
run_commands calls cmd_count (suc left) i s =
    let started = start_command (ltb i (cmd_count - 1)) i s in
    let rest = run_commands calls cmd_count left (suc i) started in
    if not (calls.pipe i)
    then (exited, s)
    else (if calls.fork i then rest else (gave_up, record s { table = (open_pipe i s.table).2 }))

-- RunCmd up to the waiting.
unfoldable pub run_cmd : Calls → ℕ → Ending × Shell
run_cmd calls cmd_count =
    run_commands calls cmd_count cmd_count 0
      (record { table = console; prev_pipe_read = none; started = [] })
