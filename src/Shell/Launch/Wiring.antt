-- ===== src/Shell/Launch/Wiring.antt =====
-- Which pipe stands between which commands of sem_1/homework/src/run_cmd.c.
use sem.Descriptors.{Table, object_at, open_count, open_lowest}
use sem.Shell.Launch.{
  terminal, End, reads_from, writes_to, Shell, Calls, console, waited, run_commands, start_command,
  child_table, after_fork, open_pipe, run_cmd,
}
use sem.Base.{
  ℕ, zero, suc, ◌≡◌, true, Option, none, some, List, [], ◌∷◌, ◌+◌, ◌-◌, ◌∙◌, false, ◌++◌, map,
  append_assoc, map-append, arith, ltb, refl,
}

-- Standard input, output and error of a child, and how many files it has open.
abbrev pub streams : Table End → Option End × Option End × Option End × ℕ
streams t = (object_at t 0, object_at t 1, object_at t 2, open_count t)

abbrev source : ℕ → End
source zero = terminal
source (suc i) = reads_from i

-- The rounds from `i` on, of which `left` are left: a command reads from the pipe of the command
-- before it, and writes to its own, unless it is the last.
abbrev pub pipeline : ℕ → ℕ → List (Option End × Option End × Option End × ℕ)
pipeline zero i = []
pipeline (suc zero) i = (some (source i), some terminal, some terminal, 5) ∷ []
pipeline (suc (suc left)) i =
    (some (source i), some (writes_to i), some terminal, 3) ∷ pipeline (suc left) (suc i)

abbrev pub all_granted : Calls
all_granted = record { pipe = λ i. true; fork = λ i. true }

-- Before a round: the pipe of the round before is read through 3, with the table grown or not.
abbrev third : ℕ → Table End → List (Table End) → Shell
third i ends started = record {
  table = some terminal ∷ some terminal ∷ some terminal ∷ some (reads_from i) ∷ none ∷ ends;
  prev_pipe_read = some 3;
  started = started;
}

-- Or it is read through 4.
abbrev fourth : ℕ → List (Table End) → Shell
fourth i started = record {
  table = some terminal ∷ some terminal ∷ some terminal ∷ none ∷ some (reads_from i) ∷ none ∷ [];
  prev_pipe_read = some 4;
  started = started;
}

abbrev IsWired : ℕ → ℕ → ℕ → Shell → Type 0
IsWired cmd_count left i s =
    (t : Shell) × (run_commands all_granted cmd_count left i s ≡ (waited, t))
    × (map streams t.started ≡ map streams s.started ++ pipeline left i)
    × (open_count t.table ≡ 5)

-- A last round.
last-IsWired :
    (cmd_count i : ℕ) (s t : Shell) (child : Table End)
    → cmd_count ≡ suc i
    → start_command false i s ≡ t
    → t.started ≡ s.started ++ child ∷ []
    → streams child ≡ (some (source i), some terminal, some terminal, 5)
    → open_count t.table ≡ 5
    → IsWired cmd_count 1 i s
unfolding run_commands
last-IsWired cmd_count i s t child e started one child_streams five =
    let last : ltb i (cmd_count - 1) ≡ false = ground arith in
    (
      t,
      rw (run_commands, last, started),
      rw (one, map-append streams s.started (child ∷ []), child_streams),
      five,
    )

-- A round with one behind it.
more-IsWired :
    (cmd_count left i : ℕ) (s t : Shell) (child : Table End)
    → cmd_count ≡ suc i + suc left
    → start_command true i s ≡ t
    → t.started ≡ s.started ++ child ∷ []
    → streams child ≡ (some (source i), some (writes_to i), some terminal, 3)
    → IsWired cmd_count (suc left) (suc i) t
    → IsWired cmd_count (suc (suc left)) i s
unfolding run_commands
more-IsWired cmd_count left i s t child e started one child_streams wired =
    let more : ltb i (cmd_count - 1) ≡ true = ground arith in
    let (u, run, all, five) = wired in
    (
      u,
      rw (run_commands, more, started) run,
      all
          ∙ rw (one, map-append streams s.started (child ∷ []), child_streams)
              (append_assoc (map streams s.started) (_ ∷ []) (pipeline (suc left) (suc i))),
      five,
    )

-- Wherever a round but the first may find the parent.
abbrev AreWired : ℕ → ℕ → ℕ → List (Table End) → Type 0
AreWired cmd_count left i started =
    IsWired cmd_count left (suc i) (third i [] started)
    × IsWired cmd_count left (suc i) (third i (none ∷ []) started)
    × IsWired cmd_count left (suc i) (fourth i started)

last-AreWired :
    (cmd_count i : ℕ) (started : List (Table End))
    → cmd_count ≡ suc (suc i)
    → AreWired cmd_count 1 i started
unfolding open_lowest open_pipe child_table after_fork start_command
last-AreWired cmd_count i started e = (
  last-IsWired cmd_count (suc i) _ _ _ e refl refl refl refl,
  last-IsWired cmd_count (suc i) _ _ _ e refl refl refl refl,
  last-IsWired cmd_count (suc i) _ _ _ e refl refl refl refl,
)

later-AreWired :
    (left cmd_count i : ℕ) (started : List (Table End))
    → cmd_count ≡ suc i + suc left
    → AreWired cmd_count (suc left) i started
unfolding open_lowest open_pipe child_table after_fork start_command
later-AreWired zero cmd_count i started e = last-AreWired cmd_count i started (omega arith)
later-AreWired (suc left) cmd_count i started e = (
  more-IsWired cmd_count left (suc i) _ _ _ (omega arith) refl refl refl
      (later-AreWired left cmd_count (suc i) _ (omega arith)).2,
  more-IsWired cmd_count left (suc i) _ _ _ (omega arith) refl refl refl
      (later-AreWired left cmd_count (suc i) _ (omega arith)).2,
  more-IsWired cmd_count left (suc i) _ _ _ (omega arith) refl refl refl
      (later-AreWired left cmd_count (suc i) _ (omega arith)).1,
)

-- Where every pipe and every process can be made, RunCmd starts all commands of a line that has
-- one: each reads from the pipe of the one before it and writes to its own, the first reads from
-- the standard input and the last writes to the standard output; the error output of all is that
-- of the shell. All but the last start with no other descriptor than input, output and error (these
-- three are open, and three in all). The last starts with five, and five are open in the shell
-- behind the loop.
pub run_cmd-pipeline :
    (left : ℕ)
    → (t : Shell) × (run_cmd all_granted (suc left) ≡ (waited, t))
      × (map streams t.started ≡ pipeline (suc left) 0)
      × (open_count t.table ≡ 5)
unfolding open_lowest open_pipe child_table after_fork start_command run_cmd
run_cmd-pipeline zero =
    last-IsWired 1 0 (record { table = console; prev_pipe_read = none; started = [] }) _ _ refl refl
      refl refl refl
run_cmd-pipeline (suc left) =
    more-IsWired (suc (suc left)) left 0
      (record { table = console; prev_pipe_read = none; started = [] }) _ _ (omega arith) refl refl
      refl ((later-AreWired left (suc (suc left)) 0 _ (omega arith)).0)
