-- ===== src/Duplex/Descriptors.antt =====
-- What sem_2/homework reads and writes through it.
use sem.Descriptors.{Table, object_at}
use sem.Base.{ℕ, Option, none, some, List, [], ◌∷◌, ◌++◌, length, take, drop}
use sem.Text.{Bytes}

pub data Pipe : Type 0 where
  direct back : Pipe

-- `source_file` is parent.txt, opened for reading, and `copy_file` is child.txt, for writing.
pub data Object : Type 0 where
  terminal source_file copy_file : Object
  reader writer : Pipe → Object

abbrev pub Objects : Type 0
Objects = Table Object

-- `source` is what is left of parent.txt and `copy` what child.txt holds. What the other process
-- does is given: `incoming` are the results of the reads of a pipe, with the end of the file
-- behind them, and `accepts` says how much of so many bytes a write to a pipe takes.
pub record World : Type 0 where
  pub source : Bytes
  pub copy : Bytes
  pub incoming : List (Option Bytes)
  pub accepts : ℕ → Option ℕ
  pub sent : List (Pipe × Bytes)

unfoldable pub next_incoming : ℕ → World → Option Bytes × World
next_incoming n w = elim w.incoming [
  | [] ↦ (some [], w)
  | ◌∷◌ none rest ↦ (none, record w { incoming = rest })
  | ◌∷◌ (some b) rest ↦ (some (take n b), record w { incoming = rest })
]

-- read(); none is -1. A file gives as much as is asked for, if it has it.
unfoldable pub read_at : Objects → ℕ → ℕ → World → Option Bytes × World
read_at t fd n w = elim (object_at t fd) [
  | some source_file ↦ (some (take n w.source), record w { source = drop n w.source })
  | some (reader p) ↦ next_incoming n w
  | some (writer p) ↦ (none, w)
  | some terminal ↦ (some [], w)
  | some copy_file ↦ (none, w)
  | none ↦ (none, w)
]

-- write(); a file takes everything.
unfoldable pub write_at : Objects → ℕ → Bytes → World → Option ℕ × World
write_at t fd b w = elim (object_at t fd) [
  | some copy_file ↦ (some (length b), record w { copy = w.copy ++ b })
  | some (writer p) ↦ elim (w.accepts (length b)) [
    | none ↦ (none, w)
    | some k ↦ (some k, record w { sent = w.sent ++ (p, take k b) ∷ [] })
  ]
  | some (reader p) ↦ (none, w)
  | some terminal ↦ (some (length b), w)
  | some source_file ↦ (none, w)
  | none ↦ (none, w)
]
