-- ===== src/Duplex/Tests.antt =====
-- Files and two_chunks that sem_2/homework copies.
use sem.Descriptors.{open_count}
use sem.Duplex.Descriptors.{Objects, World}
use sem.Duplex.Processes.{run_main}
use sem.Duplex.Copy.{run_main-copied, all_made, all_closed}
use sem.Duplex.Closed.{run_main-closed}
use sem.Duplex.Echo.{IsChunk}
use sem.Base.{ℕ, ◌≡◌, true, some, List, [], ◌∷◌, arith, take, replicate, All}
use sem.Text.{Bytes}

-- A file of n bytes.
abbrev file : ℕ → World
file n = record { source = replicate n 97; copy = []; incoming = []; accepts = some; sent = [] }

run_main-copied_example :
    (rest : Bytes) × run_main all_made true true (file 3)
      ≡ some (record (file 3) { source = rest; copy = take 3 (replicate 3 97) }, all_closed)
run_main-copied_example = run_main-copied (file 3)

run_main-closed_example :
    (v : World) × (t : Objects) × (run_main all_made true true (file 3) ≡ some (v, t))
    × (open_count t ≡ 3)
run_main-closed_example = run_main-closed true true true true true true (file 3)

abbrev two_chunks : List Bytes
two_chunks = (97 ∷ 98 ∷ []) ∷ (99 ∷ []) ∷ []

two_chunks-IsChunk : All IsChunk two_chunks
two_chunks-IsChunk = ((omega arith, omega arith), ((omega arith, omega arith), tt))
