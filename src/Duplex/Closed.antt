-- ===== src/Duplex/Closed.antt =====
-- Whether sem_2/homework closes what it opens.
use sem.Descriptors.{open_lowest, open_count}
use sem.Duplex.Descriptors.{Objects, World}
use sem.Duplex.Processes.{
  close_parent_pipes, close_all_pipes, run_parent, create_duplex_pipe, destroy_duplex_pipe, run,
  run_main, standard,
}
use sem.Duplex.Copy.{run_main-copied, all_closed}
use sem.Base.{◌≡◌, refl, Bool, true, false, some}

-- Where the second pipe can be opened, main comes to its end, whatever of these fails: the two
-- allocations, the first pipe, fork, or the opening of either file. That includes its wait for the
-- child, which comes back only if neither process holds an end of a pipe that could keep the child
-- waiting. Then nothing but the three standard files is open.
pub run_main-closed :
    (self buffer first_pipe fork has_source has_copy : Bool) (w : World)
    → (v : World) × (t : Objects) × (run_main
          (record {
            self = self;
            buffer = buffer;
            first_pipe = first_pipe;
            second_pipe = true;
            fork = fork;
          })
          has_source
          has_copy
          w
        ≡ some (v, t))
      × (open_count t ≡ 3)
unfolding open_lowest create_duplex_pipe close_parent_pipes run_parent close_all_pipes
    destroy_duplex_pipe run run_main
run_main-closed true true true true true true w =
    let (rest, e) = run_main-copied w in (_, all_closed, e, refl)
run_main-closed true true true true true false w = (w, _, refl, refl)
run_main-closed true true true true false has_copy w = (w, _, refl, refl)
run_main-closed true true true false has_source has_copy w = (w, _, refl, refl)
run_main-closed false buffer first_pipe fork has_source has_copy w = (w, standard, refl, refl)
run_main-closed true false first_pipe fork has_source has_copy w = (w, standard, refl, refl)
run_main-closed true true false fork has_source has_copy w = (w, standard, refl, refl)
