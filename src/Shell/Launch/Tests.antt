-- ===== src/Shell/Launch/Tests.antt =====
-- A line of three commands.
use sem.Descriptors.{open_count}
use sem.Shell.Launch.Wiring.{run_cmd-pipeline, all_granted, pipeline, streams}
use sem.Shell.Launch.{Shell, waited, run_cmd}
use sem.Base.{◌≡◌, map}

run_cmd-pipeline_example :
    (t : Shell) × (run_cmd all_granted 3 ≡ (waited, t))
    × (map streams t.started ≡ pipeline 3 0)
    × (open_count t.table ≡ 5)
run_cmd-pipeline_example = run_cmd-pipeline 2
