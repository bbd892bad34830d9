-- ===== src/Integration/Points.antt =====
-- The points that compute_integral_distributed of task_8/homework deals out, and its sum.
use sem.Base.{
  ℕ, ◌+◌, ◌*◌, ◌/◌, ◌%◌, ◌≤◌, ◌<◌, min, ◌≡◌, Bool, List, [], ◌∷◌, map, length, All, suc, refl, ap,
  inl, inr, arith, ltb, ltb→lt, Bool-cases,
}
use native.Mathlib.Nat.{div-add-mod, mod-lt}
use sem.Integration.Floats.{Floats}
use sem.Integration.Discovery.{ServerInfo}
use sem.Integration.Exchange.{Net}
use sem.Integration.Strips.{ClientConfig, strip, points_of, TaskJob, run_jobs}

unfoldable pub sum_points : {D : Type 0} → List (TaskJob D) → ℕ
sum_points [] = 0
sum_points (j ∷ js) = j.task.num_points + sum_points js

-- The points of the strips from `i` on: each has the base, and those below the remainder one more.
sum_points-run_jobs :
    (f : Floats) (cfg : ClientConfig f.Double) (creates : ℕ → Bool) (net : ℕ → Net) (n i : ℕ)
    (ss : List ServerInfo)
    → let total = cfg.points_per_rectangle in
      sum_points (run_jobs f cfg creates net n i ss) + min i (total % n)
      ≡ length ss * (total / n) + min (i + length ss) (total % n)
unfolding sum_points run_jobs strip points_of
sum_points-run_jobs f cfg creates net n i [] = omega arith
sum_points-run_jobs f cfg creates net n i (s ∷ ss) =
    let r = cfg.points_per_rectangle % n in
    let rest = sum_points-run_jobs f cfg creates net n (suc i) ss in
    elim (Bool-cases (ltb i r)) [
      | inl more ↦ rw more (omega (arith, rest, ltb→lt i r more))
      | inr same ↦ rw same (ground (arith, rest))
    ]

run_jobs-servers :
    (f : Floats) (cfg : ClientConfig f.Double) (creates : ℕ → Bool) (net : ℕ → Net) (n i : ℕ)
    (ss : List ServerInfo)
    → map (λ j. j.server) (run_jobs f cfg creates net n i ss) ≡ ss
unfolding run_jobs
run_jobs-servers f cfg creates net n i [] = refl
run_jobs-servers f cfg creates net n i (s ∷ ss) =
    ap (◌∷◌ s) (run_jobs-servers f cfg creates net n (suc i) ss)

-- The points of a job are the base, or one more.
abbrev IsFair : {D : Type 0} → ℕ → TaskJob D → Type 0
IsFair base j = (base ≤ j.task.num_points) × (j.task.num_points ≤ base + 1)

run_jobs-IsFair :
    (f : Floats) (cfg : ClientConfig f.Double) (creates : ℕ → Bool) (net : ℕ → Net) (n i : ℕ)
    (ss : List ServerInfo)
    → All (IsFair (cfg.points_per_rectangle / n)) (run_jobs f cfg creates net n i ss)
unfolding run_jobs strip points_of
run_jobs-IsFair f cfg creates net n i [] = tt
run_jobs-IsFair f cfg creates net n i (s ∷ ss) =
    ((ground arith, ground arith), run_jobs-IsFair f cfg creates net n (suc i) ss)

-- With one server at least, the jobs together have exactly the points that were asked for, there is
-- one for each server in its order, and any two differ by one point at most.
pub run_jobs-sum_points :
    (f : Floats) (cfg : ClientConfig f.Double) (creates : ℕ → Bool) (net : ℕ → Net)
    → 0 < length cfg.server_list
    → let jobs = run_jobs f cfg creates net (length cfg.server_list) 0 cfg.server_list in
      (sum_points jobs ≡ cfg.points_per_rectangle)
      × (map (λ j. j.server) jobs ≡ cfg.server_list)
      × All
          (λ j.
            (cfg.points_per_rectangle / length cfg.server_list ≤ j.task.num_points)
            × (j.task.num_points ≤ cfg.points_per_rectangle / length cfg.server_list + 1))
          jobs
run_jobs-sum_points f cfg creates net h =
    let n = length cfg.server_list in
    let total = cfg.points_per_rectangle in
    (
      omega (
        arith,
        sum_points-run_jobs f cfg creates net n 0 cfg.server_list,
        div-add-mod total n,
        mod-lt total h,
      ),
      run_jobs-servers f cfg creates net n 0 cfg.server_list,
      run_jobs-IsFair f cfg creates net n 0 cfg.server_list,
    )
