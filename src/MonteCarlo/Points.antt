-- ===== src/MonteCarlo/Points.antt =====
-- The points that a thread of sem_4/homework/src/calculate.c looks at, and the part of the rectangle
-- that each thread has. Floating-point numbers and the random numbers are given.
use sem.Base.{ℕ, zero, suc, ◌+◌, ◌*◌, ◌/◌, ◌%◌, ◌^◌, Bool, List, [], ◌∷◌, ◌++◌, if◌then◌else◌}

-- The arithmetic of double, and rand_r: the new seed, and the number divided by RAND_MAX.
pub record Numeric (F : Type 0) : Type 0 where
  pub plus : F → F → F
  pub minus : F → F → F
  pub times : F → F → F
  pub over : F → F → F
  pub of_int : ℕ → F
  pub at_most : F → F → Bool
  pub rand_r : ℕ → ℕ × F

-- TOTAL_POINTS
abbrev pub total_points : ℕ
total_points = 10000000

pub record PthreadData (F : Type 0) : Type 0 where
  pub x_min : F
  pub x_max : F
  pub y_min : F
  pub y_max : F
  pub points_per_thread : ℕ
  pub seed : ℕ
  pub assigned_core : ℕ

module _ {F : Type 0} (num : Numeric F) (func : F → F) where
  -- The loop of MonteCarloThread: so many points, with the seed and local_count.
  unfoldable pub count_points : PthreadData F → ℕ → ℕ → ℕ → ℕ
  count_points d zero seed local_count = local_count
  count_points d (suc points) seed local_count =
      let (next, r) = num.rand_r seed in
      let x = num.plus d.x_min (num.times r (num.minus d.x_max d.x_min)) in
      let (later, q) = num.rand_r next in
      let y = num.plus d.y_min (num.times q (num.minus d.y_max d.y_min)) in
      let more = if num.at_most y (func x) then suc local_count else local_count in
      count_points d points later more

  -- local_count at the end of the loop
  unfoldable pub local_count_of : PthreadData F → ℕ
  local_count_of d = count_points d d.points_per_thread d.seed 0

-- What CalculateIntegral gives to its threads.
module _ {F : Type 0} (num : Numeric F) (side : ℕ) (x_min x_max y_min y_max : F) (now : ℕ) where
  abbrev pub cell : ℕ → ℕ → PthreadData F
  cell i j =
      let scale_step = num.over (num.of_int 1) (num.of_int side) in
      let x_step = num.times (num.minus x_max x_min) scale_step in
      let y_step = num.times (num.minus y_max y_min) scale_step in
      let index = i * side + j in
      record {
        x_min = num.plus x_min (num.times (num.of_int i) x_step);
        x_max = num.plus x_min (num.times (num.of_int (i + 1)) x_step);
        y_min = num.plus y_min (num.times (num.of_int j) y_step);
        y_max = num.plus y_min (num.times (num.of_int (j + 1)) y_step);
        points_per_thread = total_points / (side * side);
        seed = (now + index) % 2 ^ 32;
        assigned_core = index;
      }

  -- The inner loop from j on, with so many turns left, and the outer one.
  unfoldable pub cells_of_row : ℕ → ℕ → ℕ → List (PthreadData F)
  cells_of_row i j zero = []
  cells_of_row i j (suc turns) = cell i j ∷ cells_of_row i (suc j) turns

  unfoldable pub rows : ℕ → ℕ → List (PthreadData F)
  rows i zero = []
  rows i (suc turns) = cells_of_row i 0 side ++ rows (suc i) turns

  unfoldable pub thread_data : List (PthreadData F)
  thread_data = rows 0 side

  -- What CalculateIntegral returns for a counter.
  abbrev pub integral_of : ℕ → F
  integral_of counter =
      num.over
        (num.times (num.times (num.minus x_max x_min) (num.minus y_max y_min)) (num.of_int counter))
        (num.of_int total_points)
