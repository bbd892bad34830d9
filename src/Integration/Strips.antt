-- ===== src/Integration/Strips.antt =====
-- task_8/homework/client/src/client.c: the strips of the plane and the sum of their integrals.
use sem.Base.{
  ℕ, zero, suc, ◌+◌, ◌-◌, ◌/◌, ◌%◌, Bool, not, ◌&&◌, Option, none, some, List, [], ◌∷◌, ltb, ◌==◌,
  if◌then◌else◌, length,
}
use sem.Integration.Floats.{Floats}
use sem.Integration.Messages.{Task, Result}
use sem.Integration.Discovery.{ServerInfo, Datagram, Sockets, discover_servers_udp}
use sem.Integration.Exchange.{Net, send_task_to_server}

-- ClientConfig of client/include/config.h
pub record ClientConfig (D : Type 0) : Type 0 where
  pub use_broadcast : Bool
  pub server_list : List ServerInfo
  pub num_rectangles_sqrt : ℕ
  pub points_per_rectangle : ℕ
  pub timeout : ℕ
  pub x_min : D
  pub x_max : D
  pub y_min : D
  pub y_max : D

pub record TaskJob (D : Type 0) : Type 0 where
  pub server : ServerInfo
  pub task : Task D
  -- none for the status -1
  pub result : Option (Result D)

-- The client's config afterwards, and what the C code returns, none for -1.
unfoldable pub discover_servers :
    {D : Type 0} → Sockets → List Datagram → ClientConfig D → ClientConfig D × Option ℕ
discover_servers k ds cfg =
    let (servers, discovered) = discover_servers_udp k ds in
    let found = record cfg { server_list = servers } in
    if cfg.use_broadcast
    then elim discovered [
      | none ↦ (found, none)
      | some zero ↦ (found, none)
      | some (suc n) ↦ (found, some (suc n))
    ]
    else (cfg, some (length cfg.server_list))

-- Whether the C code returns 0.
unfoldable pub validate_server_count : {D : Type 0} → ClientConfig D → Bool
validate_server_count cfg = not (length cfg.server_list == 0)

-- base_points_per_strip + (strip_idx < remainder ? 1 : 0); a division by 0 is not reached.
unfoldable pub points_of : ℕ → ℕ → ℕ → ℕ
points_of total n i = total / n + (if ltb i (total % n) then 1 else 0)

module _ (f : Floats) where
  open f use {Double, add, sub, mul, div, of_size}

  -- The task of strip `i` of `n`.
  unfoldable pub strip : ClientConfig Double → ℕ → ℕ → Task Double
  strip cfg n i =
      let strip_width = div (sub cfg.x_max cfg.x_min) (of_size n) in
      let strip_x_min = add cfg.x_min (mul (of_size i) strip_width) in
      record {
        x_min = strip_x_min;
        x_max = if i == n - 1 then cfg.x_max else add strip_x_min strip_width;
        y_min = cfg.y_min;
        y_max = cfg.y_max;
        num_points = points_of cfg.points_per_rectangle n i;
      }

  -- The jobs for these servers, the first of them strip `i` of `n`. `creates` says whether a thread
  -- starts, and `net i` is the connection of its task_worker.
  unfoldable pub run_jobs :
      ClientConfig Double → (ℕ → Bool) → (ℕ → Net) → ℕ → ℕ → List ServerInfo → List (TaskJob Double)
  run_jobs cfg creates net n i [] = []
  run_jobs cfg creates net n i (s ∷ ss) =
      let task = strip cfg n i in
      record {
        server = s;
        task = task;
        result = if creates i then send_task_to_server f (net i) s task else none;
      }
      ∷ run_jobs cfg creates net n (suc i) ss

  -- The loop that joins the threads.
  unfoldable pub add_results : Double → List (TaskJob Double) → Double
  add_results total [] = total
  add_results total (j ∷ js) = elim j.result [
    | none ↦ add_results total js
    | some r ↦ add_results (add total r.integral_value) js
  ]

  -- `jobs_given` and `threads_given` say that calloc gives memory.
  unfoldable pub compute_integral_distributed :
      Bool → Bool → (ℕ → Bool) → (ℕ → Net) → ClientConfig Double → Double
  compute_integral_distributed jobs_given threads_given creates net cfg =
      let n = length cfg.server_list in
      let zero_sum = of_size 0 in
      if n == 0
      then zero_sum
      else if jobs_given && threads_given
      then add_results zero_sum (run_jobs cfg creates net n 0 cfg.server_list)
      else zero_sum
