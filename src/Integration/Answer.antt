-- ===== src/Integration/Answer.antt =====
-- A task of task_8/homework on its way to a server and back.
use sem.Base.{
  ℕ, zero, suc, ◌+◌, ◌≤◌, ◌<◌, ◌≡◌, refl, true, some, arith, ◌==◌, if◌then◌else◌, if-both,
}
use sem.Numbers.{size_mod}
use sem.Integration.Floats.{Floats, IsPrinted}
use sem.Integration.Messages.{Task}
use sem.Integration.RoundTrip.{
  cstr-take-with_null, IsSendable, IsReturnable, rounded_task, task_text, rounded_result,
  result_text, task_text-no_null, task_text_short, serialize_task_lem, deserialize_task-text,
  result_text-no_null, result_text_short, serialize_result_lem, deserialize_result-text,
}
use sem.Integration.Discovery.{ServerInfo, tcp_task_port}
use sem.Integration.Exchange.{
  Net, send_task_to_server, count_inside, solve, with_null, between, handle_client,
}

-- No more points are counted than are drawn.
count_inside-le :
    (f : Floats) (rand : ℕ → ℕ) (n k : ℕ) (t : Task f.Double) (inside : ℕ)
    → count_inside f rand n k t inside ≤ inside + n
unfolding count_inside
count_inside-le f rand zero k t inside = omega arith
count_inside-le f rand (suc n) k t inside =
    let at = between f in
    let hit = f.at_most (at t.y_min t.y_max (rand (suc k))) (f.exp (at t.x_min t.x_max (rand k))) in
    if-both (λ m. count_inside f rand n (suc (suc k)) t m ≤ inside + suc n) hit
      (λ _. omega (arith, count_inside-le f rand n (suc (suc k)) t (suc inside)))
      (λ _. omega (arith, count_inside-le f rand n (suc (suc k)) t inside))

module _ (f : Floats) where
  open f use {Double}

  solve-IsReturnable :
      (rand : ℕ → ℕ) (t : Task Double)
      → IsPrinted f (solve f rand t).integral_value
      → t.num_points < size_mod
      → IsReturnable f (solve f rand t)
  unfolding solve
  solve-IsReturnable rand t p small = record {
    integral_value = p;
    points_inside = omega (arith, count_inside-le f rand t.num_points 0 t 0);
    total_points = small;
  }

  -- If the numbers of the task and the integral are printed as documented, the server solves the
  -- task as it was printed and read, and sends the answer with its null byte.
  handle_client-task :
      (rand : ℕ → ℕ) (t : Task Double)
      → IsSendable f t
      → IsPrinted f (solve f rand (rounded_task f t)).integral_value
      → handle_client f rand (some (with_null (task_text f t)))
        ≡ some (with_null (result_text f (solve f rand (rounded_task f t))))
  unfolding handle_client
  handle_client-task rand t h p =
      let r = solve-IsReturnable rand (rounded_task f t) p h.count_fits in
      rw (
        handle_client,
        cstr-take-with_null (task_text f t) 4095 (task_text-no_null f t h) (task_text_short f t h),
        deserialize_task-text f t h,
        serialize_result_lem f (solve f rand (rounded_task f t)) r,
      )

  -- If the connection is made and the request written, and what is read back is what handle_client
  -- sends for it, then the client has the result of the task as it was printed and read: the numbers
  -- of points exactly, at most as many inside as in all, and the integral as printed and read.
  pub send_task_to_server-handle_client :
      (rand : ℕ → ℕ) (net : Net) (server : ServerInfo) (t : Task Double)
      → net.opens ≡ true
      → ((a p : ℕ) → net.connects a p ≡ true)
      → net.writes ≡ true
      → net.answers (with_null (task_text f t))
        ≡ handle_client f rand (some (with_null (task_text f t)))
      → IsSendable f t
      → IsPrinted f (solve f rand (rounded_task f t)).integral_value
      → let r = rounded_result f (solve f rand (rounded_task f t)) in
        (send_task_to_server f net server t ≡ some r)
        × (r.points_inside ≤ r.total_points)
        × (r.total_points ≡ t.num_points)
  unfolding send_task_to_server solve
  send_task_to_server-handle_client rand net server t opens connects writes answers h p =
      let solved = solve f rand (rounded_task f t) in
      let r = solve-IsReturnable rand (rounded_task f t) p h.count_fits in
      (
        rw (
          send_task_to_server,
          opens,
          connects server.addr (if server.port == 0 then tcp_task_port else server.port),
          serialize_task_lem f t h,
          writes,
          answers,
          handle_client-task rand t h p,
          cstr-take-with_null (result_text f solved) 4095 (result_text-no_null f solved r)
              (result_text_short f solved r),
          deserialize_result-text f solved r,
        ),
        omega (arith, count_inside-le f rand t.num_points 0 (rounded_task f t) 0),
        refl,
      )
