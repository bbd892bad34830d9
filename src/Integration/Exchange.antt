-- ===== src/Integration/Exchange.antt =====
-- A task on its way: send_task_to_server of task_8/homework/client/src/tcp_client.c, and
-- handle_client of task_8/homework/server/src/tcp_server.c.
use sem.Base.{
  ℕ, zero, suc, ◌-◌, ◌^◌, Bool, ◌&&◌, Option, none, some, [], ◌∷◌, ◌++◌, ◌==◌, if◌then◌else◌, take,
}
use sem.Text.{Bytes, cstr}
use sem.Integration.Floats.{Floats}
use sem.Integration.Messages.{
  Task, Result, serialize_task, deserialize_task, serialize_result, deserialize_result,
}
use sem.Integration.Discovery.{ServerInfo, tcp_task_port}

abbrev pub message_size : ℕ
message_size = 4096

-- `answers` is what one read gives after the request was written, none for an error.
pub record Net : Type 0 where
  pub opens : Bool
  pub connects : ℕ → ℕ → Bool
  pub writes : Bool
  pub answers : Bytes → Option Bytes

-- A message with its null byte.
abbrev pub with_null : Bytes → Bytes
with_null s = s ++ 0 ∷ []

module _ (f : Floats) where
  open f use {Double, add, sub, mul, div, exp, at_most, of_size}

  -- none where the C code returns -1
  unfoldable pub send_task_to_server : Net → ServerInfo → Task Double → Option (Result Double)
  send_task_to_server net server task =
      let port = if server.port == 0 then tcp_task_port else server.port in
      if net.opens && net.connects server.addr port
      then elim (serialize_task f message_size task) [
        | none ↦ none
        | some text ↦
            if net.writes
            then elim (net.answers (with_null text)) [
              | none ↦ none
              | some answer ↦ deserialize_result f (cstr (take (message_size - 1) answer))
            ]
            else none
      ]
      else none

  -- RAND_MAX
  abbrev pub rand_max : Double
  rand_max = of_size (2 ^ 31 - 1)

  -- lo + (double)r / RAND_MAX * (hi - lo)
  abbrev pub between : Double → Double → ℕ → Double
  between lo hi r = add lo (mul (div (of_size r) rand_max) (sub hi lo))

  -- The loop over the `n` points left; `rand k` is the k-th value of rand_r.
  unfoldable pub count_inside : (ℕ → ℕ) → ℕ → ℕ → Task Double → ℕ → ℕ
  count_inside rand zero k t inside = inside
  count_inside rand (suc n) k t inside =
      let x = between t.x_min t.x_max (rand k) in
      let y = between t.y_min t.y_max (rand (suc k)) in
      count_inside rand n (suc (suc k)) t (if at_most y (exp x) then suc inside else inside)

  unfoldable pub solve : (ℕ → ℕ) → Task Double → Result Double
  solve rand t =
      let inside = count_inside rand t.num_points 0 t 0 in
      let area = mul (sub t.x_max t.x_min) (sub t.y_max t.y_min) in
      record {
        integral_value = div (mul area (of_size inside)) (of_size t.num_points);
        points_inside = inside;
        total_points = t.num_points;
      }

  -- What is written to the connection after this read; none where it is closed without an answer.
  unfoldable pub handle_client : (ℕ → ℕ) → Option Bytes → Option Bytes
  handle_client rand none = none
  handle_client rand (some message) =
      elim (deserialize_task f (cstr (take (message_size - 1) message))) [
        | none ↦ none
        | some task ↦ elim (serialize_result f message_size (solve rand task)) [
          | none ↦ none
          | some text ↦ some (with_null text)
        ]
      ]
