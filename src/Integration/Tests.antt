-- ===== src/Integration/Tests.antt =====
-- Discovery and a computation of task_8/homework, with whole numbers for the type double.
use sem.Base.{
  ℕ, zero, suc, ◌+◌, ◌-◌, ◌*◌, ◌/◌, ◌^◌, ◌≤◌, ◌<◌, ◌≡◌, refl, true, false, some, [], ◌∷◌, arith,
  leb, ◌==◌, length, take, All,
}
use sem.Text.{Bytes}
use sem.Numbers.{length-decimal, decimal-All, decimal, size_mod, scan_size, scan_size-decimal}
use sem.Integration.Floats.{Floats, IsPrinted}
use sem.Integration.Messages.{Task, serialize_task, deserialize_task}
use sem.Integration.RoundTrip.{
  deserialize_task-serialize_task, IsSendable, rounded_task, rounded_result,
}
use sem.Integration.Answer.{send_task_to_server-handle_client}
use sem.Integration.Whole.{Serves, strip_sum, compute_integral_distributed-strip_sum}
use sem.Integration.Found.{distinct, responders, addresses, discover_servers_udp-distinct}
use sem.Integration.Discovery.{
  Datagram, max_servers, tcp_task_port, discovery_response, Sockets, discover_servers_udp,
}
use sem.Integration.Exchange.{Net, send_task_to_server, count_inside, solve, handle_client}
use sem.Integration.Strips.{ClientConfig, strip, points_of, compute_integral_distributed}

abbrev whole : Floats
whole = record {
  Double = ℕ;
  add = λ x y. x + y;
  sub = λ x y. x - y;
  mul = λ x y. x * y;
  div = λ x y. x / y;
  exp = λ x. 2 ^ x;
  at_most = leb;
  of_size = λ n. n;
  show = decimal;
  scan = scan_size;
  rounded = λ x. x;
}

whole-IsPrinted : (n : ℕ) → n < size_mod → IsPrinted whole n
whole-IsPrinted n h = record {
  reads_back = λ rest. scan_size-decimal n (b':' ∷ rest) h refl;
  no_null = decimal-All (λ c. (c == 0) ≡ false) (λ c d. ground arith) n;
  short = omega (arith, length-decimal n h);
}

-- rand_r, as a stream
abbrev lows : ℕ → ℕ
lows k = 0

abbrev plane : ClientConfig ℕ
plane = record {
  use_broadcast = true;
  server_list = record { addr = 1; port = 0 } ∷ record { addr = 2; port = 9 } ∷ [];
  num_rectangles_sqrt = 0;
  points_per_rectangle = 5;
  timeout = 2;
  x_min = 0;
  x_max = 4;
  y_min = 0;
  y_max = 3;
}

abbrev answering : ℕ → Net
answering i = record {
  opens = true;
  connects = λ a p. true;
  writes = true;
  answers = λ request. handle_client whole lows (some request);
}

abbrev ready : ℕ → Datagram
ready a = record { payload = discovery_response; from = a }

abbrev sockets : Sockets
sockets = record { opens = true; broadcasts = true; sets_timeout = true; sends = true }

discover_servers_udp-distinct_example :
    let (servers, result) = discover_servers_udp sockets (ready 7 ∷ ready 8 ∷ ready 7 ∷ []) in
    (addresses servers
      ≡ take max_servers (distinct (responders (ready 7 ∷ ready 8 ∷ ready 7 ∷ []))))
    × (result ≡ some (length servers))
    × All (λ s. s.port ≡ tcp_task_port) servers
discover_servers_udp-distinct_example =
    discover_servers_udp-distinct (ready 7 ∷ ready 8 ∷ ready 7 ∷ []) sockets refl refl refl refl

abbrev a_task : Task ℕ
a_task = record { x_min = 0; x_max = 2; y_min = 0; y_max = 3; num_points = 3 }

small-IsSendable :
    (t : Task ℕ)
    → t.x_min < 100
    → t.x_max < 100
    → t.y_min < 100
    → t.y_max < 100
    → t.num_points < 100
    → IsSendable whole t
small-IsSendable t a b c d n = record {
  x_min = whole-IsPrinted t.x_min (omega arith);
  x_max = whole-IsPrinted t.x_max (omega arith);
  y_min = whole-IsPrinted t.y_min (omega arith);
  y_max = whole-IsPrinted t.y_max (omega arith);
  count_fits = omega arith;
}

a_task-IsSendable : IsSendable whole a_task
a_task-IsSendable =
    small-IsSendable a_task (omega arith) (omega arith) (omega arith) (omega arith) (omega arith)

deserialize_task-serialize_task_example :
    (text : Bytes) × (serialize_task whole 4096 a_task ≡ some text)
    × (deserialize_task whole text ≡ some (rounded_task whole a_task))
deserialize_task-serialize_task_example =
    deserialize_task-serialize_task whole a_task a_task-IsSendable

send_task_to_server-handle_client_example :
    let r = rounded_result whole (solve whole lows (rounded_task whole a_task)) in
    (send_task_to_server whole (answering 0) (record { addr = 1; port = 0 }) a_task ≡ some r)
    × (r.points_inside ≤ r.total_points)
    × (r.total_points ≡ 3)
unfolding solve count_inside
send_task_to_server-handle_client_example =
    send_task_to_server-handle_client whole lows (answering 0) (record { addr = 1; port = 0 })
      a_task refl (λ a p. refl) refl refl a_task-IsSendable (whole-IsPrinted 6 (omega arith))

serves : (k : ℕ) → k < 2 → Serves whole plane (λ i. true) answering lows 2 k
unfolding strip points_of solve count_inside
serves zero h = record {
  created = refl;
  opens = refl;
  connects = λ a p. refl;
  writes = refl;
  answers = refl;
  sendable =
      small-IsSendable _ (omega arith) (omega arith) (omega arith) (omega arith) (omega arith);
  printed = whole-IsPrinted 6 (omega arith);
}
serves (suc zero) h = record {
  created = refl;
  opens = refl;
  connects = λ a p. refl;
  writes = refl;
  answers = refl;
  sendable =
      small-IsSendable _ (omega arith) (omega arith) (omega arith) (omega arith) (omega arith);
  printed = whole-IsPrinted 6 (omega arith);
}
serves (suc (suc k)) h = absurd (omega arith)

compute_integral_distributed-strip_sum_example :
    compute_integral_distributed whole true true (λ i. true) answering plane
    ≡ strip_sum whole plane (λ i. true) answering (λ i. lows) 2 0 2 0
compute_integral_distributed-strip_sum_example =
    compute_integral_distributed-strip_sum whole plane (λ i. true) answering (λ i. lows)
      (omega arith) serves

sum_runs : compute_integral_distributed whole true true (λ i. true) answering plane ≡ 12
unfolding strip points_of solve count_inside
sum_runs = compute_integral_distributed-strip_sum_example
