-- ===== src/MonteCarlo/Tests.antt =====
-- One thread on a machine with one core, with numbers that are whole.
use sem.MonteCarlo.Points.{
  Numeric, local_count_of, thread_data, integral_of, cell, cells_of_row, rows, count_points,
}
use sem.MonteCarlo.Threads.{finished, State, lock, load, store, unlock, Run, here, next, begin}
use sem.MonteCarlo.Counter.{share, sum_of, integral_of-counter}
use sem.Base.{ℕ, ◌+◌, ◌*◌, ◌-◌, ◌/◌, ◌≡◌, refl, false, [], ◌∷◌, leb}

-- rand_r gives 0 or 1 by turns.
abbrev whole_numbers : Numeric ℕ
whole_numbers = record {
  plus = λ a b. a + b;
  minus = λ a b. a - b;
  times = λ a b. a * b;
  over = λ a b. a / b;
  of_int = λ n. n;
  at_most = λ a b. leb a b;
  rand_r = λ seed. (1 - seed, seed);
}

abbrev same : ℕ → ℕ
same x = x

-- Of the points (0, 1) and (0, 1) none is below the line.
few_points :
    count_points whole_numbers same
      (record (cell whole_numbers 1 0 1 0 1 0 0 0) { points_per_thread = 2 })
      2
      0
      0
    ≡ 0
unfolding count_points
few_points = refl

abbrev hits : ℕ
hits = local_count_of whole_numbers same (cell whole_numbers 1 0 1 0 1 0 0 0)

abbrev counted_state : State
counted_state = record { counter = 0 + hits; is_locked = false; threads = finished ∷ [] }

to_counted : Run (begin whole_numbers same 1 (thread_data whole_numbers 1 0 1 0 1 0)) counted_state
unfolding thread_data rows cells_of_row
to_counted =
    next
      (next (next (next here (lock [] [] hits refl refl)) (load [] [] hits refl))
        (store [] [] hits 0 refl))
      (unlock [] [] refl)

integral_of-counter_example :
    integral_of whole_numbers 1 0 1 0 1 0 (0 + hits)
    ≡ integral_of whole_numbers 1 0 1 0 1 0
        (sum_of (share whole_numbers same 1) (thread_data whole_numbers 1 0 1 0 1 0))
integral_of-counter_example =
    integral_of-counter whole_numbers same 1 1 0 1 0 1 0 counted_state to_counted refl
