-- ===== src/Integration/Whole.antt =====
-- compute_integral_distributed of task_8/homework with its servers.
use sem.Base.{
  ℕ, zero, suc, ◌+◌, ◌<◌, ◌≡◌, refl, sym, subst, Bool, true, false, ◌&&◌, Option, none, some, List,
  [], ◌∷◌, arith, ◌==◌, if-both, length,
}
use native.Mathlib.Nat.{add-zero, zero-add}
use sem.Integration.Floats.{Floats, IsPrinted}
use sem.Integration.Messages.{Result}
use sem.Integration.RoundTrip.{IsSendable, rounded_task, task_text, rounded_result}
use sem.Integration.Answer.{send_task_to_server-handle_client}
use sem.Integration.Discovery.{ServerInfo}
use sem.Integration.Exchange.{Net, send_task_to_server, solve, with_null, handle_client}
use sem.Integration.Strips.{
  ClientConfig, strip, run_jobs, add_results, compute_integral_distributed,
}

module _ (f : Floats) (cfg : ClientConfig f.Double) (creates : ℕ → Bool) (net : ℕ → Net) where
  open f use {Double, add, of_size}

  -- Server `i` of `n` is reached, answers as handle_client with the values `rand`, and its numbers
  -- are printed as documented.
  pub record Serves (rand : ℕ → ℕ) (n i : ℕ) : Type 0 where
    pub created : creates i ≡ true
    pub opens : (net i).opens ≡ true
    pub connects : (a p : ℕ) → (net i).connects a p ≡ true
    pub writes : (net i).writes ≡ true
    pub answers :
        let request = with_null (task_text f (strip f cfg n i)) in
        (net i).answers request ≡ handle_client f rand (some request)
    pub sendable : IsSendable f (strip f cfg n i)
    pub printed : IsPrinted f (solve f rand (rounded_task f (strip f cfg n i))).integral_value

  -- The sum, strip by strip, for the `m` strips from `i` on.
  abbrev pub strip_sum : (ℕ → ℕ → ℕ) → ℕ → ℕ → ℕ → Double → Double
  strip_sum rands n i zero total = total
  strip_sum rands n i (suc m) total =
      let r = rounded_result f (solve f (rands i) (rounded_task f (strip f cfg n i))) in
      strip_sum rands n (suc i) m (add total r.integral_value)

  add_results-run_jobs :
      (rands : ℕ → ℕ → ℕ) (n i : ℕ) (ss : List ServerInfo) (total : Double)
      → ((k : ℕ) → k < length ss → Serves (rands (k + i)) n (k + i))
      → add_results f total (run_jobs f cfg creates net n i ss)
        ≡ strip_sum rands n i (length ss) total
  unfolding add_results run_jobs
  add_results-run_jobs rands n i [] total h = refl
  add_results-run_jobs rands n i (s ∷ ss) total h =
      let serves : Serves (rands i) n i =
        subst (λ j. Serves (rands j) n j) (zero-add i) (h 0 (omega arith)) in
      let answer =
        send_task_to_server-handle_client f (rands i) (net i) s (strip f cfg n i) serves.opens
          serves.connects serves.writes serves.answers serves.sendable serves.printed in
      rw (serves.created, answer.0)
        (add_results-run_jobs rands n (suc i) ss
          (add total
            (rounded_result f
              (solve f (rands i) (rounded_task f (strip f cfg n i)))).integral_value)
          (λ k below. subst (λ j. Serves (rands j) n j) (shift k) (h (suc k) (omega arith))))
    where
      shift : (k : ℕ) → suc k + i ≡ k + suc i
      shift k = omega arith

  -- If memory is given, there is a server at least, and each is reached and answers as handle_client
  -- for numbers that are printed as documented, then the result is the sum over all strips, in
  -- their order, of the integral that the server computes for the strip as it was printed and read.
  pub compute_integral_distributed-strip_sum :
      (rands : ℕ → ℕ → ℕ)
      → 0 < length cfg.server_list
      → ((k : ℕ) → k < length cfg.server_list → Serves (rands k) (length cfg.server_list) k)
      → compute_integral_distributed f true true creates net cfg
        ≡ strip_sum rands (length cfg.server_list) 0 (length cfg.server_list) (of_size 0)
  unfolding compute_integral_distributed
  compute_integral_distributed-strip_sum rands some_server h =
      let more : (length cfg.server_list == 0) ≡ false = ground arith in
      rw more (
        add_results-run_jobs rands (length cfg.server_list) 0 cfg.server_list (of_size 0)
          (λ k below.
            subst (λ j. Serves (rands j) (length cfg.server_list) j) (sym (add-zero k))
              (h k below)))

  add_results-unanswered :
      (n i : ℕ) (ss : List ServerInfo) (total : Double)
      → ((k : ℕ) (s : ServerInfo) → send_task_to_server f (net k) s (strip f cfg n k) ≡ none)
      → add_results f total (run_jobs f cfg creates net n i ss) ≡ total
  unfolding add_results run_jobs
  add_results-unanswered n i [] total h = refl
  add_results-unanswered n i (s ∷ ss) total h =
      if-both
        (λ (r : Option (Result Double)).
          ◌≡◌ {A = Double}
            (elim r [
              | none ↦ add_results f total (run_jobs f cfg creates net n (suc i) ss)
              | some r ↦
                  add_results f (add total r.integral_value)
                    (run_jobs f cfg creates net n (suc i) ss)
            ])
            total)
        (creates i) (λ _. rw (h i s) (add_results-unanswered n (suc i) ss total h))
        (λ _. add_results-unanswered n (suc i) ss total h)

  -- If no server gives a result, the answer is 0, as it is for an integral that is 0: the function
  -- does not say that it failed.
  pub compute_integral_distributed_unanswered :
      (jobs_given threads_given : Bool)
      → ((k : ℕ) (s : ServerInfo)
          → send_task_to_server f (net k) s (strip f cfg (length cfg.server_list) k) ≡ none)
      → compute_integral_distributed f jobs_given threads_given creates net cfg ≡ of_size 0
  unfolding compute_integral_distributed
  compute_integral_distributed_unanswered jobs_given threads_given h =
      if-both (λ (x : Double). x ≡ of_size 0) (length cfg.server_list == 0) (λ _. refl)
        (λ _.
          if-both (λ (x : Double). x ≡ of_size 0) (jobs_given && threads_given)
            (λ _. add_results-unanswered (length cfg.server_list) 0 cfg.server_list (of_size 0) h)
            (λ _. refl))
