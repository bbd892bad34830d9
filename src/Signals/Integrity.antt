-- ===== src/Signals/Integrity.antt =====
-- The copy of task_5/homework as a whole, over the runs of its handlers in which no step fails.
use sem.Base.{
  ℕ, ◌+◌, ◌≤◌, ◌≡◌, ◌≢◌, List, [], ◌∷◌, ◌++◌, ◌==◌, length, get_or, suc, ◌<◌, refl, sym, ap, ◌∙◌,
  Bool, true, false, Option, some, append-nil, append_assoc, arith, set, length-set, drop, inl, inr,
  none, ==_iff, Bool-cases, length-append, get_or-set_self, take-append_length, subst, ltb, ltb→lt,
  if-both, drop-nil,
}
use sem.Text.{Bytes}
use sem.Signals.Handlers.{
  prod_end_succ, prod_end_fail, cons_end_fail, SharedData, chunks, read_chunk, hand_over,
  end_of_input, overwrite, Answers, max_attempts, after_read, producer_handler, write_out,
  consumer_handler, chunk_data,
}
use sem.Signals.System.{Step, produce, init_shared_memory, consume}
use sem.Signals.Chunks.{
  occurs, pending, pending-append, pending-set, occurs-append, occurs_self, nil_of_length,
  read_chunk-prefix, write_out-all, occurs-counting,
}

-- Neither process has met an error.
abbrev pub Healthy : SharedData → Type 0
Healthy s = (s.producer_ended ≢ prod_end_fail) × (s.consumer_ended ≢ cons_end_fail)

pub record IsWhole (file : Bytes) (s : SharedData) : Type 0 where
  pub entries : length s.buffers ≡ chunks
  pub numbers : length s.sizes ≡ chunks
  pub size : s.file_size ≡ length file
  -- A chunk waits in one place at most.
  pub apart : (i : ℕ) → occurs i s.producer_queue + occurs i s.consumer_queue ≤ 1
  -- What was written, what waits in the chunks and what was not read make up the file.
  pub content : s.output ++ (pending s.buffers s.sizes s.consumer_queue ++ s.input) ≡ file
  pub counted : s.bytes_read + length s.input ≡ length file
  pub succeeded : s.producer_ended ≡ prod_end_succ → s.input ≡ []

-- Runs from `s` in which no step meets an error.
pub data CleanRun (s : SharedData) : SharedData → Type 0 where
  here : CleanRun s s
  next : {t u : SharedData} → CleanRun s t → Step t u → Healthy u → CleanRun s u

module _ (file : Bytes) where
  end_of_input-IsWhole :
      (i : ℕ) (rest : List ℕ) (n : ℕ) (s : SharedData)
      → IsWhole file s
      → s.producer_queue ≡ i ∷ rest
      → let t = end_of_input (record s { producer_queue = rest; attempts = n }) in
        Healthy t → IsWhole file t
  unfolding end_of_input
  end_of_input-IsWhole i rest n s v q h = record {
    entries = v.entries;
    numbers = v.numbers;
    size = v.size;
    apart = λ j. omega (arith, ap (occurs j) q, v.apart j);
    content = v.content;
    counted = v.counted;
    succeeded = λ e. at_end;
  }
    where
      at_end : s.input ≡ []
      at_end = elim (Bool-cases (s.bytes_read == s.file_size)) [
        | inl whole ↦
            nil_of_length s.input
              (omega (arith, v.counted, v.size, (==_iff s.bytes_read s.file_size).0 whole))
        | inr short ↦ absurd (h.0 (rw short))
      ]

  hand_over-IsWhole :
      (queues : Bool) (i : ℕ) (rest : List ℕ) (n : ℕ) (got : Bytes) (s : SharedData)
      → IsWhole file s
      → s.producer_queue ≡ i ∷ rest
      → i < chunks
      → got ++ drop (length got) s.input ≡ s.input
      → let t = hand_over queues i got (record s { producer_queue = rest; attempts = n }) in
        Healthy t → IsWhole file t
  unfolding hand_over
  hand_over-IsWhole false i rest n got s v q lt pre h = absurd (h.0 refl)
  hand_over-IsWhole true i rest n got s v q lt pre h = record {
    entries = length-set s.buffers i _ ∙ v.entries;
    numbers = length-set s.sizes i _ ∙ v.numbers;
    size = v.size;
    apart = λ j. omega (arith, ap (occurs j) q, v.apart j, occurs-append j i s.consumer_queue);
    content =
        let fresh : occurs i s.consumer_queue ≡ 0 =
          omega (arith, ap (occurs i) q, v.apart i, occurs_self i rest) in
        let filled =
          pending-append (set s.buffers i (overwrite got (get_or s.buffers i [])))
            (set s.sizes i (length got)) s.consumer_queue i in
        rw
          (
            filled,
            pending-set s.buffers s.sizes s.consumer_queue i (length got) _ fresh,
            get_or-set_self s.sizes i 0 (length got) (omega (arith, v.numbers)),
            get_or-set_self s.buffers i [] (overwrite got (get_or s.buffers i []))
                (omega (arith, v.entries)),
            take-append_length got (drop (length got) (get_or s.buffers i [])),
            append_assoc,
            pre,
          )
          v.content;
    counted =
        omega (arith, v.counted, length-append got (drop (length got) s.input), ap length pre);
    succeeded = λ e. ap (drop (length got)) (v.succeeded e) ∙ drop-nil (length got);
  }

  after_read-IsWhole :
      (queues : Bool) (i : ℕ) (rest : List ℕ) (o : Option Bytes) (n : ℕ) (s : SharedData)
      → IsWhole file s
      → s.producer_queue ≡ i ∷ rest
      → i < chunks
      → ((got : Bytes) → o ≡ some got → got ++ drop (length got) s.input ≡ s.input)
      → let t = after_read queues i o (record s { producer_queue = rest; attempts = n }) in
        Healthy t → IsWhole file t
  unfolding after_read
  after_read-IsWhole queues i rest none n s v q lt pre = end_of_input-IsWhole i rest n s v q
  after_read-IsWhole queues i rest (some []) n s v q lt pre = end_of_input-IsWhole i rest n s v q
  after_read-IsWhole queues i rest (some (c ∷ got)) n s v q lt pre =
      hand_over-IsWhole queues i rest n (c ∷ got) s v q lt (pre (c ∷ got) refl)

  producer_handler-IsWhole :
      (a : Answers) (i : ℕ) (rest : List ℕ) (s : SharedData)
      → IsWhole file s
      → s.producer_queue ≡ i ∷ rest
      → let t = producer_handler a i (record s { producer_queue = rest }) in
        Healthy t → IsWhole file t
  unfolding producer_handler
  producer_handler-IsWhole a i rest s v q =
      if-both (λ (t : SharedData). Healthy t → IsWhole file t) (ltb i chunks)
        (λ lt. after_read-IsWhole a.queues i rest _ _ s v q (ltb→lt i chunks lt) (λ got e.
          read_chunk-prefix max_attempts a.reads (record s { producer_queue = rest }) got _
            (ap
              (λ (o : Option Bytes).
                (o, (read_chunk max_attempts a.reads (record s { producer_queue = rest })).1))
              e)))
        (λ ge h. absurd (h.0 refl))

  consumer_handler-IsWhole :
      (a : Answers) (i : ℕ) (rest : List ℕ) (s : SharedData)
      → IsWhole file s
      → s.consumer_queue ≡ i ∷ rest
      → let t = consumer_handler a i (record s { consumer_queue = rest }) in
        Healthy t → IsWhole file t
  unfolding consumer_handler
  consumer_handler-IsWhole a i rest s v q =
      if-both (λ (t : SharedData). Healthy t → IsWhole file t) (ltb i chunks)
        (λ lt.
          if-both (λ (t : SharedData). Healthy t → IsWhole file t) (written.1)
            (λ fine.
              if-both (λ (t : SharedData). Healthy t → IsWhole file t) a.queues
                (λ sent h. record {
                  entries = v.entries;
                  numbers = v.numbers;
                  size = v.size;
                  apart = λ j.
                      omega (arith, ap (occurs j) q, v.apart j, occurs-append j i s.producer_queue);
                  content =
                      rw
                        (
                          write_out-all (suc (length chunk)) a.writes 0 chunk (omega arith) fine,
                          append_assoc s.output chunk (pending s.buffers s.sizes rest ++ s.input),
                          sym (append_assoc chunk (pending s.buffers s.sizes rest) s.input),
                        )
                        (rw q at v.content);
                  counted = v.counted;
                  succeeded = v.succeeded;
                })
                (λ lost h. absurd (h.1 refl)))
            (λ bad h. absurd (h.1 refl)))
        (λ ge h. absurd (h.1 refl))
    where
      chunk : Bytes
      chunk = chunk_data s i

      written : Bytes × Bool
      written = write_out (suc (length chunk)) a.writes 0 chunk

  Step-IsWhole : (s t : SharedData) → Step s t → IsWhole file s → Healthy t → IsWhole file t
  Step-IsWhole s t (produce a i rest q run e) v h =
      subst (IsWhole file) (sym e) (producer_handler-IsWhole a i rest s v q (subst Healthy e h))
  Step-IsWhole s t (consume a i rest q run e) v h =
      subst (IsWhole file) (sym e) (consumer_handler-IsWhole a i rest s v q (subst Healthy e h))

  init_shared_memory-IsWhole : IsWhole file (init_shared_memory file)
  unfolding init_shared_memory
  init_shared_memory-IsWhole = record {
    entries = refl;
    numbers = refl;
    size = refl;
    apart = λ i. omega (arith, occurs-counting i 0 chunks);
    content = refl;
    counted = omega arith;
    succeeded = λ e. absurd (cc);
  }

  CleanRun-IsWhole : (t : SharedData) → CleanRun (init_shared_memory file) t → IsWhole file t
  CleanRun-IsWhole t here = init_shared_memory-IsWhole
  CleanRun-IsWhole t (next {t = s} run step h) = Step-IsWhole s t step (CleanRun-IsWhole s run) h

  -- After any run from the start in which no step meets an error, what was written, then what the
  -- chunks queued for the consumer hold, in the order of their signals, then what was not read
  -- yet, is the file.
  pub output_prefix :
      (t : SharedData)
      → CleanRun (init_shared_memory file) t
      → t.output ++ (pending t.buffers t.sizes t.consumer_queue ++ t.input) ≡ file
  output_prefix t run = (CleanRun-IsWhole t run).content

  -- After any run from the start in which no step meets an error, if the producer has ended with
  -- success and no chunk waits for the consumer, the output is the file.
  pub CleanRun-copies :
      (t : SharedData)
      → CleanRun (init_shared_memory file) t
      → t.producer_ended ≡ prod_end_succ
      → t.consumer_queue ≡ []
      → t.output ≡ file
  CleanRun-copies t run e q =
      let v = CleanRun-IsWhole t run in
      sym (append-nil t.output) ∙ rw (q, v.succeeded e) at v.content
