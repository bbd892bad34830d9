-- ===== src/Signals/Tests.antt =====
-- The shared-memory copy on concrete files.
-- A file of three bytes, copied in three steps.
use sem.Base.{◌≡◌, refl, true, some, [], ◌∷◌, ◌++◌, ◌≢◌}
use sem.Text.{Bytes}
use sem.Signals.Handlers.{
  SharedData, Answers, producer_handler, consumer_handler, not_ended, prod_end_succ, prod_end_fail,
  cons_end_fail, read_chunk, hand_over, end_of_input, after_read, write_out,
}
use sem.Signals.System.{counting, init_shared_memory, produce, consume}
use sem.Signals.Integrity.{CleanRun, here, next, output_prefix, CleanRun-copies}
use sem.Signals.Chunks.{pending}

abbrev no_errors : Answers
no_errors = record { reads = λ n. some 10; writes = λ n. some 1; queues = true }

abbrev file : Bytes
file = 10 ∷ 20 ∷ 30 ∷ []

abbrev filled : SharedData
filled =
    producer_handler no_errors 0
      (record (init_shared_memory file) { producer_queue = counting 1 7 })

abbrev read_out : SharedData
read_out = producer_handler no_errors 1 (record filled { producer_queue = counting 2 6 })

abbrev copied : SharedData
copied = consumer_handler no_errors 0 (record read_out { consumer_queue = [] })

not_failed : not_ended ≢ prod_end_fail
not_failed e = cc

not_failed_too : not_ended ≢ cons_end_fail
not_failed_too e = cc

succeeded : prod_end_succ ≢ prod_end_fail
succeeded e = cc

run_copies : CleanRun (init_shared_memory file) copied
unfolding init_shared_memory producer_handler consumer_handler read_chunk after_read hand_over
    end_of_input write_out
run_copies =
    next {t = read_out}
      (next {t = filled}
        (next {t = init_shared_memory file} here (produce no_errors 0 (counting 1 7) refl refl refl)
          (not_failed, not_failed_too))
        (produce no_errors 1 (counting 2 6) refl refl refl) (succeeded, not_failed_too))
      (consume no_errors 0 [] refl refl refl) (succeeded, not_failed_too)

output_prefix_example :
    copied.output ++ (pending copied.buffers copied.sizes copied.consumer_queue ++ copied.input)
    ≡ file
output_prefix_example = output_prefix file copied run_copies

CleanRun-copies_example : copied.output ≡ file
unfolding init_shared_memory producer_handler consumer_handler read_chunk after_read hand_over
    end_of_input write_out
CleanRun-copies_example = CleanRun-copies file copied run_copies refl refl
