-- ===== src/Signals/System.antt =====
-- task_5/homework/src/main.c: the shared data at the start, and the two processes as steps. A step is
-- one run of a handler, which the kernel starts with the oldest signal of its queue. Handlers run as
-- wholes: a producer's and a consumer's run that overlap in time are not modelled.
use sem.Base.{ℕ, zero, suc, ◌≡◌, false, List, [], ◌∷◌, length, replicate}
use sem.Text.{Bytes}
use sem.Signals.Handlers.{
  not_ended, SharedData, Answers, chunks, producer_handler, consumer_handler,
}

-- n values from i on, as the child's loop sends them
abbrev pub counting : ℕ → ℕ → List ℕ
counting i zero = []
counting i (suc n) = i ∷ counting (suc i) n

-- init_shared_memory, and the signals that the child sends first.
unfoldable pub init_shared_memory : Bytes → SharedData
init_shared_memory file = record {
  buffers = replicate chunks [];
  sizes = replicate chunks 0;
  producer_ended = not_ended;
  consumer_ended = not_ended;
  file_size = length file;
  bytes_read = 0;
  attempts = 0;
  input = file;
  output = [];
  producer_queue = counting 0 chunks;
  consumer_queue = [];
  producer_ignored = false;
  consumer_ignored = false;
}

-- The next signal of each queue is taken off it and handled, with these answers of the kernel.
pub data Step (s t : SharedData) : Type 0 where
  produce :
      (a : Answers) (i : ℕ) (rest : List ℕ)
      → s.producer_queue ≡ i ∷ rest
      → s.producer_ignored ≡ false
      → t ≡ producer_handler a i (record s { producer_queue = rest })
      → Step s t
  consume :
      (a : Answers) (i : ℕ) (rest : List ℕ)
      → s.consumer_queue ≡ i ∷ rest
      → s.consumer_ignored ≡ false
      → t ≡ consumer_handler a i (record s { consumer_queue = rest })
      → Step s t
