-- ===== src/Signals/Handlers.antt =====
-- task_5/homework/src/handler.c and include/shm.h: the shared data and the two handlers.
-- Pointers, process numbers and descriptors are left out; the two files and the two signal queues
-- stand beside the shared data: `input` is what the reads
-- have not given yet, `output` what was written. What the kernel answers in one run of a handler is
-- the parameter `Answers`.
use sem.Base.{
  ℕ, zero, suc, ◌+◌, ◌-◌, ◌*◌, ◌/◌, min, Bool, true, false, ◌&&◌, Option, none, some, List, [], ◌∷◌,
  ◌++◌, ltb, ◌==◌, if◌then◌else◌, length, set, get_or, take, drop,
}
use sem.Text.{Bytes}

pub data EndCode : Type 0 where
  not_ended prod_end_succ prod_end_fail cons_end_succ cons_end_fail : EndCode

-- `producer_chunks[i]` and `consumer_chunks[i].chunk` are the same memory, `buffers` here.
pub record SharedData : Type 0 where
  pub buffers : List Bytes
  pub sizes : List ℕ
  pub producer_ended : EndCode
  pub consumer_ended : EndCode
  pub file_size : ℕ
  pub bytes_read : ℕ
  pub attempts : ℕ
  pub input : Bytes
  pub output : Bytes
  pub producer_queue : List ℕ
  pub consumer_queue : List ℕ
  pub producer_ignored : Bool
  pub consumer_ignored : Bool

-- `reads n` is how much the n-th read may give, none for an error; `writes n` how much more than one
-- byte the n-th write takes, none for an error; `queues` says that sigqueue succeeds.
pub record Answers : Type 0 where
  pub reads : ℕ → Option ℕ
  pub writes : ℕ → Option ℕ
  pub queues : Bool

abbrev pub chunks : ℕ
chunks = 8

-- SHM_SIZE / CHUNKS
abbrev pub chunk_size : ℕ
chunk_size = 4096 * 1024 / 8

abbrev pub max_attempts : ℕ
max_attempts = 100

-- What the do-while loop of producer_handler ends with: the bytes of its last read, none where that
-- failed, what is left of the file, and the count of attempts. Each turn adds an attempt, so
-- `max_attempts` turns are enough.
unfoldable pub read_chunk : ℕ → (ℕ → Option ℕ) → SharedData → Option Bytes × ℕ
read_chunk zero reads s = (none, s.attempts)
read_chunk (suc fuel) reads s =
    let attempts = suc s.attempts in
    let again = read_chunk fuel reads (record s { attempts = attempts }) in
    elim (reads s.attempts) [
      | none ↦ (none, attempts)
      | some n ↦
          let got = take (min n chunk_size) s.input in
          if length got == 0 && ltb s.bytes_read s.file_size && ltb attempts (max_attempts - 1)
          then again
          else (some got, attempts)
    ]

-- The memory of a chunk after a read of `got` into it.
abbrev pub overwrite : Bytes → Bytes → Bytes
overwrite got old = got ++ drop (length got) old

-- curr_size > 0: the chunk is handed to the consumer.
unfoldable pub hand_over : Bool → ℕ → Bytes → SharedData → SharedData
hand_over queues i got s =
    let filled = record s {
      buffers = set s.buffers i (overwrite got (get_or s.buffers i []));
      sizes = set s.sizes i (length got);
      bytes_read = s.bytes_read + length got;
      input = drop (length got) s.input;
    } in
    if queues
    then record filled { consumer_queue = s.consumer_queue ++ i ∷ [] }
    else record filled { producer_ended = prod_end_fail }

-- curr_size <= 0: the end of the file, or an error.
unfoldable pub end_of_input : SharedData → SharedData
end_of_input s = record s {
  producer_ended = if s.bytes_read == s.file_size then prod_end_succ else prod_end_fail;
  producer_ignored = true;
}

unfoldable pub after_read : Bool → ℕ → Option Bytes → SharedData → SharedData
after_read queues i none s = end_of_input s
after_read queues i (some []) s = end_of_input s
after_read queues i (some (c ∷ got)) s = hand_over queues i (c ∷ got) s

unfoldable pub producer_handler : Answers → ℕ → SharedData → SharedData
producer_handler a i s =
    let (got, attempts) = read_chunk max_attempts a.reads s in
    if ltb i chunks
    then after_read a.queues i got (record s { attempts = attempts })
    else record s { producer_ended = prod_end_fail }

-- The loop over write(): what was written, and whether no write failed.
unfoldable pub write_out : ℕ → (ℕ → Option ℕ) → ℕ → Bytes → Bytes × Bool
write_out zero writes turn rest = ([], true)
write_out (suc fuel) writes turn [] = ([], true)
write_out (suc fuel) writes turn (c ∷ rest) = elim (writes turn) [
  | none ↦ ([], false)
  | some k ↦
      let n = min (suc k) (suc (length rest)) in
      let (more, fine) = write_out fuel writes (suc turn) (drop n (c ∷ rest)) in
      (take n (c ∷ rest) ++ more, fine)
]

-- consumer_chunks[i]: its first chunk_size bytes
abbrev pub chunk_data : SharedData → ℕ → Bytes
chunk_data s i = take (get_or s.sizes i 0) (get_or s.buffers i [])

unfoldable pub consumer_handler : Answers → ℕ → SharedData → SharedData
consumer_handler a i s =
    let rest = chunk_data s i in
    let (written, fine) = write_out (suc (length rest)) a.writes 0 rest in
    let wrote = record s { output = s.output ++ written } in
    if ltb i chunks
    then if fine
      then if a.queues
        then record wrote { producer_queue = s.producer_queue ++ i ∷ [] }
        else record wrote { consumer_ended = cons_end_fail }
      else record wrote { consumer_ended = cons_end_fail; consumer_ignored = true }
    else record s { consumer_ended = cons_end_fail }
