-- ===== src/MonteCarlo/Threads.antt =====
-- The threads of sem_4/homework/src/calculate.c on their shared counter, a step at a time, in any
-- order. A thread counts its points alone before its first step here.
use sem.MonteCarlo.Points.{Numeric, PthreadData, local_count_of}
use sem.Base.{ℕ, ◌+◌, ◌≡◌, Bool, true, false, List, [], ◌∷◌, ◌++◌, if◌then◌else◌, ltb, map}

-- Where a thread stands: before the lock, with the lock, with the value of the counter that it has
-- read, with the sum stored, and after return.
pub data Phase : Type 0 where
  counted locked : ℕ → Phase
  loaded : ℕ → ℕ → Phase
  stored finished : Phase

pub record State : Type 0 where
  pub counter : ℕ
  pub is_locked : Bool
  pub threads : List Phase

pub data Step (s : State) : State → Type 0 where
  lock :
      (before later : List Phase) (n : ℕ)
      → s.threads ≡ before ++ counted n ∷ later
      → s.is_locked ≡ false
      → Step s (record s { is_locked = true; threads = before ++ locked n ∷ later })
  load :
      (before later : List Phase) (n : ℕ)
      → s.threads ≡ before ++ locked n ∷ later
      → Step s (record s { threads = before ++ loaded n s.counter ∷ later })
  store :
      (before later : List Phase) (n value : ℕ)
      → s.threads ≡ before ++ loaded n value ∷ later
      → Step s (record s { counter = value + n; threads = before ++ stored ∷ later })
  unlock :
      (before later : List Phase)
      → s.threads ≡ before ++ stored ∷ later
      → Step s (record s { is_locked = false; threads = before ++ finished ∷ later })

pub data Run (s : State) : State → Type 0 where
  here : Run s s
  next : {t u : State} → Run s t → Step t u → Run s u

-- set_this_thread_to_core fails for a core that the machine does not have, and the thread returns;
-- pthread_setaffinity_np is taken to succeed.
module _ {F : Type 0} (num : Numeric F) (func : F → F) (num_cores : ℕ) where
  abbrev pub start_thread : PthreadData F → Phase
  start_thread d =
      if ltb d.assigned_core num_cores then counted (local_count_of num func d) else finished

  abbrev pub begin : List (PthreadData F) → State
  begin threads = record { counter = 0; is_locked = false; threads = map start_thread threads }

abbrev pub all_finished : List Phase → Bool
all_finished [] = true
all_finished (finished ∷ ps) = all_finished ps
all_finished (counted n ∷ ps) = false
all_finished (locked n ∷ ps) = false
all_finished (loaded n v ∷ ps) = false
all_finished (stored ∷ ps) = false
