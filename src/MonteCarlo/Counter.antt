-- ===== src/MonteCarlo/Counter.antt =====
-- What the counter of sem_4/homework/src/calculate.c holds when all threads have returned.
use sem.MonteCarlo.Points.{Numeric, PthreadData, local_count_of, thread_data, integral_of}
use sem.MonteCarlo.Threads.{
  Phase, counted, locked, loaded, stored, finished, State, Step, lock, load, store, unlock, Run,
  here, next, begin, all_finished,
}
use sem.Base.{
  ℕ, ◌+◌, ◌≡◌, refl, sym, ap, ◌∙◌, Bool, true, false, List, [], ◌∷◌, ◌++◌, if◌then◌else◌, ltb, All,
  All-append, arith, subst, Bool-cases, inl, inr,
}

-- What a thread still adds, and whether it has the lock.
abbrev pending : Phase → ℕ
pending (counted n) = n
pending (locked n) = n
pending (loaded n value) = n
pending stored = 0
pending finished = 0

abbrev holds : Phase → ℕ
holds (counted n) = 0
holds (locked n) = 1
holds (loaded n value) = 1
holds stored = 1
holds finished = 0

-- The value read is the counter.
abbrev IsFresh : ℕ → Phase → Type 0
IsFresh counter (loaded n value) = value ≡ counter
IsFresh counter (counted n) = Unit
IsFresh counter (locked n) = Unit
IsFresh counter stored = Unit
IsFresh counter finished = Unit

abbrev pub sum_of {ℓ} : {A : Type ℓ} → (A → ℕ) → List A → ℕ
sum_of f [] = 0
sum_of f (x ∷ xs) = f x + sum_of f xs

false-ne-true : false ≡ true → ⊥
false-ne-true e = cc

sum_of-at :
    (f : Phase → ℕ) (before : List Phase) (p : Phase) (later : List Phase)
    → sum_of f (before ++ p ∷ later) ≡ f p + (sum_of f before + sum_of f later)
sum_of-at f [] p later = omega arith
sum_of-at f (b ∷ before) p later = omega (arith, sum_of-at f before p later)

All-at :
    (P : Phase → Type 0) (before : List Phase) (p : Phase) (later : List Phase)
    → All P (before ++ p ∷ later)
    → All P before × P p × All P later
All-at P [] p later h = (tt, h.0, h.1)
All-at P (b ∷ before) p later h =
    let (first, at, others) = All-at P before p later h.1 in ((h.0, first), at, others)

idle-IsFresh : (counter : ℕ) (ps : List Phase) → sum_of holds ps ≡ 0 → All (IsFresh counter) ps
idle-IsFresh counter [] h = tt
idle-IsFresh counter (counted n ∷ ps) h = (tt, idle-IsFresh counter ps (omega arith))
idle-IsFresh counter (finished ∷ ps) h = (tt, idle-IsFresh counter ps (omega arith))
idle-IsFresh counter (locked n ∷ ps) h = absurd (omega arith)
idle-IsFresh counter (loaded n value ∷ ps) h = absurd (omega arith)
idle-IsFresh counter (stored ∷ ps) h = absurd (omega arith)

abbrev owners : Bool → ℕ
owners is_locked = if is_locked then 1 else 0

record IsCounting (total : ℕ) (s : State) : Type 0 where
  whole : s.counter + sum_of pending s.threads ≡ total
  token : sum_of holds s.threads ≡ owners s.is_locked
  up_to_date : All (IsFresh s.counter) s.threads

owners_one : (b : Bool) (n : ℕ) → 1 + n ≡ owners b → n ≡ 0
owners_one true n h = omega arith
owners_one false n h = absurd (omega arith)

owners_some : (b : Bool) (n : ℕ) → 1 + n ≡ owners b → owners b ≡ 1
owners_some true n h = refl
owners_some false n h = absurd (omega arith)

-- A step of one thread.
stepped :
    (total : ℕ) (s : State) (before : List Phase) (p q : Phase) (later : List Phase) (counter : ℕ)
    (is_locked : Bool) (v : IsCounting total s)
    → s.threads ≡ before ++ p ∷ later
    → counter + pending q ≡ s.counter + pending p
    → owners is_locked + holds p ≡ owners s.is_locked + holds q
    → All (IsFresh counter) before × IsFresh counter q × All (IsFresh counter) later
    → IsCounting total
        (record { counter = counter; is_locked = is_locked; threads = before ++ q ∷ later })
stepped total s before p q later counter is_locked v e adds owns fresh =
    let whole : s.counter + sum_of pending (before ++ p ∷ later) ≡ total = rw e at v.whole in
    let token : sum_of holds (before ++ p ∷ later) ≡ owners s.is_locked = rw e at v.token in
    record {
      whole = omega (arith, sum_of-at pending before p later, sum_of-at pending before q later);
      token = omega (arith, sum_of-at holds before p later, sum_of-at holds before q later);
      up_to_date = All-append (IsFresh counter) before (q ∷ later) fresh.0 (fresh.1, fresh.2);
    }

Step-IsCounting : (total : ℕ) (s t : State) → Step s t → IsCounting total s → IsCounting total t
Step-IsCounting total s t (lock before later n e free) v =
    let parts =
      All-at (IsFresh s.counter) before (counted n) later
        (subst (All (IsFresh s.counter)) e v.up_to_date) in
    stepped total s before (counted n) (locked n) later s.counter true v e refl (rw free refl) parts
Step-IsCounting total s t (load before later n e) v =
    let parts =
      All-at (IsFresh s.counter) before (locked n) later
        (subst (All (IsFresh s.counter)) e v.up_to_date) in
    stepped total s before (locked n) (loaded n s.counter) later s.counter s.is_locked v e refl refl
      (parts.0, refl, parts.2)
Step-IsCounting total s t (store before later n value e) v =
    let parts =
      All-at (IsFresh s.counter) before (loaded n value) later
        (subst (All (IsFresh s.counter)) e v.up_to_date) in
    let token : sum_of holds (before ++ loaded n value ∷ later) ≡ owners s.is_locked =
      rw e at v.token in
    let alone =
      owners_one s.is_locked (sum_of holds before + sum_of holds later)
        (sym (sum_of-at holds before (loaded n value) later) ∙ token) in
    stepped total s before (loaded n value) stored later (value + n) s.is_locked v e
      (omega (arith, parts.1)) refl
      (
        idle-IsFresh (value + n) before (omega arith),
        tt,
        idle-IsFresh (value + n) later (omega arith),
      )
Step-IsCounting total s t (unlock before later e) v =
    let parts =
      All-at (IsFresh s.counter) before stored later
        (subst (All (IsFresh s.counter)) e v.up_to_date) in
    let token : sum_of holds (before ++ stored ∷ later) ≡ owners s.is_locked = rw e at v.token in
    let owned =
      owners_some s.is_locked (sum_of holds before + sum_of holds later)
        (sym (sum_of-at holds before stored later) ∙ token) in
    stepped total s before stored finished later s.counter false v e refl (omega (arith, owned))
      parts

all_finished-pending : (ps : List Phase) → all_finished ps ≡ true → sum_of pending ps ≡ 0
all_finished-pending [] e = refl
all_finished-pending (finished ∷ ps) e = omega (arith, all_finished-pending ps e)
all_finished-pending (counted n ∷ ps) e = absurd (false-ne-true e)
all_finished-pending (locked n ∷ ps) e = absurd (false-ne-true e)
all_finished-pending (loaded n value ∷ ps) e = absurd (false-ne-true e)
all_finished-pending (stored ∷ ps) e = absurd (false-ne-true e)

module _ {F : Type 0} (num : Numeric F) (func : F → F) (num_cores : ℕ) where
  -- What a thread counts, if the machine has its core.
  abbrev pub share : PthreadData F → ℕ
  share d = if ltb d.assigned_core num_cores then local_count_of num func d else 0

  begin-sums :
      (threads : List (PthreadData F))
      → let s = begin num func num_cores threads in
        (sum_of pending s.threads ≡ sum_of share threads)
        × (sum_of holds s.threads ≡ 0)
        × All (IsFresh 0) s.threads
  begin-sums [] = (refl, refl, tt)
  begin-sums (d ∷ threads) =
      let (shares, free, fresh) = begin-sums threads in
      elim (Bool-cases (ltb d.assigned_core num_cores)) [
        | inl e ↦
            rw e (ap (λ n. local_count_of num func d + n) shares, ap (λ n. 0 + n) free, (tt, fresh))
        | inr e ↦ rw e (ap (λ n. 0 + n) shares, ap (λ n. 0 + n) free, (tt, fresh))
      ]

  Run-IsCounting :
      (threads : List (PthreadData F)) (t : State)
      → Run (begin num func num_cores threads) t
      → IsCounting (sum_of share threads) t
  Run-IsCounting threads t here =
      let (shares, free, fresh) = begin-sums threads in
      record { whole = omega (arith, shares); token = free; up_to_date = fresh }
  Run-IsCounting threads t (next {t = s} run step) =
      Step-IsCounting (sum_of share threads) s t step (Run-IsCounting threads s run)

-- In every order in which the threads take the lock, read and store, when all have returned the
-- integral is the one for the sum of their counts, and none is lost, except that a thread whose number
-- is not below the number of cores adds nothing, while all points are counted in the denominator.
pub integral_of-counter :
    {F : Type 0} (num : Numeric F) (func : F → F) (num_cores side : ℕ) (x_min x_max y_min y_max : F)
    (now : ℕ) (t : State)
    → let threads = thread_data num side x_min x_max y_min y_max now in
      Run (begin num func num_cores threads) t
      → all_finished t.threads ≡ true
      → integral_of num side x_min x_max y_min y_max now t.counter
        ≡ integral_of num side x_min x_max y_min y_max now
            (sum_of (share num func num_cores) threads)
integral_of-counter num func num_cores side x_min x_max y_min y_max now t run over =
    let threads = thread_data num side x_min x_max y_min y_max now in
    let v = Run-IsCounting num func num_cores threads t run in
    let nothing_left = all_finished-pending t.threads over in
    let whole : t.counter ≡ sum_of (share num func num_cores) threads = omega (arith, v.whole) in
    ap (integral_of num side x_min x_max y_min y_max now) whole
