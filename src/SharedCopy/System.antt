-- ===== src/SharedCopy/System.antt =====
-- The two processes of sem_3/homework/src/shm_main.c, a statement at a time, in any order. What a
-- system call gives is chosen by the step; `removed` says that the semaphores are gone.
use sem.Base.{ℕ, suc, ◌+◌, ◌*◌, ◌≤◌, ◌<◌, ◌≡◌, Bool, true, false, [], ◌∷◌, ◌++◌, length, take, drop}
use sem.Text.{Bytes}

-- SHM_SIZE
abbrev pub shm_size : ℕ
shm_size = 4096 * 1024

-- Where the parent stands: before sem_wait, before read, with a count of bytes read, with the size
-- set, before the signal, at the end of the file, with eof set, after an error, behind the loop,
-- and with the semaphores removed.
pub data Parent : Type 0 where
  waits reads : Parent
  filled : ℕ → Parent
  sized full ended ended_set broken leaves left : Parent

-- The child: before sem_wait, before the test of eof, with so many bytes written of so many, before
-- the signal, and after exit(0) or exit(1).
pub data Child : Type 0 where
  awaits checks : Child
  writing : ℕ → ℕ → Child
  emptied done failed : Child

-- `shared` is SharedData: `buffer` stands for the bytes that have been put there.
pub record State : Type 0 where
  pub input : Bytes
  pub output : Bytes
  pub buffer : Bytes
  pub buf_size : ℕ
  pub eof : Bool
  pub empty_sem : ℕ
  pub full_sem : ℕ
  pub removed : Bool
  pub parent : Parent
  pub child : Child

-- read() into the front of the buffer
abbrev pub overwrite : Bytes → Bytes → Bytes
overwrite got old = got ++ drop (length got) old

pub data ParentMove (s : State) : State → Type 0 where
  lock :
      (n : ℕ)
      → s.parent ≡ waits
      → s.removed ≡ false
      → s.empty_sem ≡ suc n
      → ParentMove s (record s { empty_sem = n; parent = reads })
  lock_fails : s.parent ≡ waits → ParentMove s (record s { parent = leaves })
  read_some :
      (c : ℕ) (got rest : Bytes)
      → s.parent ≡ reads
      → s.input ≡ (c ∷ got) ++ rest
      → length (c ∷ got) ≤ shm_size
      → ParentMove s (record s {
        input = rest;
        buffer = overwrite (c ∷ got) s.buffer;
        parent = filled (length (c ∷ got));
      })
  read_end : s.parent ≡ reads → s.input ≡ [] → ParentMove s (record s { parent = ended })
  read_fails : s.parent ≡ reads → ParentMove s (record s { parent = broken })
  set_size :
      (n : ℕ) → s.parent ≡ filled n → ParentMove s (record s { buf_size = n; parent = sized })
  clear_eof : s.parent ≡ sized → ParentMove s (record s { eof = false; parent = full })
  signal :
      s.parent ≡ full
      → s.removed ≡ false
      → ParentMove s (record s { full_sem = suc s.full_sem; parent = waits })
  signal_fails : s.parent ≡ full → ParentMove s (record s { parent = leaves })
  set_eof :
      s.parent ≡ ended → ParentMove s (record s { eof = true; buf_size = 0; parent = ended_set })
  signal_eof :
      s.parent ≡ ended_set
      → s.removed ≡ false
      → ParentMove s (record s { full_sem = suc s.full_sem; parent = leaves })
  signal_eof_fails : s.parent ≡ ended_set → ParentMove s (record s { parent = leaves })
  give_up :
      s.parent ≡ broken
      → s.removed ≡ false
      → ParentMove s (record s { empty_sem = suc s.empty_sem; parent = leaves })
  give_up_fails : s.parent ≡ broken → ParentMove s (record s { parent = leaves })
  remove : s.parent ≡ leaves → ParentMove s (record s { removed = true; parent = left })

pub data ChildMove (s : State) : State → Type 0 where
  lock :
      (n : ℕ)
      → s.child ≡ awaits
      → s.removed ≡ false
      → s.full_sem ≡ suc n
      → ChildMove s (record s { full_sem = n; child = checks })
  lock_fails : s.child ≡ awaits → ChildMove s (record s { child = failed })
  see_eof :
      s.child ≡ checks
      → s.eof ≡ true
      → s.removed ≡ false
      → ChildMove s (record s { empty_sem = suc s.empty_sem; child = done })
  see_eof_unsignalled : s.child ≡ checks → s.eof ≡ true → ChildMove s (record s { child = done })
  start : s.child ≡ checks → s.eof ≡ false → ChildMove s (record s { child = writing 0 s.buf_size })
  write_some :
      (written total n : ℕ)
      → s.child ≡ writing written total
      → 0 < n
      → written + n ≤ total
      → ChildMove s (record s {
        output = s.output ++ take n (drop written s.buffer);
        child = writing (written + n) total;
      })
  write_fails :
      (written total : ℕ)
      → s.child ≡ writing written total
      → written < total
      → ChildMove s (record s { child = failed })
  wrote_all :
      (written total : ℕ)
      → s.child ≡ writing written total
      → total ≤ written
      → ChildMove s (record s { child = emptied })
  signal :
      s.child ≡ emptied
      → s.removed ≡ false
      → ChildMove s (record s { empty_sem = suc s.empty_sem; child = awaits })
  signal_fails : s.child ≡ emptied → ChildMove s (record s { child = failed })

pub data Step (s t : State) : Type 0 where
  by_parent : ParentMove s t → Step s t
  by_child : ChildMove s t → Step s t

-- After semctl: the first semaphore is 1, the second 0.
abbrev pub begin : Bytes → State
begin file = record {
  input = file;
  output = [];
  buffer = [];
  buf_size = 0;
  eof = false;
  empty_sem = 1;
  full_sem = 0;
  removed = false;
  parent = waits;
  child = awaits;
}

pub data Run (s : State) : State → Type 0 where
  here : Run s s
  next : {t u : State} → Run s t → Step t u → Run s u
