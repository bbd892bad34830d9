-- ===== src/FifoCopy/System.antt =====
-- The two processes of sem_3/homework/src/fifo_main.c from fork() on, a system call at a time, in
-- any order. What a call gives is chosen by the step. The clock is left out, and the FIFO may hold
-- any number of bytes.
use sem.Base.{ℕ, ◌≤◌, ◌≡◌, Bool, true, false, [], ◌∷◌, ◌++◌, length}
use sem.Text.{Bytes}

-- BUF_SIZE
abbrev pub buf_size : ℕ
buf_size = 4096

-- Where the parent stands: before open() of the FIFO, before read(), with what is left of the
-- buffer to write, with both files closed, after return 0 or return 1, and killed by SIGPIPE.
pub data Parent : Type 0 where
  opens reads closed finished failed killed : Parent
  writing : Bytes → Parent

-- The child: before open() of output.txt, before open() of the FIFO, before read(), with what is left
-- of the buffer, after exit(0), where `done true` says that the last read gave 0 and not -1, and
-- after exit(1).
pub data Child : Type 0 where
  opens_output opens reads failed : Child
  writing : Bytes → Child
  done : Bool → Child

-- `output` is what the child has written, `pipe` what the FIFO holds.
pub record State : Type 0 where
  pub input : Bytes
  pub output : Bytes
  pub pipe : Bytes
  pub parent : Parent
  pub child : Child

-- No write end of the FIFO is open any more.
abbrev pub is_shut : Parent → Bool
is_shut Parent.opens = false
is_shut Parent.reads = false
is_shut (Parent.writing rest) = false
is_shut closed = true
is_shut finished = true
is_shut Parent.failed = true
is_shut killed = true

abbrev pub has_ended : Child → Bool
has_ended opens_output = false
has_ended Child.opens = false
has_ended Child.reads = false
has_ended (Child.writing rest) = false
has_ended (done at_end) = true
has_ended Child.failed = true

pub data ParentMove (s : State) : State → Type 0 where
  open_fails : s.parent ≡ Parent.opens → ParentMove s (record s { parent = Parent.failed })
  read_some :
      (c : ℕ) (got rest : Bytes)
      → s.parent ≡ Parent.reads
      → s.input ≡ (c ∷ got) ++ rest
      → length (c ∷ got) ≤ buf_size
      → ParentMove s (record s { input = rest; parent = Parent.writing (c ∷ got) })
  read_end : s.parent ≡ Parent.reads → s.input ≡ [] → ParentMove s (record s { parent = closed })
  read_fails : s.parent ≡ Parent.reads → ParentMove s (record s { parent = Parent.failed })
  write_some :
      (c : ℕ) (sent rest : Bytes)
      → s.parent ≡ Parent.writing ((c ∷ sent) ++ rest)
      → has_ended s.child ≡ false
      → ParentMove s (record s { pipe = s.pipe ++ c ∷ sent; parent = Parent.writing rest })
  write_fails :
      (c : ℕ) (rest : Bytes)
      → s.parent ≡ Parent.writing (c ∷ rest)
      → ParentMove s (record s { parent = Parent.failed })
  write_unread :
      (c : ℕ) (rest : Bytes)
      → s.parent ≡ Parent.writing (c ∷ rest)
      → has_ended s.child ≡ true
      → ParentMove s (record s { parent = killed })
  wrote_all : s.parent ≡ Parent.writing [] → ParentMove s (record s { parent = Parent.reads })
  waited :
      s.parent ≡ closed → has_ended s.child ≡ true → ParentMove s (record s { parent = finished })

pub data ChildMove (s : State) : State → Type 0 where
  open_output : s.child ≡ opens_output → ChildMove s (record s { child = Child.opens })
  open_output_fails : s.child ≡ opens_output → ChildMove s (record s { child = Child.failed })
  open_fails : s.child ≡ Child.opens → ChildMove s (record s { child = Child.failed })
  read_some :
      (c : ℕ) (got rest : Bytes)
      → s.child ≡ Child.reads
      → s.pipe ≡ (c ∷ got) ++ rest
      → length (c ∷ got) ≤ buf_size
      → ChildMove s (record s { pipe = rest; child = Child.writing (c ∷ got) })
  read_end :
      s.child ≡ Child.reads
      → s.pipe ≡ []
      → is_shut s.parent ≡ true
      → ChildMove s (record s { child = done true })
  read_fails : s.child ≡ Child.reads → ChildMove s (record s { child = done false })
  write_some :
      (c : ℕ) (sent rest : Bytes)
      → s.child ≡ Child.writing ((c ∷ sent) ++ rest)
      → ChildMove s (record s { output = s.output ++ c ∷ sent; child = Child.writing rest })
  write_fails :
      (c : ℕ) (rest : Bytes)
      → s.child ≡ Child.writing (c ∷ rest)
      → ChildMove s (record s { child = Child.failed })
  wrote_all : s.child ≡ Child.writing [] → ChildMove s (record s { child = Child.reads })

-- open() of a FIFO waits for the other end.
pub data Step (s : State) : State → Type 0 where
  by_parent : {t : State} → ParentMove s t → Step s t
  by_child : {t : State} → ChildMove s t → Step s t
  both_open :
      s.parent ≡ Parent.opens
      → s.child ≡ Child.opens
      → Step s (record s { parent = Parent.reads; child = Child.reads })

-- After fork()
abbrev pub begin : Bytes → State
begin file = record {
  input = file;
  output = [];
  pipe = [];
  parent = Parent.opens;
  child = opens_output;
}

pub data Run (s : State) : State → Type 0 where
  here : Run s s
  next : {t u : State} → Run s t → Step t u → Run s u
