-- ===== src/MessageCopy/System.antt =====
-- The two processes of sem_3/homework/src/mq_main.c from fork() on, a statement at a time, in any
-- order. What a call gives is chosen by the step. The clock is left out, the queue is empty at first
-- and may hold any number of messages.
use sem.Base.{ℕ, ◌≤◌, ◌≡◌, Bool, true, false, ◌&&◌, List, [], ◌∷◌, ◌++◌, length, take, drop}
use sem.Text.{Bytes, codes, starts_with}

-- MQ_SIZE
abbrev pub mq_size : ℕ
mq_size = 4096

abbrev pub eof_msg : Bytes
eof_msg = codes "EOF"

-- Where the parent stands: before read(), before msgsnd() of a message, behind the loop, with
-- eof_flag set, before wait(), and after return 0 or return 1. The Boolean says that the last read
-- gave 0.
pub data Parent : Type 0 where
  reads : Parent
  sends : Bytes → Parent
  leaves flagged waits finished : Bool → Parent
  failed : Parent

-- The child: before open() of output.txt, before msgrcv(), before the test for the end with a
-- message of so many bytes, with what is left of the message to write, and after exit(0) or exit(1).
pub data Child : Type 0 where
  opens_output receives done failed : Child
  checks : ℕ → Child
  writing : Bytes → Child

-- `output` is what the child has written, `text` the front of its msg.mtext that messages have
-- reached; behind that there are zeros.
pub record State : Type 0 where
  pub input : Bytes
  pub output : Bytes
  pub queue : List Bytes
  pub eof_flag : Bool
  pub text : Bytes
  pub parent : Parent
  pub child : Child

-- memcmp(msg.mtext, EOF_MSG, sizeof(EOF_MSG) - 1) == 0
abbrev pub is_eof : Bytes → Bool
is_eof text = starts_with eof_msg text

-- msgrcv() into the front of msg.mtext
abbrev pub overwrite : Bytes → Bytes → Bytes
overwrite got old = got ++ drop (length got) old

abbrev pub has_ended : Child → Bool
has_ended opens_output = false
has_ended receives = false
has_ended (checks n) = false
has_ended (writing rest) = false
has_ended done = true
has_ended Child.failed = true

pub data ParentMove (s : State) : State → Type 0 where
  read_some :
      (c : ℕ) (got rest : Bytes)
      → s.parent ≡ reads
      → s.input ≡ (c ∷ got) ++ rest
      → length (c ∷ got) ≤ mq_size
      → ParentMove s (record s { input = rest; parent = sends (c ∷ got) })
  read_end : s.parent ≡ reads → s.input ≡ [] → ParentMove s (record s { parent = leaves true })
  read_fails : s.parent ≡ reads → ParentMove s (record s { parent = Parent.failed })
  send :
      (m : Bytes)
      → s.parent ≡ sends m
      → ParentMove s (record s { queue = s.queue ++ m ∷ []; parent = reads })
  send_fails : (m : Bytes) → s.parent ≡ sends m → ParentMove s (record s { parent = leaves false })
  set_flag :
      (at_end : Bool)
      → s.parent ≡ leaves at_end
      → ParentMove s (record s { eof_flag = true; parent = flagged at_end })
  send_eof :
      (at_end : Bool)
      → s.parent ≡ flagged at_end
      → ParentMove s (record s { queue = s.queue ++ eof_msg ∷ []; parent = waits at_end })
  send_eof_fails :
      (at_end : Bool)
      → s.parent ≡ flagged at_end
      → ParentMove s (record s { parent = waits at_end })
  waited :
      (at_end : Bool)
      → s.parent ≡ waits at_end
      → has_ended s.child ≡ true
      → ParentMove s (record s { parent = finished at_end })

pub data ChildMove (s : State) : State → Type 0 where
  open_output : s.child ≡ opens_output → ChildMove s (record s { child = receives })
  open_output_fails : s.child ≡ opens_output → ChildMove s (record s { child = Child.failed })
  receive :
      (m : Bytes) (rest : List Bytes)
      → s.child ≡ receives
      → s.queue ≡ m ∷ rest
      → ChildMove s
          (record s { queue = rest; text = overwrite m s.text; child = checks (length m) })
  receive_fails : s.child ≡ receives → ChildMove s (record s { child = Child.failed })
  see_eof :
      (n : ℕ)
      → s.child ≡ checks n
      → s.eof_flag ≡ true
      → is_eof s.text ≡ true
      → ChildMove s (record s { child = done })
  start :
      (n : ℕ)
      → s.child ≡ checks n
      → s.eof_flag && is_eof s.text ≡ false
      → ChildMove s (record s { child = writing (take n s.text) })
  write_some :
      (c : ℕ) (put rest : Bytes)
      → s.child ≡ writing ((c ∷ put) ++ rest)
      → ChildMove s (record s { output = s.output ++ c ∷ put; child = writing rest })
  write_fails :
      (c : ℕ) (rest : Bytes)
      → s.child ≡ writing (c ∷ rest)
      → ChildMove s (record s { child = Child.failed })
  wrote_all : s.child ≡ writing [] → ChildMove s (record s { child = receives })

pub data Step (s t : State) : Type 0 where
  by_parent : ParentMove s t → Step s t
  by_child : ChildMove s t → Step s t

-- After fork()
abbrev pub begin : Bytes → State
begin file = record {
  input = file;
  output = [];
  queue = [];
  eof_flag = false;
  text = [];
  parent = reads;
  child = opens_output;
}

pub data Run (s : State) : State → Type 0 where
  here : Run s s
  next : {t u : State} → Run s t → Step t u → Run s u
