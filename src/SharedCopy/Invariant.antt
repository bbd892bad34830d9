-- ===== src/SharedCopy/Invariant.antt =====
-- The token that passes between the processes of sem_3/homework/src/shm_main.c, and what stands
-- between the files.
use sem.Base.{ℕ, ◌+◌, ◌-◌, ◌≤◌, ◌<◌, ◌≡◌, true, false, [], ◌++◌, take, drop, arith}
use sem.Text.{Bytes}
use sem.SharedCopy.System.{
  Parent, waits, reads, filled, sized, full, ended, ended_set, broken, leaves, left, Child, awaits,
  checks, writing, emptied, done, failed, State,
}

abbrev pub parent_holds : Parent → ℕ
parent_holds waits = 0
parent_holds leaves = 0
parent_holds left = 0
parent_holds reads = 1
parent_holds (filled n) = 1
parent_holds sized = 1
parent_holds full = 1
parent_holds ended = 1
parent_holds ended_set = 1
parent_holds broken = 1

abbrev pub child_holds : Child → ℕ
child_holds checks = 1
child_holds (writing w t) = 1
child_holds emptied = 1
child_holds awaits = 0
child_holds done = 0
child_holds failed = 0

-- What waits in the buffer for the child.
abbrev pub loaded : State → Bytes
loaded s = take s.buf_size s.buffer

-- `tail` is what the output lacks. Where the parent holds the token:
abbrev pub ParentSays : Bytes → State → Parent → Type 0
ParentSays tail s reads = tail ≡ s.input
ParentSays tail s (filled n) = tail ≡ take n s.buffer ++ s.input
ParentSays tail s sized = tail ≡ loaded s ++ s.input
ParentSays tail s full = (tail ≡ loaded s ++ s.input) × (s.eof ≡ false)
ParentSays tail s ended = (tail ≡ s.input) × (s.input ≡ [])
ParentSays tail s ended_set = (tail ≡ []) × (s.input ≡ []) × (s.eof ≡ true)
ParentSays tail s broken = tail ≡ s.input
ParentSays tail s waits = Unit
ParentSays tail s leaves = Unit
ParentSays tail s left = Unit

-- The buffer is full, or the file has ended.
abbrev pub Loaded : Bytes → State → Type 0
Loaded tail s =
    (s.eof ≡ false → tail ≡ loaded s ++ s.input) × (s.eof ≡ true → (tail ≡ []) × (s.input ≡ []))

abbrev pub ChildSays : Bytes → State → Child → Type 0
ChildSays tail s checks = Loaded tail s
ChildSays tail s (writing w t) = (tail ≡ take (t - w) (drop w s.buffer) ++ s.input) × (w ≤ t)
ChildSays tail s emptied = tail ≡ s.input
ChildSays tail s done = tail ≡ []
ChildSays tail s awaits = Unit
ChildSays tail s failed = Unit

pub record IsCopying (file : Bytes) (s : State) : Type 0 where
  pub tail : Bytes
  pub whole : s.output ++ tail ≡ file
  pub token : s.empty_sem + s.full_sem + parent_holds s.parent + child_holds s.child ≤ 1
  pub unfilled : 0 < s.empty_sem → tail ≡ s.input
  pub occupied : 0 < s.full_sem → Loaded tail s
  pub by_parent : ParentSays tail s s.parent
  pub by_child : ChildSays tail s s.child

pub ParentSays-idle :
    (tail : Bytes) (s : State) (p : Parent) → parent_holds p ≡ 0 → ParentSays tail s p
ParentSays-idle tail s waits h = tt
ParentSays-idle tail s leaves h = tt
ParentSays-idle tail s left h = tt
ParentSays-idle tail s reads h = absurd (omega arith)
ParentSays-idle tail s (filled n) h = absurd (omega arith)
ParentSays-idle tail s sized h = absurd (omega arith)
ParentSays-idle tail s full h = absurd (omega arith)
ParentSays-idle tail s ended h = absurd (omega arith)
ParentSays-idle tail s ended_set h = absurd (omega arith)
ParentSays-idle tail s broken h = absurd (omega arith)

pub ChildSays-idle :
    (tail : Bytes) (s t : State) (c : Child)
    → child_holds c ≡ 0
    → ChildSays tail s c
    → ChildSays tail t c
ChildSays-idle tail s t checks h says = absurd (omega arith)
ChildSays-idle tail s t (writing w n) h says = absurd (omega arith)
ChildSays-idle tail s t emptied h says = absurd (omega arith)
ChildSays-idle tail s t awaits h says = says
ChildSays-idle tail s t done h says = says
ChildSays-idle tail s t failed h says = says
