-- ===== src/MessageCopy/Invariant.antt =====
-- What stands between the files of sem_3/homework/src/mq_main.c.
use sem.Base.{
  ℕ, suc, ◌≡◌, ◌∙◌, Bool, true, false, List, [], ◌∷◌, ◌++◌, take, All, ◌==◌, ◌⊎◌, inl, inr,
}
use sem.Text.{Bytes}
use sem.MessageCopy.System.{
  Parent, reads, sends, leaves, flagged, waits, finished, Child, opens_output, receives, checks,
  writing, done, State, eof_msg, is_eof,
}

-- *eof_flag = 1 is done.
abbrev pub is_flagged : Parent → Bool
is_flagged reads = false
is_flagged (sends m) = false
is_flagged (leaves b) = false
is_flagged (flagged b) = true
is_flagged (waits b) = true
is_flagged (finished b) = true
is_flagged Parent.failed = false

-- Nothing is sent any more.
abbrev pub is_over : Parent → Bool
is_over reads = false
is_over (sends m) = false
is_over (leaves b) = false
is_over (flagged b) = false
is_over (waits b) = true
is_over (finished b) = true
is_over Parent.failed = false

abbrev pub AtEnd : Bytes → Bool → Type 0
AtEnd tail true = tail ≡ []
AtEnd tail false = Unit

-- `tail` is what is not in a message yet, if no message could not be sent.
abbrev pub ParentSays : Bytes → Bytes → Parent → Type 0
ParentSays tail input reads = tail ≡ input
ParentSays tail input (sends m) = (tail ≡ m ++ input) × ((c : ℕ) × (b : Bytes) × m ≡ c ∷ b)
ParentSays tail input (leaves b) = AtEnd tail b
ParentSays tail input (flagged b) = AtEnd tail b
ParentSays tail input (waits b) = AtEnd tail b
ParentSays tail input (finished b) = AtEnd tail b
ParentSays tail input Parent.failed = Unit

-- No byte of the file is an E.
abbrev pub HasNoE : Bytes → Type 0
HasNoE file = All (λ c. (c == b'E') ≡ false) file

-- The child has taken the message for the end, which was the last one.
abbrev pub Over : Bytes → List Bytes → Bool → Parent → Type 0
Over held parts closing p = (is_over p ≡ true) × (closing ≡ false) × (held ≡ []) × (parts ≡ [])

-- `held` is what the child has taken from the queue and not written.
abbrev pub ChildSays : Bytes → Bytes → List Bytes → Bool → Bytes → Parent → Child → Type 0
ChildSays file held parts closing text p opens_output = held ≡ []
ChildSays file held parts closing text p receives = held ≡ []
ChildSays file held parts closing text p (checks n) =
    ((held ≡ take n text) × ((k : ℕ) × n ≡ suc k))
    ⊎ (Over held parts closing p × (is_eof text ≡ true))
ChildSays file held parts closing text p (writing rest) = held ≡ rest
ChildSays file held parts closing text p done =
    (is_flagged p ≡ true) × (HasNoE file → Over held parts closing p)
ChildSays file held parts closing text p Child.failed = Unit

abbrev pub concat : List Bytes → Bytes
concat [] = []
concat (m ∷ ms) = m ++ concat ms

abbrev pub last_message : Bool → List Bytes
last_message true = eof_msg ∷ []
last_message false = []

-- `parts` are the messages in the queue that hold a part of the file.
pub record IsCopying (file : Bytes) (s : State) : Type 0 where
  pub held : Bytes
  pub tail : Bytes
  pub parts : List Bytes
  pub closing : Bool
  pub whole : s.output ++ (held ++ (concat parts ++ tail)) ≡ file
  pub full : All (λ m. (c : ℕ) × (b : Bytes) × m ≡ c ∷ b) parts
  pub queued : s.queue ≡ parts ++ last_message closing
  pub closed : closing ≡ true → is_over s.parent ≡ true
  pub flag : s.eof_flag ≡ is_flagged s.parent
  pub says_parent : ParentSays tail s.input s.parent
  pub says_child : ChildSays file held parts closing s.text s.parent s.child

pub true-ne-false : true ≡ false → ⊥
true-ne-false e = cc

-- The child's part stays where the parent sends nothing behind the last message.
pub ChildSays-moved :
    (file held : Bytes) (parts parts' : List Bytes) (closing closing' : Bool) (text : Bytes)
    (p p' : Parent) (c : Child)
    → (is_flagged p ≡ true → is_flagged p' ≡ true)
    → (is_over p ≡ true → (is_over p' ≡ true) × (parts' ≡ parts) × (closing' ≡ closing))
    → ChildSays file held parts closing text p c
    → ChildSays file held parts' closing' text p' c
ChildSays-moved file held parts parts' closing closing' text p p' opens_output f k says = says
ChildSays-moved file held parts parts' closing closing' text p p' receives f k says = says
ChildSays-moved file held parts parts' closing closing' text p p' (writing rest) f k says = says
ChildSays-moved file held parts parts' closing closing' text p p' Child.failed f k says = tt
ChildSays-moved file held parts parts' closing closing' text p p' (checks n) f k says = elim says [
  | inl more ↦ inl more
  | inr (o, eof) ↦
      let (over, same, same_closing) = k o.0 in
      inr ((over, same_closing ∙ o.1, o.2, same ∙ o.3), eof)
]
ChildSays-moved file held parts parts' closing closing' text p p' done f k says = (
  f says.0,
  λ no_e.
      let o = says.1 no_e in
      let (over, same, same_closing) = k o.0 in (over, same_closing ∙ o.1, o.2, same ∙ o.3),
)
