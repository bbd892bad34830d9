-- ===== src/FifoCopy/Invariant.antt =====
-- What stands between the files of sem_3/homework/src/fifo_main.c.
use sem.Base.{◌≡◌, refl, sym, ap, ◌∙◌, true, false, [], ◌∷◌, ◌++◌, append_assoc}
use sem.Text.{Bytes}
use sem.FifoCopy.System.{
  Parent, closed, finished, killed, Child, opens_output, done, State, is_shut, ParentMove,
  ChildMove, Step, by_parent, by_child, both_open,
}

-- `tail` is what has not reached the FIFO.
abbrev pub ParentSays : Bytes → Bytes → Parent → Type 0
ParentSays tail input Parent.opens = tail ≡ input
ParentSays tail input Parent.reads = tail ≡ input
ParentSays tail input (Parent.writing rest) = tail ≡ rest ++ input
ParentSays tail input closed = tail ≡ []
ParentSays tail input finished = tail ≡ []
ParentSays tail input Parent.failed = Unit
ParentSays tail input killed = Unit

-- `held` is what the child has taken from the FIFO and not written.
abbrev pub ChildSays : Bytes → Bytes → Parent → Child → Type 0
ChildSays held pipe p opens_output = held ≡ []
ChildSays held pipe p Child.opens = held ≡ []
ChildSays held pipe p Child.reads = held ≡ []
ChildSays held pipe p (Child.writing rest) = held ≡ rest
ChildSays held pipe p (done true) = (held ≡ []) × (pipe ≡ []) × (is_shut p ≡ true)
ChildSays held pipe p (done false) = Unit
ChildSays held pipe p Child.failed = Unit

pub record IsCopying (file : Bytes) (s : State) : Type 0 where
  pub held : Bytes
  pub tail : Bytes
  pub whole : s.output ++ (held ++ (s.pipe ++ tail)) ≡ file
  pub says_parent : ParentSays tail s.input s.parent
  pub says_child : ChildSays held s.pipe s.parent s.child

pub true-ne-false : true ≡ false → ⊥
true-ne-false e = cc

-- The child's part stays where the parent shuts the FIFO or keeps it as it is.
ChildSays-moved :
    (held pipe pipe' : Bytes) (p p' : Parent) (c : Child)
    → (is_shut p ≡ true → (is_shut p' ≡ true) × (pipe' ≡ pipe))
    → ChildSays held pipe p c
    → ChildSays held pipe' p' c
ChildSays-moved held pipe pipe' p p' opens_output keeps says = says
ChildSays-moved held pipe pipe' p p' Child.opens keeps says = says
ChildSays-moved held pipe pipe' p p' Child.reads keeps says = says
ChildSays-moved held pipe pipe' p p' (Child.writing rest) keeps says = says
ChildSays-moved held pipe pipe' p p' (done true) keeps says =
    let (shut, same) = keeps says.2 in (says.0, same ∙ says.1, shut)
ChildSays-moved held pipe pipe' p p' (done false) keeps says = tt
ChildSays-moved held pipe pipe' p p' Child.failed keeps says = tt

-- A move of the parent that writes nothing.
moved :
    (file input' : Bytes) (s : State) (p : Parent) (v : IsCopying file s)
    → (is_shut s.parent ≡ true → is_shut p ≡ true)
    → ParentSays v.tail input' p
    → IsCopying file (record s { input = input'; parent = p })
moved file input' s p v keeps says = record {
  held = v.held;
  tail = v.tail;
  whole = v.whole;
  says_parent = says;
  says_child =
      ChildSays-moved v.held s.pipe s.pipe s.parent p s.child (λ shut. (keeps shut, refl))
        v.says_child;
}

open_still : (p q : Parent) → p ≡ q → is_shut q ≡ false → is_shut p ≡ true → ⊥
open_still p q e opened shut = true-ne-false (sym shut ∙ ap is_shut e ∙ opened)

ParentMove-IsCopying :
    (file : Bytes) (s t : State) → ParentMove s t → IsCopying file s → IsCopying file t
ParentMove-IsCopying file s t (ParentMove.open_fails p) v =
    moved file s.input s Parent.failed v (λ _. refl) tt
ParentMove-IsCopying file s t (ParentMove.read_some c got rest p e short) v =
    moved file rest s (Parent.writing (c ∷ got)) v
      (λ shut. absurd (open_still s.parent Parent.reads p refl shut)) ((rw p at v.says_parent) ∙ e)
ParentMove-IsCopying file s t (ParentMove.read_end p e) v =
    moved file s.input s closed v (λ _. refl) ((rw p at v.says_parent) ∙ e)
ParentMove-IsCopying file s t (ParentMove.read_fails p) v =
    moved file s.input s Parent.failed v (λ _. refl) tt
ParentMove-IsCopying file s t (ParentMove.write_some c sent rest p live) v =
    let says : v.tail ≡ ((c ∷ sent) ++ rest) ++ s.input = rw p at v.says_parent in
    record {
      held = v.held;
      tail = rest ++ s.input;
      whole =
          rw (append_assoc s.pipe (c ∷ sent) (rest ++ s.input))
            (rw (says, append_assoc sent rest s.input) at v.whole);
      says_parent = refl;
      says_child =
          ChildSays-moved v.held s.pipe (s.pipe ++ c ∷ sent) s.parent (Parent.writing rest) s.child
            (λ shut. absurd (open_still s.parent (Parent.writing ((c ∷ sent) ++ rest)) p refl shut))
            v.says_child;
    }
ParentMove-IsCopying file s t (ParentMove.write_fails c rest p) v =
    moved file s.input s Parent.failed v (λ _. refl) tt
ParentMove-IsCopying file s t (ParentMove.write_unread c rest p ended) v =
    moved file s.input s killed v (λ _. refl) tt
ParentMove-IsCopying file s t (ParentMove.wrote_all p) v =
    moved file s.input s Parent.reads v
      (λ shut. absurd (open_still s.parent (Parent.writing []) p refl shut)) (rw p at v.says_parent)
ParentMove-IsCopying file s t (ParentMove.waited p ended) v =
    moved file s.input s finished v (λ _. refl) (rw p at v.says_parent)

-- A move of the child that takes and writes nothing.
turned :
    (file : Bytes) (s : State) (c : Child) (v : IsCopying file s)
    → ChildSays v.held s.pipe s.parent c
    → IsCopying file (record s { child = c })
turned file s c v says = record {
  held = v.held;
  tail = v.tail;
  whole = v.whole;
  says_parent = v.says_parent;
  says_child = says;
}

ChildMove-IsCopying :
    (file : Bytes) (s t : State) → ChildMove s t → IsCopying file s → IsCopying file t
ChildMove-IsCopying file s t (ChildMove.open_output p) v =
    turned file s Child.opens v (rw p at v.says_child)
ChildMove-IsCopying file s t (ChildMove.open_output_fails p) v = turned file s Child.failed v tt
ChildMove-IsCopying file s t (ChildMove.open_fails p) v = turned file s Child.failed v tt
ChildMove-IsCopying file s t (ChildMove.read_some c got rest p e short) v =
    let empty : v.held ≡ [] = rw p at v.says_child in
    record {
      held = c ∷ got;
      tail = v.tail;
      whole = rw (empty, e, append_assoc got rest v.tail) at v.whole;
      says_parent = v.says_parent;
      says_child = refl;
    }
ChildMove-IsCopying file s t (ChildMove.read_end p e shut) v =
    turned file s (done true) v (rw p at v.says_child, e, shut)
ChildMove-IsCopying file s t (ChildMove.read_fails p) v = turned file s (done false) v tt
ChildMove-IsCopying file s t (ChildMove.write_some c sent rest p) v =
    let says : v.held ≡ (c ∷ sent) ++ rest = rw p at v.says_child in
    record {
      held = rest;
      tail = v.tail;
      whole =
          rw (append_assoc s.output (c ∷ sent) (rest ++ (s.pipe ++ v.tail)))
            (rw (says, append_assoc sent rest (s.pipe ++ v.tail)) at v.whole);
      says_parent = v.says_parent;
      says_child = refl;
    }
ChildMove-IsCopying file s t (ChildMove.write_fails c rest p) v = turned file s Child.failed v tt
ChildMove-IsCopying file s t (ChildMove.wrote_all p) v =
    turned file s Child.reads v (rw p at v.says_child)

pub Step-IsCopying : (file : Bytes) (s t : State) → Step s t → IsCopying file s → IsCopying file t
Step-IsCopying file s t (by_parent m) v = ParentMove-IsCopying file s t m v
Step-IsCopying file s t (by_child m) v = ChildMove-IsCopying file s t m v
Step-IsCopying file s t (both_open p c) v = record {
  held = v.held;
  tail = v.tail;
  whole = v.whole;
  says_parent = rw p at v.says_parent;
  says_child = rw c at v.says_child;
}
