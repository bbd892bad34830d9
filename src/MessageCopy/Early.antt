-- ===== src/MessageCopy/Early.antt =====
-- The end that sem_3/homework/src/mq_main.c takes a part of the file for.
use sem.Base.{◌≡◌, refl, sym, ap, ◌∙◌, true, List, [], ◌∷◌, ◌++◌}
use sem.Text.{Bytes}
use sem.MessageCopy.System.{
  Child, opens_output, receives, checks, writing, done, State, eof_msg, is_eof, overwrite,
  ParentMove, ChildMove, by_parent, by_child, Run, here, next,
}
use sem.MessageCopy.Invariant.{true-ne-false}

-- The message `m` is the next one, is being tested, or has ended the child.
abbrev Placed : Bytes → Bytes → List Bytes → Bytes → Child → Type 0
Placed m old queue text receives = ((rest : List Bytes) × queue ≡ m ∷ rest) × (text ≡ old)
Placed m old queue text (checks n) = is_eof text ≡ true
Placed m old queue text done = Unit
Placed m old queue text Child.failed = Unit
Placed m old queue text opens_output = ⊥
Placed m old queue text (writing rest) = ⊥

Placed-more :
    (m old : Bytes) (queue : List Bytes) (text later : Bytes) (c : Child)
    → Placed m old queue text c
    → Placed m old (queue ++ later ∷ []) text c
Placed-more m old queue text later receives h =
    let (rest, e) = h.0 in ((rest ++ later ∷ [], ap (λ q. q ++ later ∷ []) e), h.1)
Placed-more m old queue text later (checks n) h = h
Placed-more m old queue text later done h = tt
Placed-more m old queue text later Child.failed h = tt
Placed-more m old queue text later opens_output h = h
Placed-more m old queue text later (writing rest) h = h

abbrev Ending : Bytes → State → State → Type 0
Ending m s t = (t.eof_flag ≡ true) × (t.output ≡ s.output) × Placed m s.text t.queue t.text t.child

ParentMove-Ending : (m : Bytes) (s u t : State) → ParentMove u t → Ending m s u → Ending m s t
ParentMove-Ending m s u t (ParentMove.read_some c got rest p e short) o = o
ParentMove-Ending m s u t (ParentMove.read_end p e) o = o
ParentMove-Ending m s u t (ParentMove.read_fails p) o = o
ParentMove-Ending m s u t (ParentMove.send n p) o =
    (o.0, o.1, Placed-more m s.text u.queue u.text n u.child o.2)
ParentMove-Ending m s u t (ParentMove.send_fails n p) o = o
ParentMove-Ending m s u t (ParentMove.set_flag b p) o = (refl, o.1, o.2)
ParentMove-Ending m s u t (ParentMove.send_eof b p) o =
    (o.0, o.1, Placed-more m s.text u.queue u.text eof_msg u.child o.2)
ParentMove-Ending m s u t (ParentMove.send_eof_fails b p) o = o
ParentMove-Ending m s u t (ParentMove.waited b p ended) o = o

same_head : (m n : Bytes) (rest later : List Bytes) → n ∷ rest ≡ m ∷ later → n ≡ m
same_head m n rest later e = cc

ChildMove-Ending :
    (m : Bytes) (s u t : State)
    → is_eof (overwrite m s.text) ≡ true
    → ChildMove u t
    → Ending m s u
    → Ending m s t
ChildMove-Ending m s u t eof (ChildMove.open_output p) o = absurd (rw p at o.2)
ChildMove-Ending m s u t eof (ChildMove.open_output_fails p) o = absurd (rw p at o.2)
ChildMove-Ending m s u t eof (ChildMove.receive n rest p e) o =
    let at : Placed m s.text u.queue u.text receives = rw p at o.2 in
    let (later, first) = at.0 in (o.0, o.1, rw (same_head m n rest later (sym e ∙ first), at.1) eof)
ChildMove-Ending m s u t eof (ChildMove.receive_fails p) o = (o.0, o.1, tt)
ChildMove-Ending m s u t eof (ChildMove.see_eof n p e x) o = (o.0, o.1, tt)
ChildMove-Ending m s u t eof (ChildMove.start n p e) o =
    let at : is_eof u.text ≡ true = rw p at o.2 in absurd (true-ne-false (rw (o.0, at) at e))
ChildMove-Ending m s u t eof (ChildMove.write_some c put rest p) o = absurd (rw p at o.2)
ChildMove-Ending m s u t eof (ChildMove.write_fails c rest p) o = (o.0, o.1, tt)
ChildMove-Ending m s u t eof (ChildMove.wrote_all p) o = absurd (rw p at o.2)

-- If eof_flag is set and the next message begins, in the buffer of the child, with EOF, then the
-- child writes nothing more, whatever the rest of that message and of the queue hold.
pub is_eof-output :
    (m : Bytes) (rest : List Bytes) (s t : State)
    → s.eof_flag ≡ true
    → s.child ≡ receives
    → s.queue ≡ m ∷ rest
    → is_eof (overwrite m s.text) ≡ true
    → Run s t
    → t.output ≡ s.output
is_eof-output m rest s t set waiting first eof run = (Run-Ending t run).1
  where
    Run-Ending : (t : State) → Run s t → Ending m s t
    Run-Ending t here = (set, refl, rw waiting ((rest, first), refl))
    Run-Ending t (next {t = u} r (by_parent p)) = ParentMove-Ending m s u t p (Run-Ending u r)
    Run-Ending t (next {t = u} r (by_child c)) = ChildMove-Ending m s u t eof c (Run-Ending u r)
