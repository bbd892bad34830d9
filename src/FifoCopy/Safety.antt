-- ===== src/FifoCopy/Safety.antt =====
-- What holds in every state that sem_3/homework/src/fifo_main.c reaches.
use sem.Base.{◌≡◌, refl, sym, ◌∙◌, Bool, true, false, [], ◌∷◌, ◌++◌, append-nil, ◌⊎◌, inl, inr}
use sem.Text.{Bytes}
use sem.FifoCopy.System.{
  Parent, closed, finished, killed, Child, opens_output, done, State, ParentMove, ChildMove,
  by_parent, by_child, both_open, begin, Run, here, next,
}
use sem.FifoCopy.Invariant.{ParentSays, ChildSays, IsCopying, Step-IsCopying, true-ne-false}

Run-IsCopying : (file : Bytes) (t : State) → Run (begin file) t → IsCopying file t
Run-IsCopying file t here = record {
  held = [];
  tail = file;
  whole = refl;
  says_parent = refl;
  says_child = refl;
}
Run-IsCopying file t (next {t = s} run step) =
    Step-IsCopying file s t step (Run-IsCopying file s run)

-- The parent has got to the end of the file.
abbrev pub at_end : Parent → Bool
at_end Parent.opens = false
at_end Parent.reads = false
at_end (Parent.writing rest) = false
at_end closed = true
at_end finished = true
at_end Parent.failed = false
at_end killed = false

at_end-ParentSays :
    (tail input : Bytes) (p : Parent) → at_end p ≡ true → ParentSays tail input p → tail ≡ []
at_end-ParentSays tail input closed e says = says
at_end-ParentSays tail input finished e says = says
at_end-ParentSays tail input Parent.opens e says = absurd (true-ne-false (sym e))
at_end-ParentSays tail input Parent.reads e says = absurd (true-ne-false (sym e))
at_end-ParentSays tail input (Parent.writing rest) e says = absurd (true-ne-false (sym e))
at_end-ParentSays tail input Parent.failed e says = absurd (true-ne-false (sym e))
at_end-ParentSays tail input killed e says = absurd (true-ne-false (sym e))

-- What the child has written is, in every state that is reached, the front of the file, whatever
-- calls have failed.
pub fifo_output_front :
    (file : Bytes) (t : State) → Run (begin file) t → (tail : Bytes) × t.output ++ tail ≡ file
fifo_output_front file t run =
    let v = Run-IsCopying file t run in (v.held ++ (t.pipe ++ v.tail), v.whole)

-- If the parent has got to the end of the file and the child ends because a read of the FIFO gave 0,
-- then the child has written the whole file, in every order of steps.
pub fifo_done-output :
    (file : Bytes) (t : State)
    → Run (begin file) t
    → at_end t.parent ≡ true
    → t.child ≡ done true
    → t.output ≡ file
fifo_done-output file t run ended over =
    let v = Run-IsCopying file t run in
    let says : ChildSays v.held t.pipe t.parent (done true) = rw over at v.says_child in
    let none_left = at_end-ParentSays v.tail t.input t.parent ended v.says_parent in
    let whole : t.output ++ [] ≡ file = rw (says.0, says.1, none_left) at v.whole in
    sym (append-nil t.output) ∙ whole

abbrev Stuck : State → State → Type 0
Stuck s t =
    (t.child ≡ Child.failed)
    × (t.output ≡ s.output)
    × ((t.parent ≡ Parent.opens) ⊎ (t.parent ≡ Parent.failed))

not_at :
    {C : Type 0} (s u : State) (p : Parent)
    → Stuck s u
    → u.parent ≡ p
    → (p ≡ Parent.opens → ⊥)
    → (p ≡ Parent.failed → ⊥)
    → C
not_at s u p o e a f = elim o.2 [ inl w ↦ absurd (a (sym e ∙ w)) | inr w ↦ absurd (f (sym e ∙ w)) ]

not_with :
    {C : Type 0} (s u : State) (c : Child) → Stuck s u → u.child ≡ c → (c ≡ Child.failed → ⊥) → C
not_with s u c o e f = absurd (f (sym e ∙ o.0))

ParentMove-Stuck : (s u t : State) → ParentMove u t → Stuck s u → Stuck s t
ParentMove-Stuck s u t (ParentMove.open_fails p) o = (o.0, o.1, inr refl)
ParentMove-Stuck s u t (ParentMove.read_some c got rest p e short) o =
    not_at s u Parent.reads o p (λ e. cc) (λ e. cc)
ParentMove-Stuck s u t (ParentMove.read_end p e) o = not_at s u Parent.reads o p (λ e. cc) (λ e. cc)
ParentMove-Stuck s u t (ParentMove.read_fails p) o = (o.0, o.1, inr refl)
ParentMove-Stuck s u t (ParentMove.write_some c sent rest p live) o =
    not_at s u (Parent.writing ((c ∷ sent) ++ rest)) o p (λ e. cc) (λ e. cc)
ParentMove-Stuck s u t (ParentMove.write_fails c rest p) o = (o.0, o.1, inr refl)
ParentMove-Stuck s u t (ParentMove.write_unread c rest p ended) o =
    not_at s u (Parent.writing (c ∷ rest)) o p (λ e. cc) (λ e. cc)
ParentMove-Stuck s u t (ParentMove.wrote_all p) o =
    not_at s u (Parent.writing []) o p (λ e. cc) (λ e. cc)
ParentMove-Stuck s u t (ParentMove.waited p ended) o = not_at s u closed o p (λ e. cc) (λ e. cc)

ChildMove-Stuck : (s u t : State) → ChildMove u t → Stuck s u → Stuck s t
ChildMove-Stuck s u t (ChildMove.open_output p) o = not_with s u opens_output o p (λ e. cc)
ChildMove-Stuck s u t (ChildMove.open_output_fails p) o = (refl, o.1, o.2)
ChildMove-Stuck s u t (ChildMove.open_fails p) o = (refl, o.1, o.2)
ChildMove-Stuck s u t (ChildMove.read_some c got rest p e short) o =
    not_with s u Child.reads o p (λ e. cc)
ChildMove-Stuck s u t (ChildMove.read_end p e shut) o = not_with s u Child.reads o p (λ e. cc)
ChildMove-Stuck s u t (ChildMove.read_fails p) o = not_with s u Child.reads o p (λ e. cc)
ChildMove-Stuck s u t (ChildMove.write_some c sent rest p) o =
    not_with s u (Child.writing ((c ∷ sent) ++ rest)) o p (λ e. cc)
ChildMove-Stuck s u t (ChildMove.write_fails c rest p) o = (refl, o.1, o.2)
ChildMove-Stuck s u t (ChildMove.wrote_all p) o = not_with s u (Child.writing []) o p (λ e. cc)

Run-Stuck : (s t : State) → s.parent ≡ Parent.opens → s.child ≡ Child.failed → Run s t → Stuck s t
Run-Stuck s t waits gone here = (gone, refl, inl waits)
Run-Stuck s t waits gone (next {t = u} run (by_parent m)) =
    ParentMove-Stuck s u t m (Run-Stuck s u waits gone run)
Run-Stuck s t waits gone (next {t = u} run (by_child m)) =
    ChildMove-Stuck s u t m (Run-Stuck s u waits gone run)
Run-Stuck s t waits gone (next {t = u} run (both_open p c)) =
    not_with s u Child.opens (Run-Stuck s u waits gone run) c (λ e. cc)

-- If the child ends before it has opened the FIFO, as where it cannot open output.txt, then the
-- parent never gets past its open() of the FIFO, unless that fails, and nothing is ever written.
pub opens-failed :
    (s t : State)
    → s.parent ≡ Parent.opens
    → s.child ≡ Child.failed
    → Run s t
    → (t.output ≡ s.output) × ((t.parent ≡ Parent.opens) ⊎ (t.parent ≡ Parent.failed))
opens-failed s t waits gone run = let (_, same, at) = Run-Stuck s t waits gone run in (same, at)
