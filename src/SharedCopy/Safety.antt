-- ===== src/SharedCopy/Safety.antt =====
-- What holds in every state that sem_3/homework/src/shm_main.c reaches.
use sem.Base.{
  ◌+◌, ◌≤◌, ◌≡◌, true, false, [], ◌++◌, refl, sym, ◌∙◌, arith, append-nil, ◌⊎◌, inl, inr,
}
use sem.Text.{Bytes}
use sem.SharedCopy.System.{
  Child, awaits, checks, writing, emptied, done, failed, State, ParentMove, ChildMove, begin, Run,
  here, next, by_parent, by_child,
}
use sem.SharedCopy.Invariant.{parent_holds, child_holds, IsCopying}
use sem.SharedCopy.ParentMoves.{ParentMove-IsCopying}
use sem.SharedCopy.ChildMoves.{ChildMove-IsCopying}

true-ne-false : true ≡ false → ⊥
true-ne-false e = cc

begin-IsCopying : (file : Bytes) → IsCopying file (begin file)
begin-IsCopying file = record {
  tail = file;
  whole = refl;
  token = omega arith;
  unfilled = λ h. refl;
  occupied = λ h. absurd (omega arith);
  by_parent = tt;
  by_child = tt;
}

Run-IsCopying : (file : Bytes) (t : State) → Run (begin file) t → IsCopying file t
Run-IsCopying file t here = begin-IsCopying file
Run-IsCopying file t (next {t = s} run (by_parent m)) =
    ParentMove-IsCopying file s t m (Run-IsCopying file s run)
Run-IsCopying file t (next {t = s} run (by_child m)) =
    ChildMove-IsCopying file s t m (Run-IsCopying file s run)

-- The parent and the child are never both between their sem_wait and their sem_signal: in every
-- order of steps, with system calls that fail as they please, at most one of them works on the
-- shared memory.
pub mutual_exclusion :
    (file : Bytes) (t : State)
    → Run (begin file) t
    → parent_holds t.parent + child_holds t.child ≤ 1
mutual_exclusion file t run = let v = Run-IsCopying file t run in omega (arith, v.token)

-- What the child has written is, in every state that is reached, the front of the file, also when
-- a call has failed and when the semaphores are removed under the child.
pub output_front :
    (file : Bytes) (t : State) → Run (begin file) t → (tail : Bytes) × t.output ++ tail ≡ file
output_front file t run = let v = Run-IsCopying file t run in (v.tail, v.whole)

-- A child that leaves its loop at the end of the file has written the whole file.
pub done-output : (file : Bytes) (t : State) → Run (begin file) t → t.child ≡ done → t.output ≡ file
done-output file t run over =
    let v = Run-IsCopying file t run in
    let says : v.tail ≡ [] = rw over at v.by_child in sym (append-nil t.output) ∙ rw says at v.whole

abbrev Orphaned : State → State → Type 0
Orphaned s t =
    (t.removed ≡ true) × (t.output ≡ s.output) × ((t.child ≡ awaits) ⊎ (t.child ≡ failed))

ParentMove-removed : (s u t : State) → ParentMove u t → Orphaned s u → Orphaned s t
ParentMove-removed s u t (ParentMove.lock n p r e) o = o
ParentMove-removed s u t (ParentMove.lock_fails p) o = o
ParentMove-removed s u t (ParentMove.read_some c got rest p e short) o = o
ParentMove-removed s u t (ParentMove.read_end p e) o = o
ParentMove-removed s u t (ParentMove.read_fails p) o = o
ParentMove-removed s u t (ParentMove.set_size n p) o = o
ParentMove-removed s u t (ParentMove.clear_eof p) o = o
ParentMove-removed s u t (ParentMove.signal p r) o = o
ParentMove-removed s u t (ParentMove.signal_fails p) o = o
ParentMove-removed s u t (ParentMove.set_eof p) o = o
ParentMove-removed s u t (ParentMove.signal_eof p r) o = o
ParentMove-removed s u t (ParentMove.signal_eof_fails p) o = o
ParentMove-removed s u t (ParentMove.give_up p r) o = o
ParentMove-removed s u t (ParentMove.give_up_fails p) o = o
ParentMove-removed s u t (ParentMove.remove p) o = (refl, o.1, o.2)

-- A child that neither waits nor has failed is not orphaned.
not_orphaned :
    {C : Type 0} (s u : State) (c : Child)
    → Orphaned s u
    → u.child ≡ c
    → (c ≡ awaits → ⊥)
    → (c ≡ failed → ⊥)
    → C
not_orphaned s u c o p a f = elim o.2 [
  | inl e ↦ absurd (a (sym p ∙ e))
  | inr e ↦ absurd (f (sym p ∙ e))
]

ChildMove-removed : (s u t : State) → ChildMove u t → Orphaned s u → Orphaned s t
ChildMove-removed s u t (ChildMove.lock n p r e) o = absurd (true-ne-false (sym o.0 ∙ r))
ChildMove-removed s u t (ChildMove.lock_fails p) o = (o.0, o.1, inr refl)
ChildMove-removed s u t (ChildMove.see_eof p e r) o =
    not_orphaned s u checks o p (λ e. cc) (λ e. cc)
ChildMove-removed s u t (ChildMove.see_eof_unsignalled p e) o =
    not_orphaned s u checks o p (λ e. cc) (λ e. cc)
ChildMove-removed s u t (ChildMove.start p e) o = not_orphaned s u checks o p (λ e. cc) (λ e. cc)
ChildMove-removed s u t (ChildMove.write_some w m n p pos fits) o =
    not_orphaned s u (writing w m) o p (λ e. cc) (λ e. cc)
ChildMove-removed s u t (ChildMove.write_fails w m p more) o =
    not_orphaned s u (writing w m) o p (λ e. cc) (λ e. cc)
ChildMove-removed s u t (ChildMove.wrote_all w m p all) o =
    not_orphaned s u (writing w m) o p (λ e. cc) (λ e. cc)
ChildMove-removed s u t (ChildMove.signal p r) o = not_orphaned s u emptied o p (λ e. cc) (λ e. cc)
ChildMove-removed s u t (ChildMove.signal_fails p) o =
    not_orphaned s u emptied o p (λ e. cc) (λ e. cc)

Run-removed : (s t : State) → s.removed ≡ true → s.child ≡ awaits → Run s t → Orphaned s t
Run-removed s t gone waiting here = (gone, refl, inl waiting)
Run-removed s t gone waiting (next {t = u} run (by_parent m)) =
    ParentMove-removed s u t m (Run-removed s u gone waiting run)
Run-removed s t gone waiting (next {t = u} run (by_child m)) =
    ChildMove-removed s u t m (Run-removed s u gone waiting run)

-- Where the semaphores are removed while the child is about to wait, which it is after every part
-- of the file, the child never leaves its loop in the regular way: it writes nothing more, and it
-- stays where it is or ends with exit(1).
pub awaits-removed :
    (s t : State)
    → s.removed ≡ true
    → s.child ≡ awaits
    → Run s t
    → (t.output ≡ s.output) × ((t.child ≡ awaits) ⊎ (t.child ≡ failed))
awaits-removed s t gone waiting run =
    let (_, same, at) = Run-removed s t gone waiting run in (same, at)
