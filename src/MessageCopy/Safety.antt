-- ===== src/MessageCopy/Safety.antt =====
-- What holds in every state that sem_3/homework/src/mq_main.c reaches.
use sem.Base.{◌≡◌, refl, sym, ap, ◌∙◌, Bool, true, false, [], ◌++◌, append-nil}
use sem.Text.{Bytes}
use sem.MessageCopy.System.{
  Parent, reads, sends, leaves, flagged, waits, finished, done, State, begin, Run, here, next,
}
use sem.MessageCopy.Invariant.{
  is_flagged, ParentSays, HasNoE, ChildSays, IsCopying, concat, true-ne-false,
}
use sem.MessageCopy.Moves.{Step-IsCopying}

Run-IsCopying : (file : Bytes) (t : State) → Run (begin file) t → IsCopying file t
Run-IsCopying file t here = record {
  held = [];
  tail = file;
  parts = [];
  closing = false;
  whole = refl;
  full = tt;
  queued = refl;
  closed = λ e. absurd (true-ne-false (sym e));
  flag = refl;
  says_parent = refl;
  says_child = refl;
}
Run-IsCopying file t (next {t = s} run step) =
    Step-IsCopying file s t step (Run-IsCopying file s run)

-- What the child has written is, in every state that is reached, the front of the file, whatever
-- calls have failed.
pub mq_output_front :
    (file : Bytes) (t : State) → Run (begin file) t → (tail : Bytes) × t.output ++ tail ≡ file
mq_output_front file t run =
    let v = Run-IsCopying file t run in (v.held ++ (concat v.parts ++ v.tail), v.whole)

-- Whether the last read of the parent has found the end of the file.
abbrev pub at_end : Parent → Bool
at_end reads = false
at_end (sends m) = false
at_end (leaves b) = b
at_end (flagged b) = b
at_end (waits b) = b
at_end (finished b) = b
at_end Parent.failed = false

at_end-ParentSays :
    (tail input : Bytes) (p : Parent) → at_end p ≡ true → ParentSays tail input p → tail ≡ []
at_end-ParentSays tail input (leaves true) e says = says
at_end-ParentSays tail input (flagged true) e says = says
at_end-ParentSays tail input (waits true) e says = says
at_end-ParentSays tail input (finished true) e says = says
at_end-ParentSays tail input (leaves false) e says = absurd (true-ne-false (sym e))
at_end-ParentSays tail input (flagged false) e says = absurd (true-ne-false (sym e))
at_end-ParentSays tail input (waits false) e says = absurd (true-ne-false (sym e))
at_end-ParentSays tail input (finished false) e says = absurd (true-ne-false (sym e))
at_end-ParentSays tail input reads e says = absurd (true-ne-false (sym e))
at_end-ParentSays tail input (sends m) e says = absurd (true-ne-false (sym e))
at_end-ParentSays tail input Parent.failed e says = absurd (true-ne-false (sym e))

-- If no byte of the file is an E, the parent has read it to its end and the child has left its loop,
-- then the child has written the whole file, in every order of steps.
pub mq_done-output :
    (file : Bytes) (t : State)
    → Run (begin file) t
    → HasNoE file
    → at_end t.parent ≡ true
    → t.child ≡ done
    → t.output ≡ file
mq_done-output file t run no_e ended over =
    let v = Run-IsCopying file t run in
    let says : ChildSays file v.held v.parts v.closing t.text t.parent done =
      rw over at v.says_child in
    let (_, _, unheld, unqueued) = says.1 no_e in
    let unsent = at_end-ParentSays v.tail t.input t.parent ended v.says_parent in
    let whole : t.output ++ [] ≡ file = rw (unheld, unqueued, unsent) at v.whole in
    sym (append-nil t.output) ∙ whole

-- If a read of the file fails, the parent ends without a message for the end, and the child never
-- leaves its loop in the regular way.
pub failed-done :
    (file : Bytes) (t : State) → Run (begin file) t → t.parent ≡ Parent.failed → ¬ (t.child ≡ done)
failed-done file t run broken over =
    let v = Run-IsCopying file t run in
    let says : ChildSays file v.held v.parts v.closing t.text t.parent done =
      rw over at v.says_child in
    true-ne-false (sym says.0 ∙ ap is_flagged broken)
