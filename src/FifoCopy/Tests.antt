-- ===== src/FifoCopy/Tests.antt =====
-- One byte is copied by sem_3/homework/src/fifo_main.c.
use sem.Base.{◌≡◌, [], ◌∷◌, refl, arith, ◌⊎◌, true}
use sem.Text.{Bytes}
use sem.FifoCopy.System.{
  Parent, closed, Child, done, State, ParentMove, ChildMove, by_parent, by_child, both_open, begin,
  Run, here, next,
}
use sem.FifoCopy.Safety.{fifo_done-output, opens-failed}

abbrev one_byte : Bytes
one_byte = 65 ∷ []

abbrev byte_sent : State
byte_sent = record (begin one_byte) {
  input = [];
  pipe = one_byte;
  parent = closed;
  child = Child.reads;
}

abbrev to_sent : Run (begin one_byte) byte_sent
to_sent =
    next
      (next
        (next
          (next (next (next here (by_child (ChildMove.open_output refl))) (both_open refl refl))
            (by_parent (ParentMove.read_some 65 [] [] refl refl (omega arith))))
          (by_parent (ParentMove.write_some 65 [] [] refl refl)))
        (by_parent (ParentMove.wrote_all refl)))
      (by_parent (ParentMove.read_end refl refl))

abbrev byte_copied : State
byte_copied = record byte_sent { pipe = []; output = one_byte; child = done true }

abbrev to_copied : Run (begin one_byte) byte_copied
to_copied =
    next
      (next
        (next (next to_sent (by_child (ChildMove.read_some 65 [] [] refl refl (omega arith))))
          (by_child (ChildMove.write_some 65 [] [] refl)))
        (by_child (ChildMove.wrote_all refl)))
      (by_child (ChildMove.read_end refl refl refl))

abbrev no_output : State
no_output = record (begin one_byte) { child = Child.failed }

abbrev no_reader : Run no_output (record no_output { parent = Parent.failed })
no_reader = next here (by_parent (ParentMove.open_fails refl))

fifo_done-output_example : one_byte ≡ one_byte
fifo_done-output_example = fifo_done-output one_byte byte_copied to_copied refl refl

opens-failed_example :
    (no_output.output ≡ no_output.output)
    × ((Parent.failed ≡ Parent.opens) ⊎ (Parent.failed ≡ Parent.failed))
opens-failed_example =
    opens-failed no_output (record no_output { parent = Parent.failed }) refl refl no_reader
