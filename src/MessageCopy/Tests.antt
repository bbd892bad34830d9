-- ===== src/MessageCopy/Tests.antt =====
-- One byte is copied by sem_3/homework/src/mq_main.c, and a file that begins with EOF is not.
use sem.Base.{◌≡◌, [], ◌∷◌, refl, arith, true}
use sem.Text.{Bytes, codes, starts_with}
use sem.MessageCopy.System.{
  waits, receives, done, State, eof_msg, ParentMove, ChildMove, by_parent, by_child, begin, Run,
  here, next,
}
use sem.MessageCopy.Safety.{mq_done-output}
use sem.MessageCopy.Early.{is_eof-output}

abbrev one_byte : Bytes
one_byte = 65 ∷ []

abbrev byte_sent : State
byte_sent = record (begin one_byte) {
  input = [];
  queue = one_byte ∷ eof_msg ∷ [];
  eof_flag = true;
  parent = waits true;
  child = receives;
}

abbrev to_sent : Run (begin one_byte) byte_sent
to_sent =
    next
      (next
        (next
          (next
            (next (next here (by_child (ChildMove.open_output refl)))
              (by_parent (ParentMove.read_some 65 [] [] refl refl (omega arith))))
            (by_parent (ParentMove.send (65 ∷ []) refl)))
          (by_parent (ParentMove.read_end refl refl)))
        (by_parent (ParentMove.set_flag true refl)))
      (by_parent (ParentMove.send_eof true refl))

abbrev byte_copied : State
byte_copied = record byte_sent { queue = []; output = one_byte; text = eof_msg; child = done }

to_copied : Run (begin one_byte) byte_copied
unfolding starts_with
to_copied =
    next
      (next
        (next
          (next
            (next (next to_sent (by_child (ChildMove.receive one_byte (eof_msg ∷ []) refl refl)))
              (by_child (ChildMove.start 1 refl refl)))
            (by_child (ChildMove.write_some 65 [] [] refl)))
          (by_child (ChildMove.wrote_all refl)))
        (by_child (ChildMove.receive eof_msg [] refl refl)))
      (by_child (ChildMove.see_eof 3 refl refl refl))

mq_done-output_example : one_byte ≡ one_byte
mq_done-output_example = mq_done-output one_byte byte_copied to_copied (refl, tt) refl refl

-- The file is EOFA, and the parent is first.
abbrev looks_ended : State
looks_ended = record byte_sent { queue = codes "EOFA" ∷ eof_msg ∷ [] }

abbrev given_up : State
given_up = record looks_ended { queue = eof_msg ∷ []; text = codes "EOFA"; child = done }

to_given_up : Run looks_ended given_up
unfolding starts_with
to_given_up =
    next (next here (by_child (ChildMove.receive (codes "EOFA") (eof_msg ∷ []) refl refl)))
      (by_child (ChildMove.see_eof 4 refl refl refl))

is_eof-output_example : given_up.output ≡ looks_ended.output
unfolding starts_with
is_eof-output_example =
    is_eof-output (codes "EOFA") (eof_msg ∷ []) looks_ended given_up refl refl refl refl to_given_up
