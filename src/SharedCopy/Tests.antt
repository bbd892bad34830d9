-- ===== src/SharedCopy/Tests.antt =====
-- One byte is copied by sem_3/homework/src/shm_main.c.
use sem.Base.{◌+◌, ◌≤◌, ◌≡◌, true, [], ◌∷◌, refl, arith, ◌⊎◌}
use sem.Text.{Bytes}
use sem.SharedCopy.System.{
  leaves, left, awaits, done, failed, State, ParentMove, ChildMove, by_parent, by_child, begin, Run,
  here, next,
}
use sem.SharedCopy.Invariant.{parent_holds, child_holds}
use sem.SharedCopy.Safety.{mutual_exclusion, done-output, awaits-removed}

abbrev one_byte : Bytes
one_byte = 65 ∷ []

-- The byte is in the output, and the child is about to wait again.
abbrev byte_written : State
byte_written = record (begin one_byte) {
  input = [];
  output = 65 ∷ [];
  buffer = 65 ∷ [];
  buf_size = 1;
}

abbrev first_round : Run (begin one_byte) byte_written
first_round =
    next
      (next
        (next
          (next
            (next
              (next
                (next
                  (next
                    (next (next here (by_parent (ParentMove.lock 0 refl refl refl)))
                      (by_parent (ParentMove.read_some 65 [] [] refl refl (omega arith))))
                    (by_parent (ParentMove.set_size 1 refl)))
                  (by_parent (ParentMove.clear_eof refl)))
                (by_parent (ParentMove.signal refl refl)))
              (by_child (ChildMove.lock 0 refl refl refl)))
            (by_child (ChildMove.start refl refl)))
          (by_child (ChildMove.write_some 0 1 1 refl (omega arith) (omega arith))))
        (by_child (ChildMove.wrote_all 1 1 refl (omega arith))))
      (by_child (ChildMove.signal refl refl))

abbrev end_seen : State
end_seen = record byte_written {
  buf_size = 0;
  eof = true;
  empty_sem = 0;
  full_sem = 1;
  parent = leaves;
}

abbrev last_read : Run (begin one_byte) end_seen
last_read =
    next
      (next
        (next (next first_round (by_parent (ParentMove.lock 0 refl refl refl)))
          (by_parent (ParentMove.read_end refl refl)))
        (by_parent (ParentMove.set_eof refl)))
      (by_parent (ParentMove.signal_eof refl refl))

abbrev all_copied : State
all_copied = record end_seen { empty_sem = 1; full_sem = 0; child = done }

abbrev to_the_end : Run (begin one_byte) all_copied
to_the_end =
    next (next last_read (by_child (ChildMove.lock 0 refl refl refl)))
      (by_child (ChildMove.see_eof refl refl refl))

-- The parent is first.
abbrev sems_removed : State
sems_removed = record end_seen { removed = true; parent = left }

abbrev too_late : Run sems_removed (record sems_removed { child = failed })
too_late = next here (by_child (ChildMove.lock_fails refl))

mutual_exclusion_example : parent_holds leaves + child_holds done ≤ 1
mutual_exclusion_example = mutual_exclusion one_byte all_copied to_the_end

done-output_example : 65 ∷ [] ≡ one_byte
done-output_example = done-output one_byte all_copied to_the_end refl

awaits-removed_example : (one_byte ≡ one_byte) × ((failed ≡ awaits) ⊎ (failed ≡ failed))
awaits-removed_example =
    awaits-removed sems_removed (record sems_removed { child = failed }) refl refl too_late
