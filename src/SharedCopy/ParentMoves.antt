-- ===== src/SharedCopy/ParentMoves.antt =====
-- The parent of sem_3/homework/src/shm_main.c and what stands between the files.
use sem.Base.{
  ◌+◌, ◌≤◌, ◌<◌, ◌≡◌, true, false, ◌++◌, drop, refl, sym, ap, ◌∙◌, Bool, ◌∷◌, arith, length,
  take-append_length,
}
use sem.Text.{Bytes}
use sem.SharedCopy.System.{
  Parent, full, ended, ended_set, leaves, left, Child, awaits, checks, writing, emptied, done,
  failed, State, ParentMove,
}
use sem.SharedCopy.Invariant.{
  parent_holds, child_holds, ParentSays, Loaded, ChildSays, IsCopying, ParentSays-idle,
  ChildSays-idle,
}

true-ne-false : true ≡ false → ⊥
true-ne-false e = cc

-- A move of the parent that holds the token before or after it: the child does not.
held :
    (file : Bytes) (s t : State) (v : IsCopying file s)
    → child_holds s.child ≡ 0
    → t.output ≡ s.output
    → t.child ≡ s.child
    → t.empty_sem + t.full_sem + parent_holds t.parent ≤ 1
    → (0 < t.empty_sem → v.tail ≡ t.input)
    → (0 < t.full_sem → Loaded v.tail t)
    → ParentSays v.tail t t.parent
    → IsCopying file t
held file s t v idle unwritten same token unfilled occupied says = record {
  tail = v.tail;
  whole = rw unwritten v.whole;
  token = omega (arith, ap child_holds same);
  unfilled = unfilled;
  occupied = occupied;
  by_parent = says;
  by_child = rw same (ChildSays-idle v.tail s t s.child idle v.by_child);
}

-- A move of the parent from a place that holds the token to another.
keeping :
    (file : Bytes) (s t : State) (v : IsCopying file s)
    → parent_holds s.parent ≡ 1
    → t.output ≡ s.output
    → t.child ≡ s.child
    → t.empty_sem ≡ s.empty_sem
    → t.full_sem ≡ s.full_sem
    → parent_holds t.parent ≡ 1
    → ParentSays v.tail t t.parent
    → IsCopying file t
keeping file s t v was unwritten same same_empty same_full now says =
    held file s t v (omega (arith, v.token)) unwritten same (omega (arith, v.token))
      (λ k. absurd (omega (arith, v.token))) (λ k. absurd (omega (arith, v.token))) says

ChildSays-same :
    (tail : Bytes) (s : State) (p : Parent) (r : Bool) (c : Child)
    → ChildSays tail s c
    → ChildSays tail (record s { parent = p; removed = r }) c
ChildSays-same tail s p r checks h = h
ChildSays-same tail s p r (writing w n) h = h
ChildSays-same tail s p r emptied h = h
ChildSays-same tail s p r awaits h = h
ChildSays-same tail s p r done h = h
ChildSays-same tail s p r failed h = h

-- A move of the parent that never held the token, to where it never does.
passed :
    (file : Bytes) (s : State) (p : Parent) (r : Bool) (v : IsCopying file s)
    → parent_holds p ≡ 0
    → IsCopying file (record s { parent = p; removed = r })
passed file s p r v idle = record {
  tail = v.tail;
  whole = v.whole;
  token = omega (arith, v.token);
  unfilled = v.unfilled;
  occupied = v.occupied;
  by_parent = ParentSays-idle v.tail (record s { parent = p; removed = r }) p idle;
  by_child = ChildSays-same v.tail s p r s.child v.by_child;
}

pub ParentMove-IsCopying :
    (file : Bytes) (s t : State) → ParentMove s t → IsCopying file s → IsCopying file t
ParentMove-IsCopying file s t (ParentMove.lock n p r e) v =
    held file s t v (omega (arith, v.token)) refl refl (omega (arith, v.token, ap parent_holds p))
      (λ h. absurd (omega (arith, v.token))) (λ h. absurd (omega (arith, v.token)))
      (v.unfilled (omega arith))
ParentMove-IsCopying file s t (ParentMove.lock_fails p) v = passed file s leaves s.removed v refl
ParentMove-IsCopying file s t (ParentMove.read_some c got rest p e short) v =
    keeping file s t v (ap parent_holds p) refl refl refl refl refl (
      (rw p at v.by_parent)
      ∙ e
      ∙ ap (λ b. b ++ rest) (sym (take-append_length (c ∷ got) (drop (length (c ∷ got)) s.buffer))))
ParentMove-IsCopying file s t (ParentMove.read_end p e) v =
    keeping file s t v (ap parent_holds p) refl refl refl refl refl (rw p at v.by_parent, e)
ParentMove-IsCopying file s t (ParentMove.read_fails p) v =
    keeping file s t v (ap parent_holds p) refl refl refl refl refl (rw p at v.by_parent)
ParentMove-IsCopying file s t (ParentMove.set_size n p) v =
    keeping file s t v (ap parent_holds p) refl refl refl refl refl (rw p at v.by_parent)
ParentMove-IsCopying file s t (ParentMove.clear_eof p) v =
    keeping file s t v (ap parent_holds p) refl refl refl refl refl (rw p at v.by_parent, refl)
ParentMove-IsCopying file s t (ParentMove.signal p r) v =
    let h = ap parent_holds p in
    let says : ParentSays v.tail s full = rw p at v.by_parent in
    held file s t v (omega (arith, v.token)) refl refl (omega (arith, v.token))
      (λ k. absurd (omega (arith, v.token)))
      (λ k. (λ e. says.0, λ e. absurd (true-ne-false (sym e ∙ says.1)))) tt
ParentMove-IsCopying file s t (ParentMove.signal_fails p) v = passed file s leaves s.removed v refl
ParentMove-IsCopying file s t (ParentMove.set_eof p) v =
    let says : ParentSays v.tail s ended = rw p at v.by_parent in
    keeping file s t v (ap parent_holds p) refl refl refl refl refl (says.0 ∙ says.1, says.1, refl)
ParentMove-IsCopying file s t (ParentMove.signal_eof p r) v =
    let h = ap parent_holds p in
    let says : ParentSays v.tail s ended_set = rw p at v.by_parent in
    held file s t v (omega (arith, v.token)) refl refl (omega (arith, v.token))
      (λ k. absurd (omega (arith, v.token)))
      (λ k. (λ e. absurd (true-ne-false (sym says.2 ∙ e)), λ e. (says.0, says.1))) tt
ParentMove-IsCopying file s t (ParentMove.signal_eof_fails p) v =
    passed file s leaves s.removed v refl
ParentMove-IsCopying file s t (ParentMove.give_up p r) v =
    let h = ap parent_holds p in
    held file s t v (omega (arith, v.token)) refl refl (omega (arith, v.token))
      (λ k. rw p at v.by_parent) (λ k. absurd (omega (arith, v.token))) tt
ParentMove-IsCopying file s t (ParentMove.give_up_fails p) v = passed file s leaves s.removed v refl
ParentMove-IsCopying file s t (ParentMove.remove p) v = passed file s left true v refl
