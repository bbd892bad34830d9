-- ===== src/SharedCopy/ChildMoves.antt =====
-- The child of sem_3/homework/src/shm_main.c and what stands between the files.
use sem.Base.{
  ℕ, ◌+◌, ◌-◌, ◌≤◌, ◌<◌, ◌≡◌, ◌++◌, take, drop, refl, sym, ap, ◌∙◌, arith, append_assoc, take-add,
  drop-drop,
}
use sem.Text.{Bytes}
use sem.SharedCopy.System.{
  Parent, waits, reads, filled, sized, full, ended, ended_set, broken, leaves, left, Child, writing,
  failed, State, ChildMove,
}
use sem.SharedCopy.Invariant.{
  parent_holds, child_holds, ParentSays, Loaded, ChildSays, IsCopying, ParentSays-idle,
}

ParentSays-same :
    (tail : Bytes) (s : State) (c : Child) (p : Parent)
    → ParentSays tail s p
    → ParentSays tail (record s { child = c }) p
ParentSays-same tail s c waits h = h
ParentSays-same tail s c leaves h = h
ParentSays-same tail s c left h = h
ParentSays-same tail s c reads h = h
ParentSays-same tail s c (filled n) h = h
ParentSays-same tail s c sized h = h
ParentSays-same tail s c full h = h
ParentSays-same tail s c ended h = h
ParentSays-same tail s c ended_set h = h
ParentSays-same tail s c broken h = h

-- A move of the child that holds the token before or after it: the parent does not.
answered :
    (file : Bytes) (s t : State) (tail : Bytes)
    → parent_holds s.parent ≡ 0
    → t.parent ≡ s.parent
    → t.output ++ tail ≡ file
    → t.empty_sem + t.full_sem + child_holds t.child ≤ 1
    → (0 < t.empty_sem → tail ≡ t.input)
    → t.full_sem ≡ 0
    → ChildSays tail t t.child
    → IsCopying file t
answered file s t tail idle same whole token unfilled none_full says = record {
  tail = tail;
  whole = whole;
  token = omega (arith, ap parent_holds same);
  unfilled = unfilled;
  occupied = λ h. absurd (omega arith);
  by_parent = rw same (ParentSays-idle tail t s.parent idle);
  by_child = says;
}

-- What is left to write, parted at the bytes that a write takes.
split_rest :
    (w n t : ℕ) (buffer input : Bytes)
    → w + n ≤ t
    → take (t - w) (drop w buffer) ++ input
      ≡ take n (drop w buffer) ++ (take (t - (w + n)) (drop (w + n) buffer) ++ input)
split_rest w n t buffer input h =
    let size : t - w ≡ n + (t - (w + n)) = omega arith in
    rw (size, take-add n (t - (w + n)) (drop w buffer), drop-drop w n buffer)
      (append_assoc (take n (drop w buffer)) _ input)

pub ChildMove-IsCopying :
    (file : Bytes) (s t : State) → ChildMove s t → IsCopying file s → IsCopying file t
ChildMove-IsCopying file s t (ChildMove.lock n p r e) v =
    answered file s t v.tail (omega (arith, v.token)) refl v.whole (omega (arith, v.token))
      (λ k. absurd (omega (arith, v.token))) (omega (arith, v.token)) (v.occupied (omega arith))
ChildMove-IsCopying file s t (ChildMove.lock_fails p) v = record {
  tail = v.tail;
  whole = v.whole;
  token = omega (arith, v.token);
  unfilled = v.unfilled;
  occupied = v.occupied;
  by_parent = ParentSays-same v.tail s failed s.parent v.by_parent;
  by_child = tt;
}
ChildMove-IsCopying file s t (ChildMove.see_eof p e r) v =
    let says : Loaded v.tail s = rw p at v.by_child in
    let h = ap child_holds p in
    let (over, empty) = says.1 e in
    answered file s t v.tail (omega (arith, v.token)) refl v.whole (omega (arith, v.token))
      (λ k. over ∙ sym empty) (omega (arith, v.token)) over
ChildMove-IsCopying file s t (ChildMove.see_eof_unsignalled p e) v =
    let says : Loaded v.tail s = rw p at v.by_child in
    let h = ap child_holds p in
    answered file s t v.tail (omega (arith, v.token)) refl v.whole (omega (arith, v.token))
      v.unfilled (omega (arith, v.token)) (says.1 e).0
ChildMove-IsCopying file s t (ChildMove.start p e) v =
    let says : Loaded v.tail s = rw p at v.by_child in
    let h = ap child_holds p in
    let size : s.buf_size - 0 ≡ s.buf_size = omega arith in
    answered file s t v.tail (omega (arith, v.token)) refl v.whole (omega (arith, v.token))
      v.unfilled (omega (arith, v.token)) (rw size (says.0 e), omega arith)
ChildMove-IsCopying file s t (ChildMove.write_some w m n p pos fits) v =
    let says : ChildSays v.tail s (writing w m) = rw p at v.by_child in
    let h = ap child_holds p in
    let rest = take (m - (w + n)) (drop (w + n) s.buffer) ++ s.input in
    answered file s t rest (omega (arith, v.token)) refl
      (append_assoc s.output (take n (drop w s.buffer)) rest
        ∙ ap (λ b. s.output ++ b) (sym (says.0 ∙ split_rest w n m s.buffer s.input fits))
        ∙ v.whole)
      (omega (arith, v.token)) (λ k. absurd (omega (arith, v.token))) (omega (arith, v.token))
      (refl, fits)
ChildMove-IsCopying file s t (ChildMove.write_fails w m p more) v =
    let h = ap child_holds p in
    answered file s t v.tail (omega (arith, v.token)) refl v.whole (omega (arith, v.token))
      v.unfilled (omega (arith, v.token)) tt
ChildMove-IsCopying file s t (ChildMove.wrote_all w m p all) v =
    let says : ChildSays v.tail s (writing w m) = rw p at v.by_child in
    let h = ap child_holds p in
    let nothing : m - w ≡ 0 = omega arith in
    let written : v.tail ≡ s.input = says.0 ∙ rw nothing in
    answered file s t v.tail (omega (arith, v.token)) refl v.whole (omega (arith, v.token))
      v.unfilled (omega (arith, v.token)) written
ChildMove-IsCopying file s t (ChildMove.signal p r) v =
    let says : v.tail ≡ s.input = rw p at v.by_child in
    let h = ap child_holds p in
    answered file s t v.tail (omega (arith, v.token)) refl v.whole (omega (arith, v.token))
      (λ k. says) (omega (arith, v.token)) tt
ChildMove-IsCopying file s t (ChildMove.signal_fails p) v =
    let h = ap child_holds p in
    answered file s t v.tail (omega (arith, v.token)) refl v.whole (omega (arith, v.token))
      v.unfilled (omega (arith, v.token)) tt
