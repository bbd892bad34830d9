-- ===== src/MessageCopy/Moves.antt =====
-- The moves of parent and child of sem_3/homework/src/mq_main.c and what stands between the files.
use sem.Base.{
  ℕ, suc, ◌≡◌, refl, sym, ap, ◌∙◌, Bool, true, false, List, [], ◌∷◌, ◌++◌, append_assoc, take, All,
  ◌⊎◌, inl, inr, drop, length, subst, Bool-cases, All-append, append-nil, take-append_length, arith,
}
use sem.Text.{Bytes, starts_with}
use sem.MessageCopy.System.{
  Parent, reads, sends, leaves, flagged, waits, finished, Child, receives, checks, writing, done,
  State, eof_msg, is_eof, overwrite, ParentMove, ChildMove, Step, by_parent, by_child,
}
use sem.MessageCopy.Invariant.{
  is_flagged, is_over, ParentSays, HasNoE, ChildSays, concat, last_message, IsCopying,
  true-ne-false, ChildSays-moved,
}

-- A move of the parent that sends nothing.
moved :
    (file input' : Bytes) (s : State) (f : Bool) (p : Parent) (v : IsCopying file s)
    → (is_flagged s.parent ≡ true → is_flagged p ≡ true)
    → (is_over s.parent ≡ true → is_over p ≡ true)
    → f ≡ is_flagged p
    → ParentSays v.tail input' p
    → IsCopying file (record s { input = input'; eof_flag = f; parent = p })
moved file input' s f p v keeps over flag says = record {
  held = v.held;
  tail = v.tail;
  parts = v.parts;
  closing = v.closing;
  whole = v.whole;
  full = v.full;
  queued = v.queued;
  closed = λ e. over (v.closed e);
  flag = flag;
  says_parent = says;
  says_child =
      ChildSays-moved file v.held v.parts v.parts v.closing v.closing s.text s.parent p s.child
        keeps (λ e. (over e, refl, refl)) v.says_child;
}

not_yet : (f : Parent → Bool) (p q : Parent) → p ≡ q → f q ≡ false → {C : Type 0} → f p ≡ true → C
not_yet f p q e unset set = absurd (true-ne-false (sym set ∙ ap f e ∙ unset))

concat-append : (xs : List Bytes) (m : Bytes) → concat (xs ++ m ∷ []) ≡ concat xs ++ m
concat-append [] m = append-nil m
concat-append (x ∷ xs) m = rw (concat-append xs m) (sym (append_assoc x (concat xs) m))

-- While the parent still sends, no last message is in the queue.
open_queue :
    (file : Bytes) (s : State) (q : Parent) (v : IsCopying file s)
    → s.parent ≡ q
    → is_over q ≡ false
    → (v.closing ≡ false) × (s.queue ≡ v.parts)
open_queue file s q v p unset = elim (Bool-cases v.closing) [
  | inl set ↦ not_yet is_over s.parent q p unset (v.closed set)
  | inr not ↦ (not, v.queued ∙ ap (λ b. v.parts ++ last_message b) not ∙ append-nil v.parts)
]

ParentMove-IsCopying :
    (file : Bytes) (s t : State) → ParentMove s t → IsCopying file s → IsCopying file t
ParentMove-IsCopying file s t (ParentMove.read_some c got rest p e short) v =
    moved file rest s s.eof_flag (sends (c ∷ got)) v (not_yet is_flagged s.parent reads p refl)
      (not_yet is_over s.parent reads p refl) (v.flag ∙ ap is_flagged p)
      ((rw p at v.says_parent) ∙ e, (c, got, refl))
ParentMove-IsCopying file s t (ParentMove.read_end p e) v =
    moved file s.input s s.eof_flag (leaves true) v (not_yet is_flagged s.parent reads p refl)
      (not_yet is_over s.parent reads p refl) (v.flag ∙ ap is_flagged p)
      ((rw p at v.says_parent) ∙ e)
ParentMove-IsCopying file s t (ParentMove.read_fails p) v =
    moved file s.input s s.eof_flag Parent.failed v (not_yet is_flagged s.parent reads p refl)
      (not_yet is_over s.parent reads p refl) (v.flag ∙ ap is_flagged p) tt
ParentMove-IsCopying file s t (ParentMove.send m p) v =
    let says : ParentSays v.tail s.input (sends m) = rw p at v.says_parent in
    let (unset, same) = open_queue file s (sends m) v p refl in
    record {
      held = v.held;
      tail = s.input;
      parts = v.parts ++ m ∷ [];
      closing = false;
      whole =
          rw (concat-append v.parts m, append_assoc (concat v.parts) m s.input)
            (rw says.0 at v.whole);
      full = All-append _ v.parts (m ∷ []) v.full (says.1, tt);
      queued = ap (λ q. q ++ m ∷ []) same ∙ sym (append-nil (v.parts ++ m ∷ []));
      closed = λ e. absurd (true-ne-false (sym e));
      flag = v.flag ∙ ap is_flagged p;
      says_parent = refl;
      says_child =
          ChildSays-moved file v.held v.parts (v.parts ++ m ∷ []) v.closing false s.text s.parent
            reads s.child (not_yet is_flagged s.parent (sends m) p refl)
            (not_yet is_over s.parent (sends m) p refl) v.says_child;
    }
ParentMove-IsCopying file s t (ParentMove.send_fails m p) v =
    moved file s.input s s.eof_flag (leaves false) v (not_yet is_flagged s.parent (sends m) p refl)
      (not_yet is_over s.parent (sends m) p refl) (v.flag ∙ ap is_flagged p) tt
ParentMove-IsCopying file s t (ParentMove.set_flag b p) v =
    moved file s.input s true (flagged b) v (λ e. refl) (not_yet is_over s.parent (leaves b) p refl)
      refl (rw p at v.says_parent)
ParentMove-IsCopying file s t (ParentMove.send_eof b p) v =
    let (unset, same) = open_queue file s (flagged b) v p refl in
    record {
      held = v.held;
      tail = v.tail;
      parts = v.parts;
      closing = true;
      whole = v.whole;
      full = v.full;
      queued = ap (λ q. q ++ eof_msg ∷ []) same;
      closed = λ e. refl;
      flag = v.flag ∙ ap is_flagged p;
      says_parent = rw p at v.says_parent;
      says_child =
          ChildSays-moved file v.held v.parts v.parts v.closing true s.text s.parent (waits b)
            s.child (λ e. refl) (not_yet is_over s.parent (flagged b) p refl) v.says_child;
    }
ParentMove-IsCopying file s t (ParentMove.send_eof_fails b p) v =
    moved file s.input s s.eof_flag (waits b) v (λ e. refl) (λ e. refl) (v.flag ∙ ap is_flagged p)
      (rw p at v.says_parent)
ParentMove-IsCopying file s t (ParentMove.waited b p ended) v =
    moved file s.input s s.eof_flag (finished b) v (λ e. refl) (λ e. refl)
      (v.flag ∙ ap is_flagged p) (rw p at v.says_parent)

-- A move of the child that takes and writes nothing.
turned :
    (file : Bytes) (s : State) (c : Child) (v : IsCopying file s)
    → ChildSays file v.held v.parts v.closing s.text s.parent c
    → IsCopying file (record s { child = c })
turned file s c v says = record {
  held = v.held;
  tail = v.tail;
  parts = v.parts;
  closing = v.closing;
  whole = v.whole;
  full = v.full;
  queued = v.queued;
  closed = v.closed;
  flag = v.flag;
  says_parent = v.says_parent;
  says_child = says;
}

is_eof-first : (text : Bytes) → is_eof text ≡ true → (rest : Bytes) × text ≡ b'E' ∷ rest
unfolding starts_with
is_eof-first [] e = absurd (true-ne-false (sym e))
is_eof-first (c ∷ text) e = (text, ap (λ b. b ∷ text) (ground arith))

is_eof_msg : (text : Bytes) → is_eof (overwrite eof_msg text) ≡ true
unfolding starts_with
is_eof_msg text = refl

is_over-flagged : (p : Parent) → is_over p ≡ true → is_flagged p ≡ true
is_over-flagged (waits b) e = refl
is_over-flagged (finished b) e = refl
is_over-flagged reads e = e
is_over-flagged (sends m) e = e
is_over-flagged (leaves b) e = e
is_over-flagged (flagged b) e = refl
is_over-flagged Parent.failed e = e

HasNoE-apart : (front rest : Bytes) → HasNoE (front ++ b'E' ∷ rest) → ⊥
HasNoE-apart [] rest h = true-ne-false h.0
HasNoE-apart (c ∷ front) rest h = HasNoE-apart front rest h.1

-- A part of the file that looks like the last message begins with an E.
not_eof :
    (file : Bytes) (s : State) (n k : ℕ) (v : IsCopying file s)
    → v.held ≡ take n s.text
    → n ≡ suc k
    → is_eof s.text ≡ true
    → HasNoE file
    → ⊥
not_eof file s n k v held more eof no_e =
    let (rest, is_e) = is_eof-first s.text eof in
    let there : v.held ≡ b'E' ∷ take k rest = held ∙ rw (more, is_e) refl in
    let whole = rw there at v.whole in
    HasNoE-apart s.output (take k rest ++ (concat v.parts ++ v.tail))
      (subst HasNoE (sym whole) no_e)

-- What the child takes from the queue.
taken :
    (parts : List Bytes) (closing : Bool) (m : Bytes) (rest : List Bytes)
    → m ∷ rest ≡ parts ++ last_message closing
    → ((later : List Bytes) × (parts ≡ m ∷ later) × (rest ≡ later ++ last_message closing))
      ⊎ ((parts ≡ []) × (closing ≡ true) × (m ≡ eof_msg) × (rest ≡ []))
taken [] false m rest e = absurd cc
taken [] true m rest e = inr (refl, refl, cc, cc)
taken (d ∷ parts) closing m rest e = inl (parts, cc, cc)

ChildMove-IsCopying :
    (file : Bytes) (s t : State) → ChildMove s t → IsCopying file s → IsCopying file t
ChildMove-IsCopying file s t (ChildMove.open_output p) v =
    turned file s receives v (rw p at v.says_child)
ChildMove-IsCopying file s t (ChildMove.open_output_fails p) v = turned file s Child.failed v tt
ChildMove-IsCopying file s t (ChildMove.receive m rest p e) v =
    let empty : v.held ≡ [] = rw p at v.says_child in
    elim (taken v.parts v.closing m rest (sym e ∙ v.queued)) [
      | inl (later, first, others) ↦
          let full = subst (All (λ m. (c : ℕ) × (b : Bytes) × m ≡ c ∷ b)) first v.full in
          let (c, b, more) = full.0 in
          record {
            held = m;
            tail = v.tail;
            parts = later;
            closing = v.closing;
            whole = rw (empty, first, append_assoc m (concat later) v.tail) at v.whole;
            full = full.1;
            queued = others;
            closed = v.closed;
            flag = v.flag;
            says_parent = v.says_parent;
            says_child =
                inl
                  (sym (take-append_length m (drop (length m) s.text)), (length b, ap length more));
          }
      | inr (gone, last, is_last, none_left) ↦ record {
        held = v.held;
        tail = v.tail;
        parts = [];
        closing = false;
        whole = rw gone at v.whole;
        full = tt;
        queued = none_left;
        closed = λ f. absurd (true-ne-false (sym f));
        flag = v.flag;
        says_parent = v.says_parent;
        says_child = inr ((v.closed last, refl, empty, refl), rw is_last (is_eof_msg s.text));
      }
    ]
ChildMove-IsCopying file s t (ChildMove.receive_fails p) v = turned file s Child.failed v tt
ChildMove-IsCopying file s t (ChildMove.see_eof n p e eof) v =
    let says : ChildSays file v.held v.parts v.closing s.text s.parent (checks n) =
      rw p at v.says_child in
    turned file s done v (
      sym v.flag ∙ e,
      λ no_e. elim says [
        | inl (held, (k, more)) ↦ absurd (not_eof file s n k v held more eof no_e)
        | inr (o, _) ↦ o
      ],
    )
ChildMove-IsCopying file s t (ChildMove.start n p e) v =
    let says : ChildSays file v.held v.parts v.closing s.text s.parent (checks n) =
      rw p at v.says_child in
    turned file s (writing (take n s.text)) v (elim says [
      | inl (held, _) ↦ held
      | inr (o, eof) ↦ absurd (true-ne-false (rw (v.flag, is_over-flagged s.parent o.0, eof) at e))
    ])
ChildMove-IsCopying file s t (ChildMove.write_some c put rest p) v =
    let says : v.held ≡ (c ∷ put) ++ rest = rw p at v.says_child in
    record {
      held = rest;
      tail = v.tail;
      parts = v.parts;
      closing = v.closing;
      whole =
          rw (append_assoc s.output (c ∷ put) (rest ++ (concat v.parts ++ v.tail)))
            (rw (says, append_assoc put rest (concat v.parts ++ v.tail)) at v.whole);
      full = v.full;
      queued = v.queued;
      closed = v.closed;
      flag = v.flag;
      says_parent = v.says_parent;
      says_child = refl;
    }
ChildMove-IsCopying file s t (ChildMove.write_fails c rest p) v = turned file s Child.failed v tt
ChildMove-IsCopying file s t (ChildMove.wrote_all p) v =
    turned file s receives v (rw p at v.says_child)

pub Step-IsCopying : (file : Bytes) (s t : State) → Step s t → IsCopying file s → IsCopying file t
Step-IsCopying file s t (by_parent m) v = ParentMove-IsCopying file s t m v
Step-IsCopying file s t (by_child m) v = ChildMove-IsCopying file s t m v
