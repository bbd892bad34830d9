-- ===== src/Duplex/Copy.antt =====
-- What the parent of sem_2/homework/src/duplex_pipe.c copies: open() gives parent.txt and child.txt
-- the two numbers that the parent has just closed, and its own actions read and write the files.
use sem.Descriptors.{open_lowest}
use sem.Duplex.Descriptors.{
  terminal, source_file, copy_file, reader, writer, direct, back, Objects, World, read_at, write_at,
}
use sem.Duplex.Processes.{
  max_buf_size, Process, read_duplex, write_duplex, copy_round, parent_loop, close_parent_pipes,
  close_child_pipes, wait_child, run, close_all_pipes, run_parent, Making, create_duplex_pipe,
  destroy_duplex_pipe, run_main,
}
use sem.Duplex.Kept.{kept, take-kept_short, take-kept_full}
use sem.Base.{
  ℕ, ◌≡◌, true, false, some, [], ◌∷◌, ◌++◌, ◌==◌, length, take, drop, refl, sym, arith, ==_iff,
  ==_refl, take-append_length, ◌<◌, ◌∙◌, ◌≢◌, length-take, length-drop, zero, suc, ap, inl, inr,
  append-nil, append_assoc, Bool-cases, none, replicate,
}
use sem.Text.{Bytes}

-- The table behind the two calls of open.
abbrev opened : Objects
opened =
    some terminal
    ∷ some terminal
    ∷ some terminal
    ∷ some source_file
    ∷ some (writer direct)
    ∷ some (reader back)
    ∷ some copy_file
    ∷ []

abbrev standing : Bytes → ℕ → World → Process
standing b l w = record {
  table = opened;
  pipe = record { buffer = b; fd_direct = (3, 4); fd_back = (5, 6); len = l };
  world = w;
}

abbrev chunk : World → Bytes
chunk w = take max_buf_size w.source

abbrev second_chunk : World → Bytes
second_chunk w = take max_buf_size (drop max_buf_size w.source)

abbrev behind_read : World → World
behind_read w = record w { source = drop max_buf_size w.source }

abbrev after_send : World → World
after_send w = record (behind_read w) { copy = w.copy ++ chunk w }

abbrev after_receive : World → World
after_receive w = record (after_send w) { source = drop max_buf_size (drop max_buf_size w.source) }

abbrev after_write : World → World
after_write w = record (after_receive w) { copy = (w.copy ++ chunk w) ++ second_chunk w }

overlaid : (a b x : Bytes) → length b ≡ length a → take (length a) (b ++ x) ≡ b
overlaid a b x same = rw (sym same) (take-append_length b x)

-- The buffer behind a round.
abbrev buffer_behind : Bytes → World → Bytes
buffer_behind b w =
    second_chunk w ++ drop (length (second_chunk w)) (chunk w ++ drop (length (chunk w)) b)

-- Where the second chunk is as long as the first.
copy_round-full :
    (b : Bytes) (l : ℕ) (w : World)
    → (length (chunk w) == 0) ≡ false
    → (length (second_chunk w) == length (chunk w)) ≡ true
    → copy_round 3 6 (standing b l w)
      ≡ (true, standing (buffer_behind b w) (length (chunk w)) (after_write w))
unfolding copy_round read_at write_at read_duplex write_duplex
copy_round-full b l w some_read same = rw (
  some_read,
  overlaid (chunk w) (chunk w) (drop (length (chunk w)) b) refl,
  ==_refl (length (chunk w)),
  same,
  overlaid (chunk w) (second_chunk w)
      (drop (length (second_chunk w)) (chunk w ++ drop (length (chunk w)) b))
      (omega (arith, (==_iff _ _).0 same)),
)

copy_round-short :
    (b : Bytes) (l : ℕ) (w : World)
    → (length (chunk w) == 0) ≡ false
    → (length (second_chunk w) == length (chunk w)) ≡ false
    → copy_round 3 6 (standing b l w)
      ≡ (false, standing (buffer_behind b w) (length (chunk w)) (after_receive w))
unfolding copy_round read_at write_at read_duplex write_duplex
copy_round-short b l w some_read other = rw (
  some_read,
  overlaid (chunk w) (chunk w) (drop (length (chunk w)) b) refl,
  ==_refl (length (chunk w)),
  other,
)

copy_round-end :
    (b : Bytes) (l : ℕ) (w : World)
    → (length (chunk w) == 0) ≡ true
    → copy_round 3 6 (standing b l w) ≡ (false, standing b l (behind_read w))
unfolding copy_round read_at
copy_round-end b l w nothing = rw nothing

copied_so_far :
    {c d : Bytes} (b : Bytes) (l : ℕ) (w : World) (rest : Bytes)
    → c ≡ d
    → some (standing b l (record w { source = rest; copy = c }))
      ≡ some (standing b l (record w { source = rest; copy = d }))
copied_so_far b l w rest e = ap (λ c. some (standing b l (record w { source = rest; copy = c }))) e

unequal : {a b : ℕ} → (a == b) ≡ false → a ≢ b
unequal {a} {b} h e = ground arith

nothing_kept :
    (w : World)
    → (length (chunk w) == 0) ≡ true
    → w.copy ≡ w.copy ++ take (kept (length w.source)) w.source
nothing_kept w nothing =
    let none_read : length (chunk w) ≡ 0 = (==_iff _ _).0 nothing in
    let no_more : length w.source ≡ 0 = omega (arith, length-take max_buf_size w.source) in
    sym (append-nil w.copy) ∙ ap (λ r. w.copy ++ r) (sym (ap (λ k. take (kept k) w.source) no_more))

shorter :
    {fuel : ℕ} (w : World)
    → (length (chunk w) == 0) ≡ false
    → length w.source < suc fuel
    → length (drop max_buf_size (drop max_buf_size w.source)) < fuel
shorter w some_read h =
    let some_more : length (chunk w) ≢ 0 = unequal some_read in
    omega (
      arith,
      length-take max_buf_size w.source,
      length-drop max_buf_size (drop max_buf_size w.source),
      length-drop max_buf_size w.source,
    )

both_kept :
    (w : World)
    → (length (chunk w) == 0) ≡ false
    → (length (second_chunk w) == length (chunk w)) ≡ true
    → let rest = drop max_buf_size (drop max_buf_size w.source) in
      ((w.copy ++ chunk w) ++ second_chunk w) ++ take (kept (length rest)) rest
      ≡ w.copy ++ take (kept (length w.source)) w.source
both_kept w some_read same =
    append_assoc (w.copy ++ chunk w) (second_chunk w) _
    ∙ append_assoc w.copy (chunk w) _
    ∙ ap (λ r. w.copy ++ r)
        (sym (take-kept_full w.source (unequal some_read) ((==_iff _ _).0 same)))

parent_loop-ends :
    (fuel : ℕ) (p : Process) {q : Process}
    → copy_round 3 6 p ≡ (false, q)
    → parent_loop (suc fuel) 3 6 p ≡ some q
unfolding parent_loop
parent_loop-ends fuel p e = rw (parent_loop, e, e)

parent_loop-goes_on :
    (fuel : ℕ) (p : Process) {q : Process}
    → copy_round 3 6 p ≡ (true, q)
    → parent_loop (suc fuel) 3 6 p ≡ parent_loop fuel 3 6 q
unfolding parent_loop
parent_loop-goes_on fuel p e = rw (parent_loop, e, e)

-- The parent's loop copies so much of what is left of the file, and neither reads nor writes a
-- pipe.
parent_loop-copied :
    (fuel : ℕ) (b : Bytes) (l : ℕ) (w : World)
    → length w.source < fuel
    → (b2 : Bytes) × (l2 : ℕ) × (rest : Bytes) × parent_loop fuel 3 6 (standing b l w)
        ≡ some (
            standing b2 l2
              (record w { source = rest; copy = w.copy ++ take (kept (length w.source)) w.source }))
parent_loop-copied zero b l w h = absurd (omega arith)
parent_loop-copied (suc fuel) b l w h = elim (Bool-cases (length (chunk w) == 0)) [
  | inl nothing ↦ (
    b,
    l,
    drop max_buf_size w.source,
    parent_loop-ends fuel (standing b l w) (copy_round-end b l w nothing)
        ∙ copied_so_far b l w (drop max_buf_size w.source) (nothing_kept w nothing),
  )
  | inr some_read ↦ elim (Bool-cases (length (second_chunk w) == length (chunk w))) [
    | inl same ↦
        let (b2, l2, rest, e) =
          parent_loop-copied fuel (buffer_behind b w) (length (chunk w)) (after_write w)
            (shorter w some_read h) in
        (
          b2,
          l2,
          rest,
          parent_loop-goes_on fuel (standing b l w) (copy_round-full b l w some_read same)
              ∙ e
              ∙ copied_so_far b2 l2 w rest (both_kept w some_read same),
        )
    | inr other ↦ (
      buffer_behind b w,
      length (chunk w),
      drop max_buf_size (drop max_buf_size w.source),
      parent_loop-ends fuel (standing b l w) (copy_round-short b l w some_read other)
          ∙ copied_so_far (buffer_behind b w) (length (chunk w)) w
              (drop max_buf_size (drop max_buf_size w.source))
              (ap (λ r. w.copy ++ r) (sym (take-kept_short w.source (unequal other)))),
    )
  ]
]

abbrev pub all_made : Making
all_made = record { self = true; buffer = true; first_pipe = true; second_pipe = true; fork = true }

abbrev pub all_closed : Objects
all_closed = some terminal ∷ some terminal ∷ some terminal ∷ none ∷ none ∷ none ∷ none ∷ []

-- Where both pipes and both files are opened, main ends with so much of parent.txt in child.txt:
-- of every two chunks of 65536 bytes both, but nothing of a second chunk that is shorter. Not one
-- byte is read from a pipe or written to one, whatever the child does, and every descriptor that
-- the program opened is closed.
pub run_main-copied :
    (w : World)
    → (rest : Bytes) × run_main all_made true true w
        ≡ some
            (record w { source = rest; copy = take (kept (length w.source)) w.source }, all_closed)
unfolding open_lowest create_duplex_pipe close_parent_pipes close_child_pipes run_parent
    close_all_pipes destroy_duplex_pipe wait_child run run_main
run_main-copied w =
    let (b2, l2, rest, e) =
      parent_loop-copied (suc (length w.source)) (replicate max_buf_size 0) 0
        (record w { copy = [] }) (omega arith) in
    (rest, rw (run_main, create_duplex_pipe, run, run_parent, e))
