-- ===== src/Duplex/Echo.antt =====
-- What the child of sem_2/homework/src/duplex_pipe.c sends back.
use sem.Duplex.Descriptors.{
  terminal, reader, writer, Pipe, direct, back, Objects, World, read_at, write_at, next_incoming,
}
use sem.Duplex.Processes.{
  max_buf_size, Process, read_duplex, write_duplex, child_loop, close_child_pipes, close_all_pipes,
  run_child,
}
use sem.Duplex.Copy.{all_closed}
use sem.Base.{
  ℕ, suc, ◌≤◌, ◌<◌, ◌≡◌, Option, none, some, List, [], ◌∷◌, ◌++◌, length, drop, zero, refl, sym, ap,
  ◌∙◌, false, map, append-nil, append_assoc, arith, ◌==◌, take-append_length, take_all, All,
  replicate, length-map,
}
use sem.Text.{Bytes}

-- The table of the child.
abbrev remaining : Objects
remaining =
    some terminal
    ∷ some terminal
    ∷ some terminal
    ∷ some (reader direct)
    ∷ none
    ∷ none
    ∷ some (writer back)
    ∷ []

abbrev listening : Bytes → ℕ → World → Process
listening b l w = record {
  table = remaining;
  pipe = record { buffer = b; fd_direct = (3, 4); fd_back = (5, 6); len = l };
  world = w;
}

-- A chunk that one read can give.
abbrev pub IsChunk : Bytes → Type 0
IsChunk c = (0 < length c) × (length c ≤ max_buf_size)

abbrev pub echo : Bytes → Pipe × Bytes
echo c = (back, c)

read_duplex-chunk :
    (b : Bytes) (l : ℕ) (w : World) (c : Bytes) (rest : List (Option Bytes))
    → length c ≤ max_buf_size
    → read_duplex (listening b l (record w { incoming = some c ∷ rest }))
      ≡ (some (length c), listening (c ++ drop (length c) b) l (record w { incoming = rest }))
unfolding read_duplex read_at next_incoming
read_duplex-chunk b l w c rest short = rw (take_all c max_buf_size short)

write_duplex-chunk :
    (c x : Bytes) (w : World)
    → w.accepts (length c) ≡ some (length c)
    → write_duplex (listening (c ++ x) (length c) w)
      ≡ (some (length c), listening (c ++ x) (length c) (record w { sent = w.sent ++ echo c ∷ [] }))
unfolding write_duplex write_at
write_duplex-chunk c x w takes =
    rw (take-append_length c x, takes, take-append_length c x, take_all c (length c) (omega arith))

child_loop-end :
    (fuel : ℕ) (b : Bytes) (l : ℕ) (w : World)
    → child_loop (suc fuel) (listening b l (record w { incoming = [] }))
      ≡ some (listening b l (record w { incoming = [] }))
unfolding child_loop read_duplex read_at next_incoming
child_loop-end fuel b l w = refl

child_loop-goes_on :
    (fuel n : ℕ) (p q : Process)
    → read_duplex p ≡ (some n, q)
    → (n == 0) ≡ false
    → child_loop (suc fuel) p
      ≡ child_loop fuel (write_duplex (record q { pipe = record q.pipe { len = n } })).1
unfolding child_loop
child_loop-goes_on fuel n p q read more = rw (child_loop, read, read, more)

child_loop-echo :
    (chunks : List Bytes) (fuel : ℕ) (b : Bytes) (l : ℕ) (w : World)
    → ((n : ℕ) → w.accepts n ≡ some n)
    → All IsChunk chunks
    → length chunks < fuel
    → (b2 : Bytes) × (l2 : ℕ) × child_loop fuel
          (listening b l (record w { incoming = map some chunks }))
        ≡ some (listening b2 l2 (record w { incoming = []; sent = w.sent ++ map echo chunks }))
child_loop-echo chunks zero b l w takes good h = absurd (omega arith)
child_loop-echo [] (suc fuel) b l w takes good h = (
  b,
  l,
  child_loop-end fuel b l w
      ∙ ap (λ z. some (listening b l (record w { incoming = []; sent = z })))
          (sym (append-nil w.sent)),
)
child_loop-echo (c ∷ chunks) (suc fuel) b l w takes good h =
    let (b2, l2, e) =
      child_loop-echo chunks fuel (c ++ drop (length c) b) (length c)
        (record w { sent = w.sent ++ echo c ∷ [] }) takes good.1 (omega arith) in
    (
      b2,
      l2,
      child_loop-goes_on fuel (length c)
            (listening b l (record w { incoming = some c ∷ map some chunks }))
            (listening (c ++ drop (length c) b) l (record w { incoming = map some chunks }))
            (read_duplex-chunk b l w c (map some chunks) good.0.1) (ground (arith, good.0.0))
          ∙ ap (λ r. child_loop fuel r.1)
              (write_duplex-chunk c (drop (length c) b) (record w { incoming = map some chunks })
                (takes (length c)))
          ∙ e
          ∙ ap (λ z. some (listening b2 l2 (record w { incoming = []; sent = z })))
              (append_assoc w.sent (echo c ∷ []) (map echo chunks)),
    )

-- What CreateDuplexPipe makes.
abbrev pub both_pipes : World → Process
both_pipes w = record {
  table =
      some terminal
      ∷ some terminal
      ∷ some terminal
      ∷ some (reader direct)
      ∷ some (writer direct)
      ∷ some (reader back)
      ∷ some (writer back)
      ∷ [];
  pipe = record {
    buffer = replicate max_buf_size 0;
    fd_direct = (3, 4);
    fd_back = (5, 6);
    len = 0;
  };
  world = w;
}

-- The child comes to its end when the other side has sent its chunks and closed the pipe, sends
-- every chunk back whole and in order through the other pipe, provided that a write takes all it
-- is given, and closes its descriptors.
pub run_child-echo :
    (chunks : List Bytes) (w : World)
    → ((n : ℕ) → w.accepts n ≡ some n)
    → All IsChunk chunks
    → (q : Process) × (run_child (both_pipes (record w { incoming = map some chunks })) ≡ some q)
      × (q.world.sent ≡ w.sent ++ map echo chunks)
      × (q.table ≡ all_closed)
unfolding run_child close_child_pipes close_all_pipes
run_child-echo chunks w takes good =
    let (b2, l2, e) =
      child_loop-echo chunks (suc (length (map some chunks))) (replicate max_buf_size 0) 0 w takes
        good (omega (arith, length-map chunks some)) in
    (
      close_all_pipes
          (listening b2 l2 (record w { incoming = []; sent = w.sent ++ map echo chunks })),
      rw (run_child, e),
      refl,
      refl,
    )
