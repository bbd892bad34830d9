-- ===== src/Duplex/Processes.antt =====
-- sem_2/homework/src/duplex_pipe.c and main.c.
use sem.Descriptors.{open_lowest, close_at}
use sem.Duplex.Descriptors.{
  terminal, source_file, copy_file, reader, writer, Pipe, direct, back, Objects, World, read_at,
  write_at,
}
use sem.Base.{
  ℕ, zero, suc, Bool, true, false, ◌&&◌, ◌||◌, Option, none, some, [], ◌∷◌, ◌++◌, ◌==◌,
  if◌then◌else◌, length, take, drop, replicate,
}
use sem.Text.{Bytes}

-- MAX_BUF_SIZE
abbrev pub max_buf_size : ℕ
max_buf_size = 65536

-- CreateDuplexPipe fills the table of actions with the functions of this file; `buffer` is data.
pub record DuplexPipe : Type 0 where
  pub buffer : Bytes
  pub fd_direct : ℕ × ℕ
  pub fd_back : ℕ × ℕ
  pub len : ℕ

pub record Process : Type 0 where
  pub table : Objects
  pub pipe : DuplexPipe
  pub world : World

-- The bytes of a read at the front of the buffer.
abbrev pub overlay : Bytes → DuplexPipe → DuplexPipe
overlay got pipe = record pipe { buffer = got ++ drop (length got) pipe.buffer }

unfoldable pub read_duplex : Process → Option ℕ × Process
read_duplex p =
    let (got, world) = read_at p.table p.pipe.fd_direct.0 max_buf_size p.world in
    elim got [
      | none ↦ (none, record p { world = world })
      | some b ↦ (some (length b), record p { world = world; pipe = overlay b p.pipe })
    ]

unfoldable pub write_duplex : Process → Option ℕ × Process
write_duplex p =
    let (n, world) = write_at p.table p.pipe.fd_back.1 (take p.pipe.len p.pipe.buffer) p.world in
    (n, record p { world = world })

unfoldable pub close_parent_pipes : Process → Process
close_parent_pipes p = record p {
  table = close_at p.pipe.fd_back.1 (close_at p.pipe.fd_direct.0 p.table);
}

unfoldable pub close_child_pipes : Process → Process
close_child_pipes p = record p {
  table = close_at p.pipe.fd_back.0 (close_at p.pipe.fd_direct.1 p.table);
}

unfoldable pub close_all_pipes : Process → Process
close_all_pipes p =
    let direct_closed = close_at p.pipe.fd_direct.1 (close_at p.pipe.fd_direct.0 p.table) in
    record p { table = close_at p.pipe.fd_back.1 (close_at p.pipe.fd_back.0 direct_closed) }

-- n == len
abbrev pub is_count : Option ℕ → ℕ → Bool
is_count none n = false
is_count (some k) n = k == n

-- The body of the parent's loop, with its condition: whether the loop goes on.
unfoldable pub copy_round : ℕ → ℕ → Process → Bool × Process
copy_round source copy p =
    let (got, world) = read_at p.table source max_buf_size p.world in
    elim got [
      | none ↦ (false, record p { world = world })
      | some b ↦
          if length b == 0
          then (false, record p { world = world })
          else (let pipe = record (overlay b p.pipe) { len = length b } in
              let (n, q) = write_duplex (record p { world = world; pipe = pipe }) in
              if is_count n (length b)
              then (let (k, r) = read_duplex q in
                  if is_count k (length b)
                  then (let (_, rest) =
                        write_at r.table copy (take (length b) r.pipe.buffer) r.world in
                      (true, record r { world = rest }))
                  else (false, r))
              else (false, q))
    ]

-- none where the fuel runs out
unfoldable pub parent_loop : ℕ → ℕ → ℕ → Process → Option Process
parent_loop zero source copy p = none
parent_loop (suc fuel) source copy p =
    let (more, q) = copy_round source copy p in
    elim more [ false ↦ some q | true ↦ parent_loop fuel source copy q ]

unfoldable pub child_loop : ℕ → Process → Option Process
child_loop zero p = none
child_loop (suc fuel) p =
    let (n, q) = read_duplex p in
    elim n [
      | none ↦ some q
      | some k ↦
          if k == 0
          then some q
          else child_loop fuel (write_duplex (record q { pipe = record q.pipe { len = k } })).1
    ]

-- Of Run, what the child does; it has as many turns as there are reads to come, and one more.
unfoldable pub run_child : Process → Option Process
run_child p =
    let q = close_child_pipes p in
    elim (child_loop (suc (length q.world.incoming)) q) [
      | none ↦ none
      | some r ↦ some (close_all_pipes r)
    ]

-- Whether the child can be kept waiting by a process with this table: its reads give the end of the
-- file only when no process holds the writing end that feeds them, and its writes can wait for room
-- as long as one holds the reading end of the other pipe.
abbrev pub holds_up : Objects → Bool
holds_up [] = false
holds_up (none ∷ t) = holds_up t
holds_up (some (writer direct) ∷ t) = true
holds_up (some (reader back) ∷ t) = true
holds_up (some (writer back) ∷ t) = holds_up t
holds_up (some (reader direct) ∷ t) = holds_up t
holds_up (some terminal ∷ t) = holds_up t
holds_up (some source_file ∷ t) = holds_up t
holds_up (some copy_file ∷ t) = holds_up t

-- waitpid(pid, &status, 0), with the tables of both processes: none where the child may never end.
unfoldable pub wait_child : Objects → Process → Option Process
wait_child child p = if holds_up child || holds_up p.table then none else some p

-- Of Run, what the parent does. The files may be missing, and then it does not wait for the child,
-- which has the table that close_child leaves; child.txt is emptied.
unfoldable pub run_parent : Bool → Bool → Process → Option Process
run_parent has_source has_copy p =
    let q = close_parent_pipes p in
    if has_source
    then (let (source, reading) = open_lowest source_file q.table in
        if has_copy
        then (let (copy, both) = open_lowest copy_file reading in
            let ready = record q { table = both; world = record q.world { copy = [] } } in
            elim (parent_loop (suc (length q.world.source)) source copy ready) [
              | none ↦ none
              | some r ↦
                  let s = close_all_pipes r in
                  wait_child (close_child_pipes p).table
                    (record s { table = close_at copy (close_at source s.table) })
            ])
        else some (record q { table = close_at source reading }))
    else some q

-- Which of the calls of CreateDuplexPipe succeed, and whether fork() of Run does.
pub record Making : Type 0 where
  pub self : Bool
  pub buffer : Bool
  pub first_pipe : Bool
  pub second_pipe : Bool
  pub fork : Bool

-- pipe(): its two ends
abbrev open_pipe : Pipe → Objects → (ℕ × ℕ) × Objects
open_pipe p t =
    let (r, reading) = open_lowest (reader p) t in
    let (w, both) = open_lowest (writer p) reading in ((r, w), both)

unfoldable pub create_duplex_pipe : Making → ℕ → Objects → Option DuplexPipe × Objects
create_duplex_pipe makes buffer_size t =
    if makes.self && makes.buffer && makes.first_pipe
    then (let (fd_direct, one) = open_pipe direct t in
        if makes.second_pipe
        then (let (fd_back, two) = open_pipe back one in
            (
              some (record {
                buffer = replicate buffer_size 0;
                fd_direct = fd_direct;
                fd_back = fd_back;
                len = 0;
              }),
              two,
            ))
        else (none, one))
    else (none, t)

unfoldable pub destroy_duplex_pipe : Process → Objects
destroy_duplex_pipe p = (close_all_pipes p).table

abbrev pub standard : Objects
standard = some terminal ∷ some terminal ∷ some terminal ∷ []

-- Run, in the parent.
unfoldable pub run : Making → Bool → Bool → Process → Option Process
run makes has_source has_copy p = if makes.fork then run_parent has_source has_copy p else some p

-- What child.txt holds and which files are open when main returns; none where it waits for ever.
unfoldable pub run_main : Making → Bool → Bool → World → Option (World × Objects)
run_main makes has_source has_copy w =
    let (made, t) = create_duplex_pipe makes max_buf_size standard in
    elim made [
      | none ↦ some (w, t)
      | some pipe ↦
          elim (run makes has_source has_copy (record { table = t; pipe = pipe; world = w })) [
            | none ↦ none
            | some p ↦ some (p.world, destroy_duplex_pipe p)
          ]
    ]
