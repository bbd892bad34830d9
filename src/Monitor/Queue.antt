-- ===== src/Monitor/Queue.antt =====
-- What process_inotify_events of task_6/homework/src/daemon.c leaves in the queue of changed files.
use sem.Base.{
  ℕ, ◌≡◌, refl, Bool, true, false, ◌||◌, some, List, [], ◌∷◌, ◌++◌, arith, ==_refl, if-both, All,
  All-append, inl, inr, ◌&&◌, Option-cases,
}
use sem.Text.{Bytes, equal}
use sem.Monitor.State.{MonitorState}
use sem.Monitor.Watch.{Tree, get_watch_path, join, add_inotify_watch_recursive}
use sem.Monitor.Events.{
  InotifyEvent, is_own, is_queued, enqueue, handle_event, EventRead, events, nothing, refused,
  counts_as_text, should_add, file_event, named_event, handle_events, process_inotify_events,
}
use sem.Monitor.Added.{add_inotify_watch_recursive-Adds}

abbrev NoRepeat : List Bytes → Type 0
NoRepeat [] = Unit
NoRepeat (q ∷ qs) = (is_queued q qs ≡ false) × NoRepeat qs

-- No path stands twice in the queue, and none is the daemon's own file.
abbrev pub IsQueue : MonitorState → Type 0
IsQueue s = NoRepeat s.changed_files_queue × All (λ q. is_own q ≡ false) s.changed_files_queue

-- What is queued stays queued, and each watch keeps its path.
abbrev Grows : MonitorState → MonitorState → Type 0
Grows s t =
    ((p : Bytes)
      → is_queued p s.changed_files_queue ≡ true
      → is_queued p t.changed_files_queue ≡ true)
    × ((wd : ℕ) (p : Bytes)
        → get_watch_path wd s.watch_list ≡ some p
        → get_watch_path wd t.watch_list ≡ some p)

pub equal_sym : (a b : Bytes) → equal a b ≡ equal b a
unfolding equal
equal_sym [] [] = refl
equal_sym [] (y ∷ b) = refl
equal_sym (x ∷ a) [] = refl
equal_sym (x ∷ a) (y ∷ b) = ground (arith, equal_sym a b)

pub equal_refl : (a : Bytes) → equal a a ≡ true
unfolding equal
equal_refl [] = refl
equal_refl (x ∷ a) = rw (==_refl x, equal_refl a)

is_queued-append :
    (p q : Bytes) (qs : List Bytes) → is_queued p (qs ++ q ∷ []) ≡ (is_queued p qs || equal q p)
unfolding is_queued
is_queued-append p q [] = ground arith
is_queued-append p q (r ∷ qs) = ground (arith, is_queued-append p q qs)

NoRepeat-append :
    (p : Bytes) (qs : List Bytes) → NoRepeat qs → is_queued p qs ≡ false → NoRepeat (qs ++ p ∷ [])
unfolding is_queued
NoRepeat-append p [] h e = (refl, tt)
NoRepeat-append p (q ∷ qs) h e =
    let apart : equal p q ≡ false = ground (arith, equal_sym p q) in
    (rw (is_queued-append q p qs, h.0, apart), NoRepeat-append p qs h.1 (ground arith))

enqueue-IsQueue :
    (stored : Bool) (path : Bytes) (s : MonitorState)
    → is_own path ≡ false
    → IsQueue s
    → IsQueue (enqueue stored path s)
enqueue-IsQueue stored path s own h =
    if-both IsQueue (is_queued path s.changed_files_queue) (λ _. h)
      λ new.
        if-both IsQueue stored
          (λ _. (
            NoRepeat-append path s.changed_files_queue h.0 new,
            All-append _ s.changed_files_queue (path ∷ []) h.1 (own, tt),
          ))
          (λ _. h)

enqueue-Grows : (stored : Bool) (path : Bytes) (s : MonitorState) → Grows s (enqueue stored path s)
enqueue-Grows stored path s =
    if-both (Grows s) (is_queued path s.changed_files_queue) (λ _. (λ p h. h, λ wd p h. h))
      (λ new.
        if-both (Grows s) stored
          (λ _. (λ p h. rw (is_queued-append p path s.changed_files_queue, h), λ wd p h. h))
          (λ _. (λ p h. h, λ wd p h. h)))

enqueue-queued :
    (path : Bytes) (s : MonitorState)
    → is_queued path (enqueue true path s).changed_files_queue ≡ true
unfolding is_queued
enqueue-queued path s =
    if-both (λ (t : MonitorState). is_queued path t.changed_files_queue ≡ true)
      (is_queued path s.changed_files_queue) (λ h. h)
      (λ new. rw (is_queued-append path path s.changed_files_queue, equal_refl path) (ground arith))

-- The event names a file that is not the daemon's own, says that it was changed, and counts as one
-- of a text file; memory is given for its path.
pub record Reports (is_text_file : Bytes → Bool) (e : InotifyEvent) (path : Bytes) : Type 0 where
  pub named : e.has_name ≡ true
  pub no_folder : e.mask.is_dir ≡ false
  pub not_own : is_own path ≡ false
  pub is_text : counts_as_text e.mask (is_text_file path) ≡ true
  pub changes : should_add e.mask ≡ true
  pub kept : e.stored ≡ true

module _ (is_text_file : Bytes → Bool) (tree : Bytes → Tree) where
  -- An event leaves the state, adds watches, or queues a path.
  pub handle_event-cases :
      (P : MonitorState → Type 0) (e : InotifyEvent) (s : MonitorState)
      → P s
      → ((path : Bytes) (t : Tree) → P (add_inotify_watch_recursive path t s).0)
      → ((path : Bytes) → is_own path ≡ false → P (enqueue e.stored path s))
      → P (handle_event is_text_file tree e s)
  unfolding handle_event named_event file_event
  handle_event-cases P e s stays adds queues =
      if-both P e.has_name
        (λ _. elim (Option-cases (get_watch_path e.wd s.watch_list)) [
          | inl lost ↦ rw (lost, handle_event) stays
          | inr (watch_dir, found) ↦ rw (found, handle_event) (named (join watch_dir e.name))
        ])
        (λ _. stays)
    where
      text : Bytes → Bool
      text path = counts_as_text e.mask (is_text_file path) && should_add e.mask

      named : (path : Bytes) → P (named_event is_text_file tree e path s)
      named path =
          if-both P e.mask.is_dir
            (λ _. if-both P e.mask.create (λ _. adds path (tree path)) (λ _. stays))
            (λ _.
              if-both P (is_own path) (λ _. stays)
                (λ own. if-both P (text path) (λ _. queues path own) (λ _. stays)))

  handle_event-IsQueue :
      (e : InotifyEvent) (s : MonitorState)
      → IsQueue s
      → IsQueue (handle_event is_text_file tree e s)
  handle_event-IsQueue e s h =
      handle_event-cases IsQueue e s h
        (λ path t. rw (add_inotify_watch_recursive-Adds path t s).0 h)
        (λ path own. enqueue-IsQueue e.stored path s own h)

  handle_event-Grows :
      (e : InotifyEvent) (s : MonitorState) → Grows s (handle_event is_text_file tree e s)
  handle_event-Grows e s =
      handle_event-cases (Grows s) e s (λ p h. h, λ wd p h. h)
        (λ path t. let a = add_inotify_watch_recursive-Adds path t s in (λ p h. rw a.0 h, a.2))
        (λ path own. enqueue-Grows e.stored path s)

  handle_events-IsQueue :
      (es : List InotifyEvent) (s : MonitorState)
      → IsQueue s
      → IsQueue (handle_events is_text_file tree es s)
  unfolding handle_events
  handle_events-IsQueue [] s h = h
  handle_events-IsQueue (e ∷ es) s h =
      handle_events-IsQueue es (handle_event is_text_file tree e s) (handle_event-IsQueue e s h)

  handle_events-Grows :
      (es : List InotifyEvent) (s : MonitorState) → Grows s (handle_events is_text_file tree es s)
  unfolding handle_events
  handle_events-Grows [] s = (λ p h. h, λ wd p h. h)
  handle_events-Grows (e ∷ es) s =
      let first = handle_event-Grows e s in
      let others = handle_events-Grows es (handle_event is_text_file tree e s) in
      (λ p h. others.0 p (first.0 p h), λ wd p h. others.1 wd p (first.1 wd p h))

  -- Whatever the read gives, if no path stands twice in the queue of changed files and none in it is
  -- the daemon's log or a file it restored, the same holds of the queue after the events.
  pub process_inotify_events-IsQueue :
      (r : EventRead) (s : MonitorState)
      → IsQueue s
      → IsQueue (process_inotify_events is_text_file tree r s).0
  unfolding process_inotify_events
  process_inotify_events-IsQueue (events es) s h =
      if-both (λ (r : MonitorState × Bool). IsQueue r.0) s.inotify_open
        (λ _. handle_events-IsQueue es s h) (λ _. h)
  process_inotify_events-IsQueue nothing s h = h
  process_inotify_events-IsQueue refused s h = h

  handle_event-queued :
      (e : InotifyEvent) (dir : Bytes) (s : MonitorState)
      → get_watch_path e.wd s.watch_list ≡ some dir
      → Reports is_text_file e (join dir e.name)
      → is_queued (join dir e.name) (handle_event is_text_file tree e s).changed_files_queue ≡ true
  unfolding handle_event named_event file_event
  handle_event-queued e dir s w r =
      rw (r.named, w, r.no_folder, r.not_own, r.is_text, r.changes, r.kept)
        (enqueue-queued (join dir e.name) s)

  handle_events-queued :
      (earlier later : List InotifyEvent) (e : InotifyEvent) (dir : Bytes) (s : MonitorState)
      → get_watch_path e.wd s.watch_list ≡ some dir
      → Reports is_text_file e (join dir e.name)
      → is_queued
          (join dir e.name)
          (handle_events is_text_file tree (earlier ++ e ∷ later) s).changed_files_queue
        ≡ true
  unfolding handle_events
  handle_events-queued [] later e dir s w r =
      (handle_events-Grows later (handle_event is_text_file tree e s)).0 (join dir e.name)
        (handle_event-queued e dir s w r)
  handle_events-queued (b ∷ earlier) later e dir s w r =
      handle_events-queued earlier later e dir (handle_event is_text_file tree b s)
        ((handle_event-Grows b s).1 e.wd dir w) r

  -- With inotify open, wherever among the events an event stands that reports a change of a text file
  -- in a directory watched at the start, which is not the daemon's own, and for whose path memory is
  -- given, the path of that file is queued in the end, and the call succeeds.
  pub process_inotify_events-queued :
      (earlier later : List InotifyEvent) (e : InotifyEvent) (dir : Bytes) (s : MonitorState)
      → s.inotify_open ≡ true
      → get_watch_path e.wd s.watch_list ≡ some dir
      → Reports is_text_file e (join dir e.name)
      → let (t, fine) =
          process_inotify_events is_text_file tree (events (earlier ++ e ∷ later)) s in
        (is_queued (join dir e.name) t.changed_files_queue ≡ true) × (fine ≡ true)
  unfolding process_inotify_events
  process_inotify_events-queued earlier later e dir s o w r =
      if-both
        (λ (r : MonitorState × Bool).
          (is_queued (join dir e.name) r.0.changed_files_queue ≡ true) × (r.1 ≡ true))
        s.inotify_open (λ _. (handle_events-queued earlier later e dir s w r, refl))
        (λ shut. absurd (ground arith))
