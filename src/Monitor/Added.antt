-- ===== src/Monitor/Added.antt =====
-- What add_inotify_watch_recursive of task_6/homework/src/daemon.c keeps.
use sem.Base.{
  ℕ, ◌≡◌, refl, ◌∙◌, true, false, none, some, List, [], ◌∷◌, ◌++◌, arith, if-both, if◌then◌else◌,
}
use sem.Text.{Bytes}
use sem.Monitor.State.{WatchInfo, MonitorState}
use sem.Monitor.Watch.{
  folder, unknown, other, Tree, closed, opened, Entries, no_more, entry, get_watch_path, join,
  watch, add_inotify_watch_recursive, add_entries, is_dots,
}

-- The queue and the counter stay, and each watch keeps its path.
abbrev pub Adds : MonitorState → MonitorState → Type 0
Adds s t =
    (t.changed_files_queue ≡ s.changed_files_queue)
    × (t.inotify_open ≡ s.inotify_open)
    × ((wd : ℕ) (p : Bytes)
        → get_watch_path wd s.watch_list ≡ some p
        → get_watch_path wd t.watch_list ≡ some p)
    × (t.current_sample ≡ s.current_sample)

get_watch_path-append :
    (wd : ℕ) (ws more : List WatchInfo) (p : Bytes)
    → get_watch_path wd ws ≡ some p
    → get_watch_path wd (ws ++ more) ≡ some p
unfolding get_watch_path
get_watch_path-append wd [] more p e = cc
get_watch_path-append wd (w ∷ ws) more p e = ground (arith, get_watch_path-append wd ws more p)

Adds-trans : (s t u : MonitorState) → Adds s t → Adds t u → Adds s u
Adds-trans s t u a b = (b.0 ∙ a.0, b.1 ∙ a.1, λ wd p e. b.2 wd p (a.2 wd p e), b.3 ∙ a.3)

watch-Adds : (wd : ℕ) (path : Bytes) (s : MonitorState) → Adds s (watch wd path s)
watch-Adds wd path s = (refl, refl, λ k p e. get_watch_path-append k s.watch_list _ p e, refl)

folder-Adds :
    (name path : Bytes) (es : Entries) (s below : MonitorState)
    → ((q : MonitorState) → Adds q (add_entries path es q))
    → Adds s below
    → Adds s (if is_dots name then add_entries path es s else add_entries path es below)
folder-Adds name path es s below others a =
    if-both (Adds s) (is_dots name) (λ _. others s)
      (λ _. Adds-trans s below (add_entries path es below) a (others below))

mutual
  unfolding add_inotify_watch_recursive

  pub add_inotify_watch_recursive-Adds :
      (path : Bytes) (t : Tree) (s : MonitorState) → Adds s (add_inotify_watch_recursive path t s).0
  add_inotify_watch_recursive-Adds path closed s = (refl, refl, λ wd p e. e, refl)
  add_inotify_watch_recursive-Adds path (opened none stored es) s = (refl, refl, λ wd p e. e, refl)
  add_inotify_watch_recursive-Adds path (opened (some wd) false es) s =
      (refl, refl, λ wd p e. e, refl)
  add_inotify_watch_recursive-Adds path (opened (some wd) true es) s =
      Adds-trans s (watch wd path s) (add_entries path es (watch wd path s)) (watch-Adds wd path s)
        (add_entries-Adds path es (watch wd path s))

  add_entries-Adds :
      (path : Bytes) (es : Entries) (s : MonitorState) → Adds s (add_entries path es s)
  add_entries-Adds path no_more s = (refl, refl, λ wd p e. e, refl)
  add_entries-Adds path (entry name folder t es) s =
      folder-Adds name path es s (add_inotify_watch_recursive (join path name) t s).0
        (add_entries-Adds path es) (add_inotify_watch_recursive-Adds (join path name) t s)
  add_entries-Adds path (entry name unknown t es) s =
      folder-Adds name path es s (add_inotify_watch_recursive (join path name) t s).0
        (add_entries-Adds path es) (add_inotify_watch_recursive-Adds (join path name) t s)
  add_entries-Adds path (entry name other t es) s = add_entries-Adds path es s
