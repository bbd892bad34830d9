-- ===== src/Integration/Found.antt =====
-- The servers that discover_servers_udp of task_8/homework finds, against a description of them.
use sem.Base.{
  ℕ, ◌≤◌, ◌≡◌, refl, sym, ap, ◌∙◌, subst, inl, inr, Bool, true, false, ◌||◌, some, List, [], ◌∷◌,
  ◌++◌, map, arith, ◌==◌, if◌then◌else◌, ==_iff, Bool-cases, length, take, All, append-nil,
  append_assoc, map-append, ltb, if-both, length-append, length-map, take-append_length, take_all,
  All-append,
}
use sem.Text.{starts_with}
use sem.Integration.Discovery.{
  ServerInfo, Datagram, max_servers, tcp_task_port, discovery_response, received, is_found,
  receive_all, Sockets, discover_servers_udp, receive,
}

unfoldable pub drop_if : (ℕ → Bool) → List ℕ → List ℕ
drop_if p [] = []
drop_if p (x ∷ xs) = if p x then drop_if p xs else x ∷ drop_if p xs

-- Each number once, where it stands first.
unfoldable pub distinct : List ℕ → List ℕ
distinct [] = []
distinct (x ∷ xs) = x ∷ drop_if (λ y. x == y) (distinct xs)

-- The addresses that the responses come from, in their order.
unfoldable pub responders : List Datagram → List ℕ
responders [] = []
responders (d ∷ ds) =
    if starts_with discovery_response (received d.payload)
    then d.from ∷ responders ds
    else responders ds

abbrev pub addresses : List ServerInfo → List ℕ
addresses = map (λ s. s.addr)

drop_if-drop_if :
    (p q : ℕ → Bool) (xs : List ℕ) → drop_if p (drop_if q xs) ≡ drop_if (λ x. q x || p x) xs
unfolding drop_if
drop_if-drop_if p q [] = refl
drop_if-drop_if p q (x ∷ xs) = elim (Bool-cases (q x)) [
  | inl e ↦ rw (e, drop_if-drop_if p q xs)
  | inr e ↦ rw (e, drop_if, drop_if-drop_if p q xs)
]

drop_if_same :
    (p q : ℕ → Bool) → ((x : ℕ) → p x ≡ q x) → (xs : List ℕ) → drop_if p xs ≡ drop_if q xs
unfolding drop_if
drop_if_same p q h [] = refl
drop_if_same p q h (x ∷ xs) = rw (h x, drop_if_same p q h xs)

is_found-append :
    (a : ℕ) (ss : List ServerInfo) (s : ServerInfo)
    → is_found a (ss ++ s ∷ []) ≡ (is_found a ss || s.addr == a)
unfolding is_found
is_found-append a [] s = ground arith
is_found-append a (t ∷ ss) s = ground (arith, is_found-append a ss s)

-- The addresses that are new, after those of `ss`.
abbrev unlisted : List ServerInfo → List ℕ → List ℕ
unlisted ss xs = drop_if (λ x. is_found x ss) xs

found_covers :
    (a : ℕ) (ss : List ServerInfo)
    → is_found a ss ≡ true
    → (x : ℕ) → (a == x || is_found x ss) ≡ is_found x ss
found_covers a ss e x = elim (Bool-cases (a == x)) [
  | inl same ↦
      let eq : a ≡ x = (==_iff a x).0 same in rw same (sym (subst (λ y. is_found y ss ≡ true) eq e))
  | inr other ↦ rw other
]

unlisted-found :
    (a : ℕ) (ss : List ServerInfo) (xs : List ℕ)
    → is_found a ss ≡ true
    → unlisted ss (a ∷ drop_if (λ y. a == y) xs) ≡ unlisted ss xs
unfolding drop_if
unlisted-found a ss xs e = rw e (
    drop_if-drop_if (λ x. is_found x ss) (λ y. a == y) xs
    ∙ drop_if_same _ (λ x. is_found x ss) (found_covers a ss e) xs)

unlisted-new :
    (s : ServerInfo) (ss : List ServerInfo) (xs : List ℕ)
    → is_found s.addr ss ≡ false
    → unlisted ss (s.addr ∷ drop_if (λ y. s.addr == y) xs) ≡ s.addr ∷ unlisted (ss ++ s ∷ []) xs
unfolding drop_if
unlisted-new s ss xs e = rw e (
    ap (◌∷◌ s.addr) (
      drop_if-drop_if (λ x. is_found x ss) (λ y. s.addr == y) xs
      ∙ drop_if_same _ (λ x. is_found x (ss ++ s ∷ []))
          (λ x. rw (is_found-append x ss s) (ground arith)) xs))

append-fresh_nil : (ss : List ServerInfo) → addresses ss ++ unlisted ss [] ≡ addresses ss
unfolding drop_if
append-fresh_nil ss = append-nil (addresses ss)

drop_if-none : (xs : List ℕ) → unlisted [] xs ≡ xs
unfolding drop_if is_found
drop_if-none [] = refl
drop_if-none (x ∷ xs) = ap (◌∷◌ x) (drop_if-none xs)

-- From the servers found already, the loop adds the new responders in the order of their first
-- responses, up to the size of the list.
receive_all-unlisted :
    (ds : List Datagram) (ss : List ServerInfo)
    → length ss ≤ max_servers
    → addresses (receive_all ds ss)
      ≡ take max_servers (addresses ss ++ unlisted ss (distinct (responders ds)))
unfolding receive_all receive responders distinct
receive_all-unlisted [] ss h =
    let fits : length (addresses ss) ≤ max_servers =
      omega (arith, length-map ss (λ (s : ServerInfo). s.addr)) in
    sym (ap (take max_servers) (append-fresh_nil ss) ∙ take_all (addresses ss) max_servers fits)
receive_all-unlisted (d ∷ ds) ss h = elim (Bool-cases (ltb (length ss) max_servers)) [
  | inr full ↦
      let all : length (addresses ss) ≡ max_servers =
        ground (arith, length-map ss (λ (s : ServerInfo). s.addr)) in
      rw full (
        subst
          (λ n.
            addresses ss ≡ take n (addresses ss ++ unlisted ss (distinct (responders (d ∷ ds)))))
          all (sym (take-append_length (addresses ss) _)))
  | inl room ↦ rw room (elim (Bool-cases (starts_with discovery_response (received d.payload))) [
    | inr silent ↦ rw silent (receive_all-unlisted ds ss h)
    | inl responds ↦ rw responds (elim (Bool-cases (is_found d.from ss)) [
      | inl old ↦ rw old (
          receive_all-unlisted ds ss h
          ∙ ap (λ ys. take max_servers (addresses ss ++ ys))
              (sym (unlisted-found d.from ss (distinct (responders ds)) old)))
      | inr new ↦ rw new (
          receive_all-unlisted ds (ss ++ server d ∷ [])
            (ground (arith, length-append ss (server d ∷ [])))
          ∙ ap (take max_servers)
              (regroup (unlisted (ss ++ server d ∷ []) (distinct (responders ds))))
          ∙ ap (λ ys. take max_servers (addresses ss ++ ys))
              (sym (unlisted-new (server d) ss (distinct (responders ds)) new)))
    ])
  ])
]
  where
    server : Datagram → ServerInfo
    server d = record { addr = d.from; port = tcp_task_port }

    regroup : (ys : List ℕ) → addresses (ss ++ server d ∷ []) ++ ys ≡ addresses ss ++ d.from ∷ ys
    regroup ys =
        rw (map-append (λ (s : ServerInfo). s.addr) ss (server d ∷ []))
          (append_assoc (addresses ss) (d.from ∷ []) ys)

receive-ports :
    (d : Datagram) (ss : List ServerInfo)
    → All (λ s. s.port ≡ tcp_task_port) ss
    → All (λ s. s.port ≡ tcp_task_port) (receive d ss)
unfolding receive
receive-ports d ss h =
    if-both (All (λ s. s.port ≡ tcp_task_port))
      (starts_with discovery_response (received d.payload))
      (λ _.
        if-both (All (λ s. s.port ≡ tcp_task_port)) (is_found d.from ss) (λ _. h)
          (λ _. All-append (λ s. s.port ≡ tcp_task_port) ss _ h (refl, tt)))
      (λ _. h)

receive_all-ports :
    (ds : List Datagram) (ss : List ServerInfo)
    → All (λ s. s.port ≡ tcp_task_port) ss
    → All (λ s. s.port ≡ tcp_task_port) (receive_all ds ss)
unfolding receive_all
receive_all-ports [] ss h = h
receive_all-ports (d ∷ ds) ss h =
    if-both (All (λ s. s.port ≡ tcp_task_port)) (ltb (length ss) max_servers)
      (λ _. receive_all-ports ds (receive d ss) (receive-ports d ss h)) (λ _. h)

-- With all sockets in order, the servers are those that respond, each once, in the order of their
-- first responses, 64 at most, and the result is their number; each is asked at the fixed port.
pub discover_servers_udp-distinct :
    (ds : List Datagram) (k : Sockets)
    → k.opens ≡ true
    → k.broadcasts ≡ true
    → k.sets_timeout ≡ true
    → k.sends ≡ true
    → let (servers, result) = discover_servers_udp k ds in
      (addresses servers ≡ take max_servers (distinct (responders ds)))
      × (result ≡ some (length servers))
      × All (λ s. s.port ≡ tcp_task_port) servers
unfolding discover_servers_udp
discover_servers_udp-distinct ds k o b t s =
    rw (o, b, t, s)
      (
        receive_all-unlisted ds [] (omega arith)
            ∙ ap (take max_servers) (drop_if-none (distinct (responders ds))),
        refl,
        receive_all-ports ds [] tt,
      )
