-- ===== src/FileServer/Shutdown.antt =====
-- The end of task_7/homework/src/server/main_server.c, over the table and the open descriptors.
use sem.Base.{
  ℕ, zero, suc, ◌+◌, ◌<◌, ◌≡◌, refl, sym, ◌∙◌, inl, inr, true, false, List, [], ◌∷◌, arith,
  if◌then◌else◌, lt→ltb, Bool-cases, if-both, length, get_or, get_or-set_self, get_or-set_ne,
}
use sem.FileServer.Table.{
  ClientInfo, Server, Os, max_clients, vacant, fresh, client, close_client_connection,
}
use sem.FileServer.EventLoop.{Turn, close_all, shut_down, run_server}
use sem.FileServer.Invariant.{
  client_holds, table_holds, count_fd, SlotIsSound, IsSound, slot-IsSound,
  close_client_connection-IsSound, fresh-IsSound,
}
use sem.FileServer.Steps.{serve-IsSound}
use native.Mathlib.Decide.{dec_lt}

-- The entries below `i` are vacant.
abbrev VacantBelow : ℕ → Server → Type 0
VacantBelow i s = (j : ℕ) → j < i → client s j ≡ vacant

inactive_vacant : (i : ℕ) (c : ClientInfo) → SlotIsSound i c → c.is_active ≡ false → c ≡ vacant
inactive_vacant i c (inl e) h = e
inactive_vacant i c (inr (tx, rx, live, id, t, r)) h = absurd (true-ne-false (sym live ∙ h))
  where
    true-ne-false : true ≡ false → ⊥
    true-ne-false e = cc

step-VacantBelow :
    (i : ℕ) (s : Server)
    → IsSound s
    → i < max_clients
    → VacantBelow i s
    → VacantBelow (suc i) (if (client s i).is_active then close_client_connection i s else s)
unfolding close_client_connection
step-VacantBelow i s v within h j below = elim (Bool-cases (client s i).is_active) [
  | inl live ↦
      rw (live, lt→ltb i max_clients within)
        (elim (dec_lt j i) [
          | yes lower ↦
              get_or-set_ne s.clients i j vacant vacant (λ e. absurd (omega arith)) ∙ h j lower
          | no here ↦
              let same : j ≡ i = omega arith in
              rw same (get_or-set_self s.clients i vacant vacant (omega (arith, v.entries)))
        ])
  | inr idle ↦ rw idle (elim (dec_lt j i) [
    | yes lower ↦ h j lower
    | no here ↦
        let same : j ≡ i = omega arith in
        rw same (inactive_vacant (0 + i) _ (slot-IsSound 0 s.clients i v.slots) idle)
  ])
]

close_all-IsSound :
    (n i : ℕ) (s : Server)
    → IsSound s
    → i + n ≡ max_clients
    → VacantBelow i s
    → IsSound (close_all n i s) × VacantBelow max_clients (close_all n i s)
unfolding close_all
close_all-IsSound zero i s v e h = (v, λ j below. h j (omega arith))
close_all-IsSound (suc n) i s v e h =
    close_all-IsSound n (suc i) _
      (if-both IsSound (client s i).is_active (λ _. close_client_connection-IsSound i s v) (λ _. v))
      (omega arith) (step-VacantBelow i s v (omega arith) h)

no_holds :
    (x : ℕ) (cs : List ClientInfo)
    → ((j : ℕ) → j < length cs → get_or cs j vacant ≡ vacant)
    → table_holds x cs ≡ 0
no_holds x [] h = refl
no_holds x (c ∷ cs) h =
    let free : client_holds x c ≡ 0 = rw (h 0 (omega arith)) in
    omega (arith, free, no_holds x cs (λ j below. h (suc j) (omega arith)))

no_fds : (fds : List ℕ) → ((x : ℕ) → count_fd x fds ≡ 0) → fds ≡ []
no_fds [] h = refl
no_fds (y ∷ ys) h = absurd (ground (arith, h y))

-- However the loop goes and the kernel answers, after the end of the server no descriptor of a
-- client is open and every entry of the table is vacant.
pub run_server_closes :
    (os : Os) (ts : List Turn)
    → ((run_server os ts).fds ≡ [])
      × ((i : ℕ) → i < max_clients → client (run_server os ts) i ≡ vacant)
unfolding run_server shut_down
run_server_closes os ts =
    let (v, h) =
      close_all-IsSound max_clients 0 _ (serve-IsSound os ts 0 fresh fresh-IsSound) refl
        (λ j below. elim below [ ]) in
    (no_fds _ (λ x. v.balance x ∙ no_holds x _ (λ j below. h j (omega (arith, v.entries)))), h)
