-- ===== src/FileServer/Invariant.antt =====
-- The table of task_7/homework/src/server/server.c and the descriptors that are open.
use sem.Base.{
  ℕ, zero, suc, ◌+◌, ◌≤◌, ◌<◌, ◌≡◌, refl, ◌⊎◌, inl, true, Option, none, some, List, [], ◌∷◌, arith,
  ◌==◌, if◌then◌else◌, length, set, get_or, sym, ◌∙◌, subst, inr, Bool-cases, if-both, length-set,
  replicate, Bool,
}
use sem.FileServer.Table.{
  ClientInfo, Server, max_clients, vacant, fresh, close_in, client, is_live,
  close_client_connection, FileTask, free_slot_from, find_free_client_slot,
}
use native.Mathlib.Nat.{add-zero}

-- How often a descriptor is `x`.
abbrev pub holds : Option ℕ → ℕ → ℕ
holds none x = 0
holds (some fd) x = if fd == x then 1 else 0

abbrev pub client_holds : ℕ → ClientInfo → ℕ
client_holds x c = holds c.tx_fd x + holds c.rx_fd x

abbrev pub table_holds : ℕ → List ClientInfo → ℕ
table_holds x [] = 0
table_holds x (c ∷ cs) = client_holds x c + table_holds x cs

abbrev pub count_fd : ℕ → List ℕ → ℕ
count_fd x [] = 0
count_fd x (y ∷ ys) = (if y == x then 1 else 0) + count_fd x ys

-- An entry is vacant, or an active one of its own number with two descriptors.
abbrev pub SlotIsSound : ℕ → ClientInfo → Type 0
SlotIsSound i c =
    (c ≡ vacant)
    ⊎ ((tx : ℕ) × (rx : ℕ) × (c.is_active ≡ true)
        × (c.client_id ≡ some i)
        × (c.tx_fd ≡ some tx)
        × (c.rx_fd ≡ some rx))

abbrev pub SlotsAreSound : ℕ → List ClientInfo → Type 0
SlotsAreSound i [] = Unit
SlotsAreSound i (c ∷ cs) = SlotIsSound i c × SlotsAreSound (suc i) cs

pub record IsSound (s : Server) : Type 0 where
  pub entries : length s.clients ≡ max_clients
  pub slots : SlotsAreSound 0 s.clients
  -- The open descriptors are those in the table, each as often.
  pub balance : (x : ℕ) → count_fd x s.fds ≡ table_holds x s.clients

vacant_slots : (n k : ℕ) → SlotsAreSound k (replicate n vacant)
vacant_slots zero k = tt
vacant_slots (suc n) k = (inl refl, vacant_slots n (suc k))

vacant_holds : (n x : ℕ) → table_holds x (replicate n vacant) ≡ 0
vacant_holds zero x = refl
vacant_holds (suc n) x = omega (arith, vacant_holds n x)

pub fresh-IsSound : IsSound fresh
unfolding fresh
fresh-IsSound = record {
  entries = refl;
  slots = vacant_slots max_clients 0;
  balance = λ x. sym (vacant_holds max_clients x);
}

shift : (k i : ℕ) → suc k + i ≡ k + suc i
shift k i = omega arith

pub slot-IsSound :
    (k : ℕ) (cs : List ClientInfo) (i : ℕ)
    → SlotsAreSound k cs
    → SlotIsSound (k + i) (get_or cs i vacant)
slot-IsSound k [] i h = inl refl
slot-IsSound k (c ∷ cs) zero h = rw add-zero h.0
slot-IsSound k (c ∷ cs) (suc i) h =
    subst (λ n. SlotIsSound n (get_or cs i vacant)) (shift k i) (slot-IsSound (suc k) cs i h.1)

pub set-SlotsAreSound :
    (k : ℕ) (cs : List ClientInfo) (i : ℕ) (c : ClientInfo)
    → SlotsAreSound k cs
    → SlotIsSound (k + i) c
    → SlotsAreSound k (set cs i c)
set-SlotsAreSound k [] i c h p = tt
set-SlotsAreSound k (d ∷ cs) zero c h p = (rw add-zero at p, h.1)
set-SlotsAreSound k (d ∷ cs) (suc i) c h p =
    (h.0, set-SlotsAreSound (suc k) cs i c h.1 (subst (λ n. SlotIsSound n c) (sym (shift k i)) p))

pub table_holds-set :
    (x : ℕ) (cs : List ClientInfo) (i : ℕ) (c : ClientInfo)
    → i < length cs
    → table_holds x (set cs i c) + client_holds x (get_or cs i vacant)
      ≡ table_holds x cs + client_holds x c
table_holds-set x [] i c h = elim h [ ]
table_holds-set x (d ∷ cs) zero c h = omega arith
table_holds-set x (d ∷ cs) (suc i) c h = omega (arith, table_holds-set x cs i c (omega arith))

pub client_holds-le :
    (x : ℕ) (cs : List ClientInfo) (i : ℕ) → client_holds x (get_or cs i vacant) ≤ table_holds x cs
client_holds-le x [] i = omega arith
client_holds-le x (d ∷ cs) zero = omega arith
client_holds-le x (d ∷ cs) (suc i) = omega (arith, client_holds-le x cs i)

pub count_fd-close_in :
    (x : ℕ) (fd : Option ℕ) (fds : List ℕ)
    → ((y : ℕ) → holds fd y ≤ count_fd y fds)
    → count_fd x (close_in fd fds) + holds fd x ≡ count_fd x fds
unfolding close_in
count_fd-close_in x none fds h = omega arith
count_fd-close_in x (some fd) [] h = ground (arith, h fd)
count_fd-close_in x (some fd) (y ∷ fds) h = elim (Bool-cases (y == fd)) [
  | inl same ↦ ground arith
  | inr other ↦
      rw other (omega (arith, count_fd-close_in x (some fd) fds (λ z. ground (arith, h z))))
]

pub closed-balance :
    (tx rx : Option ℕ) (fds : List ℕ)
    → ((y : ℕ) → holds tx y + holds rx y ≤ count_fd y fds)
    → (x : ℕ)
    → count_fd x (close_in rx (close_in tx fds)) + holds tx x + holds rx x ≡ count_fd x fds
closed-balance tx rx fds h x =
    let first = λ (y : ℕ). count_fd-close_in y tx fds (λ z. omega (arith, h z)) in
    omega
      (arith, first x, count_fd-close_in x rx (close_in tx fds) (λ y. omega (arith, first y, h y)))

-- Closing a connection gives back both its descriptors.
pub close_client_connection-IsSound :
    (i : ℕ) (s : Server) → IsSound s → IsSound (close_client_connection i s)
unfolding close_client_connection
close_client_connection-IsSound i s v =
    if-both IsSound (is_live s i)
      (λ live. record {
        entries = length-set s.clients i vacant ∙ v.entries;
        slots = set-SlotsAreSound 0 s.clients i vacant v.slots (inl refl);
        balance = λ x.
            let within : i < length s.clients = ground (arith, v.entries) in
            omega (
              arith,
              table_holds-set x s.clients i vacant within,
              v.balance x,
              closed-balance (client s i).tx_fd (client s i).rx_fd s.fds
                  (λ y. omega (arith, v.balance y, client_holds-le y s.clients i)) x,
            );
      })
      (λ _. v)

-- It depends on the table and the descriptors only.
pub IsSound-same :
    {s : Server} {epoll_open : Bool} {watched : List (ℕ × ℕ)} {tasks : List FileTask} {clock : ℕ}
    → IsSound s
    → IsSound
        (record s { epoll_open = epoll_open; watched = watched; tasks = tasks; clock = clock })
IsSound-same v = record { entries = v.entries; slots = v.slots; balance = v.balance }

-- find_free_client_slot gives the first vacant entry.
free_slot_from_lem :
    (k : ℕ) (cs : List ClientInfo) (i : ℕ)
    → SlotsAreSound k cs
    → free_slot_from k cs ≡ some i
    → (j : ℕ) × (i ≡ k + j) × (j < length cs) × (get_or cs j vacant ≡ vacant)
unfolding free_slot_from
free_slot_from_lem k [] i h e = cc
free_slot_from_lem k (c ∷ cs) i (inl free, h) e = (zero, ground arith, omega arith, free)
free_slot_from_lem k (c ∷ cs) i (inr (tx, rx, live, id, t, r), h) e =
    let (j, at, within, free) = free_slot_from_lem (suc k) cs i h (ground arith) in
    (suc j, omega arith, omega arith, free)

pub find_free_client_slot_lem :
    (s : Server) (i : ℕ)
    → IsSound s
    → find_free_client_slot s ≡ some i
    → (i < max_clients) × (client s i ≡ vacant)
unfolding find_free_client_slot
find_free_client_slot_lem s i v e =
    let (j, at, within, free) = free_slot_from_lem 0 s.clients i v.slots e in
    let same : i ≡ j = omega arith in (omega (arith, v.entries), rw same free)
