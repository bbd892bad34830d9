-- ===== src/FileServer/Left.antt =====
-- What the client of task_7/homework leaves behind: FIFOs and open descriptors.
use sem.Base.{
  ℕ, ◌≡◌, refl, Bool, true, false, not, ◌&&◌, ◌||◌, Bool-cases, inl, inr, List, [], ◌∷◌, ◌++◌, ◌==◌,
  leb, if-both, length,
}
use sem.FileServer.Session.{
  Fifo, tx_fifo, rx_fifo, Descriptor, preopen_fd, server_fifo_fd, temp_tx_fd, epoll_fd, tx_fd,
  rx_fd, Effect, makes, removes, opens, closes, writes, Registering, register_command, await_ack,
  open_epoll, open_tx, register_client,
}

abbrev pub fd_number : Descriptor → ℕ
fd_number preopen_fd = 0
fd_number server_fifo_fd = 1
fd_number temp_tx_fd = 2
fd_number epoll_fd = 3
fd_number tx_fd = 4
fd_number rx_fd = 5

-- Whether a descriptor is open after the calls, from whether it was before.
abbrev pub is_open : Descriptor → List Effect → Bool → Bool
is_open fd [] b = b
is_open fd (opens g ∷ es) b = is_open fd es ((fd_number fd == fd_number g) || b)
is_open fd (closes g ∷ es) b = is_open fd es (not (fd_number fd == fd_number g) && b)
is_open fd (makes f ∷ es) b = is_open fd es b
is_open fd (removes f ∷ es) b = is_open fd es b
is_open fd (writes text ∷ es) b = is_open fd es b

abbrev pub is_tx : Fifo → Bool
is_tx tx_fifo = true
is_tx rx_fifo = false

abbrev pub is_fifo : Fifo → Fifo → Bool
is_fifo tx_fifo f = is_tx f
is_fifo rx_fifo f = not (is_tx f)

-- Whether a FIFO is there after the calls.
abbrev pub is_there : Fifo → List Effect → Bool → Bool
is_there f [] b = b
is_there f (makes g ∷ es) b = is_there f es (is_fifo f g || b)
is_there f (removes g ∷ es) b = is_there f es (not (is_fifo f g) && b)
is_there f (opens fd ∷ es) b = is_there f es b
is_there f (closes fd ∷ es) b = is_there f es b
is_there f (writes text ∷ es) b = is_there f es b

-- Whether a FIFO is made by one of the calls.
abbrev pub is_made : Fifo → List Effect → Bool
is_made f [] = false
is_made f (makes g ∷ es) = is_fifo f g || is_made f es
is_made f (removes g ∷ es) = is_made f es
is_made f (opens fd ∷ es) = is_made f es
is_made f (closes fd ∷ es) = is_made f es
is_made f (writes text ∷ es) = is_made f es

pub is_open-append :
    (fd : Descriptor) (xs ys : List Effect) (b : Bool)
    → is_open fd (xs ++ ys) b ≡ is_open fd ys (is_open fd xs b)
is_open-append fd [] ys b = refl
is_open-append fd (opens g ∷ xs) ys b = is_open-append fd xs ys _
is_open-append fd (closes g ∷ xs) ys b = is_open-append fd xs ys _
is_open-append fd (makes f ∷ xs) ys b = is_open-append fd xs ys b
is_open-append fd (removes f ∷ xs) ys b = is_open-append fd xs ys b
is_open-append fd (writes text ∷ xs) ys b = is_open-append fd xs ys b

pub is_there-append :
    (f : Fifo) (xs ys : List Effect) (b : Bool)
    → is_there f (xs ++ ys) b ≡ is_there f ys (is_there f xs b)
is_there-append f [] ys b = refl
is_there-append f (makes g ∷ xs) ys b = is_there-append f xs ys _
is_there-append f (removes g ∷ xs) ys b = is_there-append f xs ys _
is_there-append f (opens fd ∷ xs) ys b = is_there-append f xs ys b
is_there-append f (closes fd ∷ xs) ys b = is_there-append f xs ys b
is_there-append f (writes text ∷ xs) ys b = is_there-append f xs ys b

-- The ways of register_client behind the command.
abbrev TxWays : (List Effect → Type 0) → Type 0
TxWays P =
    P []
    × P (opens temp_tx_fd ∷ closes temp_tx_fd ∷ [])
    × P (opens temp_tx_fd ∷ opens epoll_fd ∷ closes temp_tx_fd ∷ closes epoll_fd ∷ [])

open_tx-ways : (P : List Effect → Type 0) (r : Registering) → TxWays P → P (open_tx r).0
unfolding open_tx open_epoll await_ack
open_tx-ways P r w =
    if-both (λ (x : List Effect × Bool). P x.0) r.opens_tx
      (λ _. elim (Bool-cases r.makes_epoll) [
        | inl e ↦ rw e (elim (Bool-cases r.adds) [ inl a ↦ rw a w.2 | inr a ↦ rw a w.2 ])
        | inr e ↦ rw e w.1
      ])
      (λ _. w.0)

abbrev sent : ℕ → List Effect → List Effect
sent pid later =
    opens preopen_fd
    ∷ opens server_fifo_fd
    ∷ writes (register_command pid)
    ∷ closes server_fifo_fd
    ∷ later

register_client-ways :
    (P : List Effect → Type 0) (pid : ℕ) (r : Registering)
    → (r.preopens ≡ false → P [])
    → (r.preopens ≡ true
        → P (opens preopen_fd ∷ [])
          × P (opens preopen_fd ∷ opens server_fifo_fd ∷ closes server_fifo_fd ∷ [])
          × TxWays (λ later. P (sent pid later)))
    → P (register_client pid r).0
unfolding register_client
register_client-ways P pid r none_open ways =
    if-both (λ (x : List Effect × Bool). P x.0) r.preopens
      (λ e.
        if-both (λ (x : List Effect × Bool). P x.0) r.opens_server
          (λ _.
            if-both (λ (x : List Effect × Bool). P x.0)
              (leb 512 (length (register_command pid)) || not r.sends) (λ _. (ways e).1)
              (λ _. open_tx-ways (λ later. P (sent pid later)) r (ways e).2))
          (λ _. (ways e).0))
      none_open

abbrev LeftOpen : Registering → Descriptor → List Effect → Type 0
LeftOpen r fd effects =
    is_open fd effects false ≡ (r.preopens && (fd_number fd == fd_number preopen_fd))

pub register_client-is_open :
    (fd : Descriptor) (pid : ℕ) (r : Registering)
    → is_open fd (register_client pid r).0 false
      ≡ (r.preopens && (fd_number fd == fd_number preopen_fd))
register_client-is_open preopen_fd pid r =
    register_client-ways (LeftOpen r preopen_fd) pid r (λ e. rw e refl)
      (λ e. rw e (refl, refl, (refl, refl, refl)))
register_client-is_open server_fifo_fd pid r =
    register_client-ways (LeftOpen r server_fifo_fd) pid r (λ e. rw e refl)
      (λ e. rw e (refl, refl, (refl, refl, refl)))
register_client-is_open temp_tx_fd pid r =
    register_client-ways (LeftOpen r temp_tx_fd) pid r (λ e. rw e refl)
      (λ e. rw e (refl, refl, (refl, refl, refl)))
register_client-is_open epoll_fd pid r =
    register_client-ways (LeftOpen r epoll_fd) pid r (λ e. rw e refl)
      (λ e. rw e (refl, refl, (refl, refl, refl)))
register_client-is_open tx_fd pid r =
    register_client-ways (LeftOpen r tx_fd) pid r (λ e. rw e refl)
      (λ e. rw e (refl, refl, (refl, refl, refl)))
register_client-is_open rx_fd pid r =
    register_client-ways (LeftOpen r rx_fd) pid r (λ e. rw e refl)
      (λ e. rw e (refl, refl, (refl, refl, refl)))

pub register_client-is_there :
    (f : Fifo) (pid : ℕ) (r : Registering) (b : Bool) → is_there f (register_client pid r).0 b ≡ b
register_client-is_there f pid r b =
    register_client-ways (λ x. is_there f x b ≡ b) pid r (λ e. refl)
      (λ e. (refl, refl, (refl, refl, refl)))
