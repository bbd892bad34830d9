-- ===== src/FileServer/Departure.antt =====
-- What main of task_7/homework/src/client/main_client.c leaves behind.
use sem.Base.{
  ℕ, ◌≡◌, refl, ◌∙◌, ap, Bool, true, false, ◌&&◌, ◌||◌, not, List, [], ◌∷◌, ◌++◌, ◌==◌, leb,
  if-both, length,
}
use sem.Text.{codes}
use sem.FileServer.Session.{
  Fifo, tx_fifo, rx_fifo, Descriptor, preopen_fd, server_fifo_fd, temp_tx_fd, epoll_fd, tx_fd,
  rx_fd, Effect, makes, opens, closes, writes, Asked, Starting, fifo_path, register_client, ask_all,
  both_removed, cleanup_fifo, exchange, register_and_exchange, client_main,
}
use sem.FileServer.Left.{
  fd_number, is_open, is_there, is_open-append, is_there-append, register_client-is_open, is_made,
  register_client-is_there,
}
use sem.FileServer.Cleanup.{
  ask_all-is_there, ask_all-is_open, removed-is_open, cleanup_fifo-is_open, cleanup_fifo-is_there,
  removed,
}

abbrev goodbye : Starting → List Effect
goodbye c = writes (codes "DISCONNECT\n") ∷ closes tx_fd ∷ closes rx_fd ∷ both_removed c

exchange-ways :
    (P : List Effect → Type 0) (c : Starting) (files : List Asked)
    → P (opens tx_fd ∷ opens rx_fd ∷ (ask_all files ++ goodbye c))
    → P (opens tx_fd ∷ closes tx_fd ∷ both_removed c)
    → P (both_removed c)
    → P (exchange c files).0
unfolding exchange
exchange-ways P c files whole half nothing_open =
    if-both (λ (x : List Effect × ℕ). P x.0) c.opens_tx
      (λ _. if-both (λ (x : List Effect × ℕ). P x.0) c.opens_rx (λ _. whole) (λ _. half))
      (λ _. nothing_open)

exchange-is_there :
    (f : Fifo) (c : Starting) (files : List Asked) (b : Bool)
    → is_there f (exchange c files).0 b ≡ (not (c.unlinks f) && b)
exchange-is_there f c files b =
    exchange-ways (λ x. is_there f x b ≡ (not (c.unlinks f) && b)) c files
      (is_there-append f (ask_all files) (goodbye c) b
        ∙ removed f c (is_there f (ask_all files) b)
        ∙ ap (λ x. not (c.unlinks f) && x) (ask_all-is_there f files b))
      (removed f c b) (removed f c b)

through :
    (fd : Descriptor) (c : Starting) (files : List Asked) (b : Bool)
    → is_open fd (ask_all files ++ goodbye c) b ≡ is_open fd (closes tx_fd ∷ closes rx_fd ∷ []) b
through fd c files b =
    is_open-append fd (ask_all files) (goodbye c) b
    ∙ ap (is_open fd (goodbye c)) (ask_all-is_open fd files b)
    ∙ removed-is_open fd c _

exchange-is_open :
    (fd : Descriptor) (c : Starting) (files : List Asked)
    → is_open fd (exchange c files).0 false ≡ false
exchange-is_open fd c files =
    exchange-ways (λ x. is_open fd x false ≡ false) c files (through fd c files _ ∙ both_shut fd)
      (removed-is_open fd c _ ∙ tx_shut fd) (removed-is_open fd c false)
  where
    both_shut :
        (fd : Descriptor)
        → is_open fd (opens tx_fd ∷ opens rx_fd ∷ closes tx_fd ∷ closes rx_fd ∷ []) false ≡ false
    both_shut preopen_fd = refl
    both_shut server_fifo_fd = refl
    both_shut temp_tx_fd = refl
    both_shut epoll_fd = refl
    both_shut tx_fd = refl
    both_shut rx_fd = refl

    tx_shut : (fd : Descriptor) → is_open fd (opens tx_fd ∷ closes tx_fd ∷ []) false ≡ false
    tx_shut preopen_fd = refl
    tx_shut server_fifo_fd = refl
    tx_shut temp_tx_fd = refl
    tx_shut epoll_fd = refl
    tx_shut tx_fd = refl
    tx_shut rx_fd = refl

-- With both FIFOs made, registration included.
register_and_exchange-is_there :
    (f : Fifo) (pid : ℕ) (c : Starting) (files : List Asked) (b : Bool)
    → is_there f (register_and_exchange pid c files).0 b ≡ (not (c.unlinks f) && b)
unfolding register_and_exchange
register_and_exchange-is_there f pid c files b =
    let r = register_client pid c.registering in
    let before =
      ap (λ x. not (c.unlinks f) && x) (register_client-is_there f pid c.registering b) in
    if-both (λ (x : List Effect × ℕ). is_there f x.0 b ≡ (not (c.unlinks f) && b)) c.server_there
      (λ _.
        if-both (λ (x : List Effect × ℕ). is_there f x.0 b ≡ (not (c.unlinks f) && b)) r.1
          (λ _.
            is_there-append f r.0 (exchange c files).0 b ∙ exchange-is_there f c files _ ∙ before)
          (λ _. is_there-append f r.0 (both_removed c) b ∙ removed f c _ ∙ before))
      (λ _. removed f c b)

and_false : (b : Bool) → (b && false) ≡ false
and_false true = refl
and_false false = refl

register_and_exchange-is_open :
    (fd : Descriptor) (pid : ℕ) (c : Starting) (files : List Asked)
    → (fd_number fd == fd_number preopen_fd) ≡ false
    → is_open fd (register_and_exchange pid c files).0 false ≡ false
unfolding register_and_exchange
register_and_exchange-is_open fd pid c files other_fd =
    let r = register_client pid c.registering in
    let shut : is_open fd r.0 false ≡ false =
      register_client-is_open fd pid c.registering
      ∙ ap (λ x. c.registering.preopens && x) other_fd
      ∙ and_false c.registering.preopens in
    if-both (λ (x : List Effect × ℕ). is_open fd x.0 false ≡ false) c.server_there
      (λ _.
        if-both (λ (x : List Effect × ℕ). is_open fd x.0 false ≡ false) r.1
          (λ _.
            is_open-append fd r.0 (exchange c files).0 false
            ∙ ap (is_open fd (exchange c files).0) shut
            ∙ exchange-is_open fd c files)
          (λ _. is_open-append fd r.0 (both_removed c) false ∙ removed-is_open fd c _ ∙ shut))
      (λ _. removed-is_open fd c false)

abbrev IsMade : Starting → Fifo → List Effect × ℕ → Type 0
IsMade c f end = is_there f end.0 false ≡ (is_made f end.0 && not (c.unlinks f))

abbrev Left : Starting → Fifo → Descriptor → List Effect × ℕ → Type 0
Left c f fd end = IsMade c f end × (is_open fd end.0 false ≡ false)

true_and : (b : Bool) → (b && true) ≡ b
true_and true = refl
true_and false = refl

tx_alone-IsMade : (c : Starting) (f : Fifo) → IsMade c f (makes tx_fifo ∷ cleanup_fifo c tx_fifo, 1)
tx_alone-IsMade c tx_fifo =
    cleanup_fifo-is_there tx_fifo tx_fifo c true ∙ true_and (not (c.unlinks tx_fifo))
tx_alone-IsMade c rx_fifo =
    cleanup_fifo-is_there rx_fifo tx_fifo c false
    ∙ if-both (λ x. false ≡ (is_made rx_fifo x && not (c.unlinks rx_fifo))) (c.unlinks tx_fifo)
        (λ _. refl) (λ _. refl)

both-IsMade :
    (pid : ℕ) (c : Starting) (files : List Asked) (f : Fifo)
    → let (later, code) = register_and_exchange pid c files in
      IsMade c f (makes tx_fifo ∷ makes rx_fifo ∷ later, code)
both-IsMade pid c files tx_fifo =
    register_and_exchange-is_there tx_fifo pid c files true ∙ true_and (not (c.unlinks tx_fifo))
both-IsMade pid c files rx_fifo =
    register_and_exchange-is_there rx_fifo pid c files true ∙ true_and (not (c.unlinks rx_fifo))

-- Whatever the calls of the client give and whatever files it asks for, a FIFO is left behind
-- exactly where the client has made it and its unlink fails (a FIFO is taken not to be there
-- before), and every descriptor but the first one of register_client is closed.
pub client_main-left :
    (f : Fifo) (fd : Descriptor) (pid : ℕ) (c : Starting) (files : List Asked)
    → (fd_number fd == fd_number preopen_fd) ≡ false
    → let (effects, code) = client_main pid c files in
      (is_there f effects false ≡ (is_made f effects && not (c.unlinks f)))
      × (is_open fd effects false ≡ false)
unfolding client_main
client_main-left f fd pid c files other_fd =
    if-both (Left c f fd)
      (length files == 0
        || leb 256 (length (fifo_path pid (codes "/tx")))
        || leb 256 (length (fifo_path pid (codes "/rx"))))
      (λ _. (refl, refl))
      (λ _.
        if-both (Left c f fd) c.makes_tx
          (λ _.
            if-both (Left c f fd) c.makes_rx
              (λ _.
                (both-IsMade pid c files f, register_and_exchange-is_open fd pid c files other_fd))
              (λ _. (tx_alone-IsMade c f, cleanup_fifo-is_open fd c tx_fifo false)))
          (λ _. (refl, refl)))
