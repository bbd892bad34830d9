-- ===== src/FileServer/Cleanup.antt =====
-- Between registration and the end, main of task_7/homework/src/client/main_client.c only writes, and
-- cleanup_fifo of src/fifo.c only removes a FIFO.
use sem.Base.{
  ◌≡◌, refl, ◌∙◌, ap, Bool, ◌&&◌, not, Option-cases, inl, inr, List, [], ◌∷◌, ◌++◌, if-both, arith,
}
use sem.Text.{Bytes}
use sem.FileServer.Client.{send_get_command}
use sem.FileServer.Session.{
  Fifo, tx_fifo, rx_fifo, Descriptor, Effect, writes, Asked, Starting, ask, ask_all, both_removed,
  cleanup_fifo,
}
use sem.FileServer.Left.{is_open, is_there, is_open-append, is_there-append, is_fifo}

-- The requests write only.
ask_all-ways :
    (P : List Effect → Type 0) (files : List Asked)
    → P []
    → ((text : Bytes) (later : List Effect) → P later → P (writes text ∷ later))
    → P (ask_all files)
unfolding ask_all ask
ask_all-ways P [] none_left more = none_left
ask_all-ways P (a ∷ files) none_left more =
    if-both P a.stopped (λ _. none_left)
      (λ _. elim (Option-cases (send_get_command a.filename)) [
        | inl e ↦ rw (ask, e) (ask_all-ways P files none_left more)
        | inr (command, e) ↦
            rw (ask, e)
              (if-both (λ x. P (x ++ ask_all files)) a.sends
                (λ _. more command (ask_all files) (ask_all-ways P files none_left more))
                (λ _. ask_all-ways P files none_left more))
      ])

pub ask_all-is_there : (f : Fifo) (files : List Asked) (b : Bool) → is_there f (ask_all files) b ≡ b
ask_all-is_there f files b = ask_all-ways (λ x. is_there f x b ≡ b) files refl (λ text later e. e)

pub ask_all-is_open :
    (fd : Descriptor) (files : List Asked) (b : Bool) → is_open fd (ask_all files) b ≡ b
ask_all-is_open fd files b = ask_all-ways (λ x. is_open fd x b ≡ b) files refl (λ text later e. e)

pub cleanup_fifo-is_open :
    (fd : Descriptor) (c : Starting) (f : Fifo) (b : Bool) → is_open fd (cleanup_fifo c f) b ≡ b
cleanup_fifo-is_open fd c f b =
    if-both (λ x. is_open fd x b ≡ b) (c.unlinks f) (λ _. refl) (λ _. refl)

pub removed-is_open :
    (fd : Descriptor) (c : Starting) (b : Bool) → is_open fd (both_removed c) b ≡ b
removed-is_open fd c b =
    is_open-append fd (cleanup_fifo c tx_fifo) (cleanup_fifo c rx_fifo) b
    ∙ cleanup_fifo-is_open fd c rx_fifo _
    ∙ cleanup_fifo-is_open fd c tx_fifo b

pub cleanup_fifo-is_there :
    (f g : Fifo) (c : Starting) (b : Bool)
    → is_there f (cleanup_fifo c g) b ≡ (not (is_fifo f g && c.unlinks g) && b)
cleanup_fifo-is_there tx_fifo tx_fifo c b = ground arith
cleanup_fifo-is_there tx_fifo rx_fifo c b = ground arith
cleanup_fifo-is_there rx_fifo tx_fifo c b = ground arith
cleanup_fifo-is_there rx_fifo rx_fifo c b = ground arith

-- What cleanup_fifo leaves of a FIFO.
pub removed :
    (f : Fifo) (c : Starting) (b : Bool) → is_there f (both_removed c) b ≡ (not (c.unlinks f) && b)
removed f c b =
    is_there-append f (cleanup_fifo c tx_fifo) (cleanup_fifo c rx_fifo) b
    ∙ cleanup_fifo-is_there f rx_fifo c _
    ∙ ap (λ x. not (is_fifo f rx_fifo && c.unlinks rx_fifo) && x)
        (cleanup_fifo-is_there f tx_fifo c b)
    ∙ of_both f
  where
    of_both :
        (f : Fifo)
        → (not (is_fifo f rx_fifo && c.unlinks rx_fifo)
            && (not (is_fifo f tx_fifo && c.unlinks tx_fifo) && b))
          ≡ (not (c.unlinks f) && b)
    of_both tx_fifo = refl
    of_both rx_fifo = refl
