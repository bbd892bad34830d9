-- ===== src/FileServer/Asking.antt =====
-- What the server of task_7/homework makes of the client's command for a file.
use sem.Base.{
  ℕ, zero, suc, ◌≤◌, ◌≡◌, refl, true, false, some, [], ◌∷◌, ◌++◌, append-nil, append_assoc, arith,
  ◌==◌, length, All, leb, length-append, take_all, ap, ◌∙◌,
}
use sem.Text.{
  Bytes, before, is_space, cstr, lines_from, word_of, codes, starts_with, scan_word, skip_space,
  split_lines,
}
use sem.FileServer.Table.{Server, Os, is_live}
use sem.FileServer.Commands.{
  start_transfer, process_get, process_client_command, process_lines, process_buffer, copy_command,
}
use sem.FileServer.Client.{send_get_command}

-- A character of a file's name that passes through the command: no white space and no null byte.
pub record IsPlain (c : ℕ) : Type 0 where
  pub no_space : is_space c ≡ false
  pub no_null : (c == 0) ≡ false

plain_no_newline : (c : ℕ) → IsPlain c → (c == b'\n') ≡ false
unfolding is_space
plain_no_newline c h = ground (arith, h.no_space)

cstr-line : (s : Bytes) → All IsPlain s → cstr (s ++ b'\n' ∷ []) ≡ s ++ b'\n' ∷ []
unfolding cstr
cstr-line [] h = refl
cstr-line (c ∷ s) h = rw (h.0.no_null, cstr-line s h.1)

lines_from-line :
    (cur s : Bytes) → All IsPlain s → lines_from cur (s ++ b'\n' ∷ []) ≡ ((cur ++ s) ∷ [], [])
unfolding lines_from
lines_from-line cur [] h = rw append-nil
lines_from-line cur (c ∷ s) h =
    rw (plain_no_newline c h.0, lines_from-line (cur ++ c ∷ []) s h.1, append_assoc cur (c ∷ []) s)

before-plain : (s : Bytes) → All IsPlain s → before b'\n' s ≡ s
unfolding before
before-plain [] h = refl
before-plain (c ∷ s) h = rw (plain_no_newline c h.0, before-plain s h.1)

word_of-plain : (n : ℕ) (s : Bytes) → All IsPlain s → length s ≤ n → word_of n s ≡ (s, [])
unfolding word_of
word_of-plain zero [] h fits = refl
word_of-plain zero (c ∷ s) h fits = absurd (omega arith)
word_of-plain (suc n) [] h fits = refl
word_of-plain (suc n) (c ∷ s) h fits = rw (h.0.no_space, word_of-plain n s h.1 (omega arith))

skip_space-plain : (c : ℕ) (s : Bytes) → IsPlain c → skip_space (c ∷ s) ≡ c ∷ s
unfolding skip_space
skip_space-plain c s h = rw h.no_space

scan_word-plain :
    (n c : ℕ) (s : Bytes)
    → All IsPlain (c ∷ s)
    → length (c ∷ s) ≤ n
    → scan_word n (c ∷ s) ≡ some (c ∷ s, [])
unfolding scan_word
scan_word-plain n c s h fits =
    let all = ap (word_of n) (skip_space-plain c s h.0) ∙ word_of-plain n (c ∷ s) h fits in
    rw (scan_word, all) (ap (λ (r : Bytes × Bytes). some (c ∷ s, r.1)) all)

copy_command-get :
    (w : Bytes)
    → All IsPlain w
    → length w ≤ 255
    → copy_command (codes "GET " ++ w) ≡ codes "GET " ++ w
unfolding copy_command before
copy_command-get w h fits = rw (take_all w 507 (omega arith), before-plain w h)

process_client_command-get :
    (os : Os) (i : ℕ) (c : ℕ) (name : Bytes) (s : Server)
    → All IsPlain (c ∷ name)
    → length (c ∷ name) ≤ 255
    → is_live s i ≡ true
    → process_client_command os i (codes "GET " ++ c ∷ name) s ≡ start_transfer os i (c ∷ name) s
unfolding process_client_command process_get starts_with
process_client_command-get os i c name s h fits live =
    rw
      (
        live,
        process_client_command,
        copy_command-get (c ∷ name) h fits,
        scan_word-plain 255 c name h fits,
      )
      refl

split_get :
    (w : Bytes)
    → All IsPlain w
    → split_lines (cstr (codes "GET " ++ (w ++ b'\n' ∷ []))) ≡ ((codes "GET " ++ w) ∷ [], [])
unfolding cstr lines_from
split_get w h = rw (cstr-line w h, lines_from-line (codes "GET ") w h)

-- For a name of 1 to 255 characters that are no white space and no null byte, the client sends a
-- command, and the server that reads it from an active client goes on with exactly that name.
pub process_buffer-send_get_command :
    (os : Os) (i : ℕ) (c : ℕ) (name : Bytes) (s : Server)
    → All IsPlain (c ∷ name)
    → length (c ∷ name) ≤ 255
    → is_live s i ≡ true
    → (command : Bytes) × (send_get_command (c ∷ name) ≡ some command)
      × (process_buffer os i command s ≡ start_transfer os i (c ∷ name) s)
unfolding send_get_command process_buffer process_lines process_client_command process_get
process_buffer-send_get_command os i c name s h fits live =
    let w = c ∷ name in
    let roomy : leb 512 (length (codes "GET " ++ (w ++ b'\n' ∷ []))) ≡ false =
      ground (arith, length-append w (b'\n' ∷ [])) in
    (
      codes "GET " ++ (w ++ b'\n' ∷ []),
      rw roomy refl,
      rw (process_buffer, split_get w h) (process_client_command-get os i c name s h fits live),
    )
