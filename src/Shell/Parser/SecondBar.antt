-- ===== src/Shell/Parser/SecondBar.antt =====
-- What sem_1/homework/src/command_parser.c does with a second bar in one token.
use sem.Base.{
  ℕ, ◌≡◌, refl, ap, ◌∙◌, false, some, [], ◌∷◌, ◌++◌, append-nil, append_assoc, arith, All,
  All-append,
}
use sem.Text.{Bytes, equal, strchr, before, is_space, tokens, tokens_from, count}
use sem.Outcome.{goes_on, ◌>>=◌, >>=_assoc}
use sem.Shell.Parser.{
  Parse, parse_token, parse_tokens, parse_command_line, init_command_line, is_argument_separator,
  pipe_separator, strdup, init_command, finish, put, zeroed, split_token,
}
use sem.Shell.Parser.Reference.{table, answer, group}
use sem.Shell.Parser.View.{always}
use sem.Shell.Parser.Split.{Resumes, tokens_step, split_step, start-View}

abbrev pub HasNoSpace : Bytes → Type 0
HasNoSpace = All (λ c. is_space c ≡ false)

separator-is_space : (c : ℕ) → is_space c ≡ false → is_argument_separator c ≡ false
unfolding is_space is_argument_separator
separator-is_space c h = ground arith

tokens_from-one :
    (c : ℕ) (cur s : Bytes)
    → HasNoSpace s
    → tokens_from is_argument_separator (c ∷ cur) s ≡ (c ∷ (cur ++ s)) ∷ []
unfolding tokens_from
tokens_from-one c cur [] h = rw append-nil
tokens_from-one c cur (x ∷ s) h =
    rw (separator-is_space x h.0) (
      tokens_from-one c (cur ++ x ∷ []) s h.1
      ∙ ap (λ l. (c ∷ l) ∷ []) (append_assoc cur (x ∷ []) s))

tokens-one :
    (c : ℕ) (s : Bytes)
    → is_space c ≡ false
    → HasNoSpace s
    → tokens is_argument_separator (c ∷ s) ≡ (c ∷ s) ∷ []
unfolding tokens_from
tokens-one c s h k = rw (separator-is_space c h) (tokens_from-one c [] s k)

first_bar :
    (x rest : Bytes)
    → count b'|' x ≡ 0
    → (strchr b'|' (x ++ b'|' ∷ rest) ≡ some (b'|' ∷ rest)) × (before b'|' (x ++ b'|' ∷ rest) ≡ x)
unfolding strchr before
first_bar [] rest h = (refl, refl)
first_bar (c ∷ x) rest h = ground (arith, first_bar x rest)

not_separator :
    (c : ℕ) (x rest : Bytes)
    → count b'|' (c ∷ x) ≡ 0
    → equal (c ∷ (x ++ b'|' ∷ rest)) pipe_separator ≡ false
unfolding equal
not_separator c x rest h = ground arith

bar_no_space : is_space b'|' ≡ false
unfolding is_space
bar_no_space = refl

-- While memory lasts, a line that is one token, with text that holds no bar before its first bar
-- and text behind it, is split at the first bar only: what follows is one argument of the second
-- command, with every further bar in it.
pub parse_command_line_second_bar :
    (c : ℕ) (x : Bytes) (d : ℕ) (rest : Bytes)
    → HasNoSpace (c ∷ x)
    → HasNoSpace (d ∷ rest)
    → count b'|' (c ∷ x) ≡ 0
    → answer (parse_command_line always (c ∷ (x ++ b'|' ∷ d ∷ rest)) init_command_line)
      ≡ table ((some (c ∷ x) ∷ []) ∷ (some (d ∷ rest) ∷ []) ∷ [])
unfolding parse_command_line strdup init_command init_command_line parse_tokens parse_token group
    Resumes
parse_command_line_second_bar c x d rest hx hr bars =
    let t : Bytes = c ∷ (x ++ b'|' ∷ d ∷ rest) in
    let spaceless =
      All-append (λ c. is_space c ≡ false) x (b'|' ∷ d ∷ rest) hx.1 (bar_no_space, hr) in
    let one = tokens-one c (x ++ b'|' ∷ d ∷ rest) hx.0 spaceless in
    let (found, front) = first_bar (c ∷ x) (d ∷ rest) bars in
    let start : Parse = put (record { out = init_command_line; calls = 2 }) 0 zeroed in
    rw (one, not_separator c x (d ∷ rest) bars, found)
      (ap answer (>>=_assoc (split_token always t (b'|' ∷ d ∷ rest) start) (λ q. goes_on q) finish)
        ∙ split_step start (λ q. goes_on q >>= finish) [] t (d ∷ rest) start-View hr
            (tokens_step [] tt tt)
        ∙ rw front)
