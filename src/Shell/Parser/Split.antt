-- ===== src/Shell/Parser/Split.antt =====
-- The parser of sem_1/homework/src/command_parser.c against the reference, token by token.
use sem.Base.{
  ℕ, suc, ◌≡◌, ap, Bool, some, List, [], ◌∷◌, ◌++◌, if◌then◌else◌, length, get_elem?, take,
  get_or-get_elem?, refl, ◌∙◌, inl, inr, false, append_assoc, map-append, arith, Bool-cases,
  take-suc, All, sym, subst, ◌≢◌, Option-cases, if-both, ltb, lt→ltb,
}
use sem.Text.{Bytes, before, tokens, equal, strchr, is_space, tokens_from}
use sem.Outcome.{Outcome, returns, ◌>>=◌, >>=_assoc}
use sem.Shell.Parser.{
  Parse, CmdError, ok, init_command, strdup, fix_before_tok, fix_after_tok, add_if_any,
  next_command, split_token, add_word, parse_token, parse_tokens, finish, parse_command_line,
  init_command_line, zeroed, tick, is_argument_separator, pipe_separator, count_command, put,
}
use sem.Shell.Parser.Reference.{
  Lexeme, bar, word_if, lexemes_from, lexemes, Argv, table, group, argvs, answer, IsPlain, equal_eq,
  skip_space-id, lexemes_from-no_bar, lexemes_from-plain,
}
use sem.Shell.Parser.View.{View, always, word_step, bar_step}

module _ {done : List Argv} {cur : Argv} (p : Parse) (f : Parse → Outcome CmdError Parse)
    (ls : List Lexeme) (v : View done cur p.out) where
  -- The words that a copy adds: none where it would be empty.
  copy_step :
      (w : Bytes)
      → ((new : Argv) (q : Parse) → View done new q.out → answer (f q) ≡ group done new ls)
      → answer (add_if_any p.out.cmd_count (fix_before_tok always w p) >>= f)
        ≡ group done cur (word_if w ++ ls)
  unfolding add_if_any fix_before_tok strdup
  copy_step [] k = k cur p v
  copy_step (c ∷ s) k = word_step (tick p) f ls v (c ∷ s) (k _)

fix_after_tok-fix_before_tok :
    (rest : Bytes) (p : Parse)
    → All (λ c. is_space c ≡ false) rest
    → fix_after_tok always (b'|' ∷ rest) p ≡ fix_before_tok always rest p
unfolding fix_after_tok fix_before_tok strdup
fix_after_tok-fix_before_tok [] p h = refl
fix_after_tok-fix_before_tok (c ∷ s) p h = rw (skip_space-id (c ∷ s) h)

unfoldable pub Resumes : (Parse → Outcome CmdError Parse) → List Lexeme → Type 0
Resumes f ls =
    (done : List Argv) (cur : Argv) (q : Parse)
    → View done cur q.out
    → answer (f q) ≡ group done cur ls

pub split_step :
    {done : List Argv} {cur : Argv} (p : Parse) (f : Parse → Outcome CmdError Parse)
    (ls : List Lexeme) (t rest : Bytes)
    → View done cur p.out
    → All (λ c. is_space c ≡ false) rest
    → Resumes f ls
    → answer (split_token always t (b'|' ∷ rest) p >>= f)
      ≡ group done cur (word_if (before b'|' t) ++ bar ∷ (word_if rest ++ ls))
unfolding split_token Resumes
split_step p f ls t rest v h k =
    ap answer (>>=_assoc (add_if_any p.out.cmd_count (fix_before_tok always (before b'|' t) p)) _ f)
    ∙ copy_step p _ (bar ∷ (word_if rest ++ ls)) v (before b'|' t) λ new q vq.
      ap answer (>>=_assoc (next_command always q) _ f)
      ∙ bar_step q _ (word_if rest ++ ls) vq λ r vr.
        rw (fix_after_tok-fix_before_tok rest r h) (copy_step r f ls vr rest (λ n s vs. k _ n s vs))

pub add_word_step :
    {done : List Argv} {cur : Argv} (p : Parse) (f : Parse → Outcome CmdError Parse)
    (ls : List Lexeme) (t : Bytes)
    → View done cur p.out
    → t ≢ []
    → Resumes f ls
    → answer (add_word always t p >>= f) ≡ group done cur (word_if t ++ ls)
unfolding add_word strdup Resumes
add_word_step p f ls [] v ne k = absurd (ne refl)
add_word_step p f ls (c ∷ s) v ne k = word_step (tick p) f ls v (c ∷ s) (k _ _)

token_step :
    {done : List Argv} {cur : Argv} (p : Parse) (f : Parse → Outcome CmdError Parse)
    (ls : List Lexeme) (t : Bytes)
    → View done cur p.out
    → IsPlain t
    → t ≢ []
    → Resumes f ls
    → answer (parse_token always t p >>= f) ≡ group done cur (lexemes_from [] t ++ ls)
unfolding parse_token Resumes
token_step p f ls t v h ne k = elim (Bool-cases (equal t pipe_separator)) [
  | inl is ↦ rw (is, equal_eq t pipe_separator is) (bar_step p f ls v (λ q vq. k _ _ q vq))
  | inr other ↦ elim (Option-cases (strchr b'|' t)) [
    | inl e ↦ rw (other, e, lexemes_from-no_bar [] t e) (add_word_step p f ls t v ne k)
    | inr (r, e) ↦
        let (rest, here, split, spaces) = lexemes_from-plain t r h e in
        rw (other, e, here, split, append_assoc) (split_step p f ls t rest v spaces k)
  ]
]

-- The last entry counts if it has an argument.
finish_step : Resumes finish []
unfolding Resumes finish group
finish_step done cur q v =
    rw (get_or-get_elem? q.out.cmds q.out.cmd_count zeroed _ at_count) (closes cur v)
  where
    at_count :
        get_elem? q.out.cmds q.out.cmd_count ≡ some (record { argv = cur; argc = length cur })
    at_count =
        subst (λ n. get_elem? q.out.cmds n ≡ some (record { argv = cur; argc = length cur }))
          (sym v.counted) v.here

    closes :
        (cur : Argv)
        → View done cur q.out
        → answer (returns ok (if ltb 0 (length cur) then count_command q else q))
          ≡ group done cur []
    closes [] v = ap table (ap (λ n. argvs (take n q.out.cmds)) v.counted ∙ v.front)
    closes (a ∷ cur) v = rw (lt→ltb 0 (suc (length cur)) (omega arith)) (
        ap table (
          ap (λ n. argvs (take (suc n) q.out.cmds)) v.counted
          ∙ ap argvs (take-suc (length done) q.out.cmds _ v.here)
          ∙ map-append _ (take (length done) q.out.cmds) _
          ∙ ap (λ (l : List Argv). l ++ (a ∷ cur) ∷ []) v.front))

pub tokens_step :
    (ts : List Bytes)
    → All (λ t. t ≢ []) ts
    → All IsPlain ts
    → Resumes (λ q. parse_tokens always ts q >>= finish) (lexemes ts)
unfolding Resumes parse_tokens
tokens_step [] ne h done cur q v = unfold Resumes in finish_step done cur q v
tokens_step (t ∷ ts) ne h done cur q v =
    ap answer (>>=_assoc (parse_token always t q) (parse_tokens always ts) finish)
    ∙ token_step q _ (lexemes ts) t v h.0 ne.0 (tokens_step ts ne.1 h.1)

tokens_from-ne-nil : (sep : ℕ → Bool) (cur s : Bytes) → All (λ t. t ≢ []) (tokens_from sep cur s)
unfolding tokens_from
tokens_from-ne-nil sep [] [] = tt
tokens_from-ne-nil sep (x ∷ cur) [] = ((λ e. cc), tt)
tokens_from-ne-nil sep [] (c ∷ s) =
    if-both (All (λ t. t ≢ [])) (sep c) (λ _. tokens_from-ne-nil sep [] s)
      (λ _. tokens_from-ne-nil sep (c ∷ []) s)
tokens_from-ne-nil sep (x ∷ cur) (c ∷ s) =
    if-both (All (λ t. t ≢ [])) (sep c) (λ _. ((λ e. cc), tokens_from-ne-nil sep [] s))
      (λ _. tokens_from-ne-nil sep (x ∷ (cur ++ c ∷ [])) s)

-- The table with its first entry made.
pub start-View : View [] [] (put (record { out = init_command_line; calls = 2 }) 0 zeroed).out
unfolding init_command_line
start-View = record {
  counted = refl;
  entries = refl;
  room = omega arith;
  front = refl;
  here = refl;
}

-- While memory lasts, and if each token is plain (at most one bar, no \v, \f or \r), the parser
-- answers as the reference does: the same commands with the same arguments, and past 255 arguments
-- or 16 commands the same error.
pub parse_command_line-group :
    (input : Bytes)
    → All IsPlain (tokens is_argument_separator input)
    → answer (parse_command_line always input init_command_line)
      ≡ group [] [] (lexemes (tokens is_argument_separator input))
unfolding parse_command_line strdup init_command init_command_line
parse_command_line-group input h =
    unfold Resumes in
    tokens_step (tokens is_argument_separator input)
      (tokens_from-ne-nil is_argument_separator [] input) h [] [] _ start-View
