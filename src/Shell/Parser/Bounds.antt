-- ===== src/Shell/Parser/Bounds.antt =====
-- The indices that sem_1/homework/src/command_parser.c uses, against the sizes of its arrays.
use sem.Base.{
  ℕ, zero, suc, ◌-◌, ◌≤◌, ◌<◌, ◌≡◌, Option, List, [], ◌∷◌, arith, length, get_or, All, length-set,
  Bool, length-append, All-set, refl, ◌∙◌, inl, inr, none, some, leb, if-both, Option-cases, ltb,
  Bool-cases,
}
use sem.Text.{Bytes, before, tokens, equal, strchr}
use sem.Outcome.{Outcome, state, Ensures, on, out, Ensures->>=, Ensures-state}
use sem.Shell.Parser.{
  Command, CommandLine, Parse, CmdError, ok, add_argument, init_command, strdup, fix_before_tok,
  fix_after_tok, add_if_any, next_command, split_token, add_word, parse_token, parse_tokens, finish,
  parse_command_line, init_command_line, max_commands, max_args, zeroed, command, tick,
  is_argument_separator, put, count_command, pipe_separator,
}

abbrev pub Fits : Command → Type 0
Fits c = (c.argc ≡ length c.argv) × (c.argc < max_args)

pub record IsValid (o : CommandLine) : Type 0 where
  pub entries : length o.cmds ≡ max_commands
  pub fits : All Fits o.cmds

-- While the loop runs, the command being read has an entry.
abbrev Runs : Parse → Type 0
Runs p = IsValid p.out × (p.out.cmd_count < max_commands)

abbrev Ends : CmdError → Parse → Type 0
Ends e p = IsValid p.out × (p.out.cmd_count ≤ max_commands)

abbrev pub Keeps : Outcome CmdError Parse → Type 0
Keeps = Ensures Runs Ends

command-Fits : (cs : List Command) (i : ℕ) → All Fits cs → Fits (get_or cs i zeroed)
command-Fits [] i h = omega arith
command-Fits (c ∷ cs) zero h = h.0
command-Fits (c ∷ cs) (suc i) h = command-Fits cs i h.1

put-IsValid : (p : Parse) (i : ℕ) (c : Command) → IsValid p.out → Fits c → IsValid (put p i c).out
put-IsValid p i c v f = record {
  entries = length-set p.out.cmds i c ∙ v.entries;
  fits = All-set Fits p.out.cmds i c v.fits f;
}

add_argument-Keeps :
    (i : ℕ) (arg : Option Bytes) (p : Parse)
    → IsValid p.out
    → p.out.cmd_count < max_commands
    → Keeps (add_argument i arg p)
unfolding add_argument
add_argument-Keeps i arg p v h =
    let c = command p i in
    let fits = command-Fits p.out.cmds i v.fits in
    if-both Keeps (leb (max_args - 1) c.argc) (λ _. out (v, omega arith))
      λ room. on (put-IsValid p i _ v (ground (arith, fits, length-append c.argv (arg ∷ []))), h)

-- A copy leaves the table alone.
abbrev Copies : Parse → Option Bytes × Parse → Type 0
Copies p r = r.1.out ≡ p.out

add_if_any-Keeps :
    (p : Parse) (r : Option Bytes × Parse)
    → Copies p r
    → IsValid p.out
    → p.out.cmd_count < max_commands
    → Keeps (add_if_any p.out.cmd_count r)
unfolding add_if_any
add_if_any-Keeps p (none, q) e v h = on (rw e v, rw e h)
add_if_any-Keeps p (some s, q) e v h =
    add_argument-Keeps p.out.cmd_count (some s) q (rw e v) (rw e h)

finish-Keeps : (p : Parse) → IsValid p.out → p.out.cmd_count < max_commands → Keeps (finish p)
unfolding finish
finish-Keeps p v h = out (
    if-both (Ends ok) (ltb 0 (command p p.out.cmd_count).argc)
      (λ _. (record { entries = v.entries; fits = v.fits }, h)) (λ _. (v, omega arith)))

module _ (grants : ℕ → Bool) where
  init_command-Keeps :
      (i : ℕ) (p : Parse)
      → IsValid p.out
      → p.out.cmd_count < max_commands
      → Keeps (init_command grants i p)
  unfolding init_command
  init_command-Keeps i p v h =
      if-both Keeps (grants p.calls) (λ _. on (put-IsValid (tick p) i zeroed v (omega arith), h))
        (λ _. out (v, omega arith))

  next_command-Keeps :
      (p : Parse) → IsValid p.out → p.out.cmd_count < max_commands → Keeps (next_command grants p)
  unfolding next_command
  next_command-Keeps p v h =
      if-both Keeps (leb max_commands (suc p.out.cmd_count))
        (λ _. out (record { entries = v.entries; fits = v.fits }, h))
        (λ room.
          init_command-Keeps (suc p.out.cmd_count) (count_command p)
            (record { entries = v.entries; fits = v.fits }) (ground arith))

  fix_before_tok-Copies : (s : Bytes) (p : Parse) → Copies p (fix_before_tok grants s p)
  unfolding fix_before_tok strdup
  fix_before_tok-Copies [] p = refl
  fix_before_tok-Copies (c ∷ s) p = refl

  fix_after_tok-Copies : (s : Bytes) (p : Parse) → Copies p (fix_after_tok grants s p)
  unfolding fix_after_tok strdup
  fix_after_tok-Copies [] p = refl
  fix_after_tok-Copies (bar ∷ []) p = refl
  fix_after_tok-Copies (bar ∷ c ∷ s) p = refl

  split_token-Keeps :
      (tok pipe_pos : Bytes) (p : Parse)
      → IsValid p.out
      → p.out.cmd_count < max_commands
      → Keeps (split_token grants tok pipe_pos p)
  unfolding split_token
  split_token-Keeps tok pipe_pos p v h =
      Ensures->>=
        (add_if_any-Keeps p (fix_before_tok grants (before b'|' tok) p)
          (fix_before_tok-Copies (before b'|' tok) p) v h)
        λ q k. Ensures->>= (next_command-Keeps q k.0 k.1) λ r l.
          add_if_any-Keeps r (fix_after_tok grants pipe_pos r) (fix_after_tok-Copies pipe_pos r) l.0
            l.1

  parse_token-Keeps :
      (tok : Bytes) (p : Parse)
      → IsValid p.out
      → p.out.cmd_count < max_commands
      → Keeps (parse_token grants tok p)
  unfolding parse_token add_word strdup
  parse_token-Keeps tok p v h =
      if-both Keeps (equal tok pipe_separator) (λ _. next_command-Keeps p v h)
        λ _. elim (Option-cases (strchr b'|' tok)) [
          | inl e ↦ rw e (add_argument-Keeps _ _ (tick p) v h)
          | inr (pipe_pos, e) ↦ rw e (split_token-Keeps tok pipe_pos p v h)
        ]

  parse_tokens-Keeps :
      (ts : List Bytes) (p : Parse)
      → IsValid p.out
      → p.out.cmd_count < max_commands
      → Keeps (parse_tokens grants ts p)
  unfolding parse_tokens
  parse_tokens-Keeps [] p v h = on (v, h)
  parse_tokens-Keeps (t ∷ ts) p v h =
      Ensures->>= (parse_token-Keeps t p v h) (λ q k. parse_tokens-Keeps ts q k.0 k.1)

  -- Whatever the input and however memory runs out, the table keeps its 16 entries, each entry's
  -- `argc` is at most 255 and counts its arguments, and `cmd_count` is at most 16.
  pub parse_command_line-IsValid :
      (input : Bytes)
      → let p = state (parse_command_line grants input init_command_line) in
        IsValid p.out × (p.out.cmd_count ≤ max_commands)
  unfolding parse_command_line strdup init_command_line
  parse_command_line-IsValid input =
      Ensures-state (Ends ok) (λ p k. (k.0, omega arith)) (λ e p k. k) (runs input)
    where
      start : IsValid init_command_line
      start = record { entries = refl; fits = omega arith }

      runs : (input : Bytes) → Keeps (parse_command_line grants input init_command_line)
      runs input = elim (Bool-cases (grants 0)) [
        | inl e ↦
            rw (e, parse_command_line)
              (Ensures->>= (init_command-Keeps 0 _ start (omega arith)) λ q k.
                Ensures->>= (parse_tokens-Keeps (tokens is_argument_separator input) q k.0 k.1)
                  λ r l. finish-Keeps r l.0 l.1)
        | inr e ↦ rw (e, parse_command_line) (out (start, omega arith))
      ]
