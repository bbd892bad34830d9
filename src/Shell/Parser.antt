-- ===== src/Shell/Parser.antt =====
-- sem_1/homework/src/command_parser.c: the table of commands and the parser of a command line.
-- `grants n` says whether the n-th call of calloc or strdup gives memory; `calls` counts them.
-- An argument is `none` where the C code stores a null pointer.
pub mod Bounds
pub mod Reference
pub mod View
pub mod Split
pub mod SecondBar
mod Tests
use sem.Base.{
  ℕ, suc, ◌+◌, Bool, true, false, ◌||◌, List, [], ◌∷◌, ◌++◌, Option, none, some, ◌==◌, leb, ltb,
  if◌then◌else◌, length, get_or, set, replicate, ◌-◌,
}
use sem.Outcome.{Outcome, goes_on, returns, ◌>>=◌}
use sem.Text.{Bytes, codes, equal, strchr, before, skip_space, tokens}

abbrev pub max_args : ℕ
max_args = 256

abbrev pub max_commands : ℕ
max_commands = 16

abbrev pub pipe_separator : Bytes
pipe_separator = b'|' ∷ []

-- ARGUMENT_SEPARATORS
unfoldable pub is_argument_separator : ℕ → Bool
is_argument_separator c = c == b' ' || c == b'\t' || c == b'\n'

pub data CmdError : Type 0 where
  ok alloc_err read_err too_many_commands too_many_args syntax_err null_ptr : CmdError

pub record Command : Type 0 where
  pub argv : List (Option Bytes)
  pub argc : ℕ

pub record CommandLine : Type 0 where
  pub cmds : List Command
  pub cmd_count : ℕ

pub record Parse : Type 0 where
  pub out : CommandLine
  pub calls : ℕ

-- A zeroed entry, as calloc leaves it.
abbrev pub zeroed : Command
zeroed = record { argv = []; argc = 0 }

pub init_command_line : CommandLine
init_command_line = record { cmds = replicate max_commands zeroed; cmd_count = 0 }

abbrev pub command : Parse → ℕ → Command
command p i = get_or p.out.cmds i zeroed

abbrev pub put : Parse → ℕ → Command → Parse
put p i c = record p { out = record { cmds = set p.out.cmds i c; cmd_count = p.out.cmd_count } }

abbrev pub tick : Parse → Parse
tick p = record p { calls = suc p.calls }

abbrev pub count_command : Parse → Parse
count_command p = record p { out = record { cmds = p.out.cmds; cmd_count = suc p.out.cmd_count } }

-- `cur` is the index of the entry that the C code points at.
pub add_argument : ℕ → Option Bytes → Parse → Outcome CmdError Parse
add_argument cur arg p =
    let c = command p cur in
    if leb (max_args - 1) c.argc
    then returns too_many_args p
    else goes_on (put p cur (record { argv = c.argv ++ arg ∷ []; argc = suc c.argc }))

-- if (arg != NULL) AddArgument(cur, arg)
pub add_if_any : ℕ → Option Bytes × Parse → Outcome CmdError Parse
add_if_any cur (none, p) = goes_on p
add_if_any cur (some s, p) = add_argument cur (some s) p

-- The last command counts if it has an argument.
pub finish : Parse → Outcome CmdError Parse
finish p = returns ok (if ltb 0 (command p p.out.cmd_count).argc then count_command p else p)

module _ (grants : ℕ → Bool) where
  pub init_command : ℕ → Parse → Outcome CmdError Parse
  init_command i p =
      if grants p.calls then goes_on (put (tick p) i zeroed) else returns alloc_err (tick p)

  -- strdup
  pub strdup : Bytes → Parse → Option Bytes × Parse
  strdup s p = (if grants p.calls then some s else none, tick p)

  -- The copy of what stands before the bar; none where that is empty, or where memory is short.
  pub fix_before_tok : Bytes → Parse → Option Bytes × Parse
  unfolding strdup
  fix_before_tok [] p = (none, p)
  fix_before_tok (c ∷ s) p = strdup (c ∷ s) p

  -- The copy of what stands behind the bar, which is the first byte of `pipe_pos`.
  pub fix_after_tok : Bytes → Parse → Option Bytes × Parse
  unfolding strdup
  fix_after_tok [] p = (none, p)
  fix_after_tok (bar ∷ []) p = (none, p)
  fix_after_tok (bar ∷ c ∷ s) p = strdup (skip_space (c ∷ s)) p

  pub next_command : Parse → Outcome CmdError Parse
  next_command p =
      let q = count_command p in
      if leb max_commands q.out.cmd_count
      then returns too_many_commands q
      else init_command q.out.cmd_count q

  -- A token that holds a bar; `pipe_pos` is what strchr gave.
  pub split_token : Bytes → Bytes → Parse → Outcome CmdError Parse
  split_token tok pipe_pos p = do
    q ← add_if_any p.out.cmd_count (fix_before_tok (before b'|' tok) p)
    r ← next_command q
    add_if_any r.out.cmd_count (fix_after_tok pipe_pos r)

  -- AddArgument(cur, strdup(tok)), with no test of what strdup gave.
  pub add_word : Bytes → Parse → Outcome CmdError Parse
  add_word tok p = let (arg, q) = strdup tok p in add_argument p.out.cmd_count arg q

  -- The body of the loop over the tokens.
  pub parse_token : Bytes → Parse → Outcome CmdError Parse
  parse_token tok p = if equal tok pipe_separator then next_command p else elim (strchr b'|' tok) [
    | some pipe_pos ↦ split_token tok pipe_pos p
    | none ↦ add_word tok p
  ]

  pub parse_tokens : List Bytes → Parse → Outcome CmdError Parse
  parse_tokens [] p = goes_on p
  parse_tokens (t ∷ ts) p = parse_token t p >>= parse_tokens ts

  pub parse_command_line : Bytes → CommandLine → Outcome CmdError Parse
  parse_command_line input out =
      let p : Parse = record { out = out; calls = 0 } in
      let (copied, q) = strdup input p in
      elim copied [
        | none ↦ returns alloc_err q
        | some copy ↦
            init_command 0 q >>= λ r. parse_tokens (tokens is_argument_separator copy) r >>= finish
      ]
