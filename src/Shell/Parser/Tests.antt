-- ===== src/Shell/Parser/Tests.antt =====
-- Runs of the parser of sem_1/homework/src/command_parser.c.
use sem.Base.{ℕ, zero, suc, ◌≡◌, refl, true, Option, some, List, [], ◌∷◌, ◌≤◌, arith, All}
use Prim.Native.String.{String}
use sem.Text.{Bytes, codes, equal, strchr, before, skip_space, tokens_from, is_space, tokens}
use sem.Shell.Parser.Reference.{IsPlain, group, lexemes, answer, table}
use sem.Shell.Parser.View.{always}
use sem.Shell.Parser.Split.{parse_command_line-group}
use sem.Shell.Parser.SecondBar.{HasNoSpace, parse_command_line_second_bar}
use sem.Outcome.{state}
use sem.Shell.Parser.{
  Command, Parse, parse_command_line, init_command_line, is_argument_separator, strdup,
  parse_tokens, parse_token, add_argument, init_command, next_command, split_token, add_word,
  finish, add_if_any, fix_before_tok, fix_after_tok, max_commands,
}
use sem.Shell.Parser.Bounds.{IsValid, parse_command_line-IsValid}

abbrev commands_from : ℕ → List Command → List (List (Option Bytes))
commands_from n [] = []
commands_from zero (c ∷ cs) = []
commands_from (suc n) (c ∷ cs) = c.argv ∷ commands_from n cs

abbrev commands_of : Parse → List (List (Option Bytes))
commands_of p = commands_from p.out.cmd_count p.out.cmds

abbrev run : String → Parse
run s = state (parse_command_line (λ _. true) (codes s) init_command_line)

abbrev word : String → Option Bytes
word s = some (codes s)

run_pipes :
    commands_of (run "ls -l|wc | x\n")
    ≡ (word "ls" ∷ word "-l" ∷ []) ∷ (word "wc" ∷ []) ∷ (word "x" ∷ []) ∷ []
unfolding parse_command_line init_command_line tokens_from is_argument_separator equal strchr before
    skip_space strdup parse_tokens parse_token add_argument init_command next_command split_token
    add_word finish add_if_any fix_before_tok fix_after_tok
run_pipes = refl

parse_command_line-IsValid_example :
    IsValid (run "ls -l|wc\n").out × ((run "ls -l|wc\n").out.cmd_count ≤ max_commands)
parse_command_line-IsValid_example = parse_command_line-IsValid (λ _. true) (codes "ls -l|wc\n")

abbrev piped : Bytes
piped = codes "ls -l|wc\n"

plain : All IsPlain (tokens is_argument_separator piped)
unfolding tokens_from is_argument_separator is_space
plain = (
  (omega arith, (refl, (refl, tt))),
  ((omega arith, (refl, (refl, (refl, (refl, (refl, tt)))))), tt),
)

parse_command_line-group_example :
    answer (parse_command_line always piped init_command_line)
    ≡ group [] [] (lexemes (tokens is_argument_separator piped))
parse_command_line-group_example = parse_command_line-group piped plain

no_space : HasNoSpace (codes "b|c")
unfolding is_space
no_space = (refl, (refl, (refl, tt)))

no_space_a : HasNoSpace (codes "a")
unfolding is_space
no_space_a = (refl, tt)

parse_command_line_second_bar_example :
    answer (parse_command_line always (codes "a|b|c") init_command_line)
    ≡ table ((word "a" ∷ []) ∷ (word "b|c" ∷ []) ∷ [])
parse_command_line_second_bar_example =
    parse_command_line_second_bar b'a' [] b'b' (codes "|c") no_space_a no_space refl
