-- ===== src/Shell/Parser/Reference.antt =====
-- The reference for sem_1/homework/src/command_parser.c: a line is a list of words and bars, and
-- the bars part it into commands.
use sem.Base.{
  suc, ◌+◌, ◌-◌, ◌≡◌, ap, true, Option, some, List, [], ◌∷◌, ◌++◌, map, leb, ◌==◌, if◌then◌else◌,
  length, take, ◌≤◌, refl, ◌∙◌, inl, inr, false, none, append-nil, append_assoc, arith, Bool-cases,
  All,
}
use sem.Text.{Bytes, before, equal, strchr, is_space, skip_space, count}
use sem.Outcome.{Outcome, goes_on, returns}
use sem.Shell.Parser.{
  Command, Parse, CmdError, ok, too_many_args, too_many_commands, null_ptr, max_commands, max_args,
}

pub data Lexeme : Type 0 where
  word : Bytes → Lexeme
  bar : Lexeme

abbrev pub word_if : Bytes → List Lexeme
word_if [] = []
word_if (c ∷ s) = word (c ∷ s) ∷ []

-- Every bar of a token stands for itself; `cur` is the word being read.
abbrev pub lexemes_from : Bytes → Bytes → List Lexeme
lexemes_from cur [] = word_if cur
lexemes_from cur (c ∷ s) =
    let stop = word_if cur ++ bar ∷ lexemes_from [] s in
    let read = lexemes_from (cur ++ c ∷ []) s in if c == b'|' then stop else read

abbrev pub lexemes : List Bytes → List Lexeme
lexemes [] = []
lexemes (t ∷ ts) = lexemes_from [] t ++ lexemes ts

abbrev pub Argv : Type 0
Argv = List (Option Bytes)

pub data Answer : Type 0 where
  table : List Argv → Answer
  fails : CmdError → Answer

abbrev pub close_last : List Argv → Argv → List Argv
close_last done [] = done
close_last done (a ∷ cur) = done ++ (a ∷ cur) ∷ []

-- The commands that the bars part, within the limits; the last one only if it has a word.
unfoldable pub group : List Argv → Argv → List Lexeme → Answer
group done cur [] = table (close_last done cur)
group done cur (word w ∷ ls) =
    let rest = group done (cur ++ some w ∷ []) ls in
    if leb (max_args - 1) (length cur) then fails too_many_args else rest
group done cur (bar ∷ ls) =
    let rest = group (done ++ cur ∷ []) [] ls in
    if leb max_commands (suc (length done)) then fails too_many_commands else rest

abbrev pub argvs : List Command → List Argv
argvs = map (λ c. c.argv)

-- What the caller of the parser sees.
abbrev pub answer : Outcome CmdError Parse → Answer
answer (goes_on p) = fails null_ptr
answer (returns ok p) = table (argvs (take p.out.cmd_count p.out.cmds))
answer (returns e p) = fails e

-- A token that the parser reads as the shell does: at most one bar, and no \v, \f or \r.
abbrev pub IsPlain : Bytes → Type 0
IsPlain t = (count b'|' t ≤ 1) × All (λ c. is_space c ≡ false) t

pub equal_eq : (a b : Bytes) → equal a b ≡ true → a ≡ b
unfolding equal
equal_eq [] [] e = refl
equal_eq (x ∷ a) (y ∷ b) e = ground (arith, equal_eq a b)
equal_eq [] (y ∷ b) e = cc
equal_eq (x ∷ a) [] e = cc

pub skip_space-id : (s : Bytes) → All (λ c. is_space c ≡ false) s → skip_space s ≡ s
unfolding skip_space
skip_space-id [] h = refl
skip_space-id (c ∷ s) h = rw h.0

pub lexemes_from-no_bar :
    (cur s : Bytes) → strchr b'|' s ≡ none → lexemes_from cur s ≡ word_if (cur ++ s)
unfolding strchr
lexemes_from-no_bar cur [] e = rw append-nil
lexemes_from-no_bar cur (c ∷ s) e = elim (Bool-cases (c == b'|')) [
  | inl is ↦ ground (arith)
  | inr other ↦ rw other (
      lexemes_from-no_bar (cur ++ c ∷ []) s (ground arith)
      ∙ ap word_if (append_assoc cur (c ∷ []) s))
]

-- strchr finds a bar: what stands before it, and what stands behind.
lexemes_from-bar :
    (cur s r : Bytes)
    → strchr b'|' s ≡ some r
    → (rest : Bytes) × (r ≡ b'|' ∷ rest)
      × (lexemes_from cur s ≡ word_if (cur ++ before b'|' s) ++ bar ∷ lexemes_from [] rest)
      × (count b'|' s ≡ 1 + count b'|' rest)
      × (All (λ c. is_space c ≡ false) s → All (λ c. is_space c ≡ false) rest)
unfolding strchr before
lexemes_from-bar cur [] r e = cc
lexemes_from-bar cur (c ∷ s) r e = elim (Bool-cases (c == b'|')) [
  | inl is ↦ (s, ground (arith), rw (is, append-nil), rw is, λ h. h.1)
  | inr other ↦
      let (rest, here, split, counts, spaces) =
        lexemes_from-bar (cur ++ c ∷ []) s r (ground arith) in
      (
        rest,
        here,
        rw other (
            split
            ∙ ap (λ b. word_if b ++ bar ∷ lexemes_from [] rest) (append_assoc cur (c ∷ []) _)),
        rw other (omega (arith, counts)),
        λ h. spaces h.1,
      )
]

strchr-none_of_count : (s : Bytes) → count b'|' s ≡ 0 → strchr b'|' s ≡ none
unfolding strchr
strchr-none_of_count [] e = refl
strchr-none_of_count (c ∷ s) e = ground (arith, strchr-none_of_count s)

pub lexemes_from-plain :
    (t r : Bytes)
    → IsPlain t
    → strchr b'|' t ≡ some r
    → (rest : Bytes) × (r ≡ b'|' ∷ rest)
      × (lexemes_from [] t ≡ word_if (before b'|' t) ++ (bar ∷ word_if rest))
      × All (λ c. is_space c ≡ false) rest
lexemes_from-plain t r h e =
    let (rest, here, split, counts, spaces) = lexemes_from-bar [] t r e in
    let none_left = strchr-none_of_count rest (omega (arith, h.0, counts)) in
    (
      rest,
      here,
      split ∙ ap (λ l. word_if (before b'|' t) ++ bar ∷ l) (lexemes_from-no_bar [] rest none_left),
      spaces h.1,
    )
