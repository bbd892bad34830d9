-- ===== src/Text.antt =====
-- C strings as the lists of their bytes before the terminating NUL, with the functions of
-- <string.h>, <ctype.h> and <stdio.h> that the programs call on them.
use sem.Base.{
  ℕ, zero, suc, ◌+◌, Bool, true, false, ◌&&◌, ◌||◌, List, [], ◌∷◌, ◌++◌, Option, none, some, ◌==◌,
  leb, if◌then◌else◌,
}
use Prim.Native.String.{String}
use Prim.Native.Char.{code}

abbrev pub Bytes : Type 0
Bytes = List ℕ

-- The code points of a text: its bytes, if it is ASCII.
abbrev pub codes : String → Bytes
codes String.[] = []
codes (String.◌∷◌ c s) = code c ∷ codes s

-- strcmp(a, b) == 0
unfoldable pub equal : Bytes → Bytes → Bool
equal [] [] = true
equal (x ∷ a) (y ∷ b) = x == y && equal a b
equal _ _ = false

-- strncmp(s, prefix, strlen(prefix)) == 0
unfoldable pub starts_with : Bytes → Bytes → Bool
starts_with [] s = true
starts_with (p ∷ ps) [] = false
starts_with (p ∷ ps) (c ∷ s) = p == c && starts_with ps s

-- What strchr(s, c) points at: the rest of `s` from the first `c` on.
unfoldable pub strchr : ℕ → Bytes → Option Bytes
strchr c [] = none
strchr c (x ∷ s) = if x == c then some (x ∷ s) else strchr c s

-- The bytes before the one that strchr(s, c) points at.
unfoldable pub before : ℕ → Bytes → Bytes
before c [] = []
before c (x ∷ s) = if x == c then [] else x ∷ before c s

-- How often a byte occurs.
abbrev pub count : ℕ → Bytes → ℕ
count b [] = 0
count b (c ∷ s) = (if c == b then 1 else 0) + count b s

-- isspace in the C locale
unfoldable pub is_space : ℕ → Bool
is_space c = c == b' ' || (leb 9 c && leb c 13)

-- while (isspace(*s)) s++;
unfoldable pub skip_space : Bytes → Bytes
unfolding is_space
skip_space [] = []
skip_space (c ∷ s) = if is_space c then skip_space s else c ∷ s

-- The calls strtok_r(s, seps, &save) up to NULL: the maximal runs of bytes that are no separator.
-- `cur` is the run being read.
unfoldable pub tokens_from : (ℕ → Bool) → Bytes → Bytes → List Bytes
tokens_from sep [] [] = []
tokens_from sep (x ∷ cur) [] = (x ∷ cur) ∷ []
tokens_from sep [] (c ∷ s) =
    let read = tokens_from sep (c ∷ []) s in
    let skip = tokens_from sep [] s in if sep c then skip else read
tokens_from sep (x ∷ cur) (c ∷ s) =
    let read = tokens_from sep ((x ∷ cur) ++ c ∷ []) s in
    let close = (x ∷ cur) ∷ tokens_from sep [] s in if sep c then close else read

abbrev pub tokens : (ℕ → Bool) → Bytes → List Bytes
tokens sep = tokens_from sep []

-- What a buffer holds as a C string: the bytes before the first NUL.
unfoldable pub cstr : Bytes → Bytes
cstr [] = []
cstr (c ∷ s) = if c == 0 then [] else c ∷ cstr s

-- %ns of sscanf: white space, then one to n bytes that are none; with what is left to read.
unfoldable pub word_of : ℕ → Bytes → Bytes × Bytes
unfolding is_space
word_of zero s = ([], s)
word_of (suc n) [] = ([], [])
word_of (suc n) (c ∷ s) =
    let (w, rest) = word_of n s in if is_space c then ([], c ∷ s) else (c ∷ w, rest)

unfoldable pub scan_word : ℕ → Bytes → Option (Bytes × Bytes)
unfolding skip_space word_of
scan_word n s =
    let (w, rest) = word_of n (skip_space s) in elim w [ [] ↦ none | c ∷ cs ↦ some (c ∷ cs, rest) ]

-- The loop `while ((next = strchr(line, '\n')) != NULL)` over a buffer: the lines that end in a
-- newline, and what stands behind the last one. `cur` is the line being read.
unfoldable pub lines_from : Bytes → Bytes → List Bytes × Bytes
lines_from cur [] = ([], cur)
lines_from cur (c ∷ s) =
    let (ls, rest) = lines_from [] s in
    let more = lines_from (cur ++ c ∷ []) s in if c == b'\n' then (cur ∷ ls, rest) else more

abbrev pub split_lines : Bytes → List Bytes × Bytes
split_lines = lines_from []
