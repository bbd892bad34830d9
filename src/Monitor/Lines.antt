-- ===== src/Monitor/Lines.antt =====
-- Which typed lines run_interactive of task_6/homework/src/daemon.c takes for a sample and for the end,
-- read off the bytes of the line.
use sem.Monitor.Interactive.{
  Request, quit, take_sample, usage, unknown, obey, chomp, restore_request, request,
}
use sem.Monitor.Commands.{Command, max_cmd_len, scan_int}
use sem.Base.{
  ◌≡◌, refl, sym, ap, ◌∙◌, Bool, true, false, [], ◌∷◌, ◌++◌, ◌-◌, ◌==◌, ◌&&◌, ◌||◌, arith, if-both,
  if◌then◌else◌, take, drop, All, Option-cases, inl, inr, Bool-cases,
}
use sem.Text.{Bytes, codes, equal, starts_with, cstr, scan_word}

-- Whether a line is this word, with or without a newline behind it: what stands in the buffer is the
-- first 255 bytes of the line, up to a null byte.
abbrev pub is_line : Bytes → Bytes → Bool
is_line word got =
    let text = cstr (take (max_cmd_len - 1) got) in equal text word || equal text (word ++ 10 ∷ [])

abbrev pub is_empty_line : Bytes → Bool
is_empty_line got = is_line [] got

abbrev pub is_end_line : Bytes → Bool
is_end_line got = is_line (codes "quit") got || is_line (codes "exit") got

abbrev pub is_sample_request : Request → Bool
is_sample_request take_sample = true
is_sample_request quit = false
is_sample_request usage = false
is_sample_request unknown = false
is_sample_request (obey cmd) = false

abbrev pub is_quit : Request → Bool
is_quit quit = true
is_quit take_sample = false
is_quit usage = false
is_quit unknown = false
is_quit (obey cmd) = false

and_false : (b : Bool) → (b && false) ≡ false
and_false true = refl
and_false false = refl

or_false : (b : Bool) → b ≡ (b || false)
or_false true = refl
or_false false = refl

and_or : (a b c : Bool) → (a && (b || c)) ≡ (a && b || a && c)
and_or true b c = refl
and_or false b c = refl

-- A word without a newline is compared with the line as it stands.
equal-chomp :
    (text word : Bytes)
    → All (λ c. (10 == c) ≡ false) word
    → equal (chomp text) word ≡ (equal text word || equal text (word ++ 10 ∷ []))
unfolding chomp equal
equal-chomp [] [] plain = refl
equal-chomp [] (w ∷ word) plain = refl
equal-chomp (c ∷ []) [] plain = one_letter (c == 10)
  where
    one_letter :
        (newline : Bool) → equal (if newline then [] else c ∷ []) [] ≡ (false || newline && true)
    one_letter true = refl
    one_letter false = refl
equal-chomp (c ∷ []) (w ∷ word) plain = elim (Bool-cases (c == 10)) [
  | inl e ↦ let same : c ≡ 10 = ground arith in rw (same, plain.0) refl
  | inr e ↦ rw e (
      or_false (c == w && equal [] word)
      ∙ ap (λ x. c == w && equal [] word || x) (sym (and_no word)))
]
  where
    and_no : (word : Bytes) → (c == w && equal [] (word ++ 10 ∷ [])) ≡ false
    and_no [] = and_false (c == w)
    and_no (v ∷ word) = and_false (c == w)
equal-chomp (c ∷ d ∷ s) [] plain = sym (and_false (c == 10))
equal-chomp (c ∷ d ∷ s) (w ∷ word) plain =
    ap (λ x. c == w && x) (equal-chomp (d ∷ s) word plain.1)
    ∙ and_or (c == w) (equal (d ∷ s) word) (equal (d ∷ s) (word ++ 10 ∷ []))

restore_request-ways :
    (P : Request → Type 0) (garbage : Command) (rest : Bytes)
    → ((cmd : Command) → P (obey cmd))
    → P usage
    → P (restore_request garbage rest)
unfolding restore_request
restore_request-ways P garbage rest told bad =
    elim (Option-cases (scan_word (max_cmd_len - 1) rest)) [
      | inl e ↦ rw (restore_request, e) bad
      | inr ((name, behind), e) ↦ elim (Option-cases (scan_int behind)) [
        | inl n ↦ rw (restore_request, e, n) bad
        | inr (n, found) ↦ rw (restore_request, e, found) (told _)
      ]
    ]

request-ways :
    (P : Request → Type 0) (garbage : Command) (input : Bytes)
    → let ending = equal input (codes "quit") || equal input (codes "exit") in
      (ending ≡ true → P quit)
      → (ending ≡ false → ((cmd : Command) → P (obey cmd)) × P usage × P unknown)
      → (ending ≡ false → equal input [] ≡ true → P take_sample)
      → P (request garbage input)
unfolding request
request-ways P garbage input ended told sampled =
    if-both P (equal input (codes "quit") || equal input (codes "exit")) ended (λ e.
      let (obeyed, bad, strange) = told e in
      if-both P (starts_with (codes "show_diff") input) (λ _. obeyed _)
        (λ _.
          if-both P (starts_with (codes "show_k_diffs") input) (λ _. obeyed _)
            (λ _.
              if-both P (starts_with (codes "set_pid") input) (λ _. obeyed _)
                (λ _.
                  if-both P (starts_with (codes "set_period") input) (λ _. obeyed _)
                    (λ _.
                      if-both P (equal input (codes "status")) (λ _. obeyed _)
                        (λ _. if-both P (equal input []) (sampled e) (λ _.
                          if-both P (starts_with (codes "restore") input)
                            (λ _. restore_request-ways P garbage (drop 7 input) obeyed bad)
                            (λ _. strange))))))))

request-is_quit :
    (garbage : Command) (input : Bytes)
    → is_quit (request garbage input) ≡ (equal input (codes "quit") || equal input (codes "exit"))
request-is_quit garbage input =
    request-ways (λ r. is_quit r ≡ (equal input (codes "quit") || equal input (codes "exit")))
      garbage input (λ e. sym e) (λ e. (λ cmd. sym e, sym e, sym e)) (λ e empty. sym e)

request-is_sample_request :
    (garbage : Command) (input : Bytes) → is_sample_request (request garbage input) ≡ equal input []
unfolding request equal starts_with
request-is_sample_request garbage [] = refl
request-is_sample_request garbage (c ∷ s) =
    request-ways (λ r. is_sample_request r ≡ false) garbage (c ∷ s) (λ e. refl)
      (λ e. (λ cmd. refl, refl, refl)) (λ e empty. ground (arith, empty))

abbrev pub typed : Bytes → Bytes
typed got = chomp (cstr (take (max_cmd_len - 1) got))

-- A line takes a sample exactly where it is empty.
pub request-is_empty_line :
    (garbage : Command) (got : Bytes)
    → is_sample_request (request garbage (typed got)) ≡ is_empty_line got
request-is_empty_line garbage got =
    request-is_sample_request garbage (typed got)
    ∙ equal-chomp (cstr (take (max_cmd_len - 1) got)) [] tt

-- And it ends the loop exactly where it is one of the two words.
pub request-is_end_line :
    (garbage : Command) (got : Bytes) → is_quit (request garbage (typed got)) ≡ is_end_line got
request-is_end_line garbage got =
    let text = cstr (take (max_cmd_len - 1) got) in
    request-is_quit garbage (typed got)
    ∙ ap (λ x. x || equal (typed got) (codes "exit"))
        (equal-chomp text (codes "quit") (refl, (refl, (refl, (refl, tt)))))
    ∙ ap (λ x. is_line (codes "quit") got || x)
        (equal-chomp text (codes "exit") (refl, (refl, (refl, (refl, tt)))))
