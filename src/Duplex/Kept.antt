-- ===== src/Duplex/Kept.antt =====
-- How much of parent.txt sem_2/homework/src/duplex_pipe.c copies, in chunks of MAX_BUF_SIZE.
use sem.Duplex.Processes.{max_buf_size}
use sem.Base.{
  ℕ, ◌+◌, ◌-◌, ◌*◌, ◌%◌, ◌≤◌, ◌<◌, ◌≡◌, sym, ap, ◌∙◌, ◌≢◌, ◌++◌, arith, length, take, drop,
  take-add, length-take, length-drop, take_all,
}
use sem.Text.{Bytes}
use native.Mathlib.Decide.{dec_lt}

-- How much of a file of `n` bytes is copied.
abbrev pub kept : ℕ → ℕ
kept n = n - (n % (2 * max_buf_size) - max_buf_size)

kept_below : (n : ℕ) → n ≤ max_buf_size → kept n ≡ n
kept_below n h = omega arith

kept_between : (n : ℕ) → max_buf_size ≤ n → n < 2 * max_buf_size → kept n ≡ max_buf_size
kept_between n h k = omega arith

kept_above :
    (n : ℕ) → kept (max_buf_size + (max_buf_size + n)) ≡ max_buf_size + (max_buf_size + kept n)
kept_above n = omega arith

second_length :
    (s : Bytes)
    → 2 * max_buf_size ≤ length s
    → length (take max_buf_size (drop max_buf_size s)) ≡ length (take max_buf_size s)
second_length s h = omega (
  arith,
  length-take max_buf_size s,
  length-take max_buf_size (drop max_buf_size s),
  length-drop max_buf_size s,
)

pub take-kept_short :
    (s : Bytes)
    → length (take max_buf_size (drop max_buf_size s)) ≢ length (take max_buf_size s)
    → take (kept (length s)) s ≡ take max_buf_size s
take-kept_short s other = elim (dec_lt (length s) max_buf_size) [
  | yes below ↦
      ap (λ k. take k s) (kept_below (length s) (omega arith))
      ∙ take_all s (length s) (omega arith)
      ∙ sym (take_all s max_buf_size (omega arith))
  | no above ↦ elim (dec_lt (length s) (2 * max_buf_size)) [
    | yes h ↦ ap (λ k. take k s) (kept_between (length s) (omega arith) h)
    | no h ↦ absurd (other (second_length s (omega arith)))
  ]
]

pub take-kept_full :
    (s : Bytes)
    → length (take max_buf_size s) ≢ 0
    → length (take max_buf_size (drop max_buf_size s)) ≡ length (take max_buf_size s)
    → let rest = drop max_buf_size (drop max_buf_size s) in
      take (kept (length s)) s
      ≡ take max_buf_size s
        ++ (take max_buf_size (drop max_buf_size s) ++ take (kept (length rest)) rest)
take-kept_full s some_read same =
    let rest = drop max_buf_size (drop max_buf_size s) in
    let size : length s ≡ max_buf_size + (max_buf_size + length rest) = omega (
      arith,
      length-take max_buf_size s,
      length-take max_buf_size (drop max_buf_size s),
      length-drop max_buf_size s,
      length-drop max_buf_size (drop max_buf_size s),
    ) in
    ap (λ k. take k s) (ap kept size ∙ kept_above (length rest))
    ∙ take-add max_buf_size (max_buf_size + kept (length rest)) s
    ∙ ap (λ r. take max_buf_size s ++ r)
        (take-add max_buf_size (kept (length rest)) (drop max_buf_size s))
