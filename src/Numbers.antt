-- ===== src/Numbers.antt =====
-- The decimal numbers that printf writes for %d, %ld and %zu, and that sscanf reads for %zu.
use sem.Base.{
  ℕ, zero, suc, ◌+◌, ◌-◌, ◌*◌, ◌/◌, ◌%◌, ◌^◌, ◌<◌, min, ◌≡◌, refl, sym, ap, ◌∙◌, inl, inr, Bool,
  true, false, ◌&&◌, Option, none, some, [], ◌∷◌, ◌++◌, arith, ltb, leb, ◌==◌, if◌then◌else◌,
  ltb→lt, Bool-cases, ◌≤◌, lt→ltb, length, All,
}
use sem.Text.{Bytes, skip_space, is_space}
use native.Mathlib.Nat.{pow-suc}

-- The digits of `n` in front of `acc`. `fuel` bounds the digits: `n < fuel` is enough.
unfoldable pub decimal_onto : ℕ → ℕ → Bytes → Bytes
decimal_onto zero n acc = acc
decimal_onto (suc fuel) n acc =
    let more = decimal_onto fuel (n / 10) ((48 + n % 10) ∷ acc) in
    if ltb n 10 then (48 + n) ∷ acc else more

unfoldable pub decimal : ℕ → Bytes
unfolding decimal_onto
decimal n = decimal_onto (suc n) n []

abbrev pub is_digit : ℕ → Bool
is_digit c = leb 48 c && leb c 57

-- The digits at the front of a text, read behind the value `v`.
unfoldable pub read_digits : ℕ → Bytes → ℕ × Bytes
read_digits v [] = (v, [])
read_digits v (c ∷ s) =
    let more = read_digits (v * 10 + (c - 48)) s in if is_digit c then more else (v, c ∷ s)

-- SIZE_MAX + 1
abbrev pub size_mod : ℕ
size_mod = 2 ^ 64

-- At least one digit; a value past SIZE_MAX becomes SIZE_MAX.
unfoldable pub scan_digits : Bytes → Option (ℕ × Bytes)
scan_digits [] = none
scan_digits (c ∷ s) =
    let (v, rest) = read_digits 0 (c ∷ s) in
    if is_digit c then some (min v (size_mod - 1), rest) else none

-- A minus sign negates in the machine's arithmetic.
unfoldable pub scan_signed : Bytes → Option (ℕ × Bytes)
unfolding scan_digits
scan_signed [] = none
scan_signed (c ∷ s) =
    if c == b'-'
    then elim (scan_digits s) [
      | none ↦ none
      | some (v, rest) ↦ some ((size_mod - v) % size_mod, rest)
    ]
    else if c == b'+'
    then scan_digits s
    else scan_digits (c ∷ s)

-- %zu: white space, a sign, digits.
unfoldable pub scan_size : Bytes → Option (ℕ × Bytes)
unfolding scan_signed
scan_size s = scan_signed (skip_space s)

abbrev pub StopsDigits : Bytes → Type 0
StopsDigits [] = Unit
StopsDigits (c ∷ s) = is_digit c ≡ false

read_digits-stop : (v : ℕ) (s : Bytes) → StopsDigits s → read_digits v s ≡ (v, s)
unfolding read_digits
read_digits-stop v [] h = refl
read_digits-stop v (c ∷ s) h = rw h

read_digit :
    (v d : ℕ) (s : Bytes) → d < 10 → read_digits v ((48 + d) ∷ s) ≡ read_digits (v * 10 + d) s
unfolding read_digits
read_digit v d s h =
    let digit : is_digit (48 + d) ≡ true = ground arith in
    let value : 48 + d - 48 ≡ d = omega arith in rw (digit, value)

read_digits-decimal_onto :
    (fuel n : ℕ) (acc : Bytes)
    → n < fuel
    → read_digits 0 (decimal_onto fuel n acc) ≡ read_digits n acc
unfolding decimal_onto
read_digits-decimal_onto zero n acc h = elim h [ ]
read_digits-decimal_onto (suc fuel) n acc h = elim (Bool-cases (ltb n 10)) [
  | inl small ↦
      rw small (read_digit 0 n acc (ltb→lt n 10 small) ∙ ap (λ v. read_digits v acc) (omega arith))
  | inr large ↦ rw large (
      read_digits-decimal_onto fuel (n / 10) ((48 + n % 10) ∷ acc) (ground arith)
      ∙ read_digit (n / 10) (n % 10) acc (omega arith)
      ∙ ap (λ v. read_digits v acc) (omega arith))
]

-- The first byte of a number is a digit.
decimal_onto-digit :
    (fuel n : ℕ) (acc : Bytes)
    → n < fuel
    → (c : ℕ) × (s : Bytes) × (decimal_onto fuel n acc ≡ c ∷ s) × (is_digit c ≡ true)
unfolding decimal_onto
decimal_onto-digit zero n acc h = elim h [ ]
decimal_onto-digit (suc fuel) n acc h = elim (Bool-cases (ltb n 10)) [
  | inl small ↦ (48 + n, acc, rw small, ground (arith))
  | inr large ↦
      let (c, s, e, d) = decimal_onto-digit fuel (n / 10) ((48 + n % 10) ∷ acc) (ground arith) in
      (c, s, rw large e, d)
]

decimal_onto-append :
    (fuel n : ℕ) (acc rest : Bytes)
    → decimal_onto fuel n acc ++ rest ≡ decimal_onto fuel n (acc ++ rest)
unfolding decimal_onto
decimal_onto-append zero n acc rest = refl
decimal_onto-append (suc fuel) n acc rest = elim (Bool-cases (ltb n 10)) [
  | inl small ↦ rw small
  | inr large ↦ rw large (decimal_onto-append fuel (n / 10) ((48 + n % 10) ∷ acc) rest)
]

digit_is_plain :
    (c : ℕ)
    → is_digit c ≡ true
    → (is_space c ≡ false) × ((c == b'-') ≡ false) × ((c == b'+') ≡ false)
unfolding is_space
digit_is_plain c h = (ground arith, ground arith, ground arith)

scan_size-digits :
    (c : ℕ) (s : Bytes) (n : ℕ) (rest : Bytes)
    → is_digit c ≡ true
    → read_digits 0 (c ∷ s) ≡ (n, rest)
    → n < size_mod
    → scan_size (c ∷ s) ≡ some (n, rest)
unfolding scan_size skip_space is_space
scan_size-digits c s n rest d e h =
    let (solid, minus, plus) = digit_is_plain c d in
    let small : min n (size_mod - 1) ≡ n = omega arith in rw (solid, minus, plus, d, e, small)

-- What %zu reads of a number that was printed, and leaves.
pub scan_size-decimal :
    (n : ℕ) (rest : Bytes)
    → n < size_mod
    → StopsDigits rest
    → scan_size (decimal n ++ rest) ≡ some (n, rest)
unfolding decimal
scan_size-decimal n rest h stop =
    let (c, s, e, d) = decimal_onto-digit (suc n) n rest (omega arith) in
    rw (decimal_onto-append (suc n) n [] rest, e)
      (scan_size-digits c s n rest d
        (ap (read_digits 0) (sym e)
          ∙ read_digits-decimal_onto (suc n) n rest (omega arith)
          ∙ read_digits-stop n rest stop)
        h)

-- A printed number begins with a digit, and its digits are read as the number.
pub read_digits-decimal :
    (n : ℕ) (rest : Bytes)
    → StopsDigits rest
    → (c : ℕ) × (s : Bytes) × (decimal n ++ rest ≡ c ∷ s)
      × (is_digit c ≡ true)
      × (read_digits 0 (c ∷ s) ≡ (n, rest))
unfolding decimal
read_digits-decimal n rest stop =
    let (c, s, e, d) = decimal_onto-digit (suc n) n rest (omega arith) in
    (
      c,
      s,
      decimal_onto-append (suc n) n [] rest ∙ e,
      d,
      ap (read_digits 0) (sym e)
          ∙ read_digits-decimal_onto (suc n) n rest (omega arith)
          ∙ read_digits-stop n rest stop,
    )

-- A number below 10 ^ k has at most k digits, and at least one.
pub length-decimal_onto :
    (fuel k n : ℕ) (acc : Bytes)
    → n < 10 ^ k
    → 0 < k
    → length (decimal_onto fuel n acc) ≤ k + length acc
unfolding decimal_onto
length-decimal_onto zero k n acc h p = omega arith
length-decimal_onto (suc fuel) zero n acc h p = elim p [ ]
length-decimal_onto (suc fuel) (suc zero) n acc h p =
    let small : ltb n 10 ≡ true = lt→ltb n 10 h in rw small (omega arith)
length-decimal_onto (suc fuel) (suc (suc k)) n acc h p = elim (Bool-cases (ltb n 10)) [
  | inl small ↦ rw small (omega arith)
  | inr large ↦ rw large (
      let less : n / 10 < 10 ^ suc k = omega (arith, rw (pow-suc 10 (suc k)) at h) in
      omega
        (arith, length-decimal_onto fuel (suc k) (n / 10) ((48 + n % 10) ∷ acc) less (omega arith)))
]

pub decimal_onto-All :
    (fuel n : ℕ) (acc : Bytes)
    → n < fuel
    → All (λ c. is_digit c ≡ true) acc
    → All (λ c. is_digit c ≡ true) (decimal_onto fuel n acc)
unfolding decimal_onto
decimal_onto-All zero n acc h a = elim h [ ]
decimal_onto-All (suc fuel) n acc h a = elim (Bool-cases (ltb n 10)) [
  | inl small ↦ rw small ((ground arith), a)
  | inr large ↦
      rw large
        (decimal_onto-All fuel (n / 10) ((48 + n % 10) ∷ acc) (ground arith) (ground arith, a))
]

-- What holds of every digit holds of a number in decimal.
module _ (P : ℕ → Type 0) (of_digit : (c : ℕ) → is_digit c ≡ true → P c) where
  All-digits : (s : Bytes) → All (λ c. is_digit c ≡ true) s → All P s
  All-digits [] a = tt
  All-digits (c ∷ s) a = (of_digit c a.0, All-digits s a.1)

pub decimal-All :
    (P : ℕ → Type 0) → ((c : ℕ) → is_digit c ≡ true → P c) → (n : ℕ) → All P (decimal n)
unfolding decimal
decimal-All P of n = All-digits P of (decimal n) (decimal_onto-All (suc n) n [] (omega arith) tt)

pub length-decimal : (n : ℕ) → n < size_mod → length (decimal n) ≤ 20
unfolding decimal
length-decimal n h = omega (arith, length-decimal_onto (suc n) 20 n [] (omega arith) (omega arith))
