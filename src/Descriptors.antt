-- ===== src/Descriptors.antt =====
-- The table of open files of a process: what stands behind each number, as open, pipe, close and
-- dup2 leave it.
use sem.Base.{ℕ, suc, Option, none, some, List, [], ◌∷◌, get_elem?, set}

abbrev pub Table {ℓ} : Type ℓ → Type ℓ
Table A = List (Option A)

module _ {ℓ} {A : Type ℓ} where
  -- open() and pipe() give the lowest number that is free.
  unfoldable pub open_lowest : A → Table A → ℕ × Table A
  open_lowest o [] = (0, some o ∷ [])
  open_lowest o (none ∷ t) = (0, some o ∷ t)
  open_lowest o (some x ∷ t) = let (n, rest) = open_lowest o t in (suc n, some x ∷ rest)

  -- close(); a number that is not open is an error, which the programs do not look at.
  abbrev pub close_at : ℕ → Table A → Table A
  close_at n t = set t n none

  abbrev pub object_at : Table A → ℕ → Option A
  object_at t n = elim (get_elem? t n) [ none ↦ none | some e ↦ e ]

  -- dup2() of a number that is open to another that is
  abbrev pub dup2 : ℕ → ℕ → Table A → Table A
  dup2 old new t = set t new (object_at t old)

  -- How many files are open.
  abbrev pub open_count : Table A → ℕ
  open_count [] = 0
  open_count (none ∷ t) = open_count t
  open_count (some x ∷ t) = suc (open_count t)
