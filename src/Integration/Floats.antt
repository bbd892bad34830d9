-- ===== src/Integration/Floats.antt =====
-- The numbers of type double, of which task_8/homework uses these operations.
use sem.Base.{ℕ, ◌≤◌, ◌≡◌, Bool, false, Option, some, ◌∷◌, ◌++◌, ◌==◌, length, All}
use sem.Text.{Bytes}

pub record Floats : Type 1 where
  pub Double : Type 0
  pub add : Double → Double → Double
  pub sub : Double → Double → Double
  pub mul : Double → Double → Double
  pub div : Double → Double → Double
  pub exp : Double → Double
  pub at_most : Double → Double → Bool
  -- The conversion from int and size_t.
  pub of_size : ℕ → Double
  -- %.15lf of printf, %lf of sscanf with what it leaves, and the number that comes back.
  pub show : Double → Bytes
  pub scan : Bytes → Option (Double × Bytes)
  pub rounded : Double → Double

-- What printf and sscanf do with a double that is finite: the text is read back up to a character
-- that is no part of a number, has no null byte, and at most 400 characters.
pub record IsPrinted (f : Floats) (x : f.Double) : Type 0 where
  pub reads_back :
      (rest : Bytes) → f.scan (f.show x ++ b':' ∷ rest) ≡ some (f.rounded x, b':' ∷ rest)
  pub no_null : All (λ c. (c == 0) ≡ false) (f.show x)
  pub short : length (f.show x) ≤ 400
