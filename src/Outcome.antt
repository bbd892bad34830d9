-- ===== src/Outcome.antt =====
-- A C function that writes through its pointers and may return early: the state that it leaves,
-- and the code if it has returned.
use sem.Base.{◌≡◌, refl}

pub data Outcome {ℓ κ} (E : Type ℓ) (S : Type κ) : Type (ℓ ⊔ κ) where
  goes_on : S → Outcome E S
  returns : E → S → Outcome E S

module _ {ℓ κ} {E : Type ℓ} {S : Type κ} where
  infixl 5 ◌>>=◌
  abbrev pub ◌>>=◌ : Outcome E S → (S → Outcome E S) → Outcome E S
  goes_on s >>= f = f s
  returns e s >>= f = returns e s

  pub >>=_assoc :
      (m : Outcome E S) (f g : S → Outcome E S) → ((m >>= f) >>= g) ≡ (m >>= (λ s. f s >>= g))
  >>=_assoc (goes_on s) f g = refl
  >>=_assoc (returns e s) f g = refl

  -- The state that is left, whether the function has returned or not.
  abbrev pub state : Outcome E S → S
  state (goes_on s) = s
  state (returns e s) = s

-- `P` holds of the state where the function goes on, and `Q` of code and state where it returns.
pub data Ensures {ℓ κ μ ν} {E : Type ℓ} {S : Type κ} (P : S → Type μ) (Q : E → S → Type ν)
    : Outcome E S → Type (ℓ ⊔ κ ⊔ μ ⊔ ν) where
  on : {s : S} → P s → Ensures P Q (goes_on s)
  out : {e : E} {s : S} → Q e s → Ensures P Q (returns e s)

module _ {ℓ κ μ ν} {E : Type ℓ} {S : Type κ} {P : S → Type μ} {Q : E → S → Type ν} where
  pub Ensures->>= {ξ} :
      {R : S → Type ξ} {m : Outcome E S} {f : S → Outcome E S}
      → Ensures P Q m
      → ((s : S) → P s → Ensures R Q (f s))
      → Ensures R Q (m >>= f)
  Ensures->>= (on {s} h) k = k s h
  Ensures->>= (out h) k = out h

  pub Ensures-state {ξ} :
      (R : S → Type ξ) {m : Outcome E S}
      → ((s : S) → P s → R s)
      → ((e : E) (s : S) → Q e s → R s)
      → Ensures P Q m
      → R (state m)
  Ensures-state R h k (on {s} p) = h s p
  Ensures-state R h k (out {e} {s} q) = k e s q
