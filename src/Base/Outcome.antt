-- ===== src/Base/Outcome.antt =====
-- A computation that returns, or panics with a value.
pub data Result {ℓ} (E : Type ℓ) (A : Type ℓ) : Type ℓ where
  err : E → Result E A
  ok : A → Result E A

module _ {ℓ} {E A B : Type ℓ} where
  infixl 5 ◌>>=◌
  -- What follows a panic is not run.
  abbrev pub ◌>>=◌ : Result E A → (A → Result E B) → Result E B
  err e >>= k = err e
  ok a >>= k = k a
