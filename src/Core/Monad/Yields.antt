-- ===== src/Core/Monad/Yields.antt =====
-- What holds of the value that an action returns, by one rule for each way to build an action.
use st_device_sdk_c.Prelude.{◌≡◌, refl, Bool, true, false, if◌then◌else◌}
use st_device_sdk_c.Core.Monad.{World, M, pure, ◌>>=◌}

pub record Yields {A : Type 0} (P : A → Type 0) (m : M A) : Type 0 where
  pub at : (w : World) → P (m w).0

module _ {A : Type 0} {P : A → Type 0} where
  pub Yields-pure : (a : A) → P a → Yields P (pure a)
  unfolding pure
  Yields-pure a h = record { at = λ w. h }

  -- Each branch may use its test.
  pub Yields-if :
      (b : Bool) (m n : M A)
      → (b ≡ true → Yields P m)
      → (b ≡ false → Yields P n)
      → Yields P (if b then m else n)
  Yields-if true m n km kn = km refl
  Yields-if false m n km kn = kn refl

module _ {A B : Type 0} {P : B → Type 0} where
  pub Yields-bind : (m : M A) (k : A → M B) → ((a : A) → Yields P (k a)) → Yields P (m >>= k)
  unfolding ◌>>=◌
  Yields-bind m k kk = record { at = λ w. (kk (m w).0).at (m w).1 }

pub ruleset yields_rules = (Yields-pure, Yields-if, Yields-bind)
