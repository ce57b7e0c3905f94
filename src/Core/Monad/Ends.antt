-- ===== src/Core/Monad/Ends.antt =====
-- What holds of the value returned and the context left, by one rule for each way to build an action.
use st_device_sdk_c.Prelude.{◌≡◌, refl, Bool, true, false, if◌then◌else◌}
use st_device_sdk_c.Core.Context.{Context}
use st_device_sdk_c.Core.Monad.{World, M, ◌>>=◌}

pub record Ends {A : Type 0} (Q : A → Context → Type 0) (m : M A) : Type 0 where
  pub at : (w : World) → Q (m w).0 (m w).1.ctx

module _ {A : Type 0} {Q : A → Context → Type 0} where
  -- Each branch may use its test.
  pub Ends-if :
      (b : Bool) (m n : M A)
      → (b ≡ true → Ends Q m)
      → (b ≡ false → Ends Q n)
      → Ends Q (if b then m else n)
  Ends-if true m n km kn = km refl
  Ends-if false m n km kn = kn refl

  pub Ends-bind : {B : Type 0} (m : M B) (k : B → M A) → ((b : B) → Ends Q (k b)) → Ends Q (m >>= k)
  unfolding ◌>>=◌
  Ends-bind m k kk = record { at = λ w. (kk (m w).0).at (m w).1 }
