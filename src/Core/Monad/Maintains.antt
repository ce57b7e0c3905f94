-- ===== src/Core/Monad/Maintains.antt =====
-- Invariants of the context, by one rule for each way to build an action.
use st_device_sdk_c.Prelude.{◌≡◌, Bool, true, false, if◌then◌else◌}
use st_device_sdk_c.Core.Context.{Context}
use st_device_sdk_c.Core.Monad.{Call, Env, World, M, pure, ◌>>=◌, gets, modify, call, effect, ask}
use st_device_sdk_c.Core.Monad.Keeps.{Keeps}

pub record Maintains {A : Type 0} (P : Context → Type 0) (m : M A) : Type 0 where
  pub at : (w : World) → P w.ctx → P (m w).1.ctx

module _ {A : Type 0} {P : Context → Type 0} where
  pub Maintains-pure : (a : A) → Maintains P (pure a)
  unfolding pure
  Maintains-pure a = record { at = λ w h. h }

  pub Maintains-gets : (g : Context → A) → Maintains P (gets g)
  unfolding gets
  Maintains-gets g = record { at = λ w h. h }

  pub Maintains-if :
      (b : Bool) (m n : M A) → Maintains P m → Maintains P n → Maintains P (if b then m else n)
  Maintains-if true m n km kn = km
  Maintains-if false m n km kn = kn

  -- An action that leaves alone all that an invariant speaks of maintains it.
  pub Maintains-of_Keeps :
      {K : Type 0} (f : Context → K) (m : M A)
      → ((c d : Context) → f d ≡ f c → P c → P d)
      → Keeps f m
      → Maintains P m
  Maintains-of_Keeps f m same k = record { at = λ w h. same w.ctx (m w).1.ctx (k.at w) h }

module _ {P : Context → Type 0} where
  pub Maintains-modify :
      (g : Context → Context) → ((c : Context) → P c → P (g c)) → Maintains P (modify g)
  unfolding modify
  Maintains-modify g h = record { at = λ w p. h w.ctx p }

  pub Maintains-call : (env : Env) (c : Call) → Maintains P (call env c)
  unfolding call
  Maintains-call env c = record { at = λ w h. h }

  pub Maintains-effect : (env : Env) (c : Call) → Maintains P (effect env c)
  unfolding effect
  Maintains-effect env c = record { at = λ w h. h }

  pub Maintains-ask : (env : Env) (c : Call) → Maintains P (ask env c)
  unfolding ask
  Maintains-ask env c = record { at = λ w h. h }

module _ {A B : Type 0} {P : Context → Type 0} where
  pub Maintains-bind :
      (m : M A) (k : A → M B)
      → Maintains P m
      → ((a : A) → Maintains P (k a))
      → Maintains P (m >>= k)
  unfolding ◌>>=◌
  Maintains-bind m k km kk = record { at = λ w h. (kk (m w).0).at (m w).1 (km.at w h) }

pub ruleset maintains_rules = (
  Maintains-pure, Maintains-gets, Maintains-if, Maintains-modify, Maintains-call, Maintains-effect,
  Maintains-ask, Maintains-bind,
)
