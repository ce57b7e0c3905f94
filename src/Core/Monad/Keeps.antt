-- ===== src/Core/Monad/Keeps.antt =====
-- What an action leaves as it was, by one rule for each way to build an action.
use st_device_sdk_c.Prelude.{◌≡◌, refl, ◌∙◌, Bool, true, false, if◌then◌else◌}
use st_device_sdk_c.Core.Context.{Command, Context}
use st_device_sdk_c.Core.Monad.{
  Call, Env, World, M, pure, ◌>>=◌, gets, modify, post, call, effect, ask, read_ssid,
}

-- The action `m` does not change what `f` sees of the context.
pub record Keeps {K A : Type 0} (f : Context → K) (m : M A) : Type 0 where
  pub at : (w : World) → f (m w).1.ctx ≡ f w.ctx

module _ {K A : Type 0} {f : Context → K} where
  pub Keeps-pure : (a : A) → Keeps f (pure a)
  unfolding pure
  Keeps-pure a = record { at = λ w. refl }

  pub Keeps-gets : (g : Context → A) → Keeps f (gets g)
  unfolding gets
  Keeps-gets g = record { at = λ w. refl }

  pub Keeps-if : (b : Bool) (m n : M A) → Keeps f m → Keeps f n → Keeps f (if b then m else n)
  Keeps-if true m n km kn = km
  Keeps-if false m n km kn = kn

module _ {K : Type 0} {f : Context → K} where
  pub Keeps-modify : (g : Context → Context) → ((c : Context) → f (g c) ≡ f c) → Keeps f (modify g)
  unfolding modify
  Keeps-modify g h = record { at = λ w. h w.ctx }

  pub Keeps-post : (c : Command) → Keeps f (post c)
  unfolding post
  Keeps-post c = record { at = λ w. refl }

  pub Keeps-call : (env : Env) (c : Call) → Keeps f (call env c)
  unfolding call
  Keeps-call env c = record { at = λ w. refl }

  pub Keeps-effect : (env : Env) (c : Call) → Keeps f (effect env c)
  unfolding effect
  Keeps-effect env c = record { at = λ w. refl }

  pub Keeps-ask : (env : Env) (c : Call) → Keeps f (ask env c)
  unfolding ask
  Keeps-ask env c = record { at = λ w. refl }

  pub Keeps-read_ssid : (env : Env) → Keeps f (read_ssid env)
  unfolding read_ssid
  Keeps-read_ssid env = record { at = λ w. refl }

module _ {K A B : Type 0} {f : Context → K} where
  pub Keeps-bind :
      (m : M A) (k : A → M B) → Keeps f m → ((a : A) → Keeps f (k a)) → Keeps f (m >>= k)
  unfolding ◌>>=◌
  Keeps-bind m k km kk = record { at = λ w. (kk (m w).0).at (m w).1 ∙ km.at w }

pub ruleset keeps_rules = (
  Keeps-pure, Keeps-gets, Keeps-if, Keeps-modify, Keeps-post, Keeps-call, Keeps-effect, Keeps-ask,
  Keeps-read_ssid, Keeps-bind,
)
