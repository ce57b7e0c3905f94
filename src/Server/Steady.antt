-- ===== src/Server/Steady.antt =====
-- The MQTT clients that there are: made by st_mqtt_create, ended by st_mqtt_destroy. Actions that
-- neither make one nor put one into the context (src/easysetup/iot_easysetup_st_mqtt.c).
use st_device_sdk_c.Prelude.{
  ℕ, ◌+◌, ◌≡◌, ◌∙◌, arith, Bool, true, false, ◌&&◌, ◌==◌, if◌then◌else◌, List, [], ◌∷◌, Option,
  none, some,
}
use st_device_sdk_c.Core.Context.{ConnectType, registration, communication, Command, Context}
use st_device_sdk_c.Core.Monad.{
  Call, Env, World, M, pure, ◌>>=◌, gets, modify, post, call, effect, ask, mqtt_create,
  mqtt_destroy,
}
use st_device_sdk_c.Core.Connect.{client}
use st_device_sdk_c.Server.Login.{read_world}

abbrev pub is_create : Call → Bool
is_create (mqtt_create type) = true
is_create _ = false

abbrev pub is_destroy : Call → Bool
is_destroy (mqtt_destroy type) = true
is_destroy _ = false

-- How many clients were made by the calls so far, and how many of them were ended.
abbrev pub made : Env → List Call → ℕ
made env [] = 0
made env (c ∷ h) = made env h + (if is_create c && env.answer h c == 0 then 1 else 0)

abbrev pub gone : List Call → ℕ
gone [] = 0
gone (c ∷ h) = gone h + (if is_destroy c then 1 else 0)

abbrev pub count : Bool → ℕ
count true = 1
count false = 0

-- Every client that there is is one of the context's, but for `held` more.
abbrev pub Balanced : Env → ℕ → World → Type 0
Balanced env held w =
    made env w.trace ≡ gone w.trace + count w.ctx.evt_mqttcli + count w.ctx.reg_mqttcli + held

-- The action leaves the balance, and puts no client into the context.
pub record Steady {A : Type 0} (env : Env) (m : M A) : Type 0 where
  pub at :
      (held : ℕ) (type : ConnectType) (w : World)
      → client type w.ctx ≡ false
      → Balanced env held w
      → (client type (m w).1.ctx ≡ false) × Balanced env held (m w).1

module _ {A : Type 0} {env : Env} where
  pub Steady-pure : (a : A) → Steady env (pure a)
  unfolding pure
  Steady-pure a = record { at = λ held type w free b. (free, b) }

  pub Steady-gets : (g : Context → A) → Steady env (gets g)
  unfolding gets
  Steady-gets g = record { at = λ held type w free b. (free, b) }

  pub Steady-read_world : (f : List Call → A) → Steady env (read_world f)
  unfolding read_world
  Steady-read_world f = record { at = λ held type w free b. (free, b) }

  pub Steady-if :
      (b : Bool) (m n : M A) → Steady env m → Steady env n → Steady env (if b then m else n)
  Steady-if true m n km kn = km
  Steady-if false m n km kn = kn

module _ {env : Env} where
  pub Steady-modify :
      (g : Context → Context)
      → ((c : Context) → (g c).evt_mqttcli ≡ c.evt_mqttcli)
      → ((c : Context) → (g c).reg_mqttcli ≡ c.reg_mqttcli)
      → Steady env (modify g)
  unfolding modify
  Steady-modify g evt reg = record {
    at = λ held type w free b. (same type w.ctx ∙ free, rw (evt w.ctx, reg w.ctx) b);
  }
    where
      same : (type : ConnectType) (c : Context) → client type (g c) ≡ client type c
      same registration c = reg c
      same communication c = evt c

  pub Steady-post : (c : Command) → Steady env (post c)
  unfolding post
  Steady-post c = record { at = λ held type w free b. (free, b) }

  pub Steady-call :
      (c : Call) → is_create c ≡ false → is_destroy c ≡ false → Steady env (call env c)
  unfolding call
  Steady-call c create destroy = record {
    at = λ held type w free b. (free, rw (create, destroy) (omega (arith, b)));
  }

  pub Steady-effect :
      (c : Call) → is_create c ≡ false → is_destroy c ≡ false → Steady env (effect env c)
  unfolding effect call
  Steady-effect c create destroy = record {
    at = λ held type w free b. (free, rw (create, destroy) (omega (arith, b)));
  }

  pub Steady-ask : (c : Call) → is_create c ≡ false → is_destroy c ≡ false → Steady env (ask env c)
  unfolding ask call
  Steady-ask c create destroy = record {
    at = λ held type w free b. (free, rw (create, destroy) (omega (arith, b)));
  }

module _ {A B : Type 0} {env : Env} where
  pub Steady-bind :
      (m : M A) (k : A → M B) → Steady env m → ((a : A) → Steady env (k a)) → Steady env (m >>= k)
  unfolding ◌>>=◌
  Steady-bind m k km kk = record {
    at = λ held type w free b.
        let (free', b') = km.at held type w free b in (kk (m w).0).at held type (m w).1 free' b';
  }

  pub Steady-option :
      (o : Option A) (m : M B) (k : A → M B)
      → Steady env m
      → ((a : A) → Steady env (k a))
      → Steady env (elim o [ none ↦ m | some a ↦ k a ])
  Steady-option none m k km kk = km
  Steady-option (some a) m k km kk = kk a

pub ruleset steady_rules = (
  Steady-pure, Steady-gets, Steady-read_world, Steady-if, Steady-modify, Steady-post, Steady-call,
  Steady-effect, Steady-ask, Steady-bind,
)
