-- ===== src/Server/Commits.antt =====
-- Actions that put the client in hand into the context, or fail
-- (src/easysetup/iot_easysetup_st_mqtt.c).
use st_device_sdk_c.Prelude.{
  ℕ, suc, ◌≡◌, ◌⊎◌, inl, inr, refl, ap, Bool, true, false, not, ◌==◌, if◌then◌else◌, arith,
}
use st_device_sdk_c.Errors.{IotError, error_none}
use st_device_sdk_c.Core.Context.{ConnectType, registration, communication}
use st_device_sdk_c.Core.Monad.{Call, Env, World, M, pure, ◌>>=◌, ◌>>◌, modify, call, effect}
use st_device_sdk_c.Core.Connect.{client, set_client}
use st_device_sdk_c.Server.Steady.{
  Steady, steady_rules, Steady-bind, Steady-modify, Balanced, made, gone, count, is_create,
  is_destroy,
}

-- With a client in hand that the context has not: on IOT_ERROR_NONE the context has it, else it is
-- still in hand.
pub record Commits (env : Env) (type : ConnectType) (m : M IotError) : Type 0 where
  pub at :
      (held : ℕ) (w : World)
      → client type w.ctx ≡ false
      → Balanced env (suc held) w
      → ((((m w).0 == error_none) ≡ true)
          × (client type (m w).1.ctx ≡ true)
          × Balanced env held (m w).1)
        ⊎ ((((m w).0 == error_none) ≡ false)
            × (client type (m w).1.ctx ≡ false)
            × Balanced env (suc held) (m w).1)

module _ {env : Env} {type : ConnectType} where
  pub Commits-failed :
      (err : IotError) → (not (err == error_none)) ≡ true → Commits env type (pure err)
  unfolding pure
  Commits-failed err bad = record { at = λ held w free b. inr (ground (arith, bad), free, b) }

  pub Commits-if :
      (b : Bool) (m n : M IotError)
      → (b ≡ true → Commits env type m)
      → (b ≡ false → Commits env type n)
      → Commits env type (if b then m else n)
  Commits-if true m n km kn = km refl
  Commits-if false m n km kn = kn refl

  pub Commits-bind :
      {A : Type 0} (m : M A) (k : A → M IotError)
      → Steady env m
      → ((a : A) → Commits env type (k a))
      → Commits env type (m >>= k)
  unfolding ◌>>=◌
  Commits-bind m k km kk = record {
    at = λ held w free b.
        let (free', b') = km.at (suc held) type w free b in (kk (m w).0).at held (m w).1 free' b';
  }

  -- A call behind the rest.
  pub Commits-after :
      (m : M IotError) (c : Call)
      → is_create c ≡ false
      → is_destroy c ≡ false
      → Commits env type m
      → Commits env type (m >>= λ err. effect env c >> pure err)
  unfolding ◌>>=◌ effect call pure
  Commits-after m c create destroy km = record {
    at = λ held w free b. elim (km.at held w free b) [
      | inl (ok, kept, b') ↦ inl (ok, kept, rw (create, destroy) (omega (arith, b')))
      | inr (bad, free', b') ↦ inr (bad, free', rw (create, destroy) (omega (arith, b')))
    ];
  }

pub Commits-keep :
    (env : Env) (type : ConnectType)
    → Commits env type (modify (set_client type true) >> pure error_none)
unfolding ◌>>=◌ modify pure
Commits-keep env registration = record {
  at = λ held w free b.
      let none_ : count w.ctx.reg_mqttcli ≡ 0 = ap count free in
      inl (refl, refl, omega (arith, b, none_));
}
Commits-keep env communication = record {
  at = λ held w free b.
      let none_ : count w.ctx.evt_mqttcli ≡ 0 = ap count free in
      inl (refl, refl, omega (arith, b, none_));
}

pub ruleset commits_rules =
    (steady_rules, Commits-failed, Commits-if, Commits-bind, Commits-after, Commits-keep)
